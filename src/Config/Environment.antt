-- ===== src/Config/Environment.antt =====
-- The configurations of src/llm_serving_engine/config.py that are read from the environment. A text is
-- its code points. `os.environ`, `int`, `float` and `str.lower` are parameters; `none` is an
-- exception, and a float is counted in thousandths. No variable holds a negative number.
use llm_serving_engine.Base.{
  ◌>>=◌, ℕ, ◌/◌, Bool, true, false, ◌||◌, ◌&&◌, Option, none, some, List, [], ◌∷◌, ◌==◌,
  if◌then◌else◌,
}
use llm_serving_engine.Config.{KvCacheConfig, default_kv_cache}

abbrev pub EnvText : Type 0
EnvText = List ℕ

pub data Var : Type 0 where
  llm_model llm_device llm_dtype llm_quantize llm_use_custom_kernels llm_use_cuda_graphs : Var
  llm_block_size llm_n_kv_heads llm_head_dim llm_n_layers llm_dtype_bytes llm_gpu_mem_util : Var
  llm_host llm_port llm_output_queue_maxsize : Var

abbrev pub same_text : EnvText → EnvText → Bool
same_text [] [] = true
same_text (c ∷ cs) (d ∷ ds) = c == d && same_text cs ds
same_text _ _ = false

-- `text in ("1", "true", "yes")`
abbrev pub is_yes : EnvText → Bool
is_yes text =
    same_text text (49 ∷ [])
    || same_text text (116 ∷ 114 ∷ 117 ∷ 101 ∷ [])
    || same_text text (121 ∷ 101 ∷ 115 ∷ [])

pub record ModelConfig : Type 0 where
  pub model_name_or_path : EnvText
  pub device : EnvText
  pub dtype : EnvText
  pub quantize : EnvText
  pub use_custom_kernels : Bool
  pub use_cuda_graphs : Bool

pub record ServerConfig : Type 0 where
  pub host : EnvText
  pub port : ℕ
  pub output_queue_maxsize : ℕ

-- What `from_model` reads off a model's configuration; `none` is an attribute that is not there.
pub record HfConfig : Type 0 where
  pub num_key_value_heads : Option ℕ
  pub head_dim : Option ℕ
  pub num_attention_heads : ℕ
  pub hidden_size : ℕ
  pub num_hidden_layers : ℕ

abbrev pub attr_or : Option ℕ → ℕ → ℕ
attr_or none default = default
attr_or (some value) default = value

-- `hidden_size // num_attention_heads`, which is computed whether it is needed or not.
abbrev pub head_width : HfConfig → Option ℕ
head_width hf =
    if hf.num_attention_heads == 0
    then none
    else some (attr_or hf.head_dim (hf.hidden_size / hf.num_attention_heads))

module _ (environ : Var → Option EnvText) (lower : EnvText → EnvText)
    (int float : EnvText → Option ℕ) where
  unfoldable pub env_str : Var → EnvText → EnvText
  env_str name default = elim (environ name) [ none ↦ default | some text ↦ text ]

  unfoldable pub env_int : Var → ℕ → Option ℕ
  env_int name default = elim (environ name) [ none ↦ some default | some text ↦ int text ]

  unfoldable pub env_float : Var → ℕ → Option ℕ
  env_float name default = elim (environ name) [ none ↦ some default | some text ↦ float text ]

  -- `str(default).lower()` is "true" or "false".
  unfoldable pub env_bool : Var → Bool → Bool
  env_bool name default = elim (environ name) [ none ↦ default | some text ↦ is_yes (lower text) ]

  -- `ModelConfig.from_env`, over the defaults of the class.
  unfoldable pub model_from_env : ModelConfig → ModelConfig
  unfolding env_str env_bool
  model_from_env d = record {
    model_name_or_path = env_str llm_model d.model_name_or_path;
    device = env_str llm_device d.device;
    dtype = env_str llm_dtype d.dtype;
    quantize = env_str llm_quantize d.quantize;
    use_custom_kernels = env_bool llm_use_custom_kernels d.use_custom_kernels;
    use_cuda_graphs = env_bool llm_use_cuda_graphs d.use_cuda_graphs;
  }

  -- `ServerConfig.from_env`, over the defaults of the class.
  unfoldable pub server_from_env : ServerConfig → Option ServerConfig
  unfolding env_str env_int
  server_from_env d = do
    port ← env_int llm_port d.port
    maxsize ← env_int llm_output_queue_maxsize d.output_queue_maxsize
    some (record { host = env_str llm_host d.host; port = port; output_queue_maxsize = maxsize })

  -- The variables of the pool, over a configuration.
  unfoldable pub kv_cache_over : KvCacheConfig → Option KvCacheConfig
  unfolding env_int env_float
  kv_cache_over d = do
    block_size ← env_int llm_block_size d.block_size
    n_kv_heads ← env_int llm_n_kv_heads d.n_kv_heads
    head_dim ← env_int llm_head_dim d.head_dim
    n_layers ← env_int llm_n_layers d.n_layers
    dtype_bytes ← env_int llm_dtype_bytes d.dtype_bytes
    utilization ← env_float llm_gpu_mem_util d.gpu_memory_utilization
    some (record {
      block_size = block_size;
      n_kv_heads = n_kv_heads;
      head_dim = head_dim;
      n_layers = n_layers;
      dtype_bytes = dtype_bytes;
      gpu_memory_utilization = utilization;
    })

  -- `KVCacheConfig.from_env`
  abbrev pub kv_cache_from_env : Option KvCacheConfig
  kv_cache_from_env = kv_cache_over default_kv_cache

  -- `KVCacheConfig.from_model`
  unfoldable pub from_model : HfConfig → (dtype_bytes : Option ℕ) → Option KvCacheConfig
  unfolding kv_cache_over
  from_model hf dtype_bytes = do
    width ← head_width hf
    kv_cache_over (record default_kv_cache {
      n_kv_heads = attr_or hf.num_key_value_heads hf.num_attention_heads;
      head_dim = width;
      n_layers = hf.num_hidden_layers;
      dtype_bytes = attr_or dtype_bytes default_kv_cache.dtype_bytes;
    })
