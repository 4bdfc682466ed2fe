-- ===== src/Examples/Configs.antt =====
-- Sizes of pools, src/llm_serving_engine/config.py, for the default shape.
use llm_serving_engine.Base.{Option, none, some, ◌≡◌, refl}
use llm_serving_engine.Config.{default_kv_cache, num_blocks}
use llm_serving_engine.Config.Environment.{
  EnvText, Var, HfConfig, env_int, env_float, kv_cache_over, from_model,
}

two_gib : num_blocks default_kv_cache 2147483648 ≡ 972
unfolding num_blocks
two_gib = refl

-- Without variables the pool has the shape of the model: 24 heads of 128 with 8 K/V heads.
abbrev nothing_set : Var → Option EnvText
nothing_set name = none

abbrev small_llama : HfConfig
small_llama = record {
  num_key_value_heads = some 8;
  head_dim = none;
  num_attention_heads = 24;
  hidden_size = 3072;
  num_hidden_layers = 28;
}

llama_pool :
    from_model nothing_set (λ text. text) (λ text. none) (λ text. none) small_llama (some 2)
    ≡ some (record default_kv_cache { n_layers = 28 })
unfolding from_model kv_cache_over env_int env_float
llama_pool = refl
