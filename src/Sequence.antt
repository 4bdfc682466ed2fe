-- ===== src/Sequence.antt =====
-- src/llm_serving_engine/scheduling/sequence.py and batch_plan.py: the plain data that the
-- scheduler, the allocators and the model runner pass around. A Python object that is held in
-- exactly one list is a value in that list; `seq_id` is its identity.
use llm_serving_engine.Base.{
  ℕ, ◌+◌, ◌-◌, Bool, true, false, List, [], ◌∷◌, ◌++◌, length, take, drop, leb, if◌then◌else◌,
}
use llm_serving_engine.Sampling.{SamplingParams}
use llm_serving_engine.Metrics.{RequestMetrics}

pub data SequenceStatus : Type 0 where
  waiting prefilling decoding : SequenceStatus

pub record BlockTable : Type 0 where
  pub physical_blocks : List ℕ
  pub num_tokens : ℕ
  pub reserved_tokens : ℕ

abbrev pub empty_table : BlockTable
empty_table = record { physical_blocks = []; num_tokens = 0; reserved_tokens = 0 }

pub record Sequence : Type 0 where
  pub seq_id : ℕ
  pub prompt_tokens : List ℕ
  pub sampling_params : SamplingParams
  pub metrics : RequestMetrics
  pub generated_tokens : List ℕ
  pub block_table : BlockTable
  pub status : SequenceStatus
  pub prefill_progress : ℕ
  pub admission_skips : ℕ

-- The property `Sequence.num_tokens`: prompt plus generated.
abbrev pub num_tokens : Sequence → ℕ
num_tokens s = length s.prompt_tokens + length s.generated_tokens

-- `l[start:end]`
abbrev pub slice : List ℕ → ℕ → ℕ → List ℕ
slice l start end = take (end - start) (drop start l)

unfoldable pub prefill_token_ids : Sequence → ℕ → ℕ → List ℕ
prefill_token_ids s start end =
    if leb end (length s.prompt_tokens)
    then slice s.prompt_tokens start end
    else slice (s.prompt_tokens ++ s.generated_tokens) start end

abbrev pub is_decoding : SequenceStatus → Bool
is_decoding decoding = true
is_decoding _ = false

abbrev pub is_prefilling : SequenceStatus → Bool
is_prefilling prefilling = true
is_prefilling _ = false

pub record BatchEntry : Type 0 where
  pub seq_id : ℕ
  pub n_tokens : ℕ
  pub is_prefill_chunk : Bool

pub record BatchPlan : Type 0 where
  pub entries : List BatchEntry
  pub preempted : List ℕ
  pub rejected : List Sequence

abbrev pub empty_plan : BatchPlan
empty_plan = record { entries = []; preempted = []; rejected = [] }

abbrev pub entry_for : Sequence → ℕ → Bool → BatchEntry
entry_for s n chunk = record { seq_id = s.seq_id; n_tokens = n; is_prefill_chunk = chunk }

-- `BatchPlan.add`
abbrev pub add : BatchPlan → Sequence → ℕ → Bool → BatchPlan
add plan s n chunk = record plan { entries = plan.entries ++ entry_for s n chunk ∷ [] }
