-- ===== src/Sampling.antt =====
-- src/llm_serving_engine/model/sampling.py: `SamplingParams` and its validation. The two floats
-- are counted in thousandths. A `max_tokens` at or below zero is refused, so zero stands for all
-- of those. `sample_tokens` is tensor code and is not here.
use llm_serving_engine.Base.{
  ℕ, not, ◌&&◌, Option, none, some, ℤ, pos, negsuc, ltb_ℤ, leb_ℤ, ◌==◌, if◌then◌else◌,
}

pub record SamplingParams : Type 0 where
  pub temperature : ℤ
  pub top_p : ℤ
  pub top_k : ℤ
  pub max_tokens : ℕ

abbrev pub one : ℤ
one = pos 1000

abbrev pub default_params : SamplingParams
default_params = record { temperature = one; top_p = one; top_k = negsuc 0; max_tokens = 256 }

pub data ParamError : Type 0 where
  bad_temperature bad_top_p bad_max_tokens : ParamError

-- `__post_init__`: the first check that fails raises.
unfoldable pub post_init : SamplingParams → Option ParamError
post_init p =
    if ltb_ℤ p.temperature (pos 0)
    then some bad_temperature
    else if not (ltb_ℤ (pos 0) p.top_p && leb_ℤ p.top_p one)
    then some bad_top_p
    else if p.max_tokens == 0
    then some bad_max_tokens
    else none
