-- ===== src/Server.antt =====
-- src/llm_serving_engine/server.py: the answer to a request, and the handle that switches models.
pub mod Stream
pub mod Switch
pub mod Drained
pub mod Answers
use llm_serving_engine.Base.{ℕ, Option, none, some, ℤ}
use llm_serving_engine.Sampling.{SamplingParams, default_params, ParamError, post_init}

pub record GenerateRequest : Type 0 where
  pub max_tokens : Option ℕ
  pub temperature : Option ℤ
  pub top_p : Option ℤ

abbrev pub given {ℓ} : {A : Type ℓ} → A → Option A → A
given default none = default
given default (some value) = value

-- `_sampling_params`: the fields that the body gives override the defaults; `none` where
-- `__post_init__` raises.
unfoldable pub sampling_params : GenerateRequest → Option SamplingParams
unfolding post_init
sampling_params body =
    let params : SamplingParams = record default_params {
      max_tokens = given default_params.max_tokens body.max_tokens;
      temperature = given default_params.temperature body.temperature;
      top_p = given default_params.top_p body.top_p;
    } in
    elim (post_init params) [ none ↦ some params | some raised ↦ none ]
