-- ===== src/Graphs.antt =====
-- The CUDA graph buckets of src/llm_serving_engine/model/decode_graph.py and piecewise_graph.py, and
-- which path `ModelRunner.forward` takes.
pub mod Buckets
pub mod Plans
pub mod Fill
pub mod Cells
pub mod Replay
pub mod Segments
pub mod Entered
pub mod Padding
pub mod Runs
pub mod Piecewise
pub mod Capture
pub mod Startup
pub mod Served
use llm_serving_engine.Base.{
  ℕ, zero, suc, ◌+◌, ◌*◌, ◌^◌, min, Bool, true, false, not, ◌&&◌, Option, none, some, List, [], ◌∷◌,
  ◌++◌, length, map, range, sorted, nat_order, ltb, leb, ◌==◌, if◌then◌else◌, total,
}
use llm_serving_engine.Sequence.{BatchEntry}

-- The `while` loop of `decode_graph_buckets`, from the last bucket on.
unfoldable pub double_until : ℕ → ℕ → ℕ → List ℕ
double_until zero max_batch last = []
double_until (suc fuel) max_batch last =
    let rest = (last * 2) ∷ double_until fuel max_batch (last * 2) in
    if ltb last max_batch then rest else []

-- The last bucket doubles from 1, so `max_batch` rounds pass it.
unfoldable pub decode_graph_buckets : ℕ → List ℕ
unfolding double_until
decode_graph_buckets max_batch = 1 ∷ double_until max_batch max_batch 1

-- The two sets of sizes have no common element, so their union is their concatenation.
unfoldable pub candidates : List ℕ
unfolding sorted
candidates = sorted (map (λ i. 2 ^ i) (range 4 16) ++ map (λ i. 3 * 2 ^ i) (range 3 16))

unfoldable pub below : ℕ → List ℕ → List ℕ
below n [] = []
below n (x ∷ xs) = if ltb x n then x ∷ below n xs else below n xs

unfoldable pub piecewise_graph_buckets : ℕ → List ℕ
unfolding below
piecewise_graph_buckets max_tokens = below max_tokens candidates ++ max_tokens ∷ []

abbrev least : ℕ → Option ℕ → Option ℕ
least b none = some b
least b (some c) = some (min b c)

-- `min((b for b in self.graphs if b >= n), default=None)`, in both runners.
unfoldable pub bucket_for : ℕ → List ℕ → Option ℕ
bucket_for n [] = none
bucket_for n (b ∷ bs) = if leb n b then least b (bucket_for n bs) else bucket_for n bs

abbrev pub pure_decode : List BatchEntry → Bool
pure_decode [] = true
pure_decode (e ∷ es) = not e.is_prefill_chunk && pure_decode es

-- The four paths of `ModelRunner.forward`.
pub data ForwardPath : Type 0 where
  per_sequence : ForwardPath
  decode_graph : ℕ → ForwardPath
  piecewise_graph : ℕ → ForwardPath
  fused : ForwardPath

pub record Graphs : Type 0 where
  pub use_custom_kernels : Bool
  pub decode_buckets : List ℕ
  pub piecewise_buckets : List ℕ

unfoldable pub eager_or_piecewise : Graphs → List BatchEntry → ForwardPath
eager_or_piecewise g plan = elim (bucket_for (total (λ e. e.n_tokens) plan) g.piecewise_buckets) [
  | some b ↦ piecewise_graph b
  | none ↦ fused
]

abbrev replay_or_else : Option ℕ → ForwardPath → ForwardPath
replay_or_else (some b) other = decode_graph b
replay_or_else none other = other

unfoldable pub forward_path : Graphs → List BatchEntry → ForwardPath
forward_path g plan =
    if not g.use_custom_kernels
    then per_sequence
    else if pure_decode plan
    then replay_or_else (bucket_for (length plan) g.decode_buckets) (eager_or_piecewise g plan)
    else eager_or_piecewise g plan
