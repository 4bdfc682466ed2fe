-- ===== src/Graphs/Capture.antt =====
-- `capture` and `_self_check` of src/llm_serving_engine/model/piecewise_graph.py, on a paged pool and with
-- allocated buffers. `replayed` is as in Graphs/Segments, and `runs_out` says after how many of its warm-up
-- runs a bucket runs out of memory, if it does. Capturing a segment does not run it.
use llm_serving_engine.Base.{
  ℕ, zero, suc, Bool, true, false, Option, none, some, List, [], ◌∷◌, min, if◌then◌else◌, sorted,
  nat_order,
}
use mathlib.Core.List.{reverse}
use llm_serving_engine.Decoder.{Weights, Kernel}
use llm_serving_engine.Graphs.Segments.{Device, with_dummy, dummy_paging, run}

-- `sorted(bucket_sizes, reverse=True)`
unfoldable pub descending : List ℕ → List ℕ
unfolding sorted
descending sizes = reverse (sorted sizes)

abbrev pub unless_out : {A : Type 0} → Option ℕ → (ℕ → A) → A → A
unless_out (some runs) out fine = out runs
unless_out none out fine = fine

-- Out of memory, or a failed self-check, clears the graphs.
abbrev pub kept_graphs :
    {A : Type 0} → (ends agrees : Bool) → List ℕ → (checked last : A) → List ℕ × A
kept_graphs true true graphs checked last = (graphs, checked)
kept_graphs true false graphs checked last = ([], checked)
kept_graphs false agrees graphs checked last = ([], last)

module _ {X C Q K V L : Type 0} (w : Weights X C Q K V L) (kernel : Kernel Q K V)
    (replayed : (bucket segment : ℕ) → Device X C Q K V → Device X C Q K V) where
  -- `allclose` of the first `bucket` rows of `hidden`.
  module _ (allclose : (bucket : ℕ) → (ℕ → X) → (ℕ → X) → Bool) (block_size scratch : ℕ) where
    unfoldable pub dummy_run : Bool → (bucket : ℕ) → Device X C Q K V → Device X C Q K V
    unfolding run
    dummy_run replay bucket st =
        run w kernel replayed replay bucket
          (dummy_paging w kernel replayed block_size scratch bucket) st

    abbrev pub dummy_filled : (bucket : ℕ) → Device X C Q K V → Device X C Q K V
    dummy_filled = with_dummy w kernel replayed block_size scratch

    -- `_self_check`
    unfoldable pub self_check : List ℕ → Device X C Q K V → Bool × Device X C Q K V
    unfolding dummy_run
    self_check [] st = (true, st)
    self_check (bucket ∷ graphs) st =
        let eager = dummy_run false bucket (dummy_filled bucket st) in
        let again = dummy_run true bucket eager in
        let rest = self_check graphs again in
        if allclose bucket again.buffers.hidden eager.buffers.hidden then rest else (false, again)

    -- `for _ in range(3): self._run(...)`
    unfoldable pub warm_up : (count bucket : ℕ) → Device X C Q K V → Device X C Q K V
    unfolding dummy_run
    warm_up zero bucket st = st
    warm_up (suc count) bucket st = warm_up count bucket (dummy_run false bucket st)

    module _ (runs_out : ℕ → Option ℕ) where
      -- The loop over the buckets: whether it ends, the graphs it captured, and the device after it.
      unfoldable pub capture_all : List ℕ → Device X C Q K V → Bool × List ℕ × Device X C Q K V
      unfolding warm_up
      capture_all [] st = (true, [], st)
      capture_all (bucket ∷ buckets) st =
          let (ends, graphs, last) =
            capture_all buckets (warm_up 3 bucket (dummy_filled bucket st)) in
          unless_out (runs_out bucket)
            (λ runs. (false, [], warm_up (min runs 3) bucket (dummy_filled bucket st)))
            (ends, bucket ∷ graphs, last)

      -- `capture`: the graphs that are kept.
      unfoldable pub capture : List ℕ → Device X C Q K V → List ℕ × Device X C Q K V
      unfolding capture_all self_check descending
      capture bucket_sizes st =
          let (ends, graphs, last) = capture_all (descending bucket_sizes) st in
          let (agrees, checked) = self_check graphs last in
          kept_graphs ends agrees graphs checked last
