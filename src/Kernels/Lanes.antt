-- ===== src/Kernels/Lanes.antt =====
-- What one lane of a kernel loads and computes, from the reads that its pointers name. Both kernels
-- mask, score and scan alike.
use llm_serving_engine.Base.{ℕ, Bool, ◌&&◌, Option, none, some, ltb, if◌then◌else◌, ◌>>=◌}
use llm_serving_engine.Allocator.Block.{ceil_div}
use llm_serving_engine.Kernels.Numbers.{Numbers, sums}
use llm_serving_engine.Kernels.Folds.{fold}
use llm_serving_engine.Kernels.Softmax.{fresh_row, tiles, quotient, attention}

-- The reads of a query row: its lanes, and those of the keys and values by position.
pub record LaneReads (R : Type 0) : Type 0 where
  pub query : ℕ → R
  pub key : ℕ → ℕ → R
  pub value : ℕ → ℕ → R

-- The sizes that a kernel is compiled for, and the length of a head.
pub record Blocks (R : Type 0) : Type 0 where
  pub block_m : ℕ
  pub block_n : ℕ
  pub block_d : ℕ
  pub head_dim : ℕ
  pub softmax_scale : R

module _ {R : Type 0} (num : Numbers R) (b : Blocks R) (reads : LaneReads R) where
  -- `tl.load(..., mask=..., other=0.0)`
  abbrev pub masked_load : Bool → R → R
  masked_load mask x = if mask then x else num.zero

  -- A masked score: `n_keys` bounds the keys, and `visible` is the causal mask.
  unfoldable pub score : (m_mask : Bool) (n_keys : ℕ) → (ℕ → Bool) → ℕ → Option R
  unfolding fold
  score m_mask n_keys visible j =
      let dot =
        fold (sums num)
          (λ d.
            num.mul (masked_load (m_mask && ltb d b.head_dim) (reads.query d))
              (masked_load (ltb j n_keys && ltb d b.head_dim) (reads.key j d)))
          0 b.block_d in
      if m_mask && (ltb j n_keys && visible j) then some (num.mul dot b.softmax_scale) else none

  abbrev pub loaded_value : ℕ → ℕ → ℕ → R
  loaded_value n_keys j d = masked_load (ltb j n_keys && ltb d b.head_dim) (reads.value j d)

  -- `for start_n in range(0, end_n, BLOCK_N)`, and the division behind it.
  unfoldable pub scan : (m_mask : Bool) (n_keys : ℕ) → (ℕ → Bool) → (end_n : ℕ) → Option (ℕ → R)
  unfolding score tiles ceil_div
  scan m_mask n_keys visible end_n =
      tiles num b.block_n (score m_mask n_keys visible) (loaded_value n_keys)
        (ceil_div end_n b.block_n) 0 (fresh_row num)
      >>= λ last. some (quotient num last)

-- Attention of a query row over the first `n_keys` keys, of which those that are `visible` count.
module _ {R : Type 0} (num : Numbers R) (head_dim : ℕ) (softmax_scale : R)
    (reads : LaneReads R) where
  abbrev pub scaled_dot : ℕ → R
  scaled_dot j =
      num.mul (fold (sums num) (λ d. num.mul (reads.query d) (reads.key j d)) 0 head_dim)
        softmax_scale

  abbrev pub true_score : (ℕ → Bool) → ℕ → Option R
  true_score visible j = if visible j then some (scaled_dot j) else none

  unfoldable pub reference : (n_keys : ℕ) → (ℕ → Bool) → ℕ → Option R
  unfolding attention fold
  reference n_keys visible d = attention num (true_score visible) reads.value n_keys d
