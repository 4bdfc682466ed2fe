-- ===== src/Kernels/Softmax.antt =====
-- The loop that both kernels have, for one query row: the online softmax over tiles of keys. `none`
-- is a NaN, which the exponential of -inf - (-inf) gives.
use llm_serving_engine.Base.{ℕ, zero, suc, ◌+◌, Option, none, some, ◌>>=◌}
use llm_serving_engine.Kernels.Numbers.{Numbers, sums, maxima, max_of}
use llm_serving_engine.Kernels.Folds.{fold}

module _ {R : Type 0} (num : Numbers R) where
  pub record Running : Type 0 where
    pub running_max : Option R
    pub running_denom : R
    pub acc : ℕ → R

  abbrev pub fresh_row : Running
  fresh_row = record { running_max = none; running_denom = num.zero; acc = λ d. num.zero }

  -- `tl.exp(s - m)`
  abbrev pub exp_from : Option R → R → R
  exp_from none m = num.zero
  exp_from (some s) m = num.exp (num.sub s m)

  -- `s` is a key's masked score, and `v` its value, lane by lane.
  module _ (block_n : ℕ) (s : ℕ → Option R) (v : ℕ → ℕ → R) where
    unfoldable pub rescale : ℕ → Running → R → Running
    unfolding fold
    rescale start st new_max =
        let alpha = exp_from st.running_max new_max in
        let p = λ (j : ℕ). exp_from (s j) new_max in
        record {
          running_max = some new_max;
          running_denom =
              num.add (num.mul alpha st.running_denom) (fold (sums num) p start block_n);
          acc = λ d.
              num.add (num.mul (st.acc d) alpha)
                (fold (sums num) (λ j. num.mul (p j) (v j d)) start block_n);
        }

    -- One round of the loop, for the tile from `start` on.
    unfoldable pub tile : ℕ → Running → Option Running
    unfolding rescale
    tile start st = max_of num st.running_max (fold (maxima num) s start block_n) >>= λ new_max.
        some (rescale start st new_max)

    unfoldable pub tiles : (count start : ℕ) → Running → Option Running
    unfolding tile
    tiles zero start st = some st
    tiles (suc count) start st = do next ← tile start st; tiles count (start + block_n) next

  -- `acc / running_denom[:, None]`
  abbrev pub quotient : Running → ℕ → R
  quotient st d = num.div (st.acc d) st.running_denom

  abbrev pub weighted : (ℕ → Option R) → (ℕ → ℕ → R) → (n d : ℕ) → R → R
  weighted s v n d top =
      num.div (fold (sums num) (λ j. num.mul (exp_from (s j) top) (v j d)) 0 n)
        (fold (sums num) (λ j. exp_from (s j) top) 0 n)

  -- Softmax attention over the first `n` keys, with the maximum of all scores taken off first.
  unfoldable pub attention : (ℕ → Option R) → (ℕ → ℕ → R) → ℕ → ℕ → Option R
  unfolding fold
  attention s v n d = fold (maxima num) s 0 n >>= λ top. some (weighted s v n d top)
