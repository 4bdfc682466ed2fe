-- ===== src/Kernels/Online.antt =====
-- The online softmax of the kernels against `attention`.
use llm_serving_engine.Base.{
  ℕ, zero, suc, ◌+◌, ◌*◌, ◌≤◌, ◌<◌, ◌≡◌, refl, sym, ap, ◌∙◌, subst, Option, none, some, ◌>>=◌,
  arith,
}
use llm_serving_engine.Kernels.Numbers.{Numbers, sums, maxima, max_of}
use llm_serving_engine.Kernels.Folds.{fold, fold-split, fold-same, fold-trim, fold-map}
use llm_serving_engine.Kernels.Softmax.{
  Running, fresh_row, exp_from, rescale, tile, tiles, quotient, attention,
}

module _ {R : Type 0} (num : Numbers R) where
  -- Taking off another maximum is a factor.
  exp_from-shift :
      (s : Option R) (m m' : R)
      → num.mul (num.exp (num.sub m m')) (exp_from num s m) ≡ exp_from num s m'
  exp_from-shift none m m' = num.mul_zero (num.exp (num.sub m m'))
  exp_from-shift (some s) m m' = num.exp_sub s m m'

  module _ (block_n : ℕ) (s : ℕ → Option R) (v : ℕ → ℕ → R) where
    abbrev weights : R → ℕ → ℕ → R
    weights m a n = fold (sums num) (λ j. exp_from num (s j) m) a n

    abbrev values : R → ℕ → ℕ → ℕ → R
    values m d a n = fold (sums num) (λ j. num.mul (exp_from num (s j) m) (v j d)) a n

    -- What the loop has after the first `n` keys, brought to any maximum.
    record Has (n : ℕ) (st : Running num) : Type 0 where
      top : st.running_max ≡ fold (maxima num) s 0 n
      denom : (m : R) → num.mul (exp_from num st.running_max m) st.running_denom ≡ weights m 0 n
      acc : (m : R) (d : ℕ) → num.mul (st.acc d) (exp_from num st.running_max m) ≡ values m d 0 n

    fresh_row-Has : Has 0 (fresh_row num)
    unfolding fold
    fresh_row-Has = record {
      top = refl;
      denom = λ m. num.mul_zero num.zero;
      acc = λ m d. num.mul_zero num.zero;
    }

    weights-shift :
        (m m' : R) (a n : ℕ) → num.mul (num.exp (num.sub m m')) (weights m a n) ≡ weights m' a n
    weights-shift m m' a n =
        let factor = num.exp (num.sub m m') in
        fold-map (sums num) (num.mul factor) (num.mul_zero factor) (num.mul_add factor) _ a n
        ∙ fold-same (sums num) _ _ a n (λ j _ _. exp_from-shift (s j) m m')

    values-shift :
        (m m' : R) (d a n : ℕ) → num.mul (num.exp (num.sub m m')) (values m d a n) ≡ values m' d a n
    values-shift m m' d a n =
        let factor = num.exp (num.sub m m') in
        fold-map (sums num) (num.mul factor) (num.mul_zero factor) (num.mul_add factor) _ a n
        ∙ fold-same (sums num) _ _ a n (λ j _ _.
          sym (num.mul_assoc factor (exp_from num (s j) m) (v j d))
          ∙ ap (λ p. num.mul p (v j d)) (exp_from-shift (s j) m m'))

    rescale-Has :
        (n : ℕ) (st : Running num) (m : R)
        → Has n st
        → max_of num st.running_max (fold (maxima num) s n block_n) ≡ some m
        → Has (n + block_n) (rescale num block_n s v n st m)
    unfolding rescale
    rescale-Has n st m h new =
        let here : 0 + n ≡ n = omega arith in
        let denom : num.add (num.mul (exp_from num st.running_max m) st.running_denom)
              (weights m n block_n)
            ≡ weights m 0 (n + block_n) =
          ap (λ x. num.add x (weights m n block_n)) (h.denom m)
          ∙ (ap (λ a. num.add (weights m 0 n) (weights m a block_n)) (sym here)
              ∙ sym (fold-split (sums num) _ 0 n block_n)) in
        let acc = λ (d : ℕ).
          ap (λ x. num.add x (values m d n block_n)) (h.acc m d)
          ∙ (ap (λ a. num.add (values m d 0 n) (values m d a block_n)) (sym here)
              ∙ sym (fold-split (sums num) _ 0 n block_n)) in
        record {
          top =
              sym new
              ∙ (ap (λ t. max_of num t (fold (maxima num) s n block_n)) h.top
                  ∙ (ap (λ a. max_of num (fold (maxima num) s 0 n) (fold (maxima num) s a block_n))
                        (sym here)
                      ∙ sym (fold-split (maxima num) s 0 n block_n)));
          denom = λ m'.
              ap (num.mul (num.exp (num.sub m m'))) denom ∙ weights-shift m m' 0 (n + block_n);
          acc = λ m' d.
              num.mul_comm _ (num.exp (num.sub m m'))
              ∙ (ap (num.mul (num.exp (num.sub m m'))) (acc d)
                  ∙ values-shift m m' d 0 (n + block_n));
        }

    abbrev HasMax : Running num → Type 0
    HasMax st = (m : R) × (st.running_max ≡ some m)

    tile-Has :
        (n : ℕ) (st : Running num) (m : R)
        → Has n st
        → max_of num st.running_max (fold (maxima num) s n block_n) ≡ some m
        → (next : Running num) × (tile num block_n s v n st ≡ some next)
          × Has (n + block_n) next
          × HasMax next
    unfolding tile rescale
    tile-Has n st m h new =
        (rescale num block_n s v n st m, rw new refl, rescale-Has n st m h new, (m, refl))

    max_of-some : (m : R) (b : Option R) → (m' : R) × (max_of num (some m) b ≡ some m')
    max_of-some m none = (m, refl)
    max_of-some m (some b) = (num.max m b, refl)

    tiles-Has :
        (count n : ℕ) (st : Running num)
        → Has n st
        → HasMax st
        → (last : Running num) × (tiles num block_n s v count n st ≡ some last)
          × Has (n + count * block_n) last
          × HasMax last
    unfolding tiles
    tiles-Has zero n st h top =
        let all : n ≡ n + 0 * block_n = omega arith in (st, refl, subst (λ k. Has k st) all h, top)
    tiles-Has (suc count) n st h (m, top) =
        let (m', new) = max_of-some m (fold (maxima num) s n block_n) in
        let (next, one, h', top') =
          tile-Has n st m' h (ap (λ t. max_of num t (fold (maxima num) s n block_n)) top ∙ new) in
        let (last, rest, end, top'') = tiles-Has count (n + block_n) next h' top' in
        let all : n + block_n + count * block_n ≡ n + suc count * block_n = grind arith in
        (last, rw (one, ◌>>=◌) rest, subst (λ k. Has k last) all end, top'')

    -- Of a first tile whose first key is seen.
    first_max :
        (x : R) (k : ℕ) → 0 < k → s 0 ≡ some x → (m : R) × (fold (maxima num) s 0 k ≡ some m)
    unfolding fold
    first_max x zero h seen = absurd (omega (arith, h))
    first_max x (suc k) h seen =
        let (m, top) = max_of-some x (fold (maxima num) s 1 k) in
        (m, ap (λ o. max_of num o (fold (maxima num) s 1 k)) seen ∙ top)

    attention-Has :
        (n seen : ℕ) (st : Running num) (m : R) (d : ℕ)
        → n ≤ seen
        → ((j : ℕ) → n ≤ j → s j ≡ none)
        → Has seen st
        → st.running_max ≡ some m
        → attention num s v n d ≡ some (quotient num st d)
    unfolding attention
    attention-Has n seen st m d le hidden h top =
        let max_is : fold (maxima num) s 0 n ≡ some m =
          sym (fold-trim (maxima num) s n seen le hidden) ∙ (sym h.top ∙ top) in
        let no_weight = λ (j : ℕ) (b : n ≤ j). ap (λ o. exp_from num o m) (hidden j b) in
        let denom : weights m 0 n ≡ st.running_denom =
          sym (fold-trim (sums num) _ n seen le no_weight)
          ∙ (sym (h.denom m)
              ∙ (ap (λ o. num.mul (exp_from num o m) st.running_denom) top
                  ∙ num.exp_same m st.running_denom)) in
        let acc : values m d 0 n ≡ st.acc d =
          sym (
            fold-trim (sums num) _ n seen le (λ j b.
              ap (λ p. num.mul p (v j d)) (no_weight j b)
              ∙ (num.mul_comm num.zero (v j d) ∙ num.mul_zero (v j d))))
          ∙ (sym (h.acc m d)
              ∙ (ap (λ o. num.mul (st.acc d) (exp_from num o m)) top
                  ∙ (num.mul_comm (st.acc d) _ ∙ num.exp_same m (st.acc d)))) in
        rw (max_is, ◌>>=◌)
          (ap some (ap (λ a. num.div a (weights m 0 n)) acc ∙ ap (num.div (st.acc d)) denom))

    -- The tiles cover the `n` keys that are seen, and the first one is seen.
    pub tiles-attention :
        (n count : ℕ) (x : R)
        → 0 < block_n
        → 0 < count
        → n ≤ count * block_n
        → s 0 ≡ some x
        → ((j : ℕ) → n ≤ j → s j ≡ none)
        → (last : Running num) × (tiles num block_n s v count 0 (fresh_row num) ≡ some last)
          × ((d : ℕ) → attention num s v n d ≡ some (quotient num last d))
    unfolding tiles
    tiles-attention n zero x positive some_tile covers seen hidden =
        absurd (omega (arith, some_tile))
    tiles-attention n (suc count) x positive some_tile covers seen hidden =
        let (m, top) = first_max x block_n positive seen in
        let (next, one, h, has) = tile-Has 0 (fresh_row num) m fresh_row-Has top in
        let (last, rest, end, (m', top')) = tiles-Has count (0 + block_n) next h has in
        let enough : n ≤ 0 + block_n + count * block_n = grind (arith, covers) in
        (
          last,
          rw (one, ◌>>=◌) rest,
          λ d. attention-Has n (0 + block_n + count * block_n) last m' d enough hidden end top',
        )
