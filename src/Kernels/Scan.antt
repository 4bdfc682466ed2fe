-- ===== src/Kernels/Scan.antt =====
-- A lane's scan against the reference.
use mathlib.Core.Path.{fun_ext}
use llm_serving_engine.Base.{
  ℕ, zero, suc, ◌+◌, ◌*◌, ◌≤◌, ◌<◌, ◌≡◌, refl, sym, ap, ◌∙◌, Bool, true, false, ◌&&◌, Option, none,
  some, ltb, if◌then◌else◌, ◌>>=◌, arith, Bool-cases, inl, inr,
}
use llm_serving_engine.Allocator.Block.{ceil_div}
use llm_serving_engine.Allocator.Cover.{le-ceil_div-mul}
use llm_serving_engine.Kernels.Numbers.{Numbers, sums, maxima}
use llm_serving_engine.Kernels.Folds.{fold, fold-same, fold-trim}
use llm_serving_engine.Kernels.Softmax.{exp_from, quotient, weighted, attention}
use llm_serving_engine.Kernels.Online.{tiles-attention}
use llm_serving_engine.Kernels.Lanes.{
  LaneReads, Blocks, masked_load, score, loaded_value, scan, scaled_dot, true_score, reference,
}

-- No key from `end_n` on is visible.
abbrev pub IsEnd : (n_keys : ℕ) → (ℕ → Bool) → ℕ → Type 0
IsEnd n_keys visible end_n = (j : ℕ) → end_n ≤ j → j < n_keys → visible j ≡ false

pub some_round : (rounds size n : ℕ) → 0 < n → n ≤ rounds * size → 0 < rounds
some_round zero size n h le = absurd (omega (arith, h, le))
some_round (suc rounds) size n h le = omega arith

module _ {R : Type 0} (num : Numbers R) where
  cong_div : {a a' c c' : R} → a ≡ a' → c ≡ c' → num.div a c ≡ num.div a' c'
  cong_div {a} {a'} {c} {c'} e f = ap (λ x. num.div x c) e ∙ ap (num.div a') f

  from_zero : (n j : ℕ) → j < 0 + n → j < n
  from_zero n j h = omega (arith, h)

  -- Keys that are not seen may be left out behind.
  attention-trim :
      (s : ℕ → Option R) (v : ℕ → ℕ → R) (n k d : ℕ)
      → n ≤ k
      → ((j : ℕ) → n ≤ j → s j ≡ none)
      → attention num s v k d ≡ attention num s v n d
  unfolding attention
  attention-trim s v n k d le hidden =
      let at_top = λ (m : R).
        let weights =
          fold-trim (sums num) (λ j. exp_from num (s j) m) n k le
            (λ j b. ap (λ o. exp_from num o m) (hidden j b)) in
        let values =
          fold-trim (sums num) (λ j. num.mul (exp_from num (s j) m) (v j d)) n k le
            (λ j b.
              ap (λ o. num.mul (exp_from num o m) (v j d)) (hidden j b)
              ∙ (num.mul_comm num.zero (v j d) ∙ num.mul_zero (v j d))) in
        cong_div values weights in
      ap (λ o. o >>= λ m. some (weighted num s v k d m)) (fold-trim (maxima num) s n k le hidden)
      ∙ ap (λ f. fold (maxima num) s 0 n >>= f) (fun_ext λ m. ap some (at_top m))

  attention-same :
      (s s' : ℕ → Option R) (v v' : ℕ → ℕ → R) (n d : ℕ)
      → ((j : ℕ) → j < n → s j ≡ s' j)
      → ((j : ℕ) → j < n → v j d ≡ v' j d)
      → attention num s v n d ≡ attention num s' v' n d
  unfolding attention
  attention-same s s' v v' n d scores values =
      let scored = λ (j : ℕ) (_ : 0 ≤ j) (b : j < 0 + n). scores j (from_zero n j b) in
      let valued = λ (j : ℕ) (_ : 0 ≤ j) (b : j < 0 + n). values j (from_zero n j b) in
      let at_top = λ (m : R).
        cong_div
          (fold-same (sums num) (λ j. num.mul (exp_from num (s j) m) (v j d))
            (λ j. num.mul (exp_from num (s' j) m) (v' j d)) 0 n
            (λ j a b.
              ap (λ o. num.mul (exp_from num o m) (v j d)) (scored j a b)
              ∙ ap (num.mul (exp_from num (s' j) m)) (valued j a b)))
          (fold-same (sums num) (λ j. exp_from num (s j) m) (λ j. exp_from num (s' j) m) 0 n
            (λ j a b. ap (λ o. exp_from num o m) (scored j a b))) in
      ap (λ o. o >>= λ m. some (weighted num s v n d m)) (fold-same (maxima num) s s' 0 n scored)
      ∙ ap (λ f. fold (maxima num) s' 0 n >>= f) (fun_ext λ m. ap some (at_top m))

  module _ (b : Blocks R) (reads : LaneReads R) where
    dot-lanes :
        (j : ℕ)
        → b.head_dim ≤ b.block_d
        → fold
            (sums num)
            (λ d.
              num.mul
                (masked_load num b reads (true && ltb d b.head_dim) (reads.query d))
                (masked_load num b reads (true && ltb d b.head_dim) (reads.key j d)))
            0
            b.block_d
          ≡ fold (sums num) (λ d. num.mul (reads.query d) (reads.key j d)) 0 b.head_dim
    dot-lanes j fits =
        fold-trim (sums num) _ b.head_dim b.block_d fits (λ d le.
          let out : ltb d b.head_dim ≡ false = ground (arith, le) in rw out (num.mul_zero num.zero))
        ∙ fold-same (sums num) _ _ 0 b.head_dim
            (λ d _ lt. let inside : ltb d b.head_dim ≡ true = ground (arith, lt) in rw inside refl)

    module _ (n_keys : ℕ) (visible : ℕ → Bool) (fits : b.head_dim ≤ b.block_d) where
      score-true :
          (j : ℕ)
          → j < n_keys
          → score num b reads true n_keys visible j
            ≡ true_score num b.head_dim b.softmax_scale reads visible j
      unfolding score
      score-true j lt =
          let inside : ltb j n_keys ≡ true = ground (arith, lt) in
          rw (inside, dot-lanes j fits) refl

      module _ (end_n : ℕ) (le : end_n ≤ n_keys) (hides : IsEnd n_keys visible end_n) where
        score-none : (j : ℕ) → end_n ≤ j → score num b reads true n_keys visible j ≡ none
        unfolding score
        score-none j past = elim (Bool-cases (ltb j n_keys)) [
          | inl inside ↦ rw (inside, hides j past (ground (arith, inside))) refl
          | inr out ↦ rw out refl
        ]

        pub scan-reference :
            0 < b.block_n
            → 0 < end_n
            → visible 0 ≡ true
            → (row : ℕ → R) × (scan num b reads true n_keys visible end_n ≡ some row)
              × ((d : ℕ)
                  → d < b.head_dim
                  → reference num b.head_dim b.softmax_scale reads n_keys visible d ≡ some (row d))
        unfolding scan reference
        scan-reference positive some_key first =
            let s = score num b reads true n_keys visible in
            let v = loaded_value num b reads n_keys in
            let seen : s 0 ≡ some (scaled_dot num b.head_dim b.softmax_scale reads 0) =
              score-true 0 (omega (arith, some_key, le)) ∙ rw first refl in
            let enough = le-ceil_div-mul end_n b.block_n positive in
            let some_tile : 0 < ceil_div end_n b.block_n =
              some_round (ceil_div end_n b.block_n) b.block_n end_n some_key enough in
            let (last, returns, same) =
              tiles-attention num b.block_n s v end_n (ceil_div end_n b.block_n)
                (scaled_dot num b.head_dim b.softmax_scale reads 0) positive some_tile enough seen
                score-none in
            (
              quotient num last,
              rw (returns, ◌>>=◌) refl,
              λ d lt.
                  sym (
                    attention-same s (true_score num b.head_dim b.softmax_scale reads visible) v
                      reads.value n_keys d score-true
                      (λ j jn.
                        let lane : ltb d b.head_dim ≡ true = ground (arith, lt) in
                        let inside : ltb j n_keys ≡ true = ground (arith, jn) in
                        rw (lane, inside) refl))
                  ∙ (attention-trim s v end_n n_keys d le score-none ∙ same d),
            )

  module _ (head_dim : ℕ) (scale : R) (reads reads' : LaneReads R) where
    -- The reads of a lane, up to the lanes and the keys that count.
    pub reference-same :
        (n_keys d : ℕ) (visible : ℕ → Bool)
        → ((d : ℕ) → d < head_dim → reads.query d ≡ reads'.query d)
        → ((j d : ℕ) → j < n_keys → d < head_dim → reads.key j d ≡ reads'.key j d)
        → ((j : ℕ) → j < n_keys → reads.value j d ≡ reads'.value j d)
        → reference num head_dim scale reads n_keys visible d
          ≡ reference num head_dim scale reads' n_keys visible d
    unfolding reference
    reference-same n_keys d visible queries keys values =
        attention-same (true_score num head_dim scale reads visible)
          (true_score num head_dim scale reads' visible) reads.value reads'.value n_keys d
          (λ j lt.
            ap (λ x. if visible j then some (num.mul x scale) else none)
              (fold-same (sums num) _ _ 0 head_dim (λ d _ b.
                ap (λ x. num.mul x (reads.key j d)) (queries d (from_zero head_dim d b))
                ∙ ap (num.mul (reads'.query d)) (keys j d lt (from_zero head_dim d b)))))
          values
