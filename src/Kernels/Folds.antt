-- ===== src/Kernels/Folds.antt =====
-- Reductions over consecutive positions, `tl.sum`, `tl.max` and `tl.dot`.
use llm_serving_engine.Base.{ℕ, zero, suc, ◌+◌, ◌-◌, ◌≤◌, ◌<◌, ◌≡◌, refl, sym, ap, ◌∙◌, arith}
use llm_serving_engine.Kernels.Numbers.{Monoid}

module _ {A : Type 0} (m : Monoid A) where
  -- Over the `n` positions from `a` on.
  unfoldable pub fold : (ℕ → A) → ℕ → ℕ → A
  fold f a zero = m.unit
  fold f a (suc n) = m.op (f a) (fold f (suc a) n)

  pub fold-split : (f : ℕ → A) (a n k : ℕ) → fold f a (n + k) ≡ m.op (fold f a n) (fold f (a + n) k)
  unfolding fold
  fold-split f a zero k =
      let none_more : 0 + k ≡ k = omega arith in
      let here : a ≡ a + 0 = omega arith in
      ap (fold f a) none_more ∙ (ap (λ b. fold f b k) here ∙ sym (m.left_unit (fold f (a + 0) k)))
  fold-split f a (suc n) k =
      let more : suc n + k ≡ suc (n + k) = omega arith in
      let there : suc a + n ≡ a + suc n = omega arith in
      ap (fold f a) more
      ∙ (ap (m.op (f a))
            (fold-split f (suc a) n k ∙ ap (λ b. m.op (fold f (suc a) n) (fold f b k)) there)
          ∙ sym (m.assoc (f a) (fold f (suc a) n) (fold f (a + suc n) k)))

  pub fold-same :
      (f g : ℕ → A) (a n : ℕ) → ((j : ℕ) → a ≤ j → j < a + n → f j ≡ g j) → fold f a n ≡ fold g a n
  unfolding fold
  fold-same f g a zero h = refl
  fold-same f g a (suc n) h =
      ap (λ x. m.op x (fold f (suc a) n)) (h a (omega arith) (omega arith))
      ∙ ap (m.op (g a)) (fold-same f g (suc a) n (λ j le lt. h j (omega arith) (omega arith)))

  fold-unit : (f : ℕ → A) (a n : ℕ) → ((j : ℕ) → a ≤ j → f j ≡ m.unit) → fold f a n ≡ m.unit
  unfolding fold
  fold-unit f a zero h = refl
  fold-unit f a (suc n) h =
      ap (λ x. m.op x (fold f (suc a) n)) (h a (omega arith))
      ∙ (m.left_unit (fold f (suc a) n) ∙ fold-unit f (suc a) n (λ j le. h j (omega arith)))

  -- Positions that add nothing may be left out behind.
  pub fold-trim :
      (f : ℕ → A) (n k : ℕ) → n ≤ k → ((j : ℕ) → n ≤ j → f j ≡ m.unit) → fold f 0 k ≡ fold f 0 n
  fold-trim f n k le h =
      let split : k ≡ n + (k - n) = omega arith in
      let here : 0 + n ≡ n = omega arith in
      ap (fold f 0) split
      ∙ (fold-split f 0 n (k - n)
          ∙ (ap (m.op (fold f 0 n)) (fold-unit f (0 + n) (k - n) (λ j b. h j (omega (arith, b))))
              ∙ m.right_unit (fold f 0 n)))

  pub fold-map :
      (h : A → A)
      → h m.unit ≡ m.unit
      → ((a b : A) → h (m.op a b) ≡ m.op (h a) (h b))
      → (f : ℕ → A) (a n : ℕ) → h (fold f a n) ≡ fold (λ j. h (f j)) a n
  unfolding fold
  fold-map h none_to each f a zero = none_to
  fold-map h none_to each f a (suc n) =
      each (f a) (fold f (suc a) n) ∙ ap (m.op (h (f a))) (fold-map h none_to each f (suc a) n)
