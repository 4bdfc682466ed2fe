-- ===== src/Base/Lists.antt =====
-- Lists measured and indexed by native numbers, under the library's names, and Python's
-- `pop()` from the tail.
use Prim.Native.Nat.{ℕ, zero, suc, ◌+◌, ◌-◌, ◌<◌, ◌≤◌, min}
use mathlib.Core.Path.{◌≡◌, refl, ap, subst}
use mathlib.Core.Logic.{◌⊎◌, inl, inr, ◌≢◌}
use mathlib.Core.List.{List, [], ◌∷◌, ◌++◌}
use mathlib.Core.Option.{Option, none, some}
use native.Mathlib.Omega.{arith}

module _ {ℓ} {A : Type ℓ} where
  abbrev pub length : List A → ℕ
  length [] = 0
  length (x ∷ xs) = suc (length xs)

  abbrev pub get_elem? : List A → ℕ → Option A
  get_elem? [] i = none
  get_elem? (x ∷ xs) zero = some x
  get_elem? (x ∷ xs) (suc i) = get_elem? xs i

  abbrev pub set : List A → ℕ → A → List A
  set [] i v = []
  set (x ∷ xs) zero v = v ∷ xs
  set (x ∷ xs) (suc i) v = x ∷ set xs i v

  abbrev pub get_or : List A → ℕ → A → A
  get_or [] i d = d
  get_or (x ∷ xs) zero d = x
  get_or (x ∷ xs) (suc i) d = get_or xs i d

  -- `del l[i]`
  abbrev pub delete_at : List A → ℕ → List A
  delete_at [] i = []
  delete_at (x ∷ xs) zero = xs
  delete_at (x ∷ xs) (suc i) = x ∷ delete_at xs i

  abbrev pub take : ℕ → List A → List A
  take zero xs = []
  take (suc n) [] = []
  take (suc n) (x ∷ xs) = x ∷ take n xs

  abbrev pub drop : ℕ → List A → List A
  drop zero xs = xs
  drop (suc n) [] = []
  drop (suc n) (x ∷ xs) = drop n xs

  abbrev pub replicate : ℕ → A → List A
  replicate zero a = []
  replicate (suc n) a = a ∷ replicate n a

  -- `l.pop()`: the last element, `d` on the empty list, and the list without it.
  abbrev pub last_or : A → List A → A
  last_or d [] = d
  last_or d (x ∷ xs) = last_or x xs

  abbrev pub init : List A → List A
  init [] = []
  init (x ∷ []) = []
  init (x ∷ y ∷ xs) = x ∷ init (y ∷ xs)

  abbrev pub All {κ} : (A → Type κ) → List A → Type κ
  All P [] = Unit
  All P (x ∷ xs) = P x × All P xs

-- `range(start, start + n)`
abbrev pub range : ℕ → ℕ → List ℕ
range start zero = []
range start (suc n) = start ∷ range (suc start) n

module _ {ℓ} {A : Type ℓ} where
  pub length-append : (xs ys : List A) → length (xs ++ ys) ≡ length xs + length ys
  length-append [] ys = omega arith
  length-append (x ∷ xs) ys = omega (arith, length-append xs ys)

  pub length-set : (xs : List A) (i : ℕ) (v : A) → length (set xs i v) ≡ length xs
  length-set [] i v = refl
  length-set (x ∷ xs) zero v = refl
  length-set (x ∷ xs) (suc i) v = ap suc (length-set xs i v)

  pub length-take : (n : ℕ) (xs : List A) → length (take n xs) ≡ min n (length xs)
  length-take zero xs = omega arith
  length-take (suc n) [] = omega arith
  length-take (suc n) (x ∷ xs) = omega (arith, length-take n xs)

  pub length-drop : (n : ℕ) (xs : List A) → length (drop n xs) ≡ length xs - n
  length-drop zero xs = omega arith
  length-drop (suc n) [] = omega arith
  length-drop (suc n) (x ∷ xs) = omega (arith, length-drop n xs)

  pub take-append : (xs ys : List A) → take (length xs) (xs ++ ys) ≡ xs
  take-append [] ys = refl
  take-append (x ∷ xs) ys = ap (λ l. x ∷ l) (take-append xs ys)

  pub drop-append : (xs ys : List A) → drop (length xs) (xs ++ ys) ≡ ys
  drop-append [] ys = refl
  drop-append (x ∷ xs) ys = drop-append xs ys

  pub take-append-drop : (n : ℕ) (xs : List A) → take n xs ++ drop n xs ≡ xs
  take-append-drop zero xs = refl
  take-append-drop (suc n) [] = refl
  take-append-drop (suc n) (x ∷ xs) = ap (◌∷◌ x) (take-append-drop n xs)

  pub length-init : (xs : List A) → length (init xs) ≡ length xs - 1
  length-init [] = omega arith
  length-init (x ∷ []) = omega arith
  length-init (x ∷ y ∷ xs) = omega (arith, length-init (y ∷ xs))

  pub length-replicate : (n : ℕ) (a : A) → length (replicate n a) ≡ n
  length-replicate zero a = refl
  length-replicate (suc n) a = ap suc (length-replicate n a)

  pub get_elem?-some_lt : (xs : List A) (i : ℕ) (x : A) → get_elem? xs i ≡ some x → i < length xs
  get_elem?-some_lt [] i x e = absurd (ground arith)
  get_elem?-some_lt (y ∷ xs) zero x e = omega arith
  get_elem?-some_lt (y ∷ xs) (suc i) x e = omega (arith, get_elem?-some_lt xs i x e)

  pub get_elem?-init :
      (xs : List A) (i : ℕ) → suc i < length xs → get_elem? (init xs) i ≡ get_elem? xs i
  get_elem?-init [] i h = refl
  get_elem?-init (x ∷ []) i h = absurd (omega arith)
  get_elem?-init (x ∷ y ∷ xs) zero h = refl
  get_elem?-init (x ∷ y ∷ xs) (suc i) h = get_elem?-init (y ∷ xs) i (omega arith)

  pub get_elem?-init-some :
      (xs : List A) (i : ℕ) (x : A) → get_elem? (init xs) i ≡ some x → get_elem? xs i ≡ some x
  get_elem?-init-some [] i x e = e
  get_elem?-init-some (y ∷ []) i x e = absurd (ground arith)
  get_elem?-init-some (y ∷ z ∷ xs) zero x e = e
  get_elem?-init-some (y ∷ z ∷ xs) (suc i) x e = get_elem?-init-some (z ∷ xs) i x e

  pub get_elem?-last_or :
      (d : A) (xs : List A) (n : ℕ) → length xs ≡ suc n → get_elem? xs n ≡ some (last_or d xs)
  get_elem?-last_or d [] n h = absurd (omega arith)
  get_elem?-last_or d (x ∷ []) zero h = refl
  get_elem?-last_or d (x ∷ []) (suc n) h = absurd (omega arith)
  get_elem?-last_or d (x ∷ y ∷ xs) zero h = absurd (omega arith)
  get_elem?-last_or d (x ∷ y ∷ xs) (suc n) h = get_elem?-last_or x (y ∷ xs) n (omega arith)

  pub get_elem?-set-some :
      (xs : List A) (i : ℕ) (v : A) (k : ℕ) (x : A)
      → get_elem? (set xs i v) k ≡ some x
      → ((k ≡ i) × (x ≡ v)) ⊎ ((k ≢ i) × (get_elem? xs k ≡ some x))
  get_elem?-set-some [] i v k x e = absurd (ground arith)
  get_elem?-set-some (y ∷ xs) zero v zero x e = inl (refl, ground arith)
  get_elem?-set-some (y ∷ xs) zero v (suc k) x e = inr (omega arith, e)
  get_elem?-set-some (y ∷ xs) (suc i) v zero x e = inr (omega arith, e)
  get_elem?-set-some (y ∷ xs) (suc i) v (suc k) x e = elim (get_elem?-set-some xs i v k x e) [
    | inl (here, same) ↦ inl (ap suc here, same)
    | inr (other, at) ↦ inr (omega arith, at)
  ]

  pub get_elem?-lt_some :
      (xs : List A) (i : ℕ) → i < length xs → (x : A) × (get_elem? xs i ≡ some x)
  get_elem?-lt_some [] i h = absurd (omega arith)
  get_elem?-lt_some (y ∷ xs) zero h = (y, refl)
  get_elem?-lt_some (y ∷ xs) (suc i) h = get_elem?-lt_some xs i (omega arith)

  pub get_elem?-none_le : (xs : List A) (i : ℕ) → get_elem? xs i ≡ none → length xs ≤ i
  get_elem?-none_le [] i e = omega arith
  get_elem?-none_le (x ∷ xs) zero e = absurd (ground arith)
  get_elem?-none_le (x ∷ xs) (suc i) e = omega (arith, get_elem?-none_le xs i e)

  pub length-delete_at :
      (xs : List A) (i : ℕ) → i < length xs → length (delete_at xs i) + 1 ≡ length xs
  length-delete_at [] i h = absurd (omega arith)
  length-delete_at (x ∷ xs) zero h = omega arith
  length-delete_at (x ∷ xs) (suc i) h = omega (arith, length-delete_at xs i (omega arith))

pub length-range : (a n : ℕ) → length (range a n) ≡ n
length-range a zero = refl
length-range a (suc n) = ap suc (length-range (suc a) n)

module _ {ℓ κ} {A : Type ℓ} (P : A → Type κ) where
  pub All-append : (xs ys : List A) → All P xs → All P ys → All P (xs ++ ys)
  All-append [] ys hx hy = hy
  All-append (x ∷ xs) ys hx hy = (hx.0, All-append xs ys hx.1 hy)

  pub All-set : (xs : List A) (i : ℕ) (v : A) → All P xs → P v → All P (set xs i v)
  All-set [] i v h p = h
  All-set (x ∷ xs) zero v h p = (p, h.1)
  All-set (x ∷ xs) (suc i) v h p = (h.0, All-set xs i v h.1 p)

  pub All-delete_at : (xs : List A) (i : ℕ) → All P xs → All P (delete_at xs i)
  All-delete_at [] i h = h
  All-delete_at (x ∷ xs) zero h = h.1
  All-delete_at (x ∷ xs) (suc i) h = (h.0, All-delete_at xs i h.1)

  pub All-init : (xs : List A) → All P xs → All P (init xs)
  All-init [] h = h
  All-init (x ∷ []) h = tt
  All-init (x ∷ y ∷ xs) h = (h.0, All-init (y ∷ xs) h.1)

  pub All-last_or : (d : A) (xs : List A) → P d → All P xs → P (last_or d xs)
  All-last_or d [] p h = p
  All-last_or d (x ∷ xs) p h = All-last_or x xs h.0 h.1

  pub All-get_elem? : (xs : List A) (i : ℕ) (x : A) → All P xs → get_elem? xs i ≡ some x → P x
  All-get_elem? [] i x h e = absurd (ground arith)
  All-get_elem? (y ∷ xs) zero x h e = subst P (ground arith) h.0
  All-get_elem? (y ∷ xs) (suc i) x h e = All-get_elem? xs i x h.1 e

  pub All-of_each : (xs : List A) → ((i : ℕ) (x : A) → get_elem? xs i ≡ some x → P x) → All P xs
  All-of_each [] h = tt
  All-of_each (x ∷ xs) h = (h 0 x refl, All-of_each xs (λ i. h (suc i)))
