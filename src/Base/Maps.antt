-- ===== src/Base/Maps.antt =====
-- Lemmas on `map`, `All` and `take`.
use Prim.Native.Nat.{ℕ, zero, suc, ◌≤◌}
use mathlib.Core.Path.{◌≡◌, refl, ap, subst}
use mathlib.Core.Option.{some, none}
use mathlib.Core.List.{List, [], ◌∷◌, ◌++◌, map}
use native.Mathlib.Omega.{arith}
use llm_serving_engine.Base.Lists.{length, take, replicate, All}

pub All-map :
    {A : Type 0} {P : A → Type 0} (Q : A → Type 0) (f : A → A) (xs : List A)
    → ((x : A) → P x → Q (f x))
    → All P xs
    → All Q (map f xs)
All-map Q f [] h _ = tt
All-map Q f (x ∷ xs) h (p, ps) = (h x p, All-map Q f xs h ps)

pub length-map : {A B : Type 0} (f : A → B) (xs : List A) → length (map f xs) ≡ length xs
length-map f [] = refl
length-map f (x ∷ xs) = ap suc (length-map f xs)

pub take-append_le : (n : ℕ) (xs ys : List ℕ) → n ≤ length xs → take n (xs ++ ys) ≡ take n xs
take-append_le zero xs ys h = refl
take-append_le (suc n) [] ys h = absurd (omega arith)
take-append_le (suc n) (x ∷ xs) ys h = ap (λ l. x ∷ l) (take-append_le n xs ys (omega arith))

pub All-weaken :
    {A : Type 0} {P : A → Type 0} (Q : A → Type 0) (xs : List A)
    → ((x : A) → P x → Q x)
    → All P xs
    → All Q xs
All-weaken Q [] h _ = tt
All-weaken Q (x ∷ xs) h (p, ps) = (h x p, All-weaken Q xs h ps)

pub All-replicate : {A : Type 0} (Q : A → Type 0) (n : ℕ) (x : A) → Q x → All Q (replicate n x)
All-replicate Q zero x q = tt
All-replicate Q (suc n) x q = (q, All-replicate Q n x q)

pub some_or-eq : {A : Type 0} (a b : A) → some a ≡ some b → a ≡ b
some_or-eq a b e = subst (λ o. elim o [ none ↦ Unit | some x ↦ a ≡ x ]) e refl

pub All-take : {A : Type 0} (P : A → Type 0) (n : ℕ) (xs : List A) → All P xs → All P (take n xs)
All-take P zero xs h = tt
All-take P (suc n) [] h = tt
All-take P (suc n) (x ∷ xs) (p, ps) = (p, All-take P n xs ps)
