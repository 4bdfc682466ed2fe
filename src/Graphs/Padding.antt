-- ===== src/Graphs/Padding.antt =====
-- The rows that a piecewise iteration feeds, behind the tokens of its plan, and the rows that a
-- plan's sequences sample from.
use llm_serving_engine.Base.{
  ◌>>=◌, ℕ, zero, suc, ◌+◌, ◌-◌, ◌≤◌, ◌<◌, ◌≡◌, refl, ap, ◌∙◌, ◌⊎◌, Bool-cases, inl, inr, none,
  some, List, [], ◌∷◌, ◌++◌, length, map, get_or, replicate, range, All, arith, length-append,
}
use llm_serving_engine.Sequence.{Sequence, BatchEntry}
use llm_serving_engine.Paging.{
  Resolved, FlatRows, flat_rows, entry_token_ids, start_pos, owes_token,
}
use llm_serving_engine.Paging.Emit.{
  Eos, owed_rows, results_of, row_of, params_of, emit_tokens, emit_any, emit_owed,
}
use llm_serving_engine.Decoder.{Weights, Kernel, sample_rows}
use llm_serving_engine.Decoder.Pools.{Same}
use llm_serving_engine.Graphs.Segments.{padded}

module _ {A : Type 0} where
  get_or-front :
      (xs ys : List A) (i : ℕ) (d d' : A) → i < length xs → get_or (xs ++ ys) i d ≡ get_or xs i d'
  get_or-front [] ys i d d' lt = absurd (omega (arith, lt))
  get_or-front (x ∷ xs) ys zero d d' lt = refl
  get_or-front (x ∷ xs) ys (suc i) d d' lt = get_or-front xs ys i d d' (omega (arith, lt))

  get_or-back :
      (xs : List A) (k i : ℕ) (d : A) → length xs ≤ i → get_or (xs ++ replicate k d) i d ≡ d
  get_or-back [] zero i d le = refl
  get_or-back [] (suc k) zero d le = refl
  get_or-back [] (suc k) (suc i) d le = get_or-back [] k i d (omega arith)
  get_or-back (x ∷ xs) k zero d le = absurd (omega (arith, le))
  get_or-back (x ∷ xs) k (suc i) d le = get_or-back xs k i d (omega (arith, le))

  pub padded-Same :
      (bucket : ℕ) (xs : List A) (d d' : A)
      → Same (length xs) (padded bucket xs d) (λ i. get_or xs i d')
  padded-Same bucket xs d d' i lt = get_or-front xs _ i d d' lt

  pub padded-behind :
      (bucket : ℕ) (xs : List A) (d : A) (i : ℕ) → length xs ≤ i → padded bucket xs d i ≡ d
  padded-behind bucket xs d i le = get_or-back xs _ i d le

pub get_or-map :
    {A B : Type 0} (f : A → B) (xs : List A) (i : ℕ) (d : A)
    → get_or (map f xs) i (f d) ≡ f (get_or xs i d)
get_or-map f [] i d = refl
get_or-map f (x ∷ xs) zero d = refl
get_or-map f (x ∷ xs) (suc i) d = get_or-map f xs i d

-- An entry feeds as many tokens as it plans, and some.
abbrev pub IsFed : BatchEntry × Sequence → Type 0
IsFed (e, s) =
    (ids : List ℕ) × (entry_token_ids e s ≡ some ids) × (length ids ≡ e.n_tokens) × (0 < e.n_tokens)

-- The span ends within the rows up to `n`.
abbrev pub EndsBy : ℕ → ℕ × ℕ → Type 0
EndsBy n (start, end) = (0 < end) × (end ≤ n)

pub flat_rows-fed :
    (at n : ℕ) (plan : Resolved)
    → All IsFed plan
    → (rows : FlatRows) × (flat_rows at plan ≡ some rows)
      × (at + length rows.token_ids ≤ n → All (EndsBy n) rows.offsets)
unfolding flat_rows
flat_rows-fed at n [] fed =
    (record { token_ids = []; positions = []; offsets = [] }, refl, λ le. tt)
flat_rows-fed at n ((e, s) ∷ plan) ((ids, feeds, count, some_token), fed) =
    let (rest, returns, spans) = flat_rows-fed (at + length ids) n plan fed in
    (
      record {
        token_ids = ids ++ rest.token_ids;
        positions = range (start_pos e s) e.n_tokens ++ rest.positions;
        offsets = (at, at + e.n_tokens) ∷ rest.offsets;
      },
      rw (feeds, ◌>>=◌, returns) refl,
      λ le.
          let both = length-append ids rest.token_ids in
          (
            (omega (arith, some_token), omega (arith, le, both, count)),
            spans (omega (arith, le, both)),
          ),
    )

module _ (n : ℕ) where
  abbrev RowsBy : List (Sequence × ℕ) → Type 0
  RowsBy owed = All (λ o. row_of o < n) owed

  owed_rows-RowsBy :
      (plan : Resolved) (offsets : List (ℕ × ℕ))
      → All (EndsBy n) offsets
      → (owed_rows plan offsets ≡ none)
        ⊎ ((owed : List (Sequence × ℕ)) × (owed_rows plan offsets ≡ some owed) × RowsBy owed)
  unfolding owed_rows
  owed_rows-RowsBy [] [] ends = inr ([], refl, tt)
  owed_rows-RowsBy [] (o ∷ offsets) ends = inl refl
  owed_rows-RowsBy (p ∷ plan) [] ends = inl refl
  owed_rows-RowsBy ((e, s) ∷ plan) ((start, end) ∷ offsets) ((positive, le), ends) =
      elim (owed_rows-RowsBy plan offsets ends) [
        | inl none_of ↦ inl (rw (none_of, ◌>>=◌) refl)
        | inr (owed, returns, all) ↦ elim (Bool-cases (owes_token e s)) [
          | inl owes ↦ inr (
            (s, end - 1) ∷ owed,
            rw (returns, ◌>>=◌, owes) refl,
            (omega (arith, positive, le), all),
          )
          | inr not_yet ↦ inr (owed, rw (returns, ◌>>=◌, not_yet) refl, all)
        ]
      ]

  module _ {X C Q K V L : Type 0} (w : Weights X C Q K V L) (kernel : Kernel Q K V)
      (eos : Eos) where
    rows-Same :
        (hidden hidden' : ℕ → X) (owed : List (Sequence × ℕ))
        → Same n hidden hidden'
        → RowsBy owed
        → map (λ r. w.lm_head (hidden r)) (map row_of owed)
          ≡ map (λ r. w.lm_head (hidden' r)) (map row_of owed)
    rows-Same hidden hidden' [] same by = refl
    rows-Same hidden hidden' ((s, r) ∷ owed) same (lt, by) =
        ap (λ x. w.lm_head x ∷ map (λ r. w.lm_head (hidden r)) (map row_of owed)) (same r lt)
        ∙ ap (◌∷◌ (w.lm_head (hidden' r))) (rows-Same hidden hidden' owed same by)

    emit_any-Same :
        (hidden hidden' : ℕ → X) (owed : List (Sequence × ℕ))
        → Same n hidden hidden'
        → RowsBy owed
        → emit_any eos (sample_rows w kernel hidden) owed
          ≡ emit_any eos (sample_rows w kernel hidden') owed
    unfolding emit_any emit_tokens
    emit_any-Same hidden hidden' [] same by = refl
    emit_any-Same hidden hidden' (o ∷ owed) same by =
        ap (λ logits. results_of eos (o ∷ owed) (w.sample_tokens logits (map params_of (o ∷ owed))))
          (rows-Same hidden hidden' (o ∷ owed) same by)

    -- Only the rows of the plan are sampled from.
    pub emit_owed-Same :
        (hidden hidden' : ℕ → X) (plan : Resolved) (offsets : List (ℕ × ℕ))
        → Same n hidden hidden'
        → All (EndsBy n) offsets
        → emit_owed eos (sample_rows w kernel hidden) plan offsets
          ≡ emit_owed eos (sample_rows w kernel hidden') plan offsets
    unfolding emit_owed
    emit_owed-Same hidden hidden' plan offsets same ends =
        elim (owed_rows-RowsBy plan offsets ends) [
          | inl none_of ↦ rw (none_of, ◌>>=◌) refl
          | inr (owed, returns, all) ↦
              rw (returns, ◌>>=◌) (emit_any-Same hidden hidden' owed same all)
        ]
