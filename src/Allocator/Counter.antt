-- ===== src/Allocator/Counter.antt =====
-- The paged pool of src/llm_serving_engine/scheduling/allocator.py against the counter of Allocator/Calls.
use llm_serving_engine.Base.{
  ℕ, zero, suc, ◌+◌, ◌-◌, ◌<◌, ◌≡◌, refl, sym, ap, ◌∙◌, subst, Bool, true, false, none, some,
  some_or-eq, Option-cases, Bool-cases, inl, inr, List, [], ◌∷◌, map, length, get_elem?, set, All,
  All-set, All-get_elem?, ltb, arith,
}
use llm_serving_engine.Sequence.{Sequence, BlockTable}
use llm_serving_engine.Allocator.Block.{BlockAllocator, ceil_div, allocate, free}
use llm_serving_engine.Allocator.Books.{length-allocate, length-free}
use llm_serving_engine.Allocator.Cover.{
  IsCovered, ceil_div-zero, allocate-IsCovered, allocate-none_iff,
}
use llm_serving_engine.Allocator.Calls.{
  Call, grow, give_back, push, run_calls, Paged, with_table, grown, on_pool, Counter, on_counter,
  tokens_of, view,
}

-- Tables without a block too many or too few.
pub record IsTight (st : Paged) : Type 0 where
  pub has_size : 0 < st.pool.block_size
  pub covered : All (λ s. IsCovered st.pool.block_size s.block_table) st.seqs

module _ {A B : Type 0} (f : A → B) where
  get_elem?-map :
      (xs : List A) (i : ℕ) (x : A) → get_elem? xs i ≡ some x → get_elem? (map f xs) i ≡ some (f x)
  get_elem?-map [] i x e = absurd (ground (arith, e))
  get_elem?-map (y ∷ xs) zero x e = ap some (ap f (some_or-eq y x e))
  get_elem?-map (y ∷ xs) (suc i) x e = get_elem?-map xs i x e

  get_elem?-map-none : (xs : List A) (i : ℕ) → get_elem? xs i ≡ none → get_elem? (map f xs) i ≡ none
  get_elem?-map-none [] i e = refl
  get_elem?-map-none (y ∷ xs) zero e = absurd (ground (arith, e))
  get_elem?-map-none (y ∷ xs) (suc i) e = get_elem?-map-none xs i e

  map-set : (xs : List A) (i : ℕ) (x : A) → map f (set xs i x) ≡ set (map f xs) i (f x)
  map-set [] i x = refl
  map-set (y ∷ xs) zero x = refl
  map-set (y ∷ xs) (suc i) x = ap (◌∷◌ (f y)) (map-set xs i x)

-- One step: the counter answers as the pool does, and goes to its view.
abbrev Follows : ℕ → Call → Paged → Bool × Paged → Type 0
Follows block_size c st (answer, st') =
    (on_counter block_size c (view st) ≡ (answer, view st'))
    × IsTight st'
    × (st'.pool.block_size ≡ block_size)

abbrev granted : ℕ → List ℕ → Bool × Counter
granted spare tokens = (true, record { spare = spare; tokens = tokens })

counter_eq :
    (spare spare' : ℕ) (tokens tokens' : List ℕ)
    → spare ≡ spare'
    → tokens ≡ tokens'
    → granted spare tokens ≡ granted spare' tokens'
counter_eq spare spare' tokens tokens' same_spare same_tokens =
    ap (λ x. granted x tokens) same_spare ∙ ap (granted spare') same_tokens

module _ (st : Paged) (h : IsTight st) (i : ℕ) (s : Sequence)
    (at : get_elem? st.seqs i ≡ some s) where
  here : IsCovered st.pool.block_size s.block_table
  here = All-get_elem? (λ x. IsCovered st.pool.block_size x.block_table) st.seqs i s h.covered at

  with_table-IsTight :
      (a : BlockAllocator) (t : BlockTable)
      → a.block_size ≡ st.pool.block_size
      → IsCovered st.pool.block_size t
      → IsTight (with_table st i s (a, t))
  with_table-IsTight a t same c = record {
    has_size = rw same h.has_size;
    covered =
        subst
          (λ b. All (λ x. IsCovered b x.block_table) (set st.seqs i (record s { block_table = t })))
          (sym same)
          (All-set (λ x. IsCovered st.pool.block_size x.block_table) st.seqs i
            (record s { block_table = t }) h.covered c);
  }

  tokens-with_table :
      (t : BlockTable) (k : ℕ)
      → t.num_tokens ≡ k
      → set (map tokens_of st.seqs) i k
        ≡ map tokens_of (set st.seqs i (record s { block_table = t }))
  tokens-with_table t k same =
      ap (set (map tokens_of st.seqs) i) (sym same)
      ∙ sym (map-set tokens_of st.seqs i (record s { block_table = t }))

  grown-Follows :
      (n reserve : ℕ)
      → Follows st.pool.block_size
          (grow i n reserve)
          st
          (grown st i s (allocate st.pool s n reserve))
  unfolding on_counter
  grown-Follows n reserve =
      let k = s.block_table.num_tokens in
      let has = length st.pool.free_blocks + ceil_div k st.pool.block_size in
      let needs = ceil_div (k + n) st.pool.block_size in
      let seen = get_elem?-map tokens_of st.seqs i s at in
      let (none_if, if_none) = allocate-none_iff st.pool s n reserve h.has_size here in
      elim (Option-cases (allocate st.pool s n reserve)) [
        | inl refused ↦
            let short : ltb has (needs + reserve) ≡ true = ground (arith, none_if refused, here) in
            rw (refused, seen, short) (refl, h, refl)
        | inr ((a, t), done) ↦
            let (c, tokens, leaves, same, _) =
              allocate-IsCovered st.pool s n reserve a t h.has_size here done in
            let books = length-allocate st.pool s n reserve a t done in
            let fits : ltb has (needs + reserve) ≡ false =
              elim (Bool-cases (ltb has (needs + reserve))) [
                | inl short ↦
                    let refused = sym (if_none (ground (arith, short, here))) ∙ done in
                    absurd (ground (arith, refused))
                | inr fine ↦ fine
              ] in
            rw (done, seen, fits)
              (
                counter_eq (has - needs) (length a.free_blocks) _ _
                    (omega (arith, books, here, c, ap (λ x. ceil_div x st.pool.block_size) tokens))
                    (tokens-with_table t (k + n) tokens),
                with_table-IsTight a t same c,
                same,
              )
      ]

  give_back-Follows :
      Follows st.pool.block_size
        (give_back i)
        st
        (true, with_table st i s (free st.pool s.block_table))
  unfolding on_counter free
  give_back-Follows =
      let seen = get_elem?-map tokens_of st.seqs i s at in
      let books = length-free st.pool s.block_table in
      rw seen (
        counter_eq _ (length (free st.pool s.block_table).0.free_blocks) _ _
            (omega (arith, books, here)) (tokens-with_table (free st.pool s.block_table).1 0 refl),
        with_table-IsTight (free st.pool s.block_table).0 (free st.pool s.block_table).1 refl
            (sym (ceil_div-zero st.pool.block_size h.has_size)),
        refl,
      )

step-Follows : (c : Call) (st : Paged) → IsTight st → Follows st.pool.block_size c st (on_pool c st)
unfolding on_pool on_counter
step-Follows (grow i n reserve) st h = elim (Option-cases (get_elem? st.seqs i)) [
  | inl missing ↦ rw (missing, get_elem?-map-none tokens_of st.seqs i missing) (refl, h, refl)
  | inr (s, at) ↦ rw at (grown-Follows st h i s at n reserve)
]
step-Follows (give_back i) st h = elim (Option-cases (get_elem? st.seqs i)) [
  | inl missing ↦ rw (missing, get_elem?-map-none tokens_of st.seqs i missing) (refl, h, refl)
  | inr (s, at) ↦ rw at (give_back-Follows st h i s at)
]

-- For a positive block size and tables that have just the blocks their tokens need, any calls of
-- allocate and free on the paged pool have the answers that a counter of free blocks and tokens
-- gives, the state after them is seen as the counter is left, and the tables have again just the
-- blocks they need.
pub run_calls-view :
    (cs : List Call) (st : Paged)
    → IsTight st
    → (let (answers, last) = run_calls on_pool cs st in
        (run_calls (on_counter st.pool.block_size) cs (view st) ≡ (answers, view last))
        × IsTight last)
unfolding run_calls
run_calls-view [] st h = (refl, h)
run_calls-view (c ∷ cs) st h =
    let (follows, tight, same) = step-Follows c st h in
    let (answer, next) = on_pool c st in
    let (rest, last) = run_calls-view cs next tight in
    let b = st.pool.block_size in
    let rest' =
      subst
        (λ x.
          run_calls (on_counter x) cs (view next)
          ≡ ((run_calls on_pool cs next).0, view (run_calls on_pool cs next).1))
        same rest in
    (ap (λ r. push r.0 (run_calls (on_counter b) cs r.1)) follows ∙ ap (push answer) rest', last)
