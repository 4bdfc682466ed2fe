-- ===== src/Paging/Slots.antt =====
-- The K/V slots of a planned iteration, model/model_runner.py.
use native.Mathlib.Nat.{div-add-mod, mod-lt}
use native.Mathlib.Decide.{ℕ_discrete}
use llm_serving_engine.Base.{
  ◌>>=◌, sym, ◌∙◌, ℕ, zero, suc, ◌+◌, ◌-◌, ◌/◌, ◌%◌, ◌≤◌, ◌<◌, ◌≡◌, refl, ap, inl, inr, some, List,
  [], ◌∷◌, ◌++◌, length, get_elem?, get_elem?-lt_some, count, count_of_get_elem?, index_of_count,
  Option-cases, arith, length-append, length-replicate, replicate,
}
use llm_serving_engine.Sequence.{Sequence, BlockTable}
use llm_serving_engine.Allocator.Cover.{IsCovered, div-lt-ceil_div}
use llm_serving_engine.Allocator.Books.{paged}
use llm_serving_engine.Scheduler.State.{SchedulerState}
use llm_serving_engine.Scheduler.Ownership.{OwnsOnce, OwnsOnce-running, OwnsOnce-two}
use llm_serving_engine.Paging.{slot, slots_from, PagingRow, paging_row}

module _ (block_size : ℕ) (positive : 0 < block_size) where
  slot_parts :
      (t : BlockTable) (p b w : ℕ)
      → slot block_size t p ≡ some (b, w)
      → (get_elem? t.physical_blocks (p / block_size) ≡ some b) × (p % block_size ≡ w)
  unfolding slot
  slot_parts t p b w e = elim (Option-cases (get_elem? t.physical_blocks (p / block_size))) [
    | inl out ↦ absurd (ground (arith, out))
    | inr (b', at) ↦ ground (arith, at)
  ]

  -- With a positive block size and a table that has just the blocks its tokens need, every
  -- position below its number of tokens has a slot, whose offset is below the block size.
  pub slot-total :
      (t : BlockTable) (p : ℕ)
      → IsCovered block_size t
      → p < t.num_tokens
      → (b : ℕ) × (w : ℕ) × (slot block_size t p ≡ some (b, w)) × (w < block_size)
  unfolding slot
  slot-total t p c lt =
      let inside = div-lt-ceil_div p t.num_tokens block_size positive lt in
      let (b, at) = get_elem?-lt_some t.physical_blocks (p / block_size) (omega (arith, inside)) in
      (b, p % block_size, rw (at, ◌>>=◌), mod-lt p positive)

  same_position :
      (p q : ℕ) → p / block_size ≡ q / block_size → p % block_size ≡ q % block_size → p ≡ q
  same_position p q d m = sym (div-add-mod p block_size) ∙ rw (d, m) (div-add-mod q block_size)

  -- Two positions of one table whose blocks are distinct have two slots.
  slot-injective :
      (t : BlockTable) (p q b w : ℕ)
      → count b t.physical_blocks ≤ 1
      → slot block_size t p ≡ some (b, w)
      → slot block_size t q ≡ some (b, w)
      → p ≡ q
  slot-injective t p q b w once e g =
      let (at, within) = slot_parts t p b w e in
      let (at', within') = slot_parts t q b w g in
      same_position p q (index_of_count b t.physical_blocks _ _ once at at') (within ∙ sym within')

  -- In a paged state that holds every block once, with a positive block size, if the slots of two
  -- positions in the tables of two running sequences are equal, then so are the places of the
  -- sequences in running, and the positions.
  pub slots_disjoint :
      (num_blocks : ℕ) (st : SchedulerState paged) (i j p q b w : ℕ) (s t : Sequence)
      → OwnsOnce num_blocks st
      → get_elem? st.running i ≡ some s
      → get_elem? st.running j ≡ some t
      → slot block_size s.block_table p ≡ some (b, w)
      → slot block_size t.block_table q ≡ some (b, w)
      → (i ≡ j) × (p ≡ q)
  slots_disjoint num_blocks st i j p q b w s t own at at' e g = elim (ℕ_discrete i j) [
    | yes same ↦
        let alike : t ≡ s = cc in
        (
          same,
          slot-injective s.block_table p q b w
              (ground (arith, OwnsOnce-running num_blocks st i s b own at)) e (rw alike at g),
        )
    | no other ↦
        let first =
          count_of_get_elem? b s.block_table.physical_blocks _
            (slot_parts s.block_table p b w e).0 in
        let second =
          count_of_get_elem? b t.block_table.physical_blocks _
            (slot_parts t.block_table q b w g).0 in
        absurd (omega (arith, first, second, OwnsOnce-two num_blocks st i j s t b own other at at'))
  ]

  -- In a paged state that holds every block once, a slot of a running sequence is in a block below
  -- num_blocks, so none is in the scratch block.
  slot-ne-scratch :
      (num_blocks : ℕ) (st : SchedulerState paged) (i p b w : ℕ) (s : Sequence)
      → OwnsOnce num_blocks st
      → get_elem? st.running i ≡ some s
      → slot block_size s.block_table p ≡ some (b, w)
      → b < num_blocks
  slot-ne-scratch num_blocks st i p b w s own at e = ground (
    arith,
    OwnsOnce-running num_blocks st i s b own at,
    count_of_get_elem? b s.block_table.physical_blocks _ (slot_parts s.block_table p b w e).0,
  )

  pub slots_from-total :
      (t : BlockTable) (p n : ℕ)
      → IsCovered block_size t
      → p + n ≤ t.num_tokens
      → (l : List (ℕ × ℕ)) × (slots_from block_size t p n ≡ some l) × (length l ≡ n)
  unfolding slots_from
  slots_from-total t p zero c h = ([], refl, refl)
  slots_from-total t p (suc n) c h =
      let (b, w, e, _) = slot-total t p c (omega arith) in
      let (l, g, len) = slots_from-total t (suc p) n c (omega arith) in
      ((b, w) ∷ l, rw (e, g), ap suc len)

  -- With a positive block size, a table that has just the blocks its tokens need and no more than
  -- the widest, and a span of no more tokens than the table, paging_row returns a row with one
  -- slot for each new token, block ids up to the widest, and a query that ends at the context
  -- length, which is that of the table.
  paging_row-total :
      (widest start end : ℕ) (t : BlockTable)
      → IsCovered block_size t
      → length t.physical_blocks ≤ widest
      → start ≤ end
      → end - start ≤ t.num_tokens
      → (r : PagingRow) × (paging_row block_size widest t (start, end) ≡ some r)
        × (length r.dest ≡ end - start)
        × (length r.block_row ≡ widest)
        × (r.query_offset + r.q_len ≡ r.context_len)
        × (r.context_len ≡ t.num_tokens)
  unfolding paging_row
  paging_row-total widest start end t c fits le new =
      let n = end - start in
      let cached = t.num_tokens - n in
      let (l, e, len) = slots_from-total t cached (t.num_tokens - cached) c (omega arith) in
      (
        record {
          block_row = t.physical_blocks ++ replicate (widest - length t.physical_blocks) 0;
          context_len = t.num_tokens;
          query_offset = cached;
          q_start = start;
          q_len = n;
          dest = l;
        },
        rw (e, ◌>>=◌),
        omega (arith, len),
        omega (
          arith,
          length-append t.physical_blocks (replicate (widest - length t.physical_blocks) 0),
          length-replicate {A = ℕ} (widest - length t.physical_blocks) 0,
        ),
        omega arith,
        refl,
      )
