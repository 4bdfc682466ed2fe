-- ===== src/Decoder/Planned.antt =====
-- The rows that `_paging_rows` of model/model_runner.py makes, as the paged kernel's launch takes them.
use llm_serving_engine.Base.{
  ◌>>=◌, ℕ, zero, suc, ◌-◌, ◌/◌, ◌≤◌, ◌<◌, ◌≡◌, ◌≢◌, refl, sym, ◌∙◌, subst, some, some_or-eq, List,
  [], ◌∷◌, ◌++◌, length, get_or, replicate, All, inl, inr, Option-cases, length-append,
  length-replicate, arith,
}
use llm_serving_engine.Sequence.{BlockTable}
use llm_serving_engine.Allocator.Cover.{IsCovered, div-lt-ceil_div}
use llm_serving_engine.Paging.{PagingRow, max_blocks, slots_from, paging_row, rows_of, paging_rows}
use llm_serving_engine.Kernels.Rows.{entry_of, head_of}
use llm_serving_engine.Decoder.Served.{no_row, widest_row}
use llm_serving_engine.Decoder.Local.{IsServed}

-- A table with tokens and just the blocks they need, none of them the scratch block.
pub record IsOwned (block_size scratch : ℕ) (t : BlockTable) : Type 0 where
  pub some_token : 0 < t.num_tokens
  pub covered : IsCovered block_size t
  pub apart : All (λ b. b ≢ scratch) t.physical_blocks

record IsRow (block_size scratch widest : ℕ) (r : PagingRow) : Type 0 where
  some_key : 0 < r.context_len
  wide : length r.block_row ≡ widest
  room : (j : ℕ) → j < r.context_len → j / block_size < widest
  apart : (j : ℕ) → j < r.context_len → get_or r.block_row (j / block_size) 0 ≢ scratch

get_or-All :
    {A : Type 0} (P : A → Type 0) (xs : List A) (i : ℕ) (d : A)
    → All P xs
    → i < length xs
    → P (get_or xs i d)
get_or-All P [] i d h lt = absurd (omega (arith, lt))
get_or-All P (x ∷ xs) zero d (h, hs) lt = h
get_or-All P (x ∷ xs) (suc i) d (h, hs) lt = get_or-All P xs i d hs (omega (arith, lt))

get_or-append :
    {A : Type 0} (xs ys : List A) (i : ℕ) (d : A)
    → i < length xs
    → get_or (xs ++ ys) i d ≡ get_or xs i d
get_or-append [] ys i d lt = absurd (omega (arith, lt))
get_or-append (x ∷ xs) ys zero d lt = refl
get_or-append (x ∷ xs) ys (suc i) d lt = get_or-append xs ys i d (omega (arith, lt))

module _ (block_size scratch : ℕ) (positive : 0 < block_size) where
  paging_row-IsRow :
      (widest start end : ℕ) (t : BlockTable) (r : PagingRow)
      → IsOwned block_size scratch t
      → length t.physical_blocks ≤ widest
      → paging_row block_size widest t (start, end) ≡ some r
      → IsRow block_size scratch widest r
  unfolding paging_row
  paging_row-IsRow widest start end t r own fits e =
      let n = end - start in
      let cached = t.num_tokens - n in
      let pads = replicate {A = ℕ} (widest - length t.physical_blocks) 0 in
      elim (Option-cases (slots_from block_size t cached (t.num_tokens - cached))) [
        | inl out ↦ absurd (ground (arith, e, out))
        | inr (dest, at) ↦
            let made : PagingRow = record {
              block_row = t.physical_blocks ++ pads;
              context_len = t.num_tokens;
              query_offset = cached;
              q_start = start;
              q_len = n;
              dest = dest;
            } in
            let returns : paging_row block_size widest t (start, end) ≡ some made =
              rw (at, ◌>>=◌) refl in
            let same : made ≡ r = some_or-eq made r (sym returns ∙ e) in
            let inside = λ (j : ℕ) (lt : j < t.num_tokens).
              div-lt-ceil_div j t.num_tokens block_size positive lt in
            subst (IsRow block_size scratch widest) same (record {
              some_key = own.some_token;
              wide = omega (
                arith,
                fits,
                length-append t.physical_blocks pads,
                length-replicate {A = ℕ} (widest - length t.physical_blocks) 0,
              );
              room = λ j lt. omega (arith, inside j lt, own.covered, fits);
              apart = λ j lt.
                  let here : j / block_size < length t.physical_blocks =
                    omega (arith, inside j lt, own.covered) in
                  subst (λ b. b ≢ scratch)
                    (sym (get_or-append t.physical_blocks pads (j / block_size) 0 here))
                    (get_or-All (λ b. b ≢ scratch) t.physical_blocks (j / block_size) 0 own.apart
                      here);
            })
      ]

  rows_of-IsRow :
      (widest : ℕ) (tables : List BlockTable) (offsets : List (ℕ × ℕ)) (paging : List PagingRow)
      → All (IsOwned block_size scratch) tables
      → max_blocks tables ≤ widest
      → rows_of block_size widest tables offsets ≡ some paging
      → All (IsRow block_size scratch widest) paging
  unfolding rows_of
  rows_of-IsRow widest [] [] paging owned fits e =
      subst (All (IsRow block_size scratch widest)) (some_or-eq [] paging e) tt
  rows_of-IsRow widest [] (o ∷ os) paging owned fits e = absurd (ground (arith, e))
  rows_of-IsRow widest (t ∷ ts) [] paging owned fits e = absurd (ground (arith, e))
  rows_of-IsRow widest (t ∷ ts) ((start, end) ∷ os) paging (own, owned) fits e =
      elim (Option-cases (paging_row block_size widest t (start, end))) [
        | inl out ↦ absurd (ground (arith, e, out))
        | inr (r, at) ↦ elim (Option-cases (rows_of block_size widest ts os)) [
          | inl out ↦ absurd (ground (arith, e, at, out))
          | inr (rows, at') ↦
              let returns : rows_of block_size widest (t ∷ ts) ((start, end) ∷ os)
                  ≡ some (r ∷ rows) =
                rw (at, at', ◌>>=◌) refl in
              subst (All (IsRow block_size scratch widest))
                (some_or-eq (r ∷ rows) paging (sym returns ∙ e))
                (
                  paging_row-IsRow widest start end t r own (omega (arith, fits)) at,
                  rows_of-IsRow widest ts os rows owned (omega (arith, fits)) at',
                )
        ]
      ]

  pub paging_rows-IsServed :
      (tables : List BlockTable) (offsets : List (ℕ × ℕ)) (paging : List PagingRow)
      → All (IsOwned block_size scratch) tables
      → paging_rows block_size tables offsets ≡ some paging
      → IsServed block_size scratch paging
  unfolding paging_rows
  paging_rows-IsServed tables offsets paging owned e =
      let widest = max_blocks tables in
      let rows = rows_of-IsRow widest tables offsets paging owned (omega arith) e in
      let row = λ (entry : ℕ) (lt : entry < length paging).
        get_or-All (IsRow block_size scratch widest) paging entry no_row rows lt in
      record {
        some_key = λ entry lt. (row entry lt).some_key;
        off_scratch = λ entry j lt key.
            let wide : widest_row paging ≡ widest = (row 0 (omega (arith, lt))).wide in
            let room : j / block_size < widest_row paging =
              omega (arith, wide, (row entry lt).room j key) in
            rw
              (
                entry_of (j / block_size) (widest_row paging) entry room,
                head_of (j / block_size) (widest_row paging) entry room,
              )
              ((row entry lt).apart j key);
      }
