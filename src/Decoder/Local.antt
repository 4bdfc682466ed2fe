-- ===== src/Decoder/Local.antt =====
-- The paged kernel reads, for the rows of a plan, no other row, and nothing of the scratch block.
use mathlib.Core.Path.{fun_ext}
use native.Mathlib.Nat.{mod-lt}
use llm_serving_engine.Base.{
  ℕ, suc, ◌+◌, ◌*◌, ◌-◌, ◌/◌, ◌%◌, ◌≤◌, ◌<◌, ◌≡◌, ◌≢◌, refl, sym, ap, subst, ◌∙◌, true, ◌&&◌, ltb,
  leb, Option, some, List, [], ◌∷◌, length, get_or, inl, inr, Bool-cases, Option-cases, arith,
}
use llm_serving_engine.Paging.{PagingRow}
use llm_serving_engine.Decoder.Pools.{Same, AgreeIn}
use llm_serving_engine.Decoder.Served.{
  HeadRow, HeadShape, q_tensor, pool_tensor, no_row, entries_of, max_q_len, owner, or_unset,
  row_from, paged_kernel,
}
use llm_serving_engine.Kernels.Numbers.{Numbers}
use llm_serving_engine.Kernels.Lanes.{reference}
use llm_serving_engine.Kernels.Scan.{reference-same}
use llm_serving_engine.Kernels.Flash.{Triton, other_dtype}
use llm_serving_engine.Kernels.Paged.{in_rows, in_pool, paged_checks}
use llm_serving_engine.Kernels.Rows.{entry_of, head_of}
use llm_serving_engine.Kernels.Agreement.{group_lt, checks-heads}
use llm_serving_engine.Kernels.Forward.{
  named_block, entry_reads, sees, paged_attention_forward-reference,
}

pub record IsOwner (i : ℕ) (paging : List PagingRow) (entry : ℕ) : Type 0 where
  pub inside : entry < length paging
  pub from : (get_or paging entry no_row).q_start ≤ i
  pub below : i < (get_or paging entry no_row).q_start + (get_or paging entry no_row).q_len
  pub most : (get_or paging entry no_row).q_len ≤ max_q_len paging

owner-IsOwner :
    (i : ℕ) (paging : List PagingRow) (entry : ℕ)
    → owner i paging ≡ some entry
    → IsOwner i paging entry
owner-IsOwner i [] entry h = absurd (ground (arith, h))
owner-IsOwner i (r ∷ rows) entry h =
    elim (Bool-cases (leb r.q_start i && ltb i (r.q_start + r.q_len))) [
      | inl here ↦
          let first : 0 ≡ entry = ground (arith, h, here) in
          subst (IsOwner i (r ∷ rows)) first (record {
            inside = omega arith;
            from = ground (arith, here);
            below = ground (arith, here);
            most = omega arith;
          })
      | inr other ↦ elim (Option-cases (owner i rows)) [
        | inl out ↦ absurd (ground (arith, h, other, out))
        | inr (e, at) ↦
            let rest = owner-IsOwner i rows e at in
            let later : suc e ≡ entry = ground (arith, h, other, at) in
            subst (IsOwner i (r ∷ rows)) later (record {
              inside = omega (arith, rest.inside);
              from = rest.from;
              below = rest.below;
              most = omega (arith, rest.most);
            })
      ]
    ]

module _ {R : Type 0} (s : HeadShape) where
  q_tensor-row :
      (q : ℕ → HeadRow R) (row h d : ℕ)
      → h < s.heads
      → d < s.head_dim
      → in_rows (q_tensor s q) h row d ≡ q row h d
  q_tensor-row q row h d in_h in_d =
      let flat : h * s.head_dim + row * (s.heads * s.head_dim) + d * 1
          ≡ (row * s.heads + h) * s.head_dim + d =
        grind arith in
      ap (λ a. q (a / s.head_dim / s.heads) (a / s.head_dim % s.heads) (a % s.head_dim)) flat
      ∙ rw
          (
            entry_of d s.head_dim (row * s.heads + h) in_d,
            head_of d s.head_dim (row * s.heads + h) in_d,
          )
          (rw (entry_of h s.heads row in_h, head_of h s.heads row in_h) refl)

  pool_tensor-slot :
      (block_size : ℕ) (pool : ℕ → ℕ → HeadRow R) (b x h d : ℕ)
      → x < block_size
      → h < s.kv_heads
      → d < s.head_dim
      → in_pool (pool_tensor s block_size pool) b x h d ≡ pool b x h d
  pool_tensor-slot block_size pool b x h d in_block in_h in_d =
      let slot = b * block_size + x in
      let flat : b * (block_size * s.kv_heads * s.head_dim)
            + x * (s.kv_heads * s.head_dim)
            + h * s.head_dim
            + d * 1
          ≡ (slot * s.kv_heads + h) * s.head_dim + d =
        grind arith in
      ap (pool_tensor s block_size pool).memory flat
      ∙ rw
          (
            entry_of d s.head_dim (slot * s.kv_heads + h) in_d,
            head_of d s.head_dim (slot * s.kv_heads + h) in_d,
          )
          (rw (entry_of h s.kv_heads slot in_h, head_of h s.kv_heads slot in_h)
            (rw (entry_of x block_size b in_block, head_of x block_size b in_block) refl))

-- What the launch needs of a plan's rows: each has a key, and the blocks of its keys are not scratch.
pub record IsServed (block_size scratch : ℕ) (paging : List PagingRow) : Type 0 where
  pub some_key : (entry : ℕ) → entry < length paging → 0 < (get_or paging entry no_row).context_len
  pub off_scratch :
      (entry j : ℕ)
      → entry < length paging
      → j < (get_or paging entry no_row).context_len
      → named_block (entries_of paging) block_size entry j ≢ scratch

module _ {R : Type 0} (num : Numbers R) (triton : Triton R) (unset : R) (s : HeadShape)
    (block_size scratch : ℕ) (paging : List PagingRow) where
  -- Reference attention for row `i` of the output, of an entry's.
  abbrev answer : (k v : ℕ → ℕ → HeadRow R) (q : ℕ → HeadRow R) (i entry h d : ℕ) → Option R
  answer k v q i entry h d =
      let m = i - (get_or paging entry no_row).q_start in
      reference num s.head_dim (triton.inv_sqrt s.head_dim)
        (entry_reads (q_tensor s q) (pool_tensor s block_size k) (pool_tensor s block_size v)
          (entries_of paging) block_size entry h m)
        (get_or paging entry no_row).context_len
        (sees true (get_or paging entry no_row).query_offset m) d

  row_from-same :
      (out out' : ℕ → ℕ → ℕ → ℕ → Option R) (i h d : ℕ)
      → ((entry : ℕ)
          → IsOwner i paging entry
          → h < s.heads
          → d < s.head_dim
          → out entry h (i - (get_or paging entry no_row).q_start) d
            ≡ out' entry h (i - (get_or paging entry no_row).q_start) d)
      → row_from num triton unset s (some out) paging (owner i paging) i h d
        ≡ row_from num triton unset s (some out') paging (owner i paging) i h d
  row_from-same out out' i h d same = elim (Option-cases (owner i paging)) [
    | inl nobody ↦ rw nobody refl
    | inr (entry, at) ↦ elim (Bool-cases (ltb h s.heads && ltb d s.head_dim)) [
      | inl lane ↦ rw at (
          rw lane (
            ap (or_unset num triton unset) (
              same entry (owner-IsOwner i paging entry at) (ground (arith, lane))
                (ground (arith, lane)))))
      | inr out_of ↦ rw at (rw out_of refl)
    ]
  ]

  module _ (supported : s.dtype ≢ other_dtype) (some_slot : 0 < block_size)
      (checks : (q : ℕ → HeadRow R) (k v : ℕ → ℕ → HeadRow R)
        → paged_checks (q_tensor s q) (pool_tensor s block_size k) (pool_tensor s block_size v)
          ≡ true)
      (served : IsServed block_size scratch paging) where
    pool-same :
        (pool pool' : ℕ → ℕ → HeadRow R) (entry j kv d : ℕ)
        → AgreeIn scratch pool pool'
        → entry < length paging
        → j < (get_or paging entry no_row).context_len
        → kv < s.kv_heads
        → d < s.head_dim
        → in_pool
            (pool_tensor s block_size pool)
            (named_block (entries_of paging) block_size entry j)
            (j % block_size)
            kv
            d
          ≡ in_pool
              (pool_tensor s block_size pool')
              (named_block (entries_of paging) block_size entry j)
              (j % block_size)
              kv
              d
    pool-same pool pool' entry j kv d same inside key in_h in_d =
        let b = named_block (entries_of paging) block_size entry j in
        let x = j % block_size in
        let lt = mod-lt j some_slot in
        pool_tensor-slot s block_size pool b x kv d lt in_h in_d
        ∙ (ap (λ row. row kv d) (same b x (served.off_scratch entry j inside key))
            ∙ sym (pool_tensor-slot s block_size pool' b x kv d lt in_h in_d))

    answer-same :
        (k k' v v' : ℕ → ℕ → HeadRow R) (q q' : ℕ → HeadRow R) (i entry h d : ℕ)
        → AgreeIn scratch k k'
        → AgreeIn scratch v v'
        → q i ≡ q' i
        → IsOwner i paging entry
        → h < s.heads
        → d < s.head_dim
        → answer k v q i entry h d ≡ answer k' v' q' i entry h d
    answer-same k k' v v' q q' i entry h d same_k same_v same_q own in_h in_d =
        let start = (get_or paging entry no_row).q_start in
        let m = i - start in
        let here : start + m ≡ i = omega (arith, own.from) in
        let kv = h / (s.heads / s.kv_heads) in
        let even =
          checks-heads (q_tensor s q) (pool_tensor s block_size k) (pool_tensor s block_size v)
            (checks q k v) in
        let in_group : kv < s.kv_heads = group_lt h s.heads s.kv_heads in_h even in
        reference-same num s.head_dim (triton.inv_sqrt s.head_dim)
          (entry_reads (q_tensor s q) (pool_tensor s block_size k) (pool_tensor s block_size v)
            (entries_of paging) block_size entry h m)
          (entry_reads (q_tensor s q') (pool_tensor s block_size k') (pool_tensor s block_size v')
            (entries_of paging) block_size entry h m)
          (get_or paging entry no_row).context_len d
          (sees true (get_or paging entry no_row).query_offset m)
          (λ x lane.
            q_tensor-row s q (start + m) h x in_h lane
            ∙ (ap (λ r. q r h x) here
                ∙ (ap (λ row. row h x) same_q
                    ∙ (sym (ap (λ r. q' r h x) here)
                        ∙ sym (q_tensor-row s q' (start + m) h x in_h lane)))))
          (λ j x key lane. pool-same k k' entry j kv x same_k own.inside key in_group lane)
          (λ j key. pool-same v v' entry j kv d same_v own.inside key in_group in_d)

    pub paged_kernel-local :
        (k k' v v' : ℕ → ℕ → HeadRow R) (q q' : ℕ → HeadRow R) (n : ℕ)
        → AgreeIn scratch k k'
        → AgreeIn scratch v v'
        → Same n q q'
        → Same n
            (paged_kernel num triton unset s block_size k v paging q)
            (paged_kernel num triton unset s block_size k' v' paging q')
    unfolding paged_kernel
    paged_kernel-local k k' v v' q q' n same_k same_v same_q i lt =
        let (out, returns, stores) =
          paged_attention_forward-reference num triton (q_tensor s q) (pool_tensor s block_size k)
            (pool_tensor s block_size v) (entries_of paging) block_size (max_q_len paging)
            (checks q k v) supported in
        let (out', returns', stores') =
          paged_attention_forward-reference num triton (q_tensor s q') (pool_tensor s block_size k')
            (pool_tensor s block_size v') (entries_of paging) block_size (max_q_len paging)
            (checks q' k' v') supported in
        rw (returns, returns')
          (fun_ext (λ h. fun_ext (λ d. row_from-same out out' i h d (λ entry own in_h in_d.
            let m = i - (get_or paging entry no_row).q_start in
            let in_m : m < (get_or paging entry no_row).q_len =
              omega (arith, own.from, own.below) in
            let key = served.some_key entry own.inside in
            stores entry h m d own.inside in_h in_m own.most key in_d
            ∙ (answer-same k k' v v' q q' i entry h d same_k same_v (same_q i lt) own in_h in_d
                ∙ sym (stores' entry h m d own.inside in_h in_m own.most key in_d))))))
