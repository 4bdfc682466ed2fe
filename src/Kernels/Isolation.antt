-- ===== src/Kernels/Isolation.antt =====
-- What the rows of one entry depend on in `paged_attention_forward`.
use native.Mathlib.Nat.{mod-lt}
use llm_serving_engine.Base.{ℕ, ◌+◌, ◌/◌, ◌%◌, ◌≤◌, ◌<◌, ◌≡◌, ◌≢◌, sym, ◌∙◌, true, Option, some}
use llm_serving_engine.Kernels.Numbers.{Numbers}
use llm_serving_engine.Kernels.Scan.{reference-same}
use llm_serving_engine.Kernels.Flash.{Triton, other_dtype}
use llm_serving_engine.Kernels.Paged.{
  Rows, PagedPool, Entries, in_rows, in_pool, paged_checks, paged_attention_forward,
}
use llm_serving_engine.Kernels.Agreement.{group_lt, checks-heads}
use llm_serving_engine.Kernels.Forward.{
  named_block, entry_reads, sees, paged_attention_forward-reference,
}

module _ {R : Type 0} where
  -- Other contents of the same tensors, in which an entry has the same query rows, and the blocks that
  -- its row of the block table names hold the same.
  pub record IsSameEntry (q : Rows R) (k_pool v_pool : PagedPool R) (rows keys values : ℕ → R)
      (e : Entries) (block_size entry : ℕ) : Type 0 where
    pub query :
        (h m d : ℕ)
        → h < q.heads
        → m < e.q_len entry
        → d < q.head_dim
        → in_rows q h (e.q_start entry + m) d
          ≡ in_rows (record q { memory = rows }) h (e.q_start entry + m) d
    pub key :
        (j within kv d : ℕ)
        → j < e.context_len entry
        → within < block_size
        → kv < k_pool.heads
        → d < q.head_dim
        → in_pool k_pool (named_block e block_size entry j) within kv d
          ≡ in_pool (record k_pool { memory = keys }) (named_block e block_size entry j) within kv d
    pub value :
        (j within kv d : ℕ)
        → j < e.context_len entry
        → within < block_size
        → kv < k_pool.heads
        → d < q.head_dim
        → in_pool v_pool (named_block e block_size entry j) within kv d
          ≡ in_pool
              (record v_pool { memory = values })
              (named_block e block_size entry j)
              within
              kv
              d

  module _ (num : Numbers R) (triton : Triton R) where
    -- If the assertions hold and the dtype is a supported one, with a positive block size, what
    -- paged_attention_forward stores for an entry of the batch that has a key and at most
    -- max_q_len rows stays the same when q and the pools change anywhere but in the rows of that
    -- entry and in the blocks that its block table names for its keys.
    pub paged_attention_forward-entry :
        (q : Rows R) (k_pool v_pool : PagedPool R) (rows keys values : ℕ → R) (e : Entries)
        (block_size max_q_len entry : ℕ)
        → IsSameEntry q k_pool v_pool rows keys values e block_size entry
        → paged_checks q k_pool v_pool ≡ true
        → q.dtype ≢ other_dtype
        → 0 < block_size
        → entry < e.count
        → e.q_len entry ≤ max_q_len
        → 0 < e.context_len entry
        → (out out' : (entry h m d : ℕ) → Option R) × (paged_attention_forward num triton q k_pool
              v_pool e block_size max_q_len
            ≡ some out)
          × (paged_attention_forward num triton
                (record q { memory = rows })
                (record k_pool { memory = keys })
                (record v_pool { memory = values })
                e
                block_size
                max_q_len
              ≡ some out')
          × ((h m d : ℕ)
              → h < q.heads
              → m < e.q_len entry
              → d < q.head_dim
              → out entry h m d ≡ out' entry h m d)
    paged_attention_forward-entry q k_pool v_pool rows keys values e block_size max_q_len entry same
          checks supported some_slot in_count longest some_key =
        let even = checks-heads q k_pool v_pool checks in
        let q' = record q { memory = rows } in
        let k' = record k_pool { memory = keys } in
        let v' = record v_pool { memory = values } in
        let (out, returns, stores) =
          paged_attention_forward-reference num triton q k_pool v_pool e block_size max_q_len checks
            supported in
        let (out', returns', stores') =
          paged_attention_forward-reference num triton q' k' v' e block_size max_q_len checks
            supported in
        (
          out,
          out',
          returns,
          returns',
          λ h m d in_h in_m in_d.
              stores entry h m d in_count in_h in_m longest some_key in_d
              ∙ (reference-same num q.head_dim (triton.inv_sqrt q.head_dim)
                    (entry_reads q k_pool v_pool e block_size entry h m)
                    (entry_reads q' k' v' e block_size entry h m) (e.context_len entry) d
                    (sees true (e.query_offset entry) m) (λ x lane. same.query h m x in_h in_m lane)
                    (λ j x inside lane.
                      same.key j (j % block_size) (h / (q.heads / k_pool.heads)) x inside
                        (mod-lt j some_slot) (group_lt h q.heads k_pool.heads in_h even) lane)
                    (λ j inside.
                      same.value j (j % block_size) (h / (q.heads / k_pool.heads)) d inside
                        (mod-lt j some_slot) (group_lt h q.heads k_pool.heads in_h even) in_d)
                  ∙ sym (stores' entry h m d in_count in_h in_m longest some_key in_d)),
        )
