-- ===== src/Kernels/Agreement.antt =====
-- `paged_attention_forward` against `flash_attention_forward` on one entry's cache.
use native.Mathlib.Nat.{div-lt_iff_lt-mul, div-add-mod'}
use llm_serving_engine.Base.{
  ℕ, ◌+◌, ◌*◌, ◌/◌, ◌%◌, ◌≤◌, ◌<◌, ◌≡◌, ◌≢◌, refl, sym, ap, ◌∙◌, Bool, true, Option, some, arith,
}
use llm_serving_engine.Kernels.Numbers.{Numbers}
use llm_serving_engine.Kernels.Lanes.{reference}
use llm_serving_engine.Kernels.Scan.{some_round, reference-same}
use llm_serving_engine.Kernels.Flash.{
  Triton, other_dtype, Tensor, at_axes, flash_checks, flash_attention_forward,
}
use llm_serving_engine.Kernels.Paged.{
  Rows, PagedPool, Entries, in_rows, in_pool, paged_checks, paged_attention_forward,
}
use llm_serving_engine.Kernels.Forward.{
  named_block, head_reads, entry_reads, sees, flash_attention_forward-reference,
  paged_attention_forward-reference,
}

-- The shared key and value head exists.
pub group_lt :
    (h heads kv_heads : ℕ) → h < heads → heads % kv_heads ≡ 0 → h / (heads / kv_heads) < kv_heads
group_lt h heads kv_heads lt even =
    let size = heads / kv_heads in
    let whole : heads ≡ size * kv_heads =
      sym (div-add-mod' heads kv_heads) ∙ rw even (omega arith) in
    let positive = some_round size kv_heads heads (omega (arith, lt)) (omega (arith, whole)) in
    (div-lt_iff_lt-mul positive).1 (grind (arith, whole, lt))

pub checks-heads :
    {R : Type 0} (q : Rows R) (k_pool v_pool : PagedPool R)
    → paged_checks q k_pool v_pool ≡ true
    → q.heads % k_pool.heads ≡ 0
checks-heads q k_pool v_pool checks = ground (arith, checks)

module _ {R : Type 0} where
  -- The dense tensors hold in batch 0 what the entry has in the pool.
  pub record IsGathered (q : Rows R) (k_pool v_pool : PagedPool R) (e : Entries)
      (block_size entry : ℕ) (q' k' v' : Tensor R) : Type 0 where
    pub batch : 0 < q'.shape.z
    pub heads : q'.shape.h ≡ q.heads
    pub rows : q'.shape.n ≡ e.q_len entry
    pub head_dim : q'.shape.d ≡ q.head_dim
    pub kv_heads : k'.shape.h ≡ k_pool.heads
    pub keys : k'.shape.n ≡ e.context_len entry
    pub query :
        (h m d : ℕ)
        → h < q.heads
        → m < e.q_len entry
        → d < q.head_dim
        → at_axes q' 0 h m d ≡ in_rows q h (e.q_start entry + m) d
    pub key :
        (kv j d : ℕ)
        → kv < k_pool.heads
        → j < e.context_len entry
        → d < q.head_dim
        → at_axes k' 0 kv j d
          ≡ in_pool k_pool (named_block e block_size entry j) (j % block_size) kv d
    pub value :
        (kv j d : ℕ)
        → kv < k_pool.heads
        → j < e.context_len entry
        → d < q.head_dim
        → at_axes v' 0 kv j d
          ≡ in_pool v_pool (named_block e block_size entry j) (j % block_size) kv d

  module _ (num : Numbers R) (triton : Triton R) where
    gathered-reference :
        (q : Rows R) (k_pool v_pool : PagedPool R) (e : Entries) (block_size entry : ℕ)
        (q' k' v' : Tensor R)
        → IsGathered q k_pool v_pool e block_size entry q' k' v'
        → q.heads % k_pool.heads ≡ 0
        → (h m d : ℕ) (visible : ℕ → Bool) → h < q.heads
        → m < e.q_len entry
        → d < q.head_dim
        → reference num q'.shape.d
            (triton.inv_sqrt q'.shape.d)
            (head_reads q' k' v' 0 h m)
            k'.shape.n
            visible
            d
          ≡ reference num q.head_dim
              (triton.inv_sqrt q.head_dim)
              (entry_reads q k_pool v_pool e block_size entry h m)
              (e.context_len entry)
              visible
              d
    gathered-reference q k_pool v_pool e block_size entry q' k' v' g even h m d visible in_h in_m
          in_d =
        let kv = group_lt h q.heads k_pool.heads in_h even in
        let same_kv : h / (q'.shape.h / k'.shape.h) ≡ h / (q.heads / k_pool.heads) =
          rw (g.heads, g.kv_heads) refl in
        ap
          (λ x.
            reference num x (triton.inv_sqrt x) (head_reads q' k' v' 0 h m) k'.shape.n visible d)
          g.head_dim
        ∙ (ap
              (λ n.
                reference num q.head_dim (triton.inv_sqrt q.head_dim) (head_reads q' k' v' 0 h m) n
                  visible d)
              g.keys
            ∙ reference-same num q.head_dim (triton.inv_sqrt q.head_dim) (head_reads q' k' v' 0 h m)
                (entry_reads q k_pool v_pool e block_size entry h m) (e.context_len entry) d visible
                (λ x lane. g.query h m x in_h in_m lane)
                (λ j x inside lane.
                  ap (λ a. at_axes k' 0 a j x) same_kv ∙ g.key _ j x kv inside lane)
                (λ j inside. ap (λ a. at_axes v' 0 a j d) same_kv ∙ g.value _ j d kv inside in_d))

    -- If dense tensors hold in batch 0 the query rows of an entry and the keys and values that its
    -- block table names, both wrappers accept their arguments, the entry is one of the batch with
    -- at most max_q_len rows, and it has a key, then paged_attention_forward and the causal
    -- flash_attention_forward at the query offset of the entry return, and what they store for
    -- each head, row of the entry and lane is equal.
    pub paged-flash :
        (q : Rows R) (k_pool v_pool : PagedPool R) (e : Entries) (block_size max_q_len entry : ℕ)
        (q' k' v' : Tensor R)
        → IsGathered q k_pool v_pool e block_size entry q' k' v'
        → paged_checks q k_pool v_pool ≡ true
        → flash_checks q' k' v' true (e.query_offset entry) ≡ true
        → q.dtype ≢ other_dtype
        → q'.dtype ≢ other_dtype
        → entry < e.count
        → e.q_len entry ≤ max_q_len
        → 0 < e.context_len entry
        → (out : (entry h m d : ℕ) → Option R) × (out' : (z h m d : ℕ) → Option R)
          × (paged_attention_forward num triton q k_pool v_pool e block_size max_q_len ≡ some out)
          × (flash_attention_forward num triton q' k' v' true (e.query_offset entry) ≡ some out')
          × ((h m d : ℕ)
              → h < q.heads
              → m < e.q_len entry
              → d < q.head_dim
              → out entry h m d ≡ out' 0 h m d)
    paged-flash q k_pool v_pool e block_size max_q_len entry q' k' v' g checks checks' supported
          supported' in_count longest some_key =
        let even = checks-heads q k_pool v_pool checks in
        let (out, returns, paged_is) =
          paged_attention_forward-reference num triton q k_pool v_pool e block_size max_q_len checks
            supported in
        let (out', returns', flash_is) =
          flash_attention_forward-reference num triton q' k' v' true (e.query_offset entry) checks'
            supported' (rw g.keys some_key) in
        (
          out,
          out',
          returns,
          returns',
          λ h m d in_h in_m in_d.
              paged_is entry h m d in_count in_h in_m longest some_key in_d
              ∙ (sym (
                    gathered-reference q k_pool v_pool e block_size entry q' k' v' g even h m d
                      (sees true (e.query_offset entry) m) in_h in_m in_d)
                  ∙ sym (
                      flash_is 0 h m d g.batch (rw g.heads in_h) (rw g.rows in_m)
                        (rw g.head_dim in_d))),
        )
