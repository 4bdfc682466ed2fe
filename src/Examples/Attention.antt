-- ===== src/Examples/Attention.antt =====
-- Attention on small tensors, in an arithmetic of natural numbers in which every exponential is 1.
use native.Mathlib.Nat.{mul_comm, mul_assoc, mul-add}
use llm_serving_engine.Base.{
  ltb, false, ℕ, zero, suc, ◌>>=◌, ◌≢◌, ◌+◌, ◌*◌, ◌/◌, ◌%◌, ◌≤◌, ◌<◌, ◌≡◌, refl, ap, ◌∙◌, max, true,
  Option, some, leb, ◌==◌, if◌then◌else◌, arith,
}
use llm_serving_engine.Allocator.Block.{ceil_div}
use llm_serving_engine.Allocator.Cover.{div-lt-ceil_div}
use llm_serving_engine.Kernels.Numbers.{Numbers}
use llm_serving_engine.Kernels.Lanes.{reference}
use llm_serving_engine.Kernels.Flash.{Triton, float16, other_dtype, Tensor, flash_attention_forward}
use llm_serving_engine.Kernels.Paged.{Rows, PagedPool, Entries, paged_attention_forward}
use llm_serving_engine.Kernels.Forward.{
  head_reads, entry_reads, sees, flash_attention_forward-reference,
  paged_attention_forward-reference,
}
use llm_serving_engine.Kernels.Agreement.{IsGathered, paged-flash}
use llm_serving_engine.Kernels.Isolation.{IsSameEntry, paged_attention_forward-entry}

abbrev pub flat : Numbers ℕ
flat = record {
  zero = 0;
  add = ◌+◌;
  sub = λ a b. a;
  mul = ◌*◌;
  div = ◌/◌;
  exp = λ a. 1;
  max = max;
  add_assoc = λ a b c. omega arith;
  zero_add = λ a. omega arith;
  add_zero = λ a. omega arith;
  mul_comm = mul_comm;
  mul_assoc = mul_assoc;
  mul_add = mul-add;
  mul_zero = λ a. omega arith;
  exp_sub = λ a b c. refl;
  exp_same = λ a b. omega arith;
  max_assoc = λ a b c. omega arith;
}

pub doubled : ℕ → ℕ → ℕ → ℕ
doubled n zero p = p
doubled n (suc fuel) p = let rest = doubled n fuel (p * 2) in if leb n p then p else rest

pub doubled-fits : (n fuel p : ℕ) → 0 < p → n ≤ fuel + p → n ≤ doubled n fuel p
unfolding doubled
doubled-fits n zero p positive enough = omega (arith, enough)
doubled-fits n (suc fuel) p positive enough =
    let rest =
      doubled-fits n fuel (p * 2) (omega (arith, positive)) (omega (arith, positive, enough)) in
    ground (arith, rest)

abbrev pub powers : Triton ℕ
powers = record {
  cdiv = ceil_div;
  next_power_of_2 = λ n. doubled n n 1;
  inv_sqrt = λ d. 1;
  cdiv_covers = λ m n size positive lt. div-lt-ceil_div m n size positive lt;
  power_fits = λ n. doubled-fits n n 1 (omega arith) (omega arith);
}

abbrev blocks_of_entries : ℕ → ℕ
blocks_of_entries i = if i == 2 then 7 else if i == 3 then 4 else 0

abbrev two_entries : Entries
two_entries = record {
  count = 2;
  block_table = blocks_of_entries;
  stride_row = 2;
  context_len = λ entry. 3;
  query_offset = λ entry. 1;
  q_start = λ entry. entry * 2;
  q_len = λ entry. 2;
}

-- Two query heads share a key and value head.
abbrev row_queries : Rows ℕ
row_queries = record {
  memory = λ a. a;
  heads = 2;
  head_dim = 1;
  stride_h = 1;
  stride_m = 2;
  stride_d = 1;
  dtype = float16;
  is_cuda = true;
}

abbrev cache : PagedPool ℕ
cache = record {
  memory = λ a. a;
  heads = 1;
  stride_b = 2;
  stride_s = 1;
  stride_h = 1;
  stride_d = 1;
  dtype = float16;
  is_cuda = true;
}

abbrev dense_query : Tensor ℕ
dense_query = record {
  memory = λ a. a + 4;
  shape = record { z = 1; h = 2; n = 2; d = 1 };
  stride = record { z = 4; h = 1; n = 2; d = 1 };
  dtype = float16;
  is_cuda = true;
}

-- The keys of the second entry, whose blocks are 7 and 4.
abbrev dense_key : Tensor ℕ
dense_key = record {
  memory = λ a. blocks_of_entries (2 + a / 2) * 2 + a % 2;
  shape = record { z = 1; h = 1; n = 3; d = 1 };
  stride = record { z = 3; h = 0; n = 1; d = 0 };
  dtype = float16;
  is_cuda = true;
}

in_cache :
    (j kv d : ℕ)
    → kv < 1
    → d < 1
    → blocks_of_entries (2 + (0 + kv * 0 + j * 1 + d * 0) / 2) * 2
        + (0 + kv * 0 + j * 1 + d * 0) % 2
      ≡ blocks_of_entries (2 + j / 2) * 2 + j % 2 * 1 + kv * 1 + d * 1
in_cache j kv d in_kv in_d =
    let at : 0 + kv * 0 + j * 1 + d * 0 ≡ j = omega arith in
    ap (λ a. blocks_of_entries (2 + a / 2) * 2 + a % 2) at ∙ omega (arith, in_kv, in_d)

entry-IsGathered :
    IsGathered row_queries cache cache two_entries 2 1 dense_query dense_key dense_key
entry-IsGathered = record {
  batch = omega arith;
  heads = refl;
  rows = refl;
  head_dim = refl;
  kv_heads = refl;
  keys = refl;
  query = λ h m d in_h in_m in_d. omega arith;
  key = λ kv j d in_kv in_j in_d. in_cache j kv d in_kv in_d;
  value = λ kv j d in_kv in_j in_d. in_cache j kv d in_kv in_d;
}

pub some_type : float16 ≢ other_dtype
some_type e = ground (arith, e)

flash_attention_forward-reference_example :
    (out : (z h m d : ℕ) → Option ℕ) × (flash_attention_forward flat powers dense_query dense_key
        dense_key true 1
      ≡ some out)
    × ((z h m d : ℕ)
        → z < 1
        → h < 2
        → m < 2
        → d < 1
        → out z h m d
          ≡ reference flat 1 1
              (head_reads dense_query dense_key dense_key z h m)
              3
              (sees true 1 m)
              d)
flash_attention_forward-reference_example =
    flash_attention_forward-reference flat powers dense_query dense_key dense_key true 1 refl
      some_type (omega arith)

paged_attention_forward-reference_example :
    (out : (entry h m d : ℕ) → Option ℕ) × (paged_attention_forward flat powers row_queries cache
        cache two_entries 2 2
      ≡ some out)
    × ((entry h m d : ℕ)
        → entry < 2
        → h < 2
        → m < 2
        → 2 ≤ 2
        → 0 < 3
        → d < 1
        → out entry h m d
          ≡ reference flat 1 1
              (entry_reads row_queries cache cache two_entries 2 entry h m)
              3
              (sees true 1 m)
              d)
paged_attention_forward-reference_example =
    paged_attention_forward-reference flat powers row_queries cache cache two_entries 2 2 refl
      some_type

paged-flash_example :
    (out : (entry h m d : ℕ) → Option ℕ) × (out' : (z h m d : ℕ) → Option ℕ)
    × (paged_attention_forward flat powers row_queries cache cache two_entries 2 2 ≡ some out)
    × (flash_attention_forward flat powers dense_query dense_key dense_key true 1 ≡ some out')
    × ((h m d : ℕ) → h < 2 → m < 2 → d < 1 → out 1 h m d ≡ out' 0 h m d)
paged-flash_example =
    paged-flash flat powers row_queries cache cache two_entries 2 2 1 dense_query dense_key
      dense_key entry-IsGathered refl refl some_type some_type (omega arith) (omega arith)
      (omega arith)

-- The second row sees the values 14, 15 and 8.
averages :
    (flash_attention_forward flat powers dense_query dense_key dense_key true 1 >>= λ out.
    out 0 1 1 0)
    ≡ some 12
unfolding flash_attention_forward doubled
averages = refl

-- What another sequence holds, in the blocks below 4 of the pool, changes.
abbrev other_cells : ℕ → ℕ
other_cells a = if ltb a 8 then 100 else a

own_cells : (a : ℕ) → 8 ≤ a → a ≡ other_cells a
own_cells a le = let out : ltb a 8 ≡ false = ground (arith, le) in rw out refl

own_block :
    (j within kv d : ℕ)
    → j < 3
    → 8 ≤ blocks_of_entries (2 + j / 2) * 2 + within * 1 + kv * 1 + d * 1
own_block j within kv d lt = let half : j / 2 ≤ 1 = omega (arith, lt) in ground (arith, half)

cache-IsSameEntry :
    IsSameEntry row_queries cache cache (λ a. a) other_cells other_cells two_entries 2 1
cache-IsSameEntry = record {
  query = λ h m d in_h in_m in_d. refl;
  key = λ j within kv d lt _ _ _. own_cells _ (own_block j within kv d lt);
  value = λ j within kv d lt _ _ _. own_cells _ (own_block j within kv d lt);
}

paged_attention_forward-entry_example :
    (out out' : (entry h m d : ℕ) → Option ℕ) × (paged_attention_forward flat powers row_queries
        cache cache two_entries 2 2
      ≡ some out)
    × (paged_attention_forward flat powers row_queries
          (record cache { memory = other_cells })
          (record cache { memory = other_cells })
          two_entries
          2
          2
        ≡ some out')
    × ((h m d : ℕ) → h < 2 → m < 2 → d < 1 → out 1 h m d ≡ out' 1 h m d)
paged_attention_forward-entry_example =
    paged_attention_forward-entry flat powers row_queries cache cache (λ a. a) other_cells
      other_cells two_entries 2 2 1 cache-IsSameEntry refl some_type (omega arith) (omega arith)
      (omega arith) (omega arith)
