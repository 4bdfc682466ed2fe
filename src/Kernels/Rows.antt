-- ===== src/Kernels/Rows.antt =====
-- What the programs of the two kernels store for the rows and lanes that exist.
use native.Mathlib.Nat.{
  mul-add-div_right, mul-add-mod_self_right, div-lt_iff_lt-mul, div-eq_of_lt, mod-eq_of_lt,
  div-add-mod',
}
use llm_serving_engine.Base.{
  ℕ, ◌+◌, ◌*◌, ◌/◌, ◌%◌, ◌≤◌, ◌<◌, ◌≡◌, refl, sym, ap, ◌∙◌, min, Bool, true, false, not, ◌&&◌, ◌||◌,
  Option, none, some, ◌>>=◌, ltb, leb, if◌then◌else◌, arith,
}
use llm_serving_engine.Kernels.Numbers.{Numbers}
use llm_serving_engine.Kernels.Lanes.{scan, reference}
use llm_serving_engine.Kernels.Scan.{IsEnd, scan-reference}
use llm_serving_engine.Kernels.Flash.{
  FlashLaunch, flash_reads, flash_visible, flash_end, flash_attention_2,
}
use llm_serving_engine.Kernels.Paged.{
  PagedLaunch, paged_reads, paged_visible, paged_end, paged_attention_2,
}

row_in_tile : (s m i : ℕ) → i < m → s * m + i < (s + 1) * m
row_in_tile s m i h = grind (arith, h)

pub row_of_tile : (m size : ℕ) → m / size * size + m % size ≡ m
row_of_tile m size = div-add-mod' m size

pub entry_of : (h n z : ℕ) → h < n → (z * n + h) / n ≡ z
entry_of h n z lt =
    mul-add-div_right (omega (arith, lt)) z h ∙ (ap (λ x. z + x) (div-eq_of_lt lt) ∙ omega arith)

pub head_of : (h n z : ℕ) → h < n → (z * n + h) % n ≡ h
head_of h n z lt = mul-add-mod_self_right z n h ∙ mod-eq_of_lt lt

pub entry_head_lt : (h n z k : ℕ) → h < n → z < k → z * n + h < k * n
entry_head_lt h n z k lt lt' =
    (div-lt_iff_lt-mul (omega (arith, lt))).0 (rw (entry_of h n z lt) lt')

-- A store under a mask that holds.
stored :
    {R : Type 0} (row_of : Bool → Option (ℕ → R)) (row : ℕ → R) (m_mask d_mask : Bool) (d : ℕ)
    → m_mask ≡ true
    → d_mask ≡ true
    → row_of true ≡ some row
    → (if m_mask && d_mask then (row_of m_mask >>= λ r. some (r d)) else none) ≡ some (row d)
stored row_of row m_mask d_mask d in_rows in_lanes returns =
    rw (in_rows, in_lanes, returns, ◌>>=◌) refl

-- Where the scan of a tile ends that reaches to `e`, with and without a causal mask.
module _ (q m e n : ℕ) (lt : m < e) where
  abbrev sees : Bool → ℕ → Bool
  sees causal j = not causal || leb j (q + m)

  abbrev end_of : Bool → ℕ
  end_of causal = if causal then min (q + e) n else n

  end_of_le : (causal : Bool) → end_of causal ≤ n
  end_of_le true = omega arith
  end_of_le false = omega arith

  end_of_pos : (causal : Bool) → 0 < n → 0 < end_of causal
  end_of_pos true some_key = omega (arith, some_key, lt)
  end_of_pos false some_key = some_key

  sees-first : (causal : Bool) → sees causal 0 ≡ true
  sees-first true = ground arith
  sees-first false = refl

  end_of-IsEnd : (causal : Bool) → IsEnd n (sees causal) (end_of causal)
  end_of-IsEnd true j past inside = ground (arith, lt, past, inside)
  end_of-IsEnd false j past inside = absurd (omega (arith, past, inside))

module _ {R : Type 0} (num : Numbers R) where
  module _ (g : FlashLaunch R) where
    pub flash_attention_2-reference :
        (start_m off_hz i d : ℕ)
        → i < g.blocks.block_m
        → start_m * g.blocks.block_m + i < g.q.shape.n
        → d < g.blocks.head_dim
        → g.blocks.head_dim ≤ g.blocks.block_d
        → 0 < g.blocks.block_n
        → 0 < g.k.shape.n
        → flash_attention_2 num g start_m off_hz i d
          ≡ reference num g.blocks.head_dim g.blocks.softmax_scale
              (flash_reads num g off_hz (start_m * g.blocks.block_m + i))
              g.k.shape.n
              (flash_visible num g (start_m * g.blocks.block_m + i))
              d
    unfolding flash_attention_2
    flash_attention_2-reference start_m off_hz i d in_tile row lane fits positive some_key =
        let m = start_m * g.blocks.block_m + i in
        let q = g.query_offset in
        let e = (start_m + 1) * g.blocks.block_m in
        let before = row_in_tile start_m g.blocks.block_m i in_tile in
        let inside : ltb m g.q.shape.n ≡ true = ground (arith, row) in
        let in_head : ltb d g.blocks.head_dim ≡ true = ground (arith, lane) in
        let (row_out, returns, same) =
          scan-reference num g.blocks (flash_reads num g off_hz m) g.k.shape.n
            (flash_visible num g m) fits (flash_end num g start_m)
            (end_of_le q m e g.k.shape.n before g.is_causal)
            (end_of-IsEnd q m e g.k.shape.n before g.is_causal) positive
            (end_of_pos q m e g.k.shape.n before g.is_causal some_key)
            (sees-first q m e g.k.shape.n before g.is_causal) in
        stored
          (λ mask.
            scan num g.blocks (flash_reads num g off_hz m) mask g.k.shape.n (flash_visible num g m)
              (flash_end num g start_m))
          row_out _ _ d inside in_head returns
        ∙ sym (same d lane)

  module _ (g : PagedLaunch R) where
    pub paged_attention_2-reference :
        (start_m entry_head i d : ℕ)
        → i < g.blocks.block_m
        → start_m * g.blocks.block_m + i < g.entries.q_len (entry_head / g.q.heads)
        → d < g.blocks.head_dim
        → g.blocks.head_dim ≤ g.blocks.block_d
        → 0 < g.blocks.block_n
        → 0 < g.entries.context_len (entry_head / g.q.heads)
        → paged_attention_2 num g start_m entry_head i d
          ≡ reference num g.blocks.head_dim g.blocks.softmax_scale
              (paged_reads num g
                (entry_head / g.q.heads)
                (entry_head % g.q.heads)
                (start_m * g.blocks.block_m + i))
              (g.entries.context_len (entry_head / g.q.heads))
              (paged_visible num g (entry_head / g.q.heads) (start_m * g.blocks.block_m + i))
              d
    unfolding paged_attention_2
    paged_attention_2-reference start_m entry_head i d in_tile row lane fits positive some_key =
        let entry = entry_head / g.q.heads in
        let m = start_m * g.blocks.block_m + i in
        let n = g.entries.context_len entry in
        let q = g.entries.query_offset entry in
        let e = (start_m + 1) * g.blocks.block_m in
        let before = row_in_tile start_m g.blocks.block_m i in_tile in
        let starts : leb (g.entries.q_len entry) (start_m * g.blocks.block_m) ≡ false =
          ground (arith, row) in
        let inside : ltb m (g.entries.q_len entry) ≡ true = ground (arith, row) in
        let in_head : ltb d g.blocks.head_dim ≡ true = ground (arith, lane) in
        let (row_out, returns, same) =
          scan-reference num g.blocks (paged_reads num g entry (entry_head % g.q.heads) m) n
            (paged_visible num g entry m) fits (paged_end num g entry start_m)
            (end_of_le q m e n before true) (end_of-IsEnd q m e n before true) positive
            (end_of_pos q m e n before true some_key) (sees-first q m e n before true) in
        rw starts (
          stored
            (λ mask.
              scan num g.blocks (paged_reads num g entry (entry_head % g.q.heads) m) mask n
                (paged_visible num g entry m) (paged_end num g entry start_m))
            row_out _ _ d inside in_head returns
          ∙ sym (same d lane))
