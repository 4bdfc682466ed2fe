-- ===== src/Decoder/Pools.antt =====
-- KV pools that agree but for one block, under the writes of `write_kv_and_project_q`.
use llm_serving_engine.Base.{
  ℕ, zero, suc, ◌+◌, ◌-◌, ◌≤◌, ◌<◌, ◌≡◌, ◌≢◌, refl, ap, ◌∙◌, false, ◌&&◌, ◌==◌, if◌then◌else◌,
  arith, Bool-cases, inl, inr,
}
use llm_serving_engine.Decoder.{
  Weights, KvPools, put_slot, put_rows, put_layer, k_of, v_of, write_kv,
}

-- Equal on the first `n` rows.
abbrev pub Same : {A : Type 0} → ℕ → (ℕ → A) → (ℕ → A) → Type 0
Same n f g = (i : ℕ) → i < n → f i ≡ g i

pub same_of :
    {A B D : Type 0} (n : ℕ) (f : A → B → D) (x x' : ℕ → A) (p p' : ℕ → B)
    → Same n x x'
    → Same n p p'
    → Same n (λ i. f (x i) (p i)) (λ i. f (x' i) (p' i))
same_of n f x x' p p' same_x same_p i lt =
    ap (λ y. f y (p i)) (same_x i lt) ∙ ap (f (x' i)) (same_p i lt)

abbrev pub block_of : ℕ × ℕ → ℕ
block_of (b, within) = b

module _ (scratch : ℕ) where
  module _ {A : Type 0} where
    -- Equal in all blocks but the scratch block.
    abbrev pub AgreeIn : (ℕ → ℕ → A) → (ℕ → ℕ → A) → Type 0
    AgreeIn pool pool' = (b x : ℕ) → b ≢ scratch → pool b x ≡ pool' b x

    put_slot-AgreeIn :
        (pool pool' : ℕ → ℕ → A) (d d' : ℕ × ℕ) (a a' : A)
        → AgreeIn pool pool'
        → d ≡ d'
        → a ≡ a'
        → AgreeIn (put_slot pool d a) (put_slot pool' d' a')
    put_slot-AgreeIn pool pool' d d' a a' h same_d same_a b x off =
        ap (λ e. put_slot pool e a b x) same_d
        ∙ (ap (λ v. put_slot pool d' v b x) same_a
            ∙ ap (λ v. if b == block_of d' && x == (let (c, y) = d' in y) then a' else v)
                (h b x off))

    put_slot-scratch :
        (pool : ℕ → ℕ → A) (d : ℕ × ℕ) (a : A)
        → block_of d ≡ scratch
        → AgreeIn (put_slot pool d a) pool
    put_slot-scratch pool (block, within) a in_scratch b x off =
        let other : (b == block) ≡ false = ground (arith, off, in_scratch) in rw other refl

    put_rows-AgreeIn :
        (dest dest' : ℕ → ℕ × ℕ) (a a' : ℕ → A) (n : ℕ) (pool pool' : ℕ → ℕ → A)
        → Same n dest dest'
        → Same n a a'
        → AgreeIn pool pool'
        → AgreeIn (put_rows dest a n pool) (put_rows dest' a' n pool')
    unfolding put_rows
    put_rows-AgreeIn dest dest' a a' zero pool pool' same_d same_a h = h
    put_rows-AgreeIn dest dest' a a' (suc n) pool pool' same_d same_a h =
        put_slot-AgreeIn (put_rows dest a n pool) (put_rows dest' a' n pool') (dest n) (dest' n)
          (a n) (a' n)
          (put_rows-AgreeIn dest dest' a a' n pool pool' (λ i lt. same_d i (omega arith))
            (λ i lt. same_a i (omega arith)) h)
          (same_d n (omega arith)) (same_a n (omega arith))

    -- Rows behind the first `n` that go to the scratch block.
    put_rows-padding :
        (dest : ℕ → ℕ × ℕ) (a : ℕ → A) (n k : ℕ) (pool : ℕ → ℕ → A)
        → ((i : ℕ) → n ≤ i → i < k + n → block_of (dest i) ≡ scratch)
        → AgreeIn (put_rows dest a (k + n) pool) (put_rows dest a n pool)
    unfolding put_rows
    put_rows-padding dest a n zero pool pads b x off =
        let all : 0 + n ≡ n = omega arith in ap (λ m. put_rows dest a m pool b x) all
    put_rows-padding dest a n (suc k) pool pads b x off =
        let more : suc k + n ≡ suc (k + n) = omega arith in
        ap (λ m. put_rows dest a m pool b x) more
        ∙ (put_slot-scratch (put_rows dest a (k + n) pool) (dest (k + n)) (a (k + n))
              (pads (k + n) (omega arith) (omega arith)) b x off
            ∙ put_rows-padding dest a n k pool (λ i le lt. pads i le (omega (arith, lt))) b x off)

    -- A padded write against one of the first `n` rows.
    padded-AgreeIn :
        (dest dest' : ℕ → ℕ × ℕ) (a a' : ℕ → A) (n bucket : ℕ) (pool pool' : ℕ → ℕ → A)
        → n ≤ bucket
        → ((i : ℕ) → n ≤ i → i < bucket → block_of (dest i) ≡ scratch)
        → Same n dest dest'
        → Same n a a'
        → AgreeIn pool pool'
        → AgreeIn (put_rows dest a bucket pool) (put_rows dest' a' n pool')
    padded-AgreeIn dest dest' a a' n bucket pool pool' le pads same_d same_a h b x off =
        let all : bucket ≡ bucket - n + n = omega arith in
        ap (λ m. put_rows dest a m pool b x) all
        ∙ (put_rows-padding dest a n (bucket - n) pool (λ i ge lt. pads i ge (omega (arith, lt))) b
              x off
            ∙ put_rows-AgreeIn dest dest' a a' n pool pool' same_d same_a h b x off)

    put_layer-AgreeIn :
        (pools pools' : ℕ → ℕ → ℕ → A) (layer : ℕ) (pool pool' : ℕ → ℕ → A)
        → ((l : ℕ) → AgreeIn (pools l) (pools' l))
        → AgreeIn pool pool'
        → (l : ℕ) → AgreeIn (put_layer pools layer pool l) (put_layer pools' layer pool' l)
    put_layer-AgreeIn pools pools' layer pool pool' h here l b x off =
        elim (Bool-cases (l == layer)) [
          | inl at ↦ rw at (here b x off)
          | inr other ↦ rw other (h l b x off)
        ]

  pub record Agree {K V : Type 0} (pools pools' : KvPools K V) : Type 0 where
    pub k_agree : (layer : ℕ) → AgreeIn (pools.k_pool layer) (pools'.k_pool layer)
    pub v_agree : (layer : ℕ) → AgreeIn (pools.v_pool layer) (pools'.v_pool layer)

  module _ {X C Q K V L : Type 0} (w : Weights X C Q K V L) (n bucket layer : ℕ) where
    -- Writing a bucket, of which the first `n` rows are those of `normed'`.
    pub write_kv-Agree :
        (normed normed' : ℕ → X) (positions positions' : ℕ → C × C) (dest dest' : ℕ → ℕ × ℕ)
        (pools pools' : KvPools K V)
        → n ≤ bucket
        → ((i : ℕ) → n ≤ i → i < bucket → block_of (dest i) ≡ scratch)
        → Same n normed normed'
        → Same n positions positions'
        → Same n dest dest'
        → Agree pools pools'
        → Agree
            (write_kv w bucket normed positions layer dest pools)
            (write_kv w n normed' positions' layer dest' pools')
    unfolding write_kv
    write_kv-Agree normed normed' positions positions' dest dest' pools pools' le pads same_x same_p
          same_d h =
        record {
          k_agree = put_layer-AgreeIn pools.k_pool pools'.k_pool layer _ _ h.k_agree (
              padded-AgreeIn dest dest' (λ i. k_of w layer (normed i) (positions i))
                (λ i. k_of w layer (normed' i) (positions' i)) n bucket (pools.k_pool layer)
                (pools'.k_pool layer) le pads same_d
                (same_of n (k_of w layer) normed normed' positions positions' same_x same_p)
                (h.k_agree layer));
          v_agree = put_layer-AgreeIn pools.v_pool pools'.v_pool layer _ _ h.v_agree (
              padded-AgreeIn dest dest' (λ i. v_of w layer (normed i) (positions i))
                (λ i. v_of w layer (normed' i) (positions' i)) n bucket (pools.v_pool layer)
                (pools'.v_pool layer) le pads same_d
                (same_of n (v_of w layer) normed normed' positions positions' same_x same_p)
                (h.v_agree layer));
        }

  put_layer-same :
      {A : Type 0} (pools : ℕ → ℕ → ℕ → A) (layer l : ℕ)
      → put_layer pools layer (pools layer) l ≡ pools l
  put_layer-same pools layer l = elim (Bool-cases (l == layer)) [
    | inl at ↦ rw at (let same : layer ≡ l = ground (arith, at) in ap pools same)
    | inr other ↦ rw other refl
  ]

  put_all-AgreeIn :
      {A : Type 0} (pools pools' : ℕ → ℕ → ℕ → A) (layer n : ℕ) (dest : ℕ → ℕ × ℕ) (a : ℕ → A)
      → ((i : ℕ) → i < n → block_of (dest i) ≡ scratch)
      → ((l : ℕ) → AgreeIn (pools l) (pools' l))
      → (l : ℕ) → AgreeIn (put_layer pools layer (put_rows dest a n (pools layer)) l) (pools' l)
  unfolding put_rows
  put_all-AgreeIn pools pools' layer n dest a rows h l b x off =
      put_layer-AgreeIn pools pools' layer (put_rows dest a n (pools layer)) (pools' layer) h
        (padded-AgreeIn dest dest a a 0 n (pools layer) (pools' layer) (omega arith)
          (λ i _ lt. rows i lt) (λ i lt. refl) (λ i lt. refl) (h layer))
        l b x off
      ∙ ap (λ p. p b x) (put_layer-same pools' layer l)

  -- Writing rows that all go to the scratch block.
  pub write_kv-scratch :
      {X C Q K V L : Type 0} (w : Weights X C Q K V L) (n layer : ℕ) (normed : ℕ → X)
      (positions : ℕ → C × C) (dest : ℕ → ℕ × ℕ) (pools pools' : KvPools K V)
      → ((i : ℕ) → i < n → block_of (dest i) ≡ scratch)
      → Agree pools pools'
      → Agree (write_kv w n normed positions layer dest pools) pools'
  unfolding write_kv
  write_kv-scratch w n layer normed positions dest pools pools' rows h = record {
    k_agree =
        put_all-AgreeIn pools.k_pool pools'.k_pool layer n dest
          (λ i. k_of w layer (normed i) (positions i)) rows h.k_agree;
    v_agree =
        put_all-AgreeIn pools.v_pool pools'.v_pool layer n dest
          (λ i. v_of w layer (normed i) (positions i)) rows h.v_agree;
  }
