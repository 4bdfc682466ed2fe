-- ===== src/Graphs/Buckets.antt =====
-- Which batch sizes have a bucket, and how much padding it costs.
use llm_serving_engine.Base.{
  subst, ℕ, zero, suc, ◌+◌, ◌*◌, ◌≤◌, ◌<◌, ◌≡◌, ◌⊎◌, refl, inl, inr, true, Option, some, none, List,
  [], ◌∷◌, ◌++◌, length, ltb, leb, Bool-cases, Option-cases, arith, All, total, min,
}
use llm_serving_engine.Sequence.{BatchEntry}
use llm_serving_engine.Graphs.{
  double_until, decode_graph_buckets, below, candidates, piecewise_graph_buckets, least, bucket_for,
  Graphs, ForwardPath, decode_graph, piecewise_graph, fused, per_sequence, forward_path,
  eager_or_piecewise, pure_decode,
}

abbrev pub Contains : ℕ → List ℕ → Type 0
Contains b [] = ⊥
Contains b (x ∷ xs) = (b ≡ x) ⊎ Contains b xs

-- What `bucket_for` promises: the least bucket that holds `n`, and none only if there is none.
abbrev pub IsLeast : ℕ → List ℕ → Option ℕ → Type 0
IsLeast n bs none = All (λ b. b < n) bs
IsLeast n bs (some b) = (n ≤ b) × Contains b bs × All (λ c. (c < n) ⊎ (b ≤ c)) bs

All-weaken :
    (n b c : ℕ) (bs : List ℕ)
    → c ≤ b
    → All (λ d. (d < n) ⊎ (b ≤ d)) bs
    → All (λ d. (d < n) ⊎ (c ≤ d)) bs
All-weaken n b c [] le h = tt
All-weaken n b c (d ∷ bs) le h = (ground (arith, h.0), All-weaken n b c bs le h.1)

All-none : (n b : ℕ) (bs : List ℕ) → All (λ d. d < n) bs → All (λ d. (d < n) ⊎ (b ≤ d)) bs
All-none n b [] h = tt
All-none n b (d ∷ bs) h = (inl h.0, All-none n b bs h.1)

least-IsLeast :
    (n b : ℕ) (bs : List ℕ) (o : Option ℕ) → n ≤ b → IsLeast n bs o → IsLeast n (b ∷ bs) (least b o)
least-IsLeast n b bs none le h = (le, inl refl, (inr (omega arith), All-none n b bs h))
least-IsLeast n b bs (some c) le (fits, has, all) = elim (Bool-cases (leb b c)) [
  | inl small ↦
      let e : b ≡ min b c = ground arith in
      subst (λ m. IsLeast n (b ∷ bs) (some m)) e
        (le, inl refl, (inr (omega arith), All-weaken n c b bs (ground arith) all))
  | inr big ↦
      let e : c ≡ min b c = ground arith in
      subst (λ m. IsLeast n (b ∷ bs) (some m)) e (fits, inr has, (ground arith, all))
]

skip-IsLeast :
    (n b : ℕ) (bs : List ℕ) (o : Option ℕ) → b < n → IsLeast n bs o → IsLeast n (b ∷ bs) o
skip-IsLeast n b bs none lt h = (lt, h)
skip-IsLeast n b bs (some c) lt h = (h.0, inr h.1, (inl lt, h.2))

-- Of any buckets in any order, bucket_for returns the least one that is large enough, and none
-- only if none is.
pub bucket_for-IsLeast : (n : ℕ) (bs : List ℕ) → IsLeast n bs (bucket_for n bs)
unfolding bucket_for
bucket_for-IsLeast n [] = tt
bucket_for-IsLeast n (b ∷ bs) = elim (Bool-cases (leb n b)) [
  | inl fits ↦
      rw fits (least-IsLeast n b bs (bucket_for n bs) (ground arith) (bucket_for-IsLeast n bs))
  | inr small ↦
      rw small (skip-IsLeast n b bs (bucket_for n bs) (ground arith) (bucket_for-IsLeast n bs))
]

-- A bucket that is there bounds what `bucket_for` answers.
bucket_for-Contains :
    (n c : ℕ) (bs : List ℕ)
    → n ≤ c
    → Contains c bs
    → (b : ℕ) × (bucket_for n bs ≡ some b) × (n ≤ b) × (b ≤ c)
bucket_for-Contains n c bs le has = elim (Option-cases (bucket_for n bs)) [
  | inl out ↦ absurd (none_left bs has (subst (IsLeast n bs) out (bucket_for-IsLeast n bs)))
  | inr (b, got) ↦
      let l : IsLeast n bs (some b) = subst (IsLeast n bs) got (bucket_for-IsLeast n bs) in
      (b, got, l.0, bounded b bs has l.2)
]
  where
    none_left : (bs : List ℕ) → Contains c bs → All (λ d. d < n) bs → ⊥
    none_left [] h all = h
    none_left (x ∷ bs) (inl e) all = omega (arith, all.0)
    none_left (x ∷ bs) (inr h) all = none_left bs h all.1

    bounded : (b : ℕ) (bs : List ℕ) → Contains c bs → All (λ d. (d < n) ⊎ (b ≤ d)) bs → b ≤ c
    bounded b [] h all = absurd h
    bounded b (x ∷ bs) (inl e) all = omega (arith, all.0)
    bounded b (x ∷ bs) (inr h) all = bounded b bs h all.1

double_until-Contains :
    (fuel max_batch last n : ℕ)
    → 0 < last
    → last < n
    → n ≤ max_batch
    → max_batch ≤ last + fuel
    → (b : ℕ) × Contains b (double_until fuel max_batch last) × (n ≤ b) × (b < n + n)
unfolding double_until
double_until-Contains zero max_batch last n pos lt le enough = absurd (omega arith)
double_until-Contains (suc fuel) max_batch last n pos lt le enough =
    let on : ltb last max_batch ≡ true = ground arith in
    elim (Bool-cases (leb n (last * 2))) [
      | inl fits ↦ rw on (last * 2, inl refl, ground arith, omega arith)
      | inr more ↦
          let (b, has, above, under) =
            double_until-Contains fuel max_batch (last * 2) n (omega arith) (ground arith) le
              (omega arith) in
          rw on (b, inr has, above, under)
    ]

-- For every batch from 1 to max_batch, bucket_for finds a bucket among decode_graph_buckets that
-- holds it and is less than twice as large.
decode_graph_buckets-cover :
    (max_batch n : ℕ)
    → 0 < n
    → n ≤ max_batch
    → (b : ℕ) × (bucket_for n (decode_graph_buckets max_batch) ≡ some b) × (n ≤ b) × (b < n + n)
unfolding decode_graph_buckets
decode_graph_buckets-cover max_batch n pos le = elim (Bool-cases (leb n 1)) [
  | inl one ↦ wrap 1 (inl refl) (ground arith) (omega arith)
  | inr more ↦
      let (b, has, above, under) =
        double_until-Contains max_batch max_batch 1 n (omega arith) (ground arith) le
          (omega arith) in
      wrap b (inr has) above under
]
  where
    wrap :
        (c : ℕ)
        → Contains c (decode_graph_buckets max_batch)
        → n ≤ c
        → c < n + n
        → (b : ℕ) × (bucket_for n (decode_graph_buckets max_batch) ≡ some b) × (n ≤ b) × (b < n + n)
    wrap c has above under =
        let (b, got, fits, small) =
          bucket_for-Contains n c (decode_graph_buckets max_batch) above has in
        (b, got, fits, omega arith)

Contains-last : (b : ℕ) (bs : List ℕ) → Contains b (bs ++ b ∷ [])
Contains-last b [] = inl refl
Contains-last b (x ∷ bs) = inr (Contains-last b bs)

-- For every number of tokens up to max_tokens, bucket_for finds a bucket among
-- piecewise_graph_buckets that holds it and is at most max_tokens.
pub piecewise_graph_buckets-cover :
    (max_tokens n : ℕ)
    → n ≤ max_tokens
    → (b : ℕ) × (bucket_for n (piecewise_graph_buckets max_tokens) ≡ some b)
      × (n ≤ b)
      × (b ≤ max_tokens)
unfolding piecewise_graph_buckets
piecewise_graph_buckets-cover max_tokens n le =
    bucket_for-Contains n max_tokens (below max_tokens candidates ++ max_tokens ∷ []) le
      (Contains-last max_tokens (below max_tokens candidates))

-- A graphed run: the buckets that the engine captures for its scheduler.
abbrev pub captured : (max_running max_tokens : ℕ) → Graphs
captured max_running max_tokens = record {
  use_custom_kernels = true;
  decode_buckets = decode_graph_buckets max_running;
  piecewise_buckets = piecewise_graph_buckets max_tokens;
}

abbrev pub IsReplay : ForwardPath → Type 0
IsReplay per_sequence = ⊥
IsReplay (decode_graph b) = Unit
IsReplay (piecewise_graph b) = Unit
IsReplay fused = ⊥

piecewise-IsReplay :
    (max_running max_tokens : ℕ) (plan : List BatchEntry)
    → total (λ e. e.n_tokens) plan ≤ max_tokens
    → IsReplay (eager_or_piecewise (captured max_running max_tokens) plan)
unfolding eager_or_piecewise
piecewise-IsReplay max_running max_tokens plan le =
    let n = total (λ (e : BatchEntry). e.n_tokens) plan in
    let (b, got, _, _) = piecewise_graph_buckets-cover max_tokens n le in
    rw (got, eager_or_piecewise) tt

-- With custom kernels and the decode and piecewise buckets captured, a plan of at most max_tokens
-- tokens takes the path of a graph, never an eager one.
pub forward_path-IsReplay :
    (max_running max_tokens : ℕ) (plan : List BatchEntry)
    → total (λ e. e.n_tokens) plan ≤ max_tokens
    → IsReplay (forward_path (captured max_running max_tokens) plan)
unfolding forward_path
forward_path-IsReplay max_running max_tokens plan le =
    let eager = piecewise-IsReplay max_running max_tokens plan le in
    elim (Bool-cases (pure_decode plan)) [
      | inr mixed ↦ rw mixed eager
      | inl pure ↦
          elim (Option-cases (bucket_for (length plan) (decode_graph_buckets max_running))) [
            | inl out ↦ rw pure (rw out eager)
            | inr (c, hit) ↦ rw pure (rw hit tt)
          ]
    ]
