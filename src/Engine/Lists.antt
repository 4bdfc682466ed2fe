-- ===== src/Engine/Lists.antt =====
-- How the weights of the ids behave under the list operations of the engine.
use llm_serving_engine.Base.{
  ℕ, zero, suc, ◌+◌, ◌≤◌, ◌≡◌, refl, ap, inl, inr, none, some, List, [], ◌∷◌, ◌++◌, ◌==◌, ltb,
  if◌then◌else◌, range, length, total, total-append, All, Option-cases, arith,
}
use llm_serving_engine.Sequence.{Sequence, BatchEntry}
use llm_serving_engine.Allocator.{KvAllocator}
use llm_serving_engine.Scheduler.Results.{find, remove, release}
use llm_serving_engine.Scheduler.Folding.{find-seq_id, remove_absent, total-remove}
use llm_serving_engine.Engine.State.{planned, Engine, end_all}

abbrev pub by : (ℕ → ℕ) → Sequence → ℕ
by w s = w s.seq_id

abbrev pub entry_by : (ℕ → ℕ) → BatchEntry → ℕ
entry_by w e = w e.seq_id

-- The weight that counts an id.
abbrev pub is : ℕ → ℕ → ℕ
is id j = if id == j then 1 else 0

-- Any weights of the entries are within those of the sequences.
abbrev pub Within : List BatchEntry → List Sequence → Type 0
Within es ss = (w : ℕ → ℕ) → total (entry_by w) es ≤ total (by w) ss

pub total-range-suc :
    (w : ℕ → ℕ) (a n : ℕ) → total w (range a (suc n)) ≡ total w (range a n) + w (a + n)
total-range-suc w a zero = let same : w (a + 0) ≡ w a = ap w (omega arith) in omega (arith, same)
total-range-suc w a (suc n) =
    let next : w (suc a + n) ≡ w (a + suc n) = ap w (omega arith) in
    omega (arith, total-range-suc w (suc a) n, next)

pub find-none-total : (id : ℕ) (ss : List Sequence) → find id ss ≡ none → total (by (is id)) ss ≡ 0
unfolding find
find-none-total id [] e = refl
find-none-total id (s ∷ ss) e = ground (arith, find-none-total id ss)

pub total-find-none : (id : ℕ) (ss : List Sequence) → total (by (is id)) ss ≡ 0 → find id ss ≡ none
unfolding find
total-find-none id [] e = refl
total-find-none id (s ∷ ss) e = ground (arith, total-find-none id ss)

-- An id that weighs something is found.
pub find-weighs :
    (id : ℕ) (ss : List Sequence)
    → 1 ≤ total (by (is id)) ss
    → (s : Sequence) × (find id ss ≡ some s)
find-weighs id ss h = elim (Option-cases (find id ss)) [
  | inl out ↦ absurd (omega (arith, h, find-none-total id ss out))
  | inr (s, at) ↦ (s, at)
]

total-is_range : (id a n : ℕ) → total (is id) (range a n) ≤ (if ltb id a then 0 else 1)
total-is_range id a zero = omega arith
total-is_range id a (suc n) = ground (arith, total-is_range id (suc a) n)

pub total-is_once : (id a n : ℕ) → total (is id) (range a n) ≤ 1
total-is_once id a n = ground (arith, total-is_range id a n)

pub total-one : (ss : List Sequence) → total (by (λ _. 1)) ss ≡ length ss
total-one [] = refl
total-one (s ∷ ss) = omega (arith, total-one ss)

pub total-one_range : (a n : ℕ) → total (λ _. 1) (range a n) ≡ n
total-one_range a zero = refl
total-one_range a (suc n) = omega (arith, total-one_range (suc a) n)

pub is_self : (id : ℕ) → is id id ≡ 1
is_self id = ground arith

planned-cons :
    (e : BatchEntry) (es : List BatchEntry) (ss : List Sequence) (s : Sequence) (ts : List Sequence)
    → find e.seq_id ss ≡ some s
    → planned es ss ≡ some ts
    → planned (e ∷ es) ss ≡ some (s ∷ ts)
unfolding planned
planned-cons e es ss s ts at rest = ground (arith, at, rest)

pub planned-total :
    (es : List BatchEntry) (ss : List Sequence)
    → Within es ss
    → (ts : List Sequence) × (planned es ss ≡ some ts)
      × ((w : ℕ → ℕ) → total (by w) ts ≡ total (entry_by w) es)
unfolding planned
planned-total [] ss h = ([], refl, λ w. refl)
planned-total (e ∷ es) ss h =
    let (s, at) = find-weighs e.seq_id ss (omega (arith, h (is e.seq_id), is_self e.seq_id)) in
    let (ts, rest, same) = planned-total es ss (λ w. omega (arith, h w)) in
    (
      s ∷ ts,
      planned-cons e es ss s ts at rest,
      λ w. omega (arith, same w, ap w (find-seq_id e.seq_id ss s at)),
    )

-- Sequences that share no id with those of another list are not found in it.
pub absent-each :
    (ss running : List Sequence)
    → ((id : ℕ) → total (by (is id)) ss + total (by (is id)) running ≤ 1)
    → All (λ s. find s.seq_id running ≡ none) ss
absent-each [] running h = tt
absent-each (s ∷ ss) running h = (
  total-find-none s.seq_id running (omega (arith, h s.seq_id, is_self s.seq_id)),
  absent-each ss running (λ id. omega (arith, h id)),
)

module _ (kv : KvAllocator) where
  -- `release` takes sequences that run out of `running`.
  pub release-within :
      (ss running : List Sequence) (pool : kv.Pool)
      → ((w : ℕ → ℕ) → total (by w) ss ≤ total (by w) running)
      → (w : ℕ → ℕ)
      → total (by w) (release kv ss running pool).0 + total (by w) ss ≡ total (by w) running
  unfolding release
  release-within [] running pool h w = omega arith
  release-within (s ∷ ss) running pool h w =
      let (r, at) =
        find-weighs s.seq_id running (omega (arith, h (is s.seq_id), is_self s.seq_id)) in
      let same = find-seq_id s.seq_id running r at in
      omega (
        arith,
        release-within ss (remove s.seq_id running) _
            (λ v. omega (arith, h v, total-remove (by v) s.seq_id running r at, ap v same)) w,
        total-remove (by w) s.seq_id running r at,
        ap w same,
      )

  pub release-absent :
      (ss running : List Sequence) (pool : kv.Pool)
      → All (λ s. find s.seq_id running ≡ none) ss
      → (release kv ss running pool).0 ≡ running
  unfolding release
  release-absent [] running pool h = refl
  release-absent (s ∷ ss) running pool (out, h) =
      rw (release, remove_absent s.seq_id running out) (release-absent ss running _ h)

  release-empty : (ss : List Sequence) (pool : kv.Pool) → (release kv ss [] pool).0 ≡ []
  unfolding release remove
  release-empty [] pool = refl
  release-empty (s ∷ ss) pool = release-empty ss _

  pub release-all :
      (ss qs : List Sequence) (pool : kv.Pool) → (release kv (ss ++ qs) ss pool).0 ≡ []
  unfolding release remove
  release-all [] qs pool = release-empty qs pool
  release-all (s ∷ ss) qs pool =
      let head : remove s.seq_id (s ∷ ss) ≡ ss = ground arith in
      rw (release, head) (release-all ss qs _)

  -- What ending some sequences leaves as it is, and what it records.
  pub record IsEnded (ss : List Sequence) (e e' : Engine kv) : Type 0 where
    pub next_id : e'.next_id ≡ e.next_id
    pub ingress : e'.ingress ≡ e.ingress
    pub running : e'.running ≡ e.running
    pub queue : e'.queue ≡ e.queue
    pub point : e'.point ≡ e.point
    pub submitted : e'.submitted ≡ e.submitted
    pub recorded :
        (w : ℕ → ℕ) → total (by w) e'.recorded ≡ total (by w) e.recorded + total (by w) ss
    pub ended : (e'.ended ≡ e.ended + total (by (λ _. 1)) ss)

  pub end_all-IsEnded : (ss : List Sequence) (e : Engine kv) → IsEnded ss e (end_all kv ss e)
  unfolding end_all
  end_all-IsEnded [] e = record {
    next_id = refl;
    ingress = refl;
    running = refl;
    queue = refl;
    point = refl;
    submitted = refl;
    recorded = λ w. omega arith;
    ended = omega arith;
  }
  end_all-IsEnded (s ∷ ss) e =
      let e1 : Engine kv = record e {
        freed = e.freed ++ s.seq_id ∷ [];
        recorded = e.recorded ++ s ∷ [];
        ended = suc e.ended;
      } in
      let r = end_all-IsEnded ss e1 in
      record {
        next_id = r.next_id;
        ingress = r.ingress;
        running = r.running;
        queue = r.queue;
        point = r.point;
        submitted = r.submitted;
        recorded = λ w. omega (arith, r.recorded w, total-append (by w) e.recorded (s ∷ []));
        ended = omega (arith, r.ended);
      }
