-- ===== src/Scheduler/Phase.antt =====
-- Where a sequence stands in its life, as its fields show it: what has a K/V slot, what has been
-- prefilled, and how far its table reaches.
use llm_serving_engine.Base.{
  ℕ, ◌+◌, ◌≤◌, ◌<◌, ◌≡◌, refl, [], true, false, ◌==◌, Bool-cases, inl, inr, arith,
}
use llm_serving_engine.Sequence.{
  Sequence, SequenceStatus, waiting, prefilling, decoding, BlockTable, num_tokens, is_decoding,
  is_prefilling,
}
use llm_serving_engine.Allocator.Block.{BlockAllocator, free}
use llm_serving_engine.Allocator.Cover.{IsCovered}
use llm_serving_engine.Scheduler.State.{advance_prefill, reset}

-- `lag` is 1 between iterations, where the last token generated has no slot yet, and 0 while an
-- iteration is planned or runs.
abbrev pub Phase : SequenceStatus → (lag slots tokens progress : ℕ) → Type 0
Phase waiting lag slots tokens progress = ⊥
Phase prefilling lag slots tokens progress = (slots ≡ progress) × (progress < tokens)
Phase decoding lag slots tokens progress = slots + lag ≡ tokens

pub record IsRunning (block_size lag : ℕ) (s : Sequence) : Type 0 where
  pub covered : IsCovered block_size s.block_table
  pub phase : Phase s.status lag s.block_table.num_tokens (num_tokens s) s.prefill_progress
  pub some_tokens : 0 < num_tokens s

pub record IsWaiting (s : Sequence) : Type 0 where
  pub no_blocks : s.block_table.physical_blocks ≡ []
  pub no_slots : s.block_table.num_tokens ≡ 0
  pub unprefilled : s.prefill_progress ≡ 0
  pub some_tokens : 0 < num_tokens s
  pub is_waiting : s.status ≡ waiting

-- A freed and reset victim is as good as new.
pub reset-IsWaiting :
    (block_size lag : ℕ) (a : BlockAllocator) (s : Sequence)
    → IsRunning block_size lag s
    → IsWaiting (reset s (free a s.block_table).1)
unfolding reset free
reset-IsWaiting block_size lag a s r = record {
  no_blocks = refl;
  no_slots = refl;
  unprefilled = refl;
  some_tokens = r.some_tokens;
  is_waiting = refl;
}

-- A prefill chunk of a sequence whose slots are those prefilled.
pub advance_prefill-IsRunning :
    (block_size : ℕ) (s : Sequence) (t : BlockTable) (chunk : ℕ)
    → IsCovered block_size t
    → t.num_tokens ≡ s.block_table.num_tokens + chunk
    → s.block_table.num_tokens ≡ s.prefill_progress
    → s.prefill_progress + chunk ≤ num_tokens s
    → 0 < num_tokens s
    → IsRunning block_size 0 (advance_prefill s t chunk)
unfolding advance_prefill
advance_prefill-IsRunning block_size s t chunk c grown even fits some_tokens =
    elim (Bool-cases (s.prefill_progress + chunk == num_tokens s)) [
      | inl whole ↦ record {
        covered = c;
        phase = rw whole (ground arith);
        some_tokens = some_tokens;
      }
      | inr part ↦ record {
        covered = c;
        phase = rw part (ground arith, ground arith);
        some_tokens = some_tokens;
      }
    ]

pub not_decoding-IsRunning :
    (block_size lag lag' : ℕ) (s : Sequence)
    → is_decoding s.status ≡ false
    → IsRunning block_size lag s
    → IsRunning block_size lag' s
not_decoding-IsRunning block_size lag lag' s idle r = record {
  covered = r.covered;
  phase = shift s.status idle r.phase;
  some_tokens = r.some_tokens;
}
  where
    shift :
        (status : SequenceStatus)
        → is_decoding status ≡ false
        → Phase status lag s.block_table.num_tokens (num_tokens s) s.prefill_progress
        → Phase status lag' s.block_table.num_tokens (num_tokens s) s.prefill_progress
    shift waiting e p = p
    shift prefilling e p = p
    shift decoding e p = absurd (ground arith)

-- A decode step's slot is for the one token that has none.
pub decode-IsRunning :
    (block_size : ℕ) (s : Sequence) (t : BlockTable)
    → IsCovered block_size t
    → t.num_tokens ≡ s.block_table.num_tokens + 1
    → is_decoding s.status ≡ true
    → IsRunning block_size 1 s
    → IsRunning block_size 0 (record s { block_table = t })
decode-IsRunning block_size s t c grown busy r = record {
  covered = c;
  phase = shift s.status busy r.phase;
  some_tokens = r.some_tokens;
}
  where
    shift :
        (status : SequenceStatus)
        → is_decoding status ≡ true
        → Phase status 1 s.block_table.num_tokens (num_tokens s) s.prefill_progress
        → Phase status 0 t.num_tokens (num_tokens s) s.prefill_progress
    shift waiting e p = p
    shift prefilling e p = absurd (ground arith)
    shift decoding e p = omega arith

pub prefilling-facts :
    (block_size lag : ℕ) (s : Sequence)
    → is_prefilling s.status ≡ true
    → IsRunning block_size lag s
    → (s.block_table.num_tokens ≡ s.prefill_progress) × (s.prefill_progress < num_tokens s)
prefilling-facts block_size lag s e r = go s.status e r.phase
  where
    go :
        (status : SequenceStatus)
        → is_prefilling status ≡ true
        → Phase status lag s.block_table.num_tokens (num_tokens s) s.prefill_progress
        → (s.block_table.num_tokens ≡ s.prefill_progress) × (s.prefill_progress < num_tokens s)
    go waiting e p = absurd p
    go prefilling e p = p
    go decoding e p = absurd (ground arith)
