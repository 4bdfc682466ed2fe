-- ===== src/Server/Drained.antt =====
-- The engines of a handle over any run of server.py's `EngineHandle`.
use llm_serving_engine.Base.{
  ℕ, ◌+◌, ◌≡◌, ◌⊎◌, refl, subst, inl, inr, true, Bool-cases, Option, Option-cases, none, some, List,
  [], length, ◌==◌, arith,
}
use llm_serving_engine.Sampling.{SamplingParams}
use llm_serving_engine.Allocator.{KvAllocator}
use llm_serving_engine.Dispatch.{Channels}
use llm_serving_engine.Engine.State.{
  engine_unavailable, SubmitError, arrivals, Engine, close_ingress, is_idle, submit,
}
use llm_serving_engine.Engine.Moves.{Move, closes, submits}
use llm_serving_engine.Engine.Tracking.{Tracks, stays, Run-is_idle, Move-Tracks}
use llm_serving_engine.Server.Switch.{
  Loaded, new_engine, Phase, unlocked, draining, loading, reloading, Handle, handle_submit,
  begin_switch, install, boot, Change, asks, works, switches, drains, drops, loads, fails_to_load,
  reloads, fails_to_reload, Changes, goes,
}
use llm_serving_engine.Server.Switch.{stays as no_change}

module _ (kv : KvAllocator) where
  -- The requests of an engine are accounted for.
  abbrev pub Sound : Engine kv → Type 0
  Sound e = (first_id : ℕ) × Tracks kv first_id e

  abbrev InPhase : Option (Engine kv) → Phase kv → Type 0
  InPhase none (draining e target) = Sound e
  InPhase none _ = Unit
  InPhase (some e) unlocked = Sound e
  InPhase (some e) _ = ⊥

  -- One engine at most is loaded: the served one while no switch is going on, or the drained one.
  abbrev pub IsSingle : Handle kv → Type 0
  IsSingle h = InPhase h.engine h.phase

  new_engine-Sound : (l : Loaded kv) (id : ℕ) (cs : Channels) → Sound (new_engine kv l id cs)
  unfolding arrivals
  new_engine-Sound l id cs = (
    id,
    record {
      conserved = record { each = λ w. refl; next = omega arith; counted = refl };
      flight = tt;
    },
  )

  Move-Sound : (e e' : Engine kv) → Move kv e e' → Sound e → Sound e'
  Move-Sound e e' move (id, t) = (id, Move-Tracks kv id e e' move t)

  served :
      (e e' : Engine kv) (p : Phase kv)
      → (Sound e → Sound e')
      → InPhase (some e) p
      → InPhase (some e') p
  served e e' unlocked f s = f s
  served e e' (draining old target) f s = s
  served e e' (loading target) f s = s
  served e e' reloading f s = s

  drained :
      (o : Option (Engine kv)) (e e' : Engine kv) (target : ℕ)
      → (Sound e → Sound e')
      → InPhase o (draining e target)
      → InPhase o (draining e' target)
  drained none e e' target f s = f s
  drained (some other) e e' target f s = s

  dropped :
      (o : Option (Engine kv)) (e : Engine kv) (target : ℕ)
      → InPhase o (draining e target)
      → InPhase o (loading target)
  dropped none e target s = tt
  dropped (some other) e target s = s

  -- A phase in which nothing is loaded, and another one.
  unloaded :
      (o : Option (Engine kv)) (target : ℕ) → InPhase o (loading target) → InPhase o reloading
  unloaded none target s = tt
  unloaded (some e) target s = s

  given_up : (o : Option (Engine kv)) → InPhase o reloading → InPhase o unlocked
  given_up none s = tt
  given_up (some e) s = absurd s

  abbrev Kept : SubmitError ⊎ (ℕ × Handle kv) → Type 0
  Kept (inl raised) = Unit
  Kept (inr (id, h')) = IsSingle h'

  handed :
      (h : Handle kv) (e : Engine kv) (prompt : List ℕ) (params : SamplingParams) (now : ℕ)
      (r : SubmitError ⊎ (ℕ × Engine kv))
      → h.engine ≡ some e
      → submit kv e prompt params now ≡ r
      → IsSingle h
      → Kept (elim r [
        | inl raised ↦ inl raised
        | inr (id, e') ↦ inr (id, record h { engine = some e' })
      ])
  handed h e prompt params now (inl raised) at same s = tt
  handed h e prompt params now (inr (id, e')) at same s =
      served e e' h.phase (Move-Sound e e' (submits e e' prompt params now id same))
        (subst (λ o. InPhase o h.phase) at s)

  asked :
      (h h' : Handle kv) (prompt : List ℕ) (params : SamplingParams) (now id : ℕ)
      → handle_submit kv h prompt params now ≡ inr (id, h')
      → IsSingle h
      → IsSingle h'
  unfolding handle_submit
  asked h h' prompt params now id e s = subst Kept e (go h.engine refl)
    where
      go :
          (o : Option (Engine kv))
          → h.engine ≡ o
          → Kept (elim o [
            | none ↦ inl engine_unavailable
            | some e ↦ elim (submit kv e prompt params now) [
              | inl raised ↦ inl raised
              | inr (id, e') ↦ inr (id, record h { engine = some e' })
            ]
          ])
      go none at = tt
      go (some old) at = handed h old prompt params now (submit kv old prompt params now) at refl s

  begun :
      (h : Handle kv) (target : ℕ)
      → InPhase h.engine unlocked
      → IsSingle h
      → IsSingle (begin_switch kv target h)
  unfolding begin_switch
  begun h target free s = elim (Option-cases h.engine) [
    | inl nothing ↦ rw nothing tt
    | inr (e, at) ↦
        let sound : Sound e = subst (λ o. InPhase o unlocked) at free in
        elim (Bool-cases (target == h.model)) [
          | inl same ↦ rw (at, same) (subst (λ o. InPhase o h.phase) at s)
          | inr other ↦ rw (at, other) (Move-Sound e (close_ingress kv e) (closes e) sound)
        ]
  ]

  Change-IsSingle : (h h' : Handle kv) → Change kv h h' → IsSingle h → IsSingle h'
  unfolding install
  Change-IsSingle h h' (asks _ _ prompt params now id e) s = asked h h' prompt params now id e s
  Change-IsSingle h _ (works _ e e' at move) s =
      served e e' h.phase (Move-Sound e e' move) (subst (λ o. InPhase o h.phase) at s)
  Change-IsSingle h _ (switches _ target at) s = begun h target (subst (InPhase h.engine) at s) s
  Change-IsSingle h _ (drains _ e e' target at move) s =
      drained h.engine e e' target (Move-Sound e e' move) (subst (InPhase h.engine) at s)
  Change-IsSingle h _ (drops _ e target at idle) s =
      dropped h.engine e target (subst (InPhase h.engine) at s)
  Change-IsSingle h _ (loads _ l target at) s = new_engine-Sound l h.next_id h.channels
  Change-IsSingle h _ (fails_to_load _ target at) s =
      unloaded h.engine target (subst (InPhase h.engine) at s)
  Change-IsSingle h _ (reloads _ l at) s = new_engine-Sound l h.next_id h.channels
  Change-IsSingle h _ (fails_to_reload _ at) s = given_up h.engine (subst (InPhase h.engine) at s)

  Changes-IsSingle : (h h' : Handle kv) → Changes kv h h' → IsSingle h → IsSingle h'
  Changes-IsSingle h _ (no_change _) s = s
  Changes-IsSingle h _ (goes _ mid h' before change) s =
      Change-IsSingle mid h' change (Changes-IsSingle h mid before s)

  Sound-is_idle :
      (e : Engine kv)
      → Sound e
      → is_idle kv e ≡ true
      → length (arrivals e.ingress) + length e.running + length e.queue ≡ 0
  Sound-is_idle e (first_id, t) idle = (Run-is_idle kv first_id e e (stays e) t).0 idle

  -- In any run of the handle from its start, if a switch is draining an old engine, then no engine
  -- is served, and when that engine is idle, which switch_model waits for, no request is in its
  -- ingress, runs or waits.
  pub Changes-drained :
      (l : Loaded kv) (name : ℕ) (h : Handle kv) (e : Engine kv) (target : ℕ)
      → Changes kv (boot kv l name) h
      → h.phase ≡ draining e target
      → (h.engine ≡ none)
        × (is_idle kv e ≡ true
            → length (arrivals e.ingress) + length e.running + length e.queue ≡ 0)
  unfolding install
  Changes-drained l name h e target run at =
      let s = Changes-IsSingle (boot kv l name) h run (new_engine-Sound l 0 []) in
      old h.engine (subst (InPhase h.engine) at s)
    where
      old :
          (o : Option (Engine kv))
          → InPhase o (draining e target)
          → (o ≡ none)
            × (is_idle kv e ≡ true
                → length (arrivals e.ingress) + length e.running + length e.queue ≡ 0)
      old none sound = (refl, Sound-is_idle e sound)
      old (some other) s = absurd s
