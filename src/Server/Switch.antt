-- ===== src/Server/Switch.antt =====
-- `EngineHandle`: the loaded engine and its replacement. The steps of `switch_model` are separate
-- changes, with the moves of the engine's threads and the requests of clients between them.
use llm_serving_engine.Base.{
  ℕ, ◌≡◌, ◌⊎◌, inl, inr, Bool, true, false, Option, none, some, List, [], ◌==◌, if◌then◌else◌,
}
use llm_serving_engine.Sampling.{SamplingParams}
use llm_serving_engine.Allocator.{KvAllocator}
use llm_serving_engine.Scheduler.State.{Scheduler}
use llm_serving_engine.Dispatch.{Channels}
use llm_serving_engine.Engine.State.{
  ready, SubmitError, engine_unavailable, Engine, submit, close_ingress, stop, is_idle,
}
use llm_serving_engine.Engine.Moves.{Move}

module _ (kv : KvAllocator) where
  -- What loading a model determines of its engine.
  pub record Loaded : Type 0 where
    pub scheduler : Scheduler
    pub vocab_size : ℕ
    pub output_queue_maxsize : ℕ
    pub pool : kv.Pool

  -- `InferenceEngine.__init__`, with the globals of dispatch.py as they stand.
  abbrev pub new_engine : Loaded → ℕ → Channels → Engine kv
  new_engine l next_id channels = record {
    scheduler = l.scheduler;
    vocab_size = l.vocab_size;
    output_queue_maxsize = l.output_queue_maxsize;
    next_id = next_id;
    channels = channels;
    ingress = [];
    running = [];
    queue = [];
    pool = l.pool;
    point = ready none;
    accepting = true;
    stopping = false;
    failed = false;
    submitted = 0;
    ended = 0;
    callbacks = [];
    freed = [];
    recorded = [];
    preemptions = 0;
    requests_in_flight = 0;
  }

  -- Where the holder of `_switch_lock` is; `draining` has the engine that is no longer served.
  pub data Phase : Type 0 where
    unlocked : Phase
    draining : Engine kv → (target : ℕ) → Phase
    loading : (target : ℕ) → Phase
    reloading : Phase

  -- `model` stands for the name in `_config`; `next_id` and `channels` are the globals of
  -- dispatch.py while no engine has them.
  pub record Handle : Type 0 where
    pub engine : Option (Engine kv)
    pub model : ℕ
    pub phase : Phase
    pub next_id : ℕ
    pub channels : Channels

  -- `EngineHandle.submit`
  unfoldable pub handle_submit : Handle → List ℕ → SamplingParams → ℕ → SubmitError ⊎ (ℕ × Handle)
  unfolding submit
  handle_submit h prompt params now = elim h.engine [
    | none ↦ inl engine_unavailable
    | some e ↦ elim (submit kv e prompt params now) [
      | inl raised ↦ inl raised
      | inr (id, e') ↦ inr (id, record h { engine = some e' })
    ]
  ]

  -- `model_name_or_path == self.current_model_name and self._engine is not None`
  abbrev pub is_current : ℕ → Handle → Bool
  is_current target h = elim h.engine [ none ↦ false | some e ↦ target == h.model ]

  -- `old_engine, self._engine = self._engine, None`, and `close_ingress` on the old one.
  abbrev pub take_out : ℕ → Handle → Handle
  take_out target h = elim h.engine [
    | none ↦ record h { phase = loading target }
    | some e ↦ record h { engine = none; phase = draining (close_ingress kv e) target }
  ]

  -- What `switch_model` does once it has the lock, up to the loop that waits.
  unfoldable pub begin_switch : ℕ → Handle → Handle
  begin_switch target h = if is_current target h then h else take_out target h

  -- The old engine is dropped after `stop`.
  abbrev pub drop_engine : Engine kv → ℕ → Handle → Handle
  drop_engine e target h = record h {
    phase = loading target;
    next_id = (stop kv e).next_id;
    channels = (stop kv e).channels;
  }

  -- `self._engine = self._load(name)`, where `_load` returns; it also sets `_config`.
  unfoldable pub install : Loaded → ℕ → Handle → Handle
  install l name h = record h {
    engine = some (new_engine l h.next_id h.channels);
    model = name;
    phase = unlocked;
  }

  -- A handle whose `__init__` has loaded its first model.
  abbrev pub boot : Loaded → ℕ → Handle
  boot l name =
      install l name
        (record { engine = none; model = name; phase = unlocked; next_id = 0; channels = [] })

  pub data Change : Handle → Handle → Type 0 where
    asks :
        (h h' : Handle) (prompt : List ℕ) (params : SamplingParams) (now id : ℕ)
        → handle_submit h prompt params now ≡ inr (id, h')
        → Change h h'
    works :
        (h : Handle) (e e' : Engine kv)
        → h.engine ≡ some e
        → Move kv e e'
        → Change h (record h { engine = some e' })
    switches : (h : Handle) (target : ℕ) → h.phase ≡ unlocked → Change h (begin_switch target h)
    drains :
        (h : Handle) (e e' : Engine kv) (target : ℕ)
        → h.phase ≡ draining e target
        → Move kv e e'
        → Change h (record h { phase = draining e' target })
    drops :
        (h : Handle) (e : Engine kv) (target : ℕ)
        → h.phase ≡ draining e target
        → is_idle kv e ≡ true
        → Change h (drop_engine e target h)
    loads :
        (h : Handle) (l : Loaded) (target : ℕ)
        → h.phase ≡ loading target
        → Change h (install l target h)
    fails_to_load :
        (h : Handle) (target : ℕ)
        → h.phase ≡ loading target
        → Change h (record h { phase = reloading })
    reloads : (h : Handle) (l : Loaded) → h.phase ≡ reloading → Change h (install l h.model h)
    fails_to_reload : (h : Handle) → h.phase ≡ reloading → Change h (record h { phase = unlocked })

  -- Any number of changes.
  pub data Changes : Handle → Handle → Type 0 where
    stays : (h : Handle) → Changes h h
    goes : (h mid h' : Handle) → Changes h mid → Change mid h' → Changes h h'
