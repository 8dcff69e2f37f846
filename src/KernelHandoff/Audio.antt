-- ===== src/KernelHandoff/Audio.antt =====
-- src/processor/adapters/convolver.rs: `sync_convolver`, the audio thread's side, and the steps of the
-- two threads.
use audio_engine_core.Base.{
  List, [], ◌∷◌, ◌++◌, ℕ, ◌+◌, ◌<◌, ◌≡◌, Bool, true, false, not, ◌&&◌, ◌||◌, Option, none, some,
  ◌==◌, if◌then◌else◌, is_none, is_some, u64_max,
}
use audio_engine_core.KernelHandoff.{
  Kernel, Control, Consumer, Sync, resting, flushing, checking_owned, taking, checking_incoming,
  checking_enabled, settling, when_disabled, when_enabled, drained, drained_load, drained_again,
  drained_store, Access, flush_one, adopted_one, discarded_one, retired_one, deferred_one,
  backpressure_on, backpressure_off, report_pending, waiting_if_enabled, adopted_is, active_is,
  waiting_is, leave, publication, free, reclaiming, asking_enabled, System, new, gate_step,
}

module _ {K : Type 0} where
  abbrev pub goto : System K → Sync → System K
  goto s pc = record s { sync = pc }

  abbrev pub mismatch : ℕ → Option (Kernel K) → Bool
  mismatch rate none = false
  mismatch rate (some k) = not (k.sample_rate_hz == rate)

  -- `try_flush_retired`: the compare-exchange of the retired slot
  unfoldable pub flush : System K → System K
  flush s = elim s.consumer.pending_retire [
    | none ↦ s
    | some k ↦ elim s.control.retired [
      | none ↦ record s {
        control = record s.control { retired = some k };
        consumer = record s.consumer { pending_retire = none };
      }
      | some _ ↦ s
    ]
  ]

  -- the kernel in use goes to be retired
  unfoldable pub retire_owned : Kernel K → System K → System K
  retire_owned k s = record s {
    consumer = record s.consumer { owned = none; pending_retire = some k };
    todo = retired_one ∷ flush_one ∷ [];
  }

  -- the kernel that came in goes to be retired without having been in use
  unfoldable pub discard_incoming : Kernel K → System K → System K
  discard_incoming k s = record s {
    consumer = record s.consumer { incoming = none; pending_retire = some k };
    todo = discarded_one ∷ retired_one ∷ flush_one ∷ [];
  }

  unfoldable pub check_owned : System K → System K
  unfolding retire_owned
  check_owned s = elim s.consumer.owned [
    | none ↦ s
    | some k ↦
        if mismatch s.consumer.sample_rate_hz (some k) && is_none s.consumer.pending_retire
        then retire_owned k s
        else s
  ]

  unfoldable pub check_incoming : System K → System K
  unfolding discard_incoming
  check_incoming s = elim s.consumer.incoming [
    | none ↦ s
    | some k ↦
        if mismatch s.consumer.sample_rate_hz (some k) && is_none s.consumer.pending_retire
        then discard_incoming k s
        else s
  ]

  -- `take_for_audio`, if nothing has come in
  unfoldable pub take_published : System K → System K
  take_published s = elim s.consumer.incoming [
    | none ↦ record s {
      consumer = record s.consumer { incoming = s.control.published };
      control = record s.control { published = none };
    }
    | some _ ↦ s
  ]

  -- the swap of `mark_backpressured`, before its count
  abbrev pub mark_backpressured : List Access → System K → System K
  mark_backpressured rest s = record s {
    control = record s.control { backpressured = true };
    todo = if s.control.backpressured then rest else deferred_one ∷ rest;
  }

  abbrev pub clear_backpressure : List Access → System K → System K
  clear_backpressure rest s = record s {
    control = record s.control { backpressured = false };
    todo = rest;
  }

  abbrev pub set_waiting : ℕ → Control K → Control K
  set_waiting rate c = record c { waiting_for_sample_rate_hz = rate }

  -- an access of the audio thread, with those that it still has to make after it
  unfoldable pub perform : Access → List Access → System K → System K
  unfolding flush
  perform flush_one rest s = record (flush s) { todo = rest }
  perform (adopted_is generation) rest s = record s {
    control = record s.control { latest_adopted_generation = generation };
    todo = rest;
  }
  perform adopted_one rest s = record s {
    control = record s.control { adopted_kernels = s.control.adopted_kernels + 1 };
    todo = rest;
  }
  perform discarded_one rest s = record s {
    control = record s.control { discarded_kernels = s.control.discarded_kernels + 1 };
    todo = rest;
  }
  perform retired_one rest s = record s {
    control = record s.control { retired_kernels = s.control.retired_kernels + 1 };
    todo = rest;
  }
  perform deferred_one rest s = record s {
    control = record s.control { deferred_adoptions = s.control.deferred_adoptions + 1 };
    todo = rest;
  }
  perform backpressure_on rest s = mark_backpressured rest s
  perform backpressure_off rest s = clear_backpressure rest s
  perform report_pending rest s =
      if is_some s.consumer.pending_retire
      then mark_backpressured rest s
      else clear_backpressure rest s
  perform (active_is rate) rest s = record s {
    control = record s.control { active_sample_rate_hz = rate };
    todo = rest;
  }
  perform (waiting_is rate) rest s = record s { control = set_waiting rate s.control; todo = rest }
  perform waiting_if_enabled rest s = record s {
    todo = waiting_is (if s.control.enabled then s.consumer.sample_rate_hz else 0) ∷ rest;
  }

  -- what is in hand leaves, one kernel at a time
  unfoldable pub release : System K → System K
  unfolding retire_owned discard_incoming
  release s = elim s.consumer.pending_retire [
    | some _ ↦ s
    | none ↦ elim s.consumer.owned [
      | some k ↦ retire_owned k s
      | none ↦ elim s.consumer.incoming [ some k ↦ discard_incoming k s | none ↦ s ]
    ]
  ]

  abbrev pub holds : Consumer K → Bool
  holds a = is_some a.owned || is_some a.incoming || is_some a.pending_retire

  -- the branch of a disabled control, up to `still_holding`
  unfoldable pub sync_disabled : System K → System K
  unfolding release
  sync_disabled s = let t = release s in record t { sync = settling; todo = waiting_is 0 ∷ t.todo }

  unfoldable pub settle : System K → System K
  settle s =
      if holds s.consumer
      then record s { sync = resting; todo = backpressure_on ∷ [] }
      else record s { sync = drained; todo = backpressure_off ∷ [] }

  -- `note_adopted`
  abbrev pub adopt : Kernel K → List Access
  adopt k = adopted_is k.generation ∷ adopted_one ∷ []

  abbrev pub matches : Consumer K → Bool
  matches a = is_some a.owned && not (mismatch a.sample_rate_hz a.owned)

  -- `Some(old)` with room to retire it
  unfoldable pub replace_owned : Kernel K → Kernel K → System K → System K
  replace_owned k old s = record s {
    consumer = record s.consumer { owned = some k; incoming = none; pending_retire = some old };
    todo = adopt k ++ (retired_one ∷ flush_one ∷ report_pending ∷ waiting_is 0 ∷ []);
  }

  -- the branch of an enabled control, with kernels of the right rate only
  unfoldable pub adopt_incoming : Kernel K → System K → System K
  unfolding replace_owned
  adopt_incoming k s = elim s.consumer.owned [
    | none ↦ record s {
      consumer = record s.consumer { owned = some k; incoming = none };
      todo = adopt k ++ (backpressure_off ∷ waiting_is 0 ∷ []);
    }
    | some old ↦ elim s.consumer.pending_retire [
      | none ↦ replace_owned k old s
      | some _ ↦ record s { todo = backpressure_on ∷ waiting_is 0 ∷ [] }
    ]
  ]

  unfoldable pub sync_enabled : System K → System K
  unfolding adopt_incoming
  sync_enabled s =
      let a = s.consumer in
      if mismatch a.sample_rate_hz a.owned || mismatch a.sample_rate_hz a.incoming
      then record s { todo = backpressure_on ∷ waiting_is a.sample_rate_hz ∷ [] }
      else elim a.incoming [
        | none ↦ record s {
          todo = report_pending ∷ waiting_is (if matches a then 0 else a.sample_rate_hz) ∷ [];
        }
        | some k ↦ adopt_incoming k s
      ]

  -- where the audio thread goes on, when no access is left to make on its way; `resting` begins a call
  -- of `sync_convolver`
  unfoldable pub sync_step : System K → System K
  unfolding flush check_owned take_published check_incoming sync_disabled settle sync_enabled
  sync_step s = elim s.sync [
    | resting ↦ goto s flushing
    | flushing ↦ goto (flush s) checking_owned
    | checking_owned ↦ goto (check_owned s) taking
    | taking ↦ goto (take_published s) checking_incoming
    | checking_incoming ↦ goto (check_incoming s) checking_enabled
    | checking_enabled ↦ goto s (if s.control.enabled then when_enabled else when_disabled)
    | when_disabled ↦ sync_disabled s
    | settling ↦ settle s
    | when_enabled ↦ goto (sync_enabled s) resting
    | drained ↦ goto s (if is_none s.control.published then drained_load else resting)
    | drained_load ↦ goto s (drained_again s.control.latest_published_generation)
    | drained_again generation ↦
        goto s (if is_none s.control.published then drained_store generation else resting)
    | drained_store generation ↦
        goto (record s { control = record s.control { audio_drained_generation = generation } })
          resting
  ]

  -- the next access of the audio thread
  unfoldable pub audio_step : System K → System K
  unfolding perform sync_step
  audio_step s = elim s.todo [ [] ↦ sync_step s | a ∷ rest ↦ perform a rest s ]

  -- `set_sample_rate`, of a rate that is accepted
  abbrev pub set_rate : System K → ℕ → System K
  set_rate s rate = record s {
    consumer = record s.consumer { sample_rate_hz = rate };
    todo = active_is rate ∷ waiting_if_enabled ∷ [];
  }

  abbrev pub count : Option (Kernel K) → ℕ
  count none = 0
  count (some k) = 1

  abbrev pub nothing : ℕ → Consumer K
  nothing rate = record {
    owned = none;
    incoming = none;
    pending_retire = none;
    sample_rate_hz = rate;
  }

  -- `ConvolverProcessor::drop`, up to its `acknowledge_drained`
  unfoldable pub teardown_of : System K → System K
  teardown_of s = record s {
    consumer = nothing s.consumer.sample_rate_hz;
    sync = drained;
    dropped = record {
      owned_dropped = s.dropped.owned_dropped + count s.consumer.owned;
      incoming_dropped = s.dropped.incoming_dropped + count s.consumer.incoming;
      pending_dropped = s.dropped.pending_dropped + count s.consumer.pending_retire;
    };
  }

  -- `ConvolverProcessor::new`, with the lease of the consumer before
  abbrev pub attach_of : System K → System K
  attach_of s = record s { consumer = nothing 44100; todo = active_is 44100 ∷ waiting_is 0 ∷ [] }

  -- Any number of control threads, of which one holds the gate, and the one audio consumer, which
  -- ends with its teardown; then it has nothing, until the next one takes the lease. The lease is no part
  -- of the state: any consumer that has nothing may go on, or be attached anew.
  pub data Step (s : System K) : System K → Type 0 where
    audio : Step s (audio_step s)
    gated : Step s (gate_step s)
    publish :
        (kernel : K) (rate : ℕ)
        → s.gate ≡ free
        → 0 < rate
        → s.control.latest_published_generation < u64_max
        → Step s (record s { gate = reclaiming (publication kernel rate) })
    ask : s.gate ≡ free → Step s (record s { gate = asking_enabled })
    reclaim_retired : s.gate ≡ free → Step s (record s { gate = reclaiming leave })
    set_enabled : (b : Bool) → Step s (record s { control = record s.control { enabled = b } })
    teardown : s.sync ≡ resting → s.todo ≡ [] → Step s (teardown_of s)
    attach :
        s.sync ≡ resting
        → s.todo ≡ []
        → s.consumer ≡ nothing s.consumer.sample_rate_hz
        → Step s (attach_of s)
    set_sample_rate :
        (rate : ℕ) → s.sync ≡ resting → s.todo ≡ [] → 0 < rate → Step s (set_rate s rate)

  pub data Reached (initial : Bool) : System K → Type 0 where
    start : Reached initial (new initial)
    next : {s t : System K} → Reached initial s → Step s t → Reached initial t
