-- ===== src/KernelHandoff/Quiescent.antt =====
-- What a positive answer of `is_quiescent` means.
use audio_engine_core.Base.{
  ℕ, ◌+◌, ◌<◌, ◌≤◌, ◌≡◌, subst, Bool, true, Option, none, some, arith, List, inl, inr, List-cases,
}
use audio_engine_core.KernelHandoff.{
  Access, Kernel, Control, Consumer, Sync, Gate, asking_latest, asking_published_again,
  asking_retired_again, answered, resting, checking_owned, taking, checking_incoming,
  checking_enabled, drained, drained_load, drained_again, drained_store, System, gate_step,
}
use audio_engine_core.KernelHandoff.Audio.{
  nothing, teardown_of, attach_of, teardown, attach, goto, flush, retire_owned, discard_incoming,
  check_owned, check_incoming, take_published, release, sync_disabled, replace_owned,
  adopt_incoming, sync_enabled, settle, perform, sync_step, audio_step, Step, Reached, start, next,
  audio, gated, publish, ask, reclaim_retired, set_enabled, set_sample_rate,
}
use audio_engine_core.KernelHandoff.Kept.{ahead, FitsGate}

module _ {K : Type 0} where
  -- a kernel newer than `old` and not newer than `last`
  abbrev pub Between : ℕ → ℕ → Option (Kernel K) → Type 0
  Between old last none = Unit
  Between old last (some k) = (old < k.generation) × (k.generation ≤ last)

  abbrev pub Newer : ℕ → Option (Kernel K) → Type 0
  Newer old none = Unit
  Newer old (some k) = old < k.generation

  abbrev pub IsEmpty : Consumer K → Type 0
  IsEmpty a = (a.owned ≡ none) × (a.incoming ≡ none) × (a.pending_retire ≡ none)

  -- what holds where the audio thread stands
  abbrev pub FitsSync : Control K → Consumer K → Sync → Type 0
  FitsSync c a drained = IsEmpty a
  FitsSync c a drained_load = IsEmpty a
  FitsSync c a (drained_again g) =
      IsEmpty a × (g ≤ c.latest_published_generation) × (c.audio_drained_generation ≤ g)
  FitsSync c a (drained_store g) =
      IsEmpty a
      × (g ≤ c.latest_published_generation)
      × (c.audio_drained_generation ≤ g)
      × Newer g c.published
  FitsSync c a _ = Unit

  -- what holds where the thread with the gate stands
  abbrev pub FitsAsking : Control K → Consumer K → Gate K → Type 0
  FitsAsking c a (asking_latest d) = d ≤ c.audio_drained_generation
  FitsAsking c a asking_published_again = IsEmpty a × (c.published ≡ none)
  FitsAsking c a asking_retired_again = IsEmpty a × (c.published ≡ none)
  FitsAsking c a (answered true) = IsEmpty a × (c.published ≡ none) × (c.retired ≡ none)
  FitsAsking c a _ = Unit

  pub record IsOrdered (s : System K) : Type 0 where
    pub fits : FitsGate s.control.latest_published_generation s.gate
    pub bound : s.control.audio_drained_generation ≤ s.control.latest_published_generation
    pub published_in :
        Between s.control.audio_drained_generation
          (s.control.latest_published_generation + ahead s.gate)
          s.control.published
    pub incoming_in :
        Between s.control.audio_drained_generation
          (s.control.latest_published_generation + ahead s.gate)
          s.consumer.incoming
    pub owned_in :
        Between s.control.audio_drained_generation
          (s.control.latest_published_generation + ahead s.gate)
          s.consumer.owned
    pub pending_in :
        Between s.control.audio_drained_generation
          (s.control.latest_published_generation + ahead s.gate)
          s.consumer.pending_retire
    pub syncing : FitsSync s.control s.consumer s.sync
    pub asking : FitsAsking s.control s.consumer s.gate

  gate_step-IsOrdered : (s : System K) → IsOrdered s → IsOrdered (gate_step s)
  unfolding gate_step
  gate_step-IsOrdered s v = ground arith

  flush-IsOrdered : (s : System K) → IsOrdered s → IsOrdered (goto (flush s) checking_owned)
  unfolding flush
  flush-IsOrdered s v = ground arith

  perform-IsOrdered :
      (a : Access) (rest : List Access) (s : System K) → IsOrdered s → IsOrdered (perform a rest s)
  unfolding perform flush
  perform-IsOrdered a rest s v = ground arith

  check_owned-IsOrdered : (s : System K) → IsOrdered s → IsOrdered (goto (check_owned s) taking)
  unfolding check_owned retire_owned
  check_owned-IsOrdered s v = ground arith

  take_published-IsOrdered :
      (s : System K) → IsOrdered s → IsOrdered (goto (take_published s) checking_incoming)
  unfolding take_published
  take_published-IsOrdered s v = ground arith

  check_incoming-IsOrdered :
      (s : System K) → IsOrdered s → IsOrdered (goto (check_incoming s) checking_enabled)
  unfolding check_incoming discard_incoming
  check_incoming-IsOrdered s v = ground arith

  sync_disabled-IsOrdered : (s : System K) → IsOrdered s → IsOrdered (sync_disabled s)
  unfolding sync_disabled release discard_incoming retire_owned
  sync_disabled-IsOrdered s v = ground arith

  settle-IsOrdered : (s : System K) → IsOrdered s → IsOrdered (settle s)
  unfolding settle
  settle-IsOrdered s v = ground arith

  sync_enabled-IsOrdered : (s : System K) → IsOrdered s → IsOrdered (goto (sync_enabled s) resting)
  unfolding sync_enabled adopt_incoming replace_owned
  sync_enabled-IsOrdered s v = ground arith

  sync_step-IsOrdered : (s : System K) → IsOrdered s → IsOrdered (sync_step s)
  unfolding sync_step
  sync_step-IsOrdered s v = ground (
    arith,
    flush-IsOrdered s v,
    check_owned-IsOrdered s v,
    take_published-IsOrdered s v,
    check_incoming-IsOrdered s v,
    sync_disabled-IsOrdered s v,
    settle-IsOrdered s v,
    sync_enabled-IsOrdered s v,
  )

  audio_step-IsOrdered : (s : System K) → IsOrdered s → IsOrdered (audio_step s)
  unfolding audio_step
  audio_step-IsOrdered s v = elim (List-cases s.todo) [
    | inl e ↦ rw (audio_step, e) (sync_step-IsOrdered s v)
    | inr (a, rest, e) ↦ rw (audio_step, e) (perform-IsOrdered a rest s v)
  ]

  teardown_of-IsOrdered : (s : System K) → IsOrdered s → IsOrdered (teardown_of s)
  unfolding teardown_of
  teardown_of-IsOrdered s v = ground arith

  attach_of-IsOrdered :
      (s : System K)
      → s.consumer ≡ nothing s.consumer.sample_rate_hz
      → s.sync ≡ resting
      → IsOrdered s
      → IsOrdered (attach_of s)
  attach_of-IsOrdered s e r v = ground arith

  Step-IsOrdered : {s t : System K} → Step s t → IsOrdered s → IsOrdered t
  Step-IsOrdered {s} audio v = audio_step-IsOrdered s v
  Step-IsOrdered {s} gated v = gate_step-IsOrdered s v
  Step-IsOrdered {s} (publish kernel rate f p b) v = ground arith
  Step-IsOrdered {s} (ask f) v = ground arith
  Step-IsOrdered {s} (reclaim_retired f) v = ground arith
  Step-IsOrdered {s} (set_enabled b) v = ground arith
  Step-IsOrdered {s} (set_sample_rate rate r d p) v = ground arith
  Step-IsOrdered {s} (teardown r d) v = teardown_of-IsOrdered s v
  Step-IsOrdered {s} (attach r d e) v = attach_of-IsOrdered s e r v

  pub Reached-IsOrdered : (initial : Bool) {s : System K} → Reached initial s → IsOrdered s
  Reached-IsOrdered initial start = record {
    fits = tt;
    bound = omega arith;
    published_in = tt;
    incoming_in = tt;
    owned_in = tt;
    pending_in = tt;
    syncing = tt;
    asking = tt;
  }
  Reached-IsOrdered initial (next r st) = Step-IsOrdered st (Reached-IsOrdered initial r)

  -- However the threads interleave, when `is_quiescent` has answered that all is quiescent, and its
  -- gate is still held, no kernel is left: neither slot nor the audio thread holds one.
  pub Reached-quiescent :
      (initial : Bool) {s : System K}
      → Reached initial s
      → s.gate ≡ answered true
      → IsEmpty s.consumer × (s.control.published ≡ none) × (s.control.retired ≡ none)
  Reached-quiescent initial {s} r g =
      subst (FitsAsking s.control s.consumer) g (Reached-IsOrdered initial r).asking
