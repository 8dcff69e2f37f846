-- ===== src/KernelHandoff/Kept.antt =====
-- Where the kernels are, against the counters of the status.
use audio_engine_core.Base.{
  ℕ, suc, ◌+◌, ◌<◌, ◌≤◌, ◌≡◌, refl, Bool, none, some, arith, u64_max, if◌then◌else◌, List, [], ◌∷◌,
  inl, inr, List-cases, Option-cases, Bool-cases, ◌&&◌, is_none,
}
use audio_engine_core.KernelHandoff.{
  Kernel, Access, adopted_one, discarded_one, retired_one, Task, leave, publication, Gate, counting,
  reclaiming, reclaimed, publishing, replaced, System, gate_step,
}
use audio_engine_core.KernelHandoff.Audio.{
  count, mismatch, teardown_of, teardown, attach, flush, retire_owned, discard_incoming,
  check_owned, check_incoming, take_published, release, sync_disabled, settle, replace_owned,
  adopt_incoming, sync_enabled, perform, sync_step, audio_step, Step, Reached, start, next, audio,
  gated, publish, ask, reclaim_retired, set_enabled, set_sample_rate,
}

-- the counts that the audio thread has still to make on its way
abbrev pub owed_adopted : List Access → ℕ
owed_adopted [] = 0
owed_adopted (adopted_one ∷ rest) = suc (owed_adopted rest)
owed_adopted (_ ∷ rest) = owed_adopted rest

abbrev pub owed_discarded : List Access → ℕ
owed_discarded [] = 0
owed_discarded (discarded_one ∷ rest) = suc (owed_discarded rest)
owed_discarded (_ ∷ rest) = owed_discarded rest

abbrev pub owed_retired : List Access → ℕ
owed_retired [] = 0
owed_retired (retired_one ∷ rest) = suc (owed_retired rest)
owed_retired (_ ∷ rest) = owed_retired rest

module _ {K : Type 0} where
  -- A publication that is in the slot and not yet in the generation, one that it superseded and that
  -- is not yet counted, and a kernel that was reclaimed and is not yet counted.
  abbrev pub ahead : Gate K → ℕ
  ahead (replaced generation superseded) = 1
  ahead _ = 0

  abbrev pub owed : Gate K → ℕ
  owed (replaced generation superseded) = if superseded then 1 else 0
  owed counting = 1
  owed _ = 0

  abbrev pub owed_reclaimed : Gate K → ℕ
  owed_reclaimed (reclaimed task) = 1
  owed_reclaimed _ = 0

  abbrev FitsTask : ℕ → Task K → Type 0
  FitsTask latest leave = Unit
  FitsTask latest (publication kernel rate) = latest < u64_max

  abbrev pub FitsGate : ℕ → Gate K → Type 0
  FitsGate latest (reclaiming task) = FitsTask latest task
  FitsGate latest (reclaimed task) = FitsTask latest task
  FitsGate latest (publishing kernel rate) = latest < u64_max
  FitsGate latest (replaced generation superseded) = (generation ≡ latest + 1) × (latest < u64_max)
  FitsGate latest _ = Unit

  pub record IsKept (s : System K) : Type 0 where
    pub fits : FitsGate s.control.latest_published_generation s.gate
    pub top : s.control.latest_published_generation ≤ u64_max
    pub placed :
        s.control.latest_published_generation + ahead s.gate
        ≡ s.control.adopted_kernels
          + owed_adopted s.todo
          + s.control.superseded_kernels
          + owed s.gate
          + s.control.discarded_kernels
          + owed_discarded s.todo
          + count s.control.published
          + count s.consumer.incoming
          + s.dropped.incoming_dropped
    pub used :
        s.control.adopted_kernels
          + owed_adopted s.todo
          + s.control.discarded_kernels
          + owed_discarded s.todo
        ≡ count s.consumer.owned
          + s.control.retired_kernels
          + owed_retired s.todo
          + s.dropped.owned_dropped
    pub returned :
        s.control.retired_kernels + owed_retired s.todo
        ≡ s.control.reclaimed_kernels
          + owed_reclaimed s.gate
          + count s.control.retired
          + count s.consumer.pending_retire
          + s.dropped.pending_dropped

  gate_step-IsKept : (s : System K) → IsKept s → IsKept (gate_step s)
  unfolding gate_step
  gate_step-IsKept s v = ground arith

  flush-IsKept : (s : System K) → IsKept s → IsKept (flush s)
  unfolding flush
  flush-IsKept s v = ground arith

  perform-IsKept :
      (a : Access) (rest : List Access) (s : System K)
      → s.todo ≡ a ∷ rest
      → IsKept s
      → IsKept (perform a rest s)
  unfolding perform flush
  perform-IsKept a rest s e v = ground arith

  take_published-IsKept : (s : System K) → IsKept s → IsKept (take_published s)
  unfolding take_published
  take_published-IsKept s v = ground arith

  check_owned-IsKept : (s : System K) → s.todo ≡ [] → IsKept s → IsKept (check_owned s)
  unfolding check_owned retire_owned
  check_owned-IsKept s e v = ground arith

  discard_incoming-IsKept :
      (k : Kernel K) (s : System K)
      → s.consumer.incoming ≡ some k
      → s.consumer.pending_retire ≡ none
      → s.todo ≡ []
      → IsKept s
      → IsKept (discard_incoming k s)
  unfolding discard_incoming
  discard_incoming-IsKept k s i p e v = ground arith

  check_incoming-IsKept : (s : System K) → s.todo ≡ [] → IsKept s → IsKept (check_incoming s)
  unfolding check_incoming
  check_incoming-IsKept s e v = elim (Option-cases s.consumer.incoming) [
    | inl i ↦ rw (check_incoming, i) v
    | inr (k, i) ↦
        elim (Bool-cases
          (mismatch s.consumer.sample_rate_hz (some k) && is_none s.consumer.pending_retire)) [
            | inl there ↦
                rw (check_incoming, i, there)
                  (discard_incoming-IsKept k s i (ground (arith, there)) e v)
            | inr kept ↦ rw (check_incoming, i, kept) v
          ]
  ]

  sync_disabled-IsKept : (s : System K) → s.todo ≡ [] → IsKept s → IsKept (sync_disabled s)
  unfolding sync_disabled release discard_incoming retire_owned
  sync_disabled-IsKept s e v = ground arith

  settle-IsKept : (s : System K) → s.todo ≡ [] → IsKept s → IsKept (settle s)
  unfolding settle
  settle-IsKept s e v = ground arith

  sync_enabled-IsKept : (s : System K) → s.todo ≡ [] → IsKept s → IsKept (sync_enabled s)
  unfolding sync_enabled adopt_incoming replace_owned
  sync_enabled-IsKept s e v = ground arith

  sync_step-IsKept : (s : System K) → s.todo ≡ [] → IsKept s → IsKept (sync_step s)
  unfolding sync_step
  sync_step-IsKept s e v = ground (
    arith,
    flush-IsKept s v,
    check_owned-IsKept s e v,
    take_published-IsKept s v,
    check_incoming-IsKept s e v,
    sync_disabled-IsKept s e v,
    settle-IsKept s e v,
    sync_enabled-IsKept s e v,
  )

  audio_step-IsKept : (s : System K) → IsKept s → IsKept (audio_step s)
  unfolding audio_step
  audio_step-IsKept s v = elim (List-cases s.todo) [
    | inl e ↦ rw (audio_step, e) (sync_step-IsKept s e v)
    | inr (a, rest, e) ↦ rw (audio_step, e) (perform-IsKept a rest s e v)
  ]

  teardown_of-IsKept : (s : System K) → s.todo ≡ [] → IsKept s → IsKept (teardown_of s)
  unfolding teardown_of
  teardown_of-IsKept s e v = ground arith

  Step-IsKept : {s t : System K} → Step s t → IsKept s → IsKept t
  Step-IsKept {s} audio v = audio_step-IsKept s v
  Step-IsKept {s} gated v = gate_step-IsKept s v
  Step-IsKept {s} (publish kernel rate f p b) v = ground arith
  Step-IsKept {s} (ask f) v = ground arith
  Step-IsKept {s} (reclaim_retired f) v = ground arith
  Step-IsKept {s} (set_enabled b) v = ground arith
  Step-IsKept {s} (set_sample_rate rate r d p) v = ground arith
  Step-IsKept {s} (teardown r d) v = teardown_of-IsKept s d v
  Step-IsKept {s} (attach r d e) v = ground arith

  -- However the threads interleave, every kernel published is in one place, and the counters, with
  -- what the threads have still to count, say how many are where.
  pub Reached-IsKept : (initial : Bool) {s : System K} → Reached initial s → IsKept s
  Reached-IsKept initial start = record {
    fits = tt;
    top = omega arith;
    placed = refl;
    used = refl;
    returned = refl;
  }
  Reached-IsKept initial (next r st) = Step-IsKept st (Reached-IsKept initial r)
