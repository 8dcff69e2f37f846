-- ===== src/KernelHandoff/Reading.antt =====
-- What a call of `status` says while the other threads go on between its loads.
use audio_engine_core.Base.{
  ℕ, zero, suc, ◌+◌, ◌≤◌, ◌≡◌, Bool, true, List, arith, inl, inr, List-cases,
}
use audio_engine_core.KernelHandoff.{Access, Control, System, gate_step}
use audio_engine_core.KernelHandoff.Audio.{
  count, flush, retire_owned, discard_incoming, check_owned, check_incoming, take_published,
  release, sync_disabled, settle, replace_owned, adopt_incoming, sync_enabled, perform, sync_step,
  audio_step, teardown_of, Step, Reached, next, audio, gated, publish, ask, reclaim_retired,
  set_enabled, set_sample_rate, teardown, attach,
}
use audio_engine_core.KernelHandoff.Kept.{
  owed, owed_reclaimed, owed_adopted, owed_discarded, Reached-IsKept,
}
use audio_engine_core.KernelHandoff.Quiescent.{Newer, IsOrdered, Reached-IsOrdered}
use audio_engine_core.KernelHandoff.Status.{status}

module _ {K : Type 0} where
  -- any number of steps
  pub data Later (s : System K) : System K → Type 0 where
    same : Later s s
    step : {t u : System K} → Later s t → Step t u → Later s u

  Later-Reached :
      (initial : Bool) {s t : System K} → Reached initial s → Later s t → Reached initial t
  Later-Reached initial r same = r
  Later-Reached initial r (step l st) = next (Later-Reached initial r l) st

  -- No counter goes down, nor does the generation that is drained.
  pub record Grown (c c' : Control K) : Type 0 where
    pub adopted : c.adopted_kernels ≤ c'.adopted_kernels
    pub superseded : c.superseded_kernels ≤ c'.superseded_kernels
    pub discarded : c.discarded_kernels ≤ c'.discarded_kernels
    pub reclaimed : c.reclaimed_kernels ≤ c'.reclaimed_kernels
    pub drained : c.audio_drained_generation ≤ c'.audio_drained_generation

  Grown-refl : (c : Control K) → Grown c c
  Grown-refl c = ground arith

  Grown-trans : (a b c : Control K) → Grown a b → Grown b c → Grown a c
  Grown-trans a b c p q = ground arith

  gate_step-Grown : (s : System K) → Grown s.control (gate_step s).control
  unfolding gate_step
  gate_step-Grown s = ground arith

  perform-Grown :
      (a : Access) (rest : List Access) (s : System K) → Grown s.control (perform a rest s).control
  unfolding perform flush
  perform-Grown a rest s = ground arith

  sync_disabled-Grown : (s : System K) → Grown s.control (sync_disabled s).control
  unfolding sync_disabled release discard_incoming retire_owned
  sync_disabled-Grown s = ground arith

  sync_enabled-Grown : (s : System K) → Grown s.control (sync_enabled s).control
  unfolding sync_enabled adopt_incoming replace_owned
  sync_enabled-Grown s = ground arith

  check_owned-Grown : (s : System K) → Grown s.control (check_owned s).control
  unfolding check_owned retire_owned
  check_owned-Grown s = ground arith

  check_incoming-Grown : (s : System K) → Grown s.control (check_incoming s).control
  unfolding check_incoming discard_incoming
  check_incoming-Grown s = ground arith

  sync_step-Grown : (s : System K) → IsOrdered s → Grown s.control (sync_step s).control
  unfolding sync_step flush take_published settle
  sync_step-Grown s v = ground (
    arith,
    v.syncing,
    sync_disabled-Grown s,
    sync_enabled-Grown s,
    check_owned-Grown s,
    check_incoming-Grown s,
  )

  audio_step-Grown : (s : System K) → IsOrdered s → Grown s.control (audio_step s).control
  unfolding audio_step
  audio_step-Grown s v = elim (List-cases s.todo) [
    | inl e ↦ rw (audio_step, e) (sync_step-Grown s v)
    | inr (a, rest, e) ↦ rw (audio_step, e) (perform-Grown a rest s)
  ]

  Step-Grown : {s t : System K} → Step s t → IsOrdered s → Grown s.control t.control
  unfolding teardown_of
  Step-Grown {s} audio v = audio_step-Grown s v
  Step-Grown {s} gated v = gate_step-Grown s
  Step-Grown {s} (publish kernel rate f p b) v = Grown-refl s.control
  Step-Grown {s} (ask f) v = Grown-refl s.control
  Step-Grown {s} (reclaim_retired f) v = Grown-refl s.control
  Step-Grown {s} (set_enabled b) v = ground arith
  Step-Grown {s} (set_sample_rate rate r d p) v = Grown-refl s.control
  Step-Grown {s} (teardown r d) v = ground arith
  Step-Grown {s} (attach r d e) v = Grown-refl s.control

  Later-Grown :
      (initial : Bool) {s t : System K} → Reached initial s → Later s t → Grown s.control t.control
  Later-Grown initial {s} r same = Grown-refl s.control
  Later-Grown initial {s} {t = u} r (step {t = m} l st) =
      Grown-trans s.control m.control u.control (Later-Grown initial r l)
        (Step-Grown st (Reached-IsOrdered initial (Later-Reached initial r l)))

  -- The states that a read meets, from a state that the system reaches.
  pub record Meets (initial : Bool) (at : ℕ → System K) : Type 0 where
    pub begins : Reached initial (at 0)
    pub goes_on : (n : ℕ) → Later (at n) (at (suc n))

  Meets-Reached :
      (initial : Bool) (at : ℕ → System K) → Meets initial at → (n : ℕ) → Reached initial (at n)
  Meets-Reached initial at m zero = m.begins
  Meets-Reached initial at m (suc n) =
      Later-Reached initial (Meets-Reached initial at m n) (m.goes_on n)

  Meets-Grown :
      (initial : Bool) (at : ℕ → System K)
      → Meets initial at
      → (n : ℕ) → Grown (at 0).control (at n).control
  Meets-Grown initial at m zero = Grown-refl (at 0).control
  Meets-Grown initial at m (suc n) =
      Grown-trans (at 0).control (at n).control (at (suc n)).control (Meets-Grown initial at m n)
        (Later-Grown initial (Meets-Reached initial at m n) (m.goes_on n))

  -- Wherever a kernel is, it is newer than that generation.
  pub record AllNewer (generation : ℕ) (s : System K) : Type 0 where
    pub published_newer : Newer generation s.control.published
    pub incoming_newer : Newer generation s.consumer.incoming
    pub owned_newer : Newer generation s.consumer.owned
    pub pending_newer : Newer generation s.consumer.pending_retire

  -- However the threads interleave, also between the loads of `status`, it reports as pending at most
  -- the kernels that, as it began, waited in the slot or had come in, were dropped there by a
  -- teardown, or were not counted yet; and as to be reclaimed at most those that, as it loaded their
  -- count, waited for it, were dropped there, or were not counted yet.
  pub Meets-status :
      (initial : Bool) (at : ℕ → System K)
      → Meets initial at
      → ((status (λ n. (at n).control)).pending_kernels
          ≤ count (at 0).control.published
            + count (at 0).consumer.incoming
            + (at 0).dropped.incoming_dropped
            + (owed_adopted (at 0).todo + owed_discarded (at 0).todo + owed (at 0).gate))
        × ((status (λ n. (at n).control)).pending_reclamations
            ≤ count (at 5).control.retired
              + count (at 5).consumer.pending_retire
              + (at 5).dropped.pending_dropped
              + owed_reclaimed (at 5).gate)
  unfolding status
  Meets-status initial at m =
      let began = Reached-IsKept initial m.begins in
      let counted = Reached-IsKept initial (Meets-Reached initial at m 5) in
      let adopted = (Meets-Grown initial at m 2).adopted in
      let superseded = (Meets-Grown initial at m 3).superseded in
      let discarded = (Meets-Grown initial at m 4).discarded in
      let reclaimed =
        (Later-Grown initial (Meets-Reached initial at m 5) (m.goes_on 5)).reclaimed in
      let placed = began.placed in
      let top = began.top in
      let returned = counted.returned in
      (
        ground (arith, placed, top, adopted, superseded, discarded),
        ground (arith, returned, reclaimed),
      )

  -- However the threads interleave, also between the loads of `status`, where it reports an idle audio
  -- thread, every kernel that is published or that the audio thread holds, from its load of the drained
  -- generation on, is newer than the generation that it reports as published.
  pub Meets-audio_idle :
      (initial : Bool) (at : ℕ → System K) (n : ℕ)
      → Meets initial at
      → (status (λ n. (at n).control)).audio_idle ≡ true
      → AllNewer (status (λ n. (at n).control)).latest_published_generation (at (suc n))
  unfolding status
  Meets-audio_idle initial at n m idle =
      let ordered = Reached-IsOrdered initial (Meets-Reached initial at m (suc n)) in
      let drained = (Meets-Grown initial (λ k. at (suc k)) (shifted m) n).drained in
      record {
        published_newer = ground (arith, idle, drained, ordered.published_in);
        incoming_newer = ground (arith, idle, drained, ordered.incoming_in);
        owned_newer = ground (arith, idle, drained, ordered.owned_in);
        pending_newer = ground (arith, idle, drained, ordered.pending_in);
      }
    where
      shifted : Meets initial at → Meets initial (λ k. at (suc k))
      shifted m = record { begins = Meets-Reached initial at m 1; goes_on = λ k. m.goes_on (suc k) }
