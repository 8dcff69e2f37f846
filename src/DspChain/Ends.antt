-- ===== src/DspChain/Ends.antt =====
-- How the loop of `finish_with_policy` is left, and what the method then reports.
use audio_engine_core.Base.{
  sym, ◌∙◌, is_some, ◌↔◌, ℕ, zero, suc, ◌+◌, ◌≤◌, ◌<◌, ◌≡◌, ◌≢◌, refl, ◌⊎◌, inl, inr, true, false,
  some, List, arith, ltb, ◌==◌, Bool-cases, Option-cases, ltb→lt, length, get_elem?,
  get_elem?_of_lt, get_elem?_of_le,
}
use audio_engine_core.Base.Results.{Result-cases, ok, err}
use audio_engine_core.AudioBlock.{AudioBlock, IsBlock}
use audio_engine_core.Float.{Float}
use audio_engine_core.Traits.{
  need_output, finished, ProcessProgress, Outcome, capacity_for_finish, StreamingProcessor,
  finished_with, progress,
}
use audio_engine_core.Traits.Progress.{WithinCapacity, Honest}
use audio_engine_core.DspChain.{ChainFinishPolicy, DspChain, finish_started}
use audio_engine_core.DspChain.Segment.{
  Drain, Round, again, stop, fail, drain_round, drain_loop, drain_result, fix_policy,
  finish_with_policy,
}
use audio_engine_core.DspChain.Fits.{Fits, work_left, Advances}
use audio_engine_core.DspChain.Drain.{drain_round-Advances}

module _ (N : Float) {S : Type 0} (P : StreamingProcessor N.F S) where
  open N use {F}

  -- How the loop may be left: by an error, at the end of the chain, or with a full output.
  abbrev Left : ℕ → ℕ → ℕ → Round F S → Type 0
  Left n channels capacity (again d) = ⊥
  Left n channels capacity (stop d) =
      Fits N P n channels capacity d × ((d.produced ≡ capacity) ⊎ (d.chain.finish_stage ≡ n))
  Left n channels capacity (fail e d) = Fits N P n channels capacity d

  advance_or_leave :
      (n channels capacity fuel : ℕ) (d : Drain F S) (r : Round F S)
      → work_left N P capacity d < suc fuel
      → Advances N P n channels capacity d r
      → ((d' : Drain F S)
          → Fits N P n channels capacity d'
          → work_left N P capacity d' < fuel
          → (r' : Round F S) × (drain_loop N P fuel d' channels capacity ≡ some r')
            × Left n channels capacity r')
      → (r' : Round F S) × ((elim r [
        | again d' ↦ drain_loop N P fuel d' channels capacity
        | stop d' ↦ some (stop d')
        | fail e d' ↦ some (fail e d')
      ])
          ≡ some r')
        × Left n channels capacity r'
  advance_or_leave n channels capacity fuel d (again d') w a next =
      next d' a.0 (omega (arith, a.1, w))
  advance_or_leave n channels capacity fuel d (stop d') w a next = (stop d', refl, (a.0, inl a.1))
  advance_or_leave n channels capacity fuel d (fail e d') w a next = (fail e d', refl, a)

  -- With fuel above the work left, the loop is left.
  drain_loop-Left :
      (n channels capacity : ℕ)
      → channels ≢ 0
      → (fuel : ℕ) (d : Drain F S) → Fits N P n channels capacity d
      → work_left N P capacity d < fuel
      → (r : Round F S) × (drain_loop N P fuel d channels capacity ≡ some r)
        × Left n channels capacity r
  unfolding drain_loop
  drain_loop-Left n channels capacity pos zero d fits w = absurd (omega arith)
  drain_loop-Left n channels capacity pos (suc fuel) d fits w =
      elim (Bool-cases (ltb d.produced capacity)) [
        | inr full ↦ (stop d, (rw full refl), (fits, inl (ground (arith, fits.produced))))
        | inl below ↦
            rw below (elim (Option-cases (get_elem? d.chain.processors d.chain.finish_stage)) [
              | inl gone ↦ rw gone (
                stop d,
                refl,
                (
                  fits,
                  inr (
                      ground
                        (arith, fits, get_elem?_of_lt d.chain.processors d.chain.finish_stage)),
                ),
              )
              | inr (s, here) ↦ rw here (
                  advance_or_leave n channels capacity fuel d
                    (drain_round N P d s channels capacity) w
                    (drain_round-Advances N P n channels capacity d s fits pos
                      (ltb→lt d.produced capacity below)
                      (ground (
                        arith,
                        fits.stages,
                        get_elem?_of_le d.chain.processors d.chain.finish_stage,
                      )))
                    (drain_loop-Left n channels capacity pos fuel))
            ])
      ]

  -- What the method promises of its report, its output and its chain.
  abbrev pub Reports : AudioBlock F → Outcome ProcessProgress × List F × DspChain F S → Type 0
  Reports output (ok p, samples, c) =
      (WithinCapacity (capacity_for_finish output.frames) p
        × Honest (capacity_for_finish output.frames) p)
      × (length samples ≡ length output.samples)
      × ((c.finish_complete ≡ true) ↔ (p.state ≡ finished))
      × (finish_started c ≡ true)
      × (c.finish_stage ≤ length c.processors)
  Reports output (err e, samples, c) =
      (c.finish_complete ≡ false)
      × (c.finish_stage ≤ length c.processors)
      × (length samples ≡ length output.samples)

  drain_result-Reports :
      (output : AudioBlock F) (n : ℕ) (d : Drain F S)
      → IsBlock output
      → 0 < output.frames
      → Left n output.channels output.frames (stop d)
      → Reports output (drain_result N P output.frames d)
  unfolding drain_result
  drain_result-Reports output n d block some_room (fits, inl full) = ground arith
  drain_result-Reports output n d block some_room (fits, inr last) = ground arith

  fix_policy-stages :
      (c : DspChain F S) (policy : ChainFinishPolicy F) {c' : DspChain F S}
      → fix_policy N P c policy ≡ ok c'
      → (c'.processors ≡ c.processors)
        × (c'.finish_stage ≡ c.finish_stage)
        × (c'.finish_complete ≡ c.finish_complete)
        × (is_some c'.finish_policy ≡ true)
  unfolding fix_policy
  fix_policy-stages c policy e = ground arith

  -- What `finish_with_policy` makes of the end of its loop.
  abbrev outcome_of : AudioBlock F → Round F S → Outcome ProcessProgress × List F × DspChain F S
  outcome_of output (fail e d) = (err e, d.output, d.chain)
  outcome_of output (stop d) = drain_result N P output.frames d
  outcome_of output (again d) = drain_result N P output.frames d

  outcome_of-Reports :
      (output : AudioBlock F) (n : ℕ) (r : Round F S)
      → IsBlock output
      → 0 < output.frames
      → Left n output.channels output.frames r
      → Reports output (outcome_of output r)
  outcome_of-Reports output n (again d) block pos l = absurd l
  outcome_of-Reports output n (stop d) block pos l = drain_result-Reports output n d block pos l
  outcome_of-Reports output n (fail e d) block pos l =
      (l.complete, ground (arith, l.stage, l.stages), l.room ∙ sym block.whole)

  finish-outcome_of :
      (c c1 : DspChain F S) (output : AudioBlock F) (policy : ChainFinishPolicy F) (fuel : ℕ)
      (r : Round F S)
      → c.finish_complete ≡ false
      → fix_policy N P c policy ≡ ok c1
      → (length c1.processors == 0) ≡ false
      → (output.frames == 0) ≡ false
      → drain_loop N P fuel
          (record { chain = c1; output = output.samples; produced = 0 })
          output.channels
          output.frames
        ≡ some r
      → finish_with_policy N P fuel c output policy ≡ some (outcome_of output r)
  unfolding finish_with_policy
  finish-outcome_of c c1 output policy fuel (again d) unfinished e staged some_room l =
      ground (arith)
  finish-outcome_of c c1 output policy fuel (stop d) unfinished e staged some_room l =
      ground (arith)
  finish-outcome_of c c1 output policy fuel (fail x d) unfinished e staged some_room l =
      ground (arith)

  -- `finish_with_policy` of a chain that is not complete returns, with fuel for one round a stage and
  -- one a frame of the output. What it reports is within the output and honest; the chain is complete
  -- exactly when that is `Finished`, and refuses blocks. After an error the chain is not complete.
  -- Either way the output keeps its length, and the chain stands at one of its stages or their end.
  pub finish_with_policy-Reports :
      (c : DspChain F S) (output : AudioBlock F) (policy : ChainFinishPolicy F) (fuel : ℕ)
      → IsBlock output
      → c.finish_stage ≤ length c.processors
      → c.finish_complete ≡ false
      → length c.processors + output.frames < fuel
      → (r : Outcome ProcessProgress × List F × DspChain F S) × (finish_with_policy N P fuel c
            output policy
          ≡ some r)
        × Reports output r
  unfolding finish_with_policy
  finish_with_policy-Reports c output policy fuel block at unfinished enough =
      elim (Result-cases (fix_policy N P c policy)) [
        | inr (x, e) ↦ ((err x, output.samples, c), ground arith, (unfinished, at, refl))
        | inl (c1, e) ↦ elim (Bool-cases (length c1.processors == 0)) [
          | inl empty ↦ (
            (ok (finished_with 0), output.samples, record c1 { finish_complete = true }),
            ground arith,
            ground (arith, fix_policy-stages c policy e),
          )
          | inr staged ↦ elim (Bool-cases (output.frames == 0)) [
            | inl no_room ↦ (
              (ok (progress 0 0 need_output), output.samples, c1),
              ground arith,
              ground (arith, fix_policy-stages c policy e),
            )
            | inr some_room ↦ reported c1 e staged some_room (looped c1 e)
          ]
        ]
      ]
    where
      looped :
          (c1 : DspChain F S)
          → fix_policy N P c policy ≡ ok c1
          → (r : Round F S) × (drain_loop N P fuel
                (record { chain = c1; output = output.samples; produced = 0 })
                output.channels
                output.frames
              ≡ some r)
            × Left (length c1.processors) output.channels output.frames r
      looped c1 e =
          drain_loop-Left (length c1.processors) output.channels output.frames block.channels_pos
            fuel (record { chain = c1; output = output.samples; produced = 0 })
            (record {
              room = block.whole;
              produced = omega arith;
              stages = refl;
              stage = ground (arith, fix_policy-stages c policy e);
              complete = ground (arith, fix_policy-stages c policy e);
              policy = ground (arith, fix_policy-stages c policy e);
            })
            (ground (arith, fix_policy-stages c policy e))

      reported :
          (c1 : DspChain F S)
          → fix_policy N P c policy ≡ ok c1
          → (length c1.processors == 0) ≡ false
          → (output.frames == 0) ≡ false
          → (r : Round F S) × (drain_loop N P fuel
                (record { chain = c1; output = output.samples; produced = 0 })
                output.channels
                output.frames
              ≡ some r)
            × Left (length c1.processors) output.channels output.frames r
          → (r : Outcome ProcessProgress × List F × DspChain F S) × (finish_with_policy N P fuel c
                output policy
              ≡ some r)
            × Reports output r
      reported c1 e staged some_room (r, run, l) = (
        outcome_of output r,
        finish-outcome_of c c1 output policy fuel r unfinished e staged some_room run,
        outcome_of-Reports output (length c1.processors) r block (ground arith) l,
      )
