-- ===== src/FixedStage/Accepted.antt =====
-- The reports of the shared helpers against the checks of their callers.
use Prim.Native.String.{String}
use audio_engine_core.Base.{
  ◌⊎◌, replicate, length-replicate, unwrap_or, inl, inr, ltb, if◌then◌else◌, ℕ, ◌+◌, ◌*◌, ◌≤◌, ◌≡◌,
  refl, ◌∙◌, min, Bool, true, Option, some, List, arith, length, take, slice_prefix,
  copy_into_of_le, overwrite, length-overwrite, length-take,
}
use native.Mathlib.Nat.{mul-le-mul_right}
use audio_engine_core.Base.Results.{ok, err, Result-cases}
use audio_engine_core.AudioBlock.{AudioBlock, IsBlock}
use audio_engine_core.Traits.{
  ProcessBuffers, ProcessState, need_input, need_output, ProcessProgress, Outcome, capacity,
  capacity_for_finish, validate, validate_processor_channels, invalid_direction, channels,
}
use audio_engine_core.FixedStage.{
  FixedLifecycle, lock_finish_enabled, finish_lifecycle, run_body, process_fixed_1_to_1,
  finish_fixed_unknown,
}

module _ {A : Type 0} where
  -- The buffers are whole frames of the same channels.
  abbrev pub AreBlocks : ProcessBuffers A → Type 0
  AreBlocks (ProcessBuffers.in_place block) = IsBlock block
  AreBlocks (ProcessBuffers.out_of_place input output) =
      IsBlock input × IsBlock output × (input.channels ≡ output.channels)

  abbrev pub target : ProcessBuffers A → List A
  target (ProcessBuffers.in_place block) = block.samples
  target (ProcessBuffers.out_of_place input output) = output.samples

module _ {A S : Type 0} (body : List A → ℕ → S → Outcome (Unit {0}) × List A × S) where
  pub run_body-report :
      (enabled : Bool) (frames channels : ℕ) (state : ProcessState) (samples : List A) (s : S)
      {p : ProcessProgress}
      → (run_body enabled frames channels state body samples s).0 ≡ ok p
      → (p.consumed_frames ≡ frames) × (p.produced_frames ≡ frames) × (p.state ≡ state)
  unfolding run_body
  run_body-report enabled frames channels state samples s e = ground arith

  length-run_body :
      (enabled : Bool) (frames channels : ℕ) (state : ProcessState) (samples : List A) (s : S)
      → length (run_body enabled frames channels state body samples s).1 ≡ length samples
  unfolding run_body
  length-run_body enabled frames channels state samples s =
      ground
        (arith, length-overwrite samples 0 (body (take (frames * channels) samples) channels s).1)

  accepted_in_place :
      (processor : String) (block : AudioBlock A) (p : ProcessProgress)
      → p.consumed_frames ≡ block.frames
      → p.produced_frames ≡ block.frames
      → p.state ≡ need_input
      → validate (capacity (ProcessBuffers.in_place block)) processor p ≡ ok p
  unfolding validate invalid_direction
  accepted_in_place processor block p c d s = ground arith

  accepted_out_of_place :
      (processor : String) (input output : AudioBlock A) (p : ProcessProgress)
      → p.consumed_frames ≡ min input.frames output.frames
      → p.produced_frames ≡ min input.frames output.frames
      → p.state
        ≡ (if ltb (min input.frames output.frames) input.frames then need_output else need_input)
      → validate (capacity (ProcessBuffers.out_of_place input output)) processor p ≡ ok p
  unfolding validate invalid_direction
  accepted_out_of_place processor input output p c d s = ground arith

  -- What a call on those buffers leaves: a target of the same length, and on success a report that
  -- the checked call accepts.
  abbrev pub Accepted : String → ProcessBuffers A → Outcome ProcessProgress × List A × S → Type 0
  Accepted processor buffers (outcome, samples, s) =
      (length samples ≡ length (target buffers))
      × ((p : ProcessProgress) → outcome ≡ ok p → validate (capacity buffers) processor p ≡ ok p)

  -- On whole frames, of the same channels on both sides, `process_fixed_1_to_1` copies within its
  -- slices, keeps the length of what it writes, and reports what a checked call accepts, whatever
  -- the processor's own body does.
  pub process_fixed_1_to_1-Accepted :
      (processor : String) (enabled : Bool) (expected : Option ℕ) (buffers : ProcessBuffers A)
      (s : S)
      → AreBlocks buffers
      → (r : Outcome ProcessProgress × List A × S) × (process_fixed_1_to_1 processor enabled
            expected buffers body s
          ≡ some r)
        × Accepted processor buffers r
  unfolding process_fixed_1_to_1
  process_fixed_1_to_1-Accepted processor enabled expected (ProcessBuffers.in_place block) s
        blocks =
      elim (Result-cases (validate_processor_channels processor expected block.channels)) [
        | inr (x, e) ↦
            ((err x, block.samples, s), ground arith, (refl, λ p h. absurd (ground arith)))
        | inl (u, e) ↦ (
          ran,
          ground arith,
          (
            length-run_body enabled block.frames block.channels need_input block.samples s,
            λ p h.
                let (c, d, t) =
                  run_body-report enabled block.frames block.channels need_input block.samples s
                    {p = p} h in
                accepted_in_place processor block p c d t,
          ),
        )
      ]
    where
      ran : Outcome ProcessProgress × List A × S
      ran = run_body enabled block.frames block.channels need_input body block.samples s
  process_fixed_1_to_1-Accepted processor enabled expected
        (ProcessBuffers.out_of_place input output) s (bi, bo, same) =
      elim (Result-cases (validate_processor_channels processor expected input.channels)) [
        | inr (x, e) ↦
            ((err x, output.samples, s), ground arith, (refl, λ p h. absurd (ground arith)))
        | inl (u, e) ↦ (
          ran,
          rw
              (
                e,
                process_fixed_1_to_1,
                slice_prefix input.samples n in_input,
                copy_into_of_le output.samples 0 (take n input.samples) in_output,
              )
              refl,
          (
            length-run_body enabled frames input.channels state copied s
                ∙ length-overwrite output.samples 0 (take n input.samples),
            λ p h.
                let (c, d, t) =
                  run_body-report enabled frames input.channels state copied s {p = p} h in
                accepted_out_of_place processor input output p c d t,
          ),
        )
      ]
    where
      frames : ℕ
      frames = min input.frames output.frames

      n : ℕ
      n = frames * input.channels

      state : ProcessState
      state = if ltb frames input.frames then need_output else need_input

      copied : List A
      copied = overwrite output.samples 0 (take n input.samples)

      ran : Outcome ProcessProgress × List A × S
      ran = run_body enabled frames input.channels state body copied s

      in_input : n ≤ length input.samples
      in_input = omega (
        arith,
        bi.whole,
        mul-le-mul_right {m = frames} {n = input.frames} input.channels (omega arith),
      )

      in_output : 0 + length (take n input.samples) ≤ length output.samples
      in_output = ground (
        arith,
        length-take n input.samples,
        bo.whole,
        same,
        mul-le-mul_right {m = frames} {n = output.frames} input.channels (omega arith),
      )

module _ {A S : Type 0} (silence : A) (processor : String) (expected : Option ℕ)
    (body : List A → ℕ → S → List A × S) where
  -- The lifecycle follows the decision `d`, or has ended.
  abbrev Decided : FixedLifecycle → Bool → Type 0
  Decided l d = (l.finished ≡ true) ⊎ (l.finish_enabled ≡ some d)

  Decided-finish :
      (l : FixedLifecycle) (d later : Bool) (next : AudioBlock A) (t : S)
      → Decided l d
      → finish_fixed_unknown silence processor later expected l next body t
        ≡ finish_fixed_unknown silence processor d expected l next body t
  unfolding finish_fixed_unknown lock_finish_enabled finish_lifecycle
  Decided-finish l d later next t (inl ended) = ground arith
  Decided-finish l d later next t (inr locked) = rw locked refl

  finish-Decided :
      (enabled : Bool) (l : FixedLifecycle) (output : AudioBlock A) (s : S) {p : ProcessProgress}
      → (finish_fixed_unknown silence processor enabled expected l output body s).0 ≡ ok p
      → Decided
          (finish_fixed_unknown silence processor enabled expected l output body s).2
          (unwrap_or l.finish_enabled enabled)
  unfolding finish_fixed_unknown lock_finish_enabled finish_lifecycle
  finish-Decided enabled l output s e = ground arith

  -- What `finish_fixed_unknown` reports is what a checked finish call accepts; the output keeps its
  -- length, and once a call has succeeded a later one follows the decision of the first, whatever
  -- the control says by then.
  pub finish_fixed_unknown-accepted :
      (enabled : Bool) (l : FixedLifecycle) (output : AudioBlock A) (s : S)
      → let r = finish_fixed_unknown silence processor enabled expected l output body s in
        (length r.1 ≡ length output.samples)
        × ((p : ProcessProgress)
            → r.0 ≡ ok p
            → (validate (capacity_for_finish output.frames) processor p ≡ ok p)
              × ((later : Bool) (next : AudioBlock A) (t : S)
                  → finish_fixed_unknown silence processor later expected r.2 next body t
                    ≡ finish_fixed_unknown silence processor
                        (unwrap_or l.finish_enabled enabled)
                        expected
                        r.2
                        next
                        body
                        t))
  unfolding finish_fixed_unknown lock_finish_enabled finish_lifecycle validate invalid_direction
  finish_fixed_unknown-accepted enabled l output s = (
    ground (
      arith,
      length-overwrite (replicate (length output.samples) silence) 0
          (body (replicate (length output.samples) silence) output.channels s).0,
      length-replicate (length output.samples) silence,
    ),
    λ p e. (
      ground arith,
      λ later next t.
          Decided-finish (finish_fixed_unknown silence processor enabled expected l output body s).2
            (unwrap_or l.finish_enabled enabled) later next t
            (finish-Decided enabled l output s {p = p} e),
    ),
  )
