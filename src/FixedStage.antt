-- ===== src/FixedStage.antt =====
-- src/processor/adapters.rs, `FixedLifecycle` and the helpers that the adapters of fixed one-to-one
-- processors share. The closure of an adapter is a body over the adapter's state; a slice out of
-- range is `none`.
pub mod Accepted
pub mod Tests
use Prim.Native.String.{String}
use audio_engine_core.Base.{
  ℕ, ◌*◌, min, Bool, true, false, not, ◌&&◌, ◌||◌, Option, none, some, List, ltb, ◌==◌,
  if◌then◌else◌, ◌>>=◌, length, take, replicate, overwrite, slice, copy_into, unwrap_or,
}
use audio_engine_core.Base.Results.{ok, err, refuse}
use audio_engine_core.AudioBlock.{AudioBlock}
use audio_engine_core.Traits.{
  ProcessBuffers, ProcessState, need_input, need_output, ProcessProgress, ProcessError, Outcome,
  already_finished, progress, with_bypassed, finished_with, validate_processor_channels, channels,
}

-- `FixedLifecycle`
pub record FixedLifecycle : Type 0 where
  pub finishing : Bool
  pub finished : Bool
  pub finish_enabled : Option Bool

unfoldable pub ensure_processing : FixedLifecycle → String → Outcome (Unit {0})
ensure_processing l processor = refuse (l.finishing || l.finished) (already_finished processor)

abbrev pub begin_finish : FixedLifecycle → FixedLifecycle
begin_finish l = record l { finishing = true }

-- The decision of the first finish call is kept.
unfoldable pub lock_finish_enabled : FixedLifecycle → Bool → Bool × FixedLifecycle
lock_finish_enabled l enabled =
    let decided = unwrap_or l.finish_enabled enabled in
    (decided, record l { finishing = true; finish_enabled = some decided })

unfoldable pub finish_lifecycle : FixedLifecycle → ProcessProgress × FixedLifecycle
finish_lifecycle l = (finished_with 0, record l { finishing = true; finished = true })

abbrev pub reset_lifecycle : FixedLifecycle → FixedLifecycle
reset_lifecycle l = record l { finishing = false; finished = false; finish_enabled = none }

unfoldable pub finish_fixed :
    {A : Type 0}
    → String
    → Option ℕ
    → FixedLifecycle
    → AudioBlock A
    → Outcome ProcessProgress × FixedLifecycle
finish_fixed processor expected_channels l output =
    let (report, l') = finish_lifecycle l in
    elim (validate_processor_channels processor expected_channels output.channels) [
      | err e ↦ (err e, l)
      | ok _ ↦ (ok report, l')
    ]

module _ {A S : Type 0} where
  -- what `process` does once its input stands in the first `frames` of `samples`
  unfoldable pub run_body :
      Bool
      → ℕ
      → ℕ
      → ProcessState
      → (List A → ℕ → S → Outcome (Unit {0}) × List A × S)
      → List A
      → S
      → Outcome ProcessProgress × List A × S
  run_body enabled frames channels state body samples s =
      let (outcome, rewritten, s') = body (take (frames * channels) samples) channels s in
      let report = with_bypassed (progress frames frames state) (not enabled) in
      if enabled && ltb 0 frames
      then ((elim outcome [ ok _ ↦ ok report | err e ↦ err e ]), overwrite samples 0 rewritten, s')
      else (ok report, samples, s)

  unfoldable pub process_fixed_1_to_1 :
      String
      → Bool
      → Option ℕ
      → ProcessBuffers A
      → (List A → ℕ → S → Outcome (Unit {0}) × List A × S)
      → S
      → Option (Outcome ProcessProgress × List A × S)
  process_fixed_1_to_1 processor enabled expected_channels buffers body s =
      let target : List A = elim buffers [
        | ProcessBuffers.in_place block ↦ block.samples
        | ProcessBuffers.out_of_place input output ↦ output.samples
      ] in
      elim (validate_processor_channels processor expected_channels (channels buffers)) [
        | err e ↦ some (err e, target, s)
        | ok _ ↦ (elim buffers [
          | ProcessBuffers.in_place block ↦
              some (run_body enabled block.frames block.channels need_input body block.samples s)
          | ProcessBuffers.out_of_place input output ↦
              let frames = min input.frames output.frames in
              let state = if ltb frames input.frames then need_output else need_input in
              (do
                source ← slice input.samples 0 (frames * input.channels)
                copied ← copy_into output.samples 0 source
                some (run_body enabled frames input.channels state body copied s))
        ])
      ]

  unfoldable pub finish_fixed_unknown :
      A
      → String
      → Bool
      → Option ℕ
      → FixedLifecycle
      → AudioBlock A
      → (List A → ℕ → S → List A × S)
      → S
      → Outcome ProcessProgress × List A × FixedLifecycle × S
  finish_fixed_unknown silence processor enabled expected_channels l output body s =
      let (decided, l') = lock_finish_enabled l enabled in
      let (report, ended) = finish_lifecycle l' in
      let (rewritten, s') = body (replicate (length output.samples) silence) output.channels s in
      elim (validate_processor_channels processor expected_channels output.channels) [
        | err e ↦ (err e, output.samples, l, s)
        | ok _ ↦
            if l.finished
            then (ok (finished_with 0), output.samples, l, s)
            else if not decided
            then (ok report, output.samples, ended, s)
            else if output.frames == 0
            then (ok (progress 0 0 need_output), output.samples, l', s)
            else (
              ok (progress 0 output.frames need_output),
              overwrite (replicate (length output.samples) silence) 0 rewritten,
              l',
              s',
            )
      ]
