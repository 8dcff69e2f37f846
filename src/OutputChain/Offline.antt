-- ===== src/OutputChain/Offline.antt =====
-- src/processor/output_chain.rs, `drive_offline_stage`: a whole input through one processor, and its
-- tail; and `process_pre_quantize`, which drives the resampler so.
use audio_engine_core.Base.{
  ℕ, zero, suc, ◌+◌, ◌-◌, ◌*◌, ◌/◌, min, Bool, true, false, not, ◌&&◌, ◌||◌, Option, none, some,
  List, [], ◌++◌, ltb, leb, ◌==◌, if◌then◌else◌, length, take, drop, overwrite, replicate,
}
use audio_engine_core.Base.Results.{ok, err}
use audio_engine_core.Float.{Float}
use audio_engine_core.Timing.{rounded_frames_at_rate, ceil}
use audio_engine_core.Traits.{
  Outcome, backend, invalid_render_policy, is_finished, unknown_tail, StreamingProcessor,
  process_checked, finish_checked,
}
use audio_engine_core.DspChain.{block_of}
use audio_engine_core.OutputChain.{
  OfflineRenderPolicy, default_render_policy, timed, checked_samples, finish_frame_limit,
}
use audio_engine_core.OutputChain.Tail.{TailEnergyDetector, new_detector, detect}
use audio_engine_core.OutputChain.Collector.{process_fixed_stage}
use audio_engine_core.OutputChain.Boundary.{buffers_of}
use audio_engine_core.OutputChain.Sources.{process_all}
use audio_engine_core.OutputChain.Render.{Run, ◌>>=◌, ◌>>◌, done, lift, get, modify}
use audio_engine_core.OutputChain.Chain.{RenderChain}

-- The processor of `drive_offline_stage`, its scratch, and the samples it has rendered.
pub record Drive (F S : Type 0) : Type 0 where
  pub processor : S
  pub scratch : List F
  pub samples : List F

-- What a finish has found: the end of the stream, or the silence that cuts its tail.
pub record FinishState (F : Type 0) : Type 0 where
  pub detector : Option (TailEnergyDetector F)
  pub frames : ℕ
  pub terminal : Bool
  pub energy_stopped : Bool

module _ (N : Float) {S : Type 0} (P : StreamingProcessor N.F S) where
  open N use {F}

  -- A round of the loop over the input; the frames it consumed.
  unfoldable pub drive_round : List F → (channels consumed : ℕ) → Run (Drive F S) ℕ
  drive_round input channels consumed d =
      elim (block_of (drop (consumed * channels) input) channels) [
        | err e ↦ some (d, err e)
        | ok input_view ↦ (elim (block_of d.scratch channels) [
          | err e ↦ some (d, err e)
          | ok output_view ↦ (elim (buffers_of input_view output_view) [
            | err e ↦ some (d, err e)
            | ok buffers ↦
                let (outcome, output, s) = process_checked P d.processor buffers in
                let scratch = overwrite d.scratch 0 output in
                let d1 = record d { processor = s; scratch = scratch } in
                elim outcome [
                  | err e ↦ some (d1, err e)
                  | ok p ↦ some (
                    record d1 {
                      samples = d.samples ++ take (p.produced_frames * channels) scratch;
                    },
                    ok p.consumed_frames,
                  )
                ]
          ])
        ])
      ]

  unfoldable pub drive_input :
      ℕ → List F → (channels consumed frames : ℕ) → Run (Drive F S) (Unit {0})
  drive_input zero input channels consumed frames = λ d. none
  drive_input (suc fuel) input channels consumed frames =
      if leb frames consumed then done tt else (do
        step ← drive_round input channels consumed
        drive_input fuel input channels (consumed + step) frames)

  -- The samples of a round past the protected frames, as the detector hears them.
  unfoldable pub inspect : ℕ → ℕ → ℕ → Drive F S → FinishState F → ℕ → Drive F S × FinishState F
  inspect channels protected appended d f produced = elim f.detector [
    | none ↦ (d, f)
    | some detector ↦
        let start = min (protected - f.frames) produced in
        let heard = take ((produced - start) * channels) (drop (start * channels) d.scratch) in
        let (found, detector') = detect N detector heard channels (appended + start) in
        if ltb start produced
        then (elim found [
          | none ↦ (d, record f { detector = some detector' })
          | some silence ↦ (
            record d { samples = take (silence * channels) d.samples },
            record f { detector = some detector'; energy_stopped = true },
          )
        ])
        else (d, f)
  ]

  -- A round of the loop over the tail
  unfoldable pub tail_round :
      (channels protected capacity : ℕ) → FinishState F → Run (Drive F S) (FinishState F)
  tail_round channels protected capacity f d =
      elim (block_of (take (capacity * channels) d.scratch) channels) [
        | err e ↦ some (d, err e)
        | ok block ↦
            let (outcome, output, s) = finish_checked P d.processor block in
            let scratch = overwrite d.scratch 0 output in
            let d1 = record d { processor = s; scratch = scratch } in
            elim outcome [
              | err e ↦ some (d1, err e)
              | ok p ↦
                  let (d2, f1) =
                    inspect channels protected (length d.samples / channels)
                      (record d1 {
                        samples = d.samples ++ take (p.produced_frames * channels) scratch;
                      })
                      f p.produced_frames in
                  some (
                    d2,
                    ok (record f1 {
                      frames = f.frames + p.produced_frames;
                      terminal = is_finished p.state || f.terminal;
                    }),
                  )
            ]
      ]

  unfoldable pub drive_tail :
      ℕ
      → (channels protected block_frames limit : ℕ) → FinishState F
      → Run (Drive F S) (FinishState F)
  drive_tail zero channels protected block_frames limit f = λ d. none
  drive_tail (suc fuel) channels protected block_frames limit f =
      if leb limit f.frames then done f else (do
        f1 ← tail_round channels protected (min block_frames (limit - f.frames)) f
        if f1.terminal || f1.energy_stopped
            then done f1
            else drive_tail fuel channels protected block_frames limit f1)

  unfoldable pub retime : ℕ → Run (Drive F S) (Unit {0})
  retime rate d =
      let (outcome, s) = P.set_sample_rate d.processor rate in
      some (record d { processor = s }, outcome)

  -- The detector of an open tail.
  unfoldable pub detector_of :
      Bool → OfflineRenderPolicy F → ℕ → Outcome (Option (TailEnergyDetector F))
  detector_of unknown policy rate =
      if unknown
      then elim (timed (new_detector N policy.unknown_tail rate)) [
        | ok d ↦ ok (some d)
        | err e ↦ err e
      ]
      else ok none

  -- `drive_offline_stage`, with fuel for its loops; the samples are left in the state.
  unfoldable pub drive_offline_stage :
      ℕ
      → List F
      → (channels input_rate : ℕ) → OfflineRenderPolicy F
      → ℕ
      → Run (Drive F S) (Unit {0})
  drive_offline_stage fuel input channels input_rate policy block_frames = do
    (if block_frames == 0
        then lift (err (invalid_render_policy "offline block size must be greater than zero"))
        else done tt)
    block ← lift (block_of input channels)
    retime input_rate
    output_rate ← (λ d. some (d, P.output_sample_rate_hz d.processor input_rate))
    scratch_samples ← lift (checked_samples block_frames channels)
    modify (λ d. record d { scratch = replicate scratch_samples N.zero; samples = [] })
    drive_input fuel input channels 0 block.frames
    latency ← get (λ d. P.latency d.processor)
    tail ← get (λ d. P.tail d.processor)
    let unknown = unknown_tail tail
    limit ← lift (
        finish_frame_limit N block.frames input_rate output_rate
          (record { latency = latency; tail = tail }) policy block_frames)
    protected ←
        lift (if unknown then timed (rounded_frames_at_rate latency output_rate ceil) else ok 0)
    detector ← lift (detector_of unknown policy output_rate)
    left ←
        drive_tail fuel channels protected block_frames limit
          (record { detector = detector; frames = 0; terminal = false; energy_stopped = false })
    name ← get (λ d. P.name d.processor)
    (if not left.terminal && not unknown
        then lift (err (backend name "finish" "finite finish exceeded its declared safety bound"))
        else done tt)

  -- The stages of `process_pre_quantize`: the buffer is the other part of the state.
  unfoldable pub pre_sources : Run (RenderChain F S × List F) (Unit {0})
  pre_sources (c, buffer) =
      let (outcome, samples, p) = process_all N P c.sources buffer in
      some ((record c { sources = p }, samples), outcome)

  unfoldable pub pre_resampler : ℕ → Run (RenderChain F S × List F) (Unit {0})
  pre_resampler fuel (c, buffer) = elim c.resampler [
    | none ↦ some ((c, buffer), ok tt)
    | some s ↦
        (elim (drive_offline_stage fuel buffer c.channels c.source_sample_rate
          (default_render_policy N) 4096 (record { processor = s; scratch = []; samples = [] })) [
            | none ↦ none
            | some (d, err e) ↦ some ((record c { resampler = some d.processor }, buffer), err e)
            | some (d, ok _) ↦ some ((record c { resampler = some d.processor }, d.samples), ok tt)
          ])
  ]

  unfoldable pub pre_limiter : Run (RenderChain F S × List F) (Unit {0})
  pre_limiter (c, buffer) =
      let (outcome, samples, s) = process_fixed_stage N P c.limiter buffer c.channels in
      some ((record c { limiter = s }, samples), elim outcome [ ok p ↦ ok tt | err e ↦ err e ])

  unfoldable pub pre_shaper : Run (RenderChain F S × List F) (Unit {0})
  pre_shaper (c, buffer) =
      let (outcome, samples, s) = process_fixed_stage N P c.noise_shaper buffer c.channels in
      some ((record c { noise_shaper = s }, samples), elim outcome [ ok p ↦ ok tt | err e ↦ err e ])

  -- `process_pre_quantize`
  unfoldable pub process_pre_quantize : ℕ → Run (RenderChain F S × List F) (Unit {0})
  process_pre_quantize fuel = do pre_sources; pre_resampler fuel; pre_limiter; pre_shaper
