-- ===== src/Pipeline/Callback.antt =====
-- `CallbackSpec` and the callback-owned `PlaybackPipeline`. The shared channel stands in the record,
-- as the content that the callback meets. A method returns its result, the samples, the pipeline.
use Prim.Native.String.{String}
use audio_engine_core.Base.{
  ℕ, zero, suc, ◌+◌, ◌-◌, ◌*◌, ◌/◌, ◌%◌, min, max, not, Option, none, some, List, ◌++◌, ltb, ◌==◌,
  if◌then◌else◌, length, take, drop, replicate,
}
use audio_engine_core.Base.Results.{ok, err, ◌>>=◌, ◌>>◌, refuse}
use mathlib.Core.List.{map}
use audio_engine_core.Float.{Float}
use audio_engine_core.Traits.{
  ProcessProgress, Outcome, need_input, need_output, progress, is_finished, invalid_geometry,
  invalid_sample_rate, channel_count_mismatch, sample_rate_mismatch, StreamingProcessor,
}
use audio_engine_core.DspChain
use audio_engine_core.DspChain.{ChainFinishPolicy, DspChain, block_of}
use audio_engine_core.DspChain.Segment.{finish_with_policy}
use audio_engine_core.Pipeline.{
  PlaybackLifecycleState, running, fading_out, draining, idle, as_code, LifecycleChannel,
  take_newer_than, request_reset_kind, request_drain_kind, request_stop_kind,
}

-- `CallbackSpec`
pub record CallbackSpec : Type 0 where
  pub channels : ℕ
  pub sample_rate_hz : ℕ
  pub max_frames : ℕ

unfoldable pub spec_new : ℕ → ℕ → ℕ → Outcome CallbackSpec
spec_new channels sample_rate_hz max_frames = do
  refuse (channels == 0) (
      invalid_geometry "CallbackSpec" "create callback spec"
        "channel count must be greater than zero")
  refuse (sample_rate_hz == 0) (invalid_sample_rate "CallbackSpec" sample_rate_hz)
  refuse (max_frames == 0) (
      invalid_geometry "CallbackSpec" "create callback spec"
        "maximum callback frames must be greater than zero")
  ok (record { channels = channels; sample_rate_hz = sample_rate_hz; max_frames = max_frames })

-- `PlaybackPipeline`
pub record PlaybackPipeline (F S : Type 0) : Type 0 where
  pub chain : DspChain F S
  pub spec : CallbackSpec
  pub lifecycle : LifecycleChannel
  pub seen_generation : ℕ
  pub state : PlaybackLifecycleState
  pub drain_policy : ChainFinishPolicy F
  pub fade_remaining_frames : ℕ
  pub fade_total_frames : ℕ
  pub fade_base_gain : F

module _ {F S : Type 0} where
  abbrev pub publish_state : PlaybackPipeline F S → PlaybackPipeline F S
  publish_state p = record p { lifecycle = record (p.lifecycle) { state = as_code p.state } }

  abbrev pub frames_in : PlaybackPipeline F S → List F → ℕ
  frames_in p samples = length samples / p.spec.channels

  unfoldable pub validate_samples : PlaybackPipeline F S → List F → String → Outcome (Unit {0})
  validate_samples p samples operation = do
    refuse (not (length samples % p.spec.channels == 0)) (
        invalid_geometry "PlaybackPipeline" operation
          "sample count is not a whole number of callback frames")
    refuse (ltb p.spec.max_frames (length samples / p.spec.channels)) (
        invalid_geometry "PlaybackPipeline" operation
          "callback block exceeds prepared maximum frames")

module _ (N : Float) {S : Type 0} (P : StreamingProcessor N.F S) where
  open N use {F}

  -- The builder is given by its channels, its rate, and what `build_callback_chain` returns.
  unfoldable pub assemble :
      ℕ
      → ℕ
      → Outcome (DspChain F S)
      → CallbackSpec
      → LifecycleChannel
      → ChainFinishPolicy F
      → Outcome (PlaybackPipeline F S)
  assemble builder_channels builder_rate build spec lifecycle drain_policy = do
    refuse (not (builder_channels == spec.channels))
        (channel_count_mismatch "PlaybackPipeline" spec.channels builder_channels)
    refuse (not (builder_rate == spec.sample_rate_hz))
        (sample_rate_mismatch "PlaybackPipeline" spec.sample_rate_hz builder_rate)
    chain ← build
    ok (record {
      chain = chain;
      spec = spec;
      lifecycle = lifecycle;
      seen_generation = 0;
      state = running;
      drain_policy = drain_policy;
      fade_remaining_frames = 0;
      fade_total_frames = 0;
      fade_base_gain = N.one;
    })

  unfoldable pub current_stop_gain : PlaybackPipeline F S → F
  current_stop_gain p =
      if ltb 0 p.fade_remaining_frames
      then N.div (N.mul p.fade_base_gain (N.of_ℕ p.fade_remaining_frames))
          (N.of_ℕ (max p.fade_total_frames 1))
      else p.fade_base_gain

  -- what `reset` and a reset request set
  abbrev pub rearm : PlaybackPipeline F S → PlaybackPipeline F S
  rearm p = record p {
    fade_remaining_frames = 0;
    fade_total_frames = 0;
    fade_base_gain = N.one;
    state = running;
  }

  abbrev pub ramp_frames_of : PlaybackPipeline F S → ℕ → ℕ
  ramp_frames_of p fade_ms = fade_ms * p.spec.sample_rate_hz / 1000

  -- A stop request for a pipeline that is not idle.
  unfoldable pub start_stop : PlaybackPipeline F S → ℕ → PlaybackPipeline F S
  start_stop p ramp_frames =
      if ramp_frames == 0
      then record p {
        fade_remaining_frames = 0;
        fade_total_frames = 0;
        fade_base_gain = N.zero;
        state = draining;
      }
      else record p {
        fade_base_gain = current_stop_gain p;
        fade_total_frames = ramp_frames;
        fade_remaining_frames = ramp_frames;
        state = (elim p.state [ draining ↦ draining | _ ↦ fading_out ]);
      }

  unfoldable pub apply_lifecycle_request :
      PlaybackPipeline F S → ℕ → ℕ → Outcome (Unit {0}) × PlaybackPipeline F S
  apply_lifecycle_request p kind fade_ms =
      let (outcome, chain) = DspChain.reset N P p.chain in
      if kind == request_reset_kind
      then (outcome, record (rearm p) { chain = chain })
      else if kind == request_drain_kind
      then (ok tt, record p { state = (elim p.state [ idle ↦ idle | _ ↦ draining ]) })
      else if kind == request_stop_kind
      then (ok tt, (elim p.state [ idle ↦ p | _ ↦ start_stop p (ramp_frames_of p fade_ms) ]))
      else (ok tt, p)

  unfoldable pub consume_lifecycle_request :
      PlaybackPipeline F S → Outcome (Unit {0}) × PlaybackPipeline F S
  consume_lifecycle_request p = elim (take_newer_than p.lifecycle p.seen_generation) [
    | none ↦ (ok tt, p)
    | some (generation, kind, fade_ms) ↦
        let (outcome, p') =
          apply_lifecycle_request (record p { seen_generation = generation }) kind fade_ms in
        let p'' = publish_state p' in
        (
          outcome,
          record p'' { lifecycle = record (p''.lifecycle) { applied_generation = generation } },
        )
  ]

  -- The ramp over `n` frames, from the `index`-th frame on, and the samples after them.
  unfoldable pub ramp_frames : PlaybackPipeline F S → ℕ → ℕ → List F → List F
  ramp_frames p zero index samples = samples
  ramp_frames p (suc n) index samples =
      let remaining = p.fade_remaining_frames - (index + 1) in
      let gain =
        N.div (N.mul p.fade_base_gain (N.of_ℕ remaining)) (N.of_ℕ (max p.fade_total_frames 1)) in
      map (λ sample. N.mul sample gain) (take p.spec.channels samples)
      ++ ramp_frames p n (index + 1) (drop p.spec.channels samples)

  unfoldable pub apply_stop_ramp : PlaybackPipeline F S → List F → ℕ → List F × PlaybackPipeline F S
  apply_stop_ramp p samples frames =
      let remaining = p.fade_remaining_frames - frames in
      let p' = record p { fade_remaining_frames = remaining } in
      (
        ramp_frames p (frames_in p samples) 0 samples,
        (if remaining == 0
            then publish_state (record p' { fade_base_gain = N.zero; state = draining })
            else p'),
      )

  unfoldable pub apply_drain_stop_gain :
      PlaybackPipeline F S → List F → ℕ → List F × PlaybackPipeline F S
  apply_drain_stop_gain p produced_samples block_frames =
      let remaining = p.fade_remaining_frames - block_frames in
      let p' = record p { fade_remaining_frames = remaining } in
      if ltb 0 p.fade_remaining_frames
      then (
        ramp_frames p (frames_in p produced_samples) 0 produced_samples,
        (if remaining == 0 then record p' { fade_base_gain = N.zero } else p'),
      )
      else if N.eq p.fade_base_gain N.zero
      then (replicate (length produced_samples) N.zero, p)
      else (produced_samples, p)

  -- after the chain has rendered its tail into `samples` and reported `report`
  unfoldable pub settle :
      PlaybackPipeline F S
      → ℕ
      → List F
      → ProcessProgress
      → Outcome ProcessProgress × List F × PlaybackPipeline F S
  settle p frames samples report =
      let produced = min report.produced_frames frames in
      let tail_samples = take (produced * p.spec.channels) samples in
      let (faded, p') = apply_drain_stop_gain p tail_samples frames in
      (
        ok report,
        faded ++ replicate (length samples - produced * p.spec.channels) N.zero,
        (if is_finished report.state then publish_state (record p' { state = idle }) else p'),
      )

  -- the fuel that the drain of one block needs
  abbrev pub drain_fuel : DspChain F S → ℕ → ℕ
  drain_fuel c frames = length c.processors + frames + 1

  unfoldable pub drain_into :
      PlaybackPipeline F S
      → List F
      → ℕ
      → Option (Outcome ProcessProgress × List F × PlaybackPipeline F S)
  drain_into p samples frames =
      if frames == 0
      then some (ok (progress 0 0 need_output), samples, p)
      else elim (block_of samples p.spec.channels) [
        | err e ↦ some (err e, samples, p)
        | ok block ↦
            elim (finish_with_policy N P (drain_fuel p.chain frames) p.chain block p.drain_policy) [
              | none ↦ none
              | some (outcome, rendered, chain) ↦
                  let p' = record p { chain = chain } in
                  elim outcome [
                    | err e ↦ some (err e, rendered, p')
                    | ok report ↦ some (settle p' frames rendered report)
                  ]
            ]
      ]

  -- the `match` on the state in `process`
  unfoldable pub process_in_state :
      PlaybackPipeline F S
      → List F
      → Option (Outcome ProcessProgress × List F × PlaybackPipeline F S)
  process_in_state p samples =
      let frames = frames_in p samples in
      let (outcome, filtered, chain) = DspChain.process N P p.chain samples p.spec.channels in
      let p' = record p { chain = chain } in
      elim p.state [
        | running ↦ some (outcome, filtered, p')
        | fading_out ↦ (elim outcome [
          | err e ↦ some (err e, filtered, p')
          | ok report ↦
              let (ramped, p'') = apply_stop_ramp p' filtered frames in
              some (ok report, ramped, p'')
        ])
        | draining ↦ drain_into p samples frames
        | idle ↦ some (ok (progress frames frames need_input), replicate (length samples) N.zero, p)
      ]

  unfoldable pub process :
      PlaybackPipeline F S
      → List F
      → Option (Outcome ProcessProgress × List F × PlaybackPipeline F S)
  process p samples = elim (validate_samples p samples "process") [
    | err e ↦ some (err e, samples, p)
    | ok _ ↦
        let (consumed, p') = consume_lifecycle_request p in
        elim consumed [ err e ↦ some (err e, samples, p') | ok _ ↦ process_in_state p' samples ]
  ]

  unfoldable pub finish_into_with_policy :
      ℕ
      → PlaybackPipeline F S
      → List F
      → ChainFinishPolicy F
      → Option (Outcome ProcessProgress × List F × PlaybackPipeline F S)
  finish_into_with_policy fuel p output policy = elim (validate_samples p output "finish") [
    | err e ↦ some (err e, output, p)
    | ok _ ↦ elim (block_of output p.spec.channels) [
      | err e ↦ some (err e, output, p)
      | ok block ↦ elim (finish_with_policy N P fuel p.chain block policy) [
        | none ↦ none
        | some (outcome, rendered, chain) ↦ some (outcome, rendered, record p { chain = chain })
      ]
    ]
  ]

  unfoldable pub reset : PlaybackPipeline F S → Outcome (Unit {0}) × PlaybackPipeline F S
  reset p =
      let (outcome, chain) = DspChain.reset N P p.chain in
      (outcome, record (publish_state (rearm p)) { chain = chain })
