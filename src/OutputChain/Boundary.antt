-- ===== src/OutputChain/Boundary.antt =====
-- src/processor/output_chain.rs, `RateBoundary`: the resampler between the source stages and the
-- collector, if there is one.
use audio_engine_core.Base.{
  ℕ, zero, suc, ◌+◌, ◌*◌, ◌/◌, max, not, ◌||◌, Option, none, some, List, ltb, if◌then◌else◌, length,
  take, drop, overwrite, replicate,
}
use audio_engine_core.Base.Results.{ok, err, ◌>>=◌}
use audio_engine_core.AudioBlock.{AudioBlock}
use audio_engine_core.Float.{Float}
use audio_engine_core.Traits.{
  ProcessBuffers, out_of_place_buffers, ProcessProgress, Outcome, invalid_block, StreamingProcessor,
  process_checked, finish_checked,
}
use audio_engine_core.DspChain.{block_of}
use audio_engine_core.OutputChain.{
  OfflineRenderPolicy, timed, checked_frame_sum, checked_samples, finish_frame_limit,
}
use audio_engine_core.OutputChain.Collector.{
  Collector, observation_stopped, observation_capacity_frames, push_pre_limiter, finish_loop,
}

-- `RateBoundary`
pub record RateBoundary (F S : Type 0) : Type 0 where
  pub channels : ℕ
  pub resampler : Option S
  pub scratch : List F
  pub input_frames_seen : ℕ

-- What a method leaves: its result, the samples of the source, the boundary, and the collector.
abbrev pub Passed : Type 0 → Type 0 → Type 0
Passed F S = Outcome (Unit {0}) × List F × RateBoundary F S × Collector F S

-- `ProcessBuffers::out_of_place(..)?`
abbrev pub buffers_of : {A : Type 0} → AudioBlock A → AudioBlock A → Outcome (ProcessBuffers A)
buffers_of input output = elim (out_of_place_buffers input output) [
  | ok b ↦ ok b
  | err e ↦ err (invalid_block e)
]

module _ (N : Float) {S : Type 0} (P : StreamingProcessor N.F S) where
  open N use {F}

  unfoldable pub new_boundary : ℕ → Option S → ℕ → Outcome (RateBoundary F S)
  new_boundary channels resampler block_frames = do
    samples ← checked_samples block_frames channels
    ok (record {
      channels = channels;
      resampler = resampler;
      scratch = replicate samples N.zero;
      input_frames_seen = 0;
    })

  -- The buffers of a round of `push`: the input not yet consumed, and what the tail may still take.
  unfoldable pub round_buffers :
      RateBoundary F S → Collector F S → List F → ℕ → Outcome (ProcessBuffers F)
  round_buffers b c source consumed = do
    input ← block_of (drop (consumed * b.channels) source) b.channels
    let capacity = max (observation_capacity_frames c (length b.scratch / b.channels)) 1
    output ← block_of (take (capacity * b.channels) b.scratch) b.channels
    buffers_of input output

  -- What a round of `push` does with what the resampler has left: the frames consumed, if it goes on.
  unfoldable pub take_resampled :
      RateBoundary F S
      → Collector F S
      → Outcome ProcessProgress × List F × S
      → Outcome ℕ × RateBoundary F S × Collector F S
  take_resampled b c (err e, output, s) =
      (err e, record b { resampler = some s; scratch = overwrite b.scratch 0 output }, c)
  take_resampled b c (ok p, output, s) =
      let scratch = overwrite b.scratch 0 output in
      let (pushed, head, c1) =
        push_pre_limiter N P c (take (p.produced_frames * b.channels) scratch) in
      let b1 = record b { resampler = some s; scratch = overwrite scratch 0 head } in
      elim pushed [
        | err e ↦ (err e, b1, c1)
        | ok _ ↦ (elim (checked_frame_sum b.input_frames_seen p.consumed_frames) [
          | err e ↦ (timed (err e), b1, c1)
          | ok seen ↦ (ok p.consumed_frames, record b1 { input_frames_seen = seen }, c1)
        ])
      ]

  unfoldable pub boundary_round :
      RateBoundary F S
      → Collector F S
      → S
      → List F
      → ℕ
      → Outcome ℕ × RateBoundary F S × Collector F S
  boundary_round b c s source consumed = elim (round_buffers b c source consumed) [
    | err e ↦ (err e, b, c)
    | ok buffers ↦ take_resampled b c (process_checked P s buffers)
  ]

  -- The `while` loop of `push`; `none` means that the fuel ran out.
  unfoldable pub boundary_loop :
      ℕ → RateBoundary F S → Collector F S → List F → (consumed frames : ℕ) → Option (Passed F S)
  boundary_loop zero b c source consumed frames = none
  boundary_loop (suc fuel) b c source consumed frames =
      if not (ltb consumed frames) || observation_stopped c
      then some (ok tt, source, b, c)
      else elim b.resampler [
        | none ↦ some (ok tt, source, b, c)
        | some s ↦
            let (outcome, b1, c1) = boundary_round b c s source consumed in
            elim outcome [
              | err e ↦ some (err e, source, b1, c1)
              | ok step ↦ boundary_loop fuel b1 c1 source (consumed + step) frames
            ]
      ]

  -- `RateBoundary::push`
  unfoldable pub push : ℕ → RateBoundary F S → Collector F S → List F → Option (Passed F S)
  push fuel b c source = elim b.resampler [
    | none ↦
        let (outcome, block, c1) = push_pre_limiter N P c source in some (outcome, block, b, c1)
    | some s ↦ (elim (block_of source b.channels) [
      | err e ↦ some (err e, source, b, c)
      | ok input ↦ boundary_loop fuel b c source 0 input.frames
    ])
  ]

  -- `RateBoundary::finish_frame_limit`, with the rates that the resampler converts between
  unfoldable pub boundary_finish_limit :
      (from_rate to_rate : S → ℕ) → RateBoundary F S → OfflineRenderPolicy F → ℕ → Outcome ℕ
  boundary_finish_limit from_rate to_rate b policy block_frames = elim b.resampler [
    | none ↦ ok 1
    | some s ↦
        finish_frame_limit N b.input_frames_seen (from_rate s) (to_rate s)
          (record { latency = P.latency s; tail = P.tail s }) policy block_frames
  ]

  -- A round of `finish`: the resampler renders into the scratch, and its frames are pushed.
  unfoldable pub resampler_round :
      ℕ → S × Collector F S → List F → ℕ → Outcome ProcessProgress × List F × (S × Collector F S)
  resampler_round channels (s, c) scratch capacity =
      elim (block_of (take (capacity * channels) scratch) channels) [
        | err e ↦ (err e, scratch, (s, c))
        | ok block ↦
            let (outcome, rendered, s') = finish_checked P s block in
            let scratch1 = overwrite scratch 0 rendered in
            elim outcome [
              | err e ↦ (err e, scratch1, (s', c))
              | ok p ↦
                  let (pushed, head, c1) =
                    push_pre_limiter N P c (take (p.produced_frames * channels) scratch1) in
                  ((do _ ← pushed; ok p), overwrite scratch1 0 head, (s', c1))
            ]
      ]

  -- `RateBoundary::finish`
  unfoldable pub boundary_finish :
      ℕ
      → RateBoundary F S
      → Collector F S
      → ℕ
      → Option (Outcome (Unit {0}) × RateBoundary F S × Collector F S)
  boundary_finish fuel b c limit = elim b.resampler [
    | none ↦ some (ok tt, b, c)
    | some s ↦
        (elim (finish_loop "Resampler" "resampler finish exceeded its declared bound" b.channels
          (resampler_round b.channels) fuel (s, c) b.scratch 0 limit) [
            | none ↦ none
            | some (outcome, scratch, (s', c')) ↦
                some (outcome, record b { resampler = some s'; scratch = scratch }, c')
          ])
  ]
