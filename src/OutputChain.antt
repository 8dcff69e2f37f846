-- ===== src/OutputChain.antt =====
-- src/processor/output_chain.rs: the offline renderer. This file has its policies, and the frame
-- counts that it derives from the timing of the stages.
pub mod Tail
pub mod Chunks
pub mod Quiet
pub mod Observed
pub mod Blocks
pub mod Collector
pub mod Budget
pub mod Collected
pub mod Rounds
pub mod Boundary
pub mod Room
pub mod Pushes
pub mod Exhausting
pub mod Doubler
pub mod Sources
pub mod Behind
pub mod Render
pub mod Fitting
pub mod Drained
pub mod Limits
pub mod Returned
pub mod Drains
pub mod Rendered
pub mod Chain
pub mod Checked
pub mod Offline
pub mod Tails
pub mod Tests
use audio_engine_core.Base.{
  ℕ, ◌+◌, ◌*◌, ◌^◌, max, Bool, true, false, not, ◌||◌, Option, none, some, List, [], ◌∷◌, ◌++◌,
  arith, ltb, ◌==◌, if◌then◌else◌, u64_max,
}
use audio_engine_core.Base.Results.{Result, ok, err, ◌>>=◌, ◌>>◌, refuse}
use audio_engine_core.Float.{Float}
use audio_engine_core.Timing.{
  TimingError, zero_sample_rate, frame_count_overflow, FrameRounding, floor, nearest, ceil,
  FrameDuration, duration_new, div_ceil, fit_usize, rounded_frames_at_rate, TailSpec, no_tail,
  finite, unknown, infinite, finite_duration,
}
use audio_engine_core.Traits.{Outcome, invalid_timing, invalid_render_policy, unknown_tail}
use audio_engine_core.DspChain.Finish.{frames_at_rate}

-- `RenderTimeline`
pub data RenderTimeline : Type 0 where
  compensated raw_causal : RenderTimeline

-- `UnknownTailPolicy`
pub record UnknownTailPolicy (F : Type 0) : Type 0 where
  pub energy_threshold_dbfs : F
  pub silence_hold_ms : ℕ
  pub max_tail_ms : ℕ

-- `OfflineRenderPolicy`
pub record OfflineRenderPolicy (F : Type 0) : Type 0 where
  pub timeline : RenderTimeline
  pub unknown_tail : UnknownTailPolicy F

-- The conversion of a `TimingError` by `?`.
abbrev pub timed : {A : Type 0} → Result TimingError A → Outcome A
timed (ok a) = ok a
timed (err e) = err (invalid_timing e)

unfoldable pub checked_frame_sum : ℕ → ℕ → Result TimingError ℕ
checked_frame_sum left right = fit_usize (left + right)

-- `checked_mul(..).ok_or(FrameCountOverflow)?`
unfoldable pub checked_samples : ℕ → ℕ → Outcome ℕ
checked_samples frames channels = timed (fit_usize (frames * channels))

unfoldable pub frames_for_milliseconds : ℕ → ℕ → Result TimingError ℕ
frames_for_milliseconds milliseconds rate = do
  refuse (rate == 0) zero_sample_rate
  fit_usize (div_ceil (milliseconds * rate) 1000)

-- `ProcessorTiming`
pub record ProcessorTiming : Type 0 where
  pub latency : FrameDuration
  pub tail : TailSpec

-- The frames of the finite tail at a rate, and none for a tail without an end.
unfoldable pub finite_tail_at : TailSpec → ℕ → Result TimingError ℕ
finite_tail_at tail rate = elim (finite_duration tail) [
  | none ↦ ok 0
  | some d ↦ rounded_frames_at_rate d rate ceil
]

-- `RenderTiming`
pub record RenderTiming : Type 0 where
  pub latencies : List FrameDuration
  pub finite_tails : List FrameDuration
  pub has_unknown_tail : Bool

abbrev pub no_timing : RenderTiming
no_timing = record { latencies = []; finite_tails = []; has_unknown_tail = false }

unfoldable pub observe_values : RenderTiming → ProcessorTiming → RenderTiming
observe_values t stage =
    let t1 = record t { latencies = t.latencies ++ stage.latency ∷ [] } in
    elim stage.tail [
      | no_tail ↦ t1
      | finite d ↦ record t1 { finite_tails = t.finite_tails ++ d ∷ [] }
      | unknown ↦ record t1 { has_unknown_tail = true }
      | infinite ↦ record t1 { has_unknown_tail = true }
    ]

unfoldable pub append_protected_durations :
    List FrameDuration → ProcessorTiming → List FrameDuration
append_protected_durations durations timing = elim timing.tail [
  | finite d ↦ durations ++ timing.latency ∷ d ∷ []
  | _ ↦ durations ++ timing.latency ∷ []
]

module _ (N : Float) where
  open N use {F}

  -- `UnknownTailPolicy::default`, `OfflineRenderPolicy::default` and `raw_causal`
  abbrev pub default_unknown_tail : UnknownTailPolicy F
  default_unknown_tail = record {
    energy_threshold_dbfs = N.sub N.zero (N.of_ℕ 120);
    silence_hold_ms = 250;
    max_tail_ms = 30000;
  }

  abbrev pub default_render_policy : OfflineRenderPolicy F
  default_render_policy = record { timeline = compensated; unknown_tail = default_unknown_tail }

  abbrev pub raw_causal_policy : OfflineRenderPolicy F
  raw_causal_policy = record default_render_policy { timeline = raw_causal }

  -- `OfflineRenderPolicy::validate`
  unfoldable pub validate_render_policy : OfflineRenderPolicy F → Outcome (OfflineRenderPolicy F)
  validate_render_policy p = do
    refuse
        (not (N.is_finite p.unknown_tail.energy_threshold_dbfs)
          || N.lt N.zero p.unknown_tail.energy_threshold_dbfs)
        (invalid_render_policy "energy threshold must be finite and no greater than 0 dBFS")
    refuse (p.unknown_tail.silence_hold_ms == 0)
        (invalid_render_policy "silence hold must be greater than zero")
    refuse (ltb p.unknown_tail.max_tail_ms p.unknown_tail.silence_hold_ms)
        (invalid_render_policy "maximum tail must be at least the silence hold duration")
    ok p

  unfoldable pub sum_durations : F → List FrameDuration → ℕ → Outcome F
  sum_durations total [] rate = ok total
  sum_durations total (d ∷ durations) rate = do
    frames ← frames_at_rate N d rate
    sum_durations (N.add total frames) durations rate

  unfoldable pub round_total : FrameRounding → F → F
  round_total floor total = N.floor_of total
  round_total nearest total = N.floor_of (N.add total (N.div N.one (N.of_ℕ 2)))
  round_total ceil total = N.ceil_of total

  -- `rounded_duration_sum`, its error converted as its callers do
  unfoldable pub rounded_duration_sum : List FrameDuration → ℕ → FrameRounding → Outcome ℕ
  rounded_duration_sum durations rate rounding = do
    total ← sum_durations N.zero durations rate
    let rounded = round_total rounding total
    refuse (not (N.is_finite rounded) || (N.lt rounded N.zero || N.lt (N.of_ℕ u64_max) rounded))
        (invalid_timing frame_count_overflow)
    ok (N.to_usize rounded)

  -- `RenderTiming::latency_frames`, `finite_tail_frames`
  abbrev pub latency_frames : RenderTiming → ℕ → Outcome ℕ
  latency_frames t rate = rounded_duration_sum t.latencies rate nearest

  abbrev pub finite_tail_frames : RenderTiming → ℕ → Outcome ℕ
  finite_tail_frames t rate = rounded_duration_sum t.finite_tails rate ceil

  unfoldable pub finish_frame_limit :
      (input_frames input_rate output_rate : ℕ)
      → ProcessorTiming
      → OfflineRenderPolicy F
      → ℕ
      → Outcome ℕ
  finish_frame_limit input_frames input_rate output_rate timing policy block_frames = timed (do
    input ← duration_new input_frames input_rate
    converted_input ← rounded_frames_at_rate input output_rate ceil
    latency ← rounded_frames_at_rate timing.latency output_rate ceil
    tail ← finite_tail_at timing.tail output_rate
    declared ← checked_frame_sum latency tail
    limit ←
        (if unknown_tail timing.tail
          then (do
            most ← frames_for_milliseconds policy.unknown_tail.max_tail_ms output_rate
            checked_frame_sum most latency)
          else (do
            heard ← checked_frame_sum converted_input declared
            checked_frame_sum heard block_frames))
    ok (max limit 1))

  unfoldable pub source_finish_frame_limit :
      ProcessorTiming
      → (protected source_rate output_rate : ℕ) → OfflineRenderPolicy F
      → ℕ
      → Outcome ℕ
  source_finish_frame_limit timing protected source_rate output_rate policy block_frames = timed (do
    latency ← rounded_frames_at_rate timing.latency source_rate ceil
    tail ← finite_tail_at timing.tail source_rate
    declared ← checked_frame_sum latency tail
    limit ←
        (if unknown_tail timing.tail
          then (do
            most ← frames_for_milliseconds policy.unknown_tail.max_tail_ms source_rate
            shield ← duration_new protected output_rate
            shield_frames ← rounded_frames_at_rate shield source_rate ceil
            sum ← checked_frame_sum most shield_frames
            checked_frame_sum sum block_frames)
          else checked_frame_sum declared block_frames)
    ok (max limit 1))

  unfoldable pub protect_from : List FrameDuration → List ProcessorTiming → List FrameDuration
  protect_from durations [] = durations
  protect_from durations (t ∷ timings) =
      protect_from (append_protected_durations durations t) timings

  -- `protected_output_frames`: `source` are the timings from the stage on
  unfoldable pub protected_output_frames :
      List ProcessorTiming → (boundary limiter shaper : ProcessorTiming) → ℕ → Outcome ℕ
  protected_output_frames source boundary limiter shaper rate =
      rounded_duration_sum (protect_from [] (source ++ boundary ∷ limiter ∷ shaper ∷ [])) rate ceil
