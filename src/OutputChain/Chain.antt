-- ===== src/OutputChain/Chain.antt =====
-- src/processor/output_chain.rs, `OutputRenderChain`: the checks before a render, its set-up, and
-- its result.
use audio_engine_core.Base.{
  ℕ, ◌*◌, ◌/◌, Bool, Option, none, some, List, [], ◌∷◌, ◌++◌, ◌==◌, if◌then◌else◌, length,
  replicate,
}
use audio_engine_core.Base.Results.{refuse, ok, err}
use audio_engine_core.Float.{Float}
use audio_engine_core.Timing.{ceil, duration_zero, duration_new, rounded_frames_at_rate, no_tail}
use audio_engine_core.Traits.{
  Outcome, invalid_render_policy, sample_rate_mismatch, StreamingProcessor,
}
use audio_engine_core.DspChain.{block_of}
use audio_engine_core.OutputChain.{
  OfflineRenderPolicy, ProcessorTiming, RenderTiming, no_timing, observe_values, timed,
  checked_frame_sum, checked_samples, frames_for_milliseconds, validate_render_policy,
  rounded_duration_sum, latency_frames, finite_tail_frames,
}
use audio_engine_core.OutputChain.Collector.{new_collector, into_output, process_fixed_stage}
use audio_engine_core.OutputChain.Boundary.{new_boundary}
use audio_engine_core.OutputChain.Sources.{
  OutputStageId, SourcePipeline, process_all, timings, stage, set_stage, source_ids, manifest,
}
use audio_engine_core.OutputChain.Render.{
  Run, ◌>>=◌, ◌>>◌, done, lift, get, Rendering, Plan, render_stages, trim_timeline, timings_only,
}

-- `OutputRenderChain`
pub record RenderChain (F S : Type 0) : Type 0 where
  pub channels : ℕ
  pub source_sample_rate : ℕ
  pub output_sample_rate : ℕ
  pub sources : SourcePipeline S
  pub limiter : S
  pub resampler : Option S
  pub noise_shaper : S
  pub default_policy : OfflineRenderPolicy F

-- `RenderedOutput`, without the read-outs of the limiter
pub record RenderedOutput (F : Type 0) : Type 0 where
  pub samples : List F
  pub rendered_frames : ℕ
  pub algorithmic_latency_frames : ℕ
  pub semantic_tail_frames : ℕ
  pub tail_truncated : Bool

unfoldable pub observe_all : RenderTiming → List ProcessorTiming → RenderTiming
observe_all t [] = t
observe_all t (stage ∷ stages) = observe_all (observe_values t stage) stages

-- `first_error`, after a further reset
abbrev pub keep_first : Outcome (Unit {0}) → Outcome (Unit {0}) → Outcome (Unit {0})
keep_first (ok _) next = next
keep_first (err e) next = err e

module _ (N : Float) {S : Type 0} (P : StreamingProcessor N.F S) where
  open N use {F}

  unfoldable pub reset_sources :
      List OutputStageId → SourcePipeline S → Outcome (Unit {0}) × SourcePipeline S
  reset_sources [] p = (ok tt, p)
  reset_sources (id ∷ ids) p =
      let (first, s) = P.reset (stage id p) in
      let (rest, p1) = reset_sources ids (set_stage id s p) in (keep_first first rest, p1)

  unfoldable pub reset_resampler : Option S → Outcome (Unit {0}) × Option S
  reset_resampler none = (ok tt, none)
  reset_resampler (some s) = let (outcome, s') = P.reset s in (outcome, some s')

  -- `reset_for_render`: every stage is reset, in the order of the manifest.
  unfoldable pub reset_for_render : Run (RenderChain F S) (Unit {0})
  reset_for_render c =
      let (first, p) = reset_sources (source_ids manifest) c.sources in
      let (second, r) = reset_resampler c.resampler in
      let (third, l) = P.reset c.limiter in
      let (fourth, n) = P.reset c.noise_shaper in
      some (
        record c { sources = p; resampler = r; limiter = l; noise_shaper = n },
        keep_first first (keep_first second (keep_first third fourth)),
      )

  unfoldable pub retime_sources :
      List OutputStageId → ℕ → SourcePipeline S → Outcome (Unit {0}) × SourcePipeline S
  retime_sources [] rate p = (ok tt, p)
  retime_sources (id ∷ ids) rate p =
      let (outcome, s) = P.set_sample_rate (stage id p) rate in
      let p1 = set_stage id s p in
      elim outcome [ err e ↦ (err e, p1) | ok _ ↦ retime_sources ids rate p1 ]

  -- `set_source_sample_rate`
  unfoldable pub set_source_sample_rate : ℕ → Run (RenderChain F S) (Unit {0})
  set_source_sample_rate rate c =
      let (outcome, p) = retime_sources (source_ids manifest) rate c.sources in
      some (record c { sources = p }, outcome)

  -- Calls on no frames, by which the stages take up the newest parameters.
  unfoldable pub sync_sources : Run (RenderChain F S) (Unit {0})
  sync_sources c =
      let (outcome, block, p) = process_all N P c.sources [] in
      some (record c { sources = p }, outcome)

  unfoldable pub sync_limiter : Run (RenderChain F S) (Unit {0})
  sync_limiter c =
      let (outcome, block, s) = process_fixed_stage N P c.limiter [] c.channels in
      some (record c { limiter = s }, elim outcome [ ok p ↦ ok tt | err e ↦ err e ])

  unfoldable pub sync_shaper : Run (RenderChain F S) (Unit {0})
  sync_shaper c =
      let (outcome, block, s) = process_fixed_stage N P c.noise_shaper [] c.channels in
      some (record c { noise_shaper = s }, elim outcome [ ok p ↦ ok tt | err e ↦ err e ])

  -- The rate behind the rate boundary.
  unfoldable pub boundary_output_rate : RenderChain F S → Outcome ℕ
  boundary_output_rate c = elim c.resampler [
    | none ↦ ok c.source_sample_rate
    | some s ↦ P.output_sample_rate_hz s c.source_sample_rate
  ]

  unfoldable pub timing_of : S → ProcessorTiming
  timing_of s = record { latency = P.latency s; tail = P.tail s }

  unfoldable pub boundary_timing_of : Option S → ProcessorTiming
  boundary_timing_of none = record { latency = duration_zero; tail = no_tail }
  boundary_timing_of (some s) = timing_of s

  abbrev pub plan_of : RenderChain F S → OfflineRenderPolicy F → ℕ → Plan F
  plan_of c policy block_frames = record {
    channels = c.channels;
    source_rate = c.source_sample_rate;
    output_rate = c.output_sample_rate;
    policy = policy;
    block_frames = block_frames;
    source_timings = timings N P c.sources;
    boundary_timing = boundary_timing_of c.resampler;
    limiter_timing = timing_of c.limiter;
    shaper_timing = timing_of c.noise_shaper;
  }

  -- The timing of all stages.
  unfoldable pub render_timing : Plan F → RenderTiming
  render_timing plan = observe_all no_timing (
      timings_only plan.source_timings
      ++ plan.boundary_timing ∷ plan.limiter_timing ∷ plan.shaper_timing ∷ [])

  -- The estimate of the output's samples, which reserves its memory, or fails.
  unfoldable pub estimated_samples : Plan F → ℕ → RenderTiming → Run (RenderChain F S) (Unit {0})
  estimated_samples plan nominal timing = do
    latency ← lift (rounded_duration_sum N timing.latencies plan.output_rate ceil)
    tail ← lift (finite_tail_frames N timing plan.output_rate)
    hold ← lift (
        if timing.has_unknown_tail
        then timed
            (frames_for_milliseconds plan.policy.unknown_tail.silence_hold_ms plan.output_rate)
        else ok 0)
    a ← lift (timed (checked_frame_sum nominal latency))
    b ← lift (timed (checked_frame_sum a tail))
    frames ← lift (timed (checked_frame_sum b hold))
    samples ← lift (checked_samples frames plan.channels)
    done tt

  -- The chain lends its stages to the render, and gets them back.
  unfoldable pub with_stages :
      ℕ → Run (Rendering F S) (Unit {0}) → Run (RenderChain F S) (List F × Bool)
  with_stages block_frames body c = elim (new_boundary N P c.channels c.resampler block_frames) [
    | err e ↦ some (c, err e)
    | ok b ↦
        (elim (body (record {
          sources = c.sources;
          boundary = b;
          collector = new_collector c.channels c.limiter c.noise_shaper;
          scratch = replicate (block_frames * c.channels) N.zero;
        })) [
          | none ↦ none
          | some (w, outcome) ↦ some (
            record c {
              sources = w.sources;
              resampler = w.boundary.resampler;
              limiter = w.collector.limiter;
              noise_shaper = w.collector.noise_shaper;
            },
            elim outcome [ err e ↦ err e | ok _ ↦ ok (into_output w.collector) ],
          )
        ])
  ]

  -- `render_with_policy_and_block_frames`, with fuel for its loops
  unfoldable pub render_with_block_frames :
      (fuel : ℕ)
      → (from_rate to_rate : S → ℕ) → List F
      → OfflineRenderPolicy F
      → ℕ
      → Run (RenderChain F S) (RenderedOutput F)
  render_with_block_frames fuel from_rate to_rate samples policy block_frames = do
    c ← get (λ c. c)
    lift (
        refuse (block_frames == 0)
          (invalid_render_policy "offline block size must be greater than zero"))
    policy ← lift (validate_render_policy N policy)
    source ← lift (block_of samples c.channels)
    reset_for_render
    c1 ← get (λ c. c)
    boundary_rate ← lift (boundary_output_rate c1)
    (if boundary_rate == c1.output_sample_rate
        then done tt
        else lift
            (err (sample_rate_mismatch "OutputRenderChain" c1.output_sample_rate boundary_rate)))
    scratch_samples ← lift (checked_samples block_frames c1.channels)
    duration ← lift (timed (duration_new source.frames c1.source_sample_rate))
    nominal ← lift (timed (rounded_frames_at_rate duration c1.output_sample_rate ceil))
    sync_sources
    sync_limiter
    sync_shaper
    reset_for_render
    c2 ← get (λ c. c)
    let plan = plan_of c2 policy block_frames
    let timing = render_timing plan
    estimated_samples plan nominal timing
    rendered ← with_stages block_frames (render_stages N P fuel from_rate to_rate plan samples)
    latency ← lift (latency_frames N timing plan.output_rate)
    tail ← lift (finite_tail_frames N timing plan.output_rate)
    let output = trim_timeline policy.timeline latency c2.channels rendered.0
    done (record {
      samples = output;
      rendered_frames = length output / c2.channels;
      algorithmic_latency_frames = latency;
      semantic_tail_frames = tail;
      tail_truncated = rendered.1;
    })
