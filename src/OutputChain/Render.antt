-- ===== src/OutputChain/Render.antt =====
-- src/processor/output_chain.rs, `OutputRenderChain`: a complete render, block by block, and then the
-- tails of its stages. Not modelled are the reclaims of retired kernels and the limiter's read-outs.
use audio_engine_core.Base.{
  ℕ, zero, suc, ◌+◌, ◌-◌, ◌*◌, ◌/◌, min, Bool, true, false, not, ◌&&◌, Option, none, some, List, [],
  ◌∷◌, leb, ◌==◌, if◌then◌else◌, length, take, drop, overwrite,
}
use audio_engine_core.Base.Results.{ok, err}
use audio_engine_core.Float.{Float}
use audio_engine_core.Traits.{
  ProcessProgress, Outcome, backend, is_finished, unknown_tail, StreamingProcessor,
}
use audio_engine_core.OutputChain.{
  RenderTimeline, compensated, raw_causal, OfflineRenderPolicy, ProcessorTiming, timed,
  checked_frame_sum, finish_frame_limit, source_finish_frame_limit, protected_output_frames,
}
use audio_engine_core.OutputChain.Collector.{
  Collector, observation_stopped, observation_active, begin_observation, end_observation,
  mark_tail_truncated, finish_limiter, finish_noise_shaper,
}
use audio_engine_core.OutputChain.Boundary.{
  RateBoundary, push, boundary_finish_limit, boundary_finish,
}
use audio_engine_core.OutputChain.Sources.{
  OutputStageId, SourcePipeline, SourceStageTiming, process_all, process_after, finish_source,
  stage,
}

-- A part of a render: it changes the state, and ends in a result, or runs out of fuel.
abbrev pub Run : Type 0 → Type 0 → Type 0
Run W A = W → Option (W × Outcome A)

infixl 5 ◌>>=◌ ◌>>◌
abbrev pub ◌>>=◌ : {W A B : Type 0} → Run W A → (A → Run W B) → Run W B
m >>= f =
    λ w. elim (m w) [ none ↦ none | some (w', err e) ↦ some (w', err e) | some (w', ok a) ↦ f a w' ]

abbrev pub ◌>>◌ : {W B : Type 0} → Run W (Unit {0}) → Run W B → Run W B
m >> k = m >>= λ _. k

abbrev pub done : {W A : Type 0} → A → Run W A
done a = λ w. some (w, ok a)

abbrev pub lift : {W A : Type 0} → Outcome A → Run W A
lift r = λ w. some (w, r)

abbrev pub get : {W A : Type 0} → (W → A) → Run W A
get f = λ w. some (w, ok (f w))

abbrev pub modify : {W : Type 0} → (W → W) → Run W (Unit {0})
modify f = λ w. some (f w, ok tt)

-- The stages of a render, with its buffers.
pub record Rendering (F S : Type 0) : Type 0 where
  pub sources : SourcePipeline S
  pub boundary : RateBoundary F S
  pub collector : Collector F S
  pub scratch : List F

-- What a render is given.
pub record Plan (F : Type 0) : Type 0 where
  pub channels : ℕ
  pub source_rate : ℕ
  pub output_rate : ℕ
  pub policy : OfflineRenderPolicy F
  pub block_frames : ℕ
  pub source_timings : List SourceStageTiming
  pub boundary_timing : ProcessorTiming
  pub limiter_timing : ProcessorTiming
  pub shaper_timing : ProcessorTiming

-- How the finish of a source stage was left.
pub data StageEnd : Type 0 where
  terminal policy_stopped limit_reached : StageEnd

-- `samples.chunks(n)`, of at most that many pieces
unfoldable pub pieces : {A : Type 0} → ℕ → ℕ → List A → List (List A)
pieces zero n xs = []
pieces (suc rounds) n [] = []
pieces (suc rounds) n (x ∷ xs) = take n (x ∷ xs) ∷ pieces rounds n (drop n (x ∷ xs))

unfoldable pub timings_only : List SourceStageTiming → List ProcessorTiming
timings_only [] = []
timings_only (t ∷ stages) = t.timing ∷ timings_only stages

module _ (N : Float) {S : Type 0} (P : StreamingProcessor N.F S) where
  open N use {F}

  -- A block from the source stages goes through the rate boundary.
  unfoldable pub push_block : ℕ → List F → Run (Rendering F S) (Unit {0})
  push_block fuel block w = elim (push N P fuel w.boundary w.collector block) [
    | none ↦ none
    | some (outcome, block', b, c) ↦
        some (
          record w { boundary = b; collector = c; scratch = overwrite w.scratch 0 block' },
          outcome,
        )
  ]

  -- A round of the loop over the input
  unfoldable pub render_block : ℕ → List F → Run (Rendering F S) (Unit {0})
  render_block fuel input w =
      let (outcome, block, p) = process_all N P w.sources input in
      let w1 = record w { sources = p; scratch = overwrite w.scratch 0 block } in
      elim outcome [ err e ↦ some (w1, err e) | ok _ ↦ push_block fuel block w1 ]

  unfoldable pub render_input : ℕ → List (List F) → Run (Rendering F S) (Unit {0})
  render_input fuel [] = done tt
  render_input fuel (input ∷ inputs) = do render_block fuel input; render_input fuel inputs

  -- What a stage has rendered goes through the stages behind it.
  unfoldable pub pass_tail : ℕ → OutputStageId → ℕ → Run (Rendering F S) (Unit {0})
  pass_tail fuel id produced w =
      let (outcome, block, p) =
        process_after N P w.sources id (take (produced * w.sources.channels) w.scratch) in
      let w1 = record w { sources = p; scratch = overwrite w.scratch 0 block } in
      if produced == 0
      then some (w, ok tt)
      else elim outcome [ err e ↦ some (w1, err e) | ok _ ↦ push_block fuel block w1 ]

  unfoldable pub finish_stage : OutputStageId → ℕ → Run (Rendering F S) ProcessProgress
  finish_stage id capacity w =
      let (outcome, samples, p) =
        finish_source N P w.sources id (take (capacity * w.sources.channels) w.scratch) in
      some (record w { sources = p; scratch = overwrite w.scratch 0 samples }, outcome)

  -- The loop that renders the tail of a source stage.
  unfoldable pub tail_loop :
      ℕ → OutputStageId → Bool → (block_frames limit generated : ℕ) → Run (Rendering F S) StageEnd
  tail_loop zero id unknown block_frames limit generated w = none
  tail_loop (suc fuel) id unknown block_frames limit generated w =
      let again : ProcessProgress → Run (Rendering F S) StageEnd = λ p. (do
        pass_tail fuel id p.produced_frames
        sum ← lift (timed (checked_frame_sum generated p.produced_frames))
        elim (is_finished p.state) [
          | true ↦ done terminal
          | false ↦ tail_loop fuel id unknown block_frames limit sum
        ]) in
      elim (unknown && observation_stopped w.collector) [
        | true ↦ some (w, ok policy_stopped)
        | false ↦ elim (leb limit generated) [
          | true ↦ some (w, ok limit_reached)
          | false ↦ (do p ← finish_stage id (min block_frames (limit - generated)); again p) w
        ]
      ]

  -- `protected_output_frames` from the stage on; a tail with an end needs none
  unfoldable pub protection : Plan F → ℕ → Bool → Outcome ℕ
  protection plan index unknown =
      if unknown
      then protected_output_frames N (drop index (timings_only plan.source_timings))
          plan.boundary_timing plan.limiter_timing plan.shaper_timing plan.output_rate
      else ok 0

  unfoldable pub start_observation : Plan F → ℕ → Run (Rendering F S) (Unit {0})
  start_observation plan protected w =
      elim (begin_observation N w.collector plan.policy.unknown_tail plan.output_rate protected) [
        | err e ↦ some (w, err e)
        | ok c ↦ some (record w { collector = c }, ok tt)
      ]

  -- What follows the loop, by how it was left.
  unfoldable pub close_stage :
      SourceStageTiming → (unknown started : Bool) → StageEnd → Run (Rendering F S) (Unit {0})
  close_stage stage unknown started policy_stopped = done tt
  close_stage stage unknown started terminal = modify λ w.
      if started && not (observation_stopped w.collector)
      then record w { collector = end_observation w.collector }
      else w
  close_stage stage unknown started limit_reached =
      if unknown
      then modify (λ w. record w { collector = mark_tail_truncated w.collector })
      else lift (err (backend stage.name "finish" "source stage finish exceeded its safety bound"))

  unfoldable pub drain_open : ℕ → Plan F → ℕ → SourceStageTiming → Run (Rendering F S) (Unit {0})
  drain_open fuel plan index stage = do
    let unknown = unknown_tail stage.timing.tail
    protected ← lift (protection plan index unknown)
    started ← get (λ w. unknown && not (observation_active w.collector))
    (if started then start_observation plan protected else done tt)
    limit ← lift (
        source_finish_frame_limit N stage.timing protected plan.source_rate plan.output_rate
          plan.policy plan.block_frames)
    left ← tail_loop fuel stage.id unknown plan.block_frames limit 0
    close_stage stage unknown started left

  -- A source stage in the order of the manifest; once the tail is cut, no open tail is rendered.
  unfoldable pub drain_source : ℕ → Plan F → ℕ → SourceStageTiming → Run (Rendering F S) (Unit {0})
  drain_source fuel plan index stage = do
    skip ← get (λ w. unknown_tail stage.timing.tail && observation_stopped w.collector)
    if skip then done tt else drain_open fuel plan index stage

  unfoldable pub drain_sources :
      ℕ → Plan F → ℕ → List SourceStageTiming → Run (Rendering F S) (Unit {0})
  drain_sources fuel plan index [] = done tt
  drain_sources fuel plan index (stage ∷ stages) = do
    drain_source fuel plan index stage
    drain_sources fuel plan (index + 1) stages

  unfoldable pub drain_boundary : ℕ → ℕ → Run (Rendering F S) (Unit {0})
  drain_boundary fuel limit w = elim (boundary_finish N P fuel w.boundary w.collector limit) [
    | none ↦ none
    | some (outcome, b, c) ↦ some (record w { boundary = b; collector = c }, outcome)
  ]

  unfoldable pub drain_limiter : ℕ → ℕ → Run (Rendering F S) (Unit {0})
  drain_limiter fuel limit w = elim (finish_limiter N P fuel w.collector w.boundary.scratch limit) [
    | none ↦ none
    | some (outcome, scratch, c) ↦
        some (
          record w { collector = c; boundary = record (w.boundary) { scratch = scratch } },
          outcome,
        )
  ]

  unfoldable pub drain_shaper : Run (Rendering F S) (Unit {0})
  drain_shaper w =
      let (outcome, c) = finish_noise_shaper N P w.collector in
      some (record w { collector = c }, outcome)

  -- Everything of a render that goes through the stages, from the first block to the last tail.
  unfoldable pub render_stages :
      ℕ → (from_rate to_rate : S → ℕ) → Plan F → List F → Run (Rendering F S) (Unit {0})
  render_stages fuel from_rate to_rate plan samples = do
    render_input fuel (pieces (length samples) (plan.block_frames * plan.channels) samples)
    drain_sources fuel plan 0 plan.source_timings
    boundary ← get (λ w. w.boundary)
    limit ←
        lift (boundary_finish_limit N P from_rate to_rate boundary plan.policy plan.block_frames)
    drain_boundary fuel limit
    limiter_limit ← lift (
        finish_frame_limit N 0 plan.output_rate plan.output_rate plan.limiter_timing plan.policy
          plan.block_frames)
    drain_limiter fuel limiter_limit
    drain_shaper

-- `output.copy_within` and `truncate`: the latency is trimmed from a compensated timeline.
unfoldable pub trim_timeline :
    {F : Type 0} → RenderTimeline → (latency channels : ℕ) → List F → List F
trim_timeline compensated latency channels output =
    drop (min latency (length output / channels) * channels) output
trim_timeline raw_causal latency channels output = output
