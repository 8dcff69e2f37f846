-- ===== src/OutputChain/Sources.antt =====
-- src/processor/output_chain.rs: the manifest of stages, what its macros expand to, and
-- `SourcePipeline`, the stages before the rate boundary.
use Prim.Native.String.{String}
use audio_engine_core.Base.{ℕ, ◌+◌, Bool, true, false, List, [], ◌∷◌, ◌==◌, if◌then◌else◌}
use audio_engine_core.Base.Results.{ok, err, ◌>>=◌}
use audio_engine_core.Traits.{ProcessProgress, Outcome, backend, StreamingProcessor, finish_checked}
use audio_engine_core.Float.{Float}
use audio_engine_core.DspChain.{block_of}
use audio_engine_core.OutputChain.{ProcessorTiming}
use audio_engine_core.OutputChain.Collector.{process_fixed_stage}

-- `OutputStageId`
pub data OutputStageId : Type 0 where
  volume equalizer saturation crossfeed convolver dynamic_loudness peak_limiter resampler
        noise_shaper quantize :
      OutputStageId

-- the role of a stage in `output_stage_manifest`
pub data Role : Type 0 where
  source rate_boundary output terminal : Role

-- An entry of `output_stage_manifest`, without the note on its latency.
pub record Entry : Type 0 where
  pub id : OutputStageId
  pub name : String
  pub role : Role
  pub callback : Bool
  pub carries_state : Bool
  pub introduces_latency : Bool

abbrev pub entry : OutputStageId → String → Role → Bool → Bool → Bool → Entry
entry id name role callback carries introduces = record {
  id = id;
  name = name;
  role = role;
  callback = callback;
  carries_state = carries;
  introduces_latency = introduces;
}

-- `output_stage_manifest`
abbrev pub manifest : List Entry
manifest =
    entry volume "Volume" source true true false
    ∷ entry equalizer "Equalizer" source true true false
    ∷ entry saturation "Saturation" source true true true
    ∷ entry crossfeed "Crossfeed" source true true false
    ∷ entry convolver "Convolver" source true true false
    ∷ entry dynamic_loudness "DynamicLoudness" source true true false
    ∷ entry resampler "Resampler" rate_boundary false true false
    ∷ entry peak_limiter "PeakLimiter" output true true true
    ∷ entry noise_shaper "NoiseShaper" output true true false
    ∷ entry quantize "Quantize" terminal false false false
    ∷ []

-- `callback_stage_count`
unfoldable pub count_callback : List Entry → ℕ
count_callback [] = 0
count_callback (e ∷ entries) =
    if e.callback then 1 + count_callback entries else count_callback entries

-- the filter of `callback_stage_names`
unfoldable pub callback_names : List Entry → List String
callback_names [] = []
callback_names (e ∷ entries) =
    let rest = callback_names entries in if e.callback then e.name ∷ rest else rest

abbrev pub is_source : Role → Bool
is_source source = true
is_source _ = false

-- the arms of `process_source_stage` and of its kin: a source stage expands to a step
unfoldable pub source_ids : List Entry → List OutputStageId
source_ids [] = []
source_ids (e ∷ entries) =
    let rest = source_ids entries in if is_source e.role then e.id ∷ rest else rest

-- `==` on `OutputStageId`
abbrev pub number : OutputStageId → ℕ
number volume = 0
number equalizer = 1
number saturation = 2
number crossfeed = 3
number convolver = 4
number dynamic_loudness = 5
number peak_limiter = 6
number resampler = 7
number noise_shaper = 8
number quantize = 9

abbrev pub same_id : OutputStageId → OutputStageId → Bool
same_id a b = number a == number b

-- `SourcePipeline`
pub record SourcePipeline (S : Type 0) : Type 0 where
  pub channels : ℕ
  pub volume_stage : S
  pub eq_stage : S
  pub saturation_stage : S
  pub crossfeed_stage : S
  pub convolver_stage : S
  pub dynamic_loudness_stage : S

-- the fields that the manifest names, read and written; no other stage is a source
unfoldable pub stage : {S : Type 0} → OutputStageId → SourcePipeline S → S
stage volume p = p.volume_stage
stage equalizer p = p.eq_stage
stage saturation p = p.saturation_stage
stage crossfeed p = p.crossfeed_stage
stage convolver p = p.convolver_stage
stage _ p = p.dynamic_loudness_stage

unfoldable pub set_stage : {S : Type 0} → OutputStageId → S → SourcePipeline S → SourcePipeline S
set_stage volume s p = record p { volume_stage = s }
set_stage equalizer s p = record p { eq_stage = s }
set_stage saturation s p = record p { saturation_stage = s }
set_stage crossfeed s p = record p { crossfeed_stage = s }
set_stage convolver s p = record p { convolver_stage = s }
set_stage _ s p = record p { dynamic_loudness_stage = s }

-- `SourceStageTiming`
pub record SourceStageTiming : Type 0 where
  pub id : OutputStageId
  pub name : String
  pub timing : ProcessorTiming

-- What a method leaves: its result, the samples of the buffer, and the stages.
abbrev pub Staged : Type 0 → Type 0 → Type 0
Staged F S = Outcome (Unit {0}) × List F × SourcePipeline S

module _ (N : Float) {S : Type 0} (P : StreamingProcessor N.F S) where
  open N use {F}

  unfoldable pub process_ids : List OutputStageId → SourcePipeline S → List F → Staged F S
  process_ids [] p buffer = (ok tt, buffer, p)
  process_ids (id ∷ ids) p buffer =
      let (outcome, samples, s) = process_fixed_stage N P (stage id p) buffer p.channels in
      let p1 = set_stage id s p in
      elim outcome [ err e ↦ (err e, samples, p1) | ok _ ↦ process_ids ids p1 samples ]

  -- `SourcePipeline::process_all`
  abbrev pub process_all : SourcePipeline S → List F → Staged F S
  process_all p buffer = process_ids (source_ids manifest) p buffer

  -- The steps of `process_source_stages_after`, with whether the target was met.
  unfoldable pub process_past :
      List OutputStageId
      → OutputStageId
      → Bool
      → SourcePipeline S
      → List F
      → Outcome Bool × List F × SourcePipeline S
  process_past [] target found p buffer = (ok found, buffer, p)
  process_past (id ∷ ids) target true p buffer =
      let (outcome, samples, s) = process_fixed_stage N P (stage id p) buffer p.channels in
      let p1 = set_stage id s p in
      elim outcome [ err e ↦ (err e, samples, p1) | ok _ ↦ process_past ids target true p1 samples ]
  process_past (id ∷ ids) target false p buffer =
      process_past ids target (same_id target id) p buffer

  -- `SourcePipeline::process_after`
  unfoldable pub process_after : SourcePipeline S → OutputStageId → List F → Staged F S
  process_after p target buffer =
      let (outcome, samples, p1) = process_past (source_ids manifest) target false p buffer in
      (
        (do
          found ← outcome
          if found
              then ok tt
              else err (
                  backend "OutputRenderChain" "process source tail"
                    "source finish stage is absent from the canonical manifest")),
        samples,
        p1,
      )

  unfoldable pub finish_id :
      List OutputStageId
      → SourcePipeline S
      → OutputStageId
      → List F
      → Outcome ProcessProgress × List F × SourcePipeline S
  finish_id [] p target scratch = (
    err (
        backend "OutputRenderChain" "finish source stage"
          "source finish stage is absent from the canonical manifest"),
    scratch,
    p,
  )
  finish_id (id ∷ ids) p target scratch =
      let rest = finish_id ids p target scratch in
      if same_id target id
      then (elim (block_of scratch p.channels) [
        | err e ↦ (err e, scratch, p)
        | ok block ↦
            let (outcome, samples, s) = finish_checked P (stage id p) block in
            (outcome, samples, set_stage id s p)
      ])
      else rest

  -- `SourcePipeline::finish`
  abbrev pub finish_source :
      SourcePipeline S
      → OutputStageId
      → List F
      → Outcome ProcessProgress × List F × SourcePipeline S
  finish_source p target scratch = finish_id (source_ids manifest) p target scratch

  unfoldable pub timings_of : List Entry → SourcePipeline S → List SourceStageTiming
  timings_of [] p = []
  timings_of (e ∷ entries) p =
      let rest = timings_of entries p in
      if is_source e.role
      then record {
        id = e.id;
        name = e.name;
        timing = record { latency = P.latency (stage e.id p); tail = P.tail (stage e.id p) };
      }
        ∷ rest
      else rest

  -- `SourcePipeline::timings`
  abbrev pub timings : SourcePipeline S → List SourceStageTiming
  timings p = timings_of manifest p
