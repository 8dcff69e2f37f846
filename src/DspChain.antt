-- ===== src/DspChain.antt =====
-- src/processor/dsp_chain.rs: processors in series over one block, and how the chain is drained at
-- the end of a stream. The processors are values of `Box<dyn StreamingProcessor>` (any `P`), the
-- samples an abstract `f64`. A method returns its result, the samples it leaves, and the new chain.
pub mod Finish
pub mod Composed
pub mod Moves
pub mod Fits
pub mod Drain
pub mod Ends
pub mod Lifecycle
pub mod Tests
pub mod Segment
use Prim.Native.String.{String}
use audio_engine_core.Base.{
  ℕ, suc, ◌+◌, ◌-◌, ◌*◌, ◌^◌, min, Bool, true, false, not, ◌&&◌, ◌||◌, Option, none, some, List, [],
  ◌∷◌, arith, ltb, leb, ◌==◌, if◌then◌else◌, is_some, is_none, saturating_add, length, get_elem?,
  u64_max,
}
use audio_engine_core.Base.Results.{Result, ok, err, ◌>>=◌, ◌>>◌, refuse}
use audio_engine_core.AudioBlock
use audio_engine_core.AudioBlock.{AudioBlock}
use audio_engine_core.Float.{Float}
use audio_engine_core.Timing.{
  FrameDuration, TailSpec, no_tail, finite, unknown, infinite, zero_sample_rate,
}
use audio_engine_core.Traits.{
  ProcessBuffers, in_place, ProcessState, need_input, ProcessProgress, ProcessError, Outcome,
  invalid_block, invalid_timing, already_finished, invalid_render_policy, invalid_sample_rate,
  backend, progress, with_bypassed, StreamingProcessor, process_checked, validate_sample_rate_hz,
}

-- `ChainFinishPolicy`
pub record ChainFinishPolicy (F : Type 0) : Type 0 where
  pub energy_threshold_dbfs : F
  pub silence_hold_frames : ℕ
  pub max_tail_frames : ℕ

-- `DspChain`
pub record DspChain (F S : Type 0) : Type 0 where
  pub processors : List S
  pub sample_rate_hz : ℕ
  pub finish_stage : ℕ
  pub finish_complete : Bool
  pub finish_policy : Option (ChainFinishPolicy F)
  pub finish_threshold_power : F
  pub finish_unknown_stage : Option ℕ
  pub finish_observation_end_stage : ℕ
  pub finish_protected_frames : ℕ
  pub finish_quiet_frames : ℕ
  pub finish_generated_frames : ℕ
  pub finish_capped : Bool

-- `AudioBlockMut::new(..)?`
abbrev pub block_of : {A : Type 0} → List A → ℕ → Outcome (AudioBlock A)
block_of samples channels = elim (AudioBlock.new samples channels) [
  | ok b ↦ ok b
  | err e ↦ err (invalid_block e)
]

module _ {F S : Type 0} where
  -- the state of the observation at rest, as `empty_state` and the end of a
  -- stage leave them
  abbrev pub clear_observation : DspChain F S → DspChain F S
  clear_observation c = record c {
    finish_unknown_stage = none;
    finish_observation_end_stage = 0;
    finish_protected_frames = 0;
    finish_quiet_frames = 0;
    finish_generated_frames = 0;
  }

  abbrev pub next_stage : DspChain F S → DspChain F S
  next_stage c = clear_observation (record c { finish_stage = c.finish_stage + 1 })

  -- the guard of `process`
  abbrev pub finish_started : DspChain F S → Bool
  finish_started c = is_some c.finish_policy || (ltb 0 c.finish_stage || c.finish_complete)

module _ (N : Float) where
  open N use {F}

  -- `ChainFinishPolicy::validate`
  unfoldable pub validate_policy : ChainFinishPolicy F → Outcome (ChainFinishPolicy F)
  validate_policy p = do
    refuse (not (N.is_finite p.energy_threshold_dbfs) || N.lt N.zero p.energy_threshold_dbfs) (
        invalid_render_policy
          "chain finish energy threshold must be finite and no greater than 0 dBFS")
    refuse (p.silence_hold_frames == 0)
        (invalid_render_policy "chain finish silence hold must be greater than zero")
    refuse (ltb p.max_tail_frames p.silence_hold_frames)
        (invalid_render_policy "chain finish maximum tail must be at least the silence hold")
    ok p

  pub threshold_power : ChainFinishPolicy F → F
  threshold_power p = N.pow10 (N.div p.energy_threshold_dbfs (N.of_ℕ 10))

  module _ {S : Type 0} where
    -- what `reset`, `set_sample_rate` and `clear` do to the finish state
    abbrev pub clear_finish : DspChain F S → DspChain F S
    clear_finish c = clear_observation (record c {
      finish_stage = 0;
      finish_complete = false;
      finish_policy = none;
      finish_threshold_power = N.zero;
      finish_capped = false;
    })

    unfoldable pub new : ℕ → Outcome (DspChain F S)
    new sample_rate_hz = do
      validate_sample_rate_hz "DspChain" sample_rate_hz
      ok (record {
        processors = [];
        sample_rate_hz = sample_rate_hz;
        finish_stage = 0;
        finish_complete = false;
        finish_policy = none;
        finish_threshold_power = N.zero;
        finish_unknown_stage = none;
        finish_observation_end_stage = 0;
        finish_protected_frames = 0;
        finish_quiet_frames = 0;
        finish_generated_frames = 0;
        finish_capped = false;
      })

    unfoldable pub clear : DspChain F S → DspChain F S
    clear c = clear_finish (record c { processors = [] })

  module _ {S : Type 0} (P : StreamingProcessor F S) where
    -- the loop of `process`: each stage rewrites the block, until one fails
    pub process_stages : List S → AudioBlock F → Outcome Bool × List F × List S
    process_stages [] block = (ok true, block.samples, [])
    process_stages (s ∷ stages) block =
        let (outcome, samples, s') = process_checked P s (in_place block) in
        let (rest, samples', stages') =
          process_stages stages (record block { samples = samples }) in
        elim outcome [
          | err e ↦ (err e, samples, s' ∷ stages)
          | ok p ↦ ((do bypassed ← rest; ok (p.bypassed && bypassed)), samples', s' ∷ stages')
        ]

    unfoldable pub process :
        DspChain F S → List F → ℕ → Outcome ProcessProgress × List F × DspChain F S
    process c samples channels =
        if finish_started c
        then (err (already_finished "DspChain"), samples, c)
        else elim (block_of samples channels) [
          | err e ↦ (err e, samples, c)
          | ok block ↦
              let (outcome, samples', stages) = process_stages c.processors block in
              (
                (do
                  all_bypassed ← outcome
                  ok (with_bypassed (progress block.frames block.frames need_input) all_bypassed)),
                samples',
                record c { processors = stages },
              )
        ]

    -- the loop of `reset`: every stage is reset, and the first error kept
    pub reset_stages : List S → Outcome (Unit {0}) × List S
    reset_stages [] = (ok tt, [])
    reset_stages (s ∷ stages) =
        let (first, s') = P.reset s in
        let (rest, stages') = reset_stages stages in
        ((elim first [ ok _ ↦ rest | err e ↦ err e ]), s' ∷ stages')

    unfoldable pub reset : DspChain F S → Outcome (Unit {0}) × DspChain F S
    reset c =
        let (outcome, stages) = reset_stages c.processors in
        (outcome, clear_finish (record c { processors = stages }))

    pub retime_stages : ℕ → List S → Outcome (Unit {0}) × List S
    retime_stages rate [] = (ok tt, [])
    retime_stages rate (s ∷ stages) =
        let (first, s') = P.set_sample_rate s rate in
        let (rest, stages') = retime_stages rate stages in
        ((elim first [ ok _ ↦ rest | err e ↦ err e ]), s' ∷ stages')

    unfoldable pub set_sample_rate : DspChain F S → ℕ → Outcome (Unit {0}) × DspChain F S
    set_sample_rate c rate =
        if rate == 0
        then (err (invalid_sample_rate "DspChain" rate), c)
        else let (outcome, stages) = retime_stages rate c.processors in
          (outcome, clear_finish (record c { processors = stages; sample_rate_hz = rate }))
