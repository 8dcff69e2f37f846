-- ===== src/DspChain/Moves.antt =====
-- How far the parts of a drain round may move the chain.
use audio_engine_core.Base.{
  ℕ, ◌+◌, ◌≤◌, ◌<◌, ◌≡◌, ◌⊎◌, Bool, Option, none, some, List, [], ◌∷◌, arith, leb, ◌==◌,
  if◌then◌else◌, is_none, unwrap_or, ◌&&◌, length, drop, overwrite, length-overwrite,
}
use audio_engine_core.Base.Results.{ok, err}
use audio_engine_core.Float.{Float}
use audio_engine_core.Traits.{Outcome, in_place, StreamingProcessor, process_checked}
use audio_engine_core.DspChain.{DspChain, block_of}
use audio_engine_core.DspChain.Finish.{observe_finish_energy, arm_unknown, allowance, pass_on}
use audio_engine_core.DspChain.Segment.{close_observation, render_segment}

-- What the observation leaves alone.
pub record SameStages {F S : Type 0} (c c' : DspChain F S) : Type 0 where
  pub stages : c'.processors ≡ c.processors
  pub stage : c'.finish_stage ≡ c.finish_stage
  pub complete : c'.finish_complete ≡ c.finish_complete
  pub policy : c'.finish_policy ≡ c.finish_policy

module _ (N : Float) {S : Type 0} where
  open N use {F}

  observe-SameStages :
      (c : DspChain F S) (samples : List F) (channels frames : ℕ)
      → SameStages c (observe_finish_energy N c samples channels frames).1
  unfolding observe_finish_energy
  observe-SameStages c samples channels frames = ground arith

module _ (N : Float) {S : Type 0} (P : StreamingProcessor N.F S) where
  open N use {F}

  pub arm_unknown-SameStages :
      (c : DspChain F S) (unknown : Bool) → SameStages c (arm_unknown N P c unknown).1
  unfolding arm_unknown
  arm_unknown-SameStages c unknown = ground arith

  pass_on-SameStages :
      (unknown : Bool) (channels frames index : ℕ) (seen : Option (Bool × ℕ)) (c : DspChain F S)
      (samples : List F) (stages : List S)
      → let r = pass_on N P unknown channels frames index seen c samples stages in
        (length r.2 ≡ length stages) × SameStages c r.3
  unfolding pass_on
  pass_on-SameStages unknown channels frames index seen c samples [] = ground arith
  pass_on-SameStages unknown channels frames index seen c samples (s ∷ stages) = ground (
    arith,
    observe-SameStages N c samples channels frames,
    pass_on-SameStages unknown channels frames (index + 1) (if here then some now.0 else seen)
        (if here then now.1 else c) handed stages,
  )
    where
      here : Bool
      here = unknown && (is_none seen && index == c.finish_observation_end_stage)

      now : (Bool × ℕ) × DspChain F S
      now = observe_finish_energy N c samples channels frames

      handed : List F
      handed = elim (block_of samples channels) [
        | ok block ↦ (process_checked P s (in_place block)).1
        | err e ↦ samples
      ]

  pub allowance-le :
      (c : DspChain F S) (unknown : Bool) (room : ℕ) {n : ℕ}
      → allowance N P c unknown room ≡ ok n
      → n ≤ room
  unfolding allowance
  allowance-le c unknown room e = ground arith

  -- A segment moves the chain to its next stage at most.
  pub record Moved (c c' : DspChain F S) : Type 0 where
    pub complete : c'.finish_complete ≡ c.finish_complete
    pub policy : c'.finish_policy ≡ c.finish_policy
    pub stages : length c'.processors ≡ length c.processors
    pub stage : (c'.finish_stage ≡ c.finish_stage) ⊎ (c'.finish_stage ≡ c.finish_stage + 1)

  close-Moved : (c : DspChain F S) (o : Bool × ℕ) → Moved c (close_observation N P c o).1
  unfolding close_observation
  close-Moved c o = ground arith

  pub render-Moved :
      (c : DspChain F S) (stage : ℕ) (unknown : Bool) (segment : List F) (channels produced : ℕ)
      → stage < length c.processors
      → Moved c (render_segment N P c stage unknown segment channels produced).2
  unfolding render_segment
  render-Moved c stage unknown segment channels produced h = ground (
    arith,
    observe-SameStages N c segment channels produced,
    pass_on-SameStages unknown channels produced (stage + 1) (if early then some now.0 else none)
        (if early then now.1 else c) segment (drop (stage + 1) c.processors),
    observe-SameStages N composed rendered.1 channels produced,
    length-overwrite c.processors (stage + 1) rendered.2,
    close-Moved (if is_none observed then late.1 else composed) (unwrap_or observed late.0),
  )
    where
      now : (Bool × ℕ) × DspChain F S
      now = observe_finish_energy N c segment channels produced

      early : Bool
      early = unknown && leb c.finish_observation_end_stage (stage + 1)

      rendered : Outcome (Option (Bool × ℕ)) × List F × List S × DspChain F S
      rendered =
          pass_on N P unknown channels produced (stage + 1) (if early then some now.0 else none)
            (if early then now.1 else c) segment (drop (stage + 1) c.processors)

      composed : DspChain F S
      composed = record (rendered.3) { processors = overwrite c.processors (stage + 1) rendered.2 }

      late : (Bool × ℕ) × DspChain F S
      late = observe_finish_energy N composed rendered.1 channels produced

      observed : Option (Bool × ℕ)
      observed = elim rendered.0 [ ok seen ↦ seen | err e ↦ none ]
