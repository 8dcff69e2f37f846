-- ===== src/Pipeline/Steps.antt =====
-- A pipeline in the hands of its callback while controllers publish requests: the steps in any
-- order, and what every pipeline that they reach guarantees. The callback reads the request once in
-- a block, so that one published during a block counts as published after it.
use audio_engine_core.Base.{
  ℕ, ◌-◌, ◌≤◌, ◌<◌, ◌≡◌, ◌≢◌, sym, subst, ◌∙◌, false, some, List, arith, length, replicate,
}
use audio_engine_core.Base.Results.{ok}
use mathlib.Core.Option.{some_inj}
use audio_engine_core.Float.{Float}
use audio_engine_core.Traits.{ProcessProgress, Outcome, StreamingProcessor, progress, need_input}
use audio_engine_core.DspChain.{DspChain, ChainFinishPolicy, finish_started}
use audio_engine_core.DspChain.Lifecycle.{reset_lem}
use audio_engine_core.Pipeline.{
  draining, idle, as_code, new_channel, publish, requested, take_newer_than,
}
use audio_engine_core.Pipeline.Callback.{
  CallbackSpec, PlaybackPipeline, frames_in, validate_samples, assemble, consume_lifecycle_request,
  apply_stop_ramp, process_in_state, process, reset,
}
use audio_engine_core.Pipeline.Armed.{IsArmed, process-IsArmed}

module _ (N : Float) {S : Type 0} (P : StreamingProcessor N.F S) where
  open N use {F}

  -- One step: a controller publishes a request, the callback handles a block, or the pipeline is
  -- reset between blocks.
  pub data Step (p : PlaybackPipeline F S) : PlaybackPipeline F S → Type 0 where
    publishes :
        (kind fade_ms : ℕ) → Step p (record p { lifecycle = (publish p.lifecycle kind fade_ms).1 })
    processes :
        (samples : List F) {r : Outcome ProcessProgress × List F × PlaybackPipeline F S}
        → process N P p samples ≡ some r
        → Step p r.2
    resets : Step p (reset N P p).1

  -- From a fresh pipeline over a chain that was never drained.
  pub data Reached (spec : CallbackSpec) (chain : DspChain F S) (policy : ChainFinishPolicy F)
      : PlaybackPipeline F S → Type 0 where
    starts :
        {p : PlaybackPipeline F S}
        → assemble N P spec.channels spec.sample_rate_hz (ok chain) spec new_channel policy ≡ ok p
        → Reached spec chain policy p
    steps :
        {p q : PlaybackPipeline F S}
        → Reached spec chain policy p
        → Step p q
        → Reached spec chain policy q

  fresh-IsArmed :
      (spec : CallbackSpec) (chain : DspChain F S) (policy : ChainFinishPolicy F)
      {p : PlaybackPipeline F S}
      → spec.channels ≢ 0
      → finish_started chain ≡ false
      → assemble N P spec.channels spec.sample_rate_hz (ok chain) spec new_channel policy ≡ ok p
      → IsArmed p
  unfolding assemble
  fresh-IsArmed spec chain policy pos idle_chain e = ground arith

  reset-IsArmed : (p : PlaybackPipeline F S) → IsArmed p → IsArmed (reset N P p).1
  unfolding reset
  reset-IsArmed p a = ground (arith, a, reset_lem N P p.chain)

  Step-IsArmed : (p q : PlaybackPipeline F S) → IsArmed p → Step p q → IsArmed q
  unfolding publish
  Step-IsArmed p _ a (publishes kind fade_ms) = ground (arith, a)
  Step-IsArmed p _ a (processes samples {r} e) =
      let (r', e', armed) = process-IsArmed N P p samples a in
      subst (λ (t : Outcome ProcessProgress × List F × PlaybackPipeline F S). IsArmed t.2)
        (some_inj.0 (sym e' ∙ e)) armed
  Step-IsArmed p _ a resets = reset-IsArmed p a

  -- In every pipeline that these steps reach from a fresh one, of at least one channel and over a
  -- chain that has begun no drain, the chain has begun no drain while blocks are filtered, and its
  -- drain is not over while the tail is rendered; a fade has frames left, and the channel shows
  -- the state and the generation that the callback has.
  pub Reached-IsArmed :
      (spec : CallbackSpec) (chain : DspChain F S) (policy : ChainFinishPolicy F)
      {p : PlaybackPipeline F S}
      → spec.channels ≢ 0
      → finish_started chain ≡ false
      → Reached spec chain policy p
      → IsArmed p
  Reached-IsArmed spec chain policy pos idle_chain (starts e) =
      fresh-IsArmed spec chain policy pos idle_chain e
  Reached-IsArmed spec chain policy pos idle_chain (steps {p} {q} r s) =
      Step-IsArmed p q (Reached-IsArmed spec chain policy pos idle_chain r) s

  -- An idle pipeline without a new request answers a block within its size with silence, and stays
  -- as it is.
  pub idle-silence :
      (p : PlaybackPipeline F S) (samples : List F)
      → p.state ≡ idle
      → requested p.lifecycle ≡ p.seen_generation
      → validate_samples p samples "process" ≡ ok tt
      → process N P p samples
        ≡ some (
          ok (progress (frames_in p samples) (frames_in p samples) need_input),
          replicate (length samples) N.zero,
          p,
        )
  unfolding process consume_lifecycle_request take_newer_than process_in_state
  idle-silence p samples i seen valid = ground arith

  -- A block of the stop ramp takes its frames off those that are left of the ramp. Once none are
  -- left the pipeline drains, at gain zero, and shows it; else it keeps its state and its base
  -- gain.
  pub apply_stop_ramp-remaining :
      (p : PlaybackPipeline F S) (samples : List F) (frames : ℕ)
      → let p' = (apply_stop_ramp N P p samples frames).1 in
        (p'.fade_remaining_frames ≡ p.fade_remaining_frames - frames)
        × (p.fade_remaining_frames ≤ frames
            → (p'.state ≡ draining)
              × (p'.fade_base_gain ≡ N.zero)
              × (p'.lifecycle.state ≡ as_code draining))
        × (frames < p.fade_remaining_frames
            → (p'.state ≡ p.state) × (p'.fade_base_gain ≡ p.fade_base_gain))
  unfolding apply_stop_ramp
  apply_stop_ramp-remaining p samples frames = (ground arith, λ h. ground arith, λ h. ground arith)
