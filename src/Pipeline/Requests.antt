-- ===== src/Pipeline/Requests.antt =====
-- When a request takes effect, and what only a reset can undo.
use audio_engine_core.Base.{ℕ, ◌≡◌, ◌≢◌, ◌⊎◌, inl, inr, some, List, arith, Option-cases}
use audio_engine_core.Base.Results.{Result-cases, ok}
use audio_engine_core.Float.{Float}
use audio_engine_core.Traits.{ProcessProgress, Outcome, StreamingProcessor}
use audio_engine_core.Pipeline.{
  PlaybackLifecycleState, draining, idle, requested, take_newer_than, request_reset_kind,
}
use audio_engine_core.Pipeline.Callback.{
  PlaybackPipeline, validate_samples, start_stop, apply_lifecycle_request,
  consume_lifecycle_request, apply_stop_ramp, apply_drain_stop_gain, settle, drain_into,
  process_in_state, process,
}

-- Blocks are no longer filtered.
abbrev pub Stopped : PlaybackLifecycleState → Type 0
Stopped s = (s ≡ draining) ⊎ (s ≡ idle)

module _ (N : Float) {S : Type 0} (P : StreamingProcessor N.F S) where
  open N use {F}

  -- What handling the block in its state leaves alone.
  record SameRequests (p p' : PlaybackPipeline F S) : Type 0 where
    request : p'.lifecycle.request ≡ p.lifecycle.request
    applied : p'.lifecycle.applied_generation ≡ p.lifecycle.applied_generation
    seen : p'.seen_generation ≡ p.seen_generation
    stopped : Stopped p.state → Stopped p'.state

  process_in_state-SameRequests :
      (p : PlaybackPipeline F S) (samples : List F)
      {r : Outcome ProcessProgress × List F × PlaybackPipeline F S}
      → process_in_state N P p samples ≡ some r
      → SameRequests p r.2
  unfolding process_in_state apply_stop_ramp drain_into settle apply_drain_stop_gain
  process_in_state-SameRequests p samples e = ground arith

  consume-requested :
      (p : PlaybackPipeline F S)
      → p.lifecycle.applied_generation ≡ p.seen_generation
      → let p' = (consume_lifecycle_request N P p).1 in
        (p'.lifecycle.request ≡ p.lifecycle.request)
        × (p'.seen_generation ≡ requested p.lifecycle)
        × (p'.lifecycle.applied_generation ≡ requested p.lifecycle)
  unfolding consume_lifecycle_request take_newer_than apply_lifecycle_request start_stop
  consume-requested p a = ground arith

  -- The newest request is no reset, or the callback has seen it.
  abbrev pub NoReset : PlaybackPipeline F S → Type 0
  NoReset p =
      (generation kind fade_ms : ℕ)
      → take_newer_than p.lifecycle p.seen_generation ≡ some (generation, kind, fade_ms)
      → kind ≢ request_reset_kind

  consume-Stopped :
      (p : PlaybackPipeline F S)
      → Stopped p.state
      → NoReset p
      → Stopped (consume_lifecycle_request N P p).1.state
  unfolding consume_lifecycle_request apply_lifecycle_request start_stop
  consume-Stopped p s other = elim (Option-cases (take_newer_than p.lifecycle p.seen_generation)) [
    | inl e ↦ ground arith
    | inr ((generation, kind, fade_ms), e) ↦ ground (arith, other generation kind fade_ms e)
  ]

  -- A block that passes validation, on a pipeline that shows what it has seen, takes the newest
  -- request, whatever comes of it: then the channel shows it as applied, and the callback has seen
  -- it.
  pub process-requested :
      (p : PlaybackPipeline F S) (samples : List F)
      {r : Outcome ProcessProgress × List F × PlaybackPipeline F S}
      → p.lifecycle.applied_generation ≡ p.seen_generation
      → validate_samples p samples "process" ≡ ok tt
      → process N P p samples ≡ some r
      → (requested r.2.lifecycle ≡ requested p.lifecycle)
        × (r.2.seen_generation ≡ requested p.lifecycle)
        × (r.2.lifecycle.applied_generation ≡ requested p.lifecycle)
  unfolding process
  process-requested p samples {r} a valid e = elim (Result-cases consumed.0) [
    | inr (x, c) ↦ ground (arith, consume-requested p a)
    | inl (u, c) ↦
        ground
          (arith, consume-requested p a, process_in_state-SameRequests consumed.1 samples {r = r})
  ]
    where
      consumed : Outcome (Unit {0}) × PlaybackPipeline F S
      consumed = consume_lifecycle_request N P p

  -- A block on a pipeline that drains or is idle leaves it draining or idle, unless its newest
  -- unseen request is a reset.
  pub process-Stopped :
      (p : PlaybackPipeline F S) (samples : List F)
      {r : Outcome ProcessProgress × List F × PlaybackPipeline F S}
      → Stopped p.state
      → NoReset p
      → process N P p samples ≡ some r
      → Stopped r.2.state
  unfolding process
  process-Stopped p samples {r} s other e =
      elim (Result-cases (validate_samples p samples "process")) [
        | inr (x, v) ↦ ground arith
        | inl (w, v) ↦ elim (Result-cases consumed.0) [
          | inr (x, c) ↦ ground (arith, consume-Stopped p s other)
          | inl (u, c) ↦
              (process_in_state-SameRequests consumed.1 samples {r = r} (ground arith)).stopped
                (consume-Stopped p s other)
        ]
      ]
    where
      consumed : Outcome (Unit {0}) × PlaybackPipeline F S
      consumed = consume_lifecycle_request N P p
