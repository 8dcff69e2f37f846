-- ===== src/Pipeline/Armed.antt =====
-- The invariant of a pipeline that its callback alone drives, call by call.
use audio_engine_core.Base.{
  ◌↔◌, subst, ℕ, ◌%◌, ◌≤◌, ◌<◌, ◌≡◌, ◌≢◌, refl, sym, ap, ◌∙◌, inl, inr, true, false, Option, some,
  List, arith, ◌==◌, length, Bool-cases, Option-cases,
}
use native.Mathlib.Nat.{div-add-mod}
use audio_engine_core.Base.Results.{Result-cases, ok, err}
use audio_engine_core.AudioBlock.{AudioBlock, new_of_whole}
use audio_engine_core.Float.{Float}
use audio_engine_core.Traits.{finished, ProcessProgress, Outcome, StreamingProcessor}
use audio_engine_core.DspChain
use audio_engine_core.DspChain.{DspChain, finish_started}
use audio_engine_core.DspChain.Segment.{finish_with_policy}
use audio_engine_core.DspChain.Ends.{Reports, finish_with_policy-Reports}
use audio_engine_core.DspChain.Lifecycle.{Keeps, process-Keeps, reset_lem}
use audio_engine_core.Pipeline.{
  PlaybackLifecycleState, running, fading_out, draining, idle, as_code, take_newer_than,
}
use audio_engine_core.Pipeline.Callback.{
  CallbackSpec, PlaybackPipeline, frames_in, validate_samples, start_stop, apply_lifecycle_request,
  consume_lifecycle_request, apply_stop_ramp, apply_drain_stop_gain, settle, drain_fuel, drain_into,
  process_in_state, process,
}

-- The ramp of a fade is not over.
abbrev pub RampFits : PlaybackLifecycleState → ℕ → Type 0
RampFits fading_out remaining = 0 < remaining
RampFits _ remaining = Unit

module _ {F S : Type 0} where
  -- What the chain may be in each state: the drain has not begun while blocks are filtered, and
  -- is not over while the tail is rendered.
  abbrev pub ChainFits : PlaybackLifecycleState → DspChain F S → Type 0
  ChainFits running c = finish_started c ≡ false
  ChainFits fading_out c = finish_started c ≡ false
  ChainFits draining c = c.finish_complete ≡ false
  ChainFits idle c = Unit

  pub record IsArmed (p : PlaybackPipeline F S) : Type 0 where
    pub channels_pos : p.spec.channels ≢ 0
    pub stage : p.chain.finish_stage ≤ length p.chain.processors
    pub chain : ChainFits p.state p.chain
    pub ramp : RampFits p.state p.fade_remaining_frames
    pub shown : p.lifecycle.state ≡ as_code p.state
    pub applied : p.lifecycle.applied_generation ≡ p.seen_generation

module _ (N : Float) {S : Type 0} (P : StreamingProcessor N.F S) where
  open N use {F}

  not_complete : (c : DspChain F S) → finish_started c ≡ false → c.finish_complete ≡ false
  not_complete c h = ground arith

  -- What a request leaves, before the state is published.
  record Applied (p p' : PlaybackPipeline F S) : Type 0 where
    spec : p'.spec ≡ p.spec
    stage : p'.chain.finish_stage ≤ length p'.chain.processors
    chain : ChainFits p'.state p'.chain
    ramp : RampFits p'.state p'.fade_remaining_frames
    seen : p'.seen_generation ≡ p.seen_generation

  apply_lifecycle_request-Applied :
      (p : PlaybackPipeline F S) (kind fade_ms : ℕ)
      → p.chain.finish_stage ≤ length p.chain.processors
      → ChainFits p.state p.chain
      → RampFits p.state p.fade_remaining_frames
      → Applied p (apply_lifecycle_request N P p kind fade_ms).1
  unfolding apply_lifecycle_request start_stop
  apply_lifecycle_request-Applied p kind fade_ms stage chain ramp =
      ground (arith, reset_lem N P p.chain)

  -- Taking the pending request at a block boundary, if there is one.
  consume-IsArmed :
      (p : PlaybackPipeline F S) → IsArmed p → IsArmed (consume_lifecycle_request N P p).1
  unfolding consume_lifecycle_request
  consume-IsArmed p a = elim (Option-cases (take_newer_than p.lifecycle p.seen_generation)) [
    | inl e ↦ rw (e, consume_lifecycle_request) a
    | inr ((generation, kind, fade_ms), e) ↦
        let r : Applied (record p { seen_generation = generation })
            (apply_lifecycle_request N P (record p { seen_generation = generation }) kind
              fade_ms).1 =
          apply_lifecycle_request-Applied (record p { seen_generation = generation }) kind fade_ms
            a.stage a.chain a.ramp in
        rw (e, consume_lifecycle_request)
          (record {
            channels_pos = subst (λ (t : CallbackSpec). t.channels ≢ 0) (sym r.spec) a.channels_pos;
            stage = r.stage;
            chain = r.chain;
            ramp = r.ramp;
            shown = refl;
            applied = sym r.seen;
          })
  ]

  -- What a call gives: a pipeline that is armed again.
  abbrev pub ReturnsArmed :
      Option (Outcome ProcessProgress × List F × PlaybackPipeline F S) → Type 0
  ReturnsArmed o =
      (r : Outcome ProcessProgress × List F × PlaybackPipeline F S) × (o ≡ some r) × IsArmed r.2

  apply_stop_ramp-IsArmed :
      (p : PlaybackPipeline F S) (samples : List F) (frames : ℕ)
      → IsArmed p
      → p.state ≡ fading_out
      → IsArmed (apply_stop_ramp N P p samples frames).1
  unfolding apply_stop_ramp
  apply_stop_ramp-IsArmed p samples frames a fading = ground (arith, not_complete p.chain)

  settle-IsArmed :
      (p : PlaybackPipeline F S) (frames : ℕ) (samples : List F) (report : ProcessProgress)
      → p.spec.channels ≢ 0
      → p.chain.finish_stage ≤ length p.chain.processors
      → p.state ≡ draining
      → (p.chain.finish_complete ≡ true) ↔ (report.state ≡ finished)
      → p.lifecycle.state ≡ as_code p.state
      → p.lifecycle.applied_generation ≡ p.seen_generation
      → IsArmed (settle N P p frames samples report).2
  unfolding settle apply_drain_stop_gain
  settle-IsArmed p frames samples report pos stage drains complete shown applied = ground arith

  -- the view that the drain takes of the callback's block
  abbrev whole_block : PlaybackPipeline F S → List F → AudioBlock F
  whole_block p samples = record {
    samples = samples;
    channels = p.spec.channels;
    frames = frames_in p samples;
  }

  -- What the drain of the chain returned.
  drained :
      (p : PlaybackPipeline F S) (samples : List F)
      (r : Outcome ProcessProgress × List F × DspChain F S)
      → IsArmed p
      → p.state ≡ draining
      → length samples % p.spec.channels ≡ 0
      → (frames_in p samples == 0) ≡ false
      → finish_with_policy N P
          (drain_fuel N P p.chain (frames_in p samples))
          p.chain
          (whole_block p samples)
          p.drain_policy
        ≡ some r
      → Reports N P (whole_block p samples) r
      → ReturnsArmed (drain_into N P p samples (frames_in p samples))
  unfolding drain_into
  drained p samples (ok report, rendered, c) a drains whole some_left e reports = (
    settle N P (record p { chain = c }) (frames_in p samples) rendered report,
    ground (arith, new_of_whole samples p.spec.channels),
    settle-IsArmed (record p { chain = c }) (frames_in p samples) rendered report a.channels_pos
        (ground (arith, reports)) drains (ground (arith, reports)) a.shown a.applied,
  )
  drained p samples (err x, rendered, c) a drains whole some_left e reports = (
    (err x, rendered, record p { chain = c }),
    ground (arith, new_of_whole samples p.spec.channels),
    ground (arith, a, reports),
  )

  drain_into-IsArmed :
      (p : PlaybackPipeline F S) (samples : List F)
      → IsArmed p
      → p.state ≡ draining
      → length samples % p.spec.channels ≡ 0
      → ReturnsArmed (drain_into N P p samples (frames_in p samples))
  unfolding drain_into
  drain_into-IsArmed p samples a drains whole = elim (Bool-cases (frames_in p samples == 0)) [
    | inl none_left ↦ rw (none_left, drain_into) (_, refl, a)
    | inr some_left ↦
        let (r, e, reports) =
          finish_with_policy-Reports N P p.chain (whole_block p samples) p.drain_policy
            (drain_fuel N P p.chain (frames_in p samples))
            (record {
              channels_pos = a.channels_pos;
              whole = ground (arith, div-add-mod (length samples) p.spec.channels);
            })
            a.stage (ground (arith, a.chain)) (omega arith) in
        drained p samples r a drains whole some_left e reports
  ]

  process_in_state-IsArmed :
      (p : PlaybackPipeline F S) (samples : List F)
      → IsArmed p
      → length samples % p.spec.channels ≡ 0
      → ReturnsArmed (process_in_state N P p samples)
  unfolding process_in_state
  process_in_state-IsArmed p samples a whole = go p.state refl
    where
      filtered : Outcome ProcessProgress × List F × DspChain F S
      filtered = DspChain.process N P p.chain samples p.spec.channels

      kept : Keeps N P p.chain filtered.2
      kept = process-Keeps N P p.chain samples p.spec.channels

      p' : PlaybackPipeline F S
      p' = record p { chain = filtered.2 }

      ramped : List F × PlaybackPipeline F S
      ramped = apply_stop_ramp N P p' filtered.1 (frames_in p samples)

      still : p.state ≡ running → IsArmed p'
      still e = ground (arith, kept, a)

      still_fading : p.state ≡ fading_out → IsArmed p'
      still_fading e = ground (arith, kept, a)

      faded : p.state ≡ fading_out → ReturnsArmed (process_in_state N P p samples)
      faded e = elim (Result-cases filtered.0) [
        | inl (report, f) ↦ (
          (ok report, ramped.0, ramped.1),
          ground arith,
          apply_stop_ramp-IsArmed p' filtered.1 (frames_in p samples) (still_fading e) e,
        )
        | inr (x, f) ↦ ((err x, filtered.1, p'), ground arith, still_fading e)
      ]

      go :
          (s : PlaybackLifecycleState) → p.state ≡ s → ReturnsArmed (process_in_state N P p samples)
      go running e = ((filtered.0, filtered.1, p'), ground arith, still e)
      go fading_out e = faded e
      go draining e = rw (e, process_in_state) (drain_into-IsArmed p samples a e whole)
      go idle e = rw (e, process_in_state) (_, refl, a)

  consume_lifecycle_request-spec :
      (p : PlaybackPipeline F S) → (consume_lifecycle_request N P p).1.spec ≡ p.spec
  unfolding consume_lifecycle_request apply_lifecycle_request start_stop
  consume_lifecycle_request-spec p = ground arith

  -- A callback block on an armed pipeline returns, with the pipeline armed again: whatever the
  -- processors report, and whatever request is pending.
  pub process-IsArmed :
      (p : PlaybackPipeline F S) (samples : List F)
      → IsArmed p
      → ReturnsArmed (process N P p samples)
  unfolding process validate_samples
  process-IsArmed p samples a = elim (Result-cases (validate_samples p samples "process")) [
    | inr (x, e) ↦ rw (e, process) ((err x, samples, p), refl, a)
    | inl (u, e) ↦
        rw (e, process)
          (elim (Result-cases consumed.0) [
            | inr (x, e') ↦
                rw (e', process) ((err x, samples, consumed.1), refl, consume-IsArmed p a)
            | inl (v, e') ↦
                rw (e', process)
                  (process_in_state-IsArmed consumed.1 samples (consume-IsArmed p a) (
                    ap (λ (t : CallbackSpec). length samples % t.channels)
                      (consume_lifecycle_request-spec p)
                    ∙ ground arith))
          ])
  ]
    where
      consumed : Outcome (Unit {0}) × PlaybackPipeline F S
      consumed = consume_lifecycle_request N P p
