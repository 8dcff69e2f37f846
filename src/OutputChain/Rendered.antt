-- ===== src/OutputChain/Rendered.antt =====
-- All of a render that goes through the stages ends.
use audio_engine_core.Base.{
  ℕ, ◌<◌, ◌≡◌, ◌≤◌, ◌^◌, refl, ◌∙◌, sym, List, arith, length, inl, inr, Option-cases, [], ◌*◌,
}
use audio_engine_core.Base.Results.{ok, Result-cases}
use audio_engine_core.Float.{Float}
use audio_engine_core.Traits.{Outcome, StreamingProcessor}
use audio_engine_core.DspChain.{block_of}
use audio_engine_core.OutputChain.{OfflineRenderPolicy, finish_frame_limit}
use audio_engine_core.OutputChain.Collector.{Collector, finish_noise_shaper}
use audio_engine_core.OutputChain.Budget.{IsCollector}
use audio_engine_core.OutputChain.Boundary.{RateBoundary, boundary_finish_limit}
use audio_engine_core.OutputChain.Room.{Exhausts, alike_room}
use audio_engine_core.OutputChain.Rounds.{finish_limiter-ends, boundary_finish-ends}
use audio_engine_core.OutputChain.Checked.{IsRenderPolicy}
use audio_engine_core.OutputChain.Limits.{finish_limit-fits}
use audio_engine_core.OutputChain.Render.{
  Run, ◌>>=◌, lift, get, Rendering, Plan, pieces, render_input, drain_sources, drain_boundary,
  drain_limiter, drain_shaper, render_stages,
}
use audio_engine_core.OutputChain.Fitting.{IsRendering}
use audio_engine_core.OutputChain.Returned.{Returns, done-Returns, refit, then-Returns}
use audio_engine_core.OutputChain.Drains.{render_fuel, render_input-Returns, drain_sources-Returns}

module _ (N : Float) {S : Type 0} (P : StreamingProcessor N.F S) where
  open N use {F}

  boundary_limit-fits :
      (from_rate to_rate : S → ℕ) (b : RateBoundary F S) (policy : OfflineRenderPolicy F)
      (block_frames : ℕ) {limit : ℕ}
      → boundary_finish_limit N P from_rate to_rate b policy block_frames ≡ ok limit
      → limit ≤ 2 ^ 64
  unfolding boundary_finish_limit
  boundary_limit-fits from_rate to_rate b policy block_frames e = elim (Option-cases b.resampler) [
    | inl none_there ↦ ground arith
    | inr (s, there) ↦
        finish_limit-fits N b.input_frames_seen (from_rate s) (to_rate s) _ policy block_frames
          (rw (boundary_finish_limit, there) at e)
  ]

  finish_noise_shaper-IsCollector :
      (c : Collector F S)
      → IsCollector c
      → IsCollector (finish_noise_shaper N P c).1
        × ((finish_noise_shaper N P c).1.channels ≡ c.channels)
  unfolding finish_noise_shaper
  finish_noise_shaper-IsCollector c v = elim (Result-cases (block_of {A = F} [] c.channels)) [
    | inr (x, e) ↦ rw (finish_noise_shaper, e) (v, refl)
    | inl (b, e) ↦
        rw (finish_noise_shaper, e)
          (record { channels_pos = v.channels_pos; whole = v.whole; observed = v.observed }, refl)
  ]

  module _ (x : Exhausts P) (plan : Plan F) (some_channels : 0 < plan.channels)
      (some_frames : 0 < plan.block_frames)
      (valid : IsRenderPolicy N plan.policy.unknown_tail) where
    drain_boundary-Returns :
        (fuel limit : ℕ) (w : Rendering F S)
        → IsRendering plan.channels plan.block_frames w
        → limit < fuel
        → Returns plan.channels plan.block_frames (drain_boundary N P fuel limit w)
    unfolding drain_boundary
    drain_boundary-Returns fuel limit w v h =
        let run =
          boundary_finish-ends N P fuel w.boundary w.collector limit v.collector_sound
            (v.boundary_channels ∙ sym v.collector_channels) v.boundary_room h in
        record {
          left = record w { boundary = run.0.1; collector = run.0.2 };
          outcome = run.0.0;
          ends = ground (arith, run.1);
          fits = record {
            collector_sound = run.2.sound;
            collector_channels = run.2.channels ∙ v.collector_channels;
            boundary_channels = run.3.0 ∙ v.boundary_channels;
            boundary_room = alike_room run.3.1 run.3.0 v.boundary_room;
            source_channels = v.source_channels;
            room = v.room;
          };
        }

    drain_limiter-Returns :
        (fuel limit : ℕ) (w : Rendering F S)
        → IsRendering plan.channels plan.block_frames w
        → limit < fuel
        → Returns plan.channels plan.block_frames (drain_limiter N P fuel limit w)
    unfolding drain_limiter
    drain_limiter-Returns fuel limit w v h =
        let run =
          finish_limiter-ends N P fuel w.collector w.boundary.scratch limit v.collector_sound
            (alike_room refl (v.collector_channels ∙ sym v.boundary_channels) v.boundary_room) h in
        record {
          left = record w {
            collector = run.0.2;
            boundary = record (w.boundary) { scratch = run.0.1 };
          };
          outcome = run.0.0;
          ends = ground (arith, run.1);
          fits = record {
            collector_sound = run.2.sound;
            collector_channels = run.2.channels ∙ v.collector_channels;
            boundary_channels = v.boundary_channels;
            boundary_room = alike_room run.3 refl v.boundary_room;
            source_channels = v.source_channels;
            room = v.room;
          };
        }

    drain_shaper-Returns :
        (w : Rendering F S)
        → IsRendering plan.channels plan.block_frames w
        → Returns plan.channels plan.block_frames (drain_shaper N P w)
    unfolding drain_shaper
    drain_shaper-Returns w v =
        let sound = finish_noise_shaper-IsCollector w.collector v.collector_sound in
        done-Returns plan.channels plan.block_frames _ _
          (refit plan.channels plan.block_frames w _ v sound.0 sound.1)

    -- Of stages that fit together, over processors that cannot render for ever without input, and
    --   under a policy that passes validation, the whole pass of a render through the stages ends, in
    --   success or in an error, with fuel for the push of a block and for 2 ^ 64 frames. The stages
    --   that it leaves still fit together.
    pub render_stages-Returns :
        (fuel : ℕ) (from_rate to_rate : S → ℕ) (samples : List F) (w : Rendering F S)
        → IsRendering plan.channels plan.block_frames w
        → render_fuel N P x plan some_channels some_frames valid < fuel
        → Returns plan.channels plan.block_frames
            (render_stages N P fuel from_rate to_rate plan samples w)
    unfolding render_stages
    render_stages-Returns fuel from_rate to_rate samples w v h =
        let read =
          render_input-Returns N P x plan some_channels some_frames valid fuel (length samples)
            samples w v h in
        after w
          (render_input N P fuel
            (pieces (length samples) (plan.block_frames * plan.channels) samples))
          (λ _. drain) read
          λ u e1.
            let drained =
              drain_sources-Returns N P x plan some_channels some_frames valid fuel 0
                plan.source_timings read.left read.fits h in
            after read.left (drain_sources N P fuel plan 0 plan.source_timings) (λ _. look) drained
              λ u2 e2.
                after drained.left (get (λ t. t.boundary)) limiting
                  (done-Returns plan.channels plan.block_frames drained.left _ drained.fits)
                  λ b e3.
                    after drained.left
                      (lift (
                        boundary_finish_limit N P from_rate to_rate b plan.policy
                          plan.block_frames))
                      flush
                      (done-Returns plan.channels plan.block_frames drained.left _ drained.fits)
                      λ limit e4.
                        let flushed = drain_boundary-Returns fuel limit drained.left drained.fits (
                          below (
                            boundary_limit-fits from_rate to_rate b plan.policy plan.block_frames
                              e4)) in
                        after drained.left (drain_boundary N P fuel limit) (λ _. limit_limiter)
                          flushed
                          λ u3 e5.
                            after flushed.left (lift limiter_bound) close
                              (done-Returns plan.channels plan.block_frames flushed.left _
                                flushed.fits)
                              λ last e6.
                                let limited =
                                  drain_limiter-Returns fuel last flushed.left flushed.fits (
                                    below (
                                      finish_limit-fits N 0 plan.output_rate plan.output_rate
                                        plan.limiter_timing plan.policy plan.block_frames e6)) in
                                after flushed.left (drain_limiter N P fuel last)
                                  (λ _. drain_shaper N P) limited
                                  λ u4 e7. drain_shaper-Returns limited.left limited.fits
      where
        after :
            {A B : Type 0} (t : Rendering F S) (m : Run (Rendering F S) A)
            (f : A → Run (Rendering F S) B) (first : Returns plan.channels plan.block_frames (m t))
            → ((a : A)
                → first.outcome ≡ ok a
                → Returns plan.channels plan.block_frames (f a first.left))
            → Returns plan.channels plan.block_frames ((m >>= f) t)
        after = then-Returns N P x plan some_channels some_frames valid

        below : {limit : ℕ} → limit ≤ 2 ^ 64 → limit < fuel
        below e = omega (arith, e, h)

        limiter_bound : Outcome ℕ
        limiter_bound =
            finish_frame_limit N 0 plan.output_rate plan.output_rate plan.limiter_timing plan.policy
              plan.block_frames

        close : ℕ → Run (Rendering F S) (Unit {0})
        close last = drain_limiter N P fuel last >>= λ _. drain_shaper N P

        limit_limiter : Run (Rendering F S) (Unit {0})
        limit_limiter = lift limiter_bound >>= close

        flush : ℕ → Run (Rendering F S) (Unit {0})
        flush limit = drain_boundary N P fuel limit >>= λ _. limit_limiter

        limiting : RateBoundary F S → Run (Rendering F S) (Unit {0})
        limiting b =
            lift (boundary_finish_limit N P from_rate to_rate b plan.policy plan.block_frames)
            >>= flush

        look : Run (Rendering F S) (Unit {0})
        look = get (λ t. t.boundary) >>= limiting

        drain : Run (Rendering F S) (Unit {0})
        drain = drain_sources N P fuel plan 0 plan.source_timings >>= λ _. look
