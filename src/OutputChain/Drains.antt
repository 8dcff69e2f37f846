-- ===== src/OutputChain/Drains.antt =====
-- The input and the source stages of a render: its loops end, and its stages keep fitting together.
use audio_engine_core.Base.{
  ℕ, zero, suc, ◌+◌, ◌*◌, ◌^◌, ◌≤◌, ◌<◌, ◌≡◌, refl, ◌∙◌, Bool, true, false, not, ◌&&◌, List, [],
  ◌∷◌, arith, if◌then◌else◌, length, take, drop, overwrite, inl, inr, Bool-cases, length-overwrite,
  length-take,
}
use audio_engine_core.Base.Results.{ok, Result-cases}
use audio_engine_core.Float.{Float}
use audio_engine_core.Traits.{Outcome, StreamingProcessor}
use audio_engine_core.OutputChain.{unknown_tail, source_finish_frame_limit}
use audio_engine_core.OutputChain.Tail.{new_observation}
use audio_engine_core.OutputChain.Collector.{
  observation_stopped, observation_active, begin_observation,
}
use audio_engine_core.OutputChain.Room.{Exhausts}
use audio_engine_core.OutputChain.Sources.{SourceStageTiming, Staged, process_all}
use audio_engine_core.OutputChain.Behind.{process_all-kept}
use audio_engine_core.OutputChain.Checked.{IsRenderPolicy, new_observation-IsObservation}
use audio_engine_core.OutputChain.Limits.{source_limit-fits}
use audio_engine_core.OutputChain.Render.{
  Run, ◌>>=◌, lift, done, get, Rendering, Plan, StageEnd, terminal, policy_stopped, limit_reached,
  pieces, render_block, render_input, tail_loop, protection, start_observation, close_stage,
  drain_open, drain_source, drain_sources,
}
use audio_engine_core.OutputChain.Returned.{
  Returns, returned, done-Returns, if-Returns, refit, end_observation-IsCollector,
  mark_tail_truncated-IsCollector, then-Returns,
}
use audio_engine_core.OutputChain.Fitting.{IsRendering, push_fuel, push_block-Ends}
use audio_engine_core.OutputChain.Drained.{tail_loop-Ends}

module _ (N : Float) {S : Type 0} (P : StreamingProcessor N.F S) (x : Exhausts P) (plan : Plan N.F)
    (some_channels : 0 < plan.channels) (some_frames : 0 < plan.block_frames)
    (valid : IsRenderPolicy N plan.policy.unknown_tail) where
  open N use {F}

  -- The fuel of a render: the push of a block, and the longest tail.
  abbrev pub render_fuel : ℕ
  render_fuel = push_fuel N P x plan.channels plan.block_frames some_channels + 2 ^ 64 + 1

  render_block-Returns :
      (fuel : ℕ) (input : List F) (w : Rendering F S)
      → IsRendering plan.channels plan.block_frames w
      → length input ≤ plan.block_frames * plan.channels
      → render_fuel < fuel
      → Returns plan.channels plan.block_frames (render_block N P fuel input w)
  unfolding render_block
  render_block-Returns fuel input w v short h = elim (Result-cases staged.0) [
    | inr (y, e) ↦ rw (render_block, e) (done-Returns plan.channels plan.block_frames w1 _ fits1)
    | inl (u, e) ↦
        rw (render_block, e)
          (returned plan.channels plan.block_frames (
            push_block-Ends N P x plan.channels plan.block_frames some_channels fuel staged.1 w1
              fits1 (omega (arith, kept.0, short)) (omega (arith, h))))
  ]
    where
      staged : Staged F S
      staged = process_all N P w.sources input

      kept : (length staged.1 ≡ length input) × (staged.2.channels ≡ w.sources.channels)
      kept = process_all-kept N P w.sources input

      w1 : Rendering F S
      w1 = record w { sources = staged.2; scratch = overwrite w.scratch 0 staged.1 }

      fits1 : IsRendering plan.channels plan.block_frames w1
      fits1 = record {
        collector_sound = v.collector_sound;
        collector_channels = v.collector_channels;
        boundary_channels = v.boundary_channels;
        boundary_room = v.boundary_room;
        source_channels = kept.1 ∙ v.source_channels;
        room = length-overwrite w.scratch 0 staged.1 ∙ v.room;
      }

  pub render_input-Returns :
      (fuel rounds : ℕ) (samples : List F) (w : Rendering F S)
      → IsRendering plan.channels plan.block_frames w
      → render_fuel < fuel
      → Returns plan.channels plan.block_frames
          (render_input N P fuel (pieces rounds (plan.block_frames * plan.channels) samples) w)
  unfolding render_input pieces
  render_input-Returns fuel zero samples w v h = done-Returns plan.channels plan.block_frames w _ v
  render_input-Returns fuel (suc rounds) [] w v h =
      done-Returns plan.channels plan.block_frames w _ v
  render_input-Returns fuel (suc rounds) (s ∷ samples) w v h =
      let span = plan.block_frames * plan.channels in
      let first =
        render_block-Returns fuel (take span (s ∷ samples)) w v
          (omega (arith, length-take span (s ∷ samples))) h in
      then-Returns N P x plan some_channels some_frames valid w
        (render_block N P fuel (take span (s ∷ samples))) _ first
        λ u e. render_input-Returns fuel rounds (drop span (s ∷ samples)) first.left first.fits h

  start_observation-Returns :
      (protected : ℕ) (w : Rendering F S)
      → IsRendering plan.channels plan.block_frames w
      → Returns plan.channels plan.block_frames (start_observation N P plan protected w)
  unfolding start_observation begin_observation
  start_observation-Returns protected w v =
      elim (Result-cases (new_observation N plan.policy.unknown_tail plan.output_rate protected)) [
        | inr (y, e) ↦
            rw (start_observation, begin_observation, e)
              (done-Returns plan.channels plan.block_frames w _ v)
        | inl (o, e) ↦
            let sound =
              new_observation-IsObservation N plan.policy.unknown_tail plan.output_rate protected
                valid e in
            rw (start_observation, begin_observation, e)
              (done-Returns plan.channels plan.block_frames _ _ (
                refit plan.channels plan.block_frames w _ v
                  (record {
                    channels_pos = v.collector_sound.channels_pos;
                    whole = v.collector_sound.whole;
                    observed = λ o' h. ground (arith, h, sound.0);
                  })
                  refl))
      ]

  close_stage-Returns :
      (stage : SourceStageTiming) (unknown started : Bool) (end : StageEnd) (w : Rendering F S)
      → IsRendering plan.channels plan.block_frames w
      → Returns plan.channels plan.block_frames (close_stage N P stage unknown started end w)
  unfolding close_stage
  close_stage-Returns stage unknown started policy_stopped w v =
      done-Returns plan.channels plan.block_frames w _ v
  close_stage-Returns stage unknown started terminal w v =
      elim (Bool-cases (started && not (observation_stopped w.collector))) [
        | inl e ↦
            let sound = end_observation-IsCollector w.collector v.collector_sound in
            rw (close_stage, e)
              (done-Returns plan.channels plan.block_frames _ _
                (refit plan.channels plan.block_frames w _ v sound.0 sound.1))
        | inr e ↦ rw (close_stage, e) (done-Returns plan.channels plan.block_frames w _ v)
      ]
  close_stage-Returns stage true started limit_reached w v =
      done-Returns plan.channels plan.block_frames _ _ (
        refit plan.channels plan.block_frames w _ v
          (mark_tail_truncated-IsCollector w.collector v.collector_sound) refl)
  close_stage-Returns stage false started limit_reached w v =
      done-Returns plan.channels plan.block_frames w _ v

  drain_open-Returns :
      (fuel index : ℕ) (stage : SourceStageTiming) (w : Rendering F S)
      → IsRendering plan.channels plan.block_frames w
      → render_fuel < fuel
      → Returns plan.channels plan.block_frames (drain_open N P fuel plan index stage w)
  unfolding drain_open
  drain_open-Returns fuel index stage w v h =
      then-Returns N P x plan some_channels some_frames valid w
        (lift (protection N P plan index open_ended)) observing
        (done-Returns plan.channels plan.block_frames w _ v)
        λ protected e1.
          then-Returns N P x plan some_channels some_frames valid w (get is_first)
            (starting protected) (done-Returns plan.channels plan.block_frames w _ v)
            λ started e2.
              let begun = started-Returns protected started in
              then-Returns N P x plan some_channels some_frames valid w (start protected started)
                (λ _. limiting protected started) begun
                λ u e3.
                  then-Returns N P x plan some_channels some_frames valid begun.left
                    (lift (bound protected)) (looping started)
                    (done-Returns plan.channels plan.block_frames begun.left _ begun.fits)
                    λ limit e4.
                      let looped = tail-Returns protected limit begun.left begun.fits e4 in
                      then-Returns N P x plan some_channels some_frames valid begun.left
                        (tail_loop N P fuel stage.id open_ended plan.block_frames limit 0)
                        (close_stage N P stage open_ended started) looped
                        λ end e5.
                          close_stage-Returns stage open_ended started end looped.left looped.fits
    where
      open_ended : Bool
      open_ended = unknown_tail stage.timing.tail

      is_first : Rendering F S → Bool
      is_first = λ t. open_ended && not (observation_active t.collector)

      start : ℕ → Bool → Run (Rendering F S) (Unit {0})
      start protected started = if started then start_observation N P plan protected else done tt

      bound : ℕ → Outcome ℕ
      bound protected =
          source_finish_frame_limit N stage.timing protected plan.source_rate plan.output_rate
            plan.policy plan.block_frames

      looping : Bool → ℕ → Run (Rendering F S) (Unit {0})
      looping started limit =
          tail_loop N P fuel stage.id open_ended plan.block_frames limit 0
          >>= close_stage N P stage open_ended started

      limiting : ℕ → Bool → Run (Rendering F S) (Unit {0})
      limiting protected started = lift (bound protected) >>= looping started

      starting : ℕ → Bool → Run (Rendering F S) (Unit {0})
      starting protected started = start protected started >>= λ _. limiting protected started

      observing : ℕ → Run (Rendering F S) (Unit {0})
      observing protected = get is_first >>= starting protected

      started-Returns :
          (protected : ℕ) (started : Bool)
          → Returns plan.channels plan.block_frames (start protected started w)
      started-Returns protected started =
          if-Returns plan.channels plan.block_frames started (start_observation N P plan protected)
            (done tt) w (λ _. start_observation-Returns protected w v)
            (λ _. done-Returns plan.channels plan.block_frames w _ v)

      tail-Returns :
          (protected limit : ℕ) (t : Rendering F S)
          → IsRendering plan.channels plan.block_frames t
          → bound protected ≡ ok limit
          → Returns plan.channels plan.block_frames
              (tail_loop N P fuel stage.id open_ended plan.block_frames limit 0 t)
      tail-Returns protected limit t fits e =
          let within =
            source_limit-fits N stage.timing protected plan.source_rate plan.output_rate plan.policy
              plan.block_frames e in
          returned plan.channels plan.block_frames (
            tail_loop-Ends N P x plan.channels plan.block_frames some_channels fuel stage.id
              open_ended limit 0 t fits some_frames (omega (arith, within, h)))

  drain_source-Returns :
      (fuel index : ℕ) (stage : SourceStageTiming) (w : Rendering F S)
      → IsRendering plan.channels plan.block_frames w
      → render_fuel < fuel
      → Returns plan.channels plan.block_frames (drain_source N P fuel plan index stage w)
  unfolding drain_source
  drain_source-Returns fuel index stage w v h =
      if-Returns plan.channels plan.block_frames
        (unknown_tail stage.timing.tail && observation_stopped w.collector) (done tt)
        (drain_open N P fuel plan index stage) w
        (λ _. done-Returns plan.channels plan.block_frames w _ v)
        (λ _. drain_open-Returns fuel index stage w v h)

  -- Of stages that fit together, over processors that cannot render for ever without input, and
  --   under a policy that passes validation, the drain of any list of source stages ends, with fuel
  --   for the push of a block and for 2 ^ 64 frames, and the stages still fit together.
  pub drain_sources-Returns :
      (fuel index : ℕ) (stages : List SourceStageTiming) (w : Rendering F S)
      → IsRendering plan.channels plan.block_frames w
      → render_fuel < fuel
      → Returns plan.channels plan.block_frames (drain_sources N P fuel plan index stages w)
  unfolding drain_sources
  drain_sources-Returns fuel index [] w v h = done-Returns plan.channels plan.block_frames w _ v
  drain_sources-Returns fuel index (stage ∷ stages) w v h =
      let first = drain_source-Returns fuel index stage w v h in
      then-Returns N P x plan some_channels some_frames valid w
        (drain_source N P fuel plan index stage) _ first
        λ u e. drain_sources-Returns fuel (index + 1) stages first.left first.fits h
