-- ===== src/OutputChain/Fitting.antt =====
-- The stages of a render fit together, and its parts end: a push of a block, and a finish of a stage.
use audio_engine_core.Base.{
  ℕ, suc, ◌+◌, ◌*◌, ◌/◌, ◌≤◌, ◌<◌, ◌≡◌, subst, refl, ◌∙◌, ap, Option, some, List, arith, leb, ◌==◌,
  length, take, overwrite, inl, inr, Bool-cases, length-overwrite, length-take,
}
use native.Mathlib.Nat.{mul-div_cancel, mul-le-mul_right, div-add-mod}
use audio_engine_core.Base.Results.{ok, err, Result-cases}
use audio_engine_core.Float.{Float}
use audio_engine_core.Traits.{Outcome, ProcessProgress, capacity_for_finish, StreamingProcessor}
use audio_engine_core.Traits.Progress.{WithinCapacity, Honest}
use audio_engine_core.OutputChain.Budget.{IsCollector, Bounded, Bounded-refl}
use audio_engine_core.OutputChain.Boundary.{Passed, push}
use audio_engine_core.OutputChain.Room.{Exhausts, Alike, alike_room}
use audio_engine_core.OutputChain.Pushes.{push-ends}
use audio_engine_core.OutputChain.Sources.{
  OutputStageId, SourcePipeline, Staged, process_after, finish_source, source_ids, manifest,
}
use audio_engine_core.OutputChain.Behind.{process_after-kept, finish_id-Honest}
use audio_engine_core.OutputChain.Render.{Rendering, push_block, pass_tail, finish_stage}

-- The stages of a render fit together: they have the same channels, and a scratch of `block_frames`.
pub record IsRendering {F S : Type 0} (channels block_frames : ℕ) (w : Rendering F S) : Type 0 where
  pub collector_sound : IsCollector w.collector
  pub collector_channels : w.collector.channels ≡ channels
  pub boundary_channels : w.boundary.channels ≡ channels
  pub source_channels : w.sources.channels ≡ channels
  pub boundary_room : 0 < length w.boundary.scratch / w.boundary.channels
  pub room : length w.scratch ≡ block_frames * channels

-- A part of a render that ends: the stages still fit together, and the tail stays in its budget.
pub record Ends {F S A : Type 0} (channels block_frames : ℕ) (w : Rendering F S)
    (run : Option (Rendering F S × Outcome A)) : Type 0 where
  pub left : Rendering F S
  pub outcome : Outcome A
  pub ends : run ≡ some (left, outcome)
  pub fits : IsRendering channels block_frames left
  pub bounded : Bounded w.collector left.collector

module _ (N : Float) {S : Type 0} (P : StreamingProcessor N.F S) (x : Exhausts P)
    (channels block_frames : ℕ) (some_channels : 0 < channels) where
  open N use {F}

  -- The fuel of a push of a block of the scratch.
  abbrev pub push_fuel : ℕ
  push_fuel = (block_frames + 1) * (x.most + 1)

  pub push_block-Ends :
      (fuel : ℕ) (block : List F) (w : Rendering F S)
      → IsRendering channels block_frames w
      → length block ≤ block_frames * channels
      → push_fuel < fuel
      → Ends channels block_frames w (push_block N P fuel block w)
  unfolding push_block
  push_block-Ends fuel block w v short h = record {
    left = record w {
      boundary = run.0.2;
      collector = run.0.3;
      scratch = overwrite w.scratch 0 run.0.1;
    };
    outcome = run.0.0;
    ends = ground (arith, run.1);
    fits = record {
      collector_sound = run.2.sound;
      collector_channels = run.2.channels ∙ v.collector_channels;
      boundary_channels = run.3.0 ∙ v.boundary_channels;
      boundary_room = alike_room run.3.1 run.3.0 v.boundary_room;
      source_channels = v.source_channels;
      room = length-overwrite w.scratch 0 run.0.1 ∙ v.room;
    };
    bounded = run.2;
  }
    where
      frames : length block / w.boundary.channels ≤ block_frames
      frames =
          rw v.boundary_channels (elim (Bool-cases (leb (length block / channels) block_frames)) [
            | inl le ↦ ground arith
            | inr gt ↦
                let more : suc block_frames * channels ≤ length block / channels * channels =
                  mul-le-mul_right channels (ground arith) in
                absurd (omega (arith, more, short, div-add-mod (length block) channels))
          ])

      enough : (length block / w.boundary.channels + 1) * (x.most + 1) < fuel
      enough =
          let le : (length block / w.boundary.channels + 1) * (x.most + 1) ≤ push_fuel =
            mul-le-mul_right (x.most + 1) (omega (arith, frames)) in
          omega (arith, le, h)

      run :
          (r : Passed F S) × (push N P fuel w.boundary w.collector block ≡ some r)
          × Bounded w.collector r.3
          × Alike w.boundary r.2
      run =
          push-ends N P x fuel w.boundary w.collector block v.collector_sound v.boundary_room enough

  pub pass_tail-Ends :
      (fuel : ℕ) (id : OutputStageId) (produced : ℕ) (w : Rendering F S)
      → IsRendering channels block_frames w
      → produced ≤ block_frames
      → push_fuel < fuel
      → Ends channels block_frames w (pass_tail N P fuel id produced w)
  unfolding pass_tail
  pass_tail-Ends fuel id produced w v le h = elim (Bool-cases (produced == 0)) [
    | inl none_made ↦
        rw (pass_tail, none_made)
          (record {
            left = w;
            outcome = ok tt;
            ends = refl;
            fits = v;
            bounded = Bounded-refl w.collector v.collector_sound;
          })
    | inr made ↦ elim (Result-cases staged.0) [
      | inr (y, e) ↦
          rw (pass_tail, made, e)
            (record {
              left = w1;
              outcome = err y;
              ends = refl;
              fits = fits1;
              bounded = Bounded-refl w.collector v.collector_sound;
            })
      | inl (u, e) ↦
          let pushed = push_block-Ends fuel staged.1 w1 fits1 short h in
          rw (pass_tail, made, e)
            (record {
              left = pushed.left;
              outcome = pushed.outcome;
              ends = pushed.ends;
              fits = pushed.fits;
              bounded = pushed.bounded;
            })
    ]
  ]
    where
      given : List F
      given = take (produced * w.sources.channels) w.scratch

      staged : Staged F S
      staged = process_after N P w.sources id given

      kept : (length staged.1 ≡ length given) × (staged.2.channels ≡ w.sources.channels)
      kept = process_after-kept N P w.sources id given

      w1 : Rendering F S
      w1 = record w { sources = staged.2; scratch = overwrite w.scratch 0 staged.1 }

      fits1 : IsRendering channels block_frames w1
      fits1 = record {
        collector_sound = v.collector_sound;
        collector_channels = v.collector_channels;
        boundary_channels = v.boundary_channels;
        boundary_room = v.boundary_room;
        source_channels = kept.1 ∙ v.source_channels;
        room = length-overwrite w.scratch 0 staged.1 ∙ v.room;
      }

      short : length staged.1 ≤ block_frames * channels
      short =
          let within : produced * channels ≤ block_frames * channels =
            mul-le-mul_right channels le in
          let same : produced * w.sources.channels ≡ produced * channels =
            ap (λ (t : ℕ). produced * t) v.source_channels in
          omega (arith, kept.0, within, same, length-take (produced * w.sources.channels) w.scratch)

  pub finish_stage-Ends :
      (id : OutputStageId) (capacity : ℕ) (w : Rendering F S)
      → IsRendering channels block_frames w
      → Ends channels block_frames w (finish_stage N P id capacity w)
  unfolding finish_stage
  finish_stage-Ends id capacity w v = record {
    left = record w { sources = run.2; scratch = overwrite w.scratch 0 run.1 };
    outcome = run.0;
    ends = refl;
    fits = record {
      collector_sound = v.collector_sound;
      collector_channels = v.collector_channels;
      boundary_channels = v.boundary_channels;
      boundary_room = v.boundary_room;
      source_channels =
          (finish_id-Honest N P (source_ids manifest) w.sources id given).0 ∙ v.source_channels;
      room = length-overwrite w.scratch 0 run.1 ∙ v.room;
    };
    bounded = Bounded-refl w.collector v.collector_sound;
  }
    where
      given : List F
      given = take (capacity * w.sources.channels) w.scratch

      run : Outcome ProcessProgress × List F × SourcePipeline S
      run = finish_source N P w.sources id given

  -- What a stage reports of the frames that it may render.
  pub finish_stage-Honest :
      (id : OutputStageId) (capacity : ℕ) (w : Rendering F S) {w1 : Rendering F S}
      {r : Outcome ProcessProgress} (q : ProcessProgress)
      → IsRendering channels block_frames w
      → capacity ≤ block_frames
      → finish_stage N P id capacity w ≡ some (w1, r)
      → r ≡ ok q
      → WithinCapacity (capacity_for_finish capacity) q × Honest (capacity_for_finish capacity) q
  unfolding finish_stage
  finish_stage-Honest id capacity w q v le e h =
      subst (λ (t : ℕ). WithinCapacity (capacity_for_finish t) q × Honest (capacity_for_finish t) q)
        frames
        ((finish_id-Honest N P (source_ids manifest) w.sources id given).1 q (ground (arith, e, h)))
    where
      given : List F
      given = take (capacity * w.sources.channels) w.scratch

      frames : length given / w.sources.channels ≡ capacity
      frames =
          let within : capacity * channels ≤ block_frames * channels =
            mul-le-mul_right channels le in
          rw v.source_channels (
            ap (λ (t : ℕ). t / channels)
              (omega (arith, within, v.room, length-take (capacity * channels) w.scratch))
            ∙ mul-div_cancel capacity {n = channels} some_channels)
