-- ===== src/DspChain/Drain.antt =====
-- One round of the loop of `finish_with_policy`.
use audio_engine_core.Base.{
  ap, false, true, is_some, subst, ℕ, ◌+◌, ◌-◌, ◌*◌, ◌≤◌, ◌<◌, ◌≡◌, ◌≢◌, refl, ◌∙◌, inl, inr, Bool,
  List, [], ◌∷◌, arith, ◌==◌, Bool-cases, length, take, drop, overwrite, length-overwrite,
  length-take, length-drop,
}
use native.Mathlib.Nat.{mul-le-mul_right, mul-div_cancel}
use audio_engine_core.Base.Results.{Result-cases, ok}
use audio_engine_core.AudioBlock
use audio_engine_core.AudioBlock.{AudioBlock, IsBlock}
use audio_engine_core.Float.{Float}
use audio_engine_core.Traits.{
  ProcessProgress, Outcome, capacity_for_finish, StreamingProcessor, finish_checked, unknown_tail,
}
use audio_engine_core.Traits.Progress.{WithinCapacity, Honest, finish_checked-Honest}
use audio_engine_core.DspChain.{DspChain, block_of}
use audio_engine_core.DspChain.Finish.{arm_unknown, allowance}
use audio_engine_core.DspChain.Segment.{
  Drain, Round, again, stop, fail, render_segment, drain_stage, drain_block, pass_segment,
  drain_round,
}
use audio_engine_core.DspChain.Moves.{
  SameStages, Moved, arm_unknown-SameStages, allowance-le, render-Moved,
}
use audio_engine_core.DspChain.Fits.{Fits, work_left, Advances, after_stage-Advances}

module _ (N : Float) {S : Type 0} (P : StreamingProcessor N.F S) where
  open N use {F}

  module _ (n channels capacity : ℕ) (d : Drain F S) (s : S) (fits : Fits N P n channels capacity d)
      (channels_pos : channels ≢ 0) (below : d.produced < capacity)
      (active : d.chain.finish_stage < n) where
    pos_channels : 0 < channels
    pos_channels = omega arith

    span :
        (room : ℕ)
        → room ≤ capacity - d.produced
        → d.produced * channels + room * channels ≤ capacity * channels
    span room le =
        let sum : (d.produced + room) * channels ≤ capacity * channels =
          mul-le-mul_right channels (omega arith) in
        omega arith

    -- The block that a stage is given has just the frames that it may render.
    block_frames :
        (room : ℕ) {b : AudioBlock F}
        → room ≤ capacity - d.produced
        → block_of (take (room * channels) (drop (d.produced * channels) d.output)) channels ≡ ok b
        → b.frames ≡ room
    unfolding AudioBlock.new AudioBlock.validated_channel_count
    block_frames room le e = ground (
      arith,
      length-take (room * channels) (drop (d.produced * channels) d.output),
      length-drop (d.produced * channels) d.output,
      fits.room,
      span room le,
      mul-div_cancel room {n = channels} pos_channels,
    )

    pass_segment-Advances :
        (unknown : Bool) (room : ℕ) (c : DspChain F S) (rendered : List F) (p : ProcessProgress)
        → 0 < room
        → room ≤ capacity - d.produced
        → WithinCapacity (capacity_for_finish room) p
        → Honest (capacity_for_finish room) p
        → length c.processors ≡ n
        → c.finish_stage ≡ d.chain.finish_stage
        → c.finish_complete ≡ false
        → is_some c.finish_policy ≡ true
        → length rendered ≡ capacity * channels
        → Advances N P n channels capacity d
            (pass_segment N P d c rendered unknown channels capacity p)
    unfolding pass_segment
    pass_segment-Advances unknown room c rendered p pos le within honest stages same open_chain
          has_policy full =
        elim (Bool-cases (p.produced_frames == 0)) [
          | inl none_made ↦
              rw (none_made, Advances)
                (after_stage-Advances N P n channels capacity d.chain.finish_stage p room d
                  (record d { chain = c; output = rendered })
                  (record {
                    room = full;
                    produced = fits.produced;
                    stages = stages;
                    stage = ground arith;
                    complete = ground arith;
                    policy = ground arith;
                  })
                  below fits.stages active refl (inl same) (ground arith) pos honest)
          | inr made ↦
              rw (made, Advances)
                (elim (Result-cases rendering.0) [
                  | inr (x, e) ↦ rw (e, Advances) (rendered_fits d.produced fits.produced)
                  | inl (u, e) ↦
                      rw (e, Advances)
                        (after_stage-Advances N P n channels capacity d.chain.finish_stage p room d
                          (record {
                            chain = rendering.2;
                            output = overwrite rendered (d.produced * channels) rendering.1;
                            produced = d.produced + p.produced_frames;
                          })
                          (rendered_fits (d.produced + p.produced_frames)
                            (ground (arith, within.produced_fits)))
                          below fits.stages active refl (ground (arith, moved.stage)) refl pos
                          honest)
                ])
        ]
      where
        rendering : Outcome (Unit {0}) × List F × DspChain F S
        rendering =
            render_segment N P c d.chain.finish_stage unknown
              (take (p.produced_frames * channels) (drop (d.produced * channels) rendered)) channels
              p.produced_frames

        moved : Moved N P c rendering.2
        moved =
            render-Moved N P c d.chain.finish_stage unknown
              (take (p.produced_frames * channels) (drop (d.produced * channels) rendered)) channels
              p.produced_frames (ground arith)

        rendered_fits :
            (q : ℕ)
            → q ≤ capacity
            → Fits N P n channels capacity (record {
              chain = rendering.2;
              output = overwrite rendered (d.produced * channels) rendering.1;
              produced = q;
            })
        rendered_fits q h = record {
          room = length-overwrite rendered (d.produced * channels) rendering.1 ∙ full;
          produced = h;
          stages = moved.stages ∙ stages;
          stage = ground (arith, moved.stage);
          complete = ground (arith, moved.complete);
          policy = ap is_some moved.policy ∙ has_policy;
        }

    drain_block-Advances :
        (unknown : Bool) (room : ℕ) (b : AudioBlock F)
        → 0 < room
        → room ≤ capacity - d.produced
        → b.frames ≡ room
        → Advances N P n channels capacity d (drain_block N P d s unknown channels capacity b)
    unfolding drain_block
    drain_block-Advances unknown room b pos le frames =
        elim (Result-cases (finish_checked P s b).0) [
          | inl (p, e) ↦
              rw (e, Advances)
                (pass_segment-Advances unknown room
                  (record (d.chain) {
                    processors =
                        overwrite d.chain.processors d.chain.finish_stage
                          ((finish_checked P s b).2 ∷ []);
                  })
                  (overwrite d.output (d.produced * channels) (finish_checked P s b).1) p pos le
                  (subst (λ (t : ℕ). WithinCapacity (capacity_for_finish t) p) frames
                    (finish_checked-Honest P s b e).0)
                  (subst (λ (t : ℕ). Honest (capacity_for_finish t) p) frames
                    (finish_checked-Honest P s b e).1)
                  (length-overwrite d.chain.processors d.chain.finish_stage
                      ((finish_checked P s b).2 ∷ [])
                    ∙ fits.stages)
                  refl fits.complete fits.policy
                  (length-overwrite d.output (d.produced * channels) (finish_checked P s b).1
                    ∙ fits.room))
          | inr (x, e) ↦
              rw (e, Advances)
                (record {
                  room =
                      length-overwrite d.output (d.produced * channels) (finish_checked P s b).1
                      ∙ fits.room;
                  produced = fits.produced;
                  stages =
                      length-overwrite d.chain.processors d.chain.finish_stage
                        ((finish_checked P s b).2 ∷ [])
                      ∙ fits.stages;
                  stage = fits.stage;
                  complete = fits.complete;
                  policy = fits.policy;
                })
        ]

    drain_stage-Advances :
        (unknown : Bool) (room : ℕ)
        → 0 < room
        → room ≤ capacity - d.produced
        → Advances N P n channels capacity d (drain_stage N P d s unknown room channels capacity)
    unfolding drain_stage
    drain_stage-Advances unknown room pos le =
        elim (Result-cases
          (block_of (take (room * channels) (drop (d.produced * channels) d.output)) channels)) [
            | inl (b, e) ↦
                rw (e, Advances)
                  (drain_block-Advances unknown room b pos le (block_frames room le e))
            | inr (x, e) ↦ rw (e, Advances) fits
          ]

  Advances-from :
      (n channels capacity : ℕ) (d e : Drain F S) (r : Round F S)
      → work_left N P capacity e ≡ work_left N P capacity d
      → Advances N P n channels capacity e r
      → Advances N P n channels capacity d r
  Advances-from n channels capacity d e (again x) same a = (a.0, omega (arith, a.1))
  Advances-from n channels capacity d e (stop x) same a = a
  Advances-from n channels capacity d e (fail x y) same a = a

  -- A round that does not break with an error goes on with less to do, or has filled the output.
  pub drain_round-Advances :
      (n channels capacity : ℕ) (d : Drain F S) (s : S)
      → Fits N P n channels capacity d
      → channels ≢ 0
      → d.produced < capacity
      → d.chain.finish_stage < n
      → Advances N P n channels capacity d (drain_round N P d s channels capacity)
  unfolding drain_round
  drain_round-Advances n channels capacity d s fits pos below active = elim (Result-cases armed.0) [
    | inr (x, e) ↦ rw (e, Advances) armed_fits
    | inl (u, e) ↦
        rw (e, Advances)
          (elim (Result-cases allowed) [
            | inr (x, e') ↦ rw (e', Advances) armed_fits
            | inl (room, e') ↦
                rw (e', Advances)
                  (elim (Bool-cases (room == 0)) [
                    | inl full ↦
                        rw (full, Advances)
                          (
                            record {
                              room = fits.room;
                              produced = fits.produced;
                              stages = ground (arith, fits, same);
                              stage = ground (arith, same);
                              complete = ground (arith, fits.complete, same.complete);
                              policy = ap is_some same.policy ∙ fits.policy;
                            },
                            ground (arith, same, fits),
                          )
                    | inr open_room ↦
                        rw (open_room, Advances)
                          (Advances-from n channels capacity d d'
                            (drain_stage N P d' s unknown room channels capacity)
                            (ground (arith, same))
                            (drain_stage-Advances n channels capacity d' s armed_fits pos below
                              (ground (arith, same)) unknown room (ground arith)
                              (allowance-le N P armed.1 unknown (capacity - d.produced) e')))
                  ])
          ])
  ]
    where
      unknown : Bool
      unknown = unknown_tail (P.tail s)

      armed : Outcome (Unit {0}) × DspChain F S
      armed = arm_unknown N P d.chain unknown

      same : SameStages d.chain armed.1
      same = arm_unknown-SameStages N P d.chain unknown

      allowed : Outcome ℕ
      allowed = allowance N P armed.1 unknown (capacity - d.produced)

      d' : Drain F S
      d' = record d { chain = armed.1 }

      armed_fits : Fits N P n channels capacity d'
      armed_fits = record {
        room = fits.room;
        produced = fits.produced;
        stages = ground (arith, fits.stages, same.stages);
        stage = ground (arith, fits.stage, same.stage);
        complete = same.complete ∙ fits.complete;
        policy = ap is_some same.policy ∙ fits.policy;
      }
