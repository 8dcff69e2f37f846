-- ===== src/OutputChain/Pushes.antt =====
-- A push through the rate boundary: it ends, and keeps the collector within its bounds.
use audio_engine_core.Base.{
  ℕ, zero, suc, ◌+◌, ◌-◌, ◌*◌, ◌/◌, max, ◌≤◌, ◌<◌, ◌≡◌, refl, ◌∙◌, sym, ap, not, ◌||◌, some, List,
  arith, ltb, length, take, drop, overwrite, inl, inr, Bool-cases, Option-cases, length-overwrite,
}
use native.Mathlib.Nat.{mul-le-mul_right}
use audio_engine_core.Base.Results.{ok, err, Result-cases}
use audio_engine_core.AudioBlock.{AudioBlock}
use audio_engine_core.Float.{Float}
use audio_engine_core.Traits.{
  ProcessBuffers, out_of_place_buffers, capacity, Outcome, ProcessProgress, StreamingProcessor,
  process_checked,
}
use audio_engine_core.DspChain.{block_of}
use audio_engine_core.OutputChain.{checked_frame_sum}
use audio_engine_core.OutputChain.Collector.{
  Collector, Left, observation_stopped, observation_capacity_frames, push_pre_limiter,
}
use audio_engine_core.OutputChain.Budget.{IsCollector, Bounded, Bounded-refl, Bounded-trans}
use audio_engine_core.OutputChain.Collected.{push_pre_limiter-Bounded}
use audio_engine_core.OutputChain.Boundary.{
  RateBoundary, Passed, round_buffers, take_resampled, boundary_round, boundary_loop, push,
}
use audio_engine_core.OutputChain.Room.{
  Exhausts, block_of_frames, left_frames, block_capacity, block_of_channels, round_capacity, Alike,
  alike_room,
}

module _ (N : Float) {S : Type 0} (P : StreamingProcessor N.F S) where
  open N use {F}

  take_resampled-Bounded :
      (b : RateBoundary F S) (c : Collector F S) (r : Outcome ProcessProgress × List F × S)
      → IsCollector c
      → Bounded c (take_resampled N P b c r).2
  unfolding take_resampled
  take_resampled-Bounded b c (err e, output, s) v = Bounded-refl c v
  take_resampled-Bounded b c (ok p, output, s) v = elim (Result-cases pushed.0) [
    | inr (x, e) ↦ rw (take_resampled, e) step
    | inl (u, e) ↦ elim (Result-cases (checked_frame_sum b.input_frames_seen p.consumed_frames)) [
      | inr (x, e') ↦ rw (take_resampled, e, e') step
      | inl (n, e') ↦ rw (take_resampled, e, e') step
    ]
  ]
    where
      pushed : Left F S
      pushed =
          push_pre_limiter N P c
            (take (p.produced_frames * b.channels) (overwrite b.scratch 0 output))

      step : Bounded c pushed.2
      step = push_pre_limiter-Bounded N P c _ v

  boundary_round-Bounded :
      (b : RateBoundary F S) (c : Collector F S) (s : S) (source : List F) (consumed : ℕ)
      → IsCollector c
      → Bounded c (boundary_round N P b c s source consumed).2
  unfolding boundary_round
  boundary_round-Bounded b c s source consumed v =
      elim (Result-cases (round_buffers N P b c source consumed)) [
        | inr (x, e) ↦ rw (boundary_round, e) (Bounded-refl c v)
        | inl (buffers, e) ↦ rw (boundary_round, e) (take_resampled-Bounded b c _ v)
      ]

  -- The resampler that a successful round leaves, and what it consumed.
  take_resampled-ok :
      (b : RateBoundary F S) (c : Collector F S) (r : Outcome ProcessProgress × List F × S) (n : ℕ)
      → (take_resampled N P b c r).0 ≡ ok n
      → (p : ProcessProgress) × (r.0 ≡ ok p)
        × (p.consumed_frames ≡ n)
        × ((take_resampled N P b c r).1.resampler ≡ some r.2)
  unfolding take_resampled
  take_resampled-ok b c (err e, output, s) n h = absurd (ground arith)
  take_resampled-ok b c (ok p, output, s) n h = (p, refl, ground arith, ground arith)

  take_resampled-Alike :
      (b : RateBoundary F S) (c : Collector F S) (r : Outcome ProcessProgress × List F × S)
      → Alike b (take_resampled N P b c r).1
  unfolding take_resampled
  take_resampled-Alike b c (err e, output, s) = (refl, length-overwrite b.scratch 0 output)
  take_resampled-Alike b c (ok p, output, s) = elim (Result-cases pushed.0) [
    | inr (x, e) ↦ rw (take_resampled, e) (refl, room)
    | inl (u, e) ↦ elim (Result-cases (checked_frame_sum b.input_frames_seen p.consumed_frames)) [
      | inr (x, e') ↦ rw (take_resampled, e, e') (refl, room)
      | inl (n, e') ↦ rw (take_resampled, e, e') (refl, room)
    ]
  ]
    where
      pushed : Left F S
      pushed =
          push_pre_limiter N P c
            (take (p.produced_frames * b.channels) (overwrite b.scratch 0 output))

      room : length (overwrite (overwrite b.scratch 0 output) 0 pushed.1) ≡ length b.scratch
      room =
          length-overwrite (overwrite b.scratch 0 output) 0 pushed.1
          ∙ length-overwrite b.scratch 0 output

  boundary_round-Alike :
      (b : RateBoundary F S) (c : Collector F S) (s : S) (source : List F) (consumed : ℕ)
      → Alike b (boundary_round N P b c s source consumed).1
  unfolding boundary_round
  boundary_round-Alike b c s source consumed =
      elim (Result-cases (round_buffers N P b c source consumed)) [
        | inr (x, e) ↦ rw (boundary_round, e) (refl, refl)
        | inl (buffers, e) ↦
            rw (boundary_round, e) (take_resampled-Alike b c (process_checked P s buffers))
      ]

  -- The input of a round is not empty while there are frames left, nor its output over a scratch with
  -- a frame.
  round_input :
      (b : RateBoundary F S) (c : Collector F S) (source : List F) (consumed : ℕ)
      (buffers : ProcessBuffers F)
      → consumed < length source / b.channels
      → 0 < length b.scratch / b.channels
      → round_buffers N P b c source consumed ≡ ok buffers
      → (0 < (capacity buffers).input_frames) × (0 < (capacity buffers).output_frames)
  unfolding round_buffers out_of_place_buffers
  round_input b c source consumed buffers lt room h = elim (Result-cases input) [
    | inr (x, e) ↦ absurd (ground arith)
    | inl (i, e) ↦ elim (Result-cases output) [
      | inr (x, e') ↦ absurd (ground arith)
      | inl (o, e') ↦
          let same : capacity buffers ≡ capacity (ProcessBuffers.out_of_place i o) = ground arith in
          let given = round_capacity c (length b.scratch / b.channels) room in
          let frames =
            block_capacity b.scratch b.channels
              (max (observation_capacity_frames c (length b.scratch / b.channels)) 1)
              (block_of_channels (drop (consumed * b.channels) source) b.channels e) given.1 e' in
          rw same (left_frames source b.channels consumed lt e, omega (arith, frames, given.0))
    ]
  ]
    where
      input : Outcome (AudioBlock F)
      input = block_of (drop (consumed * b.channels) source) b.channels

      output : Outcome (AudioBlock F)
      output =
          block_of
            (take
              (max (observation_capacity_frames c (length b.scratch / b.channels)) 1 * b.channels)
              b.scratch)
            b.channels

  module _ (x : Exhausts P) where
    boundary_round-less :
        (b : RateBoundary F S) (c : Collector F S) (s : S) (source : List F) (consumed n : ℕ)
        → consumed < length source / b.channels
        → 0 < length b.scratch / b.channels
        → (boundary_round N P b c s source consumed).0 ≡ ok n
        → (s' : S) × ((boundary_round N P b c s source consumed).1.resampler ≡ some s')
          × (n ≡ 0 → x.backlog s' < x.backlog s)
    unfolding boundary_round
    boundary_round-less b c s source consumed n lt room h =
        elim (Result-cases (round_buffers N P b c source consumed)) [
          | inr (y, e) ↦ absurd (ground arith)
          | inl (buffers, e) ↦
              let run = process_checked P s buffers in
              let left = take_resampled-ok b c run n (rw (boundary_round, e) at h) in
              (
                run.2,
                rw (boundary_round, e) left.3,
                λ z.
                    let given = round_input b c source consumed buffers lt room e in
                    x.less s buffers left.0 given.0 given.1 left.1 (left.2 ∙ z),
              )
        ]

    -- A round uses up input, or what the resampler held back.
    smaller_left :
        (consumed n frames : ℕ) (s s' : S) {fuel : ℕ}
        → consumed < frames
        → (n ≡ 0 → x.backlog s' < x.backlog s)
        → (frames - consumed) * (x.most + 1) + x.backlog s < suc fuel
        → (frames - (consumed + n)) * (x.most + 1) + x.backlog s' < fuel
    smaller_left consumed zero frames s s' lt less h =
        let d : x.backlog s' < x.backlog s = less refl in
        let z : frames - (consumed + 0) ≡ frames - consumed = omega arith in rw z (omega arith)
    smaller_left consumed (suc n) frames s s' lt less h =
        let m : suc (frames - (consumed + suc n)) * (x.most + 1)
            ≤ (frames - consumed) * (x.most + 1) =
          mul-le-mul_right (x.most + 1) (omega arith) in
        omega (arith, m, x.bounded s')

    boundary_loop-ends :
        (fuel : ℕ) (b : RateBoundary F S) (c : Collector F S) (s : S) (source : List F)
        (consumed frames : ℕ)
        → IsCollector c
        → b.resampler ≡ some s
        → frames ≡ length source / b.channels
        → 0 < length b.scratch / b.channels
        → (frames - consumed) * (x.most + 1) + x.backlog s < fuel
        → (r : Passed F S) × (boundary_loop N P fuel b c source consumed frames ≡ some r)
          × Bounded c r.3
          × Alike b r.2
    unfolding boundary_loop
    boundary_loop-ends zero b c s source consumed frames v e whole room h = absurd (omega arith)
    boundary_loop-ends (suc fuel) b c s source consumed frames v e whole room h =
        elim (Bool-cases (not (ltb consumed frames) || observation_stopped c)) [
          | inl done ↦ ((ok tt, source, b, c), ground (arith, done), Bounded-refl c v, (refl, refl))
          | inr more ↦ elim (Result-cases run.0) [
            | inr (y, e') ↦ (
              (err y, source, run.1, run.2),
              ground (arith, more, e, e'),
              step,
              boundary_round-Alike b c s source consumed,
            )
            | inl (n, e') ↦
                let next =
                  boundary_round-less b c s source consumed n (ground (arith, more, whole)) room
                    e' in
                let rest =
                  boundary_loop-ends fuel run.1 run.2 next.0 source (consumed + n) frames step.sound
                    next.1
                    (whole
                      ∙ ap (λ (t : ℕ). length source / t)
                          (sym (boundary_round-Alike b c s source consumed).0))
                    (alike_room (boundary_round-Alike b c s source consumed).1
                      (boundary_round-Alike b c s source consumed).0 room)
                    (smaller_left consumed n frames s next.0 (ground (arith, more)) next.2 h) in
                (
                  rest.0,
                  ground (arith, more, e, e', rest.1),
                  Bounded-trans c run.2 _ step rest.2,
                  (
                    rest.3.0 ∙ (boundary_round-Alike b c s source consumed).0,
                    rest.3.1 ∙ (boundary_round-Alike b c s source consumed).1,
                  ),
                )
          ]
        ]
      where
        run : Outcome ℕ × RateBoundary F S × Collector F S
        run = boundary_round N P b c s source consumed

        step : Bounded c run.2
        step = boundary_round-Bounded b c s source consumed v

    -- A push through the rate boundary, with a frame of scratch and over a resampler that cannot
    --   render for ever without input, ends, with fuel for every frame and all that the resampler may
    --   hold back at each of them; it keeps the collector sound, its tail within the budget, and the
    --   boundary's channels and room.
    pub push-ends :
        (fuel : ℕ) (b : RateBoundary F S) (c : Collector F S) (source : List F)
        → IsCollector c
        → 0 < length b.scratch / b.channels
        → (length source / b.channels + 1) * (x.most + 1) < fuel
        → (r : Passed F S) × (push N P fuel b c source ≡ some r) × Bounded c r.3 × Alike b r.2
    unfolding push
    push-ends fuel b c source v room h = elim (Option-cases b.resampler) [
      | inl e ↦
          let out = push_pre_limiter N P c source in
          (
            (out.0, out.1, b, out.2),
            ground (arith, e),
            push_pre_limiter-Bounded N P c source v,
            (refl, refl),
          )
      | inr (s, e) ↦ elim (Result-cases (block_of source b.channels)) [
        | inr (y, e') ↦
            ((err y, source, b, c), ground (arith, e, e'), Bounded-refl c v, (refl, refl))
        | inl (input, e') ↦
            let run =
              boundary_loop-ends fuel b c s source 0 input.frames v e
                (block_of_frames source b.channels e') room
                (enough s (block_of_frames source b.channels e')) in
            (run.0, ground (arith, e, e', run.1), run.2, run.3)
      ]
    ]
      where
        enough :
            (s : S) {frames : ℕ}
            → frames ≡ length source / b.channels
            → (frames - 0) * (x.most + 1) + x.backlog s < fuel
        enough s {frames} e =
            let z : (frames - 0) * (x.most + 1) ≡ length source / b.channels * (x.most + 1) =
              ap (λ (t : ℕ). t * (x.most + 1)) (omega arith) in
            omega (arith, h, z, x.bounded s)
