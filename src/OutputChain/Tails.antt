-- ===== src/OutputChain/Tails.antt =====
-- The tail that `drive_offline_stage` renders: it ends, within the limit of its frames.
use audio_engine_core.Base.{
  ℕ, zero, suc, ◌+◌, ◌-◌, ◌*◌, ◌/◌, ◌≤◌, ◌<◌, ◌≡◌, refl, ◌∙◌, ap, min, false, ◌||◌, some, List,
  ◌++◌, arith, leb, length, take, overwrite, inl, inr, Bool-cases, Option-cases, length-overwrite,
}
use native.Mathlib.Nat.{mul-div_cancel}
use audio_engine_core.Base.Results.{ok, err, Result-cases}
use audio_engine_core.Float.{Float}
use audio_engine_core.Traits.{Outcome, is_finished, StreamingProcessor, finish_checked}
use audio_engine_core.Traits.Progress.{finish_checked-Honest}
use audio_engine_core.DspChain.{block_of}
use audio_engine_core.OutputChain.Room.{block_capacity}
use audio_engine_core.OutputChain.Rounds.{fills_room, reported}
use audio_engine_core.OutputChain.Offline.{Drive, FinishState, inspect, tail_round, drive_tail}

module _ (N : Float) {S : Type 0} (P : StreamingProcessor N.F S) where
  open N use {F}

  inspect-fixed :
      (channels protected appended : ℕ) (d : Drive F S) (f : FinishState F) (produced : ℕ)
      → ((inspect N P channels protected appended d f produced).0.scratch ≡ d.scratch)
        × ((inspect N P channels protected appended d f produced).1.terminal ≡ f.terminal)
  unfolding inspect
  inspect-fixed channels protected appended d f produced = elim (Option-cases f.detector) [
    | inl e ↦ ground (arith, e)
    | inr (t, e) ↦ ground (arith, e)
  ]

  -- What a round leaves: its scratch, and on success the frames of an honest report.
  record Rendered (d : Drive F S) (f : FinishState F) (capacity : ℕ) (d' : Drive F S)
      (r : Outcome (FinishState F)) : Type 0 where
    room : length d'.scratch ≡ length d.scratch
    counted :
        (g : FinishState F)
        → r ≡ ok g
        → (f.frames ≤ g.frames)
          × (g.frames ≤ f.frames + capacity)
          × (g.terminal ≡ false → g.frames ≡ f.frames + capacity)

  tail_round-Rendered :
      (channels protected capacity : ℕ) (f : FinishState F) (d : Drive F S)
      → 0 < channels
      → capacity ≤ length d.scratch / channels
      → (d' : Drive F S) × (r : Outcome (FinishState F)) × (tail_round N P channels protected
            capacity f d
          ≡ some (d', r))
        × Rendered d f capacity d' r
  unfolding tail_round
  tail_round-Rendered channels protected capacity f d pos le =
      elim (Result-cases (block_of (take (capacity * channels) d.scratch) channels)) [
        | inr (x, e) ↦ (
          d,
          err x,
          ground (arith, e),
          record { room = refl; counted = λ g h. absurd (ground arith) },
        )
        | inl (b, e) ↦
            let run = finish_checked P d.processor b in
            let scratch = overwrite d.scratch 0 run.1 in
            let room : length scratch ≡ length d.scratch = length-overwrite d.scratch 0 run.1 in
            elim (Result-cases run.0) [
              | inr (x, e') ↦ (
                record d { processor = run.2; scratch = scratch },
                err x,
                ground (arith, e, e'),
                record { room = room; counted = λ g h. absurd (ground arith) },
              )
              | inl (p, e') ↦
                  let seen =
                    inspect N P channels protected (length d.samples / channels)
                      (record d {
                        processor = run.2;
                        scratch = scratch;
                        samples = d.samples ++ take (p.produced_frames * channels) scratch;
                      })
                      f p.produced_frames in
                  let fixed =
                    inspect-fixed channels protected (length d.samples / channels)
                      (record d {
                        processor = run.2;
                        scratch = scratch;
                        samples = d.samples ++ take (p.produced_frames * channels) scratch;
                      })
                      f p.produced_frames in
                  (
                    seen.0,
                    ok (record (seen.1) {
                      frames = f.frames + p.produced_frames;
                      terminal = is_finished p.state || f.terminal;
                    }),
                    ground (arith, e, e'),
                    record {
                      room = ap (λ (t : List F). length t) fixed.0 ∙ room;
                      counted = λ g h.
                          let same : f.frames + p.produced_frames ≡ g.frames = ground arith in
                          let ended : (is_finished p.state || f.terminal) ≡ g.terminal =
                            ground arith in
                          let report =
                            reported N P capacity
                              (block_capacity d.scratch channels capacity pos le e) refl
                              (finish_checked-Honest P d.processor b e') in
                          (
                            omega (arith, same),
                            omega (arith, same, report.0.produced_fits),
                            λ t.
                                let more : is_finished p.state ≡ false = ground arith in
                                omega (arith, same, fills_room capacity p report.1 more),
                          );
                    },
                  )
            ]
      ]

  -- With a frame of scratch and fuel for each frame, the loop over the tail ends; where it succeeds,
  --   it has rendered no more than its limit, and all of it unless the stream ended or was cut.
  pub drive_tail-ends :
      (fuel channels protected block_frames limit : ℕ) (f : FinishState F) (d : Drive F S)
      → 0 < channels
      → 0 < block_frames
      → length d.scratch ≡ block_frames * channels
      → f.frames ≤ limit
      → limit - f.frames < fuel
      → (d' : Drive F S) × (r : Outcome (FinishState F)) × (drive_tail N P fuel channels protected
            block_frames limit f d
          ≡ some (d', r))
        × ((g : FinishState F)
            → r ≡ ok g
            → (g.frames ≤ limit)
              × (g.terminal ≡ false → g.energy_stopped ≡ false → g.frames ≡ limit))
  unfolding drive_tail
  drive_tail-ends zero channels protected block_frames limit f d pos some_frames room within h =
      absurd (omega arith)
  drive_tail-ends (suc fuel) channels protected block_frames limit f d pos some_frames room within
        h =
      elim (Bool-cases (leb limit f.frames)) [
        | inl full ↦ (d, ok f, ground (arith, full), λ g e. ground arith)
        | inr more ↦
            let capacity = min block_frames (limit - f.frames) in
            let fits : capacity ≤ length d.scratch / channels =
              rw (room, mul-div_cancel block_frames {n = channels} pos) (omega arith) in
            let round = tail_round-Rendered channels protected capacity f d pos fits in
            elim (Result-cases round.1) [
              | inr (x, e) ↦
                  (round.0, err x, ground (arith, more, round.2, e), λ g k. absurd (ground arith))
              | inl (g, e) ↦
                  let counted = round.3.counted g e in
                  elim (Bool-cases (g.terminal || g.energy_stopped)) [
                    | inl over ↦ (
                      round.0,
                      ok g,
                      ground (arith, more, round.2, e, over),
                      λ k q. ground (arith, counted),
                    )
                    | inr go ↦
                        let rest =
                          drive_tail-ends fuel channels protected block_frames limit g round.0 pos
                            some_frames (round.3.room ∙ room) (ground (arith, counted))
                            (ground (arith, counted)) in
                        (rest.0, rest.1, ground (arith, more, round.2, e, go, rest.2), rest.3)
                  ]
            ]
      ]
