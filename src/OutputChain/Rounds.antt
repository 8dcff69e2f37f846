-- ===== src/OutputChain/Rounds.antt =====
-- The finish loops of the limiter and of the rate boundary end, whatever their processors report.
use Prim.Native.String.{String}
use audio_engine_core.Base.{
  ℕ, zero, suc, ◌+◌, ◌-◌, ◌*◌, ◌/◌, ◌≤◌, ◌<◌, ◌≡◌, refl, ◌∙◌, sym, subst, min, false, some, List,
  arith, leb, length, take, overwrite, inl, inr, Bool-cases, Option-cases, length-overwrite,
}
use audio_engine_core.Base.Results.{ok, err, ◌>>=◌, Result-cases}
use audio_engine_core.Float.{Float}
use audio_engine_core.Traits.{
  Outcome, ProcessProgress, backend, is_finished, capacity_for_finish, StreamingProcessor,
  finish_checked,
}
use audio_engine_core.Traits.Progress.{
  WithinCapacity, Honest, fills, ends, replaces, drains, blocks, finish_checked-Honest,
}
use audio_engine_core.DspChain.{block_of}
use audio_engine_core.OutputChain.Collector.{
  Collector, Left, finish_loop, limiter_round, finish_limiter,
}
use audio_engine_core.OutputChain.Budget.{
  IsCollector, Bounded, Bounded-refl, Bounded-trans, relimited,
}
use audio_engine_core.OutputChain.Collected.{push_post_limiter-Bounded, push_pre_limiter-Bounded}
use audio_engine_core.OutputChain.Room.{Alike, block_capacity}
use audio_engine_core.OutputChain.Boundary.{RateBoundary, resampler_round, boundary_finish}

-- What a round must report: an honest progress of its processor, within the frames it may render.
pub record Reported {A W : Type 0} (Inv : W → Type 0) (scratch : List A) (capacity : ℕ)
    (r : Outcome ProcessProgress × List A × W) : Type 0 where
  pub kept : Inv r.2
  pub room : length r.1 ≡ length scratch
  pub honest :
      (p : ProcessProgress)
      → r.0 ≡ ok p
      → WithinCapacity (capacity_for_finish capacity) p × Honest (capacity_for_finish capacity) p

-- An unfinished round has filled what it was given.
pub fills_room :
    (capacity : ℕ) (p : ProcessProgress)
    → Honest (capacity_for_finish capacity) p
    → is_finished p.state ≡ false
    → p.produced_frames ≡ capacity
fills_room capacity p (fills f s e) h = e
fills_room capacity p (ends f s e) h = absurd (ground arith)
fills_room capacity p (replaces f m s e d) h = absurd (ground arith)
fills_room capacity p (drains f m s e) h = absurd (ground arith)
fills_room capacity p (blocks f m s e) h = absurd (ground arith)

module _ {A W : Type 0} (processor message : String) (channels : ℕ)
    (round : W → List A → ℕ → Outcome ProcessProgress × List A × W) (Inv : W → Type 0)
    (reports : (w : W) (scratch : List A) (capacity : ℕ)
      → Inv w
      → capacity ≤ length scratch / channels
      → Reported Inv scratch capacity (round w scratch capacity)) where
  pub finish_loop-ends :
      (fuel : ℕ) (w : W) (scratch : List A) (generated limit : ℕ)
      → Inv w
      → 0 < length scratch / channels
      → limit - generated < fuel
      → (r : Outcome (Unit {0}) × List A × W) × (finish_loop processor message channels round fuel w
            scratch generated limit
          ≡ some r)
        × Inv r.2
        × (length r.1 ≡ length scratch)
  unfolding finish_loop
  finish_loop-ends zero w scratch generated limit v pos h = absurd (omega arith)
  finish_loop-ends (suc fuel) w scratch generated limit v pos h =
      elim (Bool-cases (leb limit generated)) [
        | inl over ↦ (
          (err (backend processor "finish" message), scratch, w),
          rw (finish_loop, over) refl,
          v,
          refl,
        )
        | inr under ↦ elim (Result-cases result.0) [
          | inr (x, e) ↦
              ((err x, result.1, result.2), rw (finish_loop, under, e) refl, step.kept, step.room)
          | inl (p, e) ↦ elim (Bool-cases (is_finished p.state)) [
            | inl done ↦ (
              (ok tt, result.1, result.2),
              rw (finish_loop, under, e, done) refl,
              step.kept,
              step.room,
            )
            | inr more ↦
                let rest =
                  finish_loop-ends fuel result.2 result.1 (generated + p.produced_frames) limit
                    step.kept (rw step.room pos)
                    (let filled = fills_room capacity p (step.honest p e).1 more in ground arith) in
                (rest.0, rw (finish_loop, under, e, more) rest.1, rest.2, rest.3 ∙ step.room)
          ]
        ]
      ]
    where
      capacity : ℕ
      capacity = min (length scratch / channels) (limit - generated)

      result : Outcome ProcessProgress × List A × W
      result = round w scratch capacity

      step : Reported Inv scratch capacity result
      step = reports w scratch capacity v (omega arith)

overwritten :
    {A : Type 0} (xs ys zs : List A) → length (overwrite (overwrite xs 0 ys) 0 zs) ≡ length xs
overwritten xs ys zs = length-overwrite (overwrite xs 0 ys) 0 zs ∙ length-overwrite xs 0 ys

module _ (N : Float) {S : Type 0} (P : StreamingProcessor N.F S) where
  open N use {F}

  pub reported :
      (capacity : ℕ) {frames : ℕ} {p q : ProcessProgress}
      → frames ≡ capacity
      → p ≡ q
      → WithinCapacity (capacity_for_finish frames) p × Honest (capacity_for_finish frames) p
      → WithinCapacity (capacity_for_finish capacity) q × Honest (capacity_for_finish capacity) q
  reported capacity {frames} {p} {q} e h r =
      subst
        (λ (t : ProcessProgress).
          WithinCapacity (capacity_for_finish capacity) t × Honest (capacity_for_finish capacity) t)
        h
        (subst
          (λ (t : ℕ). WithinCapacity (capacity_for_finish t) p × Honest (capacity_for_finish t) p) e
          r)

  then_ok : {p q : ProcessProgress} (o : Outcome (Unit {0})) → (o >>= λ _. ok p) ≡ ok q → p ≡ q
  then_ok (ok u) h = ground arith
  then_ok (err x) h = absurd (ground arith)

  limiter_round-Reported :
      (c0 c : Collector F S) (scratch : List F) (capacity : ℕ)
      → Bounded c0 c
      → capacity ≤ length scratch / c0.channels
      → Reported (Bounded c0) scratch capacity (limiter_round N P c scratch capacity)
  unfolding limiter_round
  limiter_round-Reported c0 c scratch capacity v le =
      elim (Result-cases (block_of (take (capacity * c.channels) scratch) c.channels)) [
        | inr (x, e) ↦
            rw (limiter_round, e)
              (record { kept = v; room = refl; honest = λ p h. absurd (ground arith) })
        | inl (b, e) ↦
            let frames =
              block_capacity scratch c.channels capacity v.sound.channels_pos (rw v.channels le)
                e in
            elim (Result-cases (finish_checked P c.limiter b).0) [
              | inr (x, e') ↦
                  rw (limiter_round, e, e')
                    (record {
                      kept = relimited c0 c _ v;
                      room = length-overwrite scratch 0 _;
                      honest = λ q h. absurd (ground arith);
                    })
              | inl (p, e') ↦
                  let limited = relimited c0 c (finish_checked P c.limiter b).2 v in
                  rw (limiter_round, e, e')
                    (record {
                      kept =
                          Bounded-trans c0 _ _ limited
                            (push_post_limiter-Bounded N P _ _ limited.sound);
                      room = overwritten scratch _ _;
                      honest = λ q h.
                          reported capacity frames (then_ok _ h)
                            (finish_checked-Honest P c.limiter b e');
                    })
            ]
      ]

  resampler_round-Reported :
      (c0 : Collector F S) (channels : ℕ) (w : S × Collector F S) (scratch : List F) (capacity : ℕ)
      → channels ≡ c0.channels
      → Bounded c0 w.1
      → capacity ≤ length scratch / channels
      → Reported
          (λ (t : S × Collector F S). Bounded c0 t.1)
          scratch
          capacity
          (resampler_round N P channels w scratch capacity)
  unfolding resampler_round
  resampler_round-Reported c0 channels (s, c) scratch capacity same v le =
      elim (Result-cases (block_of (take (capacity * channels) scratch) channels)) [
        | inr (x, e) ↦
            rw (resampler_round, e)
              (record { kept = v; room = refl; honest = λ p h. absurd (ground arith) })
        | inl (b, e) ↦
            let frames =
              block_capacity scratch channels capacity
                (rw (same ∙ sym v.channels) v.sound.channels_pos) le e in
            elim (Result-cases (finish_checked P s b).0) [
              | inr (x, e') ↦
                  rw (resampler_round, e, e')
                    (record {
                      kept = v;
                      room = length-overwrite scratch 0 _;
                      honest = λ q h. absurd (ground arith);
                    })
              | inl (p, e') ↦
                  rw (resampler_round, e, e')
                    (record {
                      kept = Bounded-trans c0 c _ v (push_pre_limiter-Bounded N P c _ v.sound);
                      room = overwritten scratch _ _;
                      honest = λ q h.
                          reported capacity frames (then_ok _ h) (finish_checked-Honest P s b e');
                    })
            ]
      ]

  -- With a frame of scratch and fuel for more rounds than frames, the finish of the limiter ends, in
  --   success or in an error; it keeps the collector sound and its tail within the budget.
  pub finish_limiter-ends :
      (fuel : ℕ) (c : Collector F S) (scratch : List F) (limit : ℕ)
      → IsCollector c
      → 0 < length scratch / c.channels
      → limit < fuel
      → (r : Left F S) × (finish_limiter N P fuel c scratch limit ≡ some r)
        × Bounded c r.2
        × (length r.1 ≡ length scratch)
  finish_limiter-ends fuel c scratch limit v pos h =
      finish_loop-ends "PeakLimiter" "limiter finish exceeded its declared bound" c.channels
        (limiter_round N P) (Bounded c) (limiter_round-Reported c) fuel c scratch 0 limit
        (Bounded-refl c v) pos (omega arith)

  -- So does the finish of the rate boundary, of any resampler, or of none.
  pub boundary_finish-ends :
      (fuel : ℕ) (b : RateBoundary F S) (c : Collector F S) (limit : ℕ)
      → IsCollector c
      → b.channels ≡ c.channels
      → 0 < length b.scratch / b.channels
      → limit < fuel
      → (r : Outcome (Unit {0}) × RateBoundary F S × Collector F S) × (boundary_finish N P fuel b c
            limit
          ≡ some r)
        × Bounded c r.2
        × Alike b r.1
  unfolding boundary_finish
  boundary_finish-ends fuel b c limit v same pos h = elim (Option-cases b.resampler) [
    | inl e ↦ ((ok tt, b, c), ground (arith, e), Bounded-refl c v, (refl, refl))
    | inr (s, e) ↦
        let run =
          finish_loop-ends "Resampler" "resampler finish exceeded its declared bound" b.channels
            (resampler_round N P b.channels) (λ (t : S × Collector F S). Bounded c t.1)
            (λ w scratch capacity. resampler_round-Reported c b.channels w scratch capacity same)
            fuel (s, c) b.scratch 0 limit (Bounded-refl c v) pos (omega arith) in
        (
          (run.0.0, record b { resampler = some run.0.2.0; scratch = run.0.1 }, run.0.2.1),
          rw (boundary_finish, e, run.1) refl,
          run.2,
          (refl, run.3),
        )
  ]
