-- ===== src/OutputChain/Drained.antt =====
-- The tail of a source stage in a render: its loop ends, and keeps the collector within its bounds.
use audio_engine_core.Base.{
  ℕ, zero, suc, ◌+◌, ◌-◌, ◌≤◌, ◌<◌, ◌≡◌, refl, ◌∙◌, ap, min, Bool, true, false, ◌&&◌, Option, none,
  some, arith, leb, inl, inr, Bool-cases,
}
use audio_engine_core.Base.Results.{ok, err, Result-cases}
use audio_engine_core.Float.{Float}
use audio_engine_core.Timing.{fit_usize}
use audio_engine_core.Traits.{
  Outcome, ProcessProgress, is_finished, capacity_for_finish, StreamingProcessor,
}
use audio_engine_core.Traits.Progress.{WithinCapacity}
use audio_engine_core.OutputChain.{timed, checked_frame_sum}
use audio_engine_core.OutputChain.Collector.{observation_stopped}
use audio_engine_core.OutputChain.Budget.{Bounded-refl, Bounded-trans}
use audio_engine_core.OutputChain.Room.{Exhausts}
use audio_engine_core.OutputChain.Rounds.{fills_room}
use audio_engine_core.OutputChain.Sources.{OutputStageId}
use audio_engine_core.OutputChain.Render.{
  Run, ◌>>=◌, lift, done, Rendering, StageEnd, terminal, pass_tail, finish_stage, tail_loop,
}
use audio_engine_core.OutputChain.Fitting.{
  IsRendering, Ends, push_fuel, pass_tail-Ends, finish_stage-Ends, finish_stage-Honest,
}

module _ (N : Float) {S : Type 0} (P : StreamingProcessor N.F S) (x : Exhausts P)
    (channels block_frames : ℕ) (some_channels : 0 < channels) where
  open N use {F}

  abbrev bind_option :
      {A B : Type 0}
      → Option (Rendering F S × Outcome A)
      → (A → Run (Rendering F S) B)
      → Option (Rendering F S × Outcome B)
  bind_option o f = elim o [
    | none ↦ none
    | some (w', err e) ↦ some (w', err e)
    | some (w', ok a) ↦ f a w'
  ]

  pub combined :
      {A B : Type 0} (w : Rendering F S) {w1 : Rendering F S} {r s : Outcome A}
      {t : Option (Rendering F S × Outcome B)} (m : Run (Rendering F S) A)
      (f : A → Run (Rendering F S) B)
      → m w ≡ some (w1, r)
      → r ≡ s
      → ((λ _. some (w1, s)) >>= f) w ≡ t
      → (m >>= f) w ≡ t
  combined {A} {B} w {w1} m f e g h =
      ap (λ (o : Option (Rendering F S × Outcome A)). bind_option o f)
        (e ∙ ap (λ o. some (w1, o)) g)
      ∙ h

  -- What follows a part that ends, from where it was left.
  then-Ends :
      {A B : Type 0} (w : Rendering F S) (m : Run (Rendering F S) A) (f : A → Run (Rendering F S) B)
      (first : Ends channels block_frames w (m w))
      → ((a : A) → first.outcome ≡ ok a → Ends channels block_frames first.left (f a first.left))
      → Ends channels block_frames w ((m >>= f) w)
  then-Ends w m f first next = elim (Result-cases first.outcome) [
    | inr (y, e) ↦ record {
      left = first.left;
      outcome = err y;
      ends = combined w m f first.ends e refl;
      fits = first.fits;
      bounded = first.bounded;
    }
    | inl (a, e) ↦
        let rest = next a e in
        record {
          left = rest.left;
          outcome = rest.outcome;
          ends = combined w m f first.ends e rest.ends;
          fits = rest.fits;
          bounded = Bounded-trans w.collector first.left.collector _ first.bounded rest.bounded;
        }
  ]

  done-Ends :
      {A : Type 0} (w : Rendering F S) (r : Outcome A)
      → IsRendering channels block_frames w
      → Ends channels block_frames w (some (w, r))
  done-Ends w r v = record {
    left = w;
    outcome = r;
    ends = refl;
    fits = v;
    bounded = Bounded-refl w.collector v.collector_sound;
  }

  either-Ends :
      {A : Type 0} (b : Bool) (t u : Run (Rendering F S) A) (w : Rendering F S)
      → (b ≡ true → Ends channels block_frames w (t w))
      → (b ≡ false → Ends channels block_frames w (u w))
      → Ends channels block_frames w
          ((elim b as (λ _. Run (Rendering F S) A) [ true ↦ t | false ↦ u ]) w)
  either-Ends true t u w f g = f refl
  either-Ends false t u w f g = g refl

  summed_lem : (a b : ℕ) {sum : ℕ} → timed (checked_frame_sum a b) ≡ ok sum → sum ≡ a + b
  unfolding checked_frame_sum fit_usize
  summed_lem a b e = ground (arith, e)

  -- Of stages that fit together, over processors that cannot render for ever without input, the loop
  --   over the tail of a source stage ends, with fuel for each of its frames and for the push of a
  --   block. Where it ends, the stages still fit together, and the tail is within its budget.
  pub tail_loop-Ends :
      (fuel : ℕ) (id : OutputStageId) (unknown : Bool) (limit generated : ℕ) (w : Rendering F S)
      → IsRendering channels block_frames w
      → 0 < block_frames
      → push_fuel N P x channels block_frames some_channels + (limit - generated) + 1 < fuel
      → Ends channels block_frames w (tail_loop N P fuel id unknown block_frames limit generated w)
  unfolding tail_loop done-Ends
  tail_loop-Ends zero id unknown limit generated w v pos h = absurd (omega arith)
  tail_loop-Ends (suc fuel) id unknown limit generated w v pos h =
      elim (Bool-cases (unknown && observation_stopped w.collector)) [
        | inl stopped ↦ rw (tail_loop, stopped) (done-Ends w _ v)
        | inr open_tail ↦ elim (Bool-cases (leb limit generated)) [
          | inl full ↦ rw (tail_loop, open_tail, full) (done-Ends w _ v)
          | inr more ↦
              rw (tail_loop, open_tail, more)
                (then-Ends w (finish_stage N P id capacity) again first λ q made.
                  let report =
                    finish_stage-Honest N P x channels block_frames some_channels id capacity w q v
                      least first.ends made in
                  let passing =
                    pass_tail-Ends N P x channels block_frames some_channels fuel id
                      q.produced_frames first.left first.fits (short q report.0) (enough h) in
                  then-Ends first.left (pass_tail N P fuel id q.produced_frames) (λ _. summing q)
                    passing
                    λ u passed.
                      then-Ends passing.left
                        (lift (timed (checked_frame_sum generated q.produced_frames))) (settling q)
                        (done-Ends passing.left _ passing.fits)
                        λ sum summed.
                          either-Ends (is_finished q.state) _ _ passing.left
                            (λ fin. done-Ends passing.left _ passing.fits)
                            λ unfinished.
                              tail_loop-Ends fuel id unknown limit sum passing.left passing.fits pos
                                (left_over sum q.produced_frames summed
                                  (fills_room capacity q report.1 unfinished) more))
        ]
      ]
    where
      settling : ProcessProgress → ℕ → Run (Rendering F S) StageEnd
      settling q sum = elim (is_finished q.state) [
        | true ↦ done terminal
        | false ↦ tail_loop N P fuel id unknown block_frames limit sum
      ]

      summing : ProcessProgress → Run (Rendering F S) StageEnd
      summing q = lift (timed (checked_frame_sum generated q.produced_frames)) >>= settling q

      again : ProcessProgress → Run (Rendering F S) StageEnd
      again q = pass_tail N P fuel id q.produced_frames >>= λ _. summing q

      capacity : ℕ
      capacity = min block_frames (limit - generated)

      least : capacity ≤ block_frames
      least = ground arith

      first : Ends channels block_frames w (finish_stage N P id capacity w)
      first = finish_stage-Ends N P x channels block_frames some_channels id capacity w v

      short :
          (q : ProcessProgress)
          → WithinCapacity (capacity_for_finish capacity) q
          → q.produced_frames ≤ block_frames
      short q r = let fits = r.produced_fits in ground (arith, fits, least)

      enough :
          push_fuel N P x channels block_frames some_channels + (limit - generated) + 1 < suc fuel
          → push_fuel N P x channels block_frames some_channels < fuel
      enough = λ g. omega (arith, g)

      left_over :
          (sum produced : ℕ)
          → timed (checked_frame_sum generated produced) ≡ ok sum
          → produced ≡ capacity
          → leb limit generated ≡ false
          → push_fuel N P x channels block_frames some_channels + (limit - sum) + 1 < fuel
      left_over sum produced e filled more =
          let total : sum ≡ generated + produced = summed_lem generated produced e in
          ground (arith, total, filled, more, h, pos)
