-- ===== src/OutputChain/Collected.antt =====
-- What the collector's pushes keep: whole frames, a sound observation, and its bound on a tail.
use audio_engine_core.Base.{
  ℕ, zero, suc, ◌+◌, ◌-◌, ◌*◌, ◌/◌, ◌≤◌, ◌≡◌, refl, true, Option, some, List, ◌++◌, arith, ltb,
  is_some, length, take, drop, overwrite, inl, inr, Bool-cases, Option-cases, length-append,
  length-take, length-overwrite,
}
use mathlib.Core.List.{map}
use native.Mathlib.Nat.{mul-le-mul_right, div-add-mod}
use audio_engine_core.Base.Results.{Result-cases}
use audio_engine_core.DspChain.{block_of}
use audio_engine_core.Float.{Float}
use audio_engine_core.Traits.{Outcome, ProcessProgress, StreamingProcessor}
use audio_engine_core.OutputChain.Tail.{TailObservation, ObservationDecision, observe}
use audio_engine_core.OutputChain.Observed.{IsObservation, observe-IsObservation, observe-fixed}
use audio_engine_core.OutputChain.Collector.{
  Collector, Left, observation_stopped, decide, process_fixed_stage, retain, push_post_limiter,
  push_chunk, push_frames, push_pre_limiter, observation_capacity_frames, leaves,
}
use audio_engine_core.OutputChain.Budget.{
  length-map, budget, frames, IsCollector, Bounded, Bounded-refl, Bounded-trans, with_frames,
  truncate-Bounded, relimited,
}

module _ (N : Float) {S : Type 0} (P : StreamingProcessor N.F S) where
  open N use {F}

  pub length-fixed_stage :
      (s : S) (buffer : List F) (channels : ℕ)
      → length (process_fixed_stage N P s buffer channels).1 ≡ length buffer
  unfolding process_fixed_stage
  length-fixed_stage s buffer channels = elim (Result-cases (block_of buffer channels)) [
    | inl (b, e) ↦ rw (process_fixed_stage, e) (length-overwrite buffer 0 _)
    | inr (x, e) ↦ rw (process_fixed_stage, e) refl
  ]

  -- A collector with another observation, and `n` frames more, which it takes from the budget.
  spent-Bounded :
      (c : Collector F S) (o : Option (TailObservation F)) (s : S) (xs : List F) (n : ℕ)
      → IsCollector c
      → ((t : TailObservation F) → o ≡ some t → IsObservation t)
      → length xs ≡ (frames c + n) * c.channels
      → is_some o ≡ is_some c.observation
      → (is_some c.observation ≡ true → budget o + n ≤ budget c.observation)
      → Bounded c (record c { observation = o; noise_shaper = s; samples = xs })
  spent-Bounded c o s xs n v w e same spent =
      let grown = with_frames c xs (frames c + n) v e in
      record {
        sound = record { channels_pos = v.channels_pos; whole = grown.0.whole; observed = w };
        channels = refl;
        active = same;
        bound = λ h. omega (arith, grown.1, spent h);
      }

  retain-Bounded :
      (c : Collector F S) (o : Option (TailObservation F)) (block : List F) (keep : ℕ)
      → IsCollector c
      → ((t : TailObservation F) → o ≡ some t → IsObservation t)
      → keep * c.channels ≤ length block
      → is_some o ≡ is_some c.observation
      → (is_some c.observation ≡ true → budget o + keep ≤ budget c.observation)
      → Bounded c (retain N P (record c { observation = o }) block (keep * c.channels)).2
  unfolding retain
  retain-Bounded c o block keep v w fits same spent =
      elim (Bool-cases (ltb 0 (keep * c.channels))) [
        | inl some_kept ↦ elim (Result-cases shaping.0) [
          | inl (p, e) ↦
              rw (retain, some_kept, e)
                (spent-Bounded c o shaping.2 (c.samples ++ map N.narrow shaping.1) keep v w
                  (omega (
                    arith,
                    length-append c.samples (map N.narrow shaping.1),
                    length-map N.narrow shaping.1,
                    v.whole,
                    shaped,
                  ))
                  same spent)
          | inr (x, e) ↦
              rw (retain, some_kept, e)
                (spent-Bounded c o shaping.2 c.samples 0 v w (omega (arith, v.whole)) same
                  (λ h. omega (arith, spent h)))
        ]
        | inr none_kept ↦
            rw (retain, none_kept)
              (spent-Bounded c o c.noise_shaper c.samples 0 v w (omega (arith, v.whole)) same
                (λ h. omega (arith, spent h)))
      ]
    where
      shaping : Outcome ProcessProgress × List F × S
      shaping = process_fixed_stage N P c.noise_shaper (take (keep * c.channels) block) c.channels

      shaped : length shaping.1 ≡ keep * c.channels
      shaped = omega (
        arith,
        fits,
        length-fixed_stage c.noise_shaper (take (keep * c.channels) block) c.channels,
        length-take (keep * c.channels) block,
      )

  observe-budget :
      (o : TailObservation F) (block : List F) (channels at : ℕ)
      → IsObservation o
      → budget (some (observe N o block channels at).1)
          + (observe N o block channels at).0.keep_frames
        ≤ budget (some o)
  unfolding budget
  observe-budget o block channels at v =
      let kept = observe-IsObservation N o block channels at v in
      let fixed = observe-fixed N o block channels at in
      omega (arith, v.bounded, kept.0.bounded, kept.2, fixed)

  -- What the decision about a block keeps of it, and takes from the budget.
  record Decided (c : Collector F S) (block : List F) (d : ObservationDecision)
      (o : Option (TailObservation F)) : Type 0 where
    observed : (t : TailObservation F) → o ≡ some t → IsObservation t
    fits : d.keep_frames * c.channels ≤ length block
    active : is_some o ≡ is_some c.observation
    spent : is_some c.observation ≡ true → budget o + d.keep_frames ≤ budget c.observation

  whole_fits :
      (c : Collector F S) (block : List F) (k : ℕ)
      → k ≤ length block / c.channels
      → k * c.channels ≤ length block
  whole_fits c block k h =
      let le : k * c.channels ≤ length block / c.channels * c.channels =
        mul-le-mul_right c.channels h in
      omega (arith, le, div-add-mod (length block) c.channels)

  decide-Decided :
      (c : Collector F S) (block : List F)
      → IsCollector c
      → Decided c block (decide N c block).0 (decide N c block).1
  unfolding decide
  decide-Decided c block v = elim (Option-cases c.observation) [
    | inl e ↦ record {
      observed = ground (arith, e);
      fits = ground (arith, e, whole_fits c block (length block / c.channels));
      active = ground (arith, e);
      spent = λ h. ground (arith, e);
    }
    | inr (o, e) ↦
        let at = length c.samples / c.channels in
        let kept = observe-IsObservation N o block c.channels at (v.observed o e) in
        let fixed = observe-fixed N o block c.channels at in
        record {
          observed = ground (arith, e, kept.0);
          fits = rw (decide, e) (whole_fits c block _ kept.1);
          active = ground (arith, e);
          spent = λ h. rw (decide, e) (observe-budget o block c.channels at (v.observed o e));
        }
  ]

  -- A push past the limiter keeps the collector sound, and within the budget of its tail.
  pub push_post_limiter-Bounded :
      (c : Collector F S) (block : List F)
      → IsCollector c
      → Bounded c (push_post_limiter N P c block).2
  unfolding push_post_limiter
  push_post_limiter-Bounded c block v = elim (Bool-cases (observation_stopped c)) [
    | inl stopped ↦ rw (push_post_limiter, stopped) (Bounded-refl c v)
    | inr open_tail ↦
        elim (Result-cases (retain N P open_c block (decision.keep_frames * c.channels)).0) [
          | inl (u, e) ↦ rw (push_post_limiter, open_tail, e) (truncate-Bounded _ c _ kept)
          | inr (x, e) ↦ rw (push_post_limiter, open_tail, e) kept
        ]
  ]
    where
      decision : ObservationDecision
      decision = (decide N c block).0

      open_c : Collector F S
      open_c = record c { observation = (decide N c block).1 }

      kept : Bounded c (retain N P open_c block (decision.keep_frames * c.channels)).2
      kept =
          let d = decide-Decided c block v in
          retain-Bounded c (decide N c block).1 block decision.keep_frames v d.observed d.fits
            d.active d.spent

  push_chunk-Bounded :
      (c : Collector F S) (chunk : List F) → IsCollector c → Bounded c (push_chunk N P c chunk).2
  unfolding push_chunk
  push_chunk-Bounded c chunk v = elim (Result-cases limiting.0) [
    | inl (p, e) ↦
        rw (push_chunk, e)
          (Bounded-trans c limited _ step (push_post_limiter-Bounded limited limiting.1 step.sound))
    | inr (x, e) ↦ rw (push_chunk, e) step
  ]
    where
      limiting : Outcome ProcessProgress × List F × S
      limiting = process_fixed_stage N P c.limiter chunk c.channels

      limited : Collector F S
      limited = record c { limiter = limiting.2 }

      step : Bounded c limited
      step = relimited c c limiting.2 (Bounded-refl c v)

  push_frames-Bounded :
      (rounds : ℕ) (c : Collector F S) (block : List F) (processed total : ℕ)
      → IsCollector c
      → Bounded c (push_frames N P rounds c block processed total).2
  unfolding push_frames
  push_frames-Bounded zero c block processed total v = Bounded-refl c v
  push_frames-Bounded (suc rounds) c block processed total v =
      elim (Bool-cases (leaves c processed total)) [
        | inl done ↦ rw (push_frames, done) (Bounded-refl c v)
        | inr more ↦ elim (Result-cases pushed.0) [
          | inr (x, e) ↦ rw (push_frames, more, e) step
          | inl (u, e) ↦
              rw (push_frames, more, e)
                (Bounded-trans c pushed.2 _ step
                  (push_frames-Bounded rounds pushed.2 _ _ total step.sound))
        ]
      ]
    where
      taken : ℕ
      taken = observation_capacity_frames c (total - processed)

      pushed : Left F S
      pushed = push_chunk N P c (take (taken * c.channels) (drop (processed * c.channels) block))

      step : Bounded c pushed.2
      step = push_chunk-Bounded c _ v

  -- A push through the limiter keeps the collector sound: whole frames, and an observation within its
  --   bounds. Its frames and what is left of the budget of an observed tail do not grow together.
  pub push_pre_limiter-Bounded :
      (c : Collector F S) (block : List F)
      → IsCollector c
      → Bounded c (push_pre_limiter N P c block).2
  push_pre_limiter-Bounded c block v =
      push_frames-Bounded (length block / c.channels) c block 0 (length block / c.channels) v

  -- Once the rounds are as many as the frames left, more of them change nothing.
  pub push_frames-more :
      (n rounds : ℕ) (c : Collector F S) (block : List F) (processed total : ℕ)
      → rounds ≤ n
      → total - processed ≤ rounds
      → push_frames N P n c block processed total ≡ push_frames N P rounds c block processed total
  unfolding push_frames
  push_frames-more zero zero c block processed total le h = refl
  push_frames-more zero (suc rounds) c block processed total le h = absurd (omega arith)
  push_frames-more (suc n) zero c block processed total le h =
      let done : leaves c processed total ≡ true = ground arith in rw (push_frames, done) refl
  push_frames-more (suc n) (suc rounds) c block processed total le h =
      elim (Bool-cases (leaves c processed total)) [
        | inl done ↦ rw (push_frames, done) refl
        | inr more ↦ elim (Result-cases pushed.0) [
          | inr (x, e) ↦ rw (push_frames, more, e) refl
          | inl (u, e) ↦
              rw (push_frames, more, e)
                (push_frames-more n rounds pushed.2
                  (overwrite block (processed * c.channels) pushed.1) (processed + taken) total
                  (omega arith) (ground arith))
        ]
      ]
    where
      taken : ℕ
      taken = observation_capacity_frames c (total - processed)

      pushed : Left F S
      pushed = push_chunk N P c (take (taken * c.channels) (drop (processed * c.channels) block))
