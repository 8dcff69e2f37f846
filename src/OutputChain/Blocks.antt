-- ===== src/OutputChain/Blocks.antt =====
-- The decisions of `TailObservation::observe` do not depend on how a tail is cut into blocks.
use audio_engine_core.Base.{
  ℕ, ◌+◌, ◌-◌, ◌*◌, ◌≤◌, ◌<◌, ◌≡◌, subst, refl, ◌∙◌, sym, ap, Bool, true, false, Option, none, some,
  List, [], ◌∷◌, ◌++◌, arith, leb, if◌then◌else◌, length, take, drop, inl, inr, Bool-cases,
  length-append,
}
use audio_engine_core.Float.{Float}
use audio_engine_core.OutputChain.Chunks.{length-chunks, chunks-append}
use audio_engine_core.OutputChain.Quiet.{observe_next, observe_frames-append}
use audio_engine_core.OutputChain.Tail.{
  TailEnergyDetector, TailObservation, ObservationDecision, chunks, shielded, allowed,
  observe_frames, settle, observe,
}
use audio_engine_core.OutputChain.Observed.{
  IsObservation, retained, heard, listen, observe_stopped, observe-listen, heard-append,
  length-heard, settle-IsObservation,
}

module _ (N : Float) where
  open N use {F}

  -- Where no frame is observed, its position does not matter.
  observe_frames-at :
      (d : TailEnergyDetector F) (channels : ℕ) (frames : List (List F)) (at at' : ℕ)
      → (0 < length frames → at ≡ at')
      → observe_frames N d channels frames at ≡ observe_frames N d channels frames at'
  unfolding observe_frames
  observe_frames-at d channels [] at at' h = refl
  observe_frames-at d channels (x ∷ xs) at at' h =
      ap (observe_frames N d channels (x ∷ xs)) (h (omega arith))

  -- The observation after a first block of frames, that was heard as `r`.
  abbrev after :
      TailObservation F → List (List F) → Option ℕ × TailEnergyDetector F → TailObservation F
  after o xs r = (settle N o (length xs) r).1

  settle_counts :
      (o : TailObservation F) (k : ℕ) (r : Option ℕ × TailEnergyDetector F)
      → IsObservation o
      → ((settle N o k r).1.protected_frames ≡ o.protected_frames - shielded o k)
        × ((settle N o k r).1.generated_frames ≡ o.generated_frames + allowed o k)
        × ((settle N o k r).0.keep_frames ≡ shielded o k + allowed o k)
        × ((settle N o k r).1.max_frames ≡ o.max_frames)
  unfolding settle
  settle_counts o k r v = ground (arith, v)

  module _ (o : TailObservation F) (channels : ℕ) (xs ys : List (List F)) (first : ℕ)
      (v : IsObservation o) where
    -- What is heard of both blocks at once.
    listen-next :
        (r : Option ℕ × TailEnergyDetector F)
        → listen N o channels xs first ≡ r
        → listen N o channels (xs ++ ys) first
          ≡ observe_next N channels
              (heard N (after o xs r) ys)
              (first + length xs + shielded (after o xs r) (length ys))
              r
    unfolding listen
    listen-next r e =
        ap (λ (t : List (List F)). observe_frames N o.detector channels t at)
          (heard-append N o xs ys r v)
        ∙ observe_frames-append N o.detector channels (heard N o xs) (heard N (after o xs r) ys) at
            (at + length (heard N o xs)) refl
        ∙ ap (observe_next N channels (heard N (after o xs r) ys) (at + length (heard N o xs))) (
            observe_frames-at o.detector channels (heard N o xs) at (first + shielded o (length xs))
              (λ h. omega (arith, length-heard N o xs, length-append xs ys))
            ∙ e)
        ∙ next r
      where
        at : ℕ
        at = first + shielded o (length (xs ++ ys))

        next :
            (r : Option ℕ × TailEnergyDetector F)
            → observe_next N channels (heard N (after o xs r) ys) (at + length (heard N o xs)) r
              ≡ observe_next N channels
                  (heard N (after o xs r) ys)
                  (first + length xs + shielded (after o xs r) (length ys))
                  r
        next (some k, d) = refl
        next (none, d) = observe_frames-at d channels (heard N (after o xs (none, d)) ys) _ _ (λ h.
            omega (
              arith,
              settle_counts o (length xs) (none, d) v,
              length-heard N o xs,
              length-heard N (after o xs (none, d)) ys,
              length-append xs ys,
            ))

  -- An observation at its bound hears no further block.
  heard-full :
      (o : TailObservation F) (ys : List (List F))
      → o.max_frames ≤ o.generated_frames
      → heard N o ys ≡ []
  heard-full o ys h =
      let z : allowed o (length ys) ≡ 0 = omega arith in
      ap (λ (t : ℕ). take t (drop (shielded o (length ys)) ys)) z

  same_state :
      (o o' : TailObservation F)
      → o.detector ≡ o'.detector
      → o.protected_frames ≡ o'.protected_frames
      → o.generated_frames ≡ o'.generated_frames
      → o.max_frames ≡ o'.max_frames
      → o.stopped ≡ o'.stopped
      → o.capped ≡ o'.capped
      → o ≡ o'
  same_state o o' d p g m s c = cc

  -- Two blocks as one, against the second after the first.
  pub Splits :
      ℕ → ObservationDecision → (whole rest : ObservationDecision × TailObservation F) → Type 0
  Splits first before whole rest =
      (retained first whole.0 ≡ retained (retained first before) rest.0)
      × (whole.1.stopped ≡ rest.1.stopped)
      × (whole.1.capped ≡ rest.1.capped)
      × (rest.1.stopped ≡ false → whole.1 ≡ rest.1)

  module _ (o : TailObservation F) (m n first : ℕ) (v : IsObservation o) where
    Splits-silent :
        (k : ℕ) (d : TailEnergyDetector F)
        → Splits first
            (settle N o m (some k, d)).0
            (settle N o (m + n) (some k, d))
            (record { keep_frames = 0; truncate_to_frame = none }, (settle N o m (some k, d)).1)
    unfolding Splits settle
    Splits-silent k d = (ground arith, ground arith, ground arith, λ h. ground arith)

    Splits-capped :
        (d : TailEnergyDetector F)
        → o.stopped ≡ false
        → (settle N o m (none, d)).1.stopped ≡ true
        → Splits first
            (settle N o m (none, d)).0
            (settle N o (m + n) (none, d))
            (record { keep_frames = 0; truncate_to_frame = none }, (settle N o m (none, d)).1)
    unfolding Splits settle
    Splits-capped d on h =
        (ground (arith, v), ground (arith, v), ground (arith, v), λ k. ground (arith, v))

    -- An observation that goes on has kept the whole block.
    running_counts :
        (d : TailEnergyDetector F)
        → o.stopped ≡ false
        → (settle N o m (none, d)).1.stopped ≡ false
        → (shielded o m + allowed o m ≡ m)
          × (o.generated_frames + allowed o m < o.max_frames)
          × ((settle N o m (none, d)).1.generated_frames ≡ o.generated_frames + allowed o m)
    unfolding settle
    running_counts d on h = ground (arith, v)

    next_counts :
        (d : TailEnergyDetector F) (r : Option ℕ × TailEnergyDetector F)
        → o.stopped ≡ false
        → (settle N o m (none, d)).1.stopped ≡ false
        → (shielded o (m + n) + allowed o (m + n)
            ≡ m + shielded (settle N o m (none, d)).1 n + allowed (settle N o m (none, d)).1 n)
          × ((settle N o (m + n) r).1.protected_frames
              ≡ (settle N (settle N o m (none, d)).1 n r).1.protected_frames)
          × ((settle N o (m + n) r).1.generated_frames
              ≡ (settle N (settle N o m (none, d)).1 n r).1.generated_frames)
    next_counts d r on h = omega (
      arith,
      settle_counts o m (none, d) v,
      settle_counts o (m + n) r v,
      settle_counts (settle N o m (none, d)).1 n r (settle-IsObservation N o m (none, d) v on),
      running_counts d on h,
    )

    still_open :
        (d : TailEnergyDetector F)
        → (settle N o m (none, d)).1.stopped ≡ false
        → (settle N o m (none, d)).1.capped ≡ o.capped
    unfolding settle
    still_open d h = ground arith

    same_flags :
        (d : TailEnergyDetector F) (r : Option ℕ × TailEnergyDetector F)
        → (settle N o m (none, d)).1.capped ≡ o.capped
        → (settle N o (m + n) r).1.generated_frames
          ≡ (settle N (settle N o m (none, d)).1 n r).1.generated_frames
        → ((settle N o (m + n) r).1.stopped ≡ (settle N (settle N o m (none, d)).1 n r).1.stopped)
          × ((settle N o (m + n) r).1.capped ≡ (settle N (settle N o m (none, d)).1 n r).1.capped)
    unfolding settle
    same_flags d (none, e) c g = (
      ap (leb o.max_frames) g,
      ap (λ (t : ℕ). if leb o.max_frames t then true else o.capped) g
          ∙ ap
              (λ (t : Bool).
                if leb o.max_frames
                  (settle N (settle N o m (none, d)).1 n (none, e)).1.generated_frames
                then true
                else t)
              (sym c),
    )
    same_flags d (some k, e) c g = (refl, sym c)

    rest_kept :
        (d : TailEnergyDetector F) (r : Option ℕ × TailEnergyDetector F)
        → ((settle N o (m + n) r).1.detector ≡ (settle N (settle N o m (none, d)).1 n r).1.detector)
          × ((settle N o (m + n) r).1.max_frames
              ≡ (settle N (settle N o m (none, d)).1 n r).1.max_frames)
    unfolding settle
    rest_kept d r = (refl, refl)

    kept :
        (d : TailEnergyDetector F) (r : Option ℕ × TailEnergyDetector F)
        → o.stopped ≡ false
        → (settle N o m (none, d)).1.stopped ≡ false
        → retained first (settle N o (m + n) r).0
          ≡ retained
              (retained first (settle N o m (none, d)).0)
              (settle N (settle N o m (none, d)).1 n r).0
    unfolding settle
    kept d (none, e) on h =
        let c = next_counts d (none, e) on h in
        let k = running_counts d on h in omega (arith, c.0, k.0)
    kept d (some at, e) on h = refl

    Splits-running :
        (d : TailEnergyDetector F) (r : Option ℕ × TailEnergyDetector F)
        → o.stopped ≡ false
        → (settle N o m (none, d)).1.stopped ≡ false
        → Splits first
            (settle N o m (none, d)).0
            (settle N o (m + n) r)
            (settle N (settle N o m (none, d)).1 n r)
    unfolding Splits
    Splits-running d r on h = (
      kept d r on h,
      flags.0,
      flags.1,
      λ k. same_state _ _ same_rest.0 counts.1 counts.2 same_rest.1 flags.0 flags.1,
    )
      where
        counts :
            (shielded o (m + n) + allowed o (m + n)
              ≡ m + shielded (settle N o m (none, d)).1 n + allowed (settle N o m (none, d)).1 n)
            × ((settle N o (m + n) r).1.protected_frames
                ≡ (settle N (settle N o m (none, d)).1 n r).1.protected_frames)
            × ((settle N o (m + n) r).1.generated_frames
                ≡ (settle N (settle N o m (none, d)).1 n r).1.generated_frames)
        counts = next_counts d r on h

        same_rest :
            ((settle N o (m + n) r).1.detector
              ≡ (settle N (settle N o m (none, d)).1 n r).1.detector)
            × ((settle N o (m + n) r).1.max_frames
                ≡ (settle N (settle N o m (none, d)).1 n r).1.max_frames)
        same_rest = rest_kept d r

        flags :
            ((settle N o (m + n) r).1.stopped ≡ (settle N (settle N o m (none, d)).1 n r).1.stopped)
            × ((settle N o (m + n) r).1.capped ≡ (settle N (settle N o m (none, d)).1 n r).1.capped)
        flags = same_flags d r (still_open d h) counts.2

  silent_stops :
      (o : TailObservation F) (m k : ℕ) (d : TailEnergyDetector F)
      → (settle N o m (some k, d)).1.stopped ≡ true
  unfolding settle
  silent_stops o m k d = refl

  settle-detector :
      (o : TailObservation F) (m : ℕ) (r : Option ℕ × TailEnergyDetector F)
      → (settle N o m r).1.detector ≡ r.1
  unfolding settle
  settle-detector o m r = refl

  module _ (o : TailObservation F) (xs ys : List F) (channels m n first : ℕ) (pos : 0 < channels)
      (whole : length xs ≡ m * channels) (whole' : length ys ≡ n * channels) (v : IsObservation o)
      (on : o.stopped ≡ false) where
    abbrev X : List (List F)
    X = chunks m channels xs

    abbrev Y : List (List F)
    Y = chunks n channels ys

    both :
        observe N o (xs ++ ys) channels first
        ≡ settle N o (m + n) (listen N o channels (X ++ Y) first)
    both =
        observe-listen N o (xs ++ ys) channels first (m + n) pos
          (omega (arith, length-append xs ys)) on
        ∙ ap (λ (t : List (List F)). settle N o (m + n) (listen N o channels t first))
            (chunks-append channels m n (m + n) xs ys refl whole)

    Heard : Option ℕ × TailEnergyDetector F → ℕ → ℕ → Type 0
    Heard r k l =
        listen N o channels (X ++ Y) first
        ≡ observe_next N channels (heard N (settle N o k r).1 Y)
            (first + k + shielded (settle N o k r).1 l) r

    -- The observation of both blocks, by what was heard of the first.
    both_by :
        (r : Option ℕ × TailEnergyDetector F)
        → listen N o channels X first ≡ r
        → observe N o (xs ++ ys) channels first
          ≡ settle N o (m + n) (
              observe_next N channels
                (heard N (settle N o m r).1 Y)
                (first + m + shielded (settle N o m r).1 n)
                r)
    unfolding Heard
    both_by r e =
        both
        ∙ ap (settle N o (m + n)) (
            subst (λ k. Heard r k n) (length-chunks m channels xs)
              (subst (λ k. Heard r (length X) k) (length-chunks n channels ys)
                (listen-next o channels X Y first v r e)))

    stop_full :
        (d : TailEnergyDetector F)
        → (settle N o m (none, d)).1.stopped ≡ true
        → (settle N o m (none, d)).1.max_frames ≤ (settle N o m (none, d)).1.generated_frames
    unfolding settle
    stop_full d stop = ground arith

    nothing_heard :
        (d : TailEnergyDetector F)
        → (settle N o m (none, d)).1.stopped ≡ true
        → observe_next N channels
            (heard N (settle N o m (none, d)).1 Y)
            (first + m + shielded (settle N o m (none, d)).1 n)
            (none, d)
          ≡ (none, d)
    unfolding observe_frames
    nothing_heard d stop = rw (heard-full (settle N o m (none, d)).1 Y (stop_full d stop)) refl

    -- Where it goes on, the second block is heard right behind the first.
    listen-go :
        (d : TailEnergyDetector F)
        → (settle N o m (none, d)).1.stopped ≡ false
        → observe_frames N d channels
            (heard N (settle N o m (none, d)).1 Y)
            (first + m + shielded (settle N o m (none, d)).1 n)
          ≡ listen N
              (settle N o m (none, d)).1
              channels
              Y
              (retained first (settle N o m (none, d)).0)
    unfolding listen settle
    listen-go d go =
        ap (observe_frames N d channels (heard N (settle N o m (none, d)).1 Y))
          (omega (arith, running_counts o m n first v d on go, length-chunks n channels ys))

    by_first :
        (r : Option ℕ × TailEnergyDetector F)
        → listen N o channels X first ≡ r
        → Splits first
            (settle N o m r).0
            (observe N o (xs ++ ys) channels first)
            (observe N (settle N o m r).1 ys channels (retained first (settle N o m r).0))
    by_first (some k, d) e =
        rw
          (
            both_by (some k, d) e,
            observe_stopped N (settle N o m (some k, d)).1 ys channels
                (retained first (settle N o m (some k, d)).0) (silent_stops o m k d),
          )
          (Splits-silent o m n first v k d)
    by_first (none, d) e = elim (Bool-cases (settle N o m (none, d)).1.stopped) [
      | inl stop ↦
          rw
            (
              both_by (none, d) e ∙ ap (settle N o (m + n)) (nothing_heard d stop),
              observe_stopped N (settle N o m (none, d)).1 ys channels
                  (retained first (settle N o m (none, d)).0) stop,
            )
            (Splits-capped o m n first v d on stop)
      | inr go ↦
          rw
            (
              both_by (none, d) e ∙ ap (settle N o (m + n)) (listen-go d go),
              observe-listen N (settle N o m (none, d)).1 ys channels
                  (retained first (settle N o m (none, d)).0) n pos whole' go,
            )
            (Splits-running o m n first v d _ on go)
    ]

  Splits-nothing :
      (o : TailObservation F) (first : ℕ)
      → Splits first
          (record { keep_frames = 0; truncate_to_frame = none })
          (record { keep_frames = 0; truncate_to_frame = none }, o)
          (record { keep_frames = 0; truncate_to_frame = none }, o)
  unfolding Splits
  Splits-nothing o first = (omega arith, refl, refl, λ h. refl)

  -- An observation decides the same about a tail in two blocks of whole frames as about it in one:
  --   it keeps as many frames of the output, stops and is capped alike, and goes on alike.
  pub observe-append :
      (o : TailObservation F) (xs ys : List F) (channels m n first : ℕ)
      → 0 < channels
      → length xs ≡ m * channels
      → length ys ≡ n * channels
      → IsObservation o
      → Splits first (observe N o xs channels first).0 (observe N o (xs ++ ys) channels first) (
          observe N
            (observe N o xs channels first).1
            ys
            channels
            (retained first (observe N o xs channels first).0))
  observe-append o xs ys channels m n first pos whole whole' v = elim (Bool-cases o.stopped) [
    | inl done ↦
        rw
          (
            observe_stopped N o xs channels first done,
            observe_stopped N o (xs ++ ys) channels first done,
          )
          (rw (observe_stopped N o ys channels (first + 0) done) (Splits-nothing o first))
    | inr on ↦ rw (observe-listen N o xs channels first m pos whole on) (
        by_first o xs ys channels m n first pos whole whole' v on
          (listen N o channels (chunks m channels xs) first) refl)
  ]
