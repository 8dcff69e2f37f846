-- ===== src/OutputChain/Observed.antt =====
-- What `TailObservation::observe` keeps of a tail, and that its decisions do not depend on how the
-- tail is cut into blocks.
use audio_engine_core.Base.{
  ℕ, ◌+◌, ◌-◌, ◌*◌, ◌/◌, ◌^◌, ◌≤◌, ◌<◌, ◌≡◌, refl, ◌∙◌, ap, true, false, Option, none, some, List,
  ◌++◌, arith, ltb, if◌then◌else◌, length, take, drop, inl, inr, Bool-cases, length-append,
  length-take, length-drop,
}
use native.Mathlib.Nat.{mul-div_cancel}
use audio_engine_core.Float.{Float}
use audio_engine_core.OutputChain.Chunks.{length-chunks, frames_of-part, window-append}
use audio_engine_core.OutputChain.Tail.{
  TailEnergyDetector, TailObservation, ObservationDecision, chunks, shielded, allowed,
  observe_frames, detect, settle, observe,
}

-- The invariant of an observation: its frames are bounded, and it is stopped where the bound is met.
pub record IsObservation {F : Type 0} (o : TailObservation F) : Type 0 where
  pub bounded : o.generated_frames ≤ o.max_frames
  pub machine : o.max_frames < 2 ^ 64
  pub running : o.stopped ≡ false → o.generated_frames < o.max_frames
  pub cap : o.capped ≡ true → (o.stopped ≡ true) × (o.generated_frames ≡ o.max_frames)

-- The frames that an output of `first` frames has after a decision about the next block.
abbrev pub retained : ℕ → ObservationDecision → ℕ
retained first d = elim d.truncate_to_frame [ none ↦ first + d.keep_frames | some frame ↦ frame ]

module _ (N : Float) where
  open N use {F}

  -- What the detector hears of a block of frames.
  abbrev pub heard : TailObservation F → List (List F) → List (List F)
  heard o frames = take (allowed o (length frames)) (drop (shielded o (length frames)) frames)

  unfoldable pub listen :
      TailObservation F → ℕ → List (List F) → ℕ → Option ℕ × TailEnergyDetector F
  listen o channels frames first =
      observe_frames N o.detector channels (heard o frames) (first + shielded o (length frames))

  -- A decision keeps no more than the block, and of the frames past the protected ones no more than
  -- the observation may still generate.
  pub settle-IsObservation :
      (o : TailObservation F) (frames : ℕ) (found : Option ℕ × TailEnergyDetector F)
      → IsObservation o
      → o.stopped ≡ false
      → IsObservation (settle N o frames found).1
  unfolding settle
  settle-IsObservation o frames (none, d) v h = record {
    bounded = ground (arith, v);
    machine = v.machine;
    running = ground (arith, v);
    cap = ground (arith, v);
  }
  settle-IsObservation o frames (some at, d) v h = record {
    bounded = ground (arith, v);
    machine = v.machine;
    running = ground (arith, v);
    cap = ground (arith, v);
  }

  settle-keep :
      (o : TailObservation F) (frames : ℕ) (found : Option ℕ × TailEnergyDetector F)
      → IsObservation o
      → ((settle N o frames found).0.keep_frames ≤ frames)
        × ((settle N o frames found).0.keep_frames + o.generated_frames
            ≡ (o.protected_frames - (settle N o frames found).1.protected_frames)
              + (settle N o frames found).1.generated_frames)
  unfolding settle
  settle-keep o frames found v = ground (arith, v)

  module _ (o : TailObservation F) (samples : List F) (channels first : ℕ) where
    -- The outcome of the detector in `observe`, of a block of `m` frames.
    abbrev found : ℕ → Option ℕ × TailEnergyDetector F
    found m =
        if ltb 0 (allowed o m)
        then detect N o.detector
            (take (allowed o m * channels) (drop (shielded o m * channels) samples)) channels
            (first + shielded o m)
        else (none, o.detector)

    pub observe_stopped :
        o.stopped ≡ true
        → observe N o samples channels first
          ≡ (record { keep_frames = 0; truncate_to_frame = none }, o)
    unfolding observe
    observe_stopped h = ground arith

    observe_running :
        (m : ℕ)
        → length samples / channels ≡ m
        → o.stopped ≡ false
        → observe N o samples channels first ≡ settle N o m (found m)
    unfolding observe
    observe_running m e h = ground arith

    found-listen :
        (m : ℕ)
        → 0 < channels
        → length samples ≡ m * channels
        → found m ≡ listen o channels (chunks m channels samples) first
    unfolding listen observe_frames
    found-listen m pos e =
        rw (length-chunks m channels samples) (elim (Bool-cases (ltb 0 (allowed o m))) [
          | inl some_left ↦ rw some_left (
              ap
                (λ (t : List (List F)).
                  observe_frames N o.detector channels t (first + shielded o m))
                (frames_of-part channels (shielded o m) (allowed o m) m samples pos (omega arith)
                  e))
          | inr none_left ↦ let z : allowed o m ≡ 0 = ground arith in rw (none_left, z) refl
        ])

    pub observe-listen :
        (m : ℕ)
        → 0 < channels
        → length samples ≡ m * channels
        → o.stopped ≡ false
        → observe N o samples channels first
          ≡ settle N o m (listen o channels (chunks m channels samples) first)
    observe-listen m pos e h =
        observe_running m (ap (λ (t : ℕ). t / channels) e ∙ mul-div_cancel m {n = channels} pos) h
        ∙ ap (settle N o m) (found-listen m pos e)

    -- An observation of the block keeps the invariant; it keeps no more than the block, and counts
    --   each frame that it keeps as protected or as generated.
    pub observe-IsObservation :
        IsObservation o
        → IsObservation (observe N o samples channels first).1
          × ((observe N o samples channels first).0.keep_frames ≤ length samples / channels)
          × ((observe N o samples channels first).0.keep_frames + o.generated_frames
              ≡ (o.protected_frames - (observe N o samples channels first).1.protected_frames)
                + (observe N o samples channels first).1.generated_frames)
    observe-IsObservation v = elim (Bool-cases o.stopped) [
      | inl done ↦ ground (arith, observe_stopped done)
      | inr on ↦ rw (observe_running (length samples / channels) refl on) (
        settle-IsObservation o (length samples / channels) _ v on,
        (settle-keep o (length samples / channels) _ v).0,
        (settle-keep o (length samples / channels) _ v).1,
      )
    ]

  -- Protection is only ever used up, and the bound stays.
  pub observe-fixed :
      (o : TailObservation F) (samples : List F) (channels first : ℕ)
      → ((observe N o samples channels first).1.protected_frames ≤ o.protected_frames)
        × ((observe N o samples channels first).1.max_frames ≡ o.max_frames)
  unfolding observe settle
  observe-fixed o samples channels first = ground arith

  -- What is heard of two blocks is what is heard of the first, and then of the second.
  pub heard-append :
      (o : TailObservation F) (xs ys : List (List F)) (r : Option ℕ × TailEnergyDetector F)
      → IsObservation o
      → heard o (xs ++ ys) ≡ heard o xs ++ heard (settle N o (length xs) r).1 ys
  unfolding settle
  heard-append o xs ys r v =
      window-append (shielded o (length (xs ++ ys))) (allowed o (length (xs ++ ys)))
        (shielded o (length xs)) (allowed o (length xs)) _ _ xs ys
        (omega (arith, length-append xs ys)) (omega (arith, length-append xs ys))
        (omega (arith, length-append xs ys)) (ground (arith, length-append xs ys, v))
        (omega (arith, length-append xs ys))

  pub length-heard :
      (o : TailObservation F) (frames : List (List F))
      → length (heard o frames) ≡ allowed o (length frames)
  length-heard o frames = omega (
    arith,
    length-take (allowed o (length frames)) (drop (shielded o (length frames)) frames),
    length-drop (shielded o (length frames)) frames,
  )
