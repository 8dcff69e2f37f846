-- ===== src/OutputChain/Quiet.antt =====
-- The silence that `TailEnergyDetector::observe` finds, against a plain search for the first run.
use audio_engine_core.Base.{
  ℕ, zero, suc, ◌+◌, ◌<◌, ◌≡◌, refl, ◌∙◌, sym, ap, Bool, true, false, ◌&&◌, Option, none, some,
  List, [], ◌∷◌, ◌++◌, arith, leb, if◌then◌else◌, length, replicate, inl, inr, Bool-cases,
  length-append, length-replicate,
}
use mathlib.Core.List.{map}
use audio_engine_core.Float.{Float}
use audio_engine_core.OutputChain.Tail.{TailEnergyDetector, frame_quiet, note_quiet, observe_frames}

-- The first `n` of the frames are there and quiet.
unfoldable pub all_quiet : ℕ → List Bool → Bool
all_quiet zero quiet = true
all_quiet (suc n) [] = false
all_quiet (suc n) (q ∷ quiet) = q && all_quiet n quiet

-- The position of the first frame from which `hold` frames in a row are quiet, the first at `at`.
unfoldable pub first_run : ℕ → List Bool → ℕ → Option ℕ
first_run hold [] at = none
first_run hold (q ∷ quiet) at =
    let later = first_run hold quiet (at + 1) in
    if all_quiet hold (q ∷ quiet) then some at else later

all_quiet_short : (hold : ℕ) (qs : List Bool) → length qs < hold → all_quiet hold qs ≡ false
unfolding all_quiet
all_quiet_short zero qs h = absurd (omega arith)
all_quiet_short (suc n) [] h = refl
all_quiet_short (suc n) (true ∷ qs) h = all_quiet_short n qs (omega arith)
all_quiet_short (suc n) (false ∷ qs) h = refl

first_run_short :
    (hold : ℕ) (qs : List Bool) (at : ℕ) → length qs < hold → first_run hold qs at ≡ none
unfolding first_run
first_run_short hold [] at h = refl
first_run_short hold (q ∷ qs) at h =
    rw (all_quiet_short hold (q ∷ qs) h) (first_run_short hold qs (at + 1) (omega arith))

all_quiet_run : (k : ℕ) (qs : List Bool) → all_quiet k (replicate k true ++ qs) ≡ true
unfolding all_quiet
all_quiet_run zero qs = refl
all_quiet_run (suc k) qs = all_quiet_run k qs

all_quiet_loud :
    (k hold : ℕ) (qs : List Bool)
    → k < hold
    → all_quiet hold (replicate k true ++ false ∷ qs) ≡ false
unfolding all_quiet
all_quiet_loud k zero qs h = absurd (omega arith)
all_quiet_loud zero (suc n) qs h = refl
all_quiet_loud (suc k) (suc n) qs h = all_quiet_loud k n qs (omega arith)

-- A run that a loud frame ends too early is passed over.
first_run_loud :
    (k hold : ℕ) (qs : List Bool) (at next : ℕ)
    → k < hold
    → next ≡ at + k + 1
    → first_run hold (replicate k true ++ false ∷ qs) at ≡ first_run hold qs next
unfolding first_run
first_run_loud zero hold qs at next h e =
    rw (all_quiet_loud zero hold qs h) (ap (first_run hold qs) (omega arith))
first_run_loud (suc k) hold qs at next h e =
    rw (all_quiet_loud (suc k) hold qs h)
      (first_run_loud k hold qs (at + 1) next (omega arith) (omega arith))

one_more :
    (k j : ℕ) (qs : List Bool)
    → j ≡ k + 1
    → ◌≡◌ {A = List Bool} (replicate k true ++ true ∷ qs) (replicate j true ++ qs)
one_more zero zero qs e = absurd (omega arith)
one_more zero (suc zero) qs e = refl
one_more zero (suc (suc j)) qs e = absurd (omega arith)
one_more (suc k) zero qs e = absurd (omega arith)
one_more (suc k) (suc j) qs e = ap (λ (t : List Bool). true ∷ t) (one_more k j qs (omega arith))

first_run_here :
    (k hold : ℕ) (qs : List Bool) (at : ℕ)
    → hold ≡ k + 1
    → first_run hold (replicate k true ++ true ∷ qs) at ≡ some at
unfolding first_run
first_run_here k hold qs at e = rw (e, one_more k (k + 1) qs refl) (here (k + 1) qs (omega arith))
  where
    here : (n : ℕ) (rs : List Bool) → 0 < n → first_run n (replicate n true ++ rs) at ≡ some at
    here zero rs h = absurd (omega arith)
    here (suc n) rs h = rw (all_quiet_run (suc n) rs) refl

module _ (N : Float) where
  open N use {F}

  abbrev pub quiet_flags : F → ℕ → List (List F) → List Bool
  quiet_flags threshold channels frames = map (frame_quiet N threshold channels) frames

  module _ (d : TailEnergyDetector F) (channels : ℕ) (x : List F) (xs : List (List F))
      (at : ℕ) where
    observe_loud :
        frame_quiet N d.energy_threshold channels x ≡ false
        → observe_frames N d channels (x ∷ xs) at
          ≡ observe_frames N (record d { below_frames = 0 }) channels xs (at + 1)
    unfolding observe_frames
    observe_loud loud = rw (observe_frames, loud) refl

    observe_long :
        frame_quiet N d.energy_threshold channels x ≡ true
        → leb d.hold_frames (d.below_frames + 1) ≡ true
        → observe_frames N d channels (x ∷ xs) at
          ≡ (some (note_quiet d at).silence_start_frame, note_quiet d at)
    unfolding observe_frames
    observe_long quiet long = rw (observe_frames, quiet, long) refl

    observe_short :
        frame_quiet N d.energy_threshold channels x ≡ true
        → leb d.hold_frames (d.below_frames + 1) ≡ false
        → observe_frames N d channels (x ∷ xs) at
          ≡ observe_frames N (note_quiet d at) channels xs (at + 1)
    unfolding observe_frames
    observe_short quiet short = rw (observe_frames, quiet, short) refl

  -- With `below_frames` quiet frames before, from `start` on.
  running :
      (d : TailEnergyDetector F) (channels : ℕ) (frames : List (List F)) (at start : ℕ)
      → d.below_frames < d.hold_frames
      → at ≡ start + d.below_frames
      → (0 < d.below_frames → d.silence_start_frame ≡ start)
      → (observe_frames N d channels frames at).0
        ≡ first_run d.hold_frames
            (replicate d.below_frames true ++ quiet_flags d.energy_threshold channels frames)
            start
  unfolding observe_frames
  running d channels [] at start h e run = sym (
      first_run_short d.hold_frames (replicate d.below_frames true ++ []) start (
        omega (
          arith,
          length-append (replicate d.below_frames true) [],
          length-replicate d.below_frames true,
        )))
  running d channels (frame ∷ frames) at start h e run =
      elim (Bool-cases (frame_quiet N d.energy_threshold channels frame)) [
        | inl quiet ↦ elim (Bool-cases (leb d.hold_frames (d.below_frames + 1))) [
          | inl long ↦
              ap (λ r. r.0) (observe_long d channels frame frames at quiet long)
              ∙ ap some begun
              ∙ sym (
                  rw quiet (first_run_here d.below_frames d.hold_frames flags start (ground arith)))
          | inr short ↦
              ap (λ r. r.0) (observe_short d channels frame frames at quiet short)
              ∙ running (note_quiet d at) channels frames (at + 1) start (ground arith)
                  (omega arith) (λ p. begun)
              ∙ ap (λ (t : List Bool). first_run d.hold_frames t start)
                  (sym (one_more d.below_frames (d.below_frames + 1) flags refl))
              ∙ rw quiet refl
        ]
        | inr loud ↦
            ap (λ r. r.0) (observe_loud d channels frame frames at loud)
            ∙ running (record d { below_frames = 0 }) channels frames (at + 1) (at + 1)
                (omega arith) (omega arith) (λ p. absurd (omega arith))
            ∙ sym (
                rw loud (
                  first_run_loud d.below_frames d.hold_frames flags start (at + 1) h (omega arith)))
      ]
    where
      flags : List Bool
      flags = quiet_flags d.energy_threshold channels frames

      begun : (note_quiet d at).silence_start_frame ≡ start
      begun = ground arith

  -- A detector at rest finds the first run of quiet frames that is as long as the hold, if there is
  --   one, and answers with the position of the frame it begins at.
  pub observe_frames-first_run :
      (d : TailEnergyDetector F) (channels : ℕ) (frames : List (List F)) (at : ℕ)
      → d.below_frames ≡ 0
      → 0 < d.hold_frames
      → (observe_frames N d channels frames at).0
        ≡ first_run d.hold_frames (quiet_flags d.energy_threshold channels frames) at
  observe_frames-first_run d channels frames at rest pos =
      running d channels frames at at (omega arith) (omega arith) (λ p. absurd (omega arith))
      ∙ rw rest refl

  -- The outcome of a second block of frames after that of a first.
  abbrev pub observe_next :
      ℕ → List (List F) → ℕ → Option ℕ × TailEnergyDetector F → Option ℕ × TailEnergyDetector F
  observe_next channels ys next (none, d) = observe_frames N d channels ys next
  observe_next channels ys next (some k, d) = (some k, d)

  -- Frames observed in two blocks are observed as in one, unless the first ends the observation.
  pub observe_frames-append :
      (d : TailEnergyDetector F) (channels : ℕ) (xs ys : List (List F)) (at next : ℕ)
      → next ≡ at + length xs
      → observe_frames N d channels (xs ++ ys) at
        ≡ observe_next channels ys next (observe_frames N d channels xs at)
  unfolding observe_frames
  observe_frames-append d channels [] ys at next e =
      ap (observe_frames N d channels ys) (omega arith)
  observe_frames-append d channels (x ∷ xs) ys at next e =
      elim (Bool-cases (frame_quiet N d.energy_threshold channels x)) [
        | inl quiet ↦ elim (Bool-cases (leb d.hold_frames (d.below_frames + 1))) [
          | inl long ↦
              observe_long d channels x (xs ++ ys) at quiet long
              ∙ sym
                  (ap (observe_next channels ys next) (observe_long d channels x xs at quiet long))
          | inr short ↦
              observe_short d channels x (xs ++ ys) at quiet short
              ∙ observe_frames-append (note_quiet d at) channels xs ys (at + 1) next (omega arith)
              ∙ sym (
                  ap (observe_next channels ys next) (observe_short d channels x xs at quiet short))
        ]
        | inr loud ↦
            observe_loud d channels x (xs ++ ys) at loud
            ∙ observe_frames-append (record d { below_frames = 0 }) channels xs ys (at + 1) next
                (omega arith)
            ∙ sym (ap (observe_next channels ys next) (observe_loud d channels x xs at loud))
      ]
