-- ===== src/RealtimeSnapshot/Safe.antt =====
-- The invariant of the hazard slots and of the sequence.
use audio_engine_core.Base.{
  ℕ, ◌+◌, ◌*◌, ◌/◌, ◌%◌, ◌≤◌, ◌<◌, ◌≡◌, ◌≢◌, refl, Option, none, some, List, [], ◌∷◌, ◌++◌, arith,
  ◌==◌, if◌then◌else◌,
}
use audio_engine_core.RealtimeSnapshot.{
  Reader, resting, began, loaded, guarded, rechecked, validated, copied, returning, returned,
  crashed, Writer, idle, opened, swapped, scanning, testing, System, start,
}

abbrev pub count_one : ℕ → ℕ → ℕ
count_one b x = if b == x then 1 else 0

abbrev pub count : ℕ → List ℕ → ℕ
count b [] = 0
count b (x ∷ xs) = count_one b x + count b xs

pub count-append : (b : ℕ) (xs ys : List ℕ) → count b (xs ++ ys) ≡ count b xs + count b ys
count-append b [] ys = omega arith
count-append b (x ∷ xs) ys = omega (arith, count-append b xs ys)

module _ {T : Type 0} where
  -- how often the writer and its lists own the box `b`
  abbrev pub held : Writer T → ℕ → ℕ
  held idle b = 0
  held (opened v) b = 0
  held (swapped previous) b = count_one b previous
  held (scanning keep todo) b = count b keep + count b todo
  held (testing keep box todo slot) b = count_one b box + (count b keep + count b todo)

  abbrev pub owned : System T → ℕ → ℕ
  owned s b = count_one b s.current + (count b s.retired + held s.writer b)

  -- where the sequence stands, in a writer's call
  abbrev pub Phase : Writer T → ℕ → ℕ → Type 0
  Phase (opened v) sequence swaps = sequence ≡ 2 * swaps + 1
  Phase (swapped previous) sequence swaps = sequence + 1 ≡ 2 * swaps
  Phase _ sequence swaps = sequence ≡ 2 * swaps

  -- The reader has made sure of the box `b`.
  abbrev pub Protects : Reader T → ℕ → Type 0
  Protects (rechecked before pointer) b = pointer ≡ b
  Protects (validated before pointer) b = pointer ≡ b
  Protects _ b = ⊥

  -- No slot that the scan has passed protects the box that it tests.
  abbrev pub Passed : Writer T → (ℕ → Reader T) → Type 0
  Passed (testing keep box todo slot) reader = (j : ℕ) → j < slot → Protects (reader j) box → ⊥
  Passed _ reader = Unit

  abbrev pub Coherent : (ℕ → Option T) → ℕ → Option (T × ℕ) → Type 0
  Coherent published swaps none = Unit
  Coherent published swaps (some (value, g)) = (published g ≡ some value) × (g ≤ swaps)

  -- What a reader's place means: the box that it made sure of is there, with the snapshot of the
  -- generation that it began with.
  abbrev pub Sound : (heap published : ℕ → Option T) (swaps sequence hazard : ℕ) → Reader T → Type 0
  Sound heap published swaps sequence hazard resting = Unit
  Sound heap published swaps sequence hazard (began before) = (before % 2 ≡ 0) × (before ≤ sequence)
  Sound heap published swaps sequence hazard (loaded before pointer) =
      (before % 2 ≡ 0) × (before ≤ sequence)
  Sound heap published swaps sequence hazard (guarded before pointer) =
      (before % 2 ≡ 0) × (before ≤ sequence) × (hazard ≡ pointer)
  Sound heap published swaps sequence hazard (rechecked before pointer) =
      (before % 2 ≡ 0)
      × (before ≤ sequence)
      × (hazard ≡ pointer)
      × (heap pointer ≢ none)
      × (sequence ≡ before → heap pointer ≡ published (before / 2))
  Sound heap published swaps sequence hazard (validated before pointer) =
      (before ≤ sequence)
      × (hazard ≡ pointer)
      × (heap pointer ≢ none)
      × (heap pointer ≡ published (before / 2))
      × (before / 2 ≤ swaps)
  Sound heap published swaps sequence hazard (copied before value) =
      (published (before / 2) ≡ some value) × (before / 2 ≤ swaps)
  Sound heap published swaps sequence hazard (returning o) = Coherent published swaps o
  Sound heap published swaps sequence hazard (returned o) = Coherent published swaps o
  Sound heap published swaps sequence hazard crashed = ⊥

  pub record IsSafe (s : System T) : Type 0 where
    pub once : (b : ℕ) → owned s b ≤ 1
    pub live : (b : ℕ) → s.heap b ≡ none → owned s b ≡ 0
    pub newest : s.published s.swaps ≡ s.heap s.current
    pub phase : Phase s.writer s.sequence s.swaps
    pub passed : Passed s.writer s.reader
    pub sound : (j : ℕ) → Sound s.heap s.published s.swaps s.sequence (s.hazard j) (s.reader j)

  pub start-IsSafe : (snapshot : T) → IsSafe (start snapshot)
  start-IsSafe snapshot = record {
    once = λ b. ground arith;
    live = λ b e. ground arith;
    newest = refl;
    phase = refl;
    passed = tt;
    sound = λ j. tt;
  }
