-- ===== src/RealtimeSnapshot/Load.antt =====
-- The steps of a reader.
use audio_engine_core.Base.{
  subst, ◌⊎◌, ℕ, ◌/◌, ◌%◌, ◌≡◌, ◌≢◌, refl, sym, ap, ◌∙◌, inl, inr, none, some, List, arith, ◌==◌,
  Bool-cases, Option-cases,
}
use audio_engine_core.RealtimeSnapshot.{
  Reader, resting, began, loaded, guarded, rechecked, validated, copied, returning, returned,
  crashed, Writer, idle, opened, swapped, scanning, testing, System, put, set_reader, reader_step,
}
use audio_engine_core.RealtimeSnapshot.Safe.{Phase, Protects, Passed, Sound, IsSafe}

module _ {T : Type 0} where
  -- the box under test is not the current one
  pub tested-current :
      (s : System T) {keep todo : List ℕ} {box slot : ℕ}
      → IsSafe s
      → s.writer ≡ testing keep box todo slot
      → box ≢ s.current
  tested-current s {keep} {todo} {box} {slot} a w e = ground (arith, a.once box)

  -- A reader that moves on alone, and makes sure of no box but the current one.
  moved-Passed :
      (s : System T) (i : ℕ) (r : Reader T)
      → IsSafe s
      → ((b : ℕ) → Protects r b → (b ≡ s.current) ⊎ Protects (s.reader i) b)
      → Passed s.writer (put s.reader i r)
  moved-Passed s i r a only = go s.writer refl a.passed
    where
      go : (w : Writer T) → s.writer ≡ w → Passed w s.reader → Passed w (put s.reader i r)
      go idle e p = tt
      go (opened v) e p = tt
      go (swapped previous) e p = tt
      go (scanning keep todo) e p = tt
      go (testing keep box todo slot) e p = λ j below protects. elim (Bool-cases (j == i)) [
        | inl same ↦
            elim (only box (subst (λ (t : Reader T). Protects t box) (rw same refl) protects)) [
              | inl now ↦ tested-current s a e now
              | inr old ↦ p i (ground arith) old
            ]
        | inr other ↦ p j below (subst (λ (t : Reader T). Protects t box) (rw other refl) protects)
      ]

  moved-IsSafe :
      (s : System T) (i : ℕ) (hazard : ℕ) (r : Reader T)
      → IsSafe s
      → Sound s.heap s.published s.swaps s.sequence hazard r
      → ((b : ℕ) → Protects r b → (b ≡ s.current) ⊎ Protects (s.reader i) b)
      → IsSafe (set_reader (record s { hazard = put s.hazard i hazard }) i r)
  moved-IsSafe s i hazard r a sound only = record {
    once = a.once;
    live = a.live;
    newest = a.newest;
    phase = a.phase;
    passed = moved-Passed s i r a only;
    sound = λ j. elim (Bool-cases (j == i)) [
      | inl same ↦ rw same sound
      | inr other ↦ rw other (a.sound j)
    ];
  }

  stayed-IsSafe :
      (s : System T) (i : ℕ) (r : Reader T)
      → IsSafe s
      → Sound s.heap s.published s.swaps s.sequence (s.hazard i) r
      → ((b : ℕ) → Protects r b → (b ≡ s.current) ⊎ Protects (s.reader i) b)
      → IsSafe (set_reader s i r)
  stayed-IsSafe s i r a sound only = record {
    once = a.once;
    live = a.live;
    newest = a.newest;
    phase = a.phase;
    passed = moved-Passed s i r a only;
    sound = λ j. elim (Bool-cases (j == i)) [
      | inl same ↦
          let here : i ≡ j = ground arith in
          rw same (
            subst (λ (t : ℕ). Sound s.heap s.published s.swaps s.sequence (s.hazard t) r) here
              sound)
      | inr other ↦ rw other (a.sound j)
    ];
  }

  -- what the sequence says of the generation, when it is even
  even-Phase :
      (w : Writer T) (sequence swaps : ℕ)
      → Phase w sequence swaps
      → sequence % 2 ≡ 0
      → sequence / 2 ≡ swaps
  even-Phase idle sequence swaps p e = omega arith
  even-Phase (opened v) sequence swaps p e = absurd (omega arith)
  even-Phase (swapped previous) sequence swaps p e = absurd (omega arith)
  even-Phase (scanning keep todo) sequence swaps p e = omega arith
  even-Phase (testing keep box todo slot) sequence swaps p e = omega arith

  pub current-live : (s : System T) → IsSafe s → s.heap s.current ≢ none
  current-live s a e = ground (arith, a.live s.current e)

  -- A reader's step keeps the system safe.
  pub reader_step-IsSafe : (i : ℕ) (s : System T) → IsSafe s → IsSafe (reader_step i s)
  unfolding reader_step
  reader_step-IsSafe i s a = go (s.reader i) refl (a.sound i)
    where
      go :
          (r : Reader T)
          → s.reader i ≡ r
          → Sound s.heap s.published s.swaps s.sequence (s.hazard i) r
          → IsSafe (reader_step i s)
      go resting e h = elim (Bool-cases (s.sequence % 2 == 0)) [
        | inl even ↦
            rw (e, reader_step, even)
              (stayed-IsSafe s i (began s.sequence) a (ground arith, omega arith) (λ b x. absurd x))
        | inr odd ↦
            rw (e, reader_step, odd) (stayed-IsSafe s i (returned none) a tt (λ b x. absurd x))
      ]
      go (began before) e h =
          rw (e, reader_step) (stayed-IsSafe s i (loaded before s.current) a h (λ b x. absurd x))
      go (loaded before pointer) e h =
          rw (e, reader_step)
            (moved-IsSafe s i pointer (guarded before pointer) a (h.0, h.1, refl) (λ b x. absurd x))
      go (guarded before pointer) e h = elim (Bool-cases (s.current == pointer)) [
        | inl same ↦
            let here : s.current ≡ pointer = ground arith in
            rw (e, reader_step, same)
              (stayed-IsSafe s i (rechecked before pointer) a
                (
                  h.0,
                  h.1,
                  h.2,
                  subst (λ (t : ℕ). s.heap t ≢ none) here (current-live s a),
                  λ now.
                      let generation : s.swaps ≡ before / 2 =
                        ground (arith, even-Phase s.writer s.sequence s.swaps a.phase) in
                      ap s.heap (sym here) ∙ sym a.newest ∙ ap s.published generation,
                )
                (λ b x. inl (sym x ∙ sym here)))
        | inr other ↦
            rw (e, reader_step, other) (stayed-IsSafe s i (returning none) a tt (λ b x. absurd x))
      ]
      go (rechecked before pointer) e h = elim (Bool-cases (s.sequence == before)) [
        | inl same ↦
            rw (e, reader_step, same)
              (stayed-IsSafe s i (validated before pointer) a
                (
                  h.1,
                  h.2,
                  h.3,
                  h.4 (ground arith),
                  ground (arith, even-Phase s.writer s.sequence s.swaps a.phase),
                )
                (λ b x. inr (subst (λ (t : Reader T). Protects t b) (sym e) x)))
        | inr other ↦
            rw (e, reader_step, other) (stayed-IsSafe s i (returning none) a tt (λ b x. absurd x))
      ]
      go (validated before pointer) e h = elim (Option-cases (s.heap pointer)) [
        | inl gone ↦ absurd (h.2 gone)
        | inr (value, found) ↦
            rw (e, reader_step, found)
              (stayed-IsSafe s i (copied before value) a (sym h.3 ∙ found, h.4) (λ b x. absurd x))
      ]
      go (copied before value) e h = elim (Bool-cases (s.sequence == before)) [
        | inl same ↦
            rw (e, reader_step, same)
              (stayed-IsSafe s i (returning (some (value, before / 2))) a h (λ b x. absurd x))
        | inr other ↦
            rw (e, reader_step, other) (stayed-IsSafe s i (returning none) a tt (λ b x. absurd x))
      ]
      go (returning o) e h =
          rw (e, reader_step) (moved-IsSafe s i 0 (returned o) a h (λ b x. absurd x))
      go (returned o) e h = rw (e, reader_step) (stayed-IsSafe s i resting a tt (λ b x. absurd x))
      go crashed e h = absurd h
