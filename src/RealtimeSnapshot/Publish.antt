-- ===== src/RealtimeSnapshot/Publish.antt =====
-- The steps of the writer.
use audio_engine_core.Base.{
  ne→==, ℕ, ◌+◌, ◌*◌, ◌^◌, ◌≤◌, ◌<◌, ◌≡◌, refl, sym, ap, ◌∙◌, inl, inr, false, Option, none, some,
  [], ◌∷◌, arith, ◌==◌, ltb, Bool-cases, wrapping_add,
}
use audio_engine_core.RealtimeSnapshot.{
  Reader, resting, began, loaded, guarded, rechecked, validated, copied, returning, returned,
  crashed, Writer, idle, opened, swapped, scanning, testing, System, put, writer_step,
}
use audio_engine_core.RealtimeSnapshot.Safe.{
  count-append, Phase, Protects, Passed, Coherent, Sound, IsSafe,
}
use audio_engine_core.RealtimeSnapshot.Load.{tested-current}

module _ {T : Type 0} where
  Sound-later :
      (heap published : ℕ → Option T) (swaps sequence later hazard : ℕ) (r : Reader T)
      → sequence < later
      → Sound heap published swaps sequence hazard r
      → Sound heap published swaps later hazard r
  Sound-later heap published swaps sequence later hazard resting lt h = tt
  Sound-later heap published swaps sequence later hazard (began before) lt h =
      (h.0, omega (arith, h.1))
  Sound-later heap published swaps sequence later hazard (loaded before pointer) lt h =
      (h.0, omega (arith, h.1))
  Sound-later heap published swaps sequence later hazard (guarded before pointer) lt h =
      (h.0, omega (arith, h.1), h.2)
  Sound-later heap published swaps sequence later hazard (rechecked before pointer) lt h =
      (h.0, omega (arith, h.1), h.2, h.3, λ e. absurd (omega (arith, h.1)))
  Sound-later heap published swaps sequence later hazard (validated before pointer) lt h =
      (omega (arith, h.0), h.1, h.2, h.3, h.4)
  Sound-later heap published swaps sequence later hazard (copied before value) lt h = h
  Sound-later heap published swaps sequence later hazard (returning o) lt h = h
  Sound-later heap published swaps sequence later hazard (returned o) lt h = h
  Sound-later heap published swaps sequence later hazard crashed lt h = h

  Coherent-swap :
      (published : ℕ → Option T) (swaps : ℕ) (v : T) (o : Option (T × ℕ))
      → Coherent published swaps o
      → Coherent (put published (swaps + 1) (some v)) (swaps + 1) o
  Coherent-swap published swaps v none h = tt
  Coherent-swap published swaps v (some (value, g)) h = (ground (arith, h), omega (arith, h.1))

  -- A new snapshot in a free box leaves the readers' boxes and generations alone.
  Sound-swap :
      (heap published : ℕ → Option T) (swaps sequence hazard address : ℕ) (v : T) (r : Reader T)
      → heap address ≡ none
      → sequence ≡ 2 * swaps + 1
      → Sound heap published swaps sequence hazard r
      → Sound
          (put heap address (some v))
          (put published (swaps + 1) (some v))
          (swaps + 1)
          sequence
          hazard
          r
  Sound-swap heap published swaps sequence hazard address v resting free p h = tt
  Sound-swap heap published swaps sequence hazard address v (began before) free p h = h
  Sound-swap heap published swaps sequence hazard address v (loaded before pointer) free p h = h
  Sound-swap heap published swaps sequence hazard address v (guarded before pointer) free p h = h
  Sound-swap heap published swaps sequence hazard address v (rechecked before pointer) free p h =
      (h.0, h.1, h.2, λ e. ground (arith, h), λ e. ground (arith, h))
  Sound-swap heap published swaps sequence hazard address v (validated before pointer) free p h =
      (h.0, h.1, λ e. ground (arith, h), ground (arith, h), omega (arith, h.4))
  Sound-swap heap published swaps sequence hazard address v (copied before value) free p h =
      (ground (arith, h), omega (arith, h.1))
  Sound-swap heap published swaps sequence hazard address v (returning o) free p h =
      Coherent-swap published swaps v o h
  Sound-swap heap published swaps sequence hazard address v (returned o) free p h =
      Coherent-swap published swaps v o h
  Sound-swap heap published swaps sequence hazard address v crashed free p h = h

  Sound-free :
      (heap published : ℕ → Option T) (swaps sequence hazard box : ℕ) (r : Reader T)
      → (Protects r box → ⊥)
      → Sound heap published swaps sequence hazard r
      → Sound (put heap box none) published swaps sequence hazard r
  Sound-free heap published swaps sequence hazard box resting other h = tt
  Sound-free heap published swaps sequence hazard box (began before) other h = h
  Sound-free heap published swaps sequence hazard box (loaded before pointer) other h = h
  Sound-free heap published swaps sequence hazard box (guarded before pointer) other h = h
  Sound-free heap published swaps sequence hazard box (rechecked before pointer) other h =
      let apart : (pointer == box) ≡ false = ne→== pointer box other in rw apart h
  Sound-free heap published swaps sequence hazard box (validated before pointer) other h =
      let apart : (pointer == box) ≡ false = ne→== pointer box other in rw apart h
  Sound-free heap published swaps sequence hazard box (copied before value) other h = h
  Sound-free heap published swaps sequence hazard box (returning o) other h = h
  Sound-free heap published swaps sequence hazard box (returned o) other h = h
  Sound-free heap published swaps sequence hazard box crashed other h = h

  -- A reader that has made sure of a box shows it in its slot.
  Protects-hazard :
      (heap published : ℕ → Option T) (swaps sequence hazard : ℕ) (r : Reader T) (b : ℕ)
      → Sound heap published swaps sequence hazard r
      → Protects r b
      → hazard ≡ b
  Protects-hazard heap published swaps sequence hazard resting b h x = absurd x
  Protects-hazard heap published swaps sequence hazard (began before) b h x = absurd x
  Protects-hazard heap published swaps sequence hazard (loaded before pointer) b h x = absurd x
  Protects-hazard heap published swaps sequence hazard (guarded before pointer) b h x = absurd x
  Protects-hazard heap published swaps sequence hazard (copied before value) b h x = absurd x
  Protects-hazard heap published swaps sequence hazard (returning o) b h x = absurd x
  Protects-hazard heap published swaps sequence hazard (returned o) b h x = absurd x
  Protects-hazard heap published swaps sequence hazard crashed b h x = absurd h
  Protects-hazard heap published swaps sequence hazard (rechecked before pointer) b h x = h.2 ∙ x
  Protects-hazard heap published swaps sequence hazard (validated before pointer) b h x = h.1 ∙ x

  -- A writer's step keeps the system safe.
  pub writer_step-IsSafe :
      (readers : ℕ) (value : T) (address : ℕ) (s : System T)
      → s.heap address ≡ none
      → s.sequence + 1 < 2 ^ 64
      → ((j : ℕ) → readers ≤ j → (b : ℕ) → Protects (s.reader j) b → ⊥)
      → IsSafe s
      → IsSafe (writer_step readers value address s)
  unfolding writer_step
  writer_step-IsSafe readers value address s free room outside a = go s.writer refl a.phase a.passed
    where
      go :
          (w : Writer T)
          → s.writer ≡ w
          → Phase w s.sequence s.swaps
          → Passed w s.reader
          → IsSafe (writer_step readers value address s)
      go idle e p q =
          rw (e, writer_step)
            (record {
              once = λ b. ground (arith, a.once b, e);
              live = λ b x. ground (arith, a.live b x, e);
              newest = a.newest;
              phase = omega arith;
              passed = tt;
              sound = λ j.
                  Sound-later s.heap s.published s.swaps s.sequence (wrapping_add s.sequence 1)
                    (s.hazard j) (s.reader j) (omega arith) (a.sound j);
            })
      go (opened v) e p q =
          rw (e, writer_step)
            (record {
              once = λ b. ground (arith, a.once b, a.live address free, e);
              live = λ b x. ground (arith, a.live b, e, x);
              newest = ground arith;
              phase = omega arith;
              passed = tt;
              sound = λ j.
                  Sound-swap s.heap s.published s.swaps s.sequence (s.hazard j) address v
                    (s.reader j) free p (a.sound j);
            })
      go (swapped previous) e p q =
          rw (e, writer_step)
            (record {
              once = λ b. ground (arith, a.once b, e, count-append b s.retired (previous ∷ []));
              live = λ b x. ground (arith, a.live b x, e, count-append b s.retired (previous ∷ []));
              newest = a.newest;
              phase = omega arith;
              passed = tt;
              sound = λ j.
                  Sound-later s.heap s.published s.swaps s.sequence (wrapping_add s.sequence 1)
                    (s.hazard j) (s.reader j) (omega arith) (a.sound j);
            })
      go (scanning keep []) e p q =
          rw (e, writer_step)
            (record {
              once = λ b. ground (arith, a.once b, e);
              live = λ b x. ground (arith, a.live b x, e);
              newest = a.newest;
              phase = p;
              passed = tt;
              sound = a.sound;
            })
      go (scanning keep (box ∷ todo)) e p q =
          rw (e, writer_step)
            (record {
              once = λ b. ground (arith, a.once b, e);
              live = λ b x. ground (arith, a.live b x, e);
              newest = a.newest;
              phase = p;
              passed = λ j below. absurd (omega arith);
              sound = a.sound;
            })
      go (testing keep box todo slot) e p q = elim (Bool-cases (ltb slot readers)) [
        | inl more ↦ elim (Bool-cases (s.hazard slot == box)) [
          | inl guards ↦
              rw (e, writer_step, more, guards)
                (record {
                  once = λ b. ground (arith, a.once b, e, count-append b keep (box ∷ []));
                  live = λ b x. ground (arith, a.live b x, e, count-append b keep (box ∷ []));
                  newest = a.newest;
                  phase = p;
                  passed = tt;
                  sound = a.sound;
                })
          | inr open_slot ↦
              rw (e, writer_step, more, open_slot)
                (record {
                  once = λ b. ground (arith, a.once b, e);
                  live = λ b x. ground (arith, a.live b x, e);
                  newest = a.newest;
                  phase = p;
                  passed = λ j below protects. elim (Bool-cases (j == slot)) [
                    | inl here ↦
                        let same : j ≡ slot = ground arith in
                        absurd (
                          ground (
                            arith,
                            Protects-hazard s.heap s.published s.swaps s.sequence (s.hazard j)
                                (s.reader j) box (a.sound j) protects,
                            ap s.hazard same,
                          ))
                    | inr there ↦ q j (ground arith) protects
                  ];
                  sound = a.sound;
                })
        ]
        | inr over ↦
            rw (e, writer_step, over)
              (record {
                once = λ b. ground (arith, a.once b, e);
                live = λ b x. ground (arith, a.live b, a.once b, e, x);
                newest =
                    a.newest
                    ∙ rw (ne→== s.current box (λ now. tested-current s a e (sym now))) refl;
                phase = p;
                passed = tt;
                sound = λ j.
                    Sound-free s.heap s.published s.swaps s.sequence (s.hazard j) box (s.reader j)
                      (λ protects. elim (Bool-cases (ltb j slot)) [
                        | inl below ↦ q j (ground arith) protects
                        | inr above ↦ outside j (ground arith) box protects
                      ])
                      (a.sound j);
              })
      ]
