-- ===== src/RealtimeSnapshot/Reads.antt =====
-- What every reachable system gives its readers.
use audio_engine_core.Base.{
  ne→==, subst, ℕ, ◌≤◌, ◌≡◌, ◌≢◌, refl, ap, ◌∙◌, inl, inr, false, some, [], ◌∷◌, arith, ◌==◌, ltb,
  Bool-cases,
}
use audio_engine_core.RealtimeSnapshot.{
  Reader, resting, returned, crashed, Writer, idle, opened, swapped, scanning, testing, System,
  reader_step, writer_step, reads, writes, Reached, starts, steps,
}
use audio_engine_core.RealtimeSnapshot.Safe.{Protects, Sound, IsSafe, start-IsSafe}
use audio_engine_core.RealtimeSnapshot.Load.{reader_step-IsSafe}
use audio_engine_core.RealtimeSnapshot.Publish.{writer_step-IsSafe}

module _ {T : Type 0} where
  -- A slot that no reader has stays as it is.
  reader_step-other :
      (i j : ℕ) (s : System T) → (j == i) ≡ false → (reader_step i s).reader j ≡ s.reader j
  unfolding reader_step
  reader_step-other i j s other = ground arith

  writer_step-reader :
      (readers : ℕ) (value : T) (address : ℕ) (s : System T)
      → (writer_step readers value address s).reader ≡ s.reader
  unfolding writer_step
  writer_step-reader readers value address s = go s.writer refl
    where
      go : (w : Writer T) → s.writer ≡ w → (writer_step readers value address s).reader ≡ s.reader
      go idle e = rw (e, writer_step) refl
      go (opened v) e = rw (e, writer_step) refl
      go (swapped previous) e = rw (e, writer_step) refl
      go (scanning keep []) e = rw (e, writer_step) refl
      go (scanning keep (box ∷ todo)) e = rw (e, writer_step) refl
      go (testing keep box todo slot) e = elim (Bool-cases (ltb slot readers)) [
        | inl more ↦ elim (Bool-cases (s.hazard slot == box)) [
          | inl guards ↦ rw (e, writer_step, more, guards) refl
          | inr open_slot ↦ rw (e, writer_step, more, open_slot) refl
        ]
        | inr over ↦ rw (e, writer_step, over) refl
      ]

  resting-outside :
      (readers : ℕ) (snapshot : T) (s : System T)
      → Reached readers snapshot s
      → (j : ℕ) → readers ≤ j
      → s.reader j ≡ resting
  resting-outside readers snapshot _ starts j h = refl
  resting-outside readers snapshot _ (steps {s} r (reads i below)) j h =
      reader_step-other i j s (ne→== j i (λ e. ground arith))
      ∙ resting-outside readers snapshot s r j h
  resting-outside readers snapshot _ (steps {s} r (writes value address free room)) j h =
      ap (λ (f : ℕ → Reader T). f j) (writer_step-reader readers value address s)
      ∙ resting-outside readers snapshot s r j h

  Reached-IsSafe :
      (readers : ℕ) (snapshot : T) (s : System T) → Reached readers snapshot s → IsSafe s
  Reached-IsSafe readers snapshot _ starts = start-IsSafe snapshot
  Reached-IsSafe readers snapshot _ (steps {s} r (reads i below)) =
      reader_step-IsSafe i s (Reached-IsSafe readers snapshot s r)
  Reached-IsSafe readers snapshot _ (steps {s} r (writes value address free room)) =
      writer_step-IsSafe readers value address s free room
        (λ j h b x.
          subst (λ (t : Reader T). Protects t b) (resting-outside readers snapshot s r j h) x)
        (Reached-IsSafe readers snapshot s r)

  -- However the accesses of any number of readers and of the writer interleave, and whatever freed
  -- address an allocation takes, no reader ever reads a box that was freed, as long as the sequence
  -- has not used up its 64 bits.
  pub Reached-crashed :
      (readers : ℕ) (snapshot : T) {s : System T}
      → Reached readers snapshot s
      → (j : ℕ) → s.reader j ≢ crashed
  Reached-crashed readers snapshot {s} r j e =
      subst (Sound s.heap s.published s.swaps s.sequence (s.hazard j)) e
        ((Reached-IsSafe readers snapshot s r).sound j)

  -- However the accesses of any number of readers and of the writer interleave, a read that returns
  -- a snapshot with a generation returns the snapshot that was published as that generation, as long
  -- as the sequence has not used up its 64 bits.
  pub Reached-returned :
      (readers : ℕ) (snapshot : T) {s : System T}
      → Reached readers snapshot s
      → (j : ℕ) {value : T} {generation : ℕ} → s.reader j ≡ returned (some (value, generation))
      → (s.published generation ≡ some value) × (generation ≤ s.swaps)
  Reached-returned readers snapshot {s} r j e =
      subst (Sound s.heap s.published s.swaps s.sequence (s.hazard j)) e
        ((Reached-IsSafe readers snapshot s r).sound j)
