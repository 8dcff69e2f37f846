-- ===== src/RingBuffer/Read.antt =====
-- `read`: what a reader at a position that the ring still holds gets.
use audio_engine_core.Base.{
  ℕ, ◌+◌, ◌-◌, ◌*◌, ◌/◌, ◌%◌, ◌≤◌, ◌<◌, min, ◌≡◌, ◌≢◌, refl, sym, ap, ◌∙◌, inl, inr, some, List,
  arith, ltb, le→leb, ltb→le, ne→==, ==_iff, Bool-cases, mod-mul, lt-mul_right, sub-mul-add, length,
  get_elem?, take, drop, overwrite, slice_span, slice_prefix, copy_into_of_le, length-take,
  length-drop, length-overwrite, get_elem?-take, get_elem?-drop, get_elem?-overwrite_in,
  get_elem?-overwrite_below, get_elem?-overwrite_above,
}
use native.Mathlib.Decide.{ℕ_discrete, dec_lt}
use native.Mathlib.Nat.{div-mul-le_self, mul-le-mul_right}
use audio_engine_core.RingBuffer.{RingBuffer, copy_frames_to_slice, read}
use audio_engine_core.RingBuffer.Copy.{History, Split, min-Split, Beyond, mod-Beyond}
use audio_engine_core.RingBuffer.Write.{IsValid, Holds}

module _ {A : Type 0} (ring out : List A) (s F L : ℕ) where
  -- `copy_frames_to_slice` on samples: the end of the ring, then its start.
  abbrev unrolled : List A
  unrolled = overwrite (overwrite out 0 (take F (drop s ring))) F (take (L - F) ring)

  length-unrolled : length unrolled ≡ length out
  length-unrolled =
      length-overwrite (overwrite out 0 (take F (drop s ring))) F (take (L - F) ring)
      ∙ length-overwrite out 0 (take F (drop s ring))

  module _ (C : ℕ) (ring_len : length ring ≡ C) (fits : L ≤ C) (room : L ≤ length out)
      (s_in : s < C) (split : Split C s F L) where
    first_len : length (take F (drop s ring)) ≡ F
    first_len = omega (arith, length-take F (drop s ring), length-drop s ring)

    second_len : length (take (L - F) ring) ≡ L - F
    second_len = omega (arith, length-take (L - F) ring)

    unrolled_in :
        (i k : ℕ) → i < C → k < L → Beyond C s k i → get_elem? unrolled k ≡ get_elem? ring i
    unrolled_in i k hi hk b = elim (dec_lt k F) [
      | yes p ↦
          get_elem?-overwrite_below (overwrite out 0 (take F (drop s ring))) F (take (L - F) ring) k
            p
          ∙ get_elem?-overwrite_in out 0 (take F (drop s ring)) k k (omega arith)
              (omega (arith, first_len)) (omega arith)
          ∙ get_elem?-take F (drop s ring) k p
          ∙ get_elem?-drop s ring k i (omega arith)
      | no p ↦
          get_elem?-overwrite_in (overwrite out 0 (take F (drop s ring))) F (take (L - F) ring) k i
            (omega arith) (omega (arith, second_len))
            (omega (arith, length-overwrite out 0 (take F (drop s ring))))
          ∙ get_elem?-take (L - F) ring i (omega arith)
    ]

    unrolled_out : (k : ℕ) → L ≤ k → get_elem? unrolled k ≡ get_elem? out k
    unrolled_out k h =
        get_elem?-overwrite_above (overwrite out 0 (take F (drop s ring))) F (take (L - F) ring) k
          (omega (arith, second_len))
        ∙ get_elem?-overwrite_above out 0 (take F (drop s ring)) k (omega (arith, first_len))

module _ {A : Type 0} (r : RingBuffer A) (v : IsValid r) where
  open r use {samples, capacity_frames, channels}

  copy_frames_to_slice_lem :
      (start frames : ℕ) (out : List A)
      → start < capacity_frames
      → frames ≤ capacity_frames
      → frames * channels ≤ length out
      → copy_frames_to_slice r start out frames
        ≡ some (
            unrolled samples out
              (start * channels)
              (min frames (capacity_frames - start) * channels)
              (frames * channels))
  unfolding copy_frames_to_slice
  copy_frames_to_slice_lem start frames out hs hf hl =
      rw
        (
          le→leb start capacity_frames (omega arith),
          slice_span samples s (s + F) F refl (omega (arith, split, v.storage)),
          copy_into_of_le out 0 (take F (drop s samples)) (omega (arith, first, split)),
        )
        (elim (Bool-cases (ltb 0 (frames - f))) [
          | inl more ↦
              rw (more, slice_prefix samples R (omega (arith, rest, split, whole, v.storage)), rest)
                (copy_into_of_le (overwrite out 0 (take F (drop s samples))) F
                  (take (frames * channels - F) samples)
                  (omega (
                    arith,
                    split,
                    hl,
                    length-overwrite out 0 (take F (drop s samples)),
                    length-take (frames * channels - F) samples,
                  )))
          | inr less ↦ rw less (ap some (sym (no_tail (ltb→le 0 (frames - f) less))))
        ])
    where
      f : ℕ
      f = min frames (capacity_frames - start)

      F : ℕ
      F = f * channels

      s : ℕ
      s = start * channels

      split : Split (capacity_frames * channels) s F (frames * channels)
      split = min-Split capacity_frames channels start frames hs

      whole : frames * channels ≤ capacity_frames * channels
      whole = mul-le-mul_right channels hf

      first : length (take F (drop s samples)) ≤ F
      first = omega (arith, length-take F (drop s samples))

      R : ℕ
      R = (frames - f) * channels

      rest : R ≡ frames * channels - F
      rest = omega (arith, sub-mul-add frames f channels (omega arith))

      no_tail :
          frames - f ≤ 0
          → unrolled samples out s F (frames * channels) ≡ overwrite out 0 (take F (drop s samples))
      no_tail h =
          ap (λ k. overwrite (overwrite out 0 (take F (drop s samples))) F (take k samples)) nothing
        where
          none_left : frames - f ≡ 0
          none_left = omega arith

          nothing : frames * channels - F ≡ 0
          nothing = omega (arith, rest, ap (λ (t : ℕ). t * channels) none_left)

-- What `read` leaves in `output` of a stream: `count` frames from `start`, and the rest untouched.
pub record Served {A : Type 0} (h : History A) (n start count : ℕ) (out out' : List A)
    : Type 0 where
  pub same_length : length out' ≡ length out
  pub served : (k : ℕ) → k < count * n → get_elem? out' k ≡ h (start * n + k)
  pub untouched : (k : ℕ) → count * n ≤ k → get_elem? out' k ≡ get_elem? out k

module _ {A : Type 0} (r : RingBuffer A) (h : History A) (start : ℕ) (out : List A) where
  abbrev readable : ℕ
  readable = min (length out / r.channels) (r.frames_written - start)

  module _ (v : IsValid r) (holds : Holds r h)
      (recent : r.frames_written ≤ start + r.capacity_frames) where
    read-some :
        readable ≢ 0
        → (out' : List A) × (read r start out ≡ some (readable, out'))
          × Served h r.channels start readable out out'
    unfolding read
    read-some ne = (
      unrolled r.samples out (from * r.channels) F L,
      rw
          (
            ne→== r.channels 0 (omega (arith, v.channels_pos)),
            ne→== readable 0 ne,
            ne→== r.capacity_frames 0 (omega (arith, v.frames_pos)),
            copy_frames_to_slice_lem r v from readable out from_in (omega arith) fits,
          )
          refl,
      record {
        same_length = length-unrolled r.samples out (from * r.channels) F L;
        served = served;
        untouched =
            unrolled_out r.samples out (from * r.channels) F L C v.storage whole fits s_in split;
      },
    )
      where
        from : ℕ
        from = start % r.capacity_frames

        from_in : from < r.capacity_frames
        from_in = omega (arith, v.frames_pos)

        C : ℕ
        C = r.capacity_frames * r.channels

        F : ℕ
        F = min readable (r.capacity_frames - from) * r.channels

        L : ℕ
        L = readable * r.channels

        whole : L ≤ C
        whole = mul-le-mul_right r.channels (omega arith)

        fits : L ≤ length out
        fits = omega (
          arith,
          div-mul-le_self (length out) r.channels,
          mul-le-mul_right {m = readable} {n = length out / r.channels} r.channels (omega arith),
        )

        s_in : from * r.channels < C
        s_in = lt-mul_right r.channels v.channels_pos from_in

        split : Split C (from * r.channels) F L
        split = min-Split r.capacity_frames r.channels from readable from_in

        upto : L + start * r.channels ≤ r.frames_written * r.channels
        upto = omega (
          arith,
          mul-le-mul_right {m = readable + start} {n = r.frames_written} r.channels (omega arith),
        )

        newest : r.frames_written * r.channels ≤ start * r.channels + C
        newest = omega (arith, mul-le-mul_right r.channels recent)

        served :
            (k : ℕ)
            → k < L
            → get_elem? (unrolled r.samples out (from * r.channels) F L) k
              ≡ h (start * r.channels + k)
        served k hk =
            unrolled_in r.samples out (from * r.channels) F L C v.storage whole fits s_in split
              ((start * r.channels + k) % C) k (omega (arith, s_in)) hk
              (rw (mod-mul start r.capacity_frames r.channels v.frames_pos v.channels_pos)
                (mod-Beyond C (start * r.channels) k (omega (arith, s_in)) (omega (arith, whole))))
            ∙ holds (start * r.channels + k) (omega (arith, upto)) (omega (arith, newest))

    read_nothing :
        readable ≡ 0
        → (out' : List A) × (read r start out ≡ some (readable, out'))
          × Served h r.channels start readable out out'
    unfolding read
    read_nothing e = (
      out,
      rw (ne→== r.channels 0 (omega (arith, v.channels_pos)), (==_iff readable 0).1 e)
          (ap (λ (n : ℕ). some (n, out)) (sym e)),
      record {
        same_length = refl;
        served = λ k hk. absurd (omega (arith, ap (λ (t : ℕ). t * r.channels) e));
        untouched = λ k hk. refl;
      },
    )

-- A read from a well-formed ring that holds the newest frames of a stream, at a position that it
-- still holds, returns the frames that were written there, in order, as many as fit and as were
-- written, and leaves the rest of the output alone.
pub read_lem :
    {A : Type 0} (r : RingBuffer A) (h : History A) (start : ℕ) (out : List A)
    → IsValid r
    → Holds r h
    → r.frames_written ≤ start + r.capacity_frames
    → let n = min (length out / r.channels) (r.frames_written - start) in
      (out' : List A) × (read r start out ≡ some (n, out')) × Served h r.channels start n out out'
read_lem r h start out v holds recent = elim (ℕ_discrete (readable r h start out) 0) [
  | yes e ↦ read_nothing r h start out v holds recent e
  | no ne ↦ read-some r h start out v holds recent ne
]
