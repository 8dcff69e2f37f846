-- ===== src/RingBuffer/Write.antt =====
-- `write`: the ring holds the newest frames of everything that was written.
use audio_engine_core.Base.{
  ℕ, ◌+◌, ◌-◌, ◌*◌, ◌/◌, ◌%◌, ◌^◌, ◌≤◌, ◌<◌, min, ◌≡◌, ◌≢◌, refl, sym, ap, ◌∙◌, inl, inr, Option,
  none, some, List, arith, ltb, wrapping_add, ne→==, ==_iff, lt→ltb, slice_span, Bool-cases,
  sub-mul-add, mod-mul, lt-mul_right, length, get_elem?, take, drop, overwrite, slice_prefix,
  slice_add, copy_into_of_le, le→leb, ltb→le, length-overwrite, length-take, length-drop,
  get_elem?-take, get_elem?-drop,
}
use native.Mathlib.Decide.{ℕ_discrete, dec_lt}
use native.Mathlib.Nat.{div-mul-le_self, mod-eq_of_lt, mod-add-mod, mod-le, mul-le-mul_right}
use audio_engine_core.RingBuffer.{
  RingBuffer, isize_max, copy_frames_from_slice, make_room, write_frames, write,
}
use audio_engine_core.RingBuffer.Copy.{
  History, extend, Split, min-Split, two_pieces, length-two_pieces, two_pieces_holds,
}

-- What `new` gives for a positive capacity and channel count, and the counters within a `u64`.
pub record IsValid {A : Type 0} (r : RingBuffer A) : Type 0 where
  pub storage : length r.samples ≡ r.capacity_frames * r.channels
  pub frames_pos : 0 < r.capacity_frames
  pub channels_pos : 0 < r.channels
  pub capacity_small : r.capacity_frames ≤ isize_max
  pub written_small : r.frames_written < 2 ^ 64
  pub consumed_small : r.frames_consumed < 2 ^ 64

-- The ring holds the newest `capacity_frames` frames of the stream.
abbrev pub Holds : {A : Type 0} → RingBuffer A → History A → Type 0
Holds r h =
    (q : ℕ)
    → q < r.frames_written * r.channels
    → r.frames_written * r.channels ≤ q + r.capacity_frames * r.channels
    → get_elem? r.samples (q % (r.capacity_frames * r.channels)) ≡ h q

module _ {A : Type 0} (r : RingBuffer A) (v : IsValid r) where
  open r use {samples, capacity_frames, channels}

  pub copy_frames_from_slice_lem :
      (start frames : ℕ) (source : List A)
      → start < capacity_frames
      → frames ≤ capacity_frames
      → length source ≡ frames * channels
      → copy_frames_from_slice r start source frames
        ≡ some (
            two_pieces samples source
              (start * channels)
              (min frames (capacity_frames - start) * channels)
              (frames * channels))
  unfolding copy_frames_from_slice
  copy_frames_from_slice_lem start frames source hs hf hl =
      rw
        (
          le→leb start capacity_frames (omega arith),
          slice_prefix source F (omega (arith, split)),
          copy_into_of_le samples s (take F source)
              (omega (arith, length-take F source, v.storage, split)),
        )
        (elim (Bool-cases (ltb 0 (frames - f))) [
          | inl more ↦
              rw (more, slice_add source F R (omega (arith, rest, split)), rest)
                (copy_into_of_le (overwrite samples s (take F source)) 0
                  (take (frames * channels - F) (drop F source))
                  (omega (
                    arith,
                    rest,
                    split,
                    v.storage,
                    mul-le-mul_right channels hf,
                    length-overwrite samples s (take F source),
                    length-take (frames * channels - F) (drop F source),
                    length-drop F source,
                  )))
          | inr less ↦ rw less (ap some (sym (no_tail (ltb→le 0 (frames - f) less))))
        ])
    where
      f : ℕ
      f = min frames (capacity_frames - start)

      F : ℕ
      F = f * channels

      s : ℕ
      s = start * channels

      split : Split (capacity_frames * channels) s F (frames * channels)
      split = min-Split capacity_frames channels start frames hs

      R : ℕ
      R = (frames - f) * channels

      rest : R ≡ frames * channels - F
      rest = omega (arith, sub-mul-add frames f channels (omega arith))

      no_tail :
          frames - f ≤ 0
          → two_pieces samples source s F (frames * channels) ≡ overwrite samples s (take F source)
      no_tail h =
          ap (λ k. overwrite (overwrite samples s (take F source)) 0 (take k (drop F source)))
            nothing
        where
          none_left : frames - f ≡ 0
          none_left = omega arith

          nothing : frames * channels - F ≡ 0
          nothing = omega (arith, rest, ap (λ (t : ℕ). t * channels) none_left)

  module _ (h : History A) (holds : Holds r h) (block : List A) (f : ℕ) where
    abbrev copied_frames : ℕ
    copied_frames = min f capacity_frames

    abbrev skipped : ℕ
    skipped = f - copied_frames

    abbrev source : List A
    source = take (copied_frames * channels) (drop (skipped * channels) block)

    abbrev write_frame : ℕ
    write_frame = (r.frames_written + skipped) % capacity_frames

    abbrev overwritten : List A
    overwritten =
        two_pieces samples source (write_frame * channels)
          (min copied_frames (capacity_frames - write_frame) * channels) (copied_frames * channels)

    module _ (whole : f * channels ≤ length block) where
      length-source : length source ≡ copied_frames * channels
      length-source = omega (
        arith,
        length-take (copied_frames * channels) (drop (skipped * channels) block),
        length-drop (skipped * channels) block,
        sub-mul-add f copied_frames channels (omega arith),
      )

      -- After the copy the ring holds the newest frames, the block's included.
      overwritten_holds :
          (q : ℕ)
          → q < (r.frames_written + f) * channels
          → (r.frames_written + f) * channels ≤ q + capacity_frames * channels
          → get_elem? overwritten (q % (capacity_frames * channels))
            ≡ extend h (r.frames_written * channels) block q
      overwritten_holds q below recent =
          two_pieces_holds samples source (write_frame * channels)
            (min copied_frames (capacity_frames - write_frame) * channels)
            (copied_frames * channels) (capacity_frames * channels) v.storage length-source
            (mul-le-mul_right channels (omega arith))
            (lt-mul_right channels v.channels_pos (omega arith))
            (min-Split capacity_frames channels write_frame copied_frames (omega arith)) h block
            (r.frames_written * channels) (skipped * channels)
            ((r.frames_written + skipped) * channels)
            (mod-mul (r.frames_written + skipped) capacity_frames channels v.frames_pos
              v.channels_pos)
            (omega arith) full same holds q (omega (arith, total)) (omega (arith, total))
        where
          total : (skipped + copied_frames) * channels ≡ f * channels
          total = ap (λ (t : ℕ). t * channels) (omega arith)

          full : skipped * channels ≢ 0 → copied_frames * channels ≡ capacity_frames * channels
          full ne = elim (dec_lt capacity_frames f) [
            | yes p ↦ ap (λ (t : ℕ). t * channels) (omega arith)
            | no p ↦ absurd (
                ne (
                  let e : skipped ≡ 0 = omega arith in
                  omega (arith, ap (λ (t : ℕ). t * channels) e)))
          ]

          same :
              (k : ℕ)
              → k < copied_frames * channels
              → get_elem? source k ≡ get_elem? block (skipped * channels + k)
          same k hk =
              get_elem?-take (copied_frames * channels) (drop (skipped * channels) block) k hk
              ∙ get_elem?-drop (skipped * channels) block k (skipped * channels + k) refl

      module _ (f_pos : f ≢ 0) (room : r.frames_written + f < 2 ^ 64) where
        after : RingBuffer A
        unfolding make_room
        after = record r {
          samples = overwritten;
          frames_written = r.frames_written + f;
          frames_consumed = (make_room r f).0;
          overflow_count = (make_room r f).1;
        }

        write_frames_lem : write_frames r block f ≡ some ((f, (make_room r f).2), after)
        unfolding write_frames after
        write_frames_lem =
            rw
              (
                ne→== capacity_frames 0 (omega (arith, v.frames_pos)),
                slice_span block (skipped * channels) (f * channels) (copied_frames * channels)
                    (omega (arith, sub-mul-add f copied_frames channels (omega arith))) whole,
                frame,
                copy_frames_from_slice_lem write_frame copied_frames source (omega arith)
                    (omega arith) length-source,
                mod-eq_of_lt room,
              )
              refl
          where
            small : r.frames_written % capacity_frames + skipped < 2 ^ 64
            small = omega (arith, mod-le r.frames_written capacity_frames)

            frame :
                wrapping_add (r.frames_written % capacity_frames) skipped % capacity_frames
                ≡ write_frame
            frame =
                rw
                  (mod-eq_of_lt {n = r.frames_written % capacity_frames + skipped} {m = 2 ^ 64}
                    small)
                  (mod-add-mod r.frames_written capacity_frames skipped)

-- The ring after a write of whole frames, with what `write` returned.
pub record Written {A : Type 0} (r : RingBuffer A) (h : History A) (block : List A) : Type 0 where
  pub count : ℕ
  pub overflow : Option ℕ
  pub ring : RingBuffer A
  pub returned : write r block ≡ some ((count, overflow), ring)
  pub whole_frames : count ≡ length block / r.channels
  pub total : ring.frames_written ≡ r.frames_written + count
  pub capacity_kept : ring.capacity_frames ≡ r.capacity_frames
  pub channels_kept : ring.channels ≡ r.channels
  pub valid : IsValid ring
  pub holds : Holds ring (extend h (r.frames_written * r.channels) block)

after-IsValid :
    {A : Type 0} (r : RingBuffer A) (v : IsValid r) (h : History A) (holds : Holds r h)
    (block : List A) (f : ℕ) (whole : f * r.channels ≤ length block) (ne : f ≢ 0)
    (room : r.frames_written + f < 2 ^ 64)
    → IsValid (after r v h holds block f whole ne room)
unfolding after make_room
after-IsValid r v h holds block f whole ne room = record {
  storage =
      length-two_pieces r.samples (source r v h holds block f)
        (write_frame r v h holds block f * r.channels)
        (min (min f r.capacity_frames) (r.capacity_frames - write_frame r v h holds block f)
          * r.channels)
        (min f r.capacity_frames * r.channels)
      ∙ v.storage;
  frames_pos = v.frames_pos;
  channels_pos = v.channels_pos;
  capacity_small = v.capacity_small;
  written_small = room;
  consumed_small = ground (arith, v.consumed_small);
}

after-Written :
    {A : Type 0} (r : RingBuffer A) (v : IsValid r) (h : History A) (holds : Holds r h)
    (block : List A) (whole : length block / r.channels * r.channels ≤ length block)
    (ne : length block / r.channels ≢ 0)
    (room : r.frames_written + length block / r.channels < 2 ^ 64)
    → Written r h block
unfolding write after
after-Written r v h holds block whole ne room = record {
  count = f;
  overflow = (make_room r f).2;
  ring = after r v h holds block f whole ne room;
  returned =
      rw (ne→== r.channels 0 (omega (arith, v.channels_pos)), ne→== f 0 ne)
        (write_frames_lem r v h holds block f whole ne room);
  whole_frames = refl;
  total = refl;
  capacity_kept = refl;
  channels_kept = refl;
  valid = after-IsValid r v h holds block f whole ne room;
  holds = overwritten_holds r v h holds block f whole;
}
  where
    f : ℕ
    f = length block / r.channels

no_frames-Written :
    {A : Type 0} (r : RingBuffer A) (h : History A) (block : List A)
    → IsValid r
    → Holds r h
    → length block / r.channels ≡ 0
    → Written r h block
unfolding write
no_frames-Written r h block v holds e = record {
  count = 0;
  overflow = none;
  ring = r;
  returned =
      rw
        (
          ne→== r.channels 0 (omega (arith, v.channels_pos)),
          (==_iff (length block / r.channels) 0).1 e,
        )
        refl;
  whole_frames = sym e;
  total = omega arith;
  capacity_kept = refl;
  channels_kept = refl;
  valid = v;
  holds =
      λ q below recent. rw (lt→ltb q (r.frames_written * r.channels) below) (holds q below recent);
}

-- A write to a well-formed ring that holds the newest frames of a stream, of a block for which the
-- frame counter has room, returns the block's whole frames, keeps the ring well formed, and leaves
-- in it the newest frames of the stream that the block extends.
pub write_lem :
    {A : Type 0} (r : RingBuffer A) (h : History A) (block : List A)
    → IsValid r
    → Holds r h
    → r.frames_written + length block / r.channels < 2 ^ 64
    → Written r h block
write_lem r h block v holds room = elim (ℕ_discrete (length block / r.channels) 0) [
  | yes e ↦ no_frames-Written r h block v holds e
  | no ne ↦ after-Written r v h holds block (div-mul-le_self (length block) r.channels) ne room
]
