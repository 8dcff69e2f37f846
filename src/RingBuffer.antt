-- ===== src/RingBuffer.antt =====
-- src/pipeline/ring_buffer.rs: the interleaved ring between a decoder and its reader.
-- A sample is a value of any type, since samples are only moved. A panic of the source (a division
-- by a zero channel count or capacity, a slice out of range) is `none`.
pub mod Copy
pub mod Write
pub mod Read
pub mod Counters
mod Tests
use audio_engine_core.Base.{
  ℕ, ◌+◌, ◌-◌, ◌*◌, ◌/◌, ◌%◌, ◌^◌, min, not, Option, none, some, List, arith, ltb, leb, ◌==◌,
  if◌then◌else◌, ◌>>=◌, ◌>>◌, require, saturating_add, wrapping_add, length, replicate, slice,
  copy_into,
}

-- `RingBuffer`; `samples` is the field `data`.
pub record RingBuffer (A : Type 0) : Type 0 where
  pub samples : List A
  pub capacity_frames : ℕ
  pub channels : ℕ
  pub frames_written : ℕ
  pub frames_consumed : ℕ
  pub overflow_count : ℕ

-- `isize::MAX`, the size limit of an allocation; an `f64` takes 8 bytes.
abbrev pub isize_max : ℕ
isize_max = 2 ^ 63 - 1

module _ {A : Type 0} where
  -- The product wraps; `vec!` panics on a buffer that no allocation can hold.
  pub new : A → ℕ → ℕ → Option (RingBuffer A)
  new silence capacity_frames channels =
      let n = capacity_frames * channels % 2 ^ 64 in
      do
        require (leb (8 * n) isize_max)
        some (record {
          samples = replicate n silence;
          capacity_frames = capacity_frames;
          channels = channels;
          frames_written = 0;
          frames_consumed = 0;
          overflow_count = 0;
        })

  -- The new content of `data`.
  pub copy_frames_from_slice : RingBuffer A → ℕ → List A → ℕ → Option (List A)
  copy_frames_from_slice r start_frame source frames =
      let first_frames = min frames (r.capacity_frames - start_frame) in
      let first_samples = first_frames * r.channels in
      let start_sample = start_frame * r.channels in
      let remaining_frames = frames - first_frames in
      let remaining_samples = remaining_frames * r.channels in
      do
        require (leb start_frame r.capacity_frames)
        head ← slice source 0 first_samples
        copied ← copy_into r.samples start_sample head
        if ltb 0 remaining_frames
            then (do
              tail ← slice source first_samples (first_samples + remaining_samples)
              copy_into copied 0 tail)
            else some copied

  -- The new content of `output`.
  pub copy_frames_to_slice : RingBuffer A → ℕ → List A → ℕ → Option (List A)
  copy_frames_to_slice r start_frame output frames =
      let first_frames = min frames (r.capacity_frames - start_frame) in
      let first_samples = first_frames * r.channels in
      let start_sample = start_frame * r.channels in
      let remaining_frames = frames - first_frames in
      let remaining_samples = remaining_frames * r.channels in
      do
        require (leb start_frame r.capacity_frames)
        head ← slice r.samples start_sample (start_sample + first_samples)
        copied ← copy_into output 0 head
        if ltb 0 remaining_frames
            then (do
              tail ← slice r.samples 0 remaining_samples
              copy_into copied first_samples tail)
            else some copied

  -- The consumer position and the overflow count after `frames` more, and what is reported.
  pub make_room : RingBuffer A → ℕ → ℕ × ℕ × Option ℕ
  make_room r frames_to_write =
      let frames_in_buffer = r.frames_written - r.frames_consumed in
      let available_space = r.capacity_frames - frames_in_buffer in
      let consumed = saturating_add r.frames_consumed (frames_to_write - available_space) in
      if ltb available_space frames_to_write
      then (consumed, saturating_add r.overflow_count 1, some consumed)
      else (r.frames_consumed, r.overflow_count, none)

  -- `write` for a block of `frames_to_write ≠ 0` whole frames.
  pub write_frames : RingBuffer A → List A → ℕ → Option ((ℕ × Option ℕ) × RingBuffer A)
  write_frames r samples frames_to_write =
      let (consumed, overflows, overflow_consumed) = make_room r frames_to_write in
      let samples_to_write = frames_to_write * r.channels in
      let frames_to_copy = min frames_to_write r.capacity_frames in
      let source_frame_offset = frames_to_write - frames_to_copy in
      let source_sample_offset = source_frame_offset * r.channels in
      let write_frame =
        wrapping_add (r.frames_written % r.capacity_frames) source_frame_offset
        % r.capacity_frames in
      do
        require (not (r.capacity_frames == 0))
        source ← slice samples source_sample_offset samples_to_write
        copied ← copy_frames_from_slice r write_frame source frames_to_copy
        some (
          (frames_to_write, overflow_consumed),
          record r {
            samples = copied;
            frames_written = wrapping_add r.frames_written frames_to_write;
            frames_consumed = consumed;
            overflow_count = overflows;
          },
        )

  pub write : RingBuffer A → List A → Option ((ℕ × Option ℕ) × RingBuffer A)
  write r samples =
      let frames_to_write = length samples / r.channels in
      do
        require (not (r.channels == 0))
        if frames_to_write == 0 then some ((0, none), r) else write_frames r samples frames_to_write

  -- The number of frames read, and the new content of `output`.
  pub read : RingBuffer A → ℕ → List A → Option (ℕ × List A)
  read r start_frame output =
      let frames_to_read = length output / r.channels in
      let available = r.frames_written - start_frame in
      let actual_frames = min frames_to_read available in
      do
        require (not (r.channels == 0))
        if actual_frames == 0 then some (0, output) else (do
          require (not (r.capacity_frames == 0))
          copied ← copy_frames_to_slice r (start_frame % r.capacity_frames) output actual_frames
          some (actual_frames, copied))

  pub advance_read_pos : RingBuffer A → ℕ → RingBuffer A
  advance_read_pos r frames = record r { frames_consumed = saturating_add r.frames_consumed frames }

  pub available_frames : RingBuffer A → ℕ → ℕ
  available_frames r read_pos = r.frames_written - read_pos
