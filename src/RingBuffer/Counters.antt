-- ===== src/RingBuffer/Counters.antt =====
-- The monotonic counters of the ring: what is unread, and what an overflow drops.
use audio_engine_core.Base.{
  ℕ, ◌+◌, ◌*◌, ◌/◌, ◌^◌, ◌≤◌, ◌<◌, ◌≡◌, ◌⊎◌, refl, Option, none, some, List, arith, wrapping_add,
  length, length-replicate, le→leb, replicate,
}
use audio_engine_core.RingBuffer.{
  RingBuffer, isize_max, new, make_room, write_frames, write, advance_read_pos, available_frames,
}
use audio_engine_core.RingBuffer.Write.{IsValid, Holds}
use native.Mathlib.Nat.{mod-eq_of_lt}

-- The consumer lies between the oldest frame that the ring holds and the newest.
pub record InStep {A : Type 0} (r : RingBuffer A) : Type 0 where
  pub consumed_written : r.frames_consumed ≤ r.frames_written
  pub unread_fits : r.frames_written ≤ r.frames_consumed + r.capacity_frames

-- What `write` says of the consumer position: nothing, or where it moved it so that just the newest
-- `capacity_frames` frames stay unread.
abbrev pub Reported : {A : Type 0} → RingBuffer A → RingBuffer A → Option ℕ → Type 0
Reported r r' o =
    ((o ≡ none) × (r'.frames_consumed ≡ r.frames_consumed) × (r'.overflow_count ≡ r.overflow_count))
    ⊎ ((o ≡ some r'.frames_consumed)
        × (r'.frames_consumed + r'.capacity_frames ≡ r'.frames_written)
        × (r.frames_consumed < r'.frames_consumed))

-- A new ring of a positive capacity and channel count, whose samples an allocation can hold, is
-- well formed, in step, and has written nothing.
pub new-IsValid :
    {A : Type 0} (z : A) (cap_frames channels : ℕ)
    → 0 < cap_frames
    → 0 < channels
    → 8 * (cap_frames * channels) ≤ isize_max
    → (r : RingBuffer A) × (new z cap_frames channels ≡ some r)
      × IsValid r
      × InStep r
      × Holds r (λ q. none)
      × (r.frames_written ≡ 0)
unfolding new
new-IsValid z cap_frames channels hc hn small = (
  record {
    samples = replicate (cap_frames * channels) z;
    capacity_frames = cap_frames;
    channels = channels;
    frames_written = 0;
    frames_consumed = 0;
    overflow_count = 0;
  },
  rw
      (
        mod-eq_of_lt {n = cap_frames * channels} {m = 2 ^ 64} (omega arith),
        le→leb (8 * (cap_frames * channels)) isize_max small,
      )
      refl,
  record {
    storage = length-replicate (cap_frames * channels) z;
    frames_pos = hc;
    channels_pos = hn;
    capacity_small = grind arith;
    written_small = omega arith;
    consumed_small = omega arith;
  },
  record { consumed_written = omega arith; unread_fits = omega arith },
  λ q below recent. absurd (omega arith),
  refl,
)

-- What a write of `f` frames leaves in the counters.
record Counted {A : Type 0} (r r' : RingBuffer A) (f : ℕ) (o : Option ℕ) : Type 0 where
  written : r'.frames_written ≡ wrapping_add r.frames_written f
  consumed : r'.frames_consumed ≡ (make_room r f).0
  overflows : r'.overflow_count ≡ (make_room r f).1
  reported : o ≡ (make_room r f).2
  capacity : r'.capacity_frames ≡ r.capacity_frames

write_frames-Counted :
    {A : Type 0} {r r' : RingBuffer A} (block : List A) (f : ℕ) {n : ℕ} {o : Option ℕ}
    → write_frames r block f ≡ some ((n, o), r')
    → Counted r r' f o
unfolding write_frames
write_frames-Counted block f e = ground arith

Counted-InStep :
    {A : Type 0} {r r' : RingBuffer A} (f : ℕ) {o : Option ℕ}
    → InStep r
    → r.frames_written + f < 2 ^ 64
    → Counted r r' f o
    → InStep r' × Reported r r' o
unfolding make_room
Counted-InStep f s room c = ground arith

write-Counted :
    {A : Type 0} {r r' : RingBuffer A} (block : List A) {n : ℕ} {o : Option ℕ}
    → r.frames_written + length block / r.channels < 2 ^ 64
    → write r block ≡ some ((n, o), r')
    → Counted r r' (length block / r.channels) o
unfolding write make_room
write-Counted {r} {r'} block {n} {o} room e = ground (
  arith,
  write_frames-Counted {r = r} {r' = r'} block (length block / r.channels) {n = n} {o = o},
)

-- A write to a ring in step, for which the counter has room, keeps the consumer in step, and
-- reports a consumer position exactly when it moves it: then just the newest `capacity_frames`
-- frames are unread.
pub write-InStep :
    {A : Type 0} {r r' : RingBuffer A} (block : List A) {n : ℕ} {o : Option ℕ}
    → InStep r
    → r.frames_written + length block / r.channels < 2 ^ 64
    → write r block ≡ some ((n, o), r')
    → InStep r' × Reported r r' o
write-InStep {r} block s room e =
    Counted-InStep (length block / r.channels) s room (write-Counted block room e)

-- Moving the consumer of a well-formed ring in step by what `available_frames` allows keeps it in
-- step.
pub advance_read_pos-InStep :
    {A : Type 0} (r : RingBuffer A) (n : ℕ)
    → IsValid r
    → InStep r
    → n ≤ available_frames r r.frames_consumed
    → InStep (advance_read_pos r n)
unfolding available_frames advance_read_pos
advance_read_pos-InStep r n v s h = omega arith
