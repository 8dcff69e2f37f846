-- ===== src/RingBuffer/Tests.antt =====
-- The ring buffer run on small inputs: two frames of two channels.
use audio_engine_core.Base.{
  slice, copy_into, suc, zero, ℕ, ◌/◌, ◌≡◌, refl, some, List, [], ◌∷◌, arith, get_elem?, length,
  min, ◌-◌, ◌≤◌,
}
use audio_engine_core.RingBuffer.{
  RingBuffer, make_room, write_frames, copy_frames_from_slice, available_frames, write, read,
}
use audio_engine_core.RingBuffer.Copy.{History}
use audio_engine_core.RingBuffer.Write.{IsValid, Holds, Written, write_lem}
use audio_engine_core.RingBuffer.Read.{Served, read_lem}
use audio_engine_core.RingBuffer.Counters.{InStep, Reported, write-InStep}

-- One frame was written.
abbrev started : RingBuffer ℕ
started = record {
  samples = 1 ∷ 2 ∷ 0 ∷ 0 ∷ [];
  capacity_frames = 2;
  channels = 2;
  frames_written = 1;
  frames_consumed = 0;
  overflow_count = 0;
}

abbrev stream : History ℕ
stream q = get_elem? (1 ∷ 2 ∷ []) q

started-IsValid : IsValid started
started-IsValid = record {
  storage = refl;
  frames_pos = omega arith;
  channels_pos = omega arith;
  capacity_small = omega arith;
  written_small = omega arith;
  consumed_small = omega arith;
}

started-Holds : Holds started stream
started-Holds zero below recent = refl
started-Holds (suc zero) below recent = refl
started-Holds (suc (suc q)) below recent = absurd (omega arith)

started-InStep : InStep started
started-InStep = record { consumed_written = omega arith; unread_fits = omega arith }

write_lem_example : Written started stream (3 ∷ 4 ∷ 5 ∷ 6 ∷ [])
write_lem_example =
    write_lem started stream (3 ∷ 4 ∷ 5 ∷ 6 ∷ []) started-IsValid started-Holds (omega arith)

read_lem_example :
    let n = min (length {A = ℕ} (9 ∷ 9 ∷ 9 ∷ 9 ∷ []) / 2) (1 - 0) in
    (out' : List ℕ) × (read started 0 (9 ∷ 9 ∷ 9 ∷ 9 ∷ []) ≡ some (n, out'))
    × Served stream 2 0 n (9 ∷ 9 ∷ 9 ∷ 9 ∷ []) out'
read_lem_example =
    read_lem started stream 0 (9 ∷ 9 ∷ 9 ∷ 9 ∷ []) started-IsValid started-Holds (omega arith)

-- after two more frames, which drop the first
abbrev overflowed : RingBuffer ℕ
overflowed = record {
  samples = 5 ∷ 6 ∷ 3 ∷ 4 ∷ [];
  capacity_frames = 2;
  channels = 2;
  frames_written = 3;
  frames_consumed = 1;
  overflow_count = 1;
}

started-overflowed : write started (3 ∷ 4 ∷ 5 ∷ 6 ∷ []) ≡ some ((2, some 1), overflowed)
unfolding write write_frames make_room copy_frames_from_slice slice copy_into
started-overflowed = refl

write-InStep_example : InStep overflowed × Reported started overflowed (some 1)
write-InStep_example =
    write-InStep {r = started} {r' = overflowed} (3 ∷ 4 ∷ 5 ∷ 6 ∷ []) {n = 2} {o = some 1}
      started-InStep (omega arith) started-overflowed

one_unread : 1 ≤ available_frames started 0
unfolding available_frames
one_unread = omega arith
