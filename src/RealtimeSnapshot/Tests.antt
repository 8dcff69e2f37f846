-- ===== src/RealtimeSnapshot/Tests.antt =====
-- One reader reads the first snapshot while a second one is published.
use audio_engine_core.Base.{ℕ, ◌+◌, ◌^◌, ◌<◌, ◌≤◌, ◌≡◌, ◌≢◌, refl, none, some, arith}
use audio_engine_core.RealtimeSnapshot.{
  returned, crashed, System, reader_step, writer_step, reads, writes, start, Reached, starts, steps,
  Step,
}
use audio_engine_core.RealtimeSnapshot.Reads.{Reached-crashed, Reached-returned}

abbrev run : System ℕ → System ℕ
run s = reader_step 0 s

-- the reader up to its return, then the writer's first step
abbrev before_publish : System ℕ
before_publish = run (run (run (run (run (run (run (run (start 7))))))))

abbrev after_publish : System ℕ
after_publish = writer_step 1 9 2 before_publish

read_once : Reached 1 7 before_publish
read_once =
    steps (steps (steps (steps (steps (steps (steps (steps starts one) one) one) one) one) one) one)
      one
  where
    one : {s : System ℕ} → Step 1 s (run s)
    one = reads 0 (omega arith)

nothing_at_two : before_publish.heap 2 ≡ none
unfolding reader_step
nothing_at_two = refl

sequence_fits : before_publish.sequence + 1 < 2 ^ 64
unfolding reader_step
sequence_fits = omega arith

read_and_opened : Reached 1 7 after_publish
read_and_opened = steps read_once (writes 9 2 nothing_at_two sequence_fits)

read_seven : after_publish.reader 0 ≡ returned (some (7, 0))
unfolding reader_step writer_step
read_seven = refl

Reached-crashed_example : after_publish.reader 0 ≢ crashed
Reached-crashed_example = Reached-crashed 1 7 {s = after_publish} read_and_opened 0

Reached-returned_example : (after_publish.published 0 ≡ some 7) × (0 ≤ after_publish.swaps)
Reached-returned_example =
    Reached-returned 1 7 {s = after_publish} read_and_opened 0 {value = 7} {generation = 0}
      read_seven
