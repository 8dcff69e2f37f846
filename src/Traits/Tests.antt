-- ===== src/Traits/Tests.antt =====
-- A processor for the tests of the modules above: it leaves every block as it is, and renders a tail
-- of as many zeros as its state counts.
use audio_engine_core.Base.{
  ℕ, ◌-◌, ◌*◌, ◌≡◌, ◌↔◌, refl, false, [], ◌∷◌, ltb, if◌then◌else◌, replicate, some,
}
use audio_engine_core.Base.Results.{ok}
use audio_engine_core.AudioBlock
use audio_engine_core.AudioBlock.{AudioBlock, IsBlock, new-IsBlock}
use audio_engine_core.Timing.{duration_zero, unknown, duration_new}
use audio_engine_core.Traits.{
  ProcessBuffers, need_input, need_output, progress, finished_with, capacity_in_place, validate,
  StreamingProcessor, process_checked, finish_checked, capacity,
}
use audio_engine_core.Traits.Progress.{WithinCapacity, Honest, validate_iff, process_checked-Honest}

abbrev pub two_frames : AudioBlock ℕ
two_frames = record { samples = 1 ∷ 2 ∷ []; channels = 1; frames = 2 }

-- The state is the number of tail frames left; a block has one channel.
abbrev pub echo : StreamingProcessor ℕ ℕ
echo = record {
  name = λ s. "echo";
  process = λ s buffers. elim buffers [
    | ProcessBuffers.in_place b ↦ (ok (progress b.frames b.frames need_input), b.samples, s)
    | ProcessBuffers.out_of_place i o ↦ (ok (progress i.frames i.frames need_input), i.samples, s)
  ];
  finish = λ s output. (
    ok (if ltb s output.frames then finished_with s else progress 0 output.frames need_output),
    replicate (output.frames * output.channels) 0,
    s - output.frames,
  );
  reset = λ s. (ok tt, 3);
  latency = λ s. duration_zero;
  tail = λ s. unknown;
  tail_energy_observation_barrier = λ s. false;
  output_sample_rate_hz = λ s rate. ok rate;
  set_sample_rate = λ s rate. (ok tt, 3);
}

two_frames-new : AudioBlock.new (1 ∷ 2 ∷ []) 1 ≡ ok two_frames
unfolding AudioBlock.new
two_frames-new = refl

duration-480 : duration_new 480 48000 ≡ ok (record { frames = 480; sample_rate_hz = some 48000 })
unfolding duration_new
duration-480 = refl

echo-process :
    (process_checked echo 3 (ProcessBuffers.in_place two_frames)).0 ≡ ok (progress 2 2 need_input)
unfolding process_checked validate
echo-process = refl

echo-finish : (finish_checked echo 3 two_frames).0 ≡ ok (progress 0 2 need_output)
unfolding finish_checked validate
echo-finish = refl

validate_iff_example :
    (validate (capacity_in_place 2) "echo" (progress 2 2 need_input) ≡ ok (progress 2 2 need_input))
    ↔ (WithinCapacity (capacity_in_place 2) (progress 2 2 need_input)
        × Honest (capacity_in_place 2) (progress 2 2 need_input))
validate_iff_example = validate_iff (capacity_in_place 2) "echo" (progress 2 2 need_input)

process_checked-Honest_example :
    WithinCapacity (capacity (ProcessBuffers.in_place two_frames)) (progress 2 2 need_input)
    × Honest (capacity (ProcessBuffers.in_place two_frames)) (progress 2 2 need_input)
process_checked-Honest_example =
    process_checked-Honest echo 3 (ProcessBuffers.in_place two_frames) {q = progress 2 2 need_input}
      echo-process
