-- ===== src/OutputChain/Doubler.antt =====
-- A processor for the tests of the renderer. In place it leaves a block as it is; out of place it
-- renders two frames for each of its input, and holds one of them back where the output is full.
use audio_engine_core.Base.{
  inl, inr, Option-cases, none, some, true, Bool, Option, List, ℕ, ◌+◌, ◌-◌, ◌*◌, ◌/◌, ◌<◌, ◌≡◌,
  min, arith, leb, ltb, if◌then◌else◌, replicate, false, refl, ◌∷◌, [],
}
use audio_engine_core.Base.Results.{ok, err}
use audio_engine_core.Timing.{duration_zero, unknown}
use audio_engine_core.Traits.{
  backend, Outcome, ProcessBuffers, ProcessProgress, need_input, need_output, progress,
  finished_with, capacity, StreamingProcessor, process_checked, validate,
}
use Prim.Native.String.{String}
use audio_engine_core.FixedStage.{process_fixed_1_to_1}
use audio_engine_core.FixedStage.Tests.{counting}
use audio_engine_core.OutputChain.Exhausting.{IsFixed-Exhausts}
use audio_engine_core.OutputChain.Room.{Exhausts}

-- the frames held back
abbrev pub held : ℕ → ℕ
held s = min s 1

abbrev pub rendered : ℕ → ℕ → ℕ → ℕ
rendered s input output = min output (held s + 2 * input)

abbrev pub consumed : ℕ → ℕ → ℕ → ℕ
consumed s input output =
    if leb (held s + 2 * input) output then input else (output - held s + 1) / 2

-- The state counts the frame that is held back; a block has one channel.
abbrev pub doubler : StreamingProcessor ℕ ℕ
doubler = record {
  name = λ s. "doubler";
  process = λ s buffers. elim buffers [
    | ProcessBuffers.in_place b ↦ (ok (progress b.frames b.frames need_input), b.samples, s)
    | ProcessBuffers.out_of_place i o ↦ (
      ok (
          progress (consumed s i.frames o.frames) (rendered s i.frames o.frames)
            (if leb (held s + 2 * i.frames) o.frames then need_input else need_output)),
      replicate (o.frames * o.channels) 7,
      held s + 2 * consumed s i.frames o.frames - rendered s i.frames o.frames,
    )
  ];
  finish = λ s output. (
    ok (if ltb output.frames (held s) then progress 0 0 need_output else finished_with (held s)),
    replicate (output.frames * output.channels) 7,
    if ltb output.frames (held s) then s else 0,
  );
  reset = λ s. (ok tt, 0);
  latency = λ s. duration_zero;
  tail = λ s. unknown;
  tail_energy_observation_barrier = λ s. false;
  output_sample_rate_hz = λ s rate. ok (2 * rate);
  set_sample_rate = λ s rate. (ok tt, 0);
}

-- Without room it stands still.
stands_still :
    (process_checked doubler 1 (
      ProcessBuffers.out_of_place
        (record { samples = 5 ∷ []; channels = 1; frames = 1 })
        (record { samples = []; channels = 1; frames = 0 }))).0
    ≡ ok (progress 0 0 need_output)
unfolding process_checked validate
stands_still = refl

pub doubler-less :
    (s : ℕ) (buffers : ProcessBuffers ℕ) (p : ProcessProgress)
    → 0 < (capacity buffers).input_frames
    → 0 < (capacity buffers).output_frames
    → (process_checked doubler s buffers).0 ≡ ok p
    → p.consumed_frames ≡ 0
    → held (process_checked doubler s buffers).2 < held s
unfolding process_checked validate
doubler-less s (ProcessBuffers.in_place b) p pos room e z = absurd (ground arith)
doubler-less s (ProcessBuffers.out_of_place i o) p pos room e z = ground arith

abbrev pub doubler_exhausts : Exhausts doubler
doubler_exhausts = record {
  backlog = held;
  most = 1;
  bounded = λ s. omega arith;
  less = doubler-less;
}

-- A fixed stage, that counts its calls; a slice out of range is a panic.
abbrev run_fixed : ProcessBuffers ℕ → ℕ → Outcome ProcessProgress × List ℕ × ℕ
run_fixed buffers calls = elim (process_fixed_1_to_1 "count" true none buffers counting calls) [
  | none ↦ (err (backend "count" "process" "panic"), [], calls)
  | some r ↦ r
]

abbrev counter : StreamingProcessor ℕ ℕ
counter = record doubler { process = λ calls buffers. run_fixed buffers calls }

counter-runs :
    (calls : ℕ) (buffers : ProcessBuffers ℕ) (p : ProcessProgress)
    → (run_fixed buffers calls).0 ≡ ok p
    → (processor : String) × (enabled : Bool) × (expected : Option ℕ) × (t : ℕ) × (r : Outcome
          ProcessProgress
        × List ℕ
        × ℕ)
      × (process_fixed_1_to_1 processor enabled expected buffers counting t ≡ some r)
      × (r.0 ≡ ok p)
counter-runs calls buffers p e =
    elim (Option-cases (process_fixed_1_to_1 "count" true none buffers counting calls)) [
      | inl h ↦ absurd (ground (arith, e, h))
      | inr (r, h) ↦ ("count", true, none, calls, r, h, ground (arith, e, h))
    ]

abbrev counter_exhausts : Exhausts counter
counter_exhausts =
    IsFixed-Exhausts counter (record { State = ℕ; body = counting; runs = counter-runs })
