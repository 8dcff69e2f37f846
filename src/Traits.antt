-- ===== src/Traits.antt =====
-- src/processor/traits.rs: what every streaming processor promises about its progress, its timing
-- and its errors. A field that a `Display` text alone uses is kept as a text.
pub mod Progress
pub mod Tests
use Prim.Native.String.{String}
use audio_engine_core.Base.{
  ℕ, ◌+◌, ◌/◌, ◌*◌, ◌^◌, Bool, true, false, not, ◌&&◌, ◌||◌, Option, none, some, List, arith, ltb,
  leb, ◌==◌, if◌then◌else◌, is_none,
}
use audio_engine_core.Base.Results.{Result, ok, err, ◌>>=◌, ◌>>◌, refuse}
use audio_engine_core.Timing.{TimingError, FrameDuration, TailSpec, unknown, infinite}
use audio_engine_core.AudioBlock.{AudioBlock, AudioBlockError, channel_mismatch}

pub data ProcessBufferMode : Type 0 where
  in_place out_of_place : ProcessBufferMode

-- `ProcessBuffers`, which wraps `ProcessBufferParts`
pub data ProcessBuffers (A : Type 0) : Type 0 where
  in_place : AudioBlock A → ProcessBuffers A
  out_of_place : (input output : AudioBlock A) → ProcessBuffers A

pub data ProcessState : Type 0 where
  need_input need_output finished : ProcessState

pub record ProcessProgress : Type 0 where
  pub consumed_frames : ℕ
  pub produced_frames : ℕ
  pub state : ProcessState
  pub bypassed : Bool

pub record ProcessCapacity : Type 0 where
  pub input_frames : ℕ
  pub output_frames : ℕ
  pub mode : ProcessBufferMode
  pub finishing : Bool

-- `ProcessError`
pub data ProcessError : Type 0 where
  invalid_block : AudioBlockError → ProcessError
  invalid_timing : TimingError → ProcessError
  unsupported_buffer_mode : (processor : String) → ProcessBufferMode → ProcessError
  invalid_progress :
      (processor : String) (consumed produced input_capacity output_capacity : ℕ) → ProcessError
  stalled : (processor : String) → ProcessError
  already_finished : (processor : String) → ProcessError
  consumer_already_active : (processor : String) → ProcessError
  channel_count_mismatch : (processor : String) (expected actual : ℕ) → ProcessError
  invalid_sample_rate : (processor : String) (sample_rate_hz : ℕ) → ProcessError
  invalid_geometry : (processor operation message : String) → ProcessError
  invalid_automation : (processor message : String) → ProcessError
  invalid_parameter : (processor parameter message : String) → ProcessError
  sample_rate_mismatch : (processor : String) (expected actual : ℕ) → ProcessError
  invalid_render_policy : (message : String) → ProcessError
  unsupported_operation : (processor operation message : String) → ProcessError
  backend : (processor operation message : String) → ProcessError
  owned : (processor operation message : String) → ProcessError

abbrev pub Outcome : Type 0 → Type 0
Outcome A = Result ProcessError A

-- `ProcessProgress::new`, `with_bypassed`, `finished`, `made_progress`
abbrev pub progress : ℕ → ℕ → ProcessState → ProcessProgress
progress consumed produced state = record {
  consumed_frames = consumed;
  produced_frames = produced;
  state = state;
  bypassed = false;
}

abbrev pub with_bypassed : ProcessProgress → Bool → ProcessProgress
with_bypassed p bypassed = record p { bypassed = bypassed }

abbrev pub finished_with : ℕ → ProcessProgress
finished_with produced = progress 0 produced finished

abbrev pub made_progress : ProcessProgress → Bool
made_progress p = ltb 0 p.consumed_frames || ltb 0 p.produced_frames

-- `ProcessCapacity::new`, `in_place`, `for_finish`
abbrev pub capacity_new : ℕ → ℕ → ProcessCapacity
capacity_new input output = record {
  input_frames = input;
  output_frames = output;
  mode = ProcessBufferMode.out_of_place;
  finishing = false;
}

abbrev pub capacity_in_place : ℕ → ProcessCapacity
capacity_in_place frames = record {
  input_frames = frames;
  output_frames = frames;
  mode = ProcessBufferMode.in_place;
  finishing = false;
}

abbrev pub capacity_for_finish : ℕ → ProcessCapacity
capacity_for_finish output = record {
  input_frames = 0;
  output_frames = output;
  mode = ProcessBufferMode.out_of_place;
  finishing = true;
}

module _ {A : Type 0} where
  unfoldable pub out_of_place_buffers :
      AudioBlock A → AudioBlock A → Result AudioBlockError (ProcessBuffers A)
  out_of_place_buffers input output =
      if not (input.channels == output.channels)
      then err (channel_mismatch input.channels output.channels)
      else ok (ProcessBuffers.out_of_place input output)

  -- `ProcessBuffers::mode`, `channels`, `capacity`
  abbrev pub mode : ProcessBuffers A → ProcessBufferMode
  mode (ProcessBuffers.in_place block) = ProcessBufferMode.in_place
  mode (ProcessBuffers.out_of_place input output) = ProcessBufferMode.out_of_place

  abbrev pub channels : ProcessBuffers A → ℕ
  channels (ProcessBuffers.in_place block) = block.channels
  channels (ProcessBuffers.out_of_place input output) = input.channels

  abbrev pub capacity : ProcessBuffers A → ProcessCapacity
  capacity (ProcessBuffers.in_place block) = capacity_in_place block.frames
  capacity (ProcessBuffers.out_of_place input output) = capacity_new input.frames output.frames

-- `invalid_direction` in `ProcessCapacity::validate`
unfoldable pub invalid_direction : ProcessCapacity → ProcessProgress → Bool
invalid_direction c p = elim c.finishing [
  | true ↦ (elim p.state [
    | need_input ↦ true
    | need_output ↦ not (p.produced_frames == c.output_frames)
    | finished ↦ not (p.consumed_frames == 0)
  ])
  | false ↦ (elim c.mode [
    | ProcessBufferMode.in_place ↦
        not (p.consumed_frames == c.input_frames)
        || (not (p.produced_frames == c.output_frames)
            || (elim p.state [ need_input ↦ false | _ ↦ true ]))
    | ProcessBufferMode.out_of_place ↦ (elim p.state [
      | need_input ↦ not (p.consumed_frames == c.input_frames)
      | need_output ↦ not (p.produced_frames == c.output_frames)
      | finished ↦ true
    ])
  ])
]

abbrev pub is_finished : ProcessState → Bool
is_finished finished = true
is_finished _ = false

abbrev pub progress_error : ProcessCapacity → String → ProcessProgress → ProcessError
progress_error c processor p =
    invalid_progress processor p.consumed_frames p.produced_frames c.input_frames c.output_frames

-- `ProcessCapacity::validate`
unfoldable pub validate : ProcessCapacity → String → ProcessProgress → Outcome ProcessProgress
unfolding invalid_direction
validate c processor p = do
  refuse (ltb c.input_frames p.consumed_frames || ltb c.output_frames p.produced_frames)
      (progress_error c processor p)
  refuse
      (not (made_progress p)
        && (ltb 0 c.input_frames && (ltb 0 c.output_frames && not (is_finished p.state))))
      (stalled processor)
  refuse (invalid_direction c p) (progress_error c processor p)
  ok p

unfoldable pub validate_processor_channels : String → Option ℕ → ℕ → Outcome (Unit {0})
validate_processor_channels processor none actual = ok tt
validate_processor_channels processor (some expected) actual =
    refuse (not (expected == actual)) (channel_count_mismatch processor expected actual)

unfoldable pub validate_sample_rate_hz : String → ℕ → Outcome (Unit {0})
validate_sample_rate_hz processor rate = refuse (rate == 0) (invalid_sample_rate processor rate)

-- A value of `Box<dyn StreamingProcessor>`: the methods over a state. A call returns its result, and
-- also on an error the samples (of the block in place, or of the output) and the state it leaves.
pub record StreamingProcessor (A S : Type 0) : Type 0 where
  pub name : S → String
  pub process : S → ProcessBuffers A → Outcome ProcessProgress × List A × S
  pub finish : S → AudioBlock A → Outcome ProcessProgress × List A × S
  pub reset : S → Outcome (Unit {0}) × S
  pub latency : S → FrameDuration
  pub tail : S → TailSpec
  pub tail_energy_observation_barrier : S → Bool
  pub output_sample_rate_hz : S → ℕ → Outcome ℕ
  pub set_sample_rate : S → ℕ → Outcome (Unit {0}) × S

-- `matches!(tail, TailSpec::Unknown | TailSpec::Infinite)`
abbrev pub unknown_tail : TailSpec → Bool
unknown_tail unknown = true
unknown_tail infinite = true
unknown_tail _ = false

module _ {A S : Type 0} (P : StreamingProcessor A S) where
  unfoldable pub process_checked : S → ProcessBuffers A → Outcome ProcessProgress × List A × S
  process_checked s buffers =
      let (outcome, samples, s') = P.process s buffers in
      (outcome >>= validate (capacity buffers) (P.name s'), samples, s')

  unfoldable pub finish_checked : S → AudioBlock A → Outcome ProcessProgress × List A × S
  finish_checked s output =
      let (outcome, samples, s') = P.finish s output in
      (outcome >>= validate (capacity_for_finish output.frames) (P.name s'), samples, s')
