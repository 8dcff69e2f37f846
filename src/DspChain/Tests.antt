-- ===== src/DspChain/Tests.antt =====
-- A chain of two test processors, drained and reset; the samples are natural numbers.
use audio_engine_core.Base.{
  ◌++◌, ◌⊎◌, ℕ, ◌+◌, ◌-◌, ◌*◌, ◌/◌, ◌≡◌, refl, true, false, none, some, List, [], ◌∷◌, arith, ltb,
  leb, ◌==◌,
}
use audio_engine_core.Base.Results.{ok, err}
use audio_engine_core.AudioBlock.{AudioBlock, IsBlock}
use audio_engine_core.Timing.{no_tail, tail_finite}
use audio_engine_core.Float.{Float}
use audio_engine_core.Traits.{
  ProcessError, StreamingProcessor, unknown_tail, validate, process_checked, finish_checked,
  ProcessProgress, Outcome, progress, need_output,
}
use audio_engine_core.Traits.Tests.{two_frames, echo}
use audio_engine_core.DspChain.{
  validate_policy, threshold_power, ChainFinishPolicy, DspChain, finish_started, reset,
}
use audio_engine_core.AudioBlock
use audio_engine_core.DspChain.Segment.{
  finish_with_policy, fix_policy, drain_loop, drain_round, drain_stage, drain_block, pass_segment,
  render_segment, after_stage, close_observation, drain_result,
}
use audio_engine_core.DspChain.Finish.{
  arm_unknown, protected_frames, sum_protected, frames_at_rate, barrier_from, allowance, pass_on,
  observe_finish_energy, count_quiet, power_sum,
}
use audio_engine_core.DspChain.Composed.{add, sum_tail, tail, MapsToItself, add-last}
use audio_engine_core.DspChain.Ends.{Reports, finish_with_policy-Reports}
use audio_engine_core.DspChain.Lifecycle.{first_error, all_reset, reset-all}

-- natural numbers in place of `f64`
abbrev pub whole : Float
whole = record {
  F = ℕ;
  zero = 0;
  one = 1;
  of_ℕ = λ n. n;
  add = λ a b. a + b;
  sub = λ a b. a - b;
  mul = λ a b. a * b;
  div = λ a b. a / b;
  is_finite = λ a. true;
  lt = ltb;
  eq = λ a b. a == b;
  le = leb;
  floor_of = λ a. a;
  ceil_of = λ a. a;
  to_usize = λ a. a;
  narrow = λ a. a;
  ceil_usize = λ a. a;
  round_usize = λ a. a;
  pow10 = λ a. 10;
}

abbrev pub policy : ChainFinishPolicy ℕ
policy = record { energy_threshold_dbfs = 0; silence_hold_frames = 4; max_tail_frames = 8 }

-- two stages, with a tail of three frames each
abbrev pub two_stages : DspChain ℕ ℕ
two_stages = record {
  processors = 3 ∷ 3 ∷ [];
  sample_rate_hz = 48000;
  finish_stage = 0;
  finish_complete = false;
  finish_policy = none;
  finish_threshold_power = 0;
  finish_unknown_stage = none;
  finish_observation_end_stage = 0;
  finish_protected_frames = 0;
  finish_quiet_frames = 0;
  finish_generated_frames = 0;
  finish_capped = false;
}

pub two_frames-IsBlock : IsBlock two_frames
two_frames-IsBlock = record { channels_pos = omega arith; whole = refl }

finish_with_policy-Reports_example :
    (r : Outcome ProcessProgress × List ℕ × DspChain ℕ ℕ) × (finish_with_policy whole echo 6
        two_stages two_frames policy
      ≡ some r)
    × Reports whole echo two_frames r
finish_with_policy-Reports_example =
    finish_with_policy-Reports whole echo two_stages two_frames policy 6 two_frames-IsBlock
      (omega arith) refl (omega arith)

reset-all_example :
    ((reset whole echo two_stages).0 ≡ first_error whole echo (3 ∷ 3 ∷ []))
    × ((reset whole echo two_stages).1.processors ≡ all_reset whole echo (3 ∷ 3 ∷ []))
    × (finish_started (reset whole echo two_stages).1 ≡ false)
reset-all_example = reset-all whole echo two_stages

-- the chain after the first drain
abbrev drained : DspChain ℕ ℕ
drained = record two_stages {
  processors = 1 ∷ 3 ∷ [];
  finish_policy = some policy;
  finish_threshold_power = 10;
  finish_unknown_stage = some 0;
  finish_observation_end_stage = 2;
  finish_quiet_frames = 2;
  finish_generated_frames = 2;
}

two_stages-drained :
    finish_with_policy whole echo 6 two_stages two_frames policy
    ≡ some (ok (progress 0 2 need_output), 0 ∷ 0 ∷ [], drained)
unfolding finish_with_policy fix_policy validate_policy threshold_power drain_loop drain_round
    arm_unknown protected_frames sum_protected frames_at_rate barrier_from allowance drain_stage
    drain_block pass_segment render_segment after_stage pass_on observe_finish_energy count_quiet
    power_sum close_observation drain_result finish_checked validate AudioBlock.new process_checked
    AudioBlock.validated_channel_count
two_stages-drained = refl

-- the test processor without a tail
abbrev dry : StreamingProcessor ℕ ℕ
dry = record echo { tail = λ s. no_tail }

two_stages-tail : unknown_tail (tail whole dry two_stages) ≡ false
unfolding tail sum_tail tail_finite
two_stages-tail = refl

add-last_example :
    (MapsToItself whole echo two_stages 5
      × (add whole echo two_stages 5
          ≡ (ok tt, record two_stages { processors = (3 ∷ 3 ∷ []) ++ (5 ∷ []) })))
    ⊎ ((MapsToItself whole echo two_stages 5 → ⊥)
        × ((e : ProcessError) × (add whole echo two_stages 5 ≡ (err e, two_stages))))
add-last_example = add-last whole echo two_stages 5
