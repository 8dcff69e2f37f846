-- ===== src/Pipeline/Tests.antt =====
-- A pipeline over two test processors, from its first block to silence.
use audio_engine_core.Base.{◌↔◌, ℕ, ◌+◌, ◌≡◌, refl, inr, Bool, false, some, List, [], ◌∷◌, arith}
use audio_engine_core.Base.Results.{ok}
use audio_engine_core.Traits.{progress, need_input}
use audio_engine_core.Traits.Tests.{echo}
use audio_engine_core.DspChain.Tests.{whole, policy, two_stages}
use audio_engine_core.Pipeline.{
  running, fading_out, idle, new_channel, next_request, publish_attempts, publish, requested,
  take_newer_than,
}
use audio_engine_core.Pipeline.Channel.{
  taken, publish-take_newer_than, TookEffect, publish_attempts-next_request,
}
use audio_engine_core.Pipeline.Callback.{
  CallbackSpec, PlaybackPipeline, validate_samples, assemble, apply_lifecycle_request,
  consume_lifecycle_request, process_in_state, process,
}
use audio_engine_core.Pipeline.Armed.{IsArmed, ReturnsArmed, process-IsArmed}
use audio_engine_core.Pipeline.Steps.{starts, Reached-IsArmed}
use audio_engine_core.Pipeline.Requests.{Stopped, NoReset, process-requested, process-Stopped}

abbrev mono : CallbackSpec
mono = record { channels = 1; sample_rate_hz = 48000; max_frames = 64 }

abbrev player : PlaybackPipeline ℕ ℕ
player = record {
  chain = two_stages;
  spec = mono;
  lifecycle = new_channel;
  seen_generation = 0;
  state = running;
  drain_policy = policy;
  fade_remaining_frames = 0;
  fade_total_frames = 0;
  fade_base_gain = 1;
}

publish-take_newer_than_example :
    ((publish new_channel 3 250).0 ≡ requested new_channel + 1)
    × (requested (publish new_channel 3 250).1 ≡ requested new_channel + 1)
    × (take_newer_than (publish new_channel 3 250).1 0 ≡ taken 0 (requested new_channel + 1) 3 250)
publish-take_newer_than_example =
    publish-take_newer_than new_channel 3 250 0 (omega arith) (omega arith) (omega arith)

-- the first attempt meets another controller's word
abbrev two_attempts : List (ℕ × Bool)
two_attempts = (16777217, false) ∷ (16777217, false) ∷ []

two_attempts-publish : publish_attempts 0 two_attempts 2 0 ≡ some (2, 33554434)
unfolding publish_attempts next_request
two_attempts-publish = refl

publish_attempts-next_request_example :
    (publish_attempts 0 two_attempts 2 0 ≡ some (2, 33554434))
    ↔ TookEffect 0 two_attempts 2 0 (2, 33554434)
publish_attempts-next_request_example =
    publish_attempts-next_request 0 two_attempts 2 0 (2, 33554434)

player-assemble : assemble whole echo 1 48000 (ok two_stages) mono new_channel policy ≡ ok player
unfolding assemble
player-assemble = refl

player-IsArmed : IsArmed player
player-IsArmed =
    Reached-IsArmed whole echo mono two_stages policy {p = player} (omega arith) refl
      (starts player-assemble)

Reached-IsArmed_example : IsArmed player
Reached-IsArmed_example =
    Reached-IsArmed whole echo mono two_stages policy {p = player} (omega arith) refl
      (starts player-assemble)

process-IsArmed_example : ReturnsArmed whole echo (process whole echo player (5 ∷ 6 ∷ []))
process-IsArmed_example = process-IsArmed whole echo player (5 ∷ 6 ∷ []) player-IsArmed

abbrev at_rest : PlaybackPipeline ℕ ℕ
at_rest = record player { state = idle; lifecycle = record new_channel { state = 3 } }

at_rest-validate : validate_samples at_rest (5 ∷ 6 ∷ []) "process" ≡ ok tt
unfolding validate_samples
at_rest-validate = refl

abbrev fading : PlaybackPipeline ℕ ℕ
fading = record player { state = fading_out; fade_remaining_frames = 3; fade_total_frames = 4 }

-- the idle pipeline with a request to drain
abbrev asked : PlaybackPipeline ℕ ℕ
asked = record at_rest { lifecycle = record new_channel { request = 16777218; state = 3 } }

abbrev answered : PlaybackPipeline ℕ ℕ
answered = record asked {
  seen_generation = 1;
  lifecycle = record { request = 16777218; applied_generation = 1; state = 3 };
}

asked-validate : validate_samples asked (5 ∷ 6 ∷ []) "process" ≡ ok tt
unfolding validate_samples
asked-validate = refl

asked-answered :
    process whole echo asked (5 ∷ 6 ∷ [])
    ≡ some (ok (progress 2 2 need_input), 0 ∷ 0 ∷ [], answered)
unfolding process validate_samples consume_lifecycle_request take_newer_than apply_lifecycle_request
    process_in_state
asked-answered = refl

process-requested_example :
    (requested answered.lifecycle ≡ 1)
    × (answered.seen_generation ≡ 1)
    × (answered.lifecycle.applied_generation ≡ 1)
process-requested_example =
    process-requested whole echo asked (5 ∷ 6 ∷ [])
      {r = (ok (progress 2 2 need_input), 0 ∷ 0 ∷ [], answered)} refl asked-validate asked-answered

asked-NoReset : NoReset whole echo asked
unfolding take_newer_than
asked-NoReset generation kind fade_ms e = ground arith

process-Stopped_example : Stopped answered.state
process-Stopped_example =
    process-Stopped whole echo asked (5 ∷ 6 ∷ [])
      {r = (ok (progress 2 2 need_input), 0 ∷ 0 ∷ [], answered)} (inr refl) asked-NoReset
      asked-answered
