-- ===== src/Pipeline.antt =====
-- src/pipeline.rs: the request channel between the controller of a playback pipeline and its audio
-- callback. The channel's three atomics are one record; a step reads or writes one of them, but for
-- a request, whose exchange succeeds against the value that it was computed from.

pub mod Channel
pub mod Callback
pub mod Armed
pub mod Steps
pub mod Requests
mod Tests
use audio_engine_core.Base.{
  ℕ, ◌+◌, ◌*◌, ◌/◌, ◌%◌, ◌^◌, max, Bool, true, false, not, ◌&&◌, Option, none, some, List, [], ◌∷◌,
  ◌==◌, if◌then◌else◌, ltb,
}
use audio_engine_core.Base.Results.{ok, err, ◌>>=◌, ◌>>◌, refuse}
use audio_engine_core.Traits.{Outcome, invalid_geometry}

-- `PlaybackLifecycleState`
pub data PlaybackLifecycleState : Type 0 where
  running fading_out draining idle : PlaybackLifecycleState

abbrev pub as_code : PlaybackLifecycleState → ℕ
as_code running = 0
as_code fading_out = 1
as_code draining = 2
as_code idle = 3

abbrev pub from_code : ℕ → PlaybackLifecycleState
from_code code =
    if code == 1
    then fading_out
    else if code == 2
    then draining
    else if code == 3
    then idle
    else running

-- `PlaybackLifecycleStatus`
pub record PlaybackLifecycleStatus : Type 0 where
  pub state : PlaybackLifecycleState
  pub requested_generation : ℕ
  pub applied_generation : ℕ

abbrev pub is_settled : PlaybackLifecycleStatus → Bool
is_settled s = s.applied_generation == s.requested_generation

abbrev pub request_none : ℕ
request_none = 0

abbrev pub request_reset_kind : ℕ
request_reset_kind = 1

abbrev pub request_drain_kind : ℕ
request_drain_kind = 2

abbrev pub request_stop_kind : ℕ
request_stop_kind = 3

-- `LifecycleChannel`; `request` packs `[generation:40][fade_ms:16][kind:8]`.
pub record LifecycleChannel : Type 0 where
  pub request : ℕ
  pub applied_generation : ℕ
  pub state : ℕ

abbrev pub new_channel : LifecycleChannel
new_channel = record { request = 0; applied_generation = 0; state = as_code running }

-- The generation that a request on top of `current` gets, and its word. The shift drops what is
-- past 64 bits; the three fields do not overlap, so that `|` adds them.
unfoldable pub next_request : ℕ → ℕ → ℕ → ℕ × ℕ
next_request current kind fade_ms =
    let generation = current / 2 ^ 24 + 1 in
    (generation, generation * 2 ^ 24 % 2 ^ 64 + fade_ms * 2 ^ 8 + kind)

-- The loop of `publish`, which starts from `current`. An attempt meets the word that the channel
-- then has, and may fail though it is the expected one; `none` when the attempts run out.
unfoldable pub publish_attempts : ℕ → List (ℕ × Bool) → ℕ → ℕ → Option (ℕ × ℕ)
publish_attempts current [] kind fade_ms = none
publish_attempts current ((word, spurious) ∷ attempts) kind fade_ms =
    let retried = publish_attempts word attempts kind fade_ms in
    if word == current && not spurious then some (next_request current kind fade_ms) else retried

-- `publish`, as the one step that its successful attempt is
unfoldable pub publish : LifecycleChannel → ℕ → ℕ → ℕ × LifecycleChannel
publish c kind fade_ms =
    let (generation, word) = next_request c.request kind fade_ms in
    (generation, record c { request = word })

abbrev pub requested : LifecycleChannel → ℕ
requested c = c.request / 2 ^ 24

unfoldable pub take_newer_than : LifecycleChannel → ℕ → Option (ℕ × ℕ × ℕ)
take_newer_than c seen_generation =
    if requested c == seen_generation
    then none
    else some (requested c, c.request % 2 ^ 8, c.request / 2 ^ 8 % 2 ^ 16)

-- `status`: `applied` was read first, and the other two words perhaps later.
abbrev pub status_of : ℕ → ℕ → ℕ → PlaybackLifecycleStatus
status_of applied code request = record {
  state = from_code code;
  requested_generation = max (request / 2 ^ 24) applied;
  applied_generation = applied;
}

-- `MAX_STOP_FADE_MS`
abbrev pub max_stop_fade_ms : ℕ
max_stop_fade_ms = 60000

-- The controller's requests.
abbrev pub request_reset : LifecycleChannel → ℕ × LifecycleChannel
request_reset c = publish c request_reset_kind 0

abbrev pub request_drain : LifecycleChannel → ℕ × LifecycleChannel
request_drain c = publish c request_drain_kind 0

unfoldable pub request_stop_with_fade : LifecycleChannel → ℕ → Outcome ℕ × LifecycleChannel
request_stop_with_fade c fade_ms =
    let (generation, c') = publish c request_stop_kind (fade_ms % 2 ^ 16) in
    if ltb max_stop_fade_ms fade_ms
    then (
      err (
          invalid_geometry "PlaybackController" "request stop with fade"
            "fade duration exceeds the maximum supported stop ramp"),
      c,
    )
    else (ok generation, c')
