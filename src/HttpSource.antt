-- ===== src/HttpSource.antt =====
-- The network errors of the HTTP source, their classification and the retry loop
-- (src/decoder/error.rs), for src/decoder/source/http.rs. A formatted text is its constructor with
-- the numbers that it shows.
pub mod ContentRange
pub mod Policy
pub mod Headers
pub mod Retry
pub mod Fetch
pub mod Stream
pub mod Download
mod Tests
use audio_engine_core.Base.{
  ℕ, zero, suc, ◌-◌, Bool, true, false, ◌&&◌, ◌||◌, Option, none, some, List, [], ◌∷◌, leb, ltb,
  ◌==◌, if◌then◌else◌,
}
use audio_engine_core.Base.Actions.{Action, err_with}
use audio_engine_core.Base.Results.{Result, ok, err}

-- `&str` and `&[u8]`: the ASCII codes, or the bytes
abbrev pub Bytes : Type 0
Bytes = List ℕ

-- `std::io::ErrorKind`: the kinds that the sources name, and all others
pub data ErrorKind : Type 0 where
  timed_out connection_reset connection_aborted broken_pipe unexpected_eof : ErrorKind
  interrupted invalid_input other_kind : ErrorKind

pub data Field : Type 0 where
  start_field end_field total_field content_length_field : Field

pub data Message : Type 0 where
  unsupported_unit missing_total multiple_totals missing_interval : Message
  not_unsigned beyond_integers : Field → Message
  start_exceeds_end end_outside_total : ℕ → ℕ → Message
  interval_mismatch : ℕ → ℕ → ℕ → ℕ → Message
  total_mismatch : ℕ → ℕ → Message
  zero_length end_overflow body_limit_overflow : Message
  missing_header multiple_headers not_ascii : Message
  body_exceeds : ℕ → Message
  length_mismatch body_length : ℕ → ℕ → Message
  rejected_address no_host non_http_scheme no_supported_port no_addresses : Message
  lookup_failed io_error : ErrorKind → Message
  transport : Bytes → Message
  too_large : ℕ → ℕ → Message
  exceeds_limit : ℕ → Message

pub data NetworkError : Type 0 where
  http_timeout connection_reset cancelled : NetworkError
  http_status range_not_supported : ℕ → NetworkError
  invalid_range_response dns_failure tls_error other : Message → NetworkError

abbrev pub invalid_range : Message → NetworkError
invalid_range = invalid_range_response

-- `matches!(status, 408 | 429 | 500..=504)`
abbrev is_retriable_status : ℕ → Bool
is_retriable_status status = status == 408 || status == 429 || (leb 500 status && leb status 504)

unfoldable pub is_retriable : NetworkError → Bool
is_retriable http_timeout = true
is_retriable NetworkError.connection_reset = true
is_retriable (http_status status) = is_retriable_status status
is_retriable (range_not_supported _) = false
is_retriable (invalid_range_response _) = false
is_retriable (dns_failure _) = false
is_retriable (tls_error _) = false
is_retriable cancelled = false
is_retriable (other _) = false

unfoldable pub classify_io_error_kind : ErrorKind → Option NetworkError
classify_io_error_kind timed_out = some http_timeout
classify_io_error_kind ErrorKind.connection_reset = some NetworkError.connection_reset
classify_io_error_kind connection_aborted = some NetworkError.connection_reset
classify_io_error_kind broken_pipe = some NetworkError.connection_reset
classify_io_error_kind unexpected_eof = some NetworkError.connection_reset
classify_io_error_kind _ = none

abbrev or_other : ErrorKind → Option NetworkError → NetworkError
or_other kind (some classified) = classified
or_other kind none = other (io_error kind)

unfoldable pub from_io : ErrorKind → NetworkError
unfolding classify_io_error_kind
from_io kind = or_other kind (classify_io_error_kind kind)

-- `Canceled` and `Network` of `DecoderError`
pub data DecoderError : Type 0 where
  canceled : DecoderError
  network : NetworkError → DecoderError

unfoldable pub network_error_to_decoder_error : NetworkError → DecoderError
network_error_to_decoder_error cancelled = canceled
network_error_to_decoder_error error = network error

-- The kind of the `std::io::Error` made; `io::Error::other` has the kind `Other`.
unfoldable pub network_error_to_io_error : NetworkError → ErrorKind
network_error_to_io_error cancelled = interrupted
network_error_to_io_error error = other_kind

abbrev pub network_max_attempts : ℕ
network_max_attempts = 3

-- `NETWORK_BACKOFF_DELAYS`, in seconds
abbrev pub network_backoff_delays : List ℕ
network_backoff_delays = 1 ∷ 2 ∷ []

-- `with_network_retry`. `attempt < NETWORK_BACKOFF_DELAYS.len()` says that a delay is left; there is
-- one attempt more than there are delays, so the loop ends by a return. `sleep` is the thread's.
module _ {ℓ κ} {W : Type ℓ} {A : Type κ} (sleep : ℕ → W → W) (op : Action W NetworkError A) where
  unfoldable pub retry : List ℕ → Action W NetworkError A
  retry [] = op
  retry (delay ∷ delays) = λ w.
      let (w', r) = op w in
      elim r [
        | ok value ↦ (w', ok value)
        | err e ↦ elim (is_retriable e) [
          | true ↦ retry delays (sleep delay w')
          | false ↦ (w', err e)
        ]
      ]

  unfoldable pub with_network_retry : Action W NetworkError A
  unfolding retry is_retriable
  with_network_retry = retry network_backoff_delays
