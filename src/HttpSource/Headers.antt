-- ===== src/HttpSource/Headers.antt =====
-- src/decoder/source/http.rs: the headers of a response. A header value is `none` where `to_str`
-- refuses it; `get_all` of a name is its values in order.
use audio_engine_core.Base.{
  ℕ, Bool, not, Option, none, some, List, [], ◌∷◌, ◌==◌, leb, ◌&&◌, if◌then◌else◌,
}
use audio_engine_core.Base.Results.{Result, ok, err, ◌>>=◌, ◌>>◌, refuse, ok_or}
use audio_engine_core.HttpSource.{
  Bytes, missing_header, multiple_headers, not_ascii, length_mismatch, content_length_field,
  NetworkError, http_status, range_not_supported, invalid_range,
}
use audio_engine_core.HttpSource.ContentRange.{ContentRange, parse, parse_range_number, validate}

pub data HeaderName : Type 0 where
  content_length content_range content_type : HeaderName

-- A response before its body is read.
pub record Response : Type 0 where
  pub status : ℕ
  pub get_all : HeaderName → List (Option Bytes)

-- the only value of a header
abbrev pub single : List (Option Bytes) → Result NetworkError Bytes
single [] = err (invalid_range missing_header)
single (value ∷ []) = ok_or value (invalid_range not_ascii)
single (value ∷ other ∷ values) = err (invalid_range multiple_headers)

unfoldable pub required_header : Response → HeaderName → Result NetworkError Bytes
required_header response name = single (response.get_all name)

abbrev pub check_length : ℕ → Bytes → Result NetworkError (Unit {0})
check_length expected_len value = do
  length ← parse_range_number content_length_field value
  refuse (not (length == expected_len)) (invalid_range (length_mismatch length expected_len))

abbrev pub check_lengths : ℕ → List (Option Bytes) → Result NetworkError (Unit {0})
check_lengths expected_len [] = ok tt
check_lengths expected_len (value ∷ values) = do
  value ← single (value ∷ values)
  check_length expected_len value

unfoldable pub validate_content_length : Response → ℕ → Result NetworkError (Unit {0})
validate_content_length response expected_len =
    check_lengths expected_len (response.get_all content_length)

abbrev first : List (Option Bytes) → Option Bytes
first [] = none
first (value ∷ values) = value

unfoldable pub header_string : Response → HeaderName → Option Bytes
header_string response name = first (response.get_all name)

-- `StatusCode::is_success`
abbrev pub is_success : ℕ → Bool
is_success status = leb 200 status && leb status 299

-- the `if status.as_u16() != 206` of `fetch_range_once`
abbrev pub check_partial : ℕ → Result NetworkError (Unit {0})
check_partial status =
    if not (status == 206)
    then err (if is_success status then range_not_supported status else http_status status)
    else ok tt

-- `response_status_error`
abbrev pub response_status_error : Response → Option NetworkError
response_status_error response =
    if is_success response.status then none else some (http_status response.status)

-- what `fetch_range_once` asks of the response, up to its body
unfoldable pub accept_response : Response → ℕ → ℕ → ℕ → Option ℕ → Result NetworkError ContentRange
unfolding required_header validate_content_length
accept_response response start requested_end len expected_total = do
  check_partial response.status
  value ← required_header response content_range
  range ← parse value
  validate range start requested_end expected_total
  validate_content_length response len
  ok range
