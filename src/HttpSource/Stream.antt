-- ===== src/HttpSource/Stream.antt =====
-- src/decoder/source/http.rs: `RangeStream`, a seekable reader of a remote file over Range requests.
-- A call that fails has not yet changed the stream, so the stream is returned with a success only;
-- `read` into a buffer of `n` bytes returns what it puts at the buffer's start.
pub mod Reads
pub mod Whole
use audio_engine_core.Base.{
  ℕ, ◌+◌, ◌-◌, ◌*◌, ◌≤◌, min, max, Bool, true, false, ◌&&◌, Option, none, some, List, [], u64_max,
  saturating_add, leb, ◌==◌, if◌then◌else◌, length, take, drop,
}
use audio_engine_core.Base.Actions.{Action, ◌>>=◌, ◌>>◌, done, throw, pure, err_with}
use audio_engine_core.Base.Integers.{ℤ, pos, negsuc, ◌+ℤ◌}
use audio_engine_core.Base.Results.{Result, ok, err}
use audio_engine_core.HttpSource.{
  Bytes, ErrorKind, invalid_input, NetworkError, with_network_retry, network_error_to_io_error,
}
use audio_engine_core.HttpSource.Fetch.{
  Network, HttpCredentials, DecodeCancelToken, RangeFetch, check_cancelled, fetch_range_once,
}
use audio_engine_core.HttpSource.Policy.{Url}

abbrev pub http_range_stream_timeout : ℕ
http_range_stream_timeout = 30

abbrev pub range_prefetch : ℕ
range_prefetch = 256 * 1024

-- `RangeStream`; its client is the network
pub record RangeStream : Type 0 where
  pub url : Url
  pub credentials : Option HttpCredentials
  pub buffer : Bytes
  pub buffer_start : ℕ
  pub position : ℕ
  pub content_length : ℕ
  pub content_type : Option Bytes
  pub cancel_token : Option DecodeCancelToken

-- `Option::or`
abbrev or : Option Bytes → Option Bytes → Option Bytes
or none b = b
or (some a) b = some a

-- `SeekFrom`
pub data SeekFrom : Type 0 where
  start : ℕ → SeekFrom
  current end : ℤ → SeekFrom

abbrev pub sought : RangeStream → SeekFrom → ℤ
sought s (start position) = pos position
sought s (current delta) = s.position +ℤ delta
sought s (end delta) = s.content_length +ℤ delta

unfoldable pub move_to : RangeStream → ℤ → Result ErrorKind (RangeStream × ℕ)
move_to s (pos position) =
    if leb position u64_max
    then ok (record s { position = position }, position)
    else err invalid_input
move_to s (negsuc n) = err invalid_input

unfoldable pub seek : RangeStream → SeekFrom → Result ErrorKind (RangeStream × ℕ)
seek s to = move_to s (sought s to)

abbrev pub is_buffered : RangeStream → ℕ → Bool
is_buffered s needed =
    leb s.buffer_start s.position
    && leb (saturating_add s.position needed) (s.buffer_start + length s.buffer)

abbrev pub fetch_len : RangeStream → ℕ → ℕ
fetch_len s needed = min (max needed range_prefetch) (s.content_length - s.position)

-- the bytes at the position, from a buffer that holds some there
unfoldable pub copy_out : RangeStream → ℕ → RangeStream × Bytes
copy_out s n =
    let offset = s.position - s.buffer_start in
    let available = length s.buffer - offset in
    if available == 0
    then (s, [])
    else (let read = min available n in
        (record s { position = s.position + read }, take read (drop offset s.buffer)))

module _ {W : Type 0} (net : Network W) where
  -- the retried request that the stream makes
  unfoldable pub fetch :
      Url
      → Option HttpCredentials
      → ℕ
      → ℕ
      → Option ℕ
      → Option DecodeCancelToken
      → Action W NetworkError RangeFetch
  unfolding with_network_retry fetch_range_once
  fetch url credentials at len expected_total token =
      with_network_retry net.sleep
        (fetch_range_once net url credentials at len expected_total token)

  -- the body and the type behind the probe
  unfoldable pub initial :
      Url
      → Option HttpCredentials
      → Option DecodeCancelToken
      → RangeFetch
      → Action W NetworkError (Bytes × Option Bytes)
  unfolding fetch
  initial url credentials token probe =
      let initial_len = min range_prefetch probe.total in
      if initial_len == 1 then done (probe.body, probe.content_type) else (do
        first ← fetch url credentials 0 initial_len (some probe.total) token
        done (first.body, or first.content_type probe.content_type))

  unfoldable pub new :
      Url → Option HttpCredentials → Option DecodeCancelToken → Action W NetworkError RangeStream
  unfolding fetch initial
  new url credentials token = do
    net.build_client http_range_stream_timeout
    probe ← fetch url credentials 0 1 none token
    (buffer, content_type) ← initial url credentials token probe
    done (record {
      url = url;
      credentials = credentials;
      buffer = buffer;
      buffer_start = 0;
      position = 0;
      content_length = probe.total;
      content_type = content_type;
      cancel_token = token;
    })

  unfoldable pub ensure_buffered : RangeStream → ℕ → Action W ErrorKind RangeStream
  unfolding fetch
  ensure_buffered s needed =
      if is_buffered s needed then done s else if fetch_len s needed == 0 then done s else λ w.
      err_with network_error_to_io_error (
        (do
          fetched ←
              fetch s.url s.credentials s.position (fetch_len s needed) (some s.content_length)
                s.cancel_token
          done (record s { buffer_start = s.position; buffer = fetched.body }))
          w)

  unfoldable pub read : RangeStream → ℕ → Action W ErrorKind (RangeStream × Bytes)
  unfolding ensure_buffered copy_out check_cancelled
  read s n = if n == 0 then done (s, []) else (do
    λ w. err_with network_error_to_io_error (check_cancelled net s.cancel_token w)
    if leb s.content_length s.position
        then done (s, [])
        else (do buffered ← ensure_buffered s n; done (copy_out buffered n)))
