-- ===== src/HttpSource/Tests.antt =====
-- A server of a file of three bytes, and hosts to check.
use audio_engine_core.Base.{
  ℕ, zero, suc, ap, ◌+◌, ◌-◌, ◌≤◌, ◌<◌, ◌≡◌, refl, sym, ◌∙◌, Bool, true, false, Option, none, some,
  [], ◌∷◌, ◌++◌, arith, u64_max, length, take, drop, take-append-drop, ◌==◌, if◌then◌else◌, ◌↔◌,
  ◌≢◌, subst, List,
}
use audio_engine_core.Base.Results.{Result, ok, err}
use audio_engine_core.HttpSource.{
  Bytes, ErrorKind, NetworkError, with_network_retry, retry, is_retriable, network_backoff_delays,
  http_timeout,
}
use audio_engine_core.HttpSource.ContentRange.{
  ContentRange, codes, parse, trim, trim_start, trim_end, strip_prefix, split_once, contains,
  parse_range_number, all_digits, parse_u64, validate,
}
use audio_engine_core.HttpSource.Headers.{
  content_length, content_range, content_type, Response, required_header, accept_response,
  validate_content_length, header_string,
}
use audio_engine_core.HttpSource.Fetch.{
  Network, fetch_range_once, check_cancelled, read_bounded_body, read_loop, range_request,
  authenticated_get,
}
use audio_engine_core.HttpSource.Fetch.Contract.{Serves, fetch_range_once-bounds}
use audio_engine_core.HttpSource.Policy.{
  Url, IpAddr, SocketAddr, v4, v6, is_disallowed_ip, validate_literal_host,
  resolve_and_validate_host, validate_all, validate_ip,
}
use audio_engine_core.HttpSource.Stream.{
  RangeStream, fetch, initial, new, read, ensure_buffered, copy_out,
}
use audio_engine_core.HttpSource.Stream.Reads.{IsOpen, Reads, read-Reads}
use audio_engine_core.HttpSource.Retry.{Tries, with_network_retry-Tries}
use audio_engine_core.HttpSource.ContentRange.Grammar.{Declares, parse_iff}
use audio_engine_core.HttpSource.Policy.Wide.{is_reserved, is_disallowed_ip-is_reserved}
use audio_engine_core.HttpSource.Policy.Hosts.{AllAllowed, resolve_and_validate_host-AllAllowed}
use audio_engine_core.Base.Actions.{Action}
use audio_engine_core.HttpSource.Download.{streaming, open_http_media_source}
use audio_engine_core.HttpSource.Download.Complete.{Offers, Hands, open_http_media_source-Hands}

abbrev song : Bytes
song = 70 ∷ 76 ∷ 97 ∷ []

abbrev partial : Bytes → Response
partial text = record {
  status = 206;
  get_all = λ name. elim name [
    | content_range ↦ some text ∷ []
    | content_length ↦ []
    | content_type ↦ []
  ];
}

-- The first byte, or the file.
abbrev reply : Bool → Response × Bytes
reply true = (partial (codes "bytes 0-0/3"), take 1 song)
reply false = (partial (codes "bytes 0-2/3"), song)

abbrev wants_first : Option (ℕ × ℕ) → Bool
wants_first none = false
wants_first (some (start, end)) = end == 0

-- The world is what the last response has left.
abbrev server : Network Bytes
server = record {
  parse_ip = λ host. none;
  send = λ request pending.
      let (response, body) = reply (wants_first request.range) in (body, ok response);
  read = λ n pending. (drop n pending, ok (take n pending));
  load = λ at pending. (pending, false);
  sleep = λ seconds pending. pending;
  build_client = λ timeout pending. (pending, ok tt);
}

first_header : parse (codes "bytes 0-0/3") ≡ ok (record { start = 0; end = 0; total = 3 })
unfolding parse trim trim_start trim_end strip_prefix split_once contains parse_range_number
    all_digits parse_u64
first_header = refl

whole_header : parse (codes "bytes 0-2/3") ≡ ok (record { start = 0; end = 2; total = 3 })
unfolding parse trim trim_start trim_end strip_prefix split_once contains parse_range_number
    all_digits parse_u64
whole_header = refl

server_reads :
    (n : ℕ) (w chunk : Bytes)
    → ◌≡◌ {A = Result ErrorKind Bytes} (ok (take n w)) (ok chunk)
    → w ≡ chunk ++ drop n w
server_reads n w chunk e =
    let c : take n w ≡ chunk = ground arith in rw (← c) (sym (take-append-drop n w))

-- A partial answer that says `text`, for a text that declares `range`.
says :
    (text : Bytes) (declared : ContentRange) (response : Response) (value : Bytes)
    (range : ContentRange)
    → parse text ≡ ok declared
    → ◌≡◌ {A = Result NetworkError Response} (ok (partial text)) (ok response)
    → required_header response content_range ≡ ok value
    → parse value ≡ ok range
    → declared ≡ range
unfolding required_header
says text declared response value range d e h p =
    let same : ◌≡◌ {A = Response} (partial text) response = ground arith in
    let shown : required_header (partial text) content_range ≡ ok value =
      subst (λ (r : Response). required_header r content_range ≡ ok value) (sym same) h in
    let spelled : text ≡ value = ground arith in
    let read : ◌≡◌ {A = Result NetworkError ContentRange} (ok declared) (ok range) =
      sym d ∙ rw spelled p in
    ground arith

reply-Serves :
    (b : Bool) (response : Response) (value : Bytes) (range : ContentRange)
    → ◌≡◌ {A = Result NetworkError Response} (ok (reply b).0) (ok response)
    → required_header response content_range ≡ ok value
    → parse value ≡ ok range
    → (range.total ≡ 3) × ((reply b).1 ≡ take (range.end + 1 - range.start) (drop range.start song))
reply-Serves true response value range e h p =
    rw (← says (codes "bytes 0-0/3") _ response value range first_header e h p) (refl, refl)
reply-Serves false response value range e h p =
    rw (← says (codes "bytes 0-2/3") _ response value range whole_header e h p) (refl, refl)

server-Serves : Serves server (λ pending. pending) song
server-Serves = record {
  streams = record { reads = server_reads; loads = λ at w. refl };
  sends = λ request w response value range e s h p.
      reply-Serves (wants_first request.range) response value range e h p;
}

abbrev home : Url
home = record {
  scheme = codes "http";
  host_str = some (codes "music.example");
  port_or_known_default = some 80;
}

abbrev unread : RangeStream
unread = record {
  url = home;
  credentials = none;
  buffer = [];
  buffer_start = 0;
  position = 0;
  content_length = 3;
  content_type = none;
  cancel_token = none;
}

abbrev opened : RangeStream
opened = record unread { buffer = song }

fetched :
    (fetch_range_once server home none 0 3 (some 3) none []).1
    ≡ ok (record { body = song; total = 3; content_type = none })
unfolding fetch_range_once check_cancelled read_bounded_body read_loop range_request
    authenticated_get accept_response required_header validate_content_length header_string parse
    trim trim_start trim_end strip_prefix split_once contains parse_range_number all_digits
    parse_u64 validate validate_literal_host
fetched = refl

fetch_range_once-bounds_example :
    let total : ℕ = 3 in
    (length song ≡ total) × (0 < total) × (0 + 3 ≤ total) × (total ≤ u64_max) × (total ≡ 3)
fetch_range_once-bounds_example =
    fetch_range_once-bounds server home none 0 3 (some 3) none []
      (record { body = song; total = 3; content_type = none }) fetched

read_all : (read server unread 8 []).1 ≡ ok (record opened { position = 3 }, song)
unfolding fetch_range_once check_cancelled read_bounded_body read_loop range_request
    authenticated_get accept_response required_header validate_content_length header_string parse
    trim trim_start trim_end strip_prefix split_once contains parse_range_number all_digits
    parse_u64 validate validate_literal_host fetch read ensure_buffered copy_out with_network_retry
    retry
read_all = refl

opens : (new server home none none []).1 ≡ ok opened
unfolding fetch_range_once check_cancelled read_bounded_body read_loop range_request
    authenticated_get accept_response required_header validate_content_length header_string parse
    trim trim_start trim_end strip_prefix split_once contains parse_range_number all_digits
    parse_u64 validate validate_literal_host fetch new initial with_network_retry retry
opens = refl

unread-IsOpen : IsOpen song unread
unread-IsOpen = record { size = refl; fits = omega arith; inside = omega arith; held = refl }

read-Reads_example : Reads song unread 8 (record opened { position = 3 }) song
read-Reads_example =
    read-Reads server (λ pending. pending) song server-Serves unread 8 []
      (record opened { position = 3 }) song unread-IsOpen read_all

reply_gives : (b : Bool) → b ≡ false → (reply b).1 ≡ song
reply_gives true e = absurd (ground arith)
reply_gives false e = refl

server_ends :
    (n : ℕ) (w : Bytes) → 0 < n → ◌≡◌ {A = Result ErrorKind Bytes} (ok (take n w)) (ok []) → w ≡ []
server_ends zero w p e = absurd (omega arith)
server_ends (suc n) [] p e = refl
server_ends (suc n) (x ∷ w) p e = absurd (ground arith)

server-Offers : Offers server (λ pending. pending) song
server-Offers = record {
  serves = server-Serves;
  ends = server_ends;
  gives = λ request w response e r s. reply_gives (wants_first request.range) (ap wants_first r);
}

abbrev limit : ℕ
limit = 1024

abbrev unknown : Response → Option ℕ
unknown response = none

open_streams :
    (open_http_media_source server limit unknown home none none []).1 ≡ ok (streaming opened)
unfolding fetch_range_once check_cancelled read_bounded_body read_loop range_request
    authenticated_get accept_response required_header validate_content_length header_string parse
    trim trim_start trim_end strip_prefix split_once contains parse_range_number all_digits
    parse_u64 validate validate_literal_host fetch new initial with_network_retry retry
    open_http_media_source
open_streams = refl

open_http_media_source-Hands_example :
    Hands server (λ pending. pending) song server-Offers limit (streaming opened)
open_http_media_source-Hands_example =
    open_http_media_source-Hands server (λ pending. pending) song server-Offers limit unknown home
      none none [] (streaming opened) (omega arith) open_streams

parse_iff_example :
    (parse (codes "bytes 0-2/3") ≡ ok (record { start = 0; end = 2; total = 3 }))
    ↔ Declares (trim (codes "bytes 0-2/3")) (record { start = 0; end = 2; total = 3 })
parse_iff_example = parse_iff (codes "bytes 0-2/3") (record { start = 0; end = 2; total = 3 })

-- ::ffff:127.0.0.1
abbrev mapped_loopback : IpAddr
mapped_loopback =
    v6 (record { s0 = 0; s1 = 0; s2 = 0; s3 = 0; s4 = 0; s5 = 0xffff; s6 = 0x7f00; s7 = 1 })

is_disallowed_ip-is_reserved_example :
    is_disallowed_ip mapped_loopback ≡ is_reserved mapped_loopback
is_disallowed_ip-is_reserved_example = is_disallowed_ip-is_reserved mapped_loopback (
  omega arith,
  omega arith,
  omega arith,
  omega arith,
  omega arith,
  omega arith,
  omega arith,
  omega arith,
)

-- A parser that reads every text outside of brackets as 127.0.0.1.
ip_of : Bytes → Option IpAddr
ip_of [] = none
ip_of (c ∷ s) = if c == b'[' then none else some (v4 (record { a = 127; b = 0; c = 0; d = 1 }))

ip_of_brackets : (s : Bytes) → ip_of (b'[' ∷ s) ≡ none
unfolding ip_of
ip_of_brackets s = refl

-- An IPv6 loopback in brackets is accepted unseen.
brackets_unseen :
    validate_literal_host ip_of
      (record home { host_str = some (b'[' ∷ b':' ∷ b':' ∷ b'1' ∷ b']' ∷ []) })
    ≡ ok tt
unfolding validate_literal_host ip_of
brackets_unseen = refl

abbrev public : List SocketAddr
public = record { ip = v4 (record { a = 9; b = 9; c = 9; d = 9 }); port = 443 } ∷ []

-- a name server that knows one public address
abbrev known : Bytes → ℕ → Action ℕ ErrorKind (List SocketAddr)
known host port asked = (asked + 1, ok public)

known_host : (resolve_and_validate_host known [] 443 0).1 ≡ ok public
unfolding resolve_and_validate_host validate_all validate_ip is_disallowed_ip
known_host = refl

resolve_and_validate_host-AllAllowed_example :
    ((known [] 443 0).1 ≡ ok public) × (public ≢ []) × AllAllowed public
resolve_and_validate_host-AllAllowed_example =
    resolve_and_validate_host-AllAllowed known [] 443 0 {xs = public} known_host

-- A request that times out twice; the world counts the requests and the seconds.
flaky : Action (ℕ × ℕ) NetworkError ℕ
flaky (count, seconds) =
    if count == 2 then ((count + 1, seconds), ok 7) else ((count + 1, seconds), err http_timeout)

abbrev wait : ℕ → ℕ × ℕ → ℕ × ℕ
wait delay (count, seconds) = (count, seconds + delay)

with_network_retry-Tries_example :
    Tries wait flaky network_backoff_delays (0, 0) (with_network_retry wait flaky (0, 0))
with_network_retry-Tries_example = with_network_retry-Tries wait flaky (0, 0)

third_time : with_network_retry wait flaky (0, 0) ≡ ((3, 3), ok 7)
unfolding with_network_retry retry flaky is_retriable
third_time = refl
