-- ===== src/HttpSource/Fetch.antt =====
-- src/decoder/source/http.rs: one Range request, its headers and its bounded body. The HTTP client,
-- the atomic flag of a cancel token and the thread's sleep are other code: the operations of
-- `Network` on a world `W`.
pub mod Body
pub mod Contract
use audio_engine_core.Base.{
  ℕ, zero, suc, ◌+◌, ◌-◌, ◌*◌, ◌<◌, ◌≤◌, min, Bool, true, false, not, ◌&&◌, ◌||◌, Option, none,
  some, List, [], ◌∷◌, ◌++◌, u64_max, leb, ltb, ◌==◌, if◌then◌else◌, length, arith,
}
use audio_engine_core.Base.Actions.{Action, ◌>>=◌, ◌>>◌, done, throw, pure, err_with}
use audio_engine_core.Base.Results.{Result, ok, err, refuse, ok_or}
use audio_engine_core.HttpSource.{
  Bytes, ErrorKind, Message, zero_length, end_overflow, missing_header, multiple_headers, not_ascii,
  length_mismatch, body_exceeds, body_length, body_limit_overflow, content_length_field,
  NetworkError, cancelled, http_status, range_not_supported, invalid_range, from_io,
}
use audio_engine_core.HttpSource.Headers.{content_type, Response, header_string, accept_response}
use audio_engine_core.HttpSource.Policy.{IpAddr, Url, validate_literal_host}

-- `HttpCredentials`
pub record HttpCredentials : Type 0 where
  pub username : Bytes
  pub password : Bytes

pub record Request : Type 0 where
  pub url : Url
  pub basic_auth : Option HttpCredentials
  pub range : Option (ℕ × ℕ)

-- `Arc<AtomicBool>` by its address
pub record DecodeCancelToken : Type 0 where
  pub cancelled : ℕ

pub record Network (W : Type 0) : Type 0 where
  pub parse_ip : Bytes → Option IpAddr
  pub send : Request → Action W NetworkError Response
  pub read : ℕ → Action W ErrorKind Bytes
  pub load : ℕ → W → W × Bool
  pub sleep : ℕ → W → W
  pub build_client : ℕ → Action W NetworkError (Unit {0})

abbrev pub read_chunk_size : ℕ
read_chunk_size = 64 * 1024

abbrev pub checked_add : ℕ → ℕ → Option ℕ
checked_add a b = if leb (a + b) u64_max then some (a + b) else none

-- `RangeFetch`
pub record RangeFetch : Type 0 where
  pub body : Bytes
  pub total : ℕ
  pub content_type : Option Bytes

module _ {W : Type 0} (net : Network W) where
  unfoldable pub is_cancelled : DecodeCancelToken → W → W × Bool
  is_cancelled token = net.load token.cancelled

  unfoldable pub check_cancelled : Option DecodeCancelToken → Action W NetworkError (Unit {0})
  unfolding is_cancelled
  check_cancelled none = done tt
  check_cancelled (some token) =
      λ w. let (w', set) = is_cancelled token w in (w', refuse set NetworkError.cancelled)

  unfoldable pub authenticated_get : Url → Option HttpCredentials → Result NetworkError Request
  authenticated_get url credentials = elim (validate_literal_host net.parse_ip url) [
    | ok _ ↦ ok (record { url = url; basic_auth = credentials; range = none })
    | err e ↦ err e
  ]

  module _ (cancel_token : Option DecodeCancelToken) (expected_len : ℕ) where
    -- The loop of `read_bounded_body` with `limit` bytes left for `Take::read` to give. A read that
    -- is not empty lowers the limit, and at 0 `Take` reads nothing, which ends the loop, so as many
    -- rounds as the limit and one more are all.
    unfoldable pub read_loop : ℕ → ℕ → Bytes → Action W NetworkError Bytes
    unfolding check_cancelled
    read_loop zero limit body = do check_cancelled cancel_token; done body
    read_loop (suc rounds) limit body = λ w.
        let (w1, going) = check_cancelled cancel_token w in
        elim going [
          | err e ↦ (w1, err e)
          | ok _ ↦ elim (limit == 0) [
            | true ↦ (w1, ok body)
            | false ↦
                let (w2, r) = net.read (min read_chunk_size limit) w1 in
                elim r [
                  | err kind ↦ (w2, err (from_io kind))
                  | ok chunk ↦ elim chunk [
                    | [] ↦ (w2, ok body)
                    | x ∷ xs ↦ elim (ltb expected_len (length (body ++ x ∷ xs))) [
                      | true ↦ (w2, err (invalid_range (body_exceeds expected_len)))
                      | false ↦ read_loop rounds (limit - suc (length xs)) (body ++ x ∷ xs) w2
                    ]
                  ]
                ]
          ]
        ]

    unfoldable pub read_bounded_body : Action W NetworkError Bytes
    unfolding read_loop
    read_bounded_body = do
      read_limit ← pure (ok_or (checked_add expected_len 1) (invalid_range body_limit_overflow))
      body ← read_loop read_limit read_limit []
      pure (
          refuse (not (length body == expected_len))
            (invalid_range (body_length (length body) expected_len)))
      check_cancelled cancel_token
      done body

  -- the request for `len` bytes from `start`, made after the check on the token
  unfoldable pub range_request :
      Url → Option HttpCredentials → ℕ → ℕ → Result NetworkError (ℕ × Request)
  unfolding authenticated_get
  range_request url credentials start len = elim (checked_add start (len - 1)) [
    | none ↦ err (invalid_range end_overflow)
    | some requested_end ↦ elim (authenticated_get url credentials) [
      | err e ↦ err e
      | ok request ↦ ok (requested_end, record request { range = some (start, requested_end) })
    ]
  ]

  unfoldable pub fetch_range_once :
      Url
      → Option HttpCredentials
      → ℕ
      → ℕ
      → Option ℕ
      → Option DecodeCancelToken
      → Action W NetworkError RangeFetch
  unfolding read_bounded_body check_cancelled range_request accept_response
  fetch_range_once url credentials start len expected_total cancel_token = do
    pure (refuse (len == 0) (invalid_range zero_length))
    check_cancelled cancel_token
    (requested_end, request) ← pure (range_request url credentials start len)
    response ← net.send request
    range ← pure (accept_response response start requested_end len expected_total)
    body ← read_bounded_body cancel_token len
    done (record {
      body = body;
      total = range.total;
      content_type = header_string response content_type;
    })
