-- ===== src/HttpSource/Download.antt =====
-- src/decoder/source/http.rs: the full download from a server without ranges, and opening a source.
-- The type of the content, the hint that it gives and the log lines are left out.
pub mod Loop
pub mod Complete
use audio_engine_core.Base.{
  ℕ, zero, suc, ◌+◌, ◌*◌, ◌/◌, Bool, true, false, Option, none, some, List, [], ◌∷◌, ◌++◌,
  saturating_add, ltb, length,
}
use audio_engine_core.Base.Actions.{Action, ◌>>=◌, ◌>>◌, done, throw, pure, err_with}
use audio_engine_core.Base.Results.{Result, ok, err}
use audio_engine_core.HttpSource.{
  Bytes, too_large, exceeds_limit, NetworkError, other, range_not_supported, invalid_range_response,
  from_io, DecoderError, network, network_error_to_decoder_error, with_network_retry,
}
use audio_engine_core.HttpSource.Headers.{Response, response_status_error}
use audio_engine_core.HttpSource.Fetch.{
  Network, HttpCredentials, DecodeCancelToken, read_chunk_size, check_cancelled, authenticated_get,
}
use audio_engine_core.HttpSource.Policy.{Url}
use audio_engine_core.HttpSource.Stream.{RangeStream, new}

abbrev pub http_full_download_timeout : ℕ
http_full_download_timeout = 120

abbrev pub non_range_download_memory_divisor : ℕ
non_range_download_memory_divisor = 8

abbrev pub bytes_per_mib : ℕ
bytes_per_mib = 1024 * 1024

abbrev pub bytes_to_mib : ℕ → ℕ
bytes_to_mib bytes = bytes / bytes_per_mib

unfoldable pub checked_download_capacity : Option ℕ → ℕ → Result DecoderError (Option ℕ)
checked_download_capacity none max_download_bytes = ok none
checked_download_capacity (some length) max_download_bytes = elim (ltb max_download_bytes length) [
  | true ↦
      err (network (other (too_large (length / bytes_per_mib) (bytes_to_mib max_download_bytes))))
  | false ↦ ok (some length)
]

-- `if let Some(error) = response_status_error(&response)`
abbrev check_status : Response → Option NetworkError → Result NetworkError Response
check_status response none = ok response
check_status response (some error) = err error

-- What `open_http_media_source` hands on: a stream, or the whole file.
pub data Opened : Type 0 where
  streaming : RangeStream → Opened
  downloaded : Bytes → Opened

-- the errors that fall back to a full download
unfoldable pub lacks_ranges : NetworkError → Bool
lacks_ranges (range_not_supported _) = true
lacks_ranges (invalid_range_response _) = true
lacks_ranges _ = false

module _ {W : Type 0} (net : Network W) where
  -- one attempt at the request
  unfoldable pub get :
      Url → Option HttpCredentials → Option DecodeCancelToken → Action W NetworkError Response
  unfolding check_cancelled authenticated_get
  get url credentials token = do
    check_cancelled net token
    request ← pure (authenticated_get net url credentials)
    response ← net.send request
    pure (check_status response (response_status_error response))

  -- The loop of `download_full_source`. Every round but the last adds to the buffer, which cannot grow
  -- past the limit, so with the limit and one more as rounds the last clause is not met; it would say
  -- what its round says of any further byte.
  unfoldable pub download_loop :
      Option DecodeCancelToken → ℕ → ℕ → Bytes → Action W DecoderError Bytes
  unfolding check_cancelled from_io
  download_loop token max_download_bytes zero buffer =
      throw (network (other (exceeds_limit (bytes_to_mib max_download_bytes))))
  download_loop token max_download_bytes (suc rounds) buffer = λ w.
      let (w1, going) = check_cancelled net token w in
      elim going [
        | err e ↦ (w1, err (network_error_to_decoder_error e))
        | ok _ ↦
            let (w2, r) = net.read read_chunk_size w1 in
            elim r [
              | err kind ↦ (w2, err (network_error_to_decoder_error (from_io kind)))
              | ok chunk ↦ elim chunk [
                | [] ↦ (w2, ok buffer)
                | x ∷ xs ↦
                    elim (ltb max_download_bytes
                      (saturating_add (length buffer) (length (x ∷ xs)))) [
                        | true ↦ (
                          w2,
                          err (network (other (exceeds_limit (bytes_to_mib max_download_bytes)))),
                        )
                        | false ↦
                            download_loop token max_download_bytes rounds (buffer ++ x ∷ xs) w2
                      ]
              ]
            ]
      ]

  unfoldable pub download_full_source :
      ℕ
      → (Response → Option ℕ)
      → Url
      → Option HttpCredentials
      → Option DecodeCancelToken
      → Action W DecoderError Bytes
  unfolding get download_loop
  download_full_source max_memory_bytes content_length url credentials token = do
    let max_download_bytes = max_memory_bytes / non_range_download_memory_divisor
    λ w. err_with network_error_to_decoder_error (net.build_client http_full_download_timeout w)
    response ← λ w.
        err_with network_error_to_decoder_error
          (with_network_retry net.sleep (get url credentials token) w)
    capacity ← pure (checked_download_capacity (content_length response) max_download_bytes)
    download_loop token max_download_bytes (max_download_bytes + 1) []

  unfoldable pub open_http_media_source :
      ℕ
      → (Response → Option ℕ)
      → Url
      → Option HttpCredentials
      → Option DecodeCancelToken
      → Action W DecoderError Opened
  unfolding lacks_ranges download_full_source new
  open_http_media_source max_memory_bytes content_length url credentials token = λ w.
      let (w1, opened) = new net url credentials token w in
      elim opened [
        | ok stream ↦ (w1, ok (streaming stream))
        | err e ↦ elim (lacks_ranges e) [
          | true ↦
              (do
                file ← download_full_source max_memory_bytes content_length url credentials token
                done (downloaded file))
                w1
          | false ↦ (w1, err (network_error_to_decoder_error e))
        ]
      ]
