-- ===== src/HttpSource/Download/Complete.antt =====
-- What a download holds.
use mathlib.Core.List.{append_assoc, append-nil}
use audio_engine_core.Base.{
  ℕ, zero, suc, ◌+◌, ◌/◌, ◌≤◌, ◌<◌, ◌≡◌, refl, ap, sym, ◌∙◌, subst, true, Option, none, [], ◌∷◌,
  ◌++◌, arith, u64_max, length, List-cases, inl, inr, Bool-cases,
}
use audio_engine_core.Base.Results.{Result, ok, Result-cases}
use audio_engine_core.HttpSource.{Bytes, NetworkError, with_network_retry}
use audio_engine_core.HttpSource.Fetch.{
  Network, HttpCredentials, DecodeCancelToken, Request, check_cancelled, read_chunk_size,
  authenticated_get,
}
use audio_engine_core.HttpSource.Fetch.Body.{pending-check_cancelled}
use audio_engine_core.HttpSource.Fetch.Contract.{Serves}
use audio_engine_core.HttpSource.Headers.{Response, is_success}
use audio_engine_core.HttpSource.Policy.{Url, validate_literal_host}
use audio_engine_core.HttpSource.Retry.{with_network_retry-last}
use audio_engine_core.HttpSource.Stream.{new}
use audio_engine_core.HttpSource.Stream.Whole.{read_to_end, Delivers, new-read_to_end}
use audio_engine_core.HttpSource.Download.Loop.{download_loop-bounds}
use audio_engine_core.HttpSource.Download.{
  Opened, streaming, downloaded, get, checked_download_capacity, lacks_ranges, download_loop,
  download_full_source, open_http_media_source,
}

-- The server's side of a full download: a request without a range that succeeds gets the file, and a
-- body ends where it has nothing left.
pub record Offers {W : Type 0} (net : Network W) (pending : W → Bytes) (file : Bytes) : Type 0 where
  pub serves : Serves net pending file
  pub ends : (n : ℕ) (w : W) → 0 < n → (net.read n w).1 ≡ ok [] → pending w ≡ []
  pub gives :
      (request : Request) (w : W) (response : Response)
      → (net.send request w).1 ≡ ok response
      → request.range ≡ none
      → is_success response.status ≡ true
      → pending (net.send request w).0 ≡ file

module _ {W : Type 0} (net : Network W) (pending : W → Bytes) (file : Bytes)
    (offers : Offers net pending file) where
  download_loop-append :
      (token : Option DecodeCancelToken) (max rounds : ℕ) (buffer : Bytes) (w : W) (got : Bytes)
      → (download_loop net token max rounds buffer w).1 ≡ ok got
      → got ≡ buffer ++ pending w
  unfolding download_loop
  download_loop-append token max zero buffer w got e = absurd (ground arith)
  download_loop-append token max (suc rounds) buffer w got e =
      let c = check_cancelled net token w in
      let r = net.read read_chunk_size c.0 in
      let kept : pending c.0 ≡ pending w =
        pending-check_cancelled net pending offers.serves.streams token w in
      elim (Result-cases c.1) [
        | inr (x, g) ↦ absurd (ground arith)
        | inl (u, g) ↦ elim (Result-cases r.1) [
          | inr (x, h) ↦ absurd (ground arith)
          | inl (chunk, h) ↦
              let met : pending c.0 ≡ chunk ++ pending r.0 =
                offers.serves.streams.reads read_chunk_size c.0 chunk h in
              elim (List-cases chunk) [
                | inl z ↦
                    let none_left : pending c.0 ≡ [] =
                      offers.ends read_chunk_size c.0 (omega arith) (h ∙ ap ok z) in
                    let same : buffer ≡ got = ground arith in
                    rw (← same, ← kept, none_left) (sym (append-nil buffer))
                | inr (x, xs, z) ↦ ground (
                  arith,
                  append_assoc buffer (x ∷ xs) (pending r.0),
                  download_loop-append token max rounds (buffer ++ x ∷ xs) r.0 got,
                )
              ]
        ]
      ]

  get-pending :
      (url : Url) (credentials : Option HttpCredentials) (token : Option DecodeCancelToken) (w : W)
      (response : Response)
      → (get net url credentials token w).1 ≡ ok response
      → pending (get net url credentials token w).0 ≡ file
  unfolding get authenticated_get
  get-pending url credentials token w response e =
      let c = check_cancelled net token w in
      elim (Result-cases c.1) [
        | inr (x, f) ↦ absurd (ground arith)
        | inl (u, f) ↦ elim (Result-cases (validate_literal_host net.parse_ip url)) [
          | inr (x, g) ↦ absurd (ground arith)
          | inl (v, g) ↦
              let request : Request = record {
                url = url;
                basic_auth = credentials;
                range = none;
              } in
              let sent = net.send request c.0 in
              elim (Result-cases sent.1) [
                | inr (x, h) ↦ absurd (ground arith)
                | inl (answer, h) ↦ elim (Bool-cases (is_success answer.status)) [
                  | inr failed ↦ absurd (ground arith)
                  | inl succeeded ↦
                      let whole : pending sent.0 ≡ file =
                        offers.gives request c.0 answer h refl succeeded in
                      ground arith
                ]
              ]
        ]
      ]

  download_full_source-whole :
      (max_memory_bytes : ℕ) (content_length : Response → Option ℕ) (url : Url)
      (credentials : Option HttpCredentials) (token : Option DecodeCancelToken) (w : W)
      (got : Bytes)
      → max_memory_bytes ≤ u64_max
      → (download_full_source net max_memory_bytes content_length url credentials token w).1
        ≡ ok got
      → (got ≡ file) × (length got ≤ max_memory_bytes / 8)
  unfolding download_full_source
  download_full_source-whole max_memory_bytes content_length url credentials token w got m e =
      let max = max_memory_bytes / 8 in
      let b = net.build_client 120 w in
      elim (Result-cases b.1) [
        | inr (x, f) ↦ absurd (ground arith)
        | inl (u, f) ↦
            let r = with_network_retry net.sleep (get net url credentials token) b.0 in
            elim (Result-cases r.1) [
              | inr (x, g) ↦ absurd (ground arith)
              | inl (response, g) ↦
                  let (v, same) =
                    with_network_retry-last net.sleep (get net url credentials token) b.0 in
                  let first : (get net url credentials token v).1 ≡ ok response =
                    ap (λ (q : W × Result NetworkError Response). q.1) (sym same) ∙ g in
                  let whole : pending r.0 ≡ file =
                    ap (λ (q : W × Result NetworkError Response). pending q.0) same
                    ∙ get-pending url credentials token v response first in
                  elim (Result-cases (checked_download_capacity (content_length response) max)) [
                    | inr (x, h) ↦ absurd (ground arith)
                    | inl (capacity, h) ↦
                        let run : (download_loop net token max (max + 1) [] r.0).1 ≡ ok got =
                          ground arith in
                        (
                          download_loop-append token max (max + 1) [] r.0 got run ∙ whole,
                          download_loop-bounds net token max (max + 1) [] r.0 got (omega arith)
                              (omega arith) run,
                        )
                  ]
            ]
      ]

  -- A stream that reads as the file, or the file itself within the limit of a download.
  abbrev pub Hands : ℕ → Opened → Type 0
  Hands max_memory_bytes (streaming s) =
      (n fuel : ℕ) (v : W)
      → 0 < n
      → length file < fuel
      → Delivers net pending file offers.serves (read_to_end net n fuel s v)
  Hands max_memory_bytes (downloaded got) = (got ≡ file) × (length got ≤ max_memory_bytes / 8)

  -- Where the server offers a file, opening it, if that succeeds, hands on the file: a stream that,
  -- read to its end with a buffer that is not empty, ends within one read for each byte and one more
  -- and gives exactly the file, unless a read fails, or the whole file, of at most an eighth of the
  -- memory limit.
  pub open_http_media_source-Hands :
      (max_memory_bytes : ℕ) (content_length : Response → Option ℕ) (url : Url)
      (credentials : Option HttpCredentials) (token : Option DecodeCancelToken) (w : W)
      (opened : Opened)
      → max_memory_bytes ≤ u64_max
      → (open_http_media_source net max_memory_bytes content_length url credentials token w).1
        ≡ ok opened
      → Hands max_memory_bytes opened
  unfolding open_http_media_source
  open_http_media_source-Hands max_memory_bytes content_length url credentials token w opened m e =
      let o = new net url credentials token w in
      elim (Result-cases o.1) [
        | inl (s, f) ↦
            let same : streaming s ≡ opened = ground arith in
            subst (Hands max_memory_bytes) same (λ n fuel v p l.
              new-read_to_end net pending file offers.serves url credentials token w v n fuel s f p
                l)
        | inr (x, f) ↦ elim (Bool-cases (lacks_ranges x)) [
          | inr other ↦ absurd (ground arith)
          | inl falls_back ↦
              let d =
                download_full_source net max_memory_bytes content_length url credentials token
                  o.0 in
              elim (Result-cases d.1) [
                | inr (y, g) ↦ absurd (ground arith)
                | inl (got, g) ↦
                    let same : downloaded got ≡ opened = ground arith in
                    subst (Hands max_memory_bytes) same (
                      download_full_source-whole max_memory_bytes content_length url credentials
                        token o.0 got m g)
              ]
        ]
      ]
