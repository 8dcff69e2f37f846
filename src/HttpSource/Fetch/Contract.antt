-- ===== src/HttpSource/Fetch/Contract.antt =====
-- What a Range request brings.
use audio_engine_core.Base.{
  ℕ, ◌+◌, ◌-◌, ◌≤◌, ◌<◌, ◌≡◌, refl, sym, ◌∙◌, Option, none, some, ◌++◌, arith, u64_max, length,
  take, drop, take_prefix, ◌==◌, inl, inr, Bool-cases,
}
use audio_engine_core.Base.Results.{ok, Result-cases}
use audio_engine_core.HttpSource.{Bytes}
use audio_engine_core.HttpSource.ContentRange.{ContentRange, parse, validate}
use audio_engine_core.HttpSource.ContentRange.Grammar.{parse_iff}
use audio_engine_core.HttpSource.Headers.{Response, content_range, required_header, accept_response}
use audio_engine_core.HttpSource.Policy.{Url}
use audio_engine_core.HttpSource.Fetch.{
  Network, HttpCredentials, DecodeCancelToken, RangeFetch, Request, check_cancelled, range_request,
  read_bounded_body, fetch_range_once,
}
use audio_engine_core.HttpSource.Fetch.Body.{
  Streams, length-read_bounded_body, read_bounded_body-append,
}

abbrev pub IsExpected : Option ℕ → ℕ → Type 0
IsExpected none total = Unit
IsExpected (some expected) total = total ≡ expected

abbrev pub Fits : ContentRange → ℕ → ℕ → Option ℕ → Type 0
Fits range start end expected_total =
    (range.start ≡ start)
    × (range.end ≡ end)
    × IsExpected expected_total range.total
    × (end < range.total)
    × (range.total ≤ u64_max)

validate_lem :
    (r : ContentRange) (start end : ℕ) (expected_total : Option ℕ) {u : Unit {0}}
    → validate r start end expected_total ≡ ok u
    → (r.start ≡ start) × (r.end ≡ end) × IsExpected expected_total r.total
unfolding validate
validate_lem r start end none e = ground arith
validate_lem r start end (some t) e = ground arith

-- The header that an accepted response carries.
pub accept_response-Fits :
    (response : Response) (start end len : ℕ) (expected_total : Option ℕ) (range : ContentRange)
    → accept_response response start end len expected_total ≡ ok range
    → (response.status ≡ 206)
      × (value : Bytes) × (required_header response content_range ≡ ok value)
      × (parse value ≡ ok range)
      × Fits range start end expected_total
unfolding accept_response
accept_response-Fits response start end len expected_total range e =
    elim (Result-cases (required_header response content_range)) [
      | inr (x, f) ↦ absurd (ground arith)
      | inl (value, f) ↦ elim (Result-cases (parse value)) [
        | inr (x, g) ↦ absurd (ground arith)
        | inl (r, g) ↦ elim (Result-cases (validate r start end expected_total)) [
          | inr (x, h) ↦ absurd (ground arith)
          | inl (u, h) ↦
              let whole : (response.status ≡ 206) × (r ≡ range) = ground arith in
              let (a, b, c, d, sa, sb, sc, order, inside) = (parse_iff value r).0 g in
              let (es, ee, et) = validate_lem r start end expected_total {u = u} h in
              (
                whole.0,
                value,
                f,
                rw (g, whole.1) refl,
                rw (← whole.1) (es, ee, et, omega arith, sc.3),
              )
        ]
      ]
    ]

pub range_request_end :
    {W : Type 0} (net : Network W) (url : Url) (credentials : Option HttpCredentials)
    (start len : ℕ) (end : ℕ) (request : Request)
    → range_request net url credentials start len ≡ ok (end, request)
    → (end ≡ start + (len - 1)) × (end ≤ u64_max)
unfolding range_request
range_request_end net url credentials start len end request e = ground arith

-- The server's side: an answer that a request gets, if it is partial and says which part, holds that
-- part of the file, whose length it states.
pub record Serves {W : Type 0} (net : Network W) (pending : W → Bytes) (file : Bytes) : Type 0 where
  pub streams : Streams net pending
  pub sends :
      (request : Request) (w : W) (response : Response) (value : Bytes) (range : ContentRange)
      → (net.send request w).1 ≡ ok response
      → response.status ≡ 206
      → required_header response content_range ≡ ok value
      → parse value ≡ ok range
      → (range.total ≡ length file)
        × (pending (net.send request w).0
            ≡ take (range.end + 1 - range.start) (drop range.start file))

module _ {W : Type 0} (net : Network W) where
  -- What a successful request went through, up to its body.
  pub record Accepted (url : Url) (credentials : Option HttpCredentials) (start len : ℕ)
      (expected_total : Option ℕ) (token : Option DecodeCancelToken) (w : W) (fetch : RangeFetch)
      : Type 0 where
    pub request : Request
    pub response : Response
    pub value : Bytes
    pub range : ContentRange
    pub before : W
    pub positive : 0 < len
    pub sent : (net.send request before).1 ≡ ok response
    pub partial : response.status ≡ 206
    pub header : required_header response content_range ≡ ok value
    pub parsed : parse value ≡ ok range
    pub fits : Fits range start (start + (len - 1)) expected_total
    pub total : fetch.total ≡ range.total
    pub body : (read_bounded_body net token len (net.send request before).0).1 ≡ ok fetch.body

  pub fetch_range_once-Accepted :
      (url : Url) (credentials : Option HttpCredentials) (start len : ℕ) (expected_total : Option ℕ)
      (token : Option DecodeCancelToken) (w : W) (fetch : RangeFetch)
      → (fetch_range_once net url credentials start len expected_total token w).1 ≡ ok fetch
      → Accepted url credentials start len expected_total token w fetch
  unfolding fetch_range_once
  fetch_range_once-Accepted url credentials start len expected_total token w fetch e =
      let c = check_cancelled net token w in
      elim (Bool-cases (len == 0)) [
        | inl z ↦ absurd (ground arith)
        | inr some_len ↦ elim (Result-cases c.1) [
          | inr (x, f) ↦ absurd (ground arith)
          | inl (u, f) ↦ elim (Result-cases (range_request net url credentials start len)) [
            | inr (x, g) ↦ absurd (ground arith)
            | inl (made, g) ↦
                let (end, request) = made in
                let sent = net.send request c.0 in
                elim (Result-cases sent.1) [
                  | inr (x, h) ↦ absurd (ground arith)
                  | inl (response, h) ↦
                      elim (Result-cases (accept_response response start end len expected_total)) [
                        | inr (x, i) ↦ absurd (ground arith)
                        | inl (range, i) ↦
                            elim (Result-cases (read_bounded_body net token len sent.0).1) [
                              | inr (x, j) ↦ absurd (ground arith)
                              | inl (body, j) ↦
                                  let (whole, value, single, read, fit) =
                                    accept_response-Fits response start end len expected_total range
                                      i in
                                  let ends =
                                    range_request_end net url credentials start len end request g in
                                  let out : (fetch.total ≡ range.total) × (body ≡ fetch.body) =
                                    ground arith in
                                  record {
                                    request = request;
                                    response = response;
                                    value = value;
                                    range = range;
                                    before = c.0;
                                    positive = ground arith;
                                    sent = h;
                                    partial = whole;
                                    header = single;
                                    parsed = read;
                                    fits = rw (← ends.0) fit;
                                    total = out.0;
                                    body = rw (← out.1) j;
                                  }
                            ]
                      ]
                ]
          ]
        ]
      ]

  -- From any server, a successful request brings exactly as many bytes as it asked for, at least one,
  -- for a range within the total length that the answer states, which fits 64 bits and is the expected
  -- one, if one is expected.
  pub fetch_range_once-bounds :
      (url : Url) (credentials : Option HttpCredentials) (start len : ℕ) (expected_total : Option ℕ)
      (token : Option DecodeCancelToken) (w : W) (fetch : RangeFetch)
      → (fetch_range_once net url credentials start len expected_total token w).1 ≡ ok fetch
      → (length fetch.body ≡ len)
        × (0 < len)
        × (start + len ≤ fetch.total)
        × (fetch.total ≤ u64_max)
        × IsExpected expected_total fetch.total
  fetch_range_once-bounds url credentials start len expected_total token w fetch e =
      let a = fetch_range_once-Accepted url credentials start len expected_total token w fetch e in
      let (es, ee, et, inside, top) = a.fits in
      (
        length-read_bounded_body net token len (net.send a.request a.before).0 fetch.body a.body,
        a.positive,
        omega (arith, a.total, a.positive),
        omega (arith, a.total),
        rw a.total et,
      )

  pub fetch_range_once-take :
      (pending : W → Bytes) (file : Bytes)
      → Serves net pending file
      → (url : Url) (credentials : Option HttpCredentials) (start len : ℕ)
        (expected_total : Option ℕ) (token : Option DecodeCancelToken) (w : W) (fetch : RangeFetch)
      → (fetch_range_once net url credentials start len expected_total token w).1 ≡ ok fetch
      → (fetch.body ≡ take len (drop start file)) × (fetch.total ≡ length file)
  fetch_range_once-take pending file serves url credentials start len expected_total token w fetch
        e =
      let a = fetch_range_once-Accepted url credentials start len expected_total token w fetch e in
      let (es, ee, et, inside, top) = a.fits in
      let (whole, held) =
        serves.sends a.request a.before a.response a.value a.range a.sent a.partial a.header
          a.parsed in
      let (l, rest, split) =
        read_bounded_body-append net pending serves.streams token len
          (net.send a.request a.before).0 fetch.body a.body in
      let size : a.range.end + 1 - a.range.start ≡ len = omega (arith, a.positive) in
      let all : take len (drop start file) ≡ fetch.body ++ rest =
        rw (← size) (rw (← es) (sym held ∙ split)) in
      (take_prefix len (drop start file) fetch.body rest all l, a.total ∙ whole)
