-- ===== src/HttpSource/Stream/Reads.antt =====
-- The stream as a cursor in the remote file.
use audio_engine_core.Base.{
  ℕ, ◌+◌, ◌-◌, ◌≤◌, ◌<◌, ◌≡◌, refl, ap, sym, ◌∙◌, min, false, Option, some, [], arith, u64_max,
  length, take, drop, length-take, length-drop, drop-drop, drop-take, take-take, leb, ◌==◌, inl,
  inr, ==_iff, subst, ◌⊎◌, Bool-cases,
}
use audio_engine_core.Base.Results.{Result, ok, Result-cases}
use audio_engine_core.HttpSource.{Bytes, NetworkError}
use audio_engine_core.HttpSource.Fetch.{
  Network, HttpCredentials, DecodeCancelToken, RangeFetch, check_cancelled, fetch_range_once,
}
use audio_engine_core.HttpSource.Fetch.Contract.{
  Serves, fetch_range_once-bounds, fetch_range_once-take,
}
use audio_engine_core.HttpSource.Policy.{Url}
use audio_engine_core.HttpSource.Retry.{with_network_retry-last}
use audio_engine_core.HttpSource.Stream.{
  RangeStream, fetch, is_buffered, fetch_len, ensure_buffered, copy_out, read,
}

-- The buffer is a part of the file, whose length the stream knows.
pub record IsOpen (file : Bytes) (s : RangeStream) : Type 0 where
  pub size : s.content_length ≡ length file
  pub fits : length file ≤ u64_max
  pub inside : s.buffer_start + length s.buffer ≤ length file
  pub held : s.buffer ≡ take (length s.buffer) (drop s.buffer_start file)

-- A read of `n` bytes gives the file's bytes at the position and moves past them, and gives some
-- unless the position is past the end or `n` is 0.
pub record Reads (file : Bytes) (s : RangeStream) (n : ℕ) (t : RangeStream) (bytes : Bytes)
    : Type 0 where
  pub open_ : IsOpen file t
  pub moved : t.position ≡ s.position + length bytes
  pub within : length bytes ≤ n
  pub read_bytes : bytes ≡ take (length bytes) (drop s.position file)
  pub progress : 0 < n → s.position < length file → 0 < length bytes

copy_out-Reads :
    (file : Bytes) (s : RangeStream) (n : ℕ)
    → IsOpen file s
    → s.buffer_start ≤ s.position
    → s.position < s.buffer_start + length s.buffer
    → Reads file s n (copy_out s n).0 (copy_out s n).1
unfolding copy_out
copy_out-Reads file s n o low high =
    let offset = s.position - s.buffer_start in
    let left = length s.buffer in
    let count = min (length s.buffer - offset) n in
    let bytes = take count (drop offset s.buffer) in
    let size : length bytes ≡ count =
      omega (arith, length-take count (drop offset s.buffer), length-drop offset s.buffer) in
    let part : bytes ≡ take count (drop s.position file) =
      ap (λ (t : Bytes). take count (drop offset t)) o.held
      ∙ ap (take count) (drop-take offset left (left - offset) (drop s.buffer_start file) refl)
      ∙ take-take count (left - offset) (drop offset (drop s.buffer_start file)) (omega arith)
      ∙ ap (take count) (drop-drop offset s.buffer_start s.position file (omega arith)) in
    let some_left : (left - offset == 0) ≡ false = ground arith in
    rw some_left (record {
      open_ = record { size = o.size; fits = o.fits; inside = o.inside; held = o.held };
      moved = omega (arith, size);
      within = omega (arith, size);
      read_bytes = rw size part;
      progress = λ p q. omega (arith, size);
    })

nothing-Reads :
    (file : Bytes) (s : RangeStream) (n : ℕ)
    → IsOpen file s
    → (n ≡ 0) ⊎ (length file ≤ s.position)
    → Reads file s n s []
nothing-Reads file s n o h = record {
  open_ = o;
  moved = omega arith;
  within = omega arith;
  read_bytes = refl;
  progress = λ p q. absurd (ground arith);
}

-- A read from where another stream stands.
Reads-moved :
    (file : Bytes) (s r : RangeStream) (n : ℕ) (t : RangeStream) (bytes : Bytes)
    → r.position ≡ s.position
    → Reads file r n t bytes
    → Reads file s n t bytes
Reads-moved file s r n t bytes e a = record {
  open_ = a.open_;
  moved = a.moved ∙ ap (λ (k : ℕ). k + length bytes) e;
  within = a.within;
  read_bytes = a.read_bytes ∙ ap (λ (k : ℕ). take (length bytes) (drop k file)) e;
  progress = λ p q. a.progress p (omega arith);
}

module _ {W : Type 0} (net : Network W) (pending : W → Bytes) (file : Bytes)
    (serves : Serves net pending file) where
  pub fetch-take :
      (url : Url) (credentials : Option HttpCredentials) (at len : ℕ) (expected_total : Option ℕ)
      (token : Option DecodeCancelToken) (w : W) (fetched : RangeFetch)
      → (fetch net url credentials at len expected_total token w).1 ≡ ok fetched
      → (fetched.body ≡ take len (drop at file))
        × (length fetched.body ≡ len)
        × (at + len ≤ length file)
        × (fetched.total ≡ length file)
        × (length file ≤ u64_max)
  unfolding fetch
  fetch-take url credentials at len expected_total token w fetched e =
      let (v, same) =
        with_network_retry-last net.sleep
          (fetch_range_once net url credentials at len expected_total token) w in
      let once : (fetch_range_once net url credentials at len expected_total token v).1
          ≡ ok fetched =
        ap (λ (r : W × Result NetworkError RangeFetch). r.1) (sym same) ∙ e in
      let (l, p, b, m, x) =
        fetch_range_once-bounds net url credentials at len expected_total token v fetched once in
      let (t, whole) =
        fetch_range_once-take net pending file serves url credentials at len expected_total token v
          fetched once in
      (t, l, omega arith, whole, omega arith)

  -- What a read of bytes that are there needs of the buffer.
  abbrev IsReady : RangeStream → RangeStream → Type 0
  IsReady s t =
      IsOpen file t
      × (t.position ≡ s.position)
      × (t.buffer_start ≤ s.position)
      × (s.position < t.buffer_start + length t.buffer)

  ensure_buffered-IsReady :
      (s : RangeStream) (n : ℕ) (w : W) (t : RangeStream)
      → IsOpen file s
      → 0 < n
      → s.position < length file
      → (ensure_buffered net s n w).1 ≡ ok t
      → IsReady s t
  unfolding ensure_buffered
  ensure_buffered-IsReady s n w t o p inside e = elim (Bool-cases (is_buffered s n)) [
    | inl hit ↦ let same : s ≡ t = ground arith in rw (← same) (o, refl, ground arith, ground arith)
    | inr miss ↦ elim (Bool-cases (fetch_len s n == 0)) [
      | inl zero_len ↦ absurd (ground arith)
      | inr some_len ↦
          let len = fetch_len s n in
          let r =
            fetch net s.url s.credentials s.position len (some s.content_length) s.cancel_token w in
          elim (Result-cases r.1) [
            | inr (x, f) ↦ absurd (ground arith)
            | inl (fetched, f) ↦
                let (b, l, m, total, top) =
                  fetch-take s.url s.credentials s.position len (some s.content_length)
                    s.cancel_token w fetched f in
                let same : record s { buffer_start = s.position; buffer = fetched.body } ≡ t =
                  ground arith in
                rw (← same) (
                  record {
                    size = o.size;
                    fits = top;
                    inside = omega (arith, l);
                    held = b ∙ rw l refl;
                  },
                  refl,
                  omega arith,
                  omega (arith, l, o.size),
                )
          ]
    ]
  ]

  -- Where the server serves a file, a read that succeeds on a stream of it gives the file's bytes from
  -- the stream's position, at most as many as asked for, moves the position past them, keeps the
  -- stream's buffer a part of the file, and gives at least one byte, if any is asked for and the
  -- position is before the end.
  pub read-Reads :
      (s : RangeStream) (n : ℕ) (w : W) (t : RangeStream) (bytes : Bytes)
      → IsOpen file s
      → (read net s n w).1 ≡ ok (t, bytes)
      → Reads file s n t bytes
  unfolding read
  read-Reads s n w t bytes o e =
      let c = check_cancelled net s.cancel_token w in
      elim (Bool-cases (n == 0)) [
        | inl none_asked ↦
            let (st, nb) : (s ≡ t) × ([] ≡ bytes) = ground arith in
            rw (← st, ← nb) (nothing-Reads file s n o (inl ((==_iff n 0).0 none_asked)))
        | inr asked ↦ elim (Result-cases c.1) [
          | inr (x, f) ↦ absurd (ground arith)
          | inl (u, f) ↦ elim (Bool-cases (leb s.content_length s.position)) [
            | inl past ↦
                let (st, nb) : (s ≡ t) × ([] ≡ bytes) = ground arith in
                rw (← st, ← nb) (nothing-Reads file s n o (inr (ground (arith, o.size))))
            | inr before ↦ elim (Result-cases (ensure_buffered net s n c.0).1) [
              | inr (x, g) ↦ absurd (ground arith)
              | inl (r, g) ↦
                  let (ro, at, low, high) =
                    ensure_buffered-IsReady s n c.0 r o (ground arith) (ground (arith, o.size)) g in
                  let same : copy_out r n ≡ (t, bytes) = ground arith in
                  Reads-moved file s r n t bytes at (
                    subst (λ (q : RangeStream × Bytes). Reads file r n q.0 q.1) same
                      (copy_out-Reads file r n ro (omega arith) (omega arith)))
            ]
          ]
        ]
      ]
