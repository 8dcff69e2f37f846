-- ===== src/HttpSource/Stream/Whole.antt =====
-- A stream from its opening to the end of the file, and its positions.
use audio_engine_core.Base.{
  ℕ, zero, suc, ◌-◌, ◌≤◌, ◌<◌, ◌≡◌, refl, ap, sym, ◌∙◌, min, Option, none, some, [], ◌∷◌, ◌++◌,
  arith, u64_max, length, length-take, length-drop, take, drop, take-append-drop, drop_of_le,
  drop-drop, List-cases, ltb, ltb→lt, ltb→le, subst, ◌==◌, inl, inr, Bool-cases,
}
use audio_engine_core.Base.Integers.{ℤ, pos, negsuc}
use audio_engine_core.Base.Results.{Result, ok, err, Result-cases}
use audio_engine_core.HttpSource.{Bytes, ErrorKind, invalid_input}
use audio_engine_core.HttpSource.Fetch.{Network, HttpCredentials, DecodeCancelToken, RangeFetch}
use audio_engine_core.HttpSource.Fetch.Contract.{Serves}
use audio_engine_core.HttpSource.Policy.{Url}
use audio_engine_core.HttpSource.Stream.{
  RangeStream, SeekFrom, fetch, initial, move_to, new, read, seek, sought, range_prefetch,
}
use audio_engine_core.HttpSource.Stream.Reads.{IsOpen, Reads, read-Reads, fetch-take}

-- `Read::read_to_end` by a caller with a buffer of `n` bytes: reads until one gives nothing. `none`
-- is out of fuel.
unfoldable go_on : ℕ → Bytes → Option (Result ErrorKind Bytes) → Option (Result ErrorKind Bytes)
go_on x xs none = none
go_on x xs (some (err kind)) = some (err kind)
go_on x xs (some (ok more)) = some (ok (x ∷ xs ++ more))

module _ {W : Type 0} (net : Network W) (n : ℕ) where
  unfoldable pub read_to_end : ℕ → RangeStream → W → Option (Result ErrorKind Bytes)
  unfolding go_on
  read_to_end zero s w = none
  read_to_end (suc fuel) s w =
      let (w', r) = read net s n w in
      elim r [
        | err kind ↦ some (err kind)
        | ok got ↦
            let (t, bytes) = got in
            elim bytes [ [] ↦ some (ok []) | x ∷ xs ↦ go_on x xs (read_to_end fuel t w') ]
      ]

-- Where a position is a number of 64 bits, and what else is refused.
abbrev pub IsSought : RangeStream → Result ErrorKind (RangeStream × ℕ) → ℤ → Type 0
IsSought s r (pos p) =
    (p ≤ u64_max → r ≡ ok (record s { position = p }, p)) × (u64_max < p → r ≡ err invalid_input)
IsSought s r (negsuc p) = r ≡ err invalid_input

move_to-IsSought : (s : RangeStream) (z : ℤ) → IsSought s (move_to s z) z
unfolding move_to
move_to-IsSought s (pos p) = ground arith
move_to-IsSought s (negsuc p) = refl

-- A seek goes to the sum of its offset and what it counts from, when that is in 64 bits and not
-- negative; the stream then stands there, its buffer kept. Any other seek is refused.
pub seek_lem : (s : RangeStream) (to : SeekFrom) → IsSought s (seek s to) (sought s to)
unfolding seek
seek_lem s to = move_to-IsSought s (sought s to)

module _ {W : Type 0} (net : Network W) (pending : W → Bytes) (file : Bytes)
    (serves : Serves net pending file) where
  -- An error, or the file from the position on.
  abbrev IsRest : RangeStream → Option (Result ErrorKind Bytes) → Type 0
  IsRest s none = ⊥
  IsRest s (some (err kind)) = Unit
  IsRest s (some (ok bytes)) = bytes ≡ drop s.position file

  read_to_end-step :
      (s t : RangeStream) (n : ℕ) (x : ℕ) (xs : Bytes) (r : Option (Result ErrorKind Bytes))
      → Reads file s n t (x ∷ xs)
      → IsRest t r
      → IsRest s (go_on x xs r)
  unfolding go_on
  read_to_end-step s t n x xs none a h = h
  read_to_end-step s t n x xs (some (err kind)) a h = tt
  read_to_end-step s t n x xs (some (ok more)) a h =
      let count = length (x ∷ xs) in
      let behind : drop count (drop s.position file) ≡ more =
        drop-drop count s.position t.position file a.moved ∙ sym h in
      sym (
        sym (take-append-drop count (drop s.position file))
        ∙ ap (λ (b : Bytes). b ++ drop count (drop s.position file)) (sym a.read_bytes)
        ∙ ap (λ (b : Bytes). (x ∷ xs) ++ b) behind)

  past_end : (s t : RangeStream) (n : ℕ) → 0 < n → Reads file s n t [] → length file ≤ s.position
  past_end s t n p a = elim (Bool-cases (ltb s.position (length file))) [
    | inl before ↦ absurd (omega (arith, a.progress p (ltb→lt s.position (length file) before)))
    | inr after ↦ ltb→le s.position (length file) after
  ]

  there :
      (s t : RangeStream) (n : ℕ) (bytes : Bytes)
      → Reads file s n t bytes
      → length bytes ≤ length file - s.position
  there s t n bytes a = omega (
    arith,
    ap length a.read_bytes,
    length-take (length bytes) (drop s.position file),
    length-drop s.position file,
  )

  -- Where the server serves the file, reading to the end with a buffer that is not empty ends within
  -- one read for each byte left and one more, and gives, unless a read fails, exactly the file from
  -- the stream's position on.
  pub read_to_end-IsRest :
      (n fuel : ℕ) (s : RangeStream) (w : W)
      → IsOpen file s
      → 0 < n
      → length file - s.position < fuel
      → IsRest s (read_to_end net n fuel s w)
  unfolding read_to_end
  read_to_end-IsRest n zero s w o p f = absurd (omega arith)
  read_to_end-IsRest n (suc fuel) s w o p f = elim (Result-cases (read net s n w).1) [
    | inr (kind, g) ↦ rw (g, read_to_end) tt
    | inl (got, g) ↦
        let (t, bytes) = got in
        let a = read-Reads net pending file serves s n w t bytes o g in
        elim (List-cases bytes) [
          | inl z ↦
              let none_left = past_end s t n p (subst (Reads file s n t) z a) in
              rw (g, z, read_to_end) (sym (drop_of_le s.position file none_left))
          | inr (x, xs, z) ↦
              let some_read = subst (Reads file s n t) z a in
              let left : length file - t.position < fuel =
                omega (arith, some_read.moved, there s t n (x ∷ xs) some_read) in
              rw (g, z, read_to_end)
                (read_to_end-step s t n x xs (read_to_end net n fuel t (read net s n w).0) some_read
                  (read_to_end-IsRest n fuel t (read net s n w).0 some_read.open_ p left))
        ]
  ]

  initial-held :
      (url : Url) (credentials : Option HttpCredentials) (token : Option DecodeCancelToken)
      (probe : RangeFetch) (w : W) (body : Bytes) (content_type : Option Bytes)
      → probe.body ≡ take 1 (drop 0 file)
      → length probe.body ≡ 1
      → 1 ≤ length file
      → (initial net url credentials token probe w).1 ≡ ok (body, content_type)
      → (body ≡ take (length body) file) × (length body ≤ length file)
  unfolding initial
  initial-held url credentials token probe w body content_type b l p e =
      let len = min range_prefetch probe.total in
      elim (Bool-cases (len == 1)) [
        | inl one ↦
            let same : probe.body ≡ body = ground arith in
            rw (← same) (b ∙ ap (λ (k : ℕ). take k file) (sym l), omega (arith, l))
        | inr more ↦
            let r = fetch net url credentials 0 len (some probe.total) token w in
            elim (Result-cases r.1) [
              | inr (x, f) ↦ absurd (ground arith)
              | inl (first, f) ↦
                  let (c, m, inside, total, top) =
                    fetch-take net pending file serves url credentials 0 len (some probe.total)
                      token w first f in
                  let same : first.body ≡ body = ground arith in
                  rw (← same) (c ∙ ap (λ (k : ℕ). take k file) (sym m), omega (arith, m))
            ]
      ]

  -- Where the server serves a file, a stream that opens has its length, stands at its start and holds
  -- the file's first bytes.
  pub new-IsOpen :
      (url : Url) (credentials : Option HttpCredentials) (token : Option DecodeCancelToken) (w : W)
      (s : RangeStream)
      → (new net url credentials token w).1 ≡ ok s
      → IsOpen file s × (s.position ≡ 0) × (s.buffer_start ≡ 0)
  unfolding new
  new-IsOpen url credentials token w s e =
      let b = net.build_client 30 w in
      elim (Result-cases b.1) [
        | inr (x, f) ↦ absurd (ground arith)
        | inl (u, f) ↦
            let r = fetch net url credentials 0 1 none token b.0 in
            elim (Result-cases r.1) [
              | inr (x, g) ↦ absurd (ground arith)
              | inl (probe, g) ↦
                  let i = initial net url credentials token probe r.0 in
                  let (c, m, inside, total, top) =
                    fetch-take net pending file serves url credentials 0 1 none token b.0 probe g in
                  elim (Result-cases i.1) [
                    | inr (x, h) ↦ absurd (ground arith)
                    | inl (pair, h) ↦
                        let (body, kind) = pair in
                        let (held, small) =
                          initial-held url credentials token probe r.0 body kind c m (omega arith)
                            h in
                        let same : (s.buffer ≡ body)
                            × (s.buffer_start ≡ 0)
                            × (s.position ≡ 0)
                            × (s.content_length ≡ probe.total) =
                          ground arith in
                        (
                          record {
                            size = same.3 ∙ total;
                            fits = top;
                            inside = rw (same.1, same.0) (omega (arith, small));
                            held = rw (same.1, same.0) held;
                          },
                          same.2,
                          same.1,
                        )
                  ]
            ]
      ]

  abbrev pub Delivers : Option (Result ErrorKind Bytes) → Type 0
  Delivers none = ⊥
  Delivers (some (err kind)) = Unit
  Delivers (some (ok bytes)) = bytes ≡ file

  IsRest-Delivers :
      (s : RangeStream) (r : Option (Result ErrorKind Bytes))
      → s.position ≡ 0
      → IsRest s r
      → Delivers r
  IsRest-Delivers s none z h = h
  IsRest-Delivers s (some (err kind)) z h = h
  IsRest-Delivers s (some (ok bytes)) z h = h ∙ ap (λ (k : ℕ). drop k file) z

  -- Where the server serves a file, reading a stream that opened to its end, with a buffer that is not
  -- empty, ends within one read for each byte of the file and one more, and gives exactly the file,
  -- unless a read fails.
  pub new-read_to_end :
      (url : Url) (credentials : Option HttpCredentials) (token : Option DecodeCancelToken)
      (w v : W) (n fuel : ℕ) (s : RangeStream)
      → (new net url credentials token w).1 ≡ ok s
      → 0 < n
      → length file < fuel
      → Delivers (read_to_end net n fuel s v)
  new-read_to_end url credentials token w v n fuel s e p f =
      let (o, at, start) = new-IsOpen url credentials token w s e in
      IsRest-Delivers s (read_to_end net n fuel s v) at
        (read_to_end-IsRest n fuel s v o p (omega arith))
