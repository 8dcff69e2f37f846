-- ===== src/HttpSource/Fetch/Body.antt =====
-- Reading the body of a response.
use mathlib.Core.List.{append_assoc}
use audio_engine_core.Base.{
  ℕ, zero, suc, ◌==◌, ◌+◌, ◌-◌, ◌≤◌, ◌≡◌, min, refl, Option, none, some, [], ◌∷◌, ◌++◌, arith,
  length, inl, inr, Bool-cases, List-cases,
}
use audio_engine_core.Base.Results.{ok, Result-cases}
use audio_engine_core.HttpSource.{Bytes}
use audio_engine_core.HttpSource.Fetch.{
  Network, DecodeCancelToken, read_chunk_size, check_cancelled, read_loop, read_bounded_body,
}

-- `pending` is what the body of the last response has left, to which the other operations of the
-- network on the way add nothing.
pub record Streams {W : Type 0} (net : Network W) (pending : W → Bytes) : Type 0 where
  pub reads :
      (n : ℕ) (w : W) (chunk : Bytes)
      → (net.read n w).1 ≡ ok chunk
      → pending w ≡ chunk ++ pending (net.read n w).0
  pub loads : (at : ℕ) (w : W) → pending (net.load at w).0 ≡ pending w

module _ {W : Type 0} (net : Network W) where
  -- Rounds past the limit change nothing.
  pub read_loop_rounds :
      (token : Option DecodeCancelToken) (expected_len rounds limit : ℕ) (body : Bytes) (w : W)
      → limit ≤ rounds
      → read_loop net token expected_len (suc rounds) limit body w
        ≡ read_loop net token expected_len rounds limit body w
  unfolding read_loop
  read_loop_rounds token expected_len zero limit body w h = ground arith
  read_loop_rounds token expected_len (suc rounds) limit body w h =
      grind (arith, read_loop_rounds token expected_len rounds)

  pub length-read_bounded_body :
      (token : Option DecodeCancelToken) (expected_len : ℕ) (w : W) (b : Bytes)
      → (read_bounded_body net token expected_len w).1 ≡ ok b
      → length b ≡ expected_len
  unfolding read_bounded_body
  length-read_bounded_body token expected_len w b e =
      let l = read_loop net token expected_len (expected_len + 1) (expected_len + 1) [] w in
      elim (Result-cases l.1) [ inr (x, f) ↦ absurd (ground arith) | inl (body, f) ↦ ground arith ]

module _ {W : Type 0} (net : Network W) (pending : W → Bytes) (s : Streams net pending) where
  pub pending-check_cancelled :
      (token : Option DecodeCancelToken) (w : W)
      → pending (check_cancelled net token w).0 ≡ pending w
  unfolding check_cancelled
  pending-check_cancelled none w = refl
  pending-check_cancelled (some token) w = s.loads token.cancelled w

  -- What the loop returns and what it leaves is what it had and what it met.
  pub read_loop-append :
      (token : Option DecodeCancelToken) (expected_len rounds limit : ℕ) (body : Bytes) (w : W)
      (b : Bytes)
      → (read_loop net token expected_len rounds limit body w).1 ≡ ok b
      → body ++ pending w ≡ b ++ pending (read_loop net token expected_len rounds limit body w).0
  unfolding read_loop
  read_loop-append token expected_len zero limit body w b e =
      ground (arith, pending-check_cancelled token w)
  read_loop-append token expected_len (suc rounds) limit body w b e =
      let c = check_cancelled net token w in
      let r = net.read (min read_chunk_size limit) c.0 in
      let kept : pending c.0 ≡ pending w = pending-check_cancelled token w in
      elim (Result-cases c.1) [
        | inr (x, f) ↦ absurd (ground arith)
        | inl (u, f) ↦ elim (Bool-cases (limit == 0)) [
          | inl z ↦ ground arith
          | inr more ↦ elim (Result-cases r.1) [
            | inr (x, g) ↦ absurd (ground arith)
            | inl (chunk, g) ↦
                let met : pending c.0 ≡ chunk ++ pending r.0 =
                  s.reads (min read_chunk_size limit) c.0 chunk g in
                elim (List-cases chunk) [
                  | inl z ↦ ground arith
                  | inr (x, xs, z) ↦ ground (
                    arith,
                    append_assoc body (x ∷ xs) (pending r.0),
                    read_loop-append token expected_len rounds (limit - suc (length xs))
                        (body ++ x ∷ xs) r.0 b,
                  )
                ]
          ]
        ]
      ]

  pub read_bounded_body-append :
      (token : Option DecodeCancelToken) (expected_len : ℕ) (w : W) (b : Bytes)
      → (read_bounded_body net token expected_len w).1 ≡ ok b
      → (length b ≡ expected_len) × (rest : Bytes) × (pending w ≡ b ++ rest)
  unfolding read_bounded_body
  read_bounded_body-append token expected_len w b e =
      let l = read_loop net token expected_len (expected_len + 1) (expected_len + 1) [] w in
      elim (Result-cases l.1) [
        | inr (x, f) ↦ absurd (ground arith)
        | inl (body, f) ↦
            let all : pending w ≡ body ++ pending l.0 =
              read_loop-append token expected_len (expected_len + 1) (expected_len + 1) [] w body
                f in
            let found : (length b ≡ expected_len) × (body ≡ b) = ground arith in
            (found.0, pending l.0, rw (← found.1) all)
      ]
