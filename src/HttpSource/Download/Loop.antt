-- ===== src/HttpSource/Download/Loop.antt =====
-- The loop of a download: its rounds and its limit.
use audio_engine_core.Base.{
  ℕ, zero, suc, ◌-◌, ◌≤◌, ◌<◌, ◌≡◌, true, Option, ◌∷◌, ◌++◌, arith, u64_max, saturating_add, ltb,
  length, length-append, List-cases, inl, inr,
}
use audio_engine_core.Base.Results.{ok, Result-cases}
use audio_engine_core.HttpSource.{Bytes}
use audio_engine_core.HttpSource.Fetch.{
  Network, DecodeCancelToken, check_cancelled, read_chunk_size,
}
use audio_engine_core.HttpSource.Download.{download_loop}

module _ {W : Type 0} (net : Network W) where
  -- Rounds past the room left in the buffer change nothing.
  pub download_loop_rounds :
      (token : Option DecodeCancelToken) (max rounds : ℕ) (buffer : Bytes) (w : W)
      → max < u64_max
      → length buffer ≤ max
      → max - length buffer ≤ rounds
      → download_loop net token max (suc (suc rounds)) buffer w
        ≡ download_loop net token max (suc rounds) buffer w
  unfolding download_loop
  download_loop_rounds token max zero buffer w b f h =
      let c = check_cancelled net token w in
      let r = net.read read_chunk_size c.0 in
      elim (Result-cases c.1) [
        | inr (x, g) ↦ ground arith
        | inl (u, g) ↦ elim (Result-cases r.1) [
          | inr (x, k) ↦ ground arith
          | inl (chunk, k) ↦ elim (List-cases chunk) [
            | inl z ↦ ground arith
            | inr (x, xs, z) ↦
                let over : ltb max (saturating_add (length buffer) (length (x ∷ xs))) ≡ true =
                  ground arith in
                ground arith
          ]
        ]
      ]
  download_loop_rounds token max (suc rounds) buffer w b f h =
      let c = check_cancelled net token w in
      let r = net.read read_chunk_size c.0 in
      elim (Result-cases c.1) [
        | inr (x, g) ↦ ground arith
        | inl (u, g) ↦ elim (Result-cases r.1) [
          | inr (x, k) ↦ ground arith
          | inl (chunk, k) ↦ elim (List-cases chunk) [
            | inl z ↦ ground arith
            | inr (x, xs, z) ↦ ground (
              arith,
              length-append buffer (x ∷ xs),
              download_loop_rounds token max rounds (buffer ++ x ∷ xs) r.0 b,
            )
          ]
        ]
      ]

  pub download_loop-bounds :
      (token : Option DecodeCancelToken) (max rounds : ℕ) (buffer : Bytes) (w : W) (file : Bytes)
      → max < u64_max
      → length buffer ≤ max
      → (download_loop net token max rounds buffer w).1 ≡ ok file
      → length file ≤ max
  unfolding download_loop
  download_loop-bounds token max zero buffer w file b f e = absurd (ground arith)
  download_loop-bounds token max (suc rounds) buffer w file b f e =
      let c = check_cancelled net token w in
      let r = net.read read_chunk_size c.0 in
      elim (Result-cases c.1) [
        | inr (x, g) ↦ absurd (ground arith)
        | inl (u, g) ↦ elim (Result-cases r.1) [
          | inr (x, h) ↦ absurd (ground arith)
          | inl (chunk, h) ↦ elim (List-cases chunk) [
            | inl z ↦ ground arith
            | inr (x, xs, z) ↦ ground (
              arith,
              length-append buffer (x ∷ xs),
              download_loop-bounds token max rounds (buffer ++ x ∷ xs) r.0 file b,
            )
          ]
        ]
      ]
