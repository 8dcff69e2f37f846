-- ===== src/DspChain/Composed.antt =====
-- What a chain composes of its stages: `add`, `latency` and `tail`.
use audio_engine_core.Base.{
  ◌⊎◌, Bool-cases, ℕ, inl, inr, ◌≢◌, true, false, not, ◌&&◌, ◌||◌, ◌≡◌, List, [], ◌∷◌, ◌++◌, arith,
  ◌==◌, if◌then◌else◌, length, u64_max, refl,
}
use audio_engine_core.Base.Results.{Result, Result-cases, ok, err, ◌>>=◌, ◌>>◌, refuse}
use audio_engine_core.Float.{Float}
use audio_engine_core.Timing.{
  FrameDuration, TailSpec, no_tail, finite, unknown, infinite, duration_zero, duration_new,
  tail_finite,
}
use audio_engine_core.Traits.{
  ProcessError, Outcome, unsupported_operation, invalid_sample_rate, StreamingProcessor,
  unknown_tail, validate_sample_rate_hz,
}
use audio_engine_core.DspChain.{DspChain}
use audio_engine_core.DspChain.Finish.{frames_at_rate}

module _ (N : Float) {S : Type 0} (P : StreamingProcessor N.F S) where
  open N use {F}

  unfoldable pub add : DspChain F S → S → Outcome (Unit {0}) × DspChain F S
  add c s =
      let accepted : Outcome (Unit {0}) = (do
        validate_sample_rate_hz "DspChain" c.sample_rate_hz
        stage_output_rate ← P.output_sample_rate_hz s c.sample_rate_hz
        refuse (not (stage_output_rate == c.sample_rate_hz)) (
            unsupported_operation (P.name s) "DspChain::add"
              "DspChain drives a fixed in-place 1:1 topology at one rate; a rate-transforming stage belongs in the offline OutputRenderChain")) in
      elim accepted [
        | err e ↦ (err e, c)
        | ok _ ↦ (ok tt, record c { processors = c.processors ++ (s ∷ []) })
      ]

  -- The latencies that have a value at the rate of the chain.
  sum_latency : ℕ → F → List S → F
  sum_latency rate total [] = total
  sum_latency rate total (s ∷ stages) = elim (frames_at_rate N (P.latency s) rate) [
    | ok frames ↦ sum_latency rate (N.add total frames) stages
    | err e ↦ sum_latency rate total stages
  ]

  -- `DspChain::latency`
  pub latency : DspChain F S → FrameDuration
  latency c =
      let total = sum_latency c.sample_rate_hz N.zero c.processors in
      if not (N.is_finite total)
        || (N.lt total N.zero || (N.eq total N.zero || c.sample_rate_hz == 0))
      then duration_zero
      else elim (duration_new (N.round_usize total) c.sample_rate_hz) [
        | ok duration ↦ duration
        | err e ↦ duration_zero
      ]

  -- The finite tails' frames after `total`, or the tail that dominates them.
  unfoldable pub sum_tail : ℕ → F → List S → Result TailSpec F
  sum_tail rate total [] = ok total
  sum_tail rate total (s ∷ stages) = elim (P.tail s) [
    | no_tail ↦ sum_tail rate total stages
    | unknown ↦ err unknown
    | infinite ↦ err infinite
    | finite duration ↦ (elim (frames_at_rate N duration rate) [
      | err e ↦ err unknown
      | ok frames ↦
          if N.is_finite frames && not (N.lt frames N.zero)
          then sum_tail rate (N.add total frames) stages
          else err unknown
    ])
  ]

  -- `DspChain::tail`
  unfoldable pub tail : DspChain F S → TailSpec
  tail c =
      if length c.processors == 0
      then no_tail
      else elim (sum_tail c.sample_rate_hz N.zero c.processors) [
        | err dominant ↦ dominant
        | ok frames ↦
            if not (N.is_finite frames) || N.lt (N.of_ℕ u64_max) frames
            then unknown
            else elim (tail_finite (N.ceil_usize frames) c.sample_rate_hz) [
              | ok spec ↦ spec
              | err e ↦ unknown
            ]
      ]

  -- No stage has a tail without a known end.
  abbrev pub AllBounded : List S → Type 0
  AllBounded [] = Unit
  AllBounded (s ∷ stages) = (unknown_tail (P.tail s) ≡ false) × AllBounded stages

  sum_tail-AllBounded :
      (rate : ℕ) (total : F) (stages : List S) {frames : F}
      → sum_tail rate total stages ≡ ok frames
      → AllBounded stages
  unfolding sum_tail
  sum_tail-AllBounded rate total [] e = tt
  sum_tail-AllBounded rate total (s ∷ stages) {frames} e =
      go (P.tail s) refl (λ t h. sum_tail-AllBounded rate t stages {frames = frames} h)
    where
      go :
          (t : TailSpec)
          → P.tail s ≡ t
          → ((start : F) → sum_tail rate start stages ≡ ok frames → AllBounded stages)
          → (unknown_tail (P.tail s) ≡ false) × AllBounded stages
      go no_tail k later = (ground arith, later total (ground arith))
      go unknown k later = absurd (ground arith)
      go infinite k later = absurd (ground arith)
      go (finite d) k later = elim (Result-cases (frames_at_rate N d rate)) [
        | inl (n, q) ↦ (ground arith, later (N.add total n) (ground arith))
        | inr (x, q) ↦ absurd (ground arith)
      ]

  sum_tail-dominant :
      (rate : ℕ) (total : F) (stages : List S) {spec : TailSpec}
      → sum_tail rate total stages ≡ err spec
      → unknown_tail spec ≡ true
  unfolding sum_tail
  sum_tail-dominant rate total [] e = absurd (ground arith)
  sum_tail-dominant rate total (s ∷ stages) {spec} e =
      go (P.tail s) refl (λ t h. sum_tail-dominant rate t stages {spec = spec} h)
    where
      go :
          (t : TailSpec)
          → P.tail s ≡ t
          → ((start : F) → sum_tail rate start stages ≡ err spec → unknown_tail spec ≡ true)
          → unknown_tail spec ≡ true
      go no_tail k later = later total (ground arith)
      go unknown k later = ground arith
      go infinite k later = ground arith
      go (finite d) k later = elim (Result-cases (frames_at_rate N d rate)) [
        | inl (n, q) ↦ elim (Bool-cases (N.is_finite n && not (N.lt n N.zero))) [
          | inl good ↦ later (N.add total n) (ground arith)
          | inr bad ↦ ground arith
        ]
        | inr (x, q) ↦ ground arith
      ]

  no_stages-AllBounded : (stages : List S) → length stages ≡ 0 → AllBounded stages
  no_stages-AllBounded [] e = tt
  no_stages-AllBounded (s ∷ stages) e = absurd (omega arith)

  -- The tail of a chain has a known end only if every stage's tail has one.
  pub tail-AllBounded : (c : DspChain F S) → unknown_tail (tail c) ≡ false → AllBounded c.processors
  unfolding tail
  tail-AllBounded c h = elim (Result-cases (sum_tail c.sample_rate_hz N.zero c.processors)) [
    | inl (frames, e) ↦ sum_tail-AllBounded c.sample_rate_hz N.zero c.processors {frames = frames} e
    | inr (dominant, e) ↦ elim (Bool-cases (length c.processors == 0)) [
      | inl empty ↦ no_stages-AllBounded c.processors (ground arith)
      | inr staged ↦ absurd (
          ground
            (arith, sum_tail-dominant c.sample_rate_hz N.zero c.processors {spec = dominant} e))
    ]
  ]

  abbrev pub MapsToItself : DspChain F S → S → Type 0
  MapsToItself c s =
      (c.sample_rate_hz ≢ 0) × (P.output_sample_rate_hz s c.sample_rate_hz ≡ ok c.sample_rate_hz)

  -- A chain accepts a stage exactly when the chain's rate is positive and the stage maps it to
  -- itself. An accepted stage comes last, and a refused one changes nothing.
  pub add-last :
      (c : DspChain F S) (s : S)
      → (MapsToItself c s × (add c s ≡ (ok tt, record c { processors = c.processors ++ (s ∷ []) })))
        ⊎ ((MapsToItself c s → ⊥) × ((e : ProcessError) × (add c s ≡ (err e, c))))
  unfolding add validate_sample_rate_hz
  add-last c s = elim (Bool-cases (c.sample_rate_hz == 0)) [
    | inl zero_rate ↦
        inr (λ m. ground arith, (invalid_sample_rate "DspChain" c.sample_rate_hz, ground arith))
    | inr positive ↦ elim (Result-cases (P.output_sample_rate_hz s c.sample_rate_hz)) [
      | inr (x, e) ↦ inr (λ m. ground arith, (x, ground arith))
      | inl (rate, e) ↦ elim (Bool-cases (rate == c.sample_rate_hz)) [
        | inl same ↦ inl ((ground arith, ground arith), ground arith)
        | inr other ↦ inr (
          λ m. ground arith,
          (
            unsupported_operation (P.name s) "DspChain::add"
                "DspChain drives a fixed in-place 1:1 topology at one rate; a rate-transforming stage belongs in the offline OutputRenderChain",
            ground arith,
          ),
        )
      ]
    ]
  ]
