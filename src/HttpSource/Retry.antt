-- ===== src/HttpSource/Retry.antt =====
-- The attempts of a retried request.
use audio_engine_core.Base.{
  ℕ, ◌≡◌, refl, ap, true, false, List, [], ◌∷◌, ◌++◌, arith, inl, inr, ◌⊎◌, Bool-cases,
}
use audio_engine_core.Base.Actions.{Action}
use audio_engine_core.Base.Results.{Result, ok, err, Result-cases}
use audio_engine_core.HttpSource.{
  NetworkError, is_retriable, network_backoff_delays, retry, with_network_retry,
}

module _ {W A : Type 0} (sleep : ℕ → W → W) (op : Action W NetworkError A) where
  -- Every attempt but the last failed with an error that is retriable, and was followed by one of
  -- these delays.
  pub data Tried : List ℕ → W → W × Result NetworkError A → Type 0 where
    last : (w : W) → Tried [] w (op w)
    again :
        {delays : List ℕ} {r : W × Result NetworkError A} (w : W) (delay : ℕ) (e : NetworkError)
        → (op w).1 ≡ err e
        → is_retriable e ≡ true
        → Tried delays (sleep delay (op w).0) r
        → Tried (delay ∷ delays) w r

  abbrev pub IsFinal : Result NetworkError A → Type 0
  IsFinal (ok a) = Unit
  IsFinal (err e) = is_retriable e ≡ false

  -- The delays waited, those that were left, and what the last attempt said.
  abbrev pub Tries : List ℕ → W → W × Result NetworkError A → Type 0
  Tries delays w r =
      (waited left : List ℕ) × (delays ≡ waited ++ left)
      × Tried waited w r
      × ((left ≡ []) ⊎ IsFinal r.1)

  retry_once :
      (delay : ℕ) (delays : List ℕ) (w : W) → IsFinal (op w).1 → Tries (delay ∷ delays) w (op w)
  retry_once delay delays w final = ([], delay ∷ delays, refl, last w, inr final)

  retry-Tries : (delays : List ℕ) (w : W) → Tries delays w (retry sleep op delays w)
  unfolding retry
  retry-Tries [] w = ([], [], refl, last w, inl refl)
  retry-Tries (delay ∷ delays) w = elim (Result-cases (op w).1) [
    | inl (a, f) ↦
        let same : retry sleep op (delay ∷ delays) w ≡ op w = ground arith in
        rw same (retry_once delay delays w (rw f tt))
    | inr (e, f) ↦ elim (Bool-cases (is_retriable e)) [
      | inl more ↦
          let (waited, left, split, tried, end) = retry-Tries delays (sleep delay (op w).0) in
          let same : retry sleep op (delay ∷ delays) w
              ≡ retry sleep op delays (sleep delay (op w).0) =
            ground arith in
          rw same (
            delay ∷ waited,
            left,
            ap (λ (t : List ℕ). delay ∷ t) split,
            again w delay e f more tried,
            end,
          )
      | inr final ↦
          let same : retry sleep op (delay ∷ delays) w ≡ op w = ground arith in
          rw same (retry_once delay delays w (rw f final))
    ]
  ]

  -- A retried call makes its attempts with the delays of the source between them, in order and from
  -- the first: it tries again only after a retriable error, and ends with the last attempt's result,
  -- which is a success, an error that is not retriable, or what came when no delay was left.
  pub with_network_retry-Tries :
      (w : W) → Tries network_backoff_delays w (with_network_retry sleep op w)
  unfolding with_network_retry
  with_network_retry-Tries w = retry-Tries network_backoff_delays w

  Tried-last :
      {delays : List ℕ} {w : W} {r : W × Result NetworkError A}
      → Tried delays w r
      → (v : W) × (r ≡ op v)
  Tried-last (last w) = (w, refl)
  Tried-last (again w delay x f more tried) = Tried-last tried

  -- What comes back is what one of the attempts gave.
  pub with_network_retry-last : (w : W) → (v : W) × (with_network_retry sleep op w ≡ op v)
  with_network_retry-last w =
      let (waited, left, split, tried, end) = with_network_retry-Tries w in Tried-last tried
