-- ===== src/Pipeline/Channel.antt =====
-- The word of a request: packing and reading it, and the exchange that is tried again.
use audio_engine_core.Base.{
  ℕ, ◌+◌, ◌*◌, ◌/◌, ◌%◌, ◌^◌, ◌<◌, ◌≡◌, refl, ap, Bool, true, false, Option, none, some, List, [],
  ◌∷◌, ◌++◌, arith, ◌==◌, if◌then◌else◌, Bool-cases, inl, inr, ◌⊎◌, ◌↔◌,
}
use audio_engine_core.Pipeline.{
  LifecycleChannel, next_request, publish_attempts, publish, requested, take_newer_than,
}

-- What a callback that has seen `seen` takes from a channel with that newest request.
abbrev pub taken : ℕ → ℕ → ℕ → ℕ → Option (ℕ × ℕ × ℕ)
taken seen generation kind fade_ms =
    if generation == seen then none else some (generation, kind, fade_ms)

-- While the generations have not used up their 40 bits, a request of an 8-bit kind and a 16-bit
-- fade is read back as it was made: the channel then shows the generation that the caller got, and
-- a callback that has seen another one takes it with its kind and its fade.
pub publish-take_newer_than :
    (c : LifecycleChannel) (kind fade_ms seen : ℕ)
    → kind < 2 ^ 8
    → fade_ms < 2 ^ 16
    → requested c + 1 < 2 ^ 40
    → ((publish c kind fade_ms).0 ≡ requested c + 1)
      × (requested (publish c kind fade_ms).1 ≡ requested c + 1)
      × (take_newer_than (publish c kind fade_ms).1 seen
          ≡ taken seen (requested c + 1) kind fade_ms)
unfolding publish next_request take_newer_than
publish-take_newer_than c kind fade_ms seen hk hf hg =
    let g : ℕ = c.request / 2 ^ 24 + 1 in
    let word : ℕ = g * 2 ^ 24 % 2 ^ 64 + fade_ms * 2 ^ 8 + kind in
    let top : word / 2 ^ 24 ≡ g = omega arith in
    let low : word % 2 ^ 8 ≡ kind = omega arith in
    let mid : word / 2 ^ 8 % 2 ^ 16 ≡ fade_ms = omega arith in (refl, top, ground arith)

-- The word that a controller has seen last, after these attempts.
unfoldable pub last_seen : ℕ → List (ℕ × Bool) → ℕ
last_seen current [] = current
last_seen current ((word, spurious) ∷ attempts) = last_seen word attempts

-- No attempt of these was an exchange: each failed spuriously, or met another word than the one
-- seen before it.
unfoldable pub Missed : ℕ → List (ℕ × Bool) → Type 0
Missed current [] = Unit {0}
Missed current ((word, spurious) ∷ attempts) =
    ((spurious ≡ true) ⊎ ¬ (word ≡ current)) × Missed word attempts

-- After attempts that missed comes one that meets the word seen before it, and it gives `r`.
abbrev pub TookEffect : ℕ → List (ℕ × Bool) → ℕ → ℕ → ℕ × ℕ → Type 0
TookEffect current attempts kind fade_ms r =
    (before : List (ℕ × Bool)) × (after : List (ℕ × Bool)) × (attempts
      ≡ before ++ ((last_seen current before, false) ∷ after))
    × Missed current before
    × (r ≡ next_request (last_seen current before) kind fade_ms)

later :
    (current word : ℕ) (spurious : Bool) (attempts : List (ℕ × Bool)) (kind fade_ms : ℕ) (r : ℕ × ℕ)
    → (spurious ≡ true) ⊎ ¬ (word ≡ current)
    → TookEffect word attempts kind fade_ms r
    → TookEffect current ((word, spurious) ∷ attempts) kind fade_ms r
unfolding last_seen Missed
later current word spurious attempts kind fade_ms r missed (before, after, e, all, made) = (
  (word, spurious) ∷ before,
  after,
  ap (λ (t : List (ℕ × Bool)). (word, spurious) ∷ t) e,
  (missed, all),
  made,
)

published :
    (current : ℕ) (attempts : List (ℕ × Bool)) (kind fade_ms : ℕ) {r : ℕ × ℕ}
    → publish_attempts current attempts kind fade_ms ≡ some r
    → TookEffect current attempts kind fade_ms r
unfolding publish_attempts last_seen Missed
published current [] kind fade_ms e = absurd (ground arith)
published current ((w, true) ∷ attempts) kind fade_ms {r} e =
    later current w true attempts kind fade_ms r (inl refl)
      (published w attempts kind fade_ms {r = r} (ground arith))
published current ((w, false) ∷ attempts) kind fade_ms {r} e = elim (Bool-cases (w == current)) [
  | inl same ↦ ([], attempts, ground arith, tt, ground arith)
  | inr other ↦
      later current w false attempts kind fade_ms r (inr λ h. ground (arith, other, h))
        (published w attempts kind fade_ms {r = r} (ground arith))
]

took_effect :
    (current : ℕ) (before after : List (ℕ × Bool)) (kind fade_ms : ℕ)
    → Missed current before
    → publish_attempts current (before ++ ((last_seen current before, false) ∷ after)) kind fade_ms
      ≡ some (next_request (last_seen current before) kind fade_ms)
unfolding publish_attempts last_seen Missed
took_effect current [] after kind fade_ms m = ground arith
took_effect current ((w, spurious) ∷ before) after kind fade_ms (missed, m) =
    let rest = took_effect w before after kind fade_ms m in ground (arith, missed, rest)

-- A request returns exactly when, after attempts that failed spuriously or met another word than the
-- one seen before them, an attempt meets the word seen before it; it returns the generation and has
-- stored the word that follow that one, whatever other controllers wrote between its attempts.
pub publish_attempts-next_request :
    (current : ℕ) (attempts : List (ℕ × Bool)) (kind fade_ms : ℕ) (r : ℕ × ℕ)
    → (publish_attempts current attempts kind fade_ms ≡ some r)
      ↔ TookEffect current attempts kind fade_ms r
publish_attempts-next_request current attempts kind fade_ms r = (
  λ e. published current attempts kind fade_ms {r = r} e,
  λ (before, after, e, missed, made).
      rw (e, made) (took_effect current before after kind fade_ms missed),
)
