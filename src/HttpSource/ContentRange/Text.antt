-- ===== src/HttpSource/ContentRange/Text.antt =====
-- The text functions of the header parser and the decimal numbers.
use audio_engine_core.Base.{
  ℕ, ◌+◌, ◌-◌, ◌*◌, ◌≤◌, ◌≡◌, refl, ap, true, false, ◌||◌, some, [], ◌∷◌, ◌++◌, arith, u64_max,
  ◌==◌, inl, inr, Bool-cases, Option-cases, ==_iff,
}
use audio_engine_core.Base.Results.{ok}
use audio_engine_core.HttpSource.{Bytes, Field}
use audio_engine_core.HttpSource.ContentRange.{
  strip_prefix, split_once, contains, all_digits, is_ascii_digit, parse_u64, parse_range_number,
  is_empty,
}

pub strip_prefix-append : (p s : Bytes) → strip_prefix p (p ++ s) ≡ some s
unfolding strip_prefix
strip_prefix-append [] s = refl
strip_prefix-append (c ∷ p) s = rw ((==_iff c c).1 refl) (strip_prefix-append p s)

pub strip_prefix_sound : (p s : Bytes) {r : Bytes} → strip_prefix p s ≡ some r → s ≡ p ++ r
unfolding strip_prefix
strip_prefix_sound [] s e = ground arith
strip_prefix_sound (c ∷ p) [] e = absurd (ground arith)
strip_prefix_sound (c ∷ p) (d ∷ s) {r} e = ground (arith, strip_prefix_sound p s {r = r})

pub split_once-append :
    (at : ℕ) (a b : Bytes) → contains at a ≡ false → split_once at (a ++ at ∷ b) ≡ some (a, b)
unfolding split_once contains
split_once-append at [] b h = rw ((==_iff at at).1 refl) refl
split_once-append at (c ∷ a) b h = elim (Bool-cases (c == at)) [
  | inl same ↦ absurd (ground arith)
  | inr other ↦ rw (other, split_once-append at a b (ground arith)) refl
]

pub split_once_sound :
    (at : ℕ) (s : Bytes) {a b : Bytes} → split_once at s ≡ some (a, b) → s ≡ a ++ at ∷ b
unfolding split_once
split_once_sound at [] e = absurd (ground arith)
split_once_sound at (c ∷ s) {a} {b} e = elim (Bool-cases (c == at)) [
  | inl same ↦
      let ea : ◌≡◌ {A = Bytes} a [] = ground arith in
      let eb : ◌≡◌ {A = Bytes} b s = ground arith in rw (ea, eb, (==_iff c at).0 same) refl
  | inr other ↦ elim (Option-cases (split_once at s)) [
    | inl stuck ↦ absurd (ground arith)
    | inr (pair, found) ↦
        let (a', b') = pair in
        let ea : ◌≡◌ {A = Bytes} a (c ∷ a') = ground arith in
        let eb : ◌≡◌ {A = Bytes} b b' = ground arith in
        rw (ea, eb) (ap (λ (t : Bytes). c ∷ t) (split_once_sound at s {a = a'} {b = b'} found))
  ]
]

pub contains-append : (c : ℕ) (a b : Bytes) → contains c (a ++ b) ≡ (contains c a || contains c b)
unfolding contains
contains-append c [] b = refl
contains-append c (d ∷ a) b = ground (arith, contains-append c a b)

pub contains-all_digits :
    (c : ℕ) (s : Bytes) → is_ascii_digit c ≡ false → all_digits s ≡ true → contains c s ≡ false
unfolding contains all_digits
contains-all_digits c [] n h = refl
contains-all_digits c (d ∷ s) n h = ground (arith, contains-all_digits c s n)

-- the number that digits spell behind `n`, with no bound
abbrev pub value : ℕ → Bytes → ℕ
value n [] = n
value n (c ∷ s) = value (n * 10 + (c - b'0')) s

le-value : (n : ℕ) (s : Bytes) → n ≤ value n s
le-value n [] = omega arith
le-value n (c ∷ s) = omega (arith, le-value (n * 10 + (c - b'0')) s)

parse_u64_sound :
    (n : ℕ) (s : Bytes) {r : ℕ}
    → n ≤ u64_max
    → parse_u64 n s ≡ some r
    → (value n s ≡ r) × (r ≤ u64_max)
unfolding parse_u64
parse_u64_sound n [] b e = ground arith
parse_u64_sound n (c ∷ s) {r} b e = ground (arith, parse_u64_sound (n * 10 + (c - b'0')) s {r = r})

parse_u64_complete : (n : ℕ) (s : Bytes) → value n s ≤ u64_max → parse_u64 n s ≡ some (value n s)
unfolding parse_u64
parse_u64_complete n [] b = refl
parse_u64_complete n (c ∷ s) b =
    ground (arith, parse_u64_complete (n * 10 + (c - b'0')) s b, le-value (n * 10 + (c - b'0')) s)

-- `s` is one or more decimal digits that spell `n`, which fits 64 bits.
abbrev pub Spells : Bytes → ℕ → Type 0
Spells s n = (is_empty s ≡ false) × (all_digits s ≡ true) × (value 0 s ≡ n) × (n ≤ u64_max)

pub parse_range_number-Spells :
    (field : Field) (s : Bytes) {n : ℕ} → parse_range_number field s ≡ ok n → Spells s n
unfolding parse_range_number
parse_range_number-Spells field s {n} e = ground (arith, parse_u64_sound 0 s {r = n} (omega arith))

pub parse_range_number_of_Spells :
    (field : Field) (s : Bytes) {n : ℕ} → Spells s n → parse_range_number field s ≡ ok n
unfolding parse_range_number
parse_range_number_of_Spells field s (some_digit, digits, spelled, fits) =
    rw (some_digit, digits, parse_u64_complete 0 s (omega arith)) (ap ok spelled)
