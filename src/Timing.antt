-- ===== src/Timing.antt =====
-- src/processor/traits.rs, `FrameDuration` and `TailSpec`: frame counts between sample rates.
use audio_engine_core.Base.{
  suc, ==_iff, ne→==, ℕ, ◌+◌, ◌*◌, ◌/◌, ◌%◌, ◌^◌, ◌≤◌, ◌<◌, ◌≡◌, ◌≢◌, Option, none, some, arith,
  ltb, ◌==◌, if◌then◌else◌,
}
use audio_engine_core.Base.Results.{Result, ok, err, ◌>>=◌, ◌>>◌, refuse}
use native.Mathlib.Nat.{
  div-add-mod, mul-div_cancel, mul-mod_left, mul-le-mul_right, mod-lt, div-eq_of_lt-le,
}
use native.Mathlib.Decide.{ℕ_discrete, dec_lt}

pub data TimingError : Type 0 where
  zero_sample_rate frame_count_overflow : TimingError

pub data FrameRounding : Type 0 where
  floor nearest ceil : FrameRounding

-- The rate of a duration of no frames may be missing; a rate is never 0.
pub record FrameDuration : Type 0 where
  pub frames : ℕ
  pub sample_rate_hz : Option ℕ

abbrev pub duration_zero : FrameDuration
duration_zero = record { frames = 0; sample_rate_hz = none }

unfoldable pub duration_new : ℕ → ℕ → Result TimingError FrameDuration
duration_new frames rate = do
  refuse (rate == 0) zero_sample_rate
  ok (record { frames = frames; sample_rate_hz = some rate })

-- `u128::div_ceil`
abbrev pub div_ceil : ℕ → ℕ → ℕ
div_ceil n d = if n % d == 0 then n / d else n / d + 1

unfoldable pub rounded : FrameRounding → ℕ → ℕ → ℕ
rounded floor n d = n / d
rounded nearest n d = (n + d / 2) / d
rounded ceil n d = div_ceil n d

-- `usize::try_from`
unfoldable pub fit_usize : ℕ → Result TimingError ℕ
fit_usize n = if ltb n (2 ^ 64) then ok n else err frame_count_overflow

-- The products fit in a `u128`: frames are below 2^64 and rates below 2^32.
unfoldable pub rounded_frames_at_rate : FrameDuration → ℕ → FrameRounding → Result TimingError ℕ
unfolding fit_usize
rounded_frames_at_rate d target rounding = do
  refuse (target == 0) zero_sample_rate
  elim d.sample_rate_hz [
    | none ↦ ok 0
    | some source ↦ fit_usize (rounded rounding (d.frames * target) source)
  ]

pub data TailSpec : Type 0 where
  no_tail : TailSpec
  finite : FrameDuration → TailSpec
  unknown : TailSpec
  infinite : TailSpec

unfoldable pub tail_finite : ℕ → ℕ → Result TimingError TailSpec
unfolding duration_new
tail_finite frames rate =
    if frames == 0
    then (do refuse (rate == 0) zero_sample_rate; ok no_tail)
    else (do d ← duration_new frames rate; ok (finite d))

unfoldable pub finite_duration : TailSpec → Option FrameDuration
finite_duration no_tail = some duration_zero
finite_duration (finite d) = some d
finite_duration unknown = none
finite_duration infinite = none

ceil_bounds : (n d : ℕ) → d ≢ 0 → (n ≤ div_ceil n d * d) × (div_ceil n d * d < n + d)
ceil_bounds n d h = elim (ℕ_discrete (n % d) 0) [
  | yes e ↦
      rw ((==_iff (n % d) 0).1 e) (omega (arith, div-add-mod n d), omega (arith, div-add-mod n d))
  | no ne ↦ rw (ne→== (n % d) 0 ne) (omega (arith, div-add-mod n d), omega (arith, div-add-mod n d))
]

-- Multiples of `d` are at least `d` apart.
le_of_mul-lt : (a b d : ℕ) → a * d < b * d + d → a ≤ b
le_of_mul-lt a b d h = elim (dec_lt b a) [
  | yes lt ↦ absurd (omega (arith, mul-le-mul_right {m = suc b} {n = a} d lt))
  | no ge ↦ omega arith
]

-- For a rate that is not 0 the three roundings lie in order, the outer ones one apart at most, and
-- the exact quotient between them.
pub rounded_order :
    (n d : ℕ)
    → d ≢ 0
    → (rounded floor n d ≤ rounded nearest n d)
      × (rounded nearest n d ≤ rounded ceil n d)
      × (rounded ceil n d ≤ rounded floor n d + 1)
      × (rounded floor n d * d ≤ n)
      × (n ≤ rounded ceil n d * d)
unfolding rounded
rounded_order n d h = (
  le_of_mul-lt (n / d) near d
      (omega (arith, div-add-mod n d, div-add-mod (n + d / 2) d, mod-lt (n + d / 2) pos)),
  le_of_mul-lt near (div_ceil n d) d (omega (arith, ceil_bounds n d h, div-add-mod (n + d / 2) d)),
  le_of_mul-lt (div_ceil n d) (n / d + 1) d
      (omega (arith, ceil_bounds n d h, div-add-mod n d, mod-lt n pos)),
  omega (arith, div-add-mod n d),
  (ceil_bounds n d h).0,
)
  where
    near : ℕ
    near = (n + d / 2) / d

    pos : 0 < d
    pos = omega arith

-- For a rate that is not 0, the nearest rounding is no more than half a frame off, either way.
pub rounded-nearest :
    (n d : ℕ)
    → d ≢ 0
    → (2 * (rounded nearest n d * d) ≤ 2 * n + d) × (2 * n ≤ 2 * (rounded nearest n d * d) + d)
unfolding rounded
rounded-nearest n d h = omega (arith, div-add-mod (n + d / 2) d)

exact :
    (rounding : FrameRounding) (frames rate : ℕ)
    → rate ≢ 0
    → rounded rounding (frames * rate) rate ≡ frames
unfolding rounded
exact floor frames rate h = mul-div_cancel frames (omega arith)
exact nearest frames rate h =
    div-eq_of_lt-le rate {m = frames * rate + rate / 2} (omega arith) (omega arith)
exact ceil frames rate h =
    ground (arith, mul-div_cancel frames {n = rate}, mul-mod_left frames rate)

-- A duration of fewer than 2^64 frames that was made for a rate keeps its frames at that rate,
-- however it is rounded.
pub rounded_frames_at_rate_self :
    (frames rate : ℕ) (rounding : FrameRounding) {d : FrameDuration}
    → frames < 2 ^ 64
    → duration_new frames rate ≡ ok d
    → rounded_frames_at_rate d rate rounding ≡ ok frames
unfolding rounded_frames_at_rate duration_new
rounded_frames_at_rate_self frames rate floor h e = ground (arith, exact floor frames rate)
rounded_frames_at_rate_self frames rate nearest h e = ground (arith, exact nearest frames rate)
rounded_frames_at_rate_self frames rate ceil h e = ground (arith, exact ceil frames rate)
