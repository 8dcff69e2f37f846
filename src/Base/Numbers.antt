-- ===== src/Base/Numbers.antt =====
-- Machine integers: `u64` and `usize` are 64 bits wide.
use Prim.Native.Nat.{ℕ, ◌+◌, ◌-◌, ◌*◌, ◌/◌, ◌%◌, ◌^◌, ◌<◌, ◌≤◌, min}
use mathlib.Core.Path.{◌≡◌, sym, ap, ◌∙◌}
use native.Mathlib.Omega.{arith}
use native.Mathlib.Nat.{mod-eq_of_lt, mul-add-mod_self_left, div-add-mod, mul-le-mul_right}

abbrev pub u64_max : ℕ
u64_max = 2 ^ 64 - 1

-- `u64::saturating_add`, `u64::saturating_mul`
abbrev pub saturating_add : ℕ → ℕ → ℕ
saturating_add a b = min (a + b) u64_max

abbrev pub saturating_mul : ℕ → ℕ → ℕ
saturating_mul a b = min (a * b) u64_max

-- `u64::wrapping_add`, and `AtomicU64::fetch_add`
abbrev pub wrapping_add : ℕ → ℕ → ℕ
wrapping_add a b = (a + b) % 2 ^ 64

-- Frames against samples: `n` frames of `c` samples.
pub mod-mul : (n m c : ℕ) → 0 < m → 0 < c → n % m * c ≡ n * c % (m * c)
mod-mul n m c pm pc =
    sym (mod-eq_of_lt {n = n % m * c} {m = m * c} (grind arith))
    ∙ sym (mul-add-mod_self_left (m * c) (n / m) (n % m * c))
    ∙ ap (λ (t : ℕ). t % (m * c)) (omega (arith, ap (λ (t : ℕ). t * c) (div-add-mod n m)))

pub lt-mul_right : {a b : ℕ} (c : ℕ) → 0 < c → a < b → a * c < b * c
lt-mul_right c p h = omega (arith, mul-le-mul_right c h)

pub sub-mul-add : (a b c : ℕ) → b ≤ a → (a - b) * c + b * c ≡ a * c
sub-mul-add a b c h = let e : a - b + b ≡ a = omega arith in omega (arith, ap (λ (t : ℕ). t * c) e)
