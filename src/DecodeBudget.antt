-- ===== src/DecodeBudget.antt =====
-- src/decode_budget.rs: the decode-buffer budget. The environment variable is an argument: `none`
-- when it is absent or no number.
mod Tests
use audio_engine_core.Base.{
  ℕ, ◌*◌, ◌/◌, ◌^◌, ◌≤◌, ◌≡◌, refl, min, max, Bool, true, false, Option, none, some, arith, ltb,
  if◌then◌else◌, is_some, unwrap_or, saturating_mul, u64_max,
}

abbrev pub bytes_per_mib : ℕ
bytes_per_mib = 1024 * 1024

abbrev pub default_mb : ℕ
default_mb = 2048

abbrev pub min_mb : ℕ
min_mb = 64

abbrev pub max_mb : ℕ
max_mb = 32 * 1024

-- `DecodeMemoryBudget`; `overridden` says which of the two texts `source` is.
pub record DecodeMemoryBudget : Type 0 where
  pub limit_mb : ℕ
  pub limit_bytes : ℕ
  pub overridden : Bool

-- `Ord::clamp`, for bounds in order
abbrev pub clamp : ℕ → ℕ → ℕ → ℕ
clamp value lo hi = if ltb value lo then lo else if ltb hi value then hi else value

unfoldable pub resolve : Option ℕ → ℕ → DecodeMemoryBudget
resolve configured max_single_allocation_bytes =
    let target_max_mb = max_single_allocation_bytes / bytes_per_mib in
    let effective_max_mb = min max_mb target_max_mb in
    let effective_min_mb = min min_mb effective_max_mb in
    let limit_mb = clamp (unwrap_or configured default_mb) effective_min_mb effective_max_mb in
    record {
      limit_mb = limit_mb;
      limit_bytes = min (saturating_mul limit_mb bytes_per_mib) max_single_allocation_bytes;
      overridden = is_some configured;
    }

-- For an allocation ceiling of 64 bits at most, the limit is whole mebibytes that one allocation can hold, at most 32 GiB, and at
-- least 64 MiB where an allocation can hold that; a value between those bounds is taken as it is.
pub resolve-bounds :
    (configured : Option ℕ) (ceiling : ℕ)
    → ceiling ≤ u64_max
    → let b = resolve configured ceiling in
      (b.limit_bytes ≡ b.limit_mb * bytes_per_mib)
      × (b.limit_bytes ≤ ceiling)
      × (b.limit_mb ≤ max_mb)
      × (min_mb * bytes_per_mib ≤ ceiling → min_mb ≤ b.limit_mb)
      × ((mb : ℕ)
          → configured ≡ some mb
          → min_mb ≤ mb
          → mb ≤ max_mb
          → mb * bytes_per_mib ≤ ceiling
          → b.limit_mb ≡ mb)
unfolding resolve
resolve-bounds configured ceiling fits =
    (ground arith, ground arith, ground arith, λ h. ground arith, λ mb e lo hi h. ground arith)
