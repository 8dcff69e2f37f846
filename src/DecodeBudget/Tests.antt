-- ===== src/DecodeBudget/Tests.antt =====
-- A budget of 100 MiB on a 32-bit target.
use audio_engine_core.Base.{ℕ, ◌*◌, ◌≤◌, ◌≡◌, some, arith}
use audio_engine_core.DecodeBudget.{bytes_per_mib, min_mb, max_mb, resolve, resolve-bounds}

resolve-bounds_example :
    let b = resolve (some 100) 2147483647 in
    (b.limit_bytes ≡ b.limit_mb * bytes_per_mib)
    × (b.limit_bytes ≤ 2147483647)
    × (b.limit_mb ≤ max_mb)
    × (min_mb * bytes_per_mib ≤ 2147483647 → min_mb ≤ b.limit_mb)
    × ((mb : ℕ)
        → some 100 ≡ some mb
        → min_mb ≤ mb
        → mb ≤ max_mb
        → mb * bytes_per_mib ≤ 2147483647
        → b.limit_mb ≡ mb)
resolve-bounds_example = resolve-bounds (some 100) 2147483647 (omega arith)
