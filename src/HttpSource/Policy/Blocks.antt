-- ===== src/HttpSource/Policy/Blocks.antt =====
-- The refused addresses as a table of address blocks.
use audio_engine_core.Base.{
  ℕ, ◌+◌, ◌-◌, ◌*◌, ◌/◌, ◌^◌, ◌<◌, ◌≡◌, refl, Bool, true, false, ◌&&◌, ◌||◌, List, [], ◌∷◌, arith,
  leb, ◌==◌,
}
use audio_engine_core.HttpSource.Policy.{Ipv4Addr, is_broadcast, is_disallowed_ipv4}

-- A block: a number that the address keeps when its `2 ^ host_bits` last addresses are not told apart.
pub record Block : Type 0 where
  pub prefix : ℕ
  pub host_bits : ℕ

abbrev block : ℕ → ℕ → ℕ → ℕ → ℕ → Block
block a b c d bits = record {
  prefix = (((a * 256 + b) * 256 + c) * 256 + d) / 2 ^ (32 - bits);
  host_bits = 32 - bits;
}

-- The special-purpose blocks, as `a.b.c.d/bits`.
abbrev pub reserved : List Block
reserved =
    block 127 0 0 0 8
    ∷ block 10 0 0 0 8
    ∷ block 172 16 0 0 12
    ∷ block 192 168 0 0 16
    ∷ block 169 254 0 0 16
    ∷ block 0 0 0 0 32
    ∷ block 224 0 0 0 4
    ∷ block 192 0 2 0 24
    ∷ block 198 51 100 0 24
    ∷ block 203 0 113 0 24
    ∷ block 100 64 0 0 10
    ∷ block 192 0 0 0 24
    ∷ block 198 18 0 0 15
    ∷ block 240 0 0 0 4
    ∷ []

abbrev pub in_some : ℕ → List Block → Bool
in_some n [] = false
in_some n (x ∷ xs) = n / 2 ^ x.host_bits == x.prefix || in_some n xs

abbrev pub number : Ipv4Addr → ℕ
number x = ((x.a * 256 + x.b) * 256 + x.c) * 256 + x.d

abbrev pub IsOctets : Ipv4Addr → Type 0
IsOctets x = (x.a < 256) × (x.b < 256) × (x.c < 256) × (x.d < 256)

-- Each test of the source is the test of a block.
module _ (x : Ipv4Addr) (h : IsOctets x) where
  by_24 : (k : ℕ) → (x.a == k) ≡ (number x / 2 ^ 24 == k)
  by_24 k = let e : number x / 2 ^ 24 ≡ x.a = omega arith in rw e refl

  by_28 : (k : ℕ) → (leb (k * 16) x.a && leb x.a (k * 16 + 15)) ≡ (number x / 2 ^ 28 == k)
  by_28 k = let e : number x / 2 ^ 28 ≡ x.a / 16 = omega arith in rw e (ground arith)

  by_16 : (k l : ℕ) → l < 256 → (x.a == k && x.b == l) ≡ (number x / 2 ^ 16 == k * 256 + l)
  by_16 k l b = let e : number x / 2 ^ 16 ≡ x.a * 256 + x.b = omega arith in rw e (ground arith)

  by_8 :
      (k l m : ℕ)
      → l < 256
      → m < 256
      → (x.a == k && (x.b == l && x.c == m)) ≡ (number x / 2 ^ 8 == (k * 256 + l) * 256 + m)
  by_8 k l m b c =
      let e : number x / 2 ^ 8 ≡ (x.a * 256 + x.b) * 256 + x.c = omega arith in rw e (ground arith)

  private_172 : (x.a == 172 && (leb 16 x.b && leb x.b 31)) ≡ (number x / 2 ^ 20 == 2753)
  private_172 = let e : number x / 2 ^ 20 ≡ x.a * 16 + x.b / 16 = omega arith in rw e (ground arith)

  shared_100 : (x.a == 100 && (leb 64 x.b && leb x.b 127)) ≡ (number x / 2 ^ 22 == 401)
  shared_100 = let e : number x / 2 ^ 22 ≡ x.a * 4 + x.b / 64 = omega arith in rw e (ground arith)

  benchmark_198 : (x.a == 198 && (leb 18 x.b && leb x.b 19)) ≡ (number x / 2 ^ 17 == 25353)
  benchmark_198 =
      let e : number x / 2 ^ 17 ≡ x.a * 128 + x.b / 2 = omega arith in rw e (ground arith)

  zero_0 : (x.a == 0 && (x.b == 0 && (x.c == 0 && x.d == 0))) ≡ (number x / 2 ^ 0 == 0)
  zero_0 = ground arith

  top_240 : leb 240 x.a ≡ (number x / 2 ^ 28 == 15)
  top_240 = let e : number x / 2 ^ 28 ≡ x.a / 16 = omega arith in rw e (ground arith)

  broadcast_top : is_broadcast x ≡ true → (number x / 2 ^ 28 == 15) ≡ true
  broadcast_top e = ground arith

-- The two orders of the tests, with the broadcast address in the last block.
reorder :
    (a b c d e f g h i j k l m n : Bool) (bc : Bool)
    → (bc ≡ true → n ≡ true)
    → (a || (b || c || d) || e || f || bc || g || h || i || j || k || l || m || n) ≡ (
        a
        || (b
            || (c
                || (d
                    || (e
                        || (f || (g || (h || (i || (j || (k || (l || (m || (n || false))))))))))))))
reorder a b c d e f g h i j k l m n bc imp = ground arith

pub is_disallowed_ipv4-in_some :
    (x : Ipv4Addr) → IsOctets x → is_disallowed_ipv4 x ≡ in_some (number x) reserved
unfolding is_disallowed_ipv4
is_disallowed_ipv4-in_some x h =
    let t : ℕ → ℕ → Bool = λ bits k. number x / 2 ^ bits == k in
    rw
      (
        by_24 x h 127,
        by_24 x h 10,
        private_172 x h,
        by_16 x h 192 168 (omega arith),
        by_16 x h 169 254 (omega arith),
        zero_0 x h,
        by_28 x h 14,
        by_8 x h 192 0 2 (omega arith) (omega arith),
        by_8 x h 198 51 100 (omega arith) (omega arith),
        by_8 x h 203 0 113 (omega arith) (omega arith),
        shared_100 x h,
        by_8 x h 192 0 0 (omega arith) (omega arith),
        benchmark_198 x h,
        top_240 x h,
      )
      (reorder (t 24 127) (t 24 10) (t 20 2753) (t 16 49320) (t 16 43518) (t 0 0) (t 28 14)
        (t 8 12582914) (t 8 12989284) (t 8 13303921) (t 22 401) (t 8 12582912) (t 17 25353)
        (t 28 15) (is_broadcast x) (broadcast_top x h))
