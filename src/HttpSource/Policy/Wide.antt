-- ===== src/HttpSource/Policy/Wide.antt =====
-- The refused addresses of both families, as blocks of their numbers.
use audio_engine_core.Base.{
  ℕ, ◌+◌, ◌-◌, ◌*◌, ◌/◌, ◌%◌, ◌^◌, ◌<◌, ◌≡◌, refl, Bool, true, false, ◌&&◌, ◌||◌, List, [], ◌∷◌,
  arith, ◌==◌, ==_iff, inl, inr, Bool-cases,
}
use audio_engine_core.HttpSource.Policy.{
  Ipv4Addr, Ipv6Addr, IpAddr, v4, v6, is_disallowed_ipv4, is_disallowed_ip, to_ipv4, starts_zero,
  is_some_and,
}
use audio_engine_core.HttpSource.Policy.Blocks.{
  Block, in_some, reserved, number, IsOctets, is_disallowed_ipv4-in_some,
}

-- `segment::/bits`
abbrev block6 : ℕ → ℕ → Block
block6 segment bits = record { prefix = segment / 2 ^ (16 - bits); host_bits = 128 - bits }

-- ::1, ::, fc00::/7, fe80::/10, ff00::/8 and 2001:db8::/32
abbrev pub reserved6 : List Block
reserved6 =
    record { prefix = 1; host_bits = 0 }
    ∷ record { prefix = 0; host_bits = 0 }
    ∷ block6 0xfc00 7
    ∷ block6 0xfe80 10
    ∷ block6 0xff00 8
    ∷ record { prefix = 0x20010db8; host_bits = 96 }
    ∷ []

abbrev upper : Ipv6Addr → ℕ
upper x = ((((x.s0 * 65536 + x.s1) * 65536 + x.s2) * 65536 + x.s3) * 65536 + x.s4) * 65536 + x.s5

abbrev pub number6 : Ipv6Addr → ℕ
number6 x = upper x * 2 ^ 32 + (x.s6 * 65536 + x.s7)

abbrev pub IsSegments : Ipv6Addr → Type 0
IsSegments x =
    (x.s0 < 65536)
    × (x.s1 < 65536)
    × (x.s2 < 65536)
    × (x.s3 < 65536)
    × (x.s4 < 65536)
    × (x.s5 < 65536)
    × (x.s6 < 65536)
    × (x.s7 < 65536)

abbrev pub IsAddress : IpAddr → Type 0
IsAddress (v4 x) = IsOctets x
IsAddress (v6 x) = IsSegments x

-- An IPv6 address also stands for the IPv4 one in its last 32 bits if the others are 0, or 0xffff.
abbrev pub is_reserved : IpAddr → Bool
is_reserved (v4 x) = in_some (number x) reserved
is_reserved (v6 x) =
    in_some (number6 x) reserved6
    || ((number6 x / 2 ^ 32 == 0 || number6 x / 2 ^ 32 == 0xffff)
        && in_some (number6 x % 2 ^ 32) reserved)

module _ (x : Ipv6Addr) (h : IsSegments x) where
  last_32 : number6 x % 2 ^ 32 ≡ x.s6 * 65536 + x.s7
  last_32 = omega arith

  first_96 : number6 x / 2 ^ 32 ≡ upper x
  first_96 = omega arith

  first_32 : number6 x / 2 ^ 96 ≡ x.s0 * 65536 + x.s1
  first_32 = omega arith

  first_7 : number6 x / 2 ^ 121 ≡ x.s0 / 512
  first_7 = omega arith

  first_10 : number6 x / 2 ^ 118 ≡ x.s0 / 64
  first_10 = omega arith

  first_8 : number6 x / 2 ^ 120 ≡ x.s0 / 256
  first_8 = omega arith

  first_segments_zero :
      number6 x < 65536
      → (x.s0 ≡ 0) × (x.s1 ≡ 0) × (x.s2 ≡ 0) × (x.s3 ≡ 0) × (x.s4 ≡ 0) × (x.s5 ≡ 0) × (x.s6 ≡ 0)
  first_segments_zero l =
      (omega arith, omega arith, omega arith, omega arith, omega arith, omega arith, omega arith)

  only_last :
      (k : ℕ)
      → k < 65536
      → (starts_zero x && (x.s5 == 0 && (x.s6 == 0 && x.s7 == k))) ≡ (number6 x / 2 ^ 0 == k)
  only_last k b = elim (Bool-cases (number6 x / 2 ^ 0 == k)) [
    | inl hit ↦
        let same : number6 x ≡ k = omega (arith, (==_iff (number6 x / 2 ^ 0) k).0 hit) in
        let (z0, z1, z2, z3, z4, z5, z6) = first_segments_zero (omega arith) in
        let z7 : x.s7 ≡ k = omega arith in
        rw (hit, z0, z1, z2, z3, z4, z5, z6, z7) ((==_iff k k).1 refl)
    | inr miss ↦
        rw miss (elim (Bool-cases (starts_zero x && (x.s5 == 0 && (x.s6 == 0 && x.s7 == k)))) [
          | inl all ↦ absurd (not_number k miss all)
          | inr some_not ↦ some_not
        ])
  ]
    where
      not_number :
          (k : ℕ)
          → (number6 x / 2 ^ 0 == k) ≡ false
          → ¬ ((starts_zero x && (x.s5 == 0 && (x.s6 == 0 && x.s7 == k))) ≡ true)
      not_number k miss all = ground arith

  documentation : (x.s0 == 8193 && x.s1 == 3512) ≡ (number6 x / 2 ^ 96 == 0x20010db8)
  documentation = rw first_32 (ground arith)

  stands_for :
      (starts_zero x && (x.s5 == 0 || x.s5 == 65535))
      ≡ (number6 x / 2 ^ 32 == 0 || number6 x / 2 ^ 32 == 0xffff)
  stands_for = rw first_96 (ground arith)

  -- The IPv4 address that the last 32 bits hold.
  embedded : Ipv4Addr
  embedded = record { a = x.s6 / 256; b = x.s6 % 256; c = x.s7 / 256; d = x.s7 % 256 }

  mapped : is_some_and (to_ipv4 x) is_disallowed_ipv4 ≡ (
      (number6 x / 2 ^ 32 == 0 || number6 x / 2 ^ 32 == 0xffff)
      && in_some (number6 x % 2 ^ 32) reserved)
  unfolding to_ipv4 embedded
  mapped =
      let low : number6 x % 2 ^ 32 ≡ number embedded = omega arith in
      let same : is_disallowed_ipv4 embedded ≡ in_some (number embedded) reserved =
        is_disallowed_ipv4-in_some embedded (omega arith) in
      rw (low, ← same, ← stands_for) (ground arith)

regroup :
    (a b c d e f g : Bool)
    → (a || b || c || d || e || f || g) ≡ ((a || (b || (c || (d || (e || (f || false)))))) || g)
regroup a b c d e f g = ground arith

-- For an address of octets, or of 16-bit segments, the source refuses exactly the addresses of the
-- reserved blocks.
pub is_disallowed_ip-is_reserved : (x : IpAddr) → IsAddress x → is_disallowed_ip x ≡ is_reserved x
unfolding is_disallowed_ip
is_disallowed_ip-is_reserved (v4 x) h = is_disallowed_ipv4-in_some x h
is_disallowed_ip-is_reserved (v6 x) h =
    let t : ℕ → ℕ → Bool = λ bits k. number6 x / 2 ^ bits == k in
    rw
      (
        only_last x h 1 (omega arith),
        only_last x h 0 (omega arith),
        documentation x h,
        mapped x h,
        ← first_7 x h,
        ← first_10 x h,
        ← first_8 x h,
      )
      (regroup (t 0 1) (t 0 0) (t 121 126) (t 118 1018) (t 120 255) (t 96 0x20010db8)
        ((t 32 0 || t 32 0xffff) && in_some (number6 x % 2 ^ 32) reserved))
