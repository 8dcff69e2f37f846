-- ===== src/HttpSource/Policy.antt =====
-- src/decoder/source/http.rs: which addresses the source refuses to fetch from. `Ipv4Addr` and
-- `Ipv6Addr` are std's, with its tests on them. Parsing an address (`parse_ip`), name resolution
-- (`lookup`) and the parsed URL are other code, taken as arguments.
pub mod Blocks
pub mod Wide
pub mod Hosts
use audio_engine_core.Base.{
  ℕ, ◌*◌, ◌+◌, ◌/◌, ◌%◌, Bool, true, false, not, ◌&&◌, ◌||◌, Option, none, some, List, [], ◌∷◌, leb,
  ◌==◌, if◌then◌else◌,
}
use audio_engine_core.Base.Actions.{Action, ◌>>=◌, ◌>>◌, done, throw, pure, err_with}
use audio_engine_core.Base.Results.{Result, ok, err, refuse, ok_or}
use audio_engine_core.HttpSource.{
  Bytes, ErrorKind, Message, rejected_address, no_host, non_http_scheme, no_supported_port,
  no_addresses, lookup_failed, NetworkError, other, dns_failure,
}
use audio_engine_core.HttpSource.ContentRange.{codes, is_empty}

pub record Ipv4Addr : Type 0 where
  pub a : ℕ
  pub b : ℕ
  pub c : ℕ
  pub d : ℕ

pub record Ipv6Addr : Type 0 where
  pub s0 : ℕ
  pub s1 : ℕ
  pub s2 : ℕ
  pub s3 : ℕ
  pub s4 : ℕ
  pub s5 : ℕ
  pub s6 : ℕ
  pub s7 : ℕ

pub data IpAddr : Type 0 where
  v4 : Ipv4Addr → IpAddr
  v6 : Ipv6Addr → IpAddr

pub record SocketAddr : Type 0 where
  pub ip : IpAddr
  pub port : ℕ

abbrev pub is_loopback : Ipv4Addr → Bool
is_loopback x = x.a == 127

abbrev pub is_private : Ipv4Addr → Bool
is_private x = x.a == 10 || (x.a == 172 && (leb 16 x.b && leb x.b 31)) || (x.a == 192 && x.b == 168)

abbrev pub is_link_local : Ipv4Addr → Bool
is_link_local x = x.a == 169 && x.b == 254

abbrev pub is_unspecified : Ipv4Addr → Bool
is_unspecified x = x.a == 0 && (x.b == 0 && (x.c == 0 && x.d == 0))

abbrev pub is_broadcast : Ipv4Addr → Bool
is_broadcast x = x.a == 255 && (x.b == 255 && (x.c == 255 && x.d == 255))

abbrev pub is_multicast : Ipv4Addr → Bool
is_multicast x = leb 224 x.a && leb x.a 239

unfoldable pub is_disallowed_ipv4 : Ipv4Addr → Bool
is_disallowed_ipv4 x =
    is_loopback x
    || is_private x
    || is_link_local x
    || is_unspecified x
    || is_broadcast x
    || is_multicast x
    || (x.a == 192 && (x.b == 0 && x.c == 2))
    || (x.a == 198 && (x.b == 51 && x.c == 100))
    || (x.a == 203 && (x.b == 0 && x.c == 113))
    || (x.a == 100 && (leb 64 x.b && leb x.b 127))
    || (x.a == 192 && (x.b == 0 && x.c == 0))
    || (x.a == 198 && (leb 18 x.b && leb x.b 19))
    || leb 240 x.a

-- the first five segments are 0
abbrev pub starts_zero : Ipv6Addr → Bool
starts_zero x = x.s0 == 0 && (x.s1 == 0 && (x.s2 == 0 && (x.s3 == 0 && x.s4 == 0)))

-- `Ipv6Addr::to_ipv4`: the IPv4-compatible and the IPv4-mapped addresses
unfoldable pub to_ipv4 : Ipv6Addr → Option Ipv4Addr
to_ipv4 x =
    if starts_zero x && (x.s5 == 0 || x.s5 == 65535)
    then some (record { a = x.s6 / 256; b = x.s6 % 256; c = x.s7 / 256; d = x.s7 % 256 })
    else none

-- The masks of `is_unique_local` (fc00/7), `is_unicast_link_local` (fe80/10) and `is_multicast`
-- (ff00/8) keep the upper bits of the first segment.
abbrev pub is_unique_local : Ipv6Addr → Bool
is_unique_local x = x.s0 / 512 == 126

abbrev pub is_unicast_link_local : Ipv6Addr → Bool
is_unicast_link_local x = x.s0 / 64 == 1018

abbrev pub is_multicast6 : Ipv6Addr → Bool
is_multicast6 x = x.s0 / 256 == 255

abbrev pub is_loopback6 : Ipv6Addr → Bool
is_loopback6 x = starts_zero x && (x.s5 == 0 && (x.s6 == 0 && x.s7 == 1))

abbrev pub is_unspecified6 : Ipv6Addr → Bool
is_unspecified6 x = starts_zero x && (x.s5 == 0 && (x.s6 == 0 && x.s7 == 0))

-- `is_some_and(is_disallowed_ipv4)`
abbrev pub is_some_and : Option Ipv4Addr → (Ipv4Addr → Bool) → Bool
is_some_and none test = false
is_some_and (some x) test = test x

-- 8193 is 0x2001 and 3512 is 0x0db8.
unfoldable pub is_disallowed_ip : IpAddr → Bool
unfolding is_disallowed_ipv4 to_ipv4
is_disallowed_ip (v4 x) = is_disallowed_ipv4 x
is_disallowed_ip (v6 x) =
    is_loopback6 x
    || is_unspecified6 x
    || is_unique_local x
    || is_unicast_link_local x
    || is_multicast6 x
    || (x.s0 == 8193 && x.s1 == 3512)
    || is_some_and (to_ipv4 x) is_disallowed_ipv4

abbrev pub remote_address_error : Message → NetworkError
remote_address_error = other

unfoldable pub validate_ip : IpAddr → Result NetworkError (Unit {0})
validate_ip address = refuse (is_disallowed_ip address) (remote_address_error rejected_address)

-- the loop over the addresses
unfoldable pub validate_all : List SocketAddr → Result NetworkError (Unit {0})
validate_all [] = ok tt
validate_all (address ∷ addresses) = elim (validate_ip address.ip) [
  | ok _ ↦ validate_all addresses
  | err e ↦ err e
]

abbrev no_address : List SocketAddr → Bool
no_address [] = true
no_address (x ∷ xs) = false

-- What the source asks of a parsed URL.
pub record Url : Type 0 where
  pub scheme : Bytes
  pub host_str : Option Bytes
  pub port_or_known_default : Option ℕ

-- an address that `parse` found must pass; another text is a name
abbrev pub validate_parsed : Option IpAddr → Result NetworkError (Unit {0})
validate_parsed none = ok tt
validate_parsed (some address) = validate_ip address

unfoldable pub validate_literal_host :
    (Bytes → Option IpAddr) → Url → Result NetworkError (Unit {0})
unfolding validate_ip
validate_literal_host parse_ip url = elim url.host_str [
  | none ↦ err (remote_address_error no_host)
  | some host ↦ validate_parsed (parse_ip host)
]

-- `==` on texts
unfoldable pub same : Bytes → Bytes → Bool
same [] [] = true
same (x ∷ xs) (y ∷ ys) = x == y && same xs ys
same _ _ = false

module _ {ℓ} {W : Type ℓ} (lookup : Bytes → ℕ → Action W ErrorKind (List SocketAddr)) where
  unfoldable pub resolve_and_validate_host : Bytes → ℕ → Action W NetworkError (List SocketAddr)
  resolve_and_validate_host host port = do
    addresses ← λ w. err_with (λ kind. dns_failure (lookup_failed kind)) (lookup host port w)
    pure (refuse (no_address addresses) (dns_failure no_addresses))
    pure (validate_all addresses)
    done addresses

  unfoldable pub validate_redirect_target : Url → Action W NetworkError (Unit {0})
  unfolding same resolve_and_validate_host
  validate_redirect_target url = do
    pure (
        refuse (not (same url.scheme (codes "http") || same url.scheme (codes "https")))
          (remote_address_error non_http_scheme))
    host ← pure (ok_or url.host_str (remote_address_error no_host))
    port ← pure (ok_or url.port_or_known_default (remote_address_error no_supported_port))
    addresses ← resolve_and_validate_host host port
    done tt
