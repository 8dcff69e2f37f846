-- ===== src/HttpSource/ContentRange.antt =====
-- src/decoder/source/http.rs: the `Content-Range` header and the numbers in it. A header that
-- `to_str` gives is visible ASCII and tabs, so `trim` has only those blanks to remove.
pub mod Text
pub mod Grammar
use Prim.Native.Char.{code}
use Prim.Native.String.{String}
use audio_engine_core.Base.{
  ℕ, suc, ◌+◌, ◌-◌, ◌*◌, Bool, true, false, not, ◌&&◌, ◌||◌, Option, none, some, List, [], ◌∷◌,
  ◌++◌, u64_max, leb, ltb, ◌==◌, if◌then◌else◌, is_none,
}
use audio_engine_core.Base.Results.{Result, ok, err, ◌>>=◌, ◌>>◌, refuse, ok_or}
use audio_engine_core.HttpSource.{
  Bytes, Field, start_field, end_field, total_field, Message, unsupported_unit, missing_total,
  multiple_totals, missing_interval, not_unsigned, beyond_integers, start_exceeds_end,
  end_outside_total, interval_mismatch, total_mismatch, NetworkError, invalid_range,
}

abbrev pub codes : String → Bytes
codes String.[] = []
codes (String.◌∷◌ c s) = code c ∷ codes s

-- `char::is_whitespace` on ASCII
abbrev pub is_whitespace : ℕ → Bool
is_whitespace c = c == 32 || (leb 9 c && leb c 13)

unfoldable pub trim_start : Bytes → Bytes
trim_start [] = []
trim_start (c ∷ s) = if is_whitespace c then trim_start s else c ∷ s

unfoldable pub trim_end : Bytes → Bytes
trim_end [] = []
trim_end (c ∷ s) = keep (trim_end s)
  where
    keep : Bytes → Bytes
    keep [] = if is_whitespace c then [] else c ∷ []
    keep (d ∷ t) = c ∷ d ∷ t

-- `str::trim`
unfoldable pub trim : Bytes → Bytes
trim s = trim_end (trim_start s)

-- `str::strip_prefix`
unfoldable pub strip_prefix : Bytes → Bytes → Option Bytes
strip_prefix [] s = some s
strip_prefix (p ∷ ps) [] = none
strip_prefix (p ∷ ps) (c ∷ s) = if p == c then strip_prefix ps s else none

-- `str::split_once`
unfoldable pub split_once : ℕ → Bytes → Option (Bytes × Bytes)
split_once at [] = none
split_once at (c ∷ s) = if c == at then some ([], s) else before (split_once at s)
  where
    before : Option (Bytes × Bytes) → Option (Bytes × Bytes)
    before none = none
    before (some (a, b)) = some (c ∷ a, b)

-- `str::contains`
unfoldable pub contains : ℕ → Bytes → Bool
contains c [] = false
contains c (d ∷ s) = d == c || contains c s

abbrev pub is_ascii_digit : ℕ → Bool
is_ascii_digit c = leb b'0' c && leb c b'9'

unfoldable pub all_digits : Bytes → Bool
all_digits [] = true
all_digits (c ∷ s) = is_ascii_digit c && all_digits s

-- `str::parse::<u64>` on digits, with its checked arithmetic, and `n` read so far
unfoldable pub parse_u64 : ℕ → Bytes → Option ℕ
parse_u64 n [] = some n
parse_u64 n (c ∷ s) =
    if leb (n * 10 + (c - b'0')) u64_max then parse_u64 (n * 10 + (c - b'0')) s else none

abbrev pub is_empty : Bytes → Bool
is_empty [] = true
is_empty (c ∷ s) = false

unfoldable pub parse_range_number : Field → Bytes → Result NetworkError ℕ
parse_range_number field value = do
  refuse (is_empty value || not (all_digits value)) (invalid_range (not_unsigned field))
  ok_or (parse_u64 0 value) (invalid_range (beyond_integers field))

-- `ContentRange`
pub record ContentRange : Type 0 where
  pub start : ℕ
  pub end : ℕ
  pub total : ℕ

unfoldable pub parse : Bytes → Result NetworkError ContentRange
parse text = do
  let value = trim text
  remainder ← ok_or (strip_prefix (codes "bytes ") value) (invalid_range unsupported_unit)
  (interval, total) ← ok_or (split_once b'/' remainder) (invalid_range missing_total)
  refuse (contains b'/' total) (invalid_range multiple_totals)
  (start, end) ← ok_or (split_once b'-' interval) (invalid_range missing_interval)
  start ← parse_range_number start_field start
  end ← parse_range_number end_field end
  total ← parse_range_number total_field total
  refuse (ltb end start) (invalid_range (start_exceeds_end start end))
  refuse (leb total end) (invalid_range (end_outside_total end total))
  ok (record { start = start; end = end; total = total })

-- the `if let Some(expected_total)` of `validate`
abbrev pub check_total : ContentRange → Option ℕ → Result NetworkError (Unit {0})
check_total r none = ok tt
check_total r (some expected) =
    refuse (not (r.total == expected)) (invalid_range (total_mismatch r.total expected))

unfoldable pub validate : ContentRange → ℕ → ℕ → Option ℕ → Result NetworkError (Unit {0})
validate r requested_start requested_end expected_total = do
  refuse (not (r.start == requested_start) || not (r.end == requested_end))
      (invalid_range (interval_mismatch r.start r.end requested_start requested_end))
  check_total r expected_total
