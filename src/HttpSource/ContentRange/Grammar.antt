-- ===== src/HttpSource/ContentRange/Grammar.antt =====
-- The headers that the parser accepts.
use audio_engine_core.Base.{
  ◌≤◌, ◌<◌, ◌≡◌, refl, true, false, ◌∷◌, ◌++◌, arith, le→ltb, lt→leb, subst, inl, inr, ◌↔◌,
  Option-cases,
}
use audio_engine_core.Base.Results.{ok, Result-cases}
use audio_engine_core.HttpSource.{Bytes, start_field, end_field, total_field}
use audio_engine_core.HttpSource.ContentRange.{
  ContentRange, codes, all_digits, trim, strip_prefix, split_once, contains, parse_range_number,
  parse,
}
use audio_engine_core.HttpSource.ContentRange.Text.{
  strip_prefix-append, strip_prefix_sound, split_once-append, split_once_sound, contains-append,
  contains-all_digits, Spells, parse_range_number-Spells, parse_range_number_of_Spells,
}

-- `bytes a-b/c` for digits that spell the record's numbers
abbrev pub Header : Bytes → Bytes → Bytes → Bytes
Header a b c = codes "bytes " ++ ((a ++ b'-' ∷ b) ++ b'/' ∷ c)

abbrev pub Declares : Bytes → ContentRange → Type 0
Declares value r =
    (a b c : Bytes) × (value ≡ Header a b c)
    × Spells a r.start
    × Spells b r.end
    × Spells c r.total
    × (r.start ≤ r.end)
    × (r.end < r.total)

no_slash :
    (a b : Bytes)
    → contains b'/' a ≡ false
    → contains b'/' b ≡ false
    → contains b'/' (a ++ b'-' ∷ b) ≡ false
unfolding contains
no_slash a b ha hb = rw (contains-append b'/' a (b'-' ∷ b), ha, hb) refl

parse_complete : (text : Bytes) (r : ContentRange) → Declares (trim text) r → parse text ≡ ok r
unfolding parse
parse_complete text r (a, b, c, e, sa, sb, sc, order, inside) =
    let lacks : (s : Bytes) → all_digits s ≡ true → contains b'/' s ≡ false =
      λ s. contains-all_digits b'/' s refl in
    rw
      (
        e,
        strip_prefix-append (codes "bytes ") ((a ++ b'-' ∷ b) ++ b'/' ∷ c),
        split_once-append b'/' (a ++ b'-' ∷ b) c (no_slash a b (lacks a sa.1) (lacks b sb.1)),
        lacks c sc.1,
        split_once-append b'-' a b (contains-all_digits b'-' a refl sa.1),
        parse_range_number_of_Spells start_field a sa,
        parse_range_number_of_Spells end_field b sb,
        parse_range_number_of_Spells total_field c sc,
        le→ltb r.start r.end order,
        lt→leb r.end r.total inside,
      )
      refl

parse_sound : (text : Bytes) (r : ContentRange) → parse text ≡ ok r → Declares (trim text) r
unfolding parse
parse_sound text r e = elim (Option-cases (strip_prefix (codes "bytes ") (trim text))) [
  | inl n ↦ absurd (ground arith)
  | inr (rest, f) ↦ elim (Option-cases (split_once b'/' rest)) [
    | inl n ↦ absurd (ground arith)
    | inr (pair, g) ↦
        let (interval, total) = pair in
        elim (Option-cases (split_once b'-' interval)) [
          | inl n ↦ absurd (ground arith)
          | inr (ends, h) ↦
              let (start, end) = ends in
              elim (Result-cases (parse_range_number start_field start)) [
                | inr (x, bad) ↦ absurd (ground arith)
                | inl (x, px) ↦ elim (Result-cases (parse_range_number end_field end)) [
                  | inr (y, bad) ↦ absurd (ground arith)
                  | inl (y, py) ↦ elim (Result-cases (parse_range_number total_field total)) [
                    | inr (z, bad) ↦ absurd (ground arith)
                    | inl (z, pz) ↦
                        let (ex, ey, ez, order, inside) : (x ≡ r.start)
                            × (y ≡ r.end)
                            × (z ≡ r.total)
                            × (r.start ≤ r.end)
                            × (r.end < r.total) =
                          ground arith in
                        (
                          start,
                          end,
                          total,
                          spelled_out start end total rest interval
                              (strip_prefix_sound (codes "bytes ") (trim text) f)
                              (split_once_sound b'/' rest g) (split_once_sound b'-' interval h),
                          subst (Spells start) ex (parse_range_number-Spells start_field start px),
                          subst (Spells end) ey (parse_range_number-Spells end_field end py),
                          subst (Spells total) ez (parse_range_number-Spells total_field total pz),
                          order,
                          inside,
                        )
                  ]
                ]
              ]
        ]
  ]
]
  where
    spelled_out :
        (start end total rest interval : Bytes)
        → trim text ≡ codes "bytes " ++ rest
        → rest ≡ interval ++ b'/' ∷ total
        → interval ≡ start ++ b'-' ∷ end
        → trim text ≡ Header start end total
    spelled_out start end total rest interval a b c = rw (a, b, c) refl

-- The parser accepts a header as a range exactly when the header, without blanks around it, is
-- `bytes a-b/c` for digits `a`, `b` and `c` that spell the range's numbers, which fit 64 bits, with
-- the start up to the end and the end below the total.
pub parse_iff : (text : Bytes) (r : ContentRange) → (parse text ≡ ok r) ↔ Declares (trim text) r
parse_iff text r = (parse_sound text r, parse_complete text r)
