-- ===== src/Startup/HeaderLines.antt =====
-- Header options that are written with a colon and a blank are read back.
use statico.Prelude.{
  ℕ, true, false, List, [], ◌∷◌, ◌++◌, map, some, ◌≡◌, refl, ap, ◌∙◌, codes, ◌==◌, All, arith,
}
use statico.Startup.Headers.{
  Text, encode, is_whitespace, split_once, trim_start, keep, trim_end, trim, parse_headers,
}

-- No blank at the start, and none at the end.
abbrev pub BeginsBare : Text → Type 0
BeginsBare [] = Unit
BeginsBare (c ∷ s) = is_whitespace c ≡ false

abbrev pub EndsBare : Text → Type 0
EndsBare [] = Unit
EndsBare (c ∷ []) = is_whitespace c ≡ false
EndsBare (c ∷ d ∷ s) = EndsBare (d ∷ s)

-- A name without a colon, and a value, with no blank around either.
abbrev pub IsPlain : Text × Text → Type 0
IsPlain (k, v) =
    All (λ c. (c == b':') ≡ false) k × BeginsBare k × EndsBare k × BeginsBare v × EndsBare v

abbrev pub header_line : Text × Text → Text
header_line (k, v) = k ++ (codes ": " ++ v)

trim_start_bare : (s : Text) → BeginsBare s → trim_start s ≡ s
unfolding trim_start
trim_start_bare [] h = refl
trim_start_bare (c ∷ s) h = rw h refl

trim_end_bare : (s : Text) → EndsBare s → trim_end s ≡ s
unfolding trim_end
trim_end_bare [] h = refl
trim_end_bare (c ∷ []) h = rw h refl
trim_end_bare (c ∷ d ∷ s) h = ap (keep (is_whitespace c) c) (trim_end_bare (d ∷ s) h)

trim_bare : (s : Text) → BeginsBare s → EndsBare s → trim s ≡ s
unfolding trim
trim_bare s b e = ap trim_end (trim_start_bare s b) ∙ trim_end_bare s e

trim_blank : (s : Text) → trim (32 ∷ s) ≡ trim s
unfolding trim trim_start is_whitespace
trim_blank s = refl

split_once-append :
    (delimiter : ℕ) (k rest : Text)
    → All (λ c. (c == delimiter) ≡ false) k
    → split_once delimiter (k ++ (delimiter ∷ rest)) ≡ some (k, rest)
unfolding split_once
split_once-append delimiter [] rest h =
    let same : (delimiter == delimiter) ≡ true = ground arith in rw same refl
split_once-append delimiter (c ∷ k) rest h = rw (h.0, split_once-append delimiter k rest h.1) refl

-- Header options that are written as a name, a colon, a blank and a value, where the name has no
-- colon and neither has a blank at an end, are configured as these names and values, in order.
pub parse_headers-header_line :
    (headers : List (Text × Text))
    → All IsPlain headers
    → parse_headers (map header_line headers)
      ≡ map (λ (h : Text × Text). (encode h.0, encode h.1)) headers
unfolding parse_headers
parse_headers-header_line [] all = refl
parse_headers-header_line ((k, v) ∷ headers) all =
    let plain = all.0 in
    rw
      (
        parse_headers,
        split_once-append b':' k (32 ∷ v) plain.0,
        trim_blank v,
        trim_bare k plain.1 plain.2,
        trim_bare v plain.3 plain.4,
        parse_headers-header_line headers all.1,
      )
      refl
