-- ===== src/Startup/Headers.antt =====
-- src/main.rs: the parsing of the configured headers, with what it uses of `str`: `split_once` and
-- `trim`. The lines of a text, and reading back lines that are written with a colon and a blank.
use statico.Prelude.{
  ℕ, ◌+◌, ◌/◌, ◌%◌, Bool, ◌&&◌, ◌||◌, List, [], ◌∷◌, ◌++◌, Option, none, some, Bytes, leb, ltb,
  ◌==◌, if◌then◌else◌,
}
use statico.Http.{Headers}

-- A text by its code points.
abbrev pub Text : Type 0
Text = List ℕ

-- UTF-8.
unfoldable pub encode : Text → Bytes
encode [] = []
encode (c ∷ s) =
    (if ltb c 128
      then c ∷ []
      else (if ltb c 2048
          then (192 + c / 64) ∷ ((128 + c % 64) ∷ [])
          else (if ltb c 65536
              then (224 + c / 4096) ∷ ((128 + c / 64 % 64) ∷ ((128 + c % 64) ∷ []))
              else (240 + c / 262144)
                ∷ ((128 + c / 4096 % 64) ∷ ((128 + c / 64 % 64) ∷ ((128 + c % 64) ∷ []))))))
    ++ encode s

-- `char::is_whitespace`: the property White_Space of Unicode.
unfoldable pub is_whitespace : ℕ → Bool
is_whitespace c =
    (leb 9 c && leb c 13)
    || (c == 32
        || (c == 133
            || (c == 160
                || (c == 5760
                    || ((leb 8192 c && leb c 8202)
                        || (c == 8232
                            || (c == 8233 || (c == 8239 || (c == 8287 || c == 12288)))))))))

unfoldable pub split_once : ℕ → Text → Option (Text × Text)
split_once delimiter [] = none
split_once delimiter (c ∷ s) =
    if c == delimiter
    then some ([], s)
    else elim (split_once delimiter s) [ none ↦ none | some (k, v) ↦ some (c ∷ k, v) ]

unfoldable pub trim_start : Text → Text
trim_start [] = []
trim_start (c ∷ s) = let rest = trim_start s in if is_whitespace c then rest else c ∷ s

abbrev pub keep : Bool → ℕ → Text → Text
keep blank c [] = if blank then [] else c ∷ []
keep blank c (d ∷ rest) = c ∷ (d ∷ rest)

unfoldable pub trim_end : Text → Text
trim_end [] = []
trim_end (c ∷ s) = keep (is_whitespace c) c (trim_end s)

unfoldable pub trim : Text → Text
trim s = trim_end (trim_start s)

-- The loop over the option's values; one without a colon is ignored.
unfoldable pub parse_headers : List Text → Headers
parse_headers [] = []
parse_headers (h ∷ header) = elim (split_once b':' h) [
  | none ↦ parse_headers header
  | some (k, v) ↦ (encode (trim k), encode (trim v)) ∷ parse_headers header
]
