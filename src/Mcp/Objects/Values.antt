-- ===== src/Mcp/Objects/Values.antt =====
-- What the object scans of src/mcp.rs read at a well-formed member's value.
use statico.Prelude.{
  ℕ, ◌+◌, ◌^◌, ◌<◌, List, [], ◌∷◌, ◌++◌, ◌≡◌, refl, ◌∙◌, ap, Bytes, All, length-append, arith,
  length,
}
use statico.Mcp.Scan.{Scan, found, absent, slice, parse_string, skip_value}
use statico.Mcp.Scan.At.{At, get_elem?-At, slice-At, At-suc}
use statico.Mcp.Scan.Tokens.{Delimited}
use statico.Mcp.Scan.Values.{skip_value-print}
use statico.Mcp.Json.{Json, str, token, arr, obj, IsJson, quoted, print}

abbrev pub Any : Bytes × Json → Type 0
Any m = Unit

pub All-Any : (ms : List (Bytes × Json)) → All Any ms
All-Any [] = tt
All-Any (m ∷ ms) = (tt, All-Any ms)

-- A string's content.
abbrev pub content : Json → Scan Bytes
content (str s) = found s
content _ = absent

pub skip_value-here :
    (body : Bytes) (i : ℕ) (v : Json) (rest : Bytes)
    → At body i (print v rest)
    → IsJson v
    → Delimited rest
    → length body < 2 ^ 64
    → skip_value body i ≡ found (i + length (print v []))
skip_value-here body i v rest at h d fits =
    let there : i + 0 + length (print v []) ≡ i + length (print v []) = omega arith in
    skip_value-print body i [] v rest at tt h d fits ∙ ap found there

pub parse_string-other :
    (body : Bytes) (i : ℕ) (v : Json) (rest : Bytes)
    → At body i (print v rest)
    → IsJson v
    → content v ≡ absent
    → parse_string body i ≡ absent
unfolding parse_string
parse_string-other body i (str s) rest at h e = cc
parse_string-other body i (token []) rest at h e = absurd (h.1 refl)
parse_string-other body i (token (c ∷ t)) rest at h e =
    rw (get_elem?-At body i c _ at) (ground (arith, h.0.0.1))
parse_string-other body i (arr xs) rest at h e = rw (get_elem?-At body i b'[' _ at)
parse_string-other body i (obj fs) rest at h e = rw (get_elem?-At body i b'{' _ at)

-- At a string the slice between the quotes is its content.
pub slice-str :
    (body : Bytes) (i : ℕ) (s rest : Bytes)
    → At body i (quoted s rest)
    → slice body (i + 1) (i + 1 + length s) ≡ s
slice-str body i s rest at =
    slice-At body (i + 1) s (b'"' ∷ rest) (At-suc body i b'"' (s ++ (b'"' ∷ rest)) at)

pub behind_str : (i : ℕ) (s : Bytes) → i + 1 + length s + 1 ≡ i + length (print (str s) [])
behind_str i s = omega (arith, length-append s (b'"' ∷ []))
