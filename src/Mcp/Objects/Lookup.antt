-- ===== src/Mcp/Objects/Lookup.antt =====
-- `find_raw_value` and `find_protocol_version` of src/mcp.rs on well-formed objects, against
-- lookups among the members.
use statico.Prelude.{
  ℕ, ◌+◌, ◌^◌, ◌<◌, List, [], ◌∷◌, ◌++◌, ◌≡◌, refl, ◌∙◌, Bytes, length, equal, codes, Bool-cases,
  inl, inr, if◌then◌else◌,
}
use statico.Mcp.Scan.{Scan, found, absent, stuck, ◌>>=◌, slice, Round, next, return, parse_string}
use statico.Mcp.Scan.At.{At}
use statico.Mcp.Scan.Tokens.{parse_string-At}
use statico.Mcp.Scan.Values.{slice-print}
use statico.Mcp.Json.{Json, str, token, arr, obj, Fields, IsWs, IsJson, IsFields, print}
use statico.Mcp.Objects.{no_end, version_key, find_protocol_version, wanted_key, find_raw_value}
use statico.Mcp.Objects.Values.{
  Any, All-Any, content, skip_value-here, parse_string-other, slice-str,
}
use statico.Mcp.Objects.Members.{members, fold, behind, Agrees, object_scan-fold}

-- The text of the first member with the wanted key.
abbrev pub first_value : Bytes → List (Bytes × Json) → Scan Bytes
first_value wanted [] = absent
first_value wanted ((k, v) ∷ ms) =
    if equal k wanted then found (print v []) else first_value wanted ms

abbrev wanted_step : Bytes → Unit {0} → Bytes → Json → Scan (Round (Unit {0}) Bytes)
wanted_step wanted u k v = found (if equal k wanted then return (print v []) else next u)

fold-first_value :
    (wanted : Bytes) (ms : List (Bytes × Json))
    → fold no_end (wanted_step wanted) tt ms ≡ first_value wanted ms
fold-first_value wanted [] = refl
fold-first_value wanted ((k, v) ∷ ms) = elim (Bool-cases (equal k wanted)) [
  | inl e ↦ rw e
  | inr e ↦ rw e (fold-first_value wanted ms)
]

wanted_key-Agrees :
    (wanted body : Bytes)
    → length body < 2 ^ 64
    → Agrees Any body (wanted_key wanted body) (wanted_step wanted)
unfolding wanted_key
wanted_key-Agrees wanted body fits s k i v rest _ at h d =
    rw (skip_value-here body i v rest at h d fits, slice-print body i v rest at)
      (elim (Bool-cases (equal k wanted)) [ inl e ↦ rw e | inr e ↦ rw e ])

-- On an object `find_raw_value` finds the text of the first member with the wanted key, and
-- nothing if there is none.
pub find_raw_value-first_value :
    (ws : Bytes) (fs : Fields) (rest wanted : Bytes)
    → IsWs ws
    → IsFields fs
    → length (ws ++ print (obj fs) rest) < 2 ^ 64
    → find_raw_value (ws ++ print (obj fs) rest) wanted ≡ first_value wanted (members fs)
unfolding find_raw_value
find_raw_value-first_value ws fs rest wanted w h fits =
    let body = ws ++ print (obj fs) rest in
    object_scan-fold no_end (wanted_key wanted body) body (wanted_step wanted) Any
      (wanted_key-Agrees wanted body fits) ws fs rest tt refl w h (All-Any (members fs))
    ∙ fold-first_value wanted (members fs)

-- The content of the first `protocolVersion`; nothing if it is no string.
abbrev pub first_version : List (Bytes × Json) → Scan Bytes
first_version [] = absent
first_version ((k, v) ∷ ms) =
    if equal k (codes "protocolVersion") then content v else first_version ms

abbrev version_step : Unit {0} → Bytes → Json → Scan (Round (Unit {0}) Bytes)
version_step u k v =
    if equal k (codes "protocolVersion")
    then (do s ← content v; found (return s))
    else found (next u)

abbrev returned {ℓ} : (S : Type ℓ) → Bytes → Round S Bytes
returned S s = return s

content_return :
    (m : Scan Bytes) (more : Unit {0} → Scan Bytes)
    → ((m >>= λ s. found (returned (Unit {0}) s)) >>= λ r. elim r [
      | next s' ↦ more s'
      | return x ↦ found x
    ])
      ≡ m
content_return (found s) more = refl
content_return absent more = refl
content_return stuck more = refl

fold-first_version : (ms : List (Bytes × Json)) → fold no_end version_step tt ms ≡ first_version ms
fold-first_version [] = refl
fold-first_version ((k, v) ∷ ms) = elim (Bool-cases (equal k (codes "protocolVersion"))) [
  | inl e ↦ rw e (content_return (content v) (λ s'. fold no_end version_step s' ms))
  | inr e ↦ rw e (fold-first_version ms)
]

content_here :
    (body : Bytes) (i : ℕ) (v : Json) (rest : Bytes)
    → At body i (print v rest)
    → IsJson v
    → (parse_string body i >>= λ r. found (returned (Unit {0} × ℕ) (slice body r.0 r.1)))
      ≡ behind (i + length (print v [])) (content v >>= λ s. found (returned (Unit {0}) s))
content_here body i (str s) rest at h =
    rw (parse_string-At body i s rest at h, slice-str body i s rest at)
content_here body i (token t) rest at h = rw (parse_string-other body i (token t) rest at h refl)
content_here body i (arr xs) rest at h = rw (parse_string-other body i (arr xs) rest at h refl)
content_here body i (obj fs) rest at h = rw (parse_string-other body i (obj fs) rest at h refl)

version_key-Agrees :
    (body : Bytes) → length body < 2 ^ 64 → Agrees Any body (version_key body) version_step
unfolding version_key
version_key-Agrees body fits s k i v rest _ at h d =
    elim (Bool-cases (equal k (codes "protocolVersion"))) [
      | inl e ↦ rw e (content_here body i v rest at h)
      | inr e ↦ rw (e, skip_value-here body i v rest at h d fits)
    ]

-- On an object `find_protocol_version` finds the content of the first `protocolVersion` member if
-- that is a string, and nothing if it is another value or there is none.
pub find_protocol_version-first_version :
    (ws : Bytes) (fs : Fields) (rest : Bytes)
    → IsWs ws
    → IsFields fs
    → length (ws ++ print (obj fs) rest) < 2 ^ 64
    → find_protocol_version (ws ++ print (obj fs) rest) ≡ first_version (members fs)
unfolding find_protocol_version
find_protocol_version-first_version ws fs rest w h fits =
    let body = ws ++ print (obj fs) rest in
    object_scan-fold no_end (version_key body) body version_step Any (version_key-Agrees body fits)
      ws fs rest tt refl w h (All-Any (members fs))
    ∙ fold-first_version (members fs)
