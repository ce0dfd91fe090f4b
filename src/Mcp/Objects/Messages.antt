-- ===== src/Mcp/Objects/Messages.antt =====
-- `parse_rpc` of src/mcp.rs on well-formed messages.
use statico.Prelude.{
  ℕ, ◌+◌, ◌^◌, ◌<◌, true, false, [], ◌∷◌, ◌++◌, some, ◌≡◌, refl, ◌∙◌, ap, append-nil, Bytes, All,
  arith, length, drop, equal, codes, Bool-cases, inl, inr, if◌then◌else◌, ◌==◌,
}
use statico.Mcp.Scan.{Scan, found, ◌>>=◌, slice, Round, next, token_end, parse_string}
use statico.Mcp.Scan.At.{At, get_elem?-At}
use statico.Mcp.Scan.Tokens.{Delimited, parse_string-At, token_end-IsToken}
use statico.Mcp.Scan.Values.{slice-print}
use statico.Mcp.Json.{Json, str, token, arr, obj, Fields, IsWs, IsJson, IsFields, print}
use statico.Mcp.Objects.{Rpc, empty_rpc, rpc_key, parse_rpc}
use statico.Mcp.Objects.Values.{content, skip_value-here, parse_string-other, slice-str, behind_str}
use statico.Mcp.Objects.Members.{members, fold, behind, Agrees, object_scan-fold}

-- JSON-RPC 2.0 allows a string, a number or null for `id`.
abbrev pub IsScalar : Json → Type 0
IsScalar (str s) = Unit
IsScalar (token t) = Unit
IsScalar _ = ⊥

abbrev pub HasScalarId : Bytes × Json → Type 0
HasScalarId (k, v) = equal k (codes "id") ≡ true → IsScalar v

-- What one member adds to a message. A `method` that is no string is an error.
abbrev pub rpc_step : Rpc → Bytes → Json → Scan (Round Rpc Rpc)
rpc_step rpc k v =
    if equal k (codes "method")
    then (do s ← content v; found (next (record rpc { method = some s })))
    else if equal k (codes "id")
    then found (next (record rpc { id_raw = some (print v []) }))
    else if equal k (codes "params")
    then found (next (record rpc { params_raw = some (print v []) }))
    else found (next rpc)

abbrev as_next : Rpc → ℕ → Round (Rpc × ℕ) Rpc
as_next new i = next (new, i)

abbrev only_next : Rpc → Round Rpc Rpc
only_next new = next new

method_here :
    (body : Bytes) (rpc : Rpc) (i : ℕ) (v : Json) (rest : Bytes)
    → At body i (print v rest)
    → IsJson v
    → (parse_string body i >>= λ r.
        found (as_next (record rpc { method = some (slice body r.0 r.1) }) r.2))
      ≡ behind
          (i + length (print v []))
          (content v >>= λ s. found (only_next (record rpc { method = some s })))
method_here body rpc i (str s) rest at h =
    rw (parse_string-At body i s rest at h, slice-str body i s rest at, behind_str i s)
method_here body rpc i (token t) rest at h = rw (parse_string-other body i (token t) rest at h refl)
method_here body rpc i (arr xs) rest at h = rw (parse_string-other body i (arr xs) rest at h refl)
method_here body rpc i (obj fs) rest at h = rw (parse_string-other body i (obj fs) rest at h refl)

id_here :
    (body : Bytes) (rpc : Rpc) (k : Bytes) (i : ℕ) (v : Json) (rest : Bytes)
    → equal k (codes "method") ≡ false
    → equal k (codes "id") ≡ true
    → IsScalar v
    → At body i (print v rest)
    → IsJson v
    → Delimited rest
    → rpc_key body rpc k i
      ≡ found (next (record rpc { id_raw = some (print v []) }, i + length (print v [])))
unfolding rpc_key
id_here body rpc k i (str s) rest m e p at h d = rw (
  m,
  e,
  get_elem?-At body i b'"' _ at,
  parse_string-At body i s rest at h,
  behind_str i s,
  slice-print body i (str s) rest at,
)
id_here body rpc k i (token []) rest m e p at h d = absurd (h.1 refl)
id_here body rpc k i (token (c ∷ t)) rest m e p at h d =
    let whole : length (c ∷ t) ≡ length (print (token (c ∷ t)) []) = rw append-nil in
    let reads : token_end (drop i body) i ≡ i + length (print (token (c ∷ t)) []) =
      ap (λ x. token_end x i) at ∙ token_end-IsToken (c ∷ t) rest i h.0 d ∙ ap (λ n. i + n) whole in
    let unquoted : (c == b'"') ≡ false = ground (arith, h.0.0.1) in
    let moved : (i == i + length (print (token (c ∷ t)) [])) ≡ false = ground arith in
    rw (
      m,
      e,
      get_elem?-At body i c _ at,
      unquoted,
      reads,
      moved,
      slice-print body i (token (c ∷ t)) rest at,
    )
id_here body rpc k i (arr xs) rest m e p at h d = absurd p
id_here body rpc k i (obj fs) rest m e p at h d = absurd p

rpc_key-Agrees :
    (body : Bytes) → length body < 2 ^ 64 → Agrees HasScalarId body (rpc_key body) rpc_step
rpc_key-Agrees body fits s k i v rest p at h d = elim (Bool-cases (equal k (codes "method"))) [
  | inl e ↦ unfold rpc_key in rw e (method_here body s i v rest at h)
  | inr m ↦ elim (Bool-cases (equal k (codes "id"))) [
    | inl e ↦ rw (m, e) (id_here body s k i v rest m e (p e) at h d)
    | inr n ↦
        unfold rpc_key in
        elim (Bool-cases (equal k (codes "params"))) [
          | inl e ↦
              rw (m, n, e, skip_value-here body i v rest at h d fits, slice-print body i v rest at)
          | inr e ↦ rw (m, n, e, skip_value-here body i v rest at h d fits)
        ]
  ]
]

-- On an object whose ids are scalars `parse_rpc` takes up the members in order: the last `method`,
-- `id` and `params` stand, and a `method` that is no string makes the message malformed.
pub parse_rpc-fold :
    (ws : Bytes) (fs : Fields) (rest : Bytes)
    → IsWs ws
    → IsFields fs
    → All HasScalarId (members fs)
    → length (ws ++ print (obj fs) rest) < 2 ^ 64
    → parse_rpc (ws ++ print (obj fs) rest) ≡ fold found rpc_step empty_rpc (members fs)
unfolding parse_rpc
parse_rpc-fold ws fs rest w h ps fits =
    let body = ws ++ print (obj fs) rest in
    object_scan-fold found (rpc_key body) body rpc_step HasScalarId (rpc_key-Agrees body fits) ws fs
      rest empty_rpc refl w h ps
