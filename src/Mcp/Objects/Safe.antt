-- ===== src/Mcp/Objects/Safe.antt =====
-- What the scans of src/mcp.rs return on any body at all, well formed or not: a string's inner
-- bytes are completely escaped, so they can be spliced between quotes.
use statico.Prelude.{
  ℕ, zero, suc, Option-cases, ◌+◌, ◌-◌, ◌≤◌, true, false, [], ◌∷◌, Option, none, some, ◌≡◌, refl,
  ◌∙◌, subst, Bytes, arith, length, drop, take, get_elem?, equal, codes, leb, ◌==◌, ==_iff, inl,
  inr, Bool-cases, length-append,
}
use statico.Mcp.Scan.{slice, skip_ws, value_end, skip_value, parse_string, is_ws}
use statico.Mcp.Scan.At.{At, At-append, get_elem?-At, slice-At}
use statico.Mcp.Scan.Tokens.{skip_ws-At}
use statico.Mcp.Scan.Holds.{Holds, Holds-bind, Holds-map, Holds-and}
use statico.Mcp.Scan.Bounds.{skip_value-Holds}
use statico.Mcp.Scan.Strings.{Quoted, parse_string-Quoted}
use statico.Mcp.Scan.Values.{slice-print}
use statico.Mcp.Json.{IsContent, str, quoted, print}
use statico.Mcp.Objects.Values.{behind_str, slice-str}
use statico.Mcp.Objects.{
  no_end, version_key, find_protocol_version, wanted_key, find_raw_value, CallTarget, target_key,
  target_end, find_call_target, string_inner,
}
use statico.Mcp.Objects.Total.{Kept, object_scan-Holds}

-- If the raw value is a string, its inner bytes are completely escaped.
abbrev pub IsRaw : Bytes → Type 0
IsRaw raw = (t : Bytes) → string_inner raw ≡ some t → IsContent t

pub string_inner-quoted : (t : Bytes) → string_inner (quoted t []) ≡ some t
unfolding string_inner
string_inner-quoted t =
    let raw = quoted t [] in
    let long = length-append t (b'"' ∷ []) in
    let last : length raw - 1 ≡ 0 + length (b'"' ∷ t) = omega (arith, long) in
    let inner : 0 + length (b'"' ∷ t) ≡ 1 + length t = omega arith in
    let enough : leb 2 (length raw) ≡ true = ground (arith, long) in
    rw (
      last,
      get_elem?-At raw (0 + length (b'"' ∷ t)) b'"' []
          (At-append raw 0 (b'"' ∷ t) (b'"' ∷ []) refl),
      enough,
      inner,
      slice-At raw 1 t (b'"' ∷ []) refl,
    )

string_inner-ne : (c : ℕ) (raw : Bytes) → (c == b'"') ≡ false → string_inner (c ∷ raw) ≡ none
unfolding string_inner
string_inner-ne c raw h = elim (Option-cases (get_elem? (c ∷ raw) (length (c ∷ raw) - 1))) [
  | inl e ↦ rw e (ground arith)
  | inr (last, e) ↦ rw (e, h) (ground arith)
]

-- A slice that does not begin with a quote is no string.
pub take-IsRaw :
    (n c : ℕ) (rest : Bytes) → (c == b'"') ≡ false → string_inner (take n (c ∷ rest)) ≡ none
take-IsRaw zero c rest h = unfold string_inner in refl
take-IsRaw (suc n) c rest h = string_inner-ne c (take n rest) h

pub none-IsRaw : (raw : Bytes) → string_inner raw ≡ none → IsRaw raw
none-IsRaw raw e t f = cc

take-nil : (n : ℕ) → string_inner (take n []) ≡ none
unfolding string_inner
take-nil zero = refl
take-nil (suc n) = refl

pub text_span :
    (body : Bytes) (i : ℕ) (span : ℕ × ℕ × ℕ) → Quoted body i span → IsRaw (slice body i span.2)
text_span body i span q =
    let text = q.text in
    let there : span.2 ≡ i + length (print (str text) []) =
      omega (arith, q.next_at, behind_str i text) in
    rw (there, slice-print body i (str text) q.rest q.at)
      (λ t e. let same : text ≡ t = cc (string_inner-quoted text) in subst IsContent same q.escaped)

value_end-IsRaw :
    (body : Bytes) (i : ℕ) (rest : Bytes)
    → At body i (b'"' ∷ rest)
    → Holds (λ n. IsRaw (slice body i n)) (value_end body i)
unfolding value_end
value_end-IsRaw body i rest at = rw (get_elem?-At body i b'"' rest at) (
    Holds-bind (Quoted body i) (λ n. IsRaw (slice body i n)) (parse_string body i) _
      (parse_string-Quoted body i) (λ span _ q. text_span body i span q))

-- What `skip_value` passes over is no string, or one with completely escaped content.
pub skip_value-IsRaw :
    (body : Bytes) (i : ℕ) → Holds (λ n. IsRaw (slice body i n)) (skip_value body i)
skip_value-IsRaw body i = go (drop i body) refl
  where
    other :
        ((n : ℕ) → string_inner (slice body i n) ≡ none)
        → Holds (λ n. IsRaw (slice body i n)) (skip_value body i)
    other h =
        Holds-map _ (λ n. IsRaw (slice body i n)) (skip_value body i) (skip_value-Holds body i)
          (λ n _. none-IsRaw (slice body i n) (h n))

    go :
        (suffix : Bytes)
        → At body i suffix
        → Holds (λ n. IsRaw (slice body i n)) (skip_value body i)
    go [] at = other (λ n. rw at (take-nil (n - i)))
    go (c ∷ rest) at = elim (Bool-cases (c == b'"')) [
      | inr h ↦ other (λ n. rw at (take-IsRaw (n - i) c rest h))
      | inl h ↦
          let here : At body i (b'"' ∷ rest) = at ∙ rw ((==_iff c b'"').0 h) in
          let still : skip_ws body i ≡ i =
            skip_ws-At body i [] (b'"' ∷ rest) here tt (unfold is_ws in refl) ∙ omega arith in
          unfold skip_value in rw still (value_end-IsRaw body i rest here)
    ]

abbrev pub IsValueEnd : Bytes → ℕ → ℕ → Type 0
IsValueEnd body i n = ((i ≤ n) × (n ≤ length body)) × IsRaw (slice body i n)

pub skip_value_safe : (body : Bytes) (i : ℕ) → Holds (IsValueEnd body i) (skip_value body i)
skip_value_safe body i =
    Holds-and (λ n. (i ≤ n) × (n ≤ length body)) (λ n. IsRaw (slice body i n)) (skip_value body i)
      (skip_value-Holds body i) (skip_value-IsRaw body i)

abbrev Any {ℓ} : {A : Type ℓ} → A → Type 0
Any a = Unit

wanted_key-Kept :
    (wanted obj : Bytes) (s : Unit {0}) (key : Bytes) (i : ℕ)
    → Holds (Kept Any IsRaw i) (wanted_key wanted obj s key i)
unfolding wanted_key
wanted_key-Kept wanted obj s key i =
    Holds-bind (IsValueEnd obj i) (Kept Any IsRaw i) (skip_value obj i) _ (skip_value_safe obj i)
      (λ n _ h. elim (Bool-cases (equal key wanted)) [
        | inl e ↦ rw e h.1
        | inr e ↦ rw e (tt, h.0.0)
      ])

-- On any bytes `find_raw_value` ends, and a string that it finds is completely escaped.
pub find_raw_value-IsRaw : (obj wanted : Bytes) → Holds IsRaw (find_raw_value obj wanted)
unfolding find_raw_value
find_raw_value-IsRaw obj wanted =
    object_scan-Holds Any IsRaw no_end (wanted_key wanted obj) obj (λ s _. tt)
      (λ s ks ke i _. wanted_key-Kept wanted obj s (slice obj ks ke) i) tt tt

version_key-Kept :
    (params : Bytes) (s : Unit {0}) (key : Bytes) (i : ℕ)
    → Holds (Kept Any IsContent i) (version_key params s key i)
unfolding version_key
version_key-Kept params s key i = elim (Bool-cases (equal key (codes "protocolVersion"))) [
  | inl e ↦ rw e (
      Holds-bind (Quoted params i) (Kept Any IsContent i) (parse_string params i) _
        (parse_string-Quoted params i)
        (λ span _ q. rw (q.from_start, q.to_end, slice-str params i q.text q.rest q.at) q.escaped))
  | inr e ↦ rw e (
      Holds-bind (IsValueEnd params i) (Kept Any IsContent i) (skip_value params i) _
        (skip_value_safe params i) (λ n _ h. (tt, h.0.0)))
]

-- On any bytes `find_protocol_version` ends, and the version that it finds is completely escaped.
pub find_protocol_version-IsContent :
    (params : Bytes) → Holds IsContent (find_protocol_version params)
unfolding find_protocol_version
find_protocol_version-IsContent params =
    object_scan-Holds Any IsContent no_end (version_key params) params (λ s _. tt)
      (λ s ks ke i _. version_key-Kept params s (slice params ks ke) i) tt tt

abbrev pub IsRawOption : Option Bytes → Type 0
IsRawOption none = Unit
IsRawOption (some raw) = IsRaw raw

abbrev IsTarget : CallTarget → Type 0
IsTarget t = IsRawOption t.name × IsRawOption t.arguments

abbrev pub IsCall : Bytes × Option Bytes → Type 0
IsCall (name, arguments) = IsRaw name × IsRawOption arguments

target_key-Kept :
    (params : Bytes) (t : CallTarget) (key : Bytes) (i : ℕ)
    → IsTarget t
    → Holds (Kept IsTarget IsCall i) (target_key params t key i)
unfolding target_key
target_key-Kept params t key i h =
    Holds-bind (IsValueEnd params i) (Kept IsTarget IsCall i) (skip_value params i) _
      (skip_value_safe params i)
      (λ n _ v. elim (Bool-cases (equal key (codes "name"))) [
        | inl e ↦ rw e ((v.1, h.1), v.0.0)
        | inr e ↦ rw e (elim (Bool-cases (equal key (codes "arguments"))) [
          | inl e' ↦ rw e' ((h.0, v.1), v.0.0)
          | inr e' ↦ rw e' (h, v.0.0)
        ])
      ])

target_end-IsCall : (t : CallTarget) → IsTarget t → Holds IsCall (target_end t)
unfolding target_end
target_end-IsCall t h = elim (Option-cases t.name) [
  | inl e ↦ rw e tt
  | inr (name, e) ↦ rw e (subst IsRawOption e h.0, h.1)
]

-- On any bytes `find_call_target` ends, and the strings among what it finds are completely escaped.
pub find_call_target-IsCall : (params : Bytes) → Holds IsCall (find_call_target params)
unfolding find_call_target
find_call_target-IsCall params =
    object_scan-Holds IsTarget IsCall target_end (target_key params) params target_end-IsCall
      (λ t ks ke i h. target_key-Kept params t (slice params ks ke) i h)
      (record { name = none; arguments = none }) (tt, tt)
