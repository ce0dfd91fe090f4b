-- ===== src/Mcp/Objects/Requests.antt =====
-- What `parse_rpc` of src/mcp.rs returns on any body at all, well formed or not.
use statico.Prelude.{
  ℕ, ◌≤◌, ◌-◌, false, ◌==◌, drop, Option, none, some, ◌≡◌, Bytes, arith, get_elem?, equal, codes,
  inl, inr, Bool-cases,
}
use statico.Mcp.Scan.{slice, token_end, skip_value, parse_string}
use statico.Mcp.Scan.At.{get_elem?-head}
use statico.Mcp.Scan.Holds.{Holds, Holds-bind, Holds-ask}
use statico.Mcp.Scan.Bounds.{token_end_bounds}
use statico.Mcp.Scan.Strings.{Quoted, parse_string-Quoted}
use statico.Mcp.Json.{IsContent}
use statico.Mcp.Objects.Values.{slice-str}
use statico.Mcp.Objects.{Rpc, rpc_key, empty_rpc, parse_rpc}
use statico.Mcp.Objects.Total.{Kept, object_scan-Holds}
use statico.Mcp.Objects.Safe.{
  IsRaw, IsRawOption, take-IsRaw, none-IsRaw, text_span, IsValueEnd, skip_value_safe,
}

abbrev pub IsMethod : Option Bytes → Type 0
IsMethod none = Unit
IsMethod (some method) = IsContent method

-- The method is completely escaped, and so are the contents of an id and of params that are strings.
abbrev pub IsMessage : Rpc → Type 0
IsMessage rpc = IsMethod rpc.method × IsRawOption rpc.id_raw × IsRawOption rpc.params_raw

IsMethod-slice :
    (body : Bytes) (rpc : Rpc) (i : ℕ) (span : ℕ × ℕ × ℕ)
    → IsMessage rpc
    → Quoted body i span
    → IsMethod (some (slice body span.0 span.1)) × (i ≤ span.2)
IsMethod-slice body rpc i span m q = (
  rw (q.from_start, q.to_end, slice-str body i q.text q.rest q.at) q.escaped,
  omega (arith, q.next_at),
)

-- A slice that does not begin with a quote.
bare_id :
    (body : Bytes) (i c end : ℕ)
    → get_elem? body i ≡ some c
    → (c == b'"') ≡ false
    → IsRaw (slice body i end)
bare_id body i c end e n =
    let there = get_elem?-head body i c e in
    none-IsRaw (slice body i end) (rw there.1 (take-IsRaw (end - i) c there.0 n))

rpc_key-Kept :
    (body : Bytes) (rpc : Rpc) (key : Bytes) (i : ℕ)
    → IsMessage rpc
    → Holds (Kept IsMessage IsMessage i) (rpc_key body rpc key i)
unfolding rpc_key
rpc_key-Kept body rpc key i m = elim (Bool-cases (equal key (codes "method"))) [
  | inl e ↦ rw e (
      Holds-bind (Quoted body i) (Kept IsMessage IsMessage i) (parse_string body i) _
        (parse_string-Quoted body i)
        (λ span _ q. let kept = IsMethod-slice body rpc i span m q in ((kept.0, m.1, m.2), kept.1)))
  | inr e ↦ rw e (elim (Bool-cases (equal key (codes "id"))) [
    | inl f ↦ rw f (
        Holds-ask (Kept IsMessage IsMessage i) (get_elem? body i) _ (λ c there.
          elim (Bool-cases (c == b'"')) [
            | inl y ↦ rw y (
                Holds-bind (Quoted body i) (Kept IsMessage IsMessage i) (parse_string body i) _
                  (parse_string-Quoted body i)
                  (λ span _ q. ((m.0, text_span body i span q, m.2), omega (arith, q.next_at))))
            | inr n ↦ rw n (elim (Bool-cases (i == token_end (drop i body) i)) [
              | inl z ↦ rw z tt
              | inr s ↦ rw s (
                (m.0, bare_id body i c (token_end (drop i body) i) there n, m.2),
                omega (arith, (token_end_bounds (drop i body) i).0),
              )
            ])
          ]))
    | inr f ↦ rw f (elim (Bool-cases (equal key (codes "params"))) [
      | inl g ↦ rw g (
          Holds-bind (IsValueEnd body i) (Kept IsMessage IsMessage i) (skip_value body i) _
            (skip_value_safe body i) (λ n _ v. ((m.0, m.1, v.1), v.0.0)))
      | inr g ↦ rw g (
          Holds-bind (IsValueEnd body i) (Kept IsMessage IsMessage i) (skip_value body i) _
            (skip_value_safe body i) (λ n _ v. (m, v.0.0)))
    ])
  ])
]

-- On any bytes `parse_rpc` ends; of a message that it finds, the method is completely escaped, and so
-- are an id and params that are strings.
pub parse_rpc-IsMessage : (body : Bytes) → Holds IsMessage (parse_rpc body)
unfolding parse_rpc
parse_rpc-IsMessage body =
    object_scan-Holds IsMessage IsMessage _ (rpc_key body) body (λ s m. m)
      (λ s ks ke i m. rpc_key-Kept body s (slice body ks ke) i m) empty_rpc (tt, tt, tt)
