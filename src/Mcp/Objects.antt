-- ===== src/Mcp/Objects.antt =====
-- The loops of src/mcp.rs over the members of a JSON object: `parse_rpc`, `find_protocol_version`,
-- `find_raw_value` and `find_call_target`, with `string_inner`. The four loops are one in the
-- source but for what they do at a key and at the closing brace, which `object_loop` takes as
-- arguments. Every round moves on by two bytes at least, so the body's length is fuel enough.
pub mod Total
pub mod Members
pub mod Values
pub mod Lookup
pub mod Targets
pub mod Requests
pub mod Safe
pub mod Messages
use statico.Prelude.{
  ℕ, zero, suc, ◌+◌, ◌-◌, Bool, true, false, not, ◌&&◌, List, [], ◌∷◌, Option, none, some, Bytes,
  get_elem?, drop, length, leb, ◌==◌, equal, if◌then◌else◌, codes,
}
use statico.Mcp.Scan.{
  Scan, found, absent, stuck, ◌>>=◌, ask, slice, skip_ws, parse_string, token_end, Round, next,
  return, skip_value,
}

module _ {ℓ κ} {S : Type ℓ} {R : Type κ} where
  -- Behind a member's value: a comma, or a closing brace.
  unfoldable pub after_member : (S → Scan R) → Bytes → S → ℕ → Scan (Round (S × ℕ) R)
  after_member on_end body s after_value = do
    let sep = skip_ws body after_value
    e ← ask (get_elem? body sep)
    if e == b','
        then found (next (s, sep + 1))
        else if e == b'}'
        then (do v ← on_end s; found (return v))
        else absent

  abbrev pub after_value : (S → Scan R) → Bytes → Round (S × ℕ) R → Scan (Round (S × ℕ) R)
  after_value on_end body (return v) = found (return v)
  after_value on_end body (next (s, i)) = after_member on_end body s i

  -- One round, from position `i`: a closing brace, or a key, a colon, what `on_key` does at the
  -- value, and what follows the member.
  unfoldable pub object_round :
      (S → Scan R)
      → (S → Bytes → ℕ → Scan (Round (S × ℕ) R))
      → Bytes
      → ℕ
      → S
      → Scan (Round (S × ℕ) R)
  object_round on_end on_key body i s = do
    let at_key = skip_ws body i
    c ← ask (get_elem? body at_key)
    if c == b'}' then (do v ← on_end s; found (return v)) else (do
      (ks, ke, after_key) ← parse_string body at_key
      let colon = skip_ws body after_key
      d ← ask (get_elem? body colon)
      if not (d == b':') then absent else (do
        r ← on_key s (slice body ks ke) (skip_ws body (colon + 1))
        after_value on_end body r))

  abbrev pub continue : (S → ℕ → Scan R) → Round (S × ℕ) R → Scan R
  continue loop (next (s, i)) = loop s i
  continue loop (return v) = found v

  unfoldable pub object_loop :
      ℕ → (S → Scan R) → (S → Bytes → ℕ → Scan (Round (S × ℕ) R)) → Bytes → ℕ → S → Scan R
  object_loop zero on_end on_key body i s = stuck
  object_loop (suc fuel) on_end on_key body i s = do
    r ← object_round on_end on_key body i s
    continue (λ s' i'. object_loop fuel on_end on_key body i' s') r

  unfoldable pub object_scan :
      (S → Scan R) → (S → Bytes → ℕ → Scan (Round (S × ℕ) R)) → Bytes → S → Scan R
  object_scan on_end on_key body s = do
    let i = skip_ws body 0
    c ← ask (get_elem? body i)
    if not (c == b'{') then absent else object_loop (length body) on_end on_key body (i + 1) s

pub record Rpc : Type 0 where
  pub method : Option Bytes
  pub id_raw : Option Bytes
  pub params_raw : Option Bytes

-- What `parse_rpc` does at the value of `key`, from position `i`.
unfoldable pub rpc_key : Bytes → Rpc → Bytes → ℕ → Scan (Round (Rpc × ℕ) Rpc)
rpc_key body rpc key i =
    if equal key (codes "method")
    then (do
      (ms, me, after) ← parse_string body i
      found (next (record rpc { method = some (slice body ms me) }, after)))
    else if equal key (codes "id")
    then (do
      c ← ask (get_elem? body i)
      if c == b'"'
          then (do
            (_, _, after) ← parse_string body i
            found (next (record rpc { id_raw = some (slice body i after) }, after)))
          else (let end = token_end (drop i body) i in
              if i == end
              then absent
              else found (next (record rpc { id_raw = some (slice body i end) }, end))))
    else if equal key (codes "params")
    then (do
      after ← skip_value body i
      found (next (record rpc { params_raw = some (slice body i after) }, after)))
    else (do after ← skip_value body i; found (next (rpc, after)))

abbrev pub empty_rpc : Rpc
empty_rpc = record { method = none; id_raw = none; params_raw = none }

unfoldable pub parse_rpc : Bytes → Scan Rpc
parse_rpc body = object_scan found (rpc_key body) body empty_rpc

abbrev pub no_end {ℓ κ} : {S : Type ℓ} {R : Type κ} → S → Scan R
no_end s = absent

unfoldable pub version_key : Bytes → Unit {0} → Bytes → ℕ → Scan (Round (Unit {0} × ℕ) Bytes)
version_key params u key i =
    if equal key (codes "protocolVersion")
    then (do (vs, ve, _) ← parse_string params i; found (return (slice params vs ve)))
    else (do after ← skip_value params i; found (next (u, after)))

unfoldable pub find_protocol_version : Bytes → Scan Bytes
find_protocol_version params = object_scan no_end (version_key params) params tt

unfoldable pub wanted_key : Bytes → Bytes → Unit {0} → Bytes → ℕ → Scan (Round (Unit {0} × ℕ) Bytes)
wanted_key wanted obj u key i = do
  after ← skip_value obj i
  found (if equal key wanted then return (slice obj i after) else next (u, after))

unfoldable pub find_raw_value : Bytes → Bytes → Scan Bytes
find_raw_value obj wanted = object_scan no_end (wanted_key wanted obj) obj tt

-- The raw `name` and the raw `arguments` of a `tools/call`, as far as they have been seen.
pub record CallTarget : Type 0 where
  pub name : Option Bytes
  pub arguments : Option Bytes

unfoldable pub target_key :
    Bytes → CallTarget → Bytes → ℕ → Scan (Round (CallTarget × ℕ) (Bytes × Option Bytes))
target_key params t key i = do
  after ← skip_value params i
  let value = slice params i after
  found (
      next (
        if equal key (codes "name")
            then record t { name = some value }
            else if equal key (codes "arguments")
            then record t { arguments = some value }
            else t,
        after,
      ))

unfoldable pub target_end : CallTarget → Scan (Bytes × Option Bytes)
target_end t = do name ← ask t.name; found (name, t.arguments)

unfoldable pub find_call_target : Bytes → Scan (Bytes × Option Bytes)
find_call_target params =
    object_scan target_end (target_key params) params (record { name = none; arguments = none })

-- `first == b'"' && last == b'"'`, on bytes that are there.
abbrev pub both_quotes : Option ℕ → Option ℕ → Bool
both_quotes (some first) (some last) = first == b'"' && last == b'"'
both_quotes _ _ = false

-- The bounds that the source indexes within follow from `raw.len() >= 2`.
unfoldable pub string_inner : Bytes → Option Bytes
string_inner raw =
    if leb 2 (length raw) && both_quotes (get_elem? raw 0) (get_elem? raw (length raw - 1))
    then some (slice raw 1 (length raw - 1))
    else none
