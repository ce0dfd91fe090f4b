-- ===== src/Mcp/Dispatch/Streams.antt =====
-- When the dispatcher of src/mcp.rs streams its answer.
use statico.Prelude.{
  ℕ, ◌≤◌, Bool-cases, equal, eq_of_equal, refl, [], ◌∷◌, ◌++◌, ◌≡◌, ◌≢◌, inl, inr, sym, ap, ◌∙◌,
  Bytes, Option, codes, true, false, Option-cases, arith, length, length-append,
}
use statico.Mcp.Scan.{Scan, found, absent, stuck}
use statico.Mcp.Objects.{Rpc, parse_rpc}
use statico.Mcp.Fragments.{sse_event_prefix, sse_event_suffix}
use statico.Mcp.Dispatch.{
  or_none, unwrap_or, has_id, is_notifications, handle_tools_call, DispatchOutput, empty, json,
  sse_tools_call, dispatch_request, dispatch_message, dispatch_rpc,
}
use statico.Mcp.Dispatch.Modes.{event, CallModes, request_same, called}

request_not_streamed :
    (method id : Bytes) (params_raw : Option Bytes) (f : Bytes)
    → dispatch_request method id params_raw false ≢ sse_tools_call f
unfolding dispatch_request
request_not_streamed method id params_raw f h = ground arith

message_not_streamed : (rpc : Rpc) (f : Bytes) → dispatch_message rpc false ≢ sse_tools_call f
unfolding dispatch_message
message_not_streamed rpc f = elim (Option-cases rpc.method) [
  | inl e ↦ rw e (λ h. ground arith)
  | inr (m, e) ↦
      let never = request_not_streamed m (unwrap_or rpc.id_raw (codes "null")) rpc.params_raw f in
      rw e (λ h. ground (arith, never))
]

-- Without SSE no answer is streamed.
pub dispatch_rpc_not_streamed : (body f : Bytes) → dispatch_rpc body false ≢ sse_tools_call f
dispatch_rpc_not_streamed [] f = unfold dispatch_rpc in λ h. ground arith
dispatch_rpc_not_streamed (c ∷ rest) f = elim (Option-cases (or_none (parse_rpc (c ∷ rest)))) [
  | inl e ↦ unfold dispatch_rpc in rw (e, dispatch_rpc) (λ h. ground arith)
  | inr (rpc, e) ↦ unfold dispatch_rpc in rw (e, dispatch_rpc) (message_not_streamed rpc f)
]

abbrev streamed_bytes : DispatchOutput → Bytes
streamed_bytes (sse_tools_call f) = f
streamed_bytes (json status b) = []
streamed_bytes (empty status) = []

-- A streamed answer is an event.
abbrev IsEvent : Bytes → Type 0
IsEvent f = (b : Bytes) × (event b ≡ f)

call_streamed :
    (m : Scan Bytes) (st : ℕ) (b f : Bytes) (plain sse : DispatchOutput)
    → CallModes m (json st b) plain sse
    → sse ≡ sse_tools_call f
    → IsEvent f
call_streamed (found body) st b f plain sse h e = (body, ap streamed_bytes (sym h.1 ∙ e))
call_streamed absent st b f plain sse h e = absurd (ground (arith, h.1, e))
call_streamed stuck st b f plain sse h e = absurd (ground (arith, h.1, e))

request_streamed :
    (method id : Bytes) (params_raw : Option Bytes) (f : Bytes)
    → dispatch_request method id params_raw true ≡ sse_tools_call f
    → IsEvent f
request_streamed method id params_raw f h = elim (Bool-cases (equal method (codes "tools/call"))) [
  | inr n ↦
      absurd (request_not_streamed method id params_raw f (request_same method id params_raw n ∙ h))
  | inl y ↦
      let it = eq_of_equal method (codes "tools/call") y in
      call_streamed (handle_tools_call id params_raw false) _ _ f _ _ (called id params_raw)
        (ap (λ (m : Bytes). dispatch_request m id params_raw true) (sym it) ∙ h)
]

message_streamed :
    (rpc : Rpc) (f : Bytes) → dispatch_message rpc true ≡ sse_tools_call f → IsEvent f
unfolding dispatch_message
message_streamed rpc f h = elim (Option-cases rpc.method) [
  | inl e ↦ absurd (ground (arith, h, e))
  | inr (m, e) ↦
      let id = unwrap_or rpc.id_raw (codes "null") in
      elim (Bool-cases (is_notifications m)) [
        | inl y ↦ absurd (ground (arith, h, e, y))
        | inr n ↦ elim (Bool-cases (has_id rpc.id_raw)) [
          | inr n' ↦ absurd (ground (arith, h, e, n, n'))
          | inl y ↦
              let it : dispatch_message rpc true ≡ dispatch_request m id rpc.params_raw true =
                rw (e, n, y, dispatch_message) refl in
              request_streamed m id rpc.params_raw f (sym it ∙ h)
        ]
      ]
]

body_streamed : (body f : Bytes) → dispatch_rpc body true ≡ sse_tools_call f → IsEvent f
body_streamed [] f = unfold dispatch_rpc in λ h. absurd (ground arith)
body_streamed (c ∷ rest) f = elim (Option-cases (or_none (parse_rpc (c ∷ rest)))) [
  | inl e ↦ unfold dispatch_rpc in rw (e, dispatch_rpc) (λ h. absurd (ground arith))
  | inr (rpc, e) ↦ unfold dispatch_rpc in rw (e, dispatch_rpc) (message_streamed rpc f)
]

-- A streamed answer has at least the bytes of the event around it.
pub dispatch_rpc_streamed :
    (body f : Bytes) → dispatch_rpc body true ≡ sse_tools_call f → 1 ≤ length f
unfolding sse_event_prefix
dispatch_rpc_streamed body f h =
    let it = body_streamed body f h in
    omega (arith, ap length it.1, length-append sse_event_prefix (it.0 ++ sse_event_suffix))
