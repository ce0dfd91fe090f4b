-- ===== src/Mcp/Dispatch/Modes.antt =====
-- How `--mcp-sse` changes the answers of src/mcp.rs.
use statico.Prelude.{
  ℕ, ◌∷◌, ◌++◌, ◌≡◌, inl, inr, refl, Bytes, Option, none, some, codes, true, false, equal,
  eq_of_equal, starts_with, ap, ◌∙◌, Bool-cases, Option-cases, append_assoc, append-nil, ◌≢◌,
}
use statico.Mcp.Scan.{Scan, found, absent, stuck, ◌>>=◌, ask}
use statico.Mcp.Objects.{Rpc, parse_rpc, find_raw_value, find_call_target, string_inner}
use statico.Mcp.Fragments.{err_invalid_params_suffix, sse_event_prefix, sse_event_suffix}
use statico.Mcp.Dispatch.{
  or_none, frame, run_tool, handle_tools_call, build_framed_with_id, build_text_result,
  build_unknown_tool, build_error_with_id, DispatchOutput, json, sse_tools_call, has_id,
  is_notifications, dispatch_request, dispatch_message, dispatch_rpc,
}

-- The event around a response.
abbrev pub event : Bytes → Bytes
event b = sse_event_prefix ++ (b ++ sse_event_suffix)

framed : Scan Bytes → Scan Bytes
framed m = m >>= λ b. found (event b)

text_framed :
    (id : Bytes) (o : Option Bytes)
    → (ask o >>= λ t. found (build_text_result (frame true).0 id t (frame true).1))
      ≡ framed (ask o >>= λ t. found (build_text_result (frame false).0 id t (frame false).1))
unfolding build_text_result frame framed
text_framed id none = refl
text_framed id (some t) = simp (append_assoc, append-nil)

value_framed :
    (id : Bytes) (m : Scan Bytes)
    → (m >>= λ raw. ask (string_inner raw) >>= λ t.
        found (build_text_result (frame true).0 id t (frame true).1))
      ≡ framed (
          m >>= λ raw. ask (string_inner raw) >>= λ t.
          found (build_text_result (frame false).0 id t (frame false).1))
value_framed id (found raw) = text_framed id (string_inner raw)
value_framed id absent = unfold framed in refl
value_framed id stuck = unfold framed in refl

echo_framed :
    (id : Bytes) (arguments_raw : Option Bytes)
    → (ask arguments_raw >>= λ a. find_raw_value a (codes "text") >>= λ raw.
        ask (string_inner raw) >>= λ t.
        found (build_text_result (frame true).0 id t (frame true).1))
      ≡ framed (
          ask arguments_raw >>= λ a. find_raw_value a (codes "text") >>= λ raw.
          ask (string_inner raw) >>= λ t.
          found (build_text_result (frame false).0 id t (frame false).1))
echo_framed id none = unfold framed in refl
echo_framed id (some a) = value_framed id (find_raw_value a (codes "text"))

run_tool_modes :
    (id name : Bytes) (arguments_raw : Option Bytes)
    → run_tool id (frame true) name arguments_raw
      ≡ framed (run_tool id (frame false) name arguments_raw)
unfolding run_tool
run_tool_modes id name arguments_raw = elim (Bool-cases (equal name (codes "answer"))) [
  | inl a ↦ rw a (unfold framed frame build_framed_with_id in simp (append_assoc, append-nil))
  | inr n ↦ rw n (elim (Bool-cases (equal name (codes "echo"))) [
    | inl a ↦ rw a (echo_framed id arguments_raw)
    | inr m ↦ rw m (unfold framed frame build_unknown_tool in simp (append_assoc, append-nil))
  ])
]

named_modes :
    (id : Bytes) (o arguments_raw : Option Bytes)
    → (ask o >>= λ name. run_tool id (frame true) name arguments_raw)
      ≡ framed (ask o >>= λ name. run_tool id (frame false) name arguments_raw)
named_modes id none arguments_raw = unfold framed in refl
named_modes id (some name) arguments_raw = run_tool_modes id name arguments_raw

target_modes :
    (id : Bytes) (m : Scan (Bytes × Option Bytes))
    → (m >>= λ call. ask (string_inner call.0) >>= λ name. run_tool id (frame true) name call.1)
      ≡ framed (
          m >>= λ call. ask (string_inner call.0) >>= λ name. run_tool id (frame false) name call.1)
target_modes id (found call) = named_modes id (string_inner call.0) call.1
target_modes id absent = unfold framed in refl
target_modes id stuck = unfold framed in refl

handle_tools_call_modes :
    (id : Bytes) (params_raw : Option Bytes)
    → handle_tools_call id params_raw true ≡ framed (handle_tools_call id params_raw false)
unfolding handle_tools_call
handle_tools_call_modes id none = unfold framed in refl
handle_tools_call_modes id (some params) = target_modes id (find_call_target params)

-- The two answers to a call of a tool: the same error, an answer with status 200 and the event
-- around its bytes.
abbrev pub CallModes : Scan Bytes → DispatchOutput → DispatchOutput → DispatchOutput → Type 0
CallModes (found b) error plain sse = (plain ≡ json 200 b) × (sse ≡ sse_tools_call (event b))
CallModes _ error plain sse = (plain ≡ error) × (sse ≡ error)

-- The answer to a call whose parameters do not give one.
abbrev pub call_error : Bytes → DispatchOutput
call_error id = json 200 (build_error_with_id id err_invalid_params_suffix)

call_modes :
    (m : Scan Bytes) (error : DispatchOutput)
    → CallModes m error
        (elim (or_none m) [ some body ↦ json 200 body | none ↦ error ])
        (elim (or_none (framed m)) [ some body ↦ sse_tools_call body | none ↦ error ])
unfolding framed
call_modes (found b) error = (refl, refl)
call_modes absent error = (refl, refl)
call_modes stuck error = (refl, refl)

-- A method that is not `tools/call`.
pub request_same :
    (method id : Bytes) (params_raw : Option Bytes)
    → equal method (codes "tools/call") ≡ false
    → dispatch_request method id params_raw false ≡ dispatch_request method id params_raw true
unfolding dispatch_request
request_same method id params_raw n4 = elim (Bool-cases (equal method (codes "initialize"))) [
  | inl e ↦ rw e refl
  | inr n1 ↦ rw n1 (elim (Bool-cases (equal method (codes "tools/list"))) [
    | inl e ↦ rw e refl
    | inr n2 ↦ rw n2 (elim (Bool-cases (equal method (codes "ping"))) [
      | inl e ↦ rw e refl
      | inr n3 ↦ rw (n3, n4) refl
    ])
  ])
]

-- An answer to a call of a tool in both modes, by what `handle_tools_call` gives without SSE.
pub called :
    (id : Bytes) (params_raw : Option Bytes)
    → CallModes
        (handle_tools_call id params_raw false)
        (call_error id)
        (dispatch_request (codes "tools/call") id params_raw false)
        (dispatch_request (codes "tools/call") id params_raw true)
unfolding dispatch_request equal
called id params_raw =
    rw (handle_tools_call_modes id params_raw)
      (call_modes (handle_tools_call id params_raw false) (call_error id))

-- The answers to a message in the two modes: the same, but to a call of a tool with an id.
abbrev pub SameModes : Rpc → DispatchOutput → DispatchOutput → Type 0
SameModes rpc plain sse =
    (rpc.method ≢ some (codes "tools/call") → plain ≡ sse)
    × ((id : Bytes)
        → rpc.method ≡ some (codes "tools/call")
        → rpc.id_raw ≡ some id
        → id ≢ codes "null"
        → CallModes (handle_tools_call id rpc.params_raw false) (call_error id) plain sse)

other_methods :
    (rpc : Rpc)
    → rpc.method ≢ some (codes "tools/call")
    → dispatch_message rpc false ≡ dispatch_message rpc true
unfolding dispatch_message
other_methods rpc h = elim (Option-cases rpc.method) [
  | inl e ↦ rw (e, dispatch_message) refl
  | inr (method, e) ↦
      let other : equal method (codes "tools/call") ≡ false =
        elim (Bool-cases (equal method (codes "tools/call"))) [
          | inl y ↦ absurd (h (e ∙ ap some (eq_of_equal method (codes "tools/call") y)))
          | inr n ↦ n
        ] in
      rw (e, dispatch_message)
        (elim (Bool-cases (is_notifications method)) [
          | inl y ↦ rw y refl
          | inr n ↦ rw n (elim (Bool-cases (has_id rpc.id_raw)) [
            | inl y ↦ rw y (request_same method _ rpc.params_raw other)
            | inr n' ↦ rw n' refl
          ])
        ])
]

tool_calls :
    (rpc : Rpc) (id : Bytes)
    → rpc.method ≡ some (codes "tools/call")
    → rpc.id_raw ≡ some id
    → id ≢ codes "null"
    → CallModes
        (handle_tools_call id rpc.params_raw false)
        (call_error id)
        (dispatch_message rpc false)
        (dispatch_message rpc true)
unfolding dispatch_message has_id is_notifications starts_with
tool_calls rpc id m e h =
    let real : equal id (codes "null") ≡ false = elim (Bool-cases (equal id (codes "null"))) [
      | inl y ↦ absurd (h (eq_of_equal id (codes "null") y))
      | inr n ↦ n
    ] in
    rw (m, e, real, dispatch_message) (called id rpc.params_raw)

-- The same on a body, which may not hold a message.
abbrev pub SameModesOf : Option Rpc → DispatchOutput → DispatchOutput → Type 0
SameModesOf none plain sse = plain ≡ sse
SameModesOf (some rpc) plain sse = SameModes rpc plain sse

-- On a body of at least one byte: if no message is found in it, or one that is not a call of a
-- tool, the two modes answer alike, whatever its method, id and parameters. To a call of a tool with
-- an id other than null, both answer with the same error, or `handle_tools_call` gives some bytes,
-- the plain mode answers 200 with them and the SSE mode with one event around them.
pub dispatch_rpc_modes :
    (c : ℕ) (rest : Bytes)
    → SameModesOf
        (or_none (parse_rpc (c ∷ rest)))
        (dispatch_rpc (c ∷ rest) false)
        (dispatch_rpc (c ∷ rest) true)
unfolding dispatch_rpc
dispatch_rpc_modes c rest = elim (Option-cases (or_none (parse_rpc (c ∷ rest)))) [
  | inl e ↦ rw (e, dispatch_rpc) refl
  | inr (rpc, e) ↦ rw (e, dispatch_rpc) (other_methods rpc, tool_calls rpc)
]
