-- ===== src/Mcp/Dispatch.antt =====
-- The JSON-RPC dispatcher of src/mcp.rs: the builders of response bodies, `handle_tools_call` and
-- `dispatch_rpc`. A status code is its number.
pub mod Replies
pub mod Calls
pub mod Modes
pub mod Silent
pub mod Requests
pub mod Streams
use statico.Prelude.{
  ℕ, Bool, true, false, not, ◌&&◌, List, [], ◌∷◌, ◌++◌, Option, none, some, Bytes, length, ltb,
  equal, starts_with, if◌then◌else◌, codes,
}
use statico.Mcp.Scan.{Scan, found, absent, stuck, ◌>>=◌, ask}
use statico.Mcp.Objects.{
  Rpc, parse_rpc, find_protocol_version, find_raw_value, find_call_target, string_inner,
}
use statico.Mcp.Fragments.{
  prefix, sse_event_prefix, sse_event_suffix, default_protocol_version, server_name,
  init_result_prefix, init_result_mid, init_result_mid2, init_result_suffix, tools_list_result,
  ping_result, tools_call_answer_result, tools_call_text_prefix, tools_call_text_suffix,
  tools_call_unknown_prefix, tools_call_unknown_suffix, err_parse, err_invalid_suffix,
  err_invalid_params_suffix, err_method_prefix, err_method_suffix, cargo_pkg_version,
}

-- `Option` again, where a scan is known to end.
abbrev pub or_none {ℓ} : {A : Type ℓ} → Scan A → Option A
or_none (found a) = some a
or_none absent = none
or_none stuck = none

abbrev pub unwrap_or {ℓ} : {A : Type ℓ} → Option A → A → A
unwrap_or none d = d
unwrap_or (some a) d = a

unfoldable pub build_framed_with_id : Bytes → Bytes → Bytes → Bytes → Bytes
build_framed_with_id pre id result_fragment suf =
    pre ++ (prefix ++ (id ++ (result_fragment ++ suf)))

unfoldable pub build_with_id : Bytes → Bytes → Bytes
build_with_id id result_fragment = build_framed_with_id [] id result_fragment []

unfoldable pub build_text_result : Bytes → Bytes → Bytes → Bytes → Bytes
build_text_result pre id text suf =
    pre ++ (prefix ++ (id ++ (tools_call_text_prefix ++ (text ++ (tools_call_text_suffix ++ suf)))))

unfoldable pub build_unknown_tool : Bytes → Bytes → Bytes → Bytes → Bytes
build_unknown_tool pre id name_inner suf =
    pre
    ++ (prefix
        ++ (id
            ++ (tools_call_unknown_prefix ++ (name_inner ++ (tools_call_unknown_suffix ++ suf)))))

unfoldable pub build_initialize : Bytes → Bytes → Bytes
build_initialize id version =
    prefix
    ++ (id
        ++ (init_result_prefix
            ++ (version
                ++ (init_result_mid
                    ++ (server_name
                        ++ (init_result_mid2 ++ (cargo_pkg_version ++ init_result_suffix)))))))

unfoldable pub build_error_with_id : Bytes → Bytes → Bytes
build_error_with_id id suffix = err_method_prefix ++ (id ++ suffix)

unfoldable pub has_id : Option Bytes → Bool
has_id none = false
has_id (some id) = not (equal id (codes "null"))

unfoldable pub is_notifications : Bytes → Bool
is_notifications method = ltb 14 (length method) && starts_with (codes "notifications/") method

-- The frame of a `tools/call` response: an SSE event, or nothing.
unfoldable pub frame : Bool → Bytes × Bytes
frame sse = if sse then (sse_event_prefix, sse_event_suffix) else ([], [])

-- `handle_tools_call` from the test of the tool's name on.
unfoldable pub run_tool : Bytes → Bytes × Bytes → Bytes → Option Bytes → Scan Bytes
run_tool id (pre, suf) name_inner arguments_raw =
    if equal name_inner (codes "answer")
    then found (build_framed_with_id pre id tools_call_answer_result suf)
    else if equal name_inner (codes "echo")
    then (do
      arguments ← ask arguments_raw
      text_raw ← find_raw_value arguments (codes "text")
      text_inner ← ask (string_inner text_raw)
      found (build_text_result pre id text_inner suf))
    else found (build_unknown_tool pre id name_inner suf)

unfoldable pub handle_tools_call : Bytes → Option Bytes → Bool → Scan Bytes
handle_tools_call id params_raw sse = do
  params ← ask params_raw
  (name_raw, arguments_raw) ← find_call_target params
  name_inner ← ask (string_inner name_raw)
  run_tool id (frame sse) name_inner arguments_raw

pub data DispatchOutput : Type 0 where
  empty : ℕ → DispatchOutput
  json : ℕ → Bytes → DispatchOutput
  sse_tools_call : Bytes → DispatchOutput

-- From the test of the method's name on, for a request that has an id.
unfoldable pub dispatch_request : Bytes → Bytes → Option Bytes → Bool → DispatchOutput
dispatch_request method id params_raw sse =
    if equal method (codes "initialize")
    then (let version = or_none (do params ← ask params_raw; find_protocol_version params) in
        json 200 (build_initialize id (unwrap_or version default_protocol_version)))
    else if equal method (codes "tools/list")
    then json 200 (build_with_id id tools_list_result)
    else if equal method (codes "ping")
    then json 200 (build_with_id id ping_result)
    else if equal method (codes "tools/call")
    then elim (or_none (handle_tools_call id params_raw sse)) [
      | some body ↦ (if sse then sse_tools_call body else json 200 body)
      | none ↦ json 200 (build_error_with_id id err_invalid_params_suffix)
    ]
    else json 200 (build_error_with_id id err_method_suffix)

-- What `dispatch_rpc` does with a message that was scanned.
unfoldable pub dispatch_message : Rpc → Bool → DispatchOutput
dispatch_message rpc sse = elim rpc.method [
  | none ↦
      if has_id rpc.id_raw
      then json 400 (build_error_with_id (unwrap_or rpc.id_raw (codes "null")) err_invalid_suffix)
      else empty 202
  | some method ↦
      if is_notifications method
      then empty 202
      else if not (has_id rpc.id_raw)
      then empty 202
      else dispatch_request method (unwrap_or rpc.id_raw (codes "null")) rpc.params_raw sse
]

unfoldable pub dispatch_rpc : Bytes → Bool → DispatchOutput
dispatch_rpc [] sse = json 400 err_parse
dispatch_rpc (c ∷ rest) sse = elim (or_none (parse_rpc (c ∷ rest))) [
  | none ↦ json 400 err_parse
  | some rpc ↦ dispatch_message rpc sse
]
