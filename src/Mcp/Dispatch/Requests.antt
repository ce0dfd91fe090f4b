-- ===== src/Mcp/Dispatch/Requests.antt =====
-- Whole requests of src/mcp.rs, from their bytes to the answer.
use statico.Prelude.{
  ◌^◌, ◌<◌, [], ◌∷◌, ◌++◌, ◌≡◌, refl, ap, ◌∙◌, Bytes, All, none, some, codes, Bool, true, false,
  length, equal, starts_with,
}
use statico.Mcp.Scan.{found}
use statico.Mcp.Json.{Json, obj, Fields, IsWs, IsFields, quoted, print}
use statico.Mcp.Objects.{Rpc, empty_rpc}
use statico.Mcp.Objects.Members.{members, fold}
use statico.Mcp.Objects.Messages.{HasScalarId, rpc_step, parse_rpc-fold}
use statico.Mcp.Objects.Lookup.{first_value, find_raw_value-first_value}
use statico.Mcp.Objects.Targets.{last_value, find_call_target-last_value}
use statico.Mcp.Objects.Safe.{string_inner-quoted}
use statico.Mcp.Dispatch.{
  DispatchOutput, json, sse_tools_call, frame, run_tool, handle_tools_call, dispatch_request,
  dispatch_message, dispatch_rpc, has_id, is_notifications,
}
use statico.Mcp.Dispatch.Replies.{success, tool_result, build_text_result-print}

-- On a well-formed message with scalar ids the dispatcher answers what its members say: the last
-- `method`, `id` and `params`, in any layout, and whatever follows the closing brace.
pub dispatch_rpc-fold :
    (ws : Bytes) (fs : Fields) (rest : Bytes) (sse : Bool) (rpc : Rpc)
    → IsWs ws
    → IsFields fs
    → All HasScalarId (members fs)
    → length (ws ++ print (obj fs) rest) < 2 ^ 64
    → fold found rpc_step empty_rpc (members fs) ≡ found rpc
    → dispatch_rpc (ws ++ print (obj fs) rest) sse ≡ dispatch_message rpc sse
dispatch_rpc-fold [] fs rest sse rpc w h ps fits e =
    let reads = parse_rpc-fold [] fs rest w h ps fits ∙ e in
    unfold dispatch_rpc in rw (reads, dispatch_rpc)
dispatch_rpc-fold (b ∷ ws) fs rest sse rpc w h ps fits e =
    let reads = parse_rpc-fold (b ∷ ws) fs rest w h ps fits ∙ e in
    unfold dispatch_rpc in rw (reads, dispatch_rpc)

-- The parameters of an `echo`: the last `name` is `"echo"`, the last `arguments` is an object, and
-- its first `text` is the string `text`.
pub record IsEcho (params args : Fields) (text : Bytes) : Type 0 where
  pub params_valid : IsFields params
  pub args_valid : IsFields args
  pub params_fit : length (print (obj params) []) < 2 ^ 64
  pub args_fit : length (print (obj args) []) < 2 ^ 64
  pub name : last_value (codes "name") none (members params) ≡ some (quoted (codes "echo") [])
  pub arguments : last_value (codes "arguments") none (members params) ≡ some (print (obj args) [])
  pub argument : first_value (codes "text") (members args) ≡ found (quoted text [])

-- `echo` answers with its text, byte for byte, in a tool result for the caller's id.
pub handle_tools_call-echo :
    (id : Json) (params args : Fields) (text : Bytes) (sse : Bool)
    → IsEcho params args text
    → handle_tools_call (print id []) (some (print (obj params) [])) sse
      ≡ found ((frame sse).0 ++ print (success id (tool_result text "false")) (frame sse).1)
unfolding handle_tools_call run_tool equal
handle_tools_call-echo id params args text sse h =
    rw
      (
        find_call_target-last_value [] params [] tt h.params_valid h.params_fit,
        h.name,
        h.arguments,
        string_inner-quoted (codes "echo"),
        find_raw_value-first_value [] args [] (codes "text") tt h.args_valid h.args_fit,
        h.argument,
        string_inner-quoted text,
      )
      (ap found (build_text_result-print (frame sse).0 id text (frame sse).1))

-- The answer to an `echo`, in the two modes.
abbrev pub echo_answer : Json → Bytes → Bool → DispatchOutput
echo_answer id text true =
    sse_tools_call ((frame true).0 ++ print (success id (tool_result text "false")) (frame true).1)
echo_answer id text false = json 200 (print (success id (tool_result text "false")) [])

-- A message that calls a tool.
abbrev pub tools_call : Json → Fields → Rpc
tools_call id params = record {
  method = some (codes "tools/call");
  id_raw = some (print id []);
  params_raw = some (print (obj params) []);
}

dispatch_message-echo :
    (sse : Bool) (id : Json) (params args : Fields) (text : Bytes)
    → equal (print id []) (codes "null") ≡ false
    → IsEcho params args text
    → dispatch_message (tools_call id params) sse ≡ echo_answer id text sse
unfolding dispatch_message dispatch_request has_id is_notifications equal starts_with
dispatch_message-echo true id params args text n call =
    rw (n, handle_tools_call-echo id params args text true call)
dispatch_message-echo false id params args text n call =
    rw (n, handle_tools_call-echo id params args text false call) (unfold frame in refl)

-- A well-formed `tools/call` message for `echo`, with an id other than null, is answered with 200
-- and its text byte for byte in a JSON tool result for that id, or with that as one SSE event.
pub dispatch_rpc-echo :
    (ws : Bytes) (fs : Fields) (rest : Bytes) (sse : Bool) (id : Json) (params args : Fields)
    (text : Bytes)
    → IsWs ws
    → IsFields fs
    → All HasScalarId (members fs)
    → length (ws ++ print (obj fs) rest) < 2 ^ 64
    → fold found rpc_step empty_rpc (members fs) ≡ found (tools_call id params)
    → equal (print id []) (codes "null") ≡ false
    → IsEcho params args text
    → dispatch_rpc (ws ++ print (obj fs) rest) sse ≡ echo_answer id text sse
dispatch_rpc-echo ws fs rest sse id params args text w h ps fits e n call =
    dispatch_rpc-fold ws fs rest sse (tools_call id params) w h ps fits e
    ∙ dispatch_message-echo sse id params args text n call
