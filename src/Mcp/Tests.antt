-- ===== src/Mcp/Tests.antt =====
-- Runs of the MCP mock on the inputs of the tests in src/mcp.rs.
use statico.Prelude.{
  ◌≡◌, refl, Bool, true, false, [], ◌∷◌, ◌==◌, codes, Bytes, equal, starts_with, Bool-cases, inl,
  inr, arith, All, length, ◌+◌, ◌≤◌, ◌↔◌, none, some,
}
use statico.Mcp.Json.{
  IsContent, nil, plain, str, token, obj, Fields, field, fields, IsJson, IsFields, print,
}
use statico.Mcp.Scan.Holds.{Holds}
use statico.Mcp.Scan.Bounds.{skip_value-Holds}
use statico.Mcp.Scan.Values.{skip_value-print}
use statico.Mcp.Objects.Targets.{last_value, find_call_target-last_value}
use statico.Mcp.Objects.Requests.{IsMessage, parse_rpc-IsMessage}
use statico.Mcp.Dispatch.Calls.{IsReply, handle_tools_call-IsReply}
use statico.Mcp.Dispatch.Modes.{SameModesOf, dispatch_rpc_modes}
use statico.Mcp.Dispatch.Silent.{IsSilent, dispatch_message-IsSilent}
use statico.Mcp.Objects.Members.{members, fold}
use statico.Mcp.Objects.Messages.{HasScalarId, rpc_step}
use statico.Mcp.Dispatch.Requests.{
  IsEcho, tools_call, echo_answer, dispatch_rpc-fold, dispatch_rpc-echo,
}
use statico.Mcp.Scan.{
  found, ask, ◌>>=◌, is_ws, ws_end, skip_ws, string_end, parse_string, is_delimiter, token_end,
  container_round, container_loop, skip_value, value_end,
}
use statico.Mcp.Objects.{
  empty_rpc, after_member, object_round, object_loop, object_scan, rpc_key, parse_rpc, version_key,
  find_protocol_version, wanted_key, find_raw_value, target_key, target_end, find_call_target,
  string_inner,
}
use statico.Mcp.Fragments.{
  prefix, ping_result, tools_call_text_prefix, tools_call_text_suffix, tools_call_answer_result,
  err_parse,
}
use statico.Mcp.Dispatch.{
  or_none, DispatchOutput, empty, json, build_framed_with_id, build_with_id, build_text_result,
  has_id, is_notifications, frame, run_tool, handle_tools_call, dispatch_request, dispatch_message,
  dispatch_rpc,
}

-- Everything that a run of the dispatcher computes with.
unfoldable dispatch : Bytes → DispatchOutput
unfolding is_ws ws_end skip_ws string_end parse_string is_delimiter token_end container_round
    container_loop skip_value value_end after_member object_round object_loop object_scan rpc_key
    parse_rpc version_key find_protocol_version wanted_key find_raw_value target_key target_end
    find_call_target string_inner prefix ping_result tools_call_text_prefix tools_call_text_suffix
    tools_call_answer_result err_parse build_framed_with_id build_with_id build_text_result has_id
    is_notifications frame run_tool handle_tools_call dispatch_request dispatch_message dispatch_rpc
    equal starts_with
dispatch body = dispatch_rpc body false

ping_fast :
    dispatch (codes "{\"jsonrpc\":\"2.0\",\"id\":3,\"method\":\"ping\"}")
    ≡ json 200 (codes "{\"jsonrpc\":\"2.0\",\"id\":3,\"result\":{}}")
unfolding dispatch
ping_fast = refl

tools_call_echo :
    dispatch (
      codes
        "{\n \"id\" : 20 ,\n \"method\" : \"tools/call\" ,\n \"params\" : { \"name\" : \"echo\" , \"arguments\" : { \"text\" : \"sp\\\"aced\", \"o\":[1,{}] } }\n}")
    ≡ json 200 (
        codes
          "{\"jsonrpc\":\"2.0\",\"id\":20,\"result\":{\"content\":[{\"type\":\"text\",\"text\":\"sp\\\"aced\"}],\"isError\":false}}")
unfolding dispatch
tools_call_echo = refl

null_id : dispatch (codes "{\"jsonrpc\":\"2.0\",\"id\":null,\"method\":\"ping\"}") ≡ empty 202
unfolding dispatch
null_id = refl

batch_array : dispatch (codes "[{\"id\":1}]") ≡ json 400 err_parse
unfolding dispatch
batch_array = refl

-- A message of the tests of src/mcp.rs, as a tree with its layout.
abbrev hi : Bytes
hi = codes "hi"

abbrev args : Fields
args = field [] (codes "text") [] [] (str hi) []

abbrev params : Fields
params =
    fields [] (codes "name") [] [] (str (codes "echo")) []
      (field (32 ∷ []) (codes "arguments") [] (32 ∷ []) (obj args) [])

abbrev message : Fields
message = fields [] (codes "id") [] [] (token (codes "20")) [] (
    fields [] (codes "method") [] [] (str (codes "tools/call")) []
      (field [] (codes "params") [] [] (obj params) []))

abbrev is_plain : Bytes → Bool
is_plain [] = true
is_plain (c ∷ cs) = elim (c == b'"') [
  | true ↦ false
  | false ↦ elim (c == b'\\') [ true ↦ false | false ↦ is_plain cs ]
]

plain-IsContent : (cs : Bytes) → is_plain cs ≡ true → IsContent cs
plain-IsContent [] h = nil
plain-IsContent (c ∷ cs) h = elim (Bool-cases (c == b'"')) [
  | inl e ↦ absurd (ground arith)
  | inr e ↦ elim (Bool-cases (c == b'\\')) [
    | inl f ↦ absurd (ground arith)
    | inr f ↦ plain e f (plain-IsContent cs (ground arith))
  ]
]

args_valid : IsFields args
args_valid = (tt, plain-IsContent (codes "text") refl, tt, tt, plain-IsContent hi refl, tt)

white : is_ws 32 ≡ true
unfolding is_ws
white = refl

params_valid : IsFields params
params_valid = (
  tt,
  plain-IsContent (codes "name") refl,
  tt,
  tt,
  plain-IsContent (codes "echo") refl,
  tt,
  ((white, tt), plain-IsContent (codes "arguments") refl, tt, (white, tt), args_valid, tt),
)

token_valid : IsJson (token (codes "20"))
unfolding is_delimiter
token_valid = (((refl, refl), ((refl, refl), tt)), λ e. ground arith)

message_valid : IsFields message
message_valid = (
  tt,
  plain-IsContent (codes "id") refl,
  tt,
  tt,
  token_valid,
  tt,
  (
    tt,
    plain-IsContent (codes "method") refl,
    tt,
    tt,
    plain-IsContent (codes "tools/call") refl,
    tt,
    (tt, plain-IsContent (codes "params") refl, tt, tt, params_valid, tt),
  ),
)

scalar_ids : All HasScalarId (members message)
unfolding equal
scalar_ids = (λ e. tt, (λ e. tt, (λ e. ground arith, tt)))

is_echo : IsEcho params args hi
unfolding equal
is_echo = record {
  params_valid = params_valid;
  args_valid = args_valid;
  params_fit = omega arith;
  args_fit = omega arith;
  name = refl;
  arguments = refl;
  argument = refl;
}

message-members :
    fold found rpc_step empty_rpc (members message) ≡ found (tools_call (token (codes "20")) params)
unfolding equal
message-members = refl

not_null : equal (codes "20") (codes "null") ≡ false
unfolding equal
not_null = refl

dispatch_rpc-echo_example :
    dispatch_rpc (print (obj message) (codes "\n")) true ≡ echo_answer (token (codes "20")) hi true
dispatch_rpc-echo_example =
    dispatch_rpc-echo [] message (codes "\n") true (token (codes "20")) params args hi tt
      message_valid scalar_ids (omega arith) message-members not_null is_echo

dispatch_rpc-fold_example :
    dispatch_rpc (print (obj message) (codes "\n")) false
    ≡ dispatch_message (tools_call (token (codes "20")) params) false
dispatch_rpc-fold_example =
    dispatch_rpc-fold [] message (codes "\n") false (tools_call (token (codes "20")) params) tt
      message_valid scalar_ids (omega arith) message-members

find_call_target-last_value_example : find_call_target (print (obj params) []) ≡ (
    ask (last_value (codes "name") none (members params)) >>= λ name.
    found (name, last_value (codes "arguments") none (members params)))
find_call_target-last_value_example =
    find_call_target-last_value [] params [] tt params_valid (omega arith)

skip_value-print_example :
    skip_value (32 ∷ print (obj params) (codes "}")) 0
    ≡ found (0 + 1 + length (print (obj params) []))
unfolding is_delimiter
skip_value-print_example =
    skip_value-print (32 ∷ print (obj params) (codes "}")) 0 (32 ∷ []) (obj params) (codes "}") refl
      (white, tt) params_valid refl (omega arith)

skip_value-Holds_example : Holds (λ n. (2 ≤ n) × (n ≤ 4)) (skip_value (codes "{]]x") 2)
skip_value-Holds_example = skip_value-Holds (codes "{]]x") 2

parse_rpc-IsMessage_example :
    Holds IsMessage (parse_rpc (codes "{\"method\":\"ping\",\"id\":\"a\""))
parse_rpc-IsMessage_example = parse_rpc-IsMessage (codes "{\"method\":\"ping\",\"id\":\"a\"")

handle_tools_call-IsReply_example :
    Holds
      (IsReply (token (codes "20")) true)
      (handle_tools_call (codes "20") (some (codes "{\"name\":\"add\"}")) true)
handle_tools_call-IsReply_example =
    handle_tools_call-IsReply (token (codes "20")) token_valid true
      (some (codes "{\"name\":\"add\"}"))

-- A call of a tool, after its first byte.
abbrev call_text : Bytes
call_text = codes "\"method\":\"tools/call\",\"id\":1,\"params\":{\"name\":\"answer\"}}"

dispatch_rpc_modes_example :
    SameModesOf
      (or_none (parse_rpc (123 ∷ call_text)))
      (dispatch_rpc (123 ∷ call_text) false)
      (dispatch_rpc (123 ∷ call_text) true)
dispatch_rpc_modes_example = dispatch_rpc_modes 123 call_text

dispatch_message-IsSilent_example :
    (dispatch_message (tools_call (token (codes "20")) params) true ≡ empty 202)
    ↔ IsSilent (tools_call (token (codes "20")) params)
dispatch_message-IsSilent_example =
    dispatch_message-IsSilent (tools_call (token (codes "20")) params) true
