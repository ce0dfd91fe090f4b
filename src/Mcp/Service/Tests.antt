-- ===== src/Mcp/Service/Tests.antt =====
-- A run of the MCP mock's service, and of the bodies that it sends.
use statico.Prelude.{
  ◌+◌, ◌%◌, ◌^◌, true, false, List, [], ◌∷◌, ◌++◌, some, ◌≡◌, ℕ, starts_with, Option, Bytes, length,
  equal, codes, arith,
}
use statico.Http.{http_11, chunked_body_wire_size}
use statico.Mcp.Scan.{
  is_ws, ws_end, skip_ws, string_end, parse_string, is_delimiter, token_end, container_round,
  container_loop, skip_value, value_end,
}
use statico.Mcp.Objects.{
  after_member, object_round, object_loop, object_scan, rpc_key, parse_rpc, version_key,
  find_protocol_version, wanted_key, find_raw_value, target_key, target_end, find_call_target,
  string_inner,
}
use statico.Mcp.Fragments.{
  prefix, sse_event_prefix, sse_event_suffix, tools_call_text_prefix, tools_call_text_suffix,
  tools_call_answer_result,
}
use statico.Mcp.Dispatch.{
  DispatchOutput, sse_tools_call, build_framed_with_id, build_with_id, build_text_result, has_id,
  is_notifications, frame, run_tool, handle_tools_call, dispatch_request, dispatch_message,
  dispatch_rpc,
}
use statico.Mcp.Sse.{pending, sse, write_plain, sse_notif_wire_bytes, concat_sse_for_log}
use statico.Mcp.Sse.Frames.{collect, collect-sse}
use statico.Mcp.Sse.Wire.{length-concat_sse_for_log}
use statico.Mcp.Service.{McpRequest, Service}

abbrev two : List Bytes
two = codes "data: 1\n\n" ∷ codes "data: 2\n\n" ∷ []

abbrev last_event : Bytes
last_event = codes "data: {}\n\n"

collect-sse_example :
    collect {F = Bytes} (λ f. (pending, f)) (λ f. false) 4 (sse two 0 (some last_event))
    ≡ some (two ++ (last_event ∷ []))
collect-sse_example = collect-sse {F = Bytes} (λ f. (pending, f)) (λ f. false) two last_event

length-concat_sse_for_log_example :
    ((sse_notif_wire_bytes false (some two) + chunked_body_wire_size (length last_event)) % 2 ^ 64
      ≡ length (concat_sse_for_log two last_event true) % 2 ^ 64)
    × ((sse_notif_wire_bytes true (some two) + length last_event) % 2 ^ 64
        ≡ length (concat_sse_for_log two last_event false) % 2 ^ 64)
unfolding write_plain
length-concat_sse_for_log_example =
    length-concat_sse_for_log two last_event (omega arith, (omega arith, tt)) (omega arith)
      (omega arith) (omega arith)

-- Two notifications before every answer to a call of a tool.
abbrev service : Service
service = record {
  use_http2 = false;
  verbose = 0;
  counters = true;
  endpoint = codes "/mcp";
  meter = true;
  sse_notifications = some two;
  sse_notif_wire_bytes = sse_notif_wire_bytes false (some two);
}

-- A call of a tool, in one chunk.
abbrev call_body : Bytes
call_body = codes "{\"method\":\"tools/call\",\"id\":1,\"params\":{\"name\":\"answer\"}}"

abbrev request : McpRequest
request = record {
  head = record {
    method = codes "POST";
    uri = codes "/mcp";
    version = http_11;
    headers = (codes "transfer-encoding", codes "chunked") ∷ [];
  };
  path = codes "/mcp";
  body = some call_body;
}

abbrev streamed_length : DispatchOutput → ℕ
streamed_length (sse_tools_call f) = length f
streamed_length _ = 0

-- Everything that a run of the dispatcher computes with.
unfoldable run : Bytes → ℕ
unfolding is_ws ws_end skip_ws string_end parse_string is_delimiter token_end container_round
    container_loop skip_value value_end after_member object_round object_loop object_scan rpc_key
    parse_rpc version_key find_protocol_version wanted_key find_raw_value target_key target_end
    find_call_target string_inner prefix tools_call_text_prefix tools_call_text_suffix
    tools_call_answer_result build_framed_with_id build_with_id build_text_result has_id
    is_notifications frame run_tool handle_tools_call dispatch_request dispatch_message dispatch_rpc
    equal starts_with sse_event_prefix sse_event_suffix
run body = streamed_length (dispatch_rpc body true)
