-- ===== src/Mcp/Fragments.antt =====
-- The byte constants of src/mcp.rs, copied from the source. They stand shut, so that a proof
-- computes with one only where it says so.
use statico.Prelude.{Bytes, codes}

unfoldable pub prefix : Bytes
prefix = codes "{\"jsonrpc\":\"2.0\",\"id\":"

unfoldable pub sse_event_prefix : Bytes
sse_event_prefix = codes "event: message\ndata: "

unfoldable pub sse_event_suffix : Bytes
sse_event_suffix = codes "\n\n"

unfoldable pub default_protocol_version : Bytes
default_protocol_version = codes "2025-06-18"

unfoldable pub server_name : Bytes
server_name = codes "statico-everything"

unfoldable pub init_result_prefix : Bytes
init_result_prefix = codes ",\"result\":{\"protocolVersion\":\""

unfoldable pub init_result_mid : Bytes
init_result_mid =
    codes "\",\"capabilities\":{\"tools\":{\"listChanged\":false}},\"serverInfo\":{\"name\":\""

unfoldable pub init_result_mid2 : Bytes
init_result_mid2 = codes "\",\"version\":\""

unfoldable pub init_result_suffix : Bytes
init_result_suffix = codes "\"},\"instructions\":\"Minimal everything mock for benchmarking\"}}"

unfoldable pub tools_list_result : Bytes
tools_list_result =
    codes
      ",\"result\":{\"tools\":[{\"name\":\"answer\",\"description\":\"Always answers 42\",\"inputSchema\":{\"type\":\"object\",\"properties\":{}}},{\"name\":\"echo\",\"description\":\"Echoes back the input text\",\"inputSchema\":{\"type\":\"object\",\"properties\":{\"text\":{\"type\":\"string\",\"description\":\"Text to echo\"}},\"required\":[\"text\"]}}]}}"

unfoldable pub ping_result : Bytes
ping_result = codes ",\"result\":{}}"

unfoldable pub tools_call_answer_result : Bytes
tools_call_answer_result =
    codes ",\"result\":{\"content\":[{\"type\":\"text\",\"text\":\"42\"}],\"isError\":false}}"

unfoldable pub tools_call_text_prefix : Bytes
tools_call_text_prefix = codes ",\"result\":{\"content\":[{\"type\":\"text\",\"text\":\""

unfoldable pub tools_call_text_suffix : Bytes
tools_call_text_suffix = codes "\"}],\"isError\":false}}"

unfoldable pub tools_call_unknown_prefix : Bytes
tools_call_unknown_prefix =
    codes ",\"result\":{\"content\":[{\"type\":\"text\",\"text\":\"unknown tool "

unfoldable pub tools_call_unknown_suffix : Bytes
tools_call_unknown_suffix = codes "\"}],\"isError\":true}}"

unfoldable pub err_parse : Bytes
err_parse =
    codes
      "{\"jsonrpc\":\"2.0\",\"id\":null,\"error\":{\"code\":-32700,\"message\":\"Parse error\"}}"

unfoldable pub err_invalid_suffix : Bytes
err_invalid_suffix = codes ",\"error\":{\"code\":-32600,\"message\":\"Invalid Request\"}}"

unfoldable pub err_invalid_params_suffix : Bytes
err_invalid_params_suffix = codes ",\"error\":{\"code\":-32602,\"message\":\"Invalid params\"}}"

unfoldable pub err_method_prefix : Bytes
err_method_prefix = codes "{\"jsonrpc\":\"2.0\",\"id\":"

unfoldable pub err_method_suffix : Bytes
err_method_suffix = codes ",\"error\":{\"code\":-32601,\"message\":\"Method not found\"}}"

-- `env!("CARGO_PKG_VERSION")`, the version that Cargo.toml declares.
unfoldable pub cargo_pkg_version : Bytes
cargo_pkg_version = codes "0.21.1"
