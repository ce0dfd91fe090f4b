-- ===== src/Lib.antt =====
-- statico is a load generator's counterpart: an HTTP server that answers every request with a fixed
-- response, over one of several asynchronous runtimes, and on request a mock of an MCP server.
--
-- Parts, and the files that model them:
--
-- - Mcp: the MCP mock of src/mcp.rs. Mcp.Scan is the scanner of bytes (skip_ws, parse_string,
--   skip_value), Mcp.Objects the readers of objects built on it (parse_rpc, find_protocol_version,
--   find_raw_value, find_call_target, string_inner), Mcp.Fragments the byte constants, and
--   Mcp.Dispatch the answers (handle_tools_call, the build functions, dispatch_rpc). A body is a list
--   of bytes, a position a number, and the four object loops of the source are one loop with a handler
--   for a key. The result type of a scanner tells `None` (absent) from a loop that ran out of fuel
--   (stuck). Fuel is the length of the body and one: every round moves on by at least one byte.
--   Additions to the depth of brackets wrap at 2^64, as in the release profile. Mcp.Json describes
--   JSON texts independently of the scanner, as trees that keep their white space.
--   Mcp.Sse is the bodies that the mock sends (McpBody, build_sse_notifications, concat_sse_for_log)
--   and their sizes; Mcp.Service the request service of handle_conn, whose effects (records of sizes,
--   log lines) are a list of actions in order, and whose response is returned beside it.
-- - Delayed: src/delayed_body.rs, a body behind a timer; both are parameters that are polled.
-- - Http: the sizes of heads and bodies of src/http.rs, with the wrap-around of usize. Http.Heads and
--   Http.Chunked compare them with the text of HTTP/1 heads and of a body in one chunk. The reason phrases of the crate http and the
--   floor of a decimal logarithm in floating point are parameters.
-- - Connections: the loops of src/tokio_uring.rs, src/monoio.rs, src/glommio.rs and src/compio.rs and
--   the prepared response of src/response.rs. A connection is the buffer, the number of bytes parsed,
--   the number of requests served and the list of what was done. What the kernel delivers is a list of
--   reads; the request parser and the response encoder of the crate http_wire are parameters. The four
--   sources share their text up to the runtime's calls, and so one loop here; the handlers differ in
--   their guards. With the meter on, a handler panics on a port without counters. Fuel of the inner loop is the length of the buffer. Connections.Memory is the buffer as
--   memory with a length and a capacity, which is lent to the kernel for a read, and the loop on it;
--   Connections.Counted the reports of several connections to the counters, in any interleaving.
-- - Static: the services of src/tokio.rs and src/smol.rs, which answer with the configured response. As
--   in Mcp.Service, what they record, print and wait for is a list of actions, beside the answer, which
--   is missing when the builder of the response fails. Appending to a header map is a parameter. The service
--   of smol.rs panics when it makes the timer of a delayed body: tokio documents that of its `sleep`
--   outside of its runtime, and the threads of smol run none.
-- - SmolIo: the adapter of src/smol.rs between hyper and a stream of smol, which is a parameter.
-- - Accepting: the accept loops of src/tokio.rs, src/mcp.rs, src/smol.rs, src/tokio_uring.rs,
--   src/monoio.rs, src/glommio.rs and src/compio.rs over a list of what their listeners give, and the
--   task of one connection with serve_http. Where a loop looks up the counters of a port before it
--   spawns a task, a port without counters ends it by a panic.
-- - Threads: the run_thread functions of these seven files up to their loops, run_thread of src/main.rs,
--   and the loop of main that starts the threads. How a thread ends up is a value. Listeners and their
--   own addresses, runtimes, processor cores and what arrives are parameters.
-- - Config: the configuration that src/main.rs hands to every thread.
-- - Pretty and Hexdump: the logged texts of src/pretty.rs, and log_request_head and log_response of
--   src/mcp.rs. The styles of the terminal and the texts of crate http are parameters.
-- - Startup: what main of src/main.rs computes from the options of src/options.rs before its threads
--   start: shared-out addresses, headers, body, TLS, the checks in their order, and the server that a
--   thread runs. An error is a value; a stop of the program is a missing one. Startup.Listeners is
--   create_listener, as the calls on its socket; Startup.Tls is src/tls.rs. All optional runtimes are
--   built in, on Linux.
-- - Uring: the sizes of src/uring.rs, with the wrap-around of u32.
-- - Counters: the counters of src/main.rs, static and by port, as explicit state.
-- - Output: what src/main.rs prints of the counters, the final report and, in Output.Meter, the meter
--   with its windows. A line is its kind and its values; times are in nanoseconds.
-- - Ports: how src/main.rs shares the ports out among the threads.
--
-- Not modelled: timers, the TLS handshake and hyper's connections (calls of libraries only), the
-- terminal, the texts of numbers in floating point, pinning of threads, and the parsing of the command
-- line by crate clap.
--
-- Prelude holds the shared helpers: tests on numbers, lists over the native numbers, texts and numerals.
pub mod Accepting
pub mod Config
pub mod Connections
pub mod Counters
pub mod Delayed
pub mod Hexdump
pub mod Http
pub mod Mcp
pub mod Output
pub mod Ports
pub mod Prelude
pub mod Pretty
pub mod SmolIo
pub mod Startup
pub mod Static
pub mod Threads
pub mod Uring
