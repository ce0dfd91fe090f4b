-- ===== src/Startup/Tests.antt =====
-- Runs of the program's start.
use statico.Prelude.{
  ℕ, Bool, true, false, ◌/◌, ◌==◌, ltb, List, [], ◌∷◌, map, concat, length, Option, none, some, ◌⊎◌,
  inr, ◌≡◌, refl, Bytes, codes, starts_with, if◌then◌else◌, arith, All,
}
use statico.Ports.{replicate, balance_ports, chunks_balanced, chunks_loop}
use statico.Startup.{
  IpAddr, socket_v4, Started, mcp_server, start, configure, run_thread, listen_addrs,
  load_body_content, load_tls, check_sse, check_mcp, check_http2,
}
use statico.Startup.Headers.{
  Text, encode, is_whitespace, split_once, trim, trim_start, trim_end, parse_headers,
}
use statico.Startup.HeaderLines.{header_line, parse_headers-header_line}
use statico.Startup.Arguments.{Options, tokio}
use statico.Startup.Accepted.{IsServed, served_mcp, start-IsServed}
use statico.Startup.Listening.{unspecified, start-Listens}
use statico.Startup.Listeners.{Call, create_listener, set_reuse_port}
use statico.Threads.{spawn_threads}
use statico.Threads.Registered.{IsAsked, start-IsAsked}
use statico.Startup.Calls.{carried_out, planned, create_listener-carried_out}

abbrev options : Options ℕ
options = record {
  threads = 2;
  ports = 8080 ∷ (8081 ∷ (8082 ∷ []));
  bind_all = false;
  address = none;
  status = 200;
  body = some (codes "hi");
  header = codes "X-A:  b " ∷ (codes "nonsense" ∷ []);
  http2 = true;
  receive_buffer_size = some 4096;
  send_buffer_size = none;
  listen_backlog = none;
  tcp_nodelay = true;
  uring_entries = 4096;
  uring_sqpoll = none;
  meter = false;
  verbose = 0;
  delay = none;
  body_delay = none;
  runtime = tokio;
  cert = none;
  key = none;
  mcp_everything = some (codes "/mcp");
  mcp_sse = some 2;
}

abbrev parse_ip : Text → Option IpAddr
parse_ip s = none

abbrev read_file : Text → Option Bytes
read_file s = none

abbrev is_status : ℕ → Bool
is_status n = n == 200

abbrev load : Text → Text → Bool → Text ⊎ ℕ
load cert key http2 = inr 0

abbrev started : Started ℕ
started = record {
  addrs = (socket_v4 0 8080 ∷ (socket_v4 0 8081 ∷ [])) ∷ ((socket_v4 0 8082 ∷ []) ∷ []);
  config = record {
    status = 200;
    body = codes "hi";
    headers = (codes "X-A", codes "b") ∷ [];
    tls = none;
  };
}

starts : start parse_ip read_file is_status load options ≡ some (inr started)
unfolding start configure balance_ports chunks_balanced chunks_loop listen_addrs load_body_content
    load_tls check_sse check_mcp check_http2 starts_with parse_headers split_once trim trim_start
    trim_end is_whitespace encode
starts = refl

start-IsServed_example : IsServed options (run_thread options)
start-IsServed_example = start-IsServed parse_ip read_file is_status load options started starts

start-Listens_example :
    (begun : Started ℕ) × (start parse_ip read_file is_status load options ≡ some (inr begun))
    × (length begun.addrs ≡ 2)
    × (concat begun.addrs
        ≡ map (socket_v4 0) (
            if ltb 1 (2 / 3)
            then concat (replicate (2 / 3) (8080 ∷ (8081 ∷ (8082 ∷ []))))
            else 8080 ∷ (8081 ∷ (8082 ∷ []))))
unfolding load_body_content load_tls encode starts_with
start-Listens_example =
    start-Listens parse_ip read_file is_status load options mcp_server (socket_v4 0) (codes "hi")
      none (omega arith) (omega arith) refl unspecified refl refl refl (served_mcp refl refl)

abbrev plain_headers : List (Text × Text)
plain_headers = (codes "X-A", codes "b") ∷ ((codes "Server", codes "a: b") ∷ [])

parse_headers-header_line_example :
    parse_headers (map header_line plain_headers)
    ≡ map (λ (h : Text × Text). (encode h.0, encode h.1)) plain_headers
unfolding is_whitespace
parse_headers-header_line_example = parse_headers-header_line plain_headers (
  ((refl, (refl, (refl, tt))), refl, refl, refl, refl),
  (((refl, (refl, (refl, (refl, (refl, (refl, tt)))))), refl, refl, refl, refl), tt),
)

-- Only the call for SO_REUSEPORT fails.
abbrev all_but_reuse_port : Call → Bool
all_but_reuse_port set_reuse_port = false
all_but_reuse_port _ = true

create_listener-carried_out_example :
    create_listener all_but_reuse_port (socket_v4 0 8080) options
    ≡ carried_out all_but_reuse_port (planned (socket_v4 0 8080) options)
create_listener-carried_out_example =
    create_listener-carried_out all_but_reuse_port (socket_v4 0 8080) options

start-IsAsked_example :
    (spawn_threads 2 0 started.addrs ≡ some started.addrs)
    × (length started.addrs ≡ 2)
    × All (All (IsAsked (8080 ∷ (8081 ∷ (8082 ∷ []))))) started.addrs
start-IsAsked_example = start-IsAsked parse_ip read_file is_status load options started starts
