-- ===== src/Connections.antt =====
-- src/tokio_uring.rs, src/monoio.rs, src/glommio.rs and src/compio.rs: `handle_connection_*`, the loop
-- that reads, parses pipelined requests and writes the prepared response, and src/response.rs. The
-- parser and the encoder (crate http_wire) are parameters: `decode` gives the number of bytes of the
-- complete request that its argument starts with. The kernel's side is a list of reads and a function
-- that says which writes succeed. What a capacity is, and so how much a read may take, is the
-- allocator's choice: a read brings any number of bytes. Which ports have counters (Counters) is a
-- parameter; with the meter on, a port without them stops a handler: `panicked`.
pub mod Buffers
pub mod Requests
pub mod Splits
pub mod Writes
pub mod Handlers
pub mod Memory
pub mod Counted
mod Tests
use statico.Prelude.{
  ℕ, zero, suc, ◌+◌, ◌%◌, ◌^◌, Bool, true, false, not, ◌&&◌, List, [], ◌∷◌, ◌++◌, Option, none,
  some, Bytes, length, drop, ltb, ◌==◌, if◌then◌else◌, codes, decimal,
}
use statico.Http.{Headers}
use statico.Config.{ServerConfig}
use statico.Counters.{finds_counters}

unfoldable pub build_response :
    {T : Type 0} → (ℕ → Headers → Bytes → Option Bytes) → ServerConfig T → Option Bytes
build_response encode config =
    encode config.status
      (config.headers ++ ((codes "content-length", decimal (length config.body)) ∷ [])) config.body

-- What the loop does to the rest of the world, in order.
pub data Event : Type 0 where
  request_printed response_printed : Event
  request_recorded response_recorded : ℕ → Event
  delayed : ℕ → Event
  written : Bytes → Event

pub record Connection : Type 0 where
  pub buf : Bytes
  pub parsed : ℕ
  pub requests_served : ℕ
  pub events : List Event

pub data Outcome : Type 0 where
  refused panicked : Outcome
  closed failed waiting : Connection → Outcome

pub record Settings : Type 0 where
  pub meter : Bool
  pub delay : Option ℕ
  pub verbose : ℕ

abbrev pub start : Connection
start = record { buf = []; parsed = 0; requests_served = 0; events = [] }

unfoldable pub reset_or_compact : Connection → Connection
reset_or_compact c =
    if c.parsed == length c.buf && ltb 0 c.parsed
    then record { buf = []; parsed = 0; requests_served = c.requests_served; events = c.events }
    else (if ltb 4096 c.parsed
        then record {
          buf = drop c.parsed c.buf;
          parsed = 0;
          requests_served = c.requests_served;
          events = c.events;
        }
        else c)

unfoldable pub receive : Connection → Bytes → Connection
receive c data_bytes = record {
  buf = c.buf ++ data_bytes;
  parsed = c.parsed;
  requests_served = c.requests_served;
  events = c.events;
}

abbrev pub when : Bool → Event → List Event
when b e = if b then e ∷ [] else []

abbrev pub delay_event : Option ℕ → List Event
delay_event none = []
delay_event (some d) = delayed d ∷ []

-- What is done for one request, up to the write and after it.
abbrev pub before_write : Settings → ℕ → List Event
before_write settings req_len =
    when (ltb 0 settings.verbose) request_printed
    ++ (when settings.meter (request_recorded req_len)
        ++ (delay_event settings.delay ++ when (ltb 0 settings.verbose) response_printed))

abbrev pub after_write : Settings → Bytes → List Event
after_write settings response =
    written response ∷ when settings.meter (response_recorded (length response))

module _ (decode : Bytes → Option ℕ) (settings : Settings) (response : Bytes)
    (write_succeeds : ℕ → Bool) where
  abbrev pub accept : Connection → ℕ → List Event → Connection
  accept c req_len events = record {
    buf = c.buf;
    parsed = c.parsed + req_len;
    requests_served = (c.requests_served + 1) % 2 ^ 64;
    events = c.events ++ (before_write settings req_len ++ events);
  }

  -- The inner loop, on fuel: every request takes at least one byte, so the length of what is not yet
  -- parsed is enough.
  unfoldable pub parse_requests : ℕ → Connection → (Connection → Outcome) → Outcome
  parse_requests zero c continue = continue c
  parse_requests (suc fuel) c continue = elim (decode (drop c.parsed c.buf)) [
    | none ↦ continue c
    | some req_len ↦
        let next = accept c req_len (after_write settings response) in
        let rest = parse_requests fuel next continue in
        if write_succeeds c.requests_served then rest else failed (accept c req_len [])
  ]

  -- A read is `none` when it fails; of no bytes, it is the end of the stream.
  unfoldable pub serve : List (Option Bytes) → Connection → Outcome
  serve [] c = waiting (reset_or_compact c)
  serve (none ∷ reads) c = failed (reset_or_compact c)
  serve (some [] ∷ reads) c = closed (reset_or_compact c)
  serve (some (b ∷ data_bytes) ∷ reads) c =
      let received = receive (reset_or_compact c) (b ∷ data_bytes) in
      parse_requests (length received.buf) received (serve reads)

-- The handlers, for a connection to a port: they look its counters up before the loop.
module _ {T : Type 0} (decode : Bytes → Option ℕ) (encode : ℕ → Headers → Bytes → Option Bytes)
    (settings : Settings) (config : ServerConfig T) (write_succeeds : ℕ → Bool)
    (has_counters : ℕ → Bool) (reads : List (Option Bytes)) where
  abbrev pub serve_from : ℕ → Option Bytes → Outcome
  serve_from port none = refused
  serve_from port (some response) =
      if finds_counters settings.meter has_counters port
      then serve decode settings response write_succeeds reads start
      else panicked

  unfoldable pub handle_connection_uring : ℕ → Bool → Outcome
  handle_connection_uring port http2 =
      if http2 then refused else serve_from port (build_response encode config)

  unfoldable pub handle_connection_monoio : ℕ → Bool → Outcome
  handle_connection_monoio port http2 =
      if http2 then refused else serve_from port (build_response encode config)

  unfoldable pub handle_connection_glommio : ℕ → Bool → Outcome
  handle_connection_glommio port http2 =
      if http2 then refused else serve_from port (build_response encode config)

  unfoldable pub handle_connection_compio : ℕ → Outcome
  handle_connection_compio port = serve_from port (build_response encode config)
