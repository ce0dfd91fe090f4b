-- ===== src/Connections/Counted.antt =====
-- The counters of src/main.rs after connections of the io_uring runtimes, in whatever order the threads
-- and their tasks report.
pub mod Exchanges
pub mod Interleaved
mod Tests
use statico.Prelude.{ℕ, Bool, true, false, List, [], ◌∷◌, ◌++◌, map, Option, some, Bytes}
use statico.Http.{Headers}
use statico.Config.{ServerConfig}
use statico.Counters.{Report, request, response}
use statico.Connections.{
  Event, request_recorded, response_recorded, Connection, Outcome, refused, panicked, closed,
  failed, waiting, Settings, handle_connection_uring, handle_connection_monoio,
  handle_connection_glommio, handle_connection_compio,
}

-- The calls of `record_request` and `record_response` on the counters of the connection's port.
abbrev pub reports_of : ℕ → List Event → List Report
reports_of port [] = []
reports_of port (request_recorded n ∷ events) = request port n ∷ reports_of port events
reports_of port (response_recorded n ∷ events) = response port n ∷ reports_of port events
reports_of port (_ ∷ events) = reports_of port events

abbrev pub reports_from : ℕ → Outcome → List Report
reports_from port refused = []
reports_from port panicked = []
reports_from port (closed c) = reports_of port c.events
reports_from port (failed c) = reports_of port c.events
reports_from port (waiting c) = reports_of port c.events

pub data Ring : Type 0 where
  tokio_uring_ring monoio_ring glommio_ring compio_ring : Ring

-- A client: the port it connects to, the runtime of the thread that accepts it, and the pieces in which
-- its stream is read.
pub record Client : Type 0 where
  pub port : ℕ
  pub ring : Ring
  pub chunks : List Bytes

module _ {T : Type 0} (decode : Bytes → Option ℕ) (encode : ℕ → Headers → Bytes → Option Bytes)
    (settings : Settings) (config : ServerConfig T) (write_succeeds : ℕ → Bool)
    (has_counters : ℕ → Bool) where
  abbrev pub handle_connection : Ring → ℕ → List (Option Bytes) → Outcome
  handle_connection tokio_uring_ring port reads =
      handle_connection_uring decode encode settings config write_succeeds has_counters reads port
        false
  handle_connection monoio_ring port reads =
      handle_connection_monoio decode encode settings config write_succeeds has_counters reads port
        false
  handle_connection glommio_ring port reads =
      handle_connection_glommio decode encode settings config write_succeeds has_counters reads port
        false
  handle_connection compio_ring port reads =
      handle_connection_compio decode encode settings config write_succeeds has_counters reads port

  -- What the connection of a client reports, up to the end of its stream.
  abbrev pub client_reports : Client → List Report
  client_reports c =
      reports_from c.port (handle_connection c.ring c.port (map some c.chunks ++ (some [] ∷ [])))
