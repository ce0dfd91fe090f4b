-- ===== src/Output.antt =====
-- What src/main.rs prints of its counters: the final report (`print_final_report` and the handler of
-- Ctrl-C) and the meter. A line is its kind and the values in it. The value of a counter (crate
-- monotone), its number, and the text of a number of bytes in gigabytes, computed in floating point, are
-- parameters. The map of the ports is a list of its entries, in any order.
pub mod Sorted
pub mod Blocks
pub mod Sums
pub mod Meter
mod Tests
use statico.Prelude.{
  ℕ, Bool, true, false, List, [], ◌∷◌, ◌++◌, map, Option, none, some, ltb, leb, ◌==◌, length,
  if◌then◌else◌,
}
use statico.Counters.{PortCounters}
use statico.Startup.Arguments.{Options}

pub data Line (V G : Type 0) : Type 0 where
  total_requests total_responses : V → Line V G
  total_request_bytes total_response_bytes : V → G → Line V G
  port_statistics : Line V G
  port_header port_requests port_responses : ℕ → Line V G
  port_request_bytes port_response_bytes : ℕ → G → Line V G

-- `ports.sort_unstable()`
abbrev pub insert : ℕ → List ℕ → List ℕ
insert port [] = port ∷ []
insert port (p ∷ ports) = if leb port p then port ∷ (p ∷ ports) else p ∷ insert port ports

unfoldable pub sort_unstable : List ℕ → List ℕ
sort_unstable [] = []
sort_unstable (port ∷ ports) = insert port (sort_unstable ports)

-- `map.get(&port)`
abbrev pub entry_of : {A : Type 0} → ℕ → List (ℕ × A) → Option A
entry_of port [] = none
entry_of port ((p, a) ∷ map) = if port == p then some a else entry_of port map

abbrev pub keys : {A : Type 0} → List (ℕ × A) → List ℕ
keys [] = []
keys ((p, a) ∷ map) = p ∷ keys map

module _ {M V G : Type 0} (value : M → V) (as_u64 : V → ℕ) (gigabytes : ℕ → G) where
  -- The four values: of the static counters, or of those of a port.
  unfoldable pub read_counters : PortCounters M → PortCounters V
  read_counters c = record {
    requests = value c.requests;
    request_bytes = value c.request_bytes;
    responses = value c.responses;
    response_bytes = value c.response_bytes;
  }

  unfoldable pub port_lines : ℕ → PortCounters M → List (Line V G)
  port_lines port entry =
      let port_req = as_u64 (value entry.requests) in
      let port_req_bytes = as_u64 (value entry.request_bytes) in
      let port_res = as_u64 (value entry.responses) in
      let port_res_bytes = as_u64 (value entry.response_bytes) in
      port_header port
      ∷ (port_requests port_req
          ∷ (port_request_bytes port_req_bytes (gigabytes port_req_bytes)
              ∷ (port_responses port_res
                  ∷ (port_response_bytes port_res_bytes (gigabytes port_res_bytes) ∷ []))))

  -- The loop over the ports, which skips a port without an entry.
  unfoldable pub ports_lines : List ℕ → List (ℕ × PortCounters M) → List (Line V G)
  ports_lines [] map = []
  ports_lines (port ∷ ports) map =
      let rest = ports_lines ports map in
      elim (entry_of port map) [ none ↦ rest | some entry ↦ port_lines port entry ++ rest ]

  -- The map is missing as long as it has not been set up.
  unfoldable pub print_final_report :
      Bool → PortCounters M → Option (List (ℕ × PortCounters M)) → List (Line V G)
  print_final_report port_stats total port_counters =
      let c = read_counters total in
      let req_bytes_val = as_u64 c.request_bytes in
      let res_bytes_val = as_u64 c.response_bytes in
      (total_requests c.requests
        ∷ (total_request_bytes c.request_bytes (gigabytes req_bytes_val)
            ∷ (total_responses c.responses
                ∷ (total_response_bytes c.response_bytes (gigabytes res_bytes_val) ∷ []))))
      ++ (if port_stats
          then port_statistics ∷ (elim port_counters [
            | none ↦ []
            | some map ↦ ports_lines (sort_unstable (keys map)) map
          ])
          else [])

  -- The handler of Ctrl-C: what it prints before it ends the program.
  unfoldable pub handle_ctrlc :
      {D : Type 0}
      → Options D
      → PortCounters M
      → Option (List (ℕ × PortCounters M))
      → List (Line V G)
  handle_ctrlc opts total port_counters =
      let total_ports = length opts.ports in
      if opts.meter then print_final_report (ltb 1 total_ports) total port_counters else []
