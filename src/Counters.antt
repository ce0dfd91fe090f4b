-- ===== src/Counters.antt =====
-- src/main.rs: the counters of all ports together and of each port. A counter (Monotone, crate
-- monotone) is a parameter: a value at the start, addition, and the value read. The static counters
-- and the map of the ports are explicit state; looking up a port that was not registered stops the
-- program: `none`.
pub mod Keys
pub mod Totals
mod Tests
use statico.Prelude.{
  ℕ, Bool, true, false, ◌||◌, List, [], ◌∷◌, Option, none, some, ◌==◌, if◌then◌else◌,
}

-- The four counters: of one port, or the static ones.
pub record PortCounters (M : Type 0) : Type 0 where
  pub requests : M
  pub request_bytes : M
  pub responses : M
  pub response_bytes : M

pub record Counters (M : Type 0) : Type 0 where
  pub total : PortCounters M
  pub by_port : List (ℕ × PortCounters M)

-- What a connection reports of a port, with a number of bytes.
pub data Report : Type 0 where
  request response : ℕ → ℕ → Report

-- `meter.then(|| port_counters(port))`: without the meter no counters are looked up; with it, a port
-- without counters stops the task that looks them up.
abbrev pub finds_counters : Bool → (ℕ → Bool) → ℕ → Bool
finds_counters meter has_counters port = if meter then has_counters port else true

module _ {M : Type 0} (fresh : M) (add : M → ℕ → M) where
  abbrev pub default : PortCounters M
  default = record {
    requests = fresh;
    request_bytes = fresh;
    responses = fresh;
    response_bytes = fresh;
  }

  abbrev pub count_request : ℕ → PortCounters M → PortCounters M
  count_request bytes c = record {
    requests = add c.requests 1;
    request_bytes = add c.request_bytes bytes;
    responses = c.responses;
    response_bytes = c.response_bytes;
  }

  abbrev pub count_response : ℕ → PortCounters M → PortCounters M
  count_response bytes c = record {
    requests = c.requests;
    request_bytes = c.request_bytes;
    responses = add c.responses 1;
    response_bytes = add c.response_bytes bytes;
  }

  abbrev pub is_key : ℕ → List (ℕ × PortCounters M) → Bool
  is_key port [] = false
  is_key port ((p, c) ∷ map) = port == p || is_key port map

  -- `map.entry(port).or_default()` for every port.
  unfoldable pub init_port_counters : List ℕ → List (ℕ × PortCounters M) → List (ℕ × PortCounters M)
  init_port_counters [] map = map
  init_port_counters (port ∷ ports) map =
      init_port_counters ports (if is_key port map then map else (port, default) ∷ map)

  -- The counters of a port, changed in their place.
  unfoldable pub port_counters :
      ℕ
      → (PortCounters M → PortCounters M)
      → List (ℕ × PortCounters M)
      → Option (List (ℕ × PortCounters M))
  port_counters port change [] = none
  port_counters port change ((p, c) ∷ map) = elim (port == p) [
    | true ↦ some ((p, change c) ∷ map)
    | false ↦ elim (port_counters port change map) [
      | none ↦ none
      | some changed ↦ some ((p, c) ∷ changed)
    ]
  ]

  abbrev pub change_of : Report → PortCounters M → PortCounters M
  change_of (request port bytes) = count_request bytes
  change_of (response port bytes) = count_response bytes

  abbrev pub port_of : Report → ℕ
  port_of (request port bytes) = port
  port_of (response port bytes) = port

  -- `record_request` and `record_response` on the counters of a port.
  unfoldable pub record_report : Report → Counters M → Option (Counters M)
  record_report report s = elim (port_counters (port_of report) (change_of report) s.by_port) [
    | none ↦ none
    | some by_port ↦ some (record { total = change_of report s.total; by_port = by_port })
  ]

  unfoldable pub record_all : List Report → Counters M → Option (Counters M)
  record_all [] s = some s
  record_all (report ∷ reports) s = elim (record_report report s) [
    | none ↦ none
    | some next ↦ record_all reports next
  ]
