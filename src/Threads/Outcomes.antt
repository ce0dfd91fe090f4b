-- ===== src/Threads/Outcomes.antt =====
-- How a thread ends up, for every server.
use statico.Prelude.{ℕ, zero, Bool, List, map, Option, none, some, ◌⊎◌, inl, inr, ◌≡◌}
use statico.Counters.{finds_counters}
use statico.Accepting.{Incoming, Effect, LoopEnd, any_port}
use statico.Accepting.Loops.{ServesArrived}
use statico.Startup.{SocketAddr, Server, mcp_server, runtime_server}
use statico.Startup.Arguments.{tokio, tokio_uring, monoio, glommio, smol, compio}
use statico.Threads.{
  Arrival, Thread, refused, logged, panicked, accepting, with_port, listener_error, runtime_error,
  no_affinity,
}
use statico.Threads.Collect.{Mem, Zip}

module _ {E N L S : Type 0} (create_listener : SocketAddr → E ⊎ N) (from_std : N → E ⊎ L)
    (wrap : N → L) (build : Option E) (cores : Option ℕ) (local_port : L → Option ℕ)
    (arrivals : List (L × ℕ) → List (Arrival L S)) (meter : Bool) (has_counters : ℕ → Bool)
    (set_nodelay : S → Bool) (tcp_nodelay : Bool) where
  -- The listener was created for the address, and made into one of the runtime.
  abbrev pub IsMadeFrom : SocketAddr → L → Type 0
  IsMadeFrom addr listener =
      (n : N) × (create_listener addr ≡ inr n) × ((from_std n ≡ inr listener) ⊎ (listener ≡ wrap n))

  -- Neither could be done for one of the addresses.
  abbrev pub Fails : List SocketAddr → E → Type 0
  Fails addrs e =
      (addr : SocketAddr) × Mem addr addrs
      × ((create_listener addr ≡ inl e)
          ⊎ ((n : N) × (create_listener addr ≡ inr n) × (from_std n ≡ inl e)))

  -- The listener was created for the address, and is served with its own port.
  abbrev pub IsAt : SocketAddr → L × ℕ → Type 0
  IsAt addr (listener, port) = IsMadeFrom addr listener × (local_port listener ≡ some port)

  -- A listener for one of the addresses was made, but has no address of its own.
  abbrev pub IsLost : List SocketAddr → Type 0
  IsLost addrs =
      (addr : SocketAddr) × Mem addr addrs
      × ((listener : L) × IsMadeFrom addr listener × (local_port listener ≡ none))

  -- The ports for whose connections a server's loop spawns a task.
  abbrev pub spawns_of : Server → ℕ → Bool
  spawns_of mcp_server = finds_counters meter has_counters
  spawns_of (runtime_server tokio) = finds_counters meter has_counters
  spawns_of (runtime_server smol) = finds_counters meter has_counters
  spawns_of (runtime_server tokio_uring) = any_port
  spawns_of (runtime_server monoio) = any_port
  spawns_of (runtime_server glommio) = any_port
  spawns_of (runtime_server compio) = any_port

  abbrev pub IsRight : (ℕ → Bool) → List SocketAddr → Thread E L S → Type 0
  IsRight spawns addrs (accepting listeners effects) =
      Zip IsAt addrs listeners × ServesArrived spawns (map with_port (arrivals listeners)) effects
  IsRight spawns addrs (refused (listener_error e)) = Fails addrs e
  IsRight spawns addrs (refused (runtime_error e)) = build ≡ some e
  IsRight spawns addrs (refused no_affinity) = cores ≡ none
  IsRight spawns addrs logged = (e : E) × Fails addrs e
  IsRight spawns addrs panicked =
      ((e : E) × (Fails addrs e ⊎ (build ≡ some e))) ⊎ ((cores ≡ some zero) ⊎ IsLost addrs)

  -- A loop that serves what comes to its listeners.
  abbrev Serves : (ℕ → Bool) → (List (Incoming S) → List (Effect S) × LoopEnd) → Type 0
  Serves spawns srv = (incoming : List (Incoming S)) → ServesArrived spawns incoming (srv incoming)

  -- The listener, with its port.
  abbrev Has : L → L × ℕ → Type 0
  Has listener (l, port) = (l ≡ listener) × (local_port listener ≡ some port)

  abbrev looks_up : ℕ → Bool
  looks_up = finds_counters meter has_counters
