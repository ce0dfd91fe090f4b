-- ===== src/Threads/Tests.antt =====
-- A thread of two addresses.
use statico.Prelude.{
  ℕ, Bool, true, false, List, [], ◌∷◌, Option, none, some, ◌||◌, ◌⊎◌, inl, inr, ◌≡◌, refl, ◌==◌,
  if◌then◌else◌,
}
use statico.Accepting.{
  Effect, spawned, accept_error_logged, nodelay_error_logged, accept_loop, glommio_srv, LoopEnd,
  running,
}
use statico.Startup.{SocketAddr, socket_v4, runtime_server}
use statico.Startup.Addresses.{port_of_addr}
use statico.Startup.Arguments.{glommio, compio}
use statico.Threads.{
  Arrival, came, failed, accepting, panicked, logged, run_server, run_glommio, run_compio,
}

-- A listener is its port, and no one may listen at port 1.
abbrev listen : SocketAddr → ℕ ⊎ ℕ
listen addr = if port_of_addr addr == 1 then inl 13 else inr (port_of_addr addr)

abbrev from_std : ℕ → ℕ ⊎ ℕ
from_std n = inr n

abbrev itself : ℕ → ℕ
itself n = n

abbrev own_port : ℕ → Option ℕ
own_port n = some n

abbrev two_ports : ℕ → Bool
two_ports port = (port == 8080) || (port == 8081)

-- The first listener gets a stream and fails once.
abbrev come : List (ℕ × ℕ) → List (Arrival ℕ ℕ)
come [] = []
come ((l, port) ∷ ls) = came l port 7 ∷ (failed ∷ [])

abbrev addrs : List SocketAddr
addrs = socket_v4 0 8080 ∷ (socket_v4 0 8081 ∷ [])

abbrev with_ports : List (ℕ × ℕ)
with_ports = (8080, 8080) ∷ ((8081, 8081) ∷ [])

abbrev effects : List (Effect ℕ) × LoopEnd
effects = (nodelay_error_logged ∷ (spawned 7 8080 ∷ (accept_error_logged ∷ [])), running)

run :
    run_server listen from_std itself none
      (some 2)
      own_port
      come
      true
      two_ports
      (λ s. false)
      true
      (runtime_server glommio)
      addrs
    ≡ accepting with_ports effects
unfolding run_server run_glommio glommio_srv accept_loop
run = refl

no_core :
    run_server listen from_std itself none
      (some 0)
      own_port
      come
      true
      two_ports
      (λ s. false)
      true
      (runtime_server glommio)
      addrs
    ≡ panicked
unfolding run_server run_glommio
no_core = refl

not_listening :
    run_server listen from_std itself none
      (some 2)
      own_port
      come
      true
      two_ports
      (λ s. false)
      true
      (runtime_server compio)
      (socket_v4 0 8080 ∷ (socket_v4 0 1 ∷ []))
    ≡ logged
unfolding run_server run_compio
not_listening = refl
