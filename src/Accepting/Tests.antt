-- ===== src/Accepting/Tests.antt =====
-- A run of the loops.
use statico.Prelude.{
  ℕ, suc, Bool, true, false, Option, some, ◌⊎◌, inl, inr, List, [], ◌∷◌, ◌==◌, leb, ◌≡◌, refl,
}
use statico.Counters.{finds_counters}
use statico.Accepting.{
  Incoming, accepted, accept_failed, all_closed, spawned, accept_error_logged, nodelay_error_logged,
  all_closed_logged, ended, panicked, any_port, tokio_srv, accept_loop, tokio_uring_srv, monoio_srv,
  glommio_srv, compio_srv, mcp_srv_with_tls, smol_srv,
}
use statico.Accepting.Loops.{ServesArrived, loops-ServesArrived}

abbrev incoming : List (Incoming ℕ)
incoming = accepted 1 8080 ∷ (accept_failed ∷ (accepted 2 8081 ∷ (all_closed ∷ [])))

-- Two ports with counters, and one.
abbrev both_ports : ℕ → Bool
both_ports port = leb port 8081

abbrev one_port : ℕ → Bool
one_port port = port == 8080

smol_run : smol_srv true both_ports (λ s. s == 1) true incoming ≡ (
  spawned 1 8080
      ∷ (accept_error_logged
          ∷ (nodelay_error_logged ∷ (spawned 2 8081 ∷ (all_closed_logged ∷ [])))),
  ended,
)
unfolding smol_srv accept_loop
smol_run = refl

-- The second connection came to a port without counters.
smol_panics :
    smol_srv true one_port (λ s. true) false incoming
    ≡ (spawned 1 8080 ∷ (accept_error_logged ∷ []), panicked)
unfolding smol_srv accept_loop
smol_panics = refl

loops-ServesArrived_example :
    ServesArrived (finds_counters true one_port) incoming (tokio_srv true one_port incoming)
    × ServesArrived
        (finds_counters true one_port)
        incoming
        (mcp_srv_with_tls true one_port incoming)
    × ServesArrived any_port incoming (tokio_uring_srv incoming)
    × ServesArrived any_port incoming (monoio_srv incoming)
    × ServesArrived
        (finds_counters true one_port)
        incoming
        (smol_srv true one_port (λ s. s == 1) true incoming)
    × ServesArrived any_port incoming (glommio_srv (λ s. s == 1) true incoming)
    × ServesArrived any_port incoming (compio_srv (λ s. s == 1) true incoming)
loops-ServesArrived_example = loops-ServesArrived true one_port (λ s. s == 1) true incoming

-- A handshake that gives the stream and one; both protocols serve the streams of handshakes.
abbrev shake : ℕ → ℕ → Option ℕ
shake server_config s = some (suc s)

abbrev on_tls : ℕ ⊎ ℕ → Bool
on_tls (inl s) = false
on_tls (inr t) = t == 2
