-- ===== src/Startup/Listeners.antt =====
-- src/main.rs: `create_listener` on Linux, as the calls that it makes on its socket, in order. Whether
-- a call succeeds (crate socket2) is a parameter. Every failed call ends the function with its error,
-- but for SO_REUSEPORT, whose failure is only logged.
use statico.Prelude.{ℕ, Bool, List, [], ◌∷◌, Option, none, some, if◌then◌else◌}
use statico.Startup.{SocketAddr, socket_v4, socket_v6}
use statico.Startup.Arguments.{Options}

pub data Domain : Type 0 where
  domain_ipv4 domain_ipv6 : Domain

pub data Call : Type 0 where
  new_socket : Domain → Call
  set_reuse_address set_reuse_port set_tcp_nodelay set_nonblocking : Call
  set_recv_buffer_size set_send_buffer_size listen : ℕ → Call
  bind : SocketAddr → Call

unfoldable pub domain : SocketAddr → Domain
domain (socket_v4 a port) = domain_ipv4
domain (socket_v6 a port) = domain_ipv6

abbrev pub backlog : Option ℕ → ℕ
backlog none = 1024
backlog (some n) = n

-- The calls so far, and the failed call that ended the function, if one did.
abbrev pub Attempt : Type 0
Attempt = List Call × Option Call

module _ (succeeds : Call → Bool) where
  -- `call?`, and what follows it.
  abbrev pub must : Call → Attempt → Attempt
  must c rest = if succeeds c then (c ∷ rest.0, rest.1) else (c ∷ [], some c)

  -- A call whose failure is logged.
  abbrev pub may : Call → Attempt → Attempt
  may c rest = (c ∷ rest.0, rest.1)

  abbrev pub must_set : (ℕ → Call) → Option ℕ → Attempt → Attempt
  must_set f none rest = rest
  must_set f (some n) rest = must (f n) rest

  unfoldable pub create_listener : {D : Type 0} → SocketAddr → Options D → Attempt
  create_listener addr opts = must (new_socket (domain addr)) (
      must set_reuse_address (
        may set_reuse_port (
          (λ (rest : Attempt). if opts.tcp_nodelay then must set_tcp_nodelay rest else rest)
            (must_set set_recv_buffer_size opts.receive_buffer_size (
              must_set set_send_buffer_size opts.send_buffer_size (
                must (bind addr) (
                  must (listen (backlog opts.listen_backlog))
                    (must set_nonblocking ([], none)))))))))
