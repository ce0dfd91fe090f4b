-- ===== src/Startup/Addresses.antt =====
-- The addresses of the threads, when the options are accepted.
use statico.Prelude.{
  ℕ, List, map, Option, none, some, ◌⊎◌, inl, inr, ◌≡◌, refl, sym, ap, ◌∙◌, Bool, Bytes, arith,
  Option-cases,
}
use mathlib.Core.Option.{some-injective}
use mathlib.Core.Sum.{inr-injective}
use statico.Ports.{balance_ports}
use statico.Startup.{
  IpAddr, ip_v4, ip_v6, SocketAddr, socket_v4, socket_v6, StartError, Started, invalid_address,
  invalid_status, require, Check, socket_addr, listen_addrs, load_body_content, load_tls, check_sse,
  check_mcp, check_http2, configure, start,
}
use statico.Startup.Accepted.{chained, assembled, started_of}
use statico.Startup.Headers.{Text}
use statico.Startup.Arguments.{Options}

abbrev pub port_of_addr : SocketAddr → ℕ
port_of_addr (socket_v4 ip port) = port
port_of_addr (socket_v6 ip port) = port

pub port_of_addr-socket_addr : (ip : IpAddr) (port : ℕ) → port_of_addr (socket_addr ip port) ≡ port
unfolding socket_addr
port_of_addr-socket_addr (ip_v4 a) port = refl
port_of_addr-socket_addr (ip_v6 a) port = refl

chained_lem :
    {E A B C R : Type 0}
    → (addrs : E ⊎ A) (body : E ⊎ B) (status : Check E) (tls : E ⊎ C) (sse mock http2 : Check E)
      (f : A → B → C → R) (r : R)
    → chained addrs body status tls sse mock http2 f ≡ inr r
    → (a : A) × (b : B) × (c : C) × (addrs ≡ inr a) × (f a b c ≡ r)
chained_lem (inl e) body status tls sse mock http2 f r h = absurd (ground arith)
chained_lem (inr a) (inl e) status tls sse mock http2 f r h = absurd (ground arith)
chained_lem (inr a) (inr b) (inl e) tls sse mock http2 f r h = absurd (ground arith)
chained_lem (inr a) (inr b) (inr u) (inl e) sse mock http2 f r h = absurd (ground arith)
chained_lem (inr a) (inr b) (inr u) (inr c) (inl e) mock http2 f r h = absurd (ground arith)
chained_lem (inr a) (inr b) (inr u) (inr c) (inr v) (inl e) http2 f r h = absurd (ground arith)
chained_lem (inr a) (inr b) (inr u) (inr c) (inr v) (inr w) (inl e) f r h = absurd (ground arith)
chained_lem (inr a) (inr b) (inr u) (inr c) (inr v) (inr w) (inr x) f r h =
    (a, b, c, refl, inr-injective _ _ h)

-- Addresses that keep the ports they are made for.
abbrev pub Keeps : List (List ℕ) → List (List SocketAddr) → Type 0
Keeps chunks addrs =
    (to_addr : ℕ → SocketAddr) × ((port : ℕ) → port_of_addr (to_addr port) ≡ port)
    × (addrs ≡ map (map to_addr) chunks)

parsed-Keeps :
    {E : Type 0} (ip : Option IpAddr) (chunks : List (List ℕ)) (addrs : List (List SocketAddr))
    → (◌≡◌ {A = StartError E ⊎ List (List SocketAddr)}
        (elim ip [ none ↦ inl invalid_address | some ip ↦ inr (map (map (socket_addr ip)) chunks) ])
        (inr addrs))
    → Keeps chunks addrs
parsed-Keeps none chunks addrs h = absurd (ground arith)
parsed-Keeps (some ip) chunks addrs h =
    (socket_addr ip, port_of_addr-socket_addr ip, sym (inr-injective _ _ h))

listen_addrs-Keeps :
    {E : Type 0} (parse_ip : Text → Option IpAddr) (address : Option Text) (chunks : List (List ℕ))
    (addrs : List (List SocketAddr))
    → listen_addrs {E = E} parse_ip address chunks ≡ inr addrs
    → Keeps chunks addrs
unfolding listen_addrs
listen_addrs-Keeps parse_ip none chunks addrs h =
    (socket_v4 0, λ port. refl, sym (inr-injective _ _ h))
listen_addrs-Keeps parse_ip (some address) chunks addrs h =
    parsed-Keeps (parse_ip address) chunks addrs h

module _ {E D T : Type 0} (parse_ip : Text → Option IpAddr) (read_file : Text → Option Bytes)
    (is_status : ℕ → Bool) (load_server_config : Text → Text → Bool → E ⊎ T) where
  -- Options that are accepted have shared out their ports, and the addresses of the threads keep them.
  pub start-Keeps :
      (opts : Options D) (started : Started T)
      → start parse_ip read_file is_status load_server_config opts ≡ some (inr started)
      → (chunks : List (List ℕ)) × (balance_ports opts.ports opts.threads opts.bind_all
          ≡ some chunks)
        × Keeps chunks started.addrs
  unfolding start configure
  start-Keeps opts started h =
      elim (Option-cases (balance_ports opts.ports opts.threads opts.bind_all)) [
        | inl e ↦
            (let no : none ≡ some (inr started) =
                sym (ap (started_of parse_ip read_file is_status load_server_config opts) e) ∙ h in
              absurd (ground arith))
        | inr (chunks, e) ↦
            let chain =
              chained_lem (listen_addrs parse_ip opts.address chunks)
                (load_body_content read_file opts.body)
                (require (is_status opts.status) invalid_status)
                (load_tls load_server_config opts.cert opts.key opts.http2) (check_sse opts)
                (check_mcp opts) (check_http2 opts)
                (assembled parse_ip read_file is_status load_server_config opts) started
                (some-injective _ _ (
                  sym (ap (started_of parse_ip read_file is_status load_server_config opts) e)
                  ∙ h)) in
            let keeps = listen_addrs-Keeps parse_ip opts.address chunks chain.0 chain.3 in
            (chunks, e, (keeps.0, keeps.1, ap (λ (s : Started T). s.addrs) (sym chain.4) ∙ keeps.2))
      ]
