-- ===== src/Startup/Listening.antt =====
-- Which addresses the threads listen to, for options that are served.
use statico.Prelude.{
  ℕ, suc, ◌/◌, ◌≤◌, Bool, true, false, not, ◌&&◌, List, [], ◌∷◌, ◌++◌, map, concat, length, Option,
  none, some, ◌⊎◌, inl, inr, ◌≡◌, refl, sym, ap, ◌∙◌, Bytes, codes, starts_with, ltb, if◌then◌else◌,
  Bool-cases,
}
use statico.Ports.{balance_ports, replicate}
use statico.Ports.Balance.{balance_ports-Cuts}
use statico.Startup.{
  IpAddr, SocketAddr, socket_v4, socket_addr, StartError, Started, Server, invalid_status, is_some,
  is_tokio, and_then, require, Check, listen_addrs, load_body_content, load_tls, check_sse,
  check_mcp, check_http2, configure, start, sse_without_mcp, http2_not_supported, relative_endpoint,
  mcp_needs_tokio,
}
use statico.Startup.Headers.{Text}
use statico.Startup.Arguments.{Options, Runtime}
use statico.Startup.Accepted.{
  IsServed, served_mcp, served_tokio, served_other, chained, assembled, started_of,
}

-- The address of the options, and the socket address of each port.
pub data Binds (parse_ip : Text → Option IpAddr) : Option Text → (ℕ → SocketAddr) → Type 0 where
  unspecified : Binds parse_ip none (socket_v4 0)
  parsed :
      {address : Text} {ip : IpAddr}
      → parse_ip address ≡ some ip
      → Binds parse_ip (some address) (socket_addr ip)

map-append : {A B : Type 0} (f : A → B) (xs ys : List A) → map f (xs ++ ys) ≡ map f xs ++ map f ys
map-append f [] ys = refl
map-append f (x ∷ xs) ys = ap (◌∷◌ (f x)) (map-append f xs ys)

concat-map :
    {A B : Type 0} (f : A → B) (chunks : List (List A))
    → concat (map (map f) chunks) ≡ map f (concat chunks)
concat-map f [] = refl
concat-map f (c ∷ chunks) =
    ap (◌++◌ (map f c)) (concat-map f chunks) ∙ sym (map-append f c (concat chunks))

length-map : {A B : Type 0} (f : A → B) (xs : List A) → length (map f xs) ≡ length xs
length-map f [] = refl
length-map f (x ∷ xs) = ap suc (length-map f xs)

abbrev check_mcp_of : {E : Type 0} → Runtime → Option Text → Check (StartError E)
check_mcp_of runtime everything = elim everything [
  | none ↦ inr tt
  | some ep ↦
      and_then (require (starts_with (codes "/") ep) relative_endpoint)
        (λ u. require (is_tokio runtime) mcp_needs_tokio)
]

abbrev check_http2_of : {E : Type 0} → Runtime → Bool → Bool → Check (StartError E)
check_http2_of runtime on_tokio http2 =
    require (not (not on_tokio && http2)) (http2_not_supported runtime)

listen_addrs_bound :
    {E : Type 0} (parse_ip : Text → Option IpAddr) (address : Option Text) (bind : ℕ → SocketAddr)
    (chunks : List (List ℕ))
    → Binds parse_ip address bind
    → listen_addrs {E = E} parse_ip address chunks ≡ inr (map (map bind) chunks)
unfolding listen_addrs
listen_addrs_bound parse_ip none bind chunks unspecified = refl
listen_addrs_bound parse_ip (some address) bind chunks (parsed {address = a} {ip = ip} e) =
    rw (listen_addrs, e) refl

module _ {E D : Type 0} where
  check_sse_served :
      (opts : Options D) (server : Server) → IsServed opts server → check_sse {E = E} opts ≡ inr tt
  unfolding check_sse
  check_sse_served opts server (served_mcp e t) = elim (Bool-cases (is_some opts.mcp_sse)) [
    | inl y ↦ λ i. require (not (y i && not (is_some (e i)))) sse_without_mcp
    | inr n ↦ λ i. require (not (n i && not (is_some (e i)))) sse_without_mcp
  ]
  check_sse_served opts server (served_tokio e n t) =
      λ i. require (not (is_some (n i) && not (is_some (e i)))) sse_without_mcp
  check_sse_served opts server (served_other e n t h) =
      λ i. require (not (is_some (n i) && not (is_some (e i)))) sse_without_mcp

  check_mcp_served :
      (opts : Options D) (server : Server) → IsServed opts server → check_mcp {E = E} opts ≡ inr tt
  unfolding check_mcp starts_with
  check_mcp_served opts server (served_mcp e t) = λ i. check_mcp_of (t i) (e i)
  check_mcp_served opts server (served_tokio e n t) = λ i. check_mcp_of opts.runtime (e i)
  check_mcp_served opts server (served_other e n t h) = λ i. check_mcp_of opts.runtime (e i)

  check_http2_served :
      (opts : Options D) (server : Server)
      → IsServed opts server
      → check_http2 {E = E} opts ≡ inr tt
  unfolding check_http2
  check_http2_served opts server (served_mcp e t) =
      ap (λ (r : Runtime). check_http2_of opts.runtime (is_tokio r) opts.http2) t
  check_http2_served opts server (served_tokio e n t) =
      ap (λ (r : Runtime). check_http2_of opts.runtime (is_tokio r) opts.http2) t
  check_http2_served opts server (served_other e n t h) =
      λ i. check_http2_of opts.runtime (t i) (h i)

  module _ {T : Type 0} (parse_ip : Text → Option IpAddr) (read_file : Text → Option Bytes)
      (is_status : ℕ → Bool) (load_server_config : Text → Text → Bool → E ⊎ T) where
    -- With a port, a thread and no flag to bind all, an address that can be parsed if one is given, a
    -- body that can be loaded, a valid status, a TLS configuration that loads, and options that are
    -- served: the program starts. Every thread has a list of addresses, and the lists one behind the
    -- other are the addresses of the ports, repeated as often as the ports go into the threads (once,
    -- when there are more ports than threads).
    pub start-Listens :
        (opts : Options D) (server : Server) (bind : ℕ → SocketAddr) (body : Bytes) (tls : Option T)
        → 1 ≤ length opts.ports
        → 1 ≤ opts.threads
        → opts.bind_all ≡ false
        → Binds parse_ip opts.address bind
        → load_body_content {E = E} read_file opts.body ≡ inr body
        → is_status opts.status ≡ true
        → load_tls load_server_config opts.cert opts.key opts.http2 ≡ inr tls
        → IsServed opts server
        → (started : Started T) × (start parse_ip read_file is_status load_server_config opts
            ≡ some (inr started))
          × (length started.addrs ≡ opts.threads)
          × (concat started.addrs
              ≡ map bind (
                  if ltb 1 (opts.threads / length opts.ports)
                  then concat (replicate (opts.threads / length opts.ports) opts.ports)
                  else opts.ports))
    unfolding start configure
    start-Listens opts server bind body tls p t a b loaded status secured served =
        let cuts = balance_ports-Cuts opts.ports opts.threads p t in
        let chunks = cuts.0 in
        let shared : balance_ports opts.ports opts.threads opts.bind_all ≡ some chunks =
          ap (balance_ports opts.ports opts.threads) a ∙ cuts.1 in
        let bound = listen_addrs_bound parse_ip opts.address bind chunks b in
        let sse = check_sse_served opts server served in
        let mock = check_mcp_served opts server served in
        let http2 = check_http2_served opts server served in
        let configured : configure parse_ip read_file is_status load_server_config opts chunks
            ≡ inr (
                assembled parse_ip read_file is_status load_server_config opts
                  (map (map bind) chunks) body tls) =
          λ i.
            chained (bound i) (loaded i) (require (status i) invalid_status) (secured i) (sse i)
              (mock i) (http2 i) (assembled parse_ip read_file is_status load_server_config opts) in
        (
          assembled parse_ip read_file is_status load_server_config opts (map (map bind) chunks)
              body tls,
          ap (started_of parse_ip read_file is_status load_server_config opts) shared
              ∙ ap some configured,
          length-map (map bind) chunks ∙ cuts.2,
          concat-map bind chunks ∙ ap (map bind) cuts.3,
        )
