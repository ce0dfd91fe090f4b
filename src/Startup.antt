-- ===== src/Startup.antt =====
-- src/main.rs: what `main` computes from the options before it starts its threads, and which server a
-- thread runs. The text of an option is a list of code points, which is encoded in UTF-8 where the
-- source keeps it. Parsing an IP address, reading a file, the range of the status codes (crate http)
-- and the loading of a TLS configuration (Startup.Tls) are parameters. A warning does nothing here.
pub mod Accepted
pub mod Addresses
pub mod Arguments
pub mod Calls
pub mod Names
pub mod Headers
pub mod HeaderLines
pub mod Listeners
pub mod Listening
pub mod Tls
mod Tests
use statico.Prelude.{
  ℕ, Bool, true, false, not, ◌&&◌, List, [], ◌∷◌, map, Option, none, some, ◌⊎◌, inl, inr, Bytes,
  codes, starts_with, drop, if◌then◌else◌,
}
use statico.Ports.{balance_ports}
use statico.Config.{ServerConfig}
use statico.Startup.Headers.{Text, encode, parse_headers}
use statico.Startup.Arguments.{Options, Runtime, tokio, tokio_uring, monoio, glommio, smol, compio}

pub data IpAddr : Type 0 where
  ip_v4 ip_v6 : ℕ → IpAddr

-- An address and a port.
pub data SocketAddr : Type 0 where
  socket_v4 socket_v6 : ℕ → ℕ → SocketAddr

pub data StartError (E : Type 0) : Type 0 where
  invalid_address body_not_read invalid_status cert_without_key : StartError E
  sse_without_mcp relative_endpoint mcp_needs_tokio : StartError E
  http2_not_supported : Runtime → StartError E
  tls_error : E → StartError E

pub record Started (T : Type 0) : Type 0 where
  pub addrs : List (List SocketAddr)
  pub config : ServerConfig T

-- `?`
abbrev pub and_then {ℓ κ μ} : {E : Type ℓ} {A : Type κ} {B : Type μ} → E ⊎ A → (A → E ⊎ B) → E ⊎ B
and_then (inl e) f = inl e
and_then (inr a) f = f a

-- A check that fails or gives nothing.
abbrev pub Check : Type 0 → Type 0
Check E = ◌⊎◌ {0, 0} E Unit

abbrev pub require : {E : Type 0} → Bool → E → Check E
require true e = inr tt
require false e = inl e

abbrev pub is_some {ℓ} : {A : Type ℓ} → Option A → Bool
is_some none = false
is_some (some a) = true

abbrev pub is_tokio : Runtime → Bool
is_tokio tokio = true
is_tokio _ = false

unfoldable pub socket_addr : IpAddr → ℕ → SocketAddr
socket_addr (ip_v4 a) port = socket_v4 a port
socket_addr (ip_v6 a) port = socket_v6 a port

module _ {E : Type 0} where
  unfoldable pub listen_addrs :
      (Text → Option IpAddr) → Option Text → List (List ℕ) → StartError E ⊎ List (List SocketAddr)
  listen_addrs parse_ip none chunks = inr (map (map (socket_v4 0)) chunks)
  listen_addrs parse_ip (some address) chunks = elim (parse_ip address) [
    | none ↦ inl invalid_address
    | some ip ↦ inr (map (map (socket_addr ip)) chunks)
  ]

  unfoldable pub load_body_content : (Text → Option Bytes) → Option Text → StartError E ⊎ Bytes
  load_body_content read_file none = inr []
  load_body_content read_file (some content) =
      if starts_with (codes "@") content
      then elim (read_file (drop 1 content)) [
        | none ↦ inl body_not_read
        | some file_content ↦ inr file_content
      ]
      else inr (encode content)

  unfoldable pub load_tls :
      {T : Type 0}
      → (Text → Text → Bool → E ⊎ T)
      → Option Text
      → Option Text
      → Bool
      → StartError E ⊎ Option T
  load_tls load_server_config (some cert) (some key) http2 =
      elim (load_server_config cert key http2) [
        | inl e ↦ inl (tls_error e)
        | inr tls ↦ inr (some tls)
      ]
  load_tls load_server_config none none http2 = inr none
  load_tls load_server_config (some cert) none http2 = inl cert_without_key
  load_tls load_server_config none (some key) http2 = inl cert_without_key

  unfoldable pub check_sse : {D : Type 0} → Options D → Check (StartError E)
  check_sse opts =
      require (not (is_some opts.mcp_sse && not (is_some opts.mcp_everything))) sse_without_mcp

  unfoldable pub check_mcp : {D : Type 0} → Options D → Check (StartError E)
  check_mcp opts = elim opts.mcp_everything [
    | none ↦ inr tt
    | some ep ↦
        and_then (require (starts_with (codes "/") ep) relative_endpoint)
          (λ u. require (is_tokio opts.runtime) mcp_needs_tokio)
  ]

  unfoldable pub check_http2 : {D : Type 0} → Options D → Check (StartError E)
  check_http2 opts =
      require (not (not (is_tokio opts.runtime) && opts.http2)) (http2_not_supported opts.runtime)

  module _ {D T : Type 0} (parse_ip : Text → Option IpAddr) (read_file : Text → Option Bytes)
      (is_status : ℕ → Bool) (load_server_config : Text → Text → Bool → E ⊎ T) where
    unfoldable pub configure : Options D → List (List ℕ) → StartError E ⊎ Started T
    configure opts chunks = and_then (listen_addrs parse_ip opts.address chunks) (λ addrs.
        and_then (load_body_content read_file opts.body) (λ body_content.
          and_then (require (is_status opts.status) invalid_status) (λ u.
            and_then (load_tls load_server_config opts.cert opts.key opts.http2) (λ tls.
              and_then (check_sse opts) (λ u. and_then (check_mcp opts) (λ u.
                and_then (check_http2 opts) (λ u. inr (record {
                  addrs = addrs;
                  config = record {
                    status = opts.status;
                    body = body_content;
                    headers = parse_headers opts.header;
                    tls = tls;
                  };
                }))))))))

    -- `none` when sharing out the ports stops the program.
    unfoldable pub start : Options D → Option (StartError E ⊎ Started T)
    start opts = elim (balance_ports opts.ports opts.threads opts.bind_all) [
      | none ↦ none
      | some chunks ↦ some (configure opts chunks)
    ]

-- The server that a thread runs.
pub data Server : Type 0 where
  mcp_server : Server
  runtime_server : Runtime → Server

unfoldable pub run_thread : {D : Type 0} → Options D → Server
run_thread opts = if is_some opts.mcp_everything then mcp_server else runtime_server opts.runtime
