-- ===== src/Config.antt =====
-- src/main.rs: the configuration that all threads share.
use statico.Prelude.{ℕ, Option, Bytes}
use statico.Http.{Headers}

-- `tls` is the TLS configuration of crate rustls.
pub record ServerConfig (T : Type 0) : Type 0 where
  pub status : ℕ
  pub body : Bytes
  pub headers : Headers
  pub tls : Option T
