-- ===== src/Startup/Tls.antt =====
-- src/tls.rs: a server configuration from the files of a certificate and a key. Reading a file, the
-- parsers of PEM (crate rustls_pemfile) and the builder of crate rustls are parameters.
use statico.Prelude.{
  Bool, List, [], ◌∷◌, Option, none, some, ◌⊎◌, inl, inr, Bytes, codes, if◌then◌else◌,
}

pub data TlsError : Type 0 where
  certificate_not_opened certificate_not_parsed no_certificates : TlsError
  key_not_opened key_not_parsed no_private_key : TlsError
  configuration_not_built : TlsError

-- What the builder gives, and the protocols for ALPN, by preference.
pub record TlsConfig (B : Type 0) : Type 0 where
  pub built : B
  pub alpn_protocols : List Bytes

module _ {P C K B : Type 0} (open_file : P → Option Bytes) (parse_certs : Bytes → Option (List C))
    (parse_private_key : Bytes → Option (Option K)) (with_single_cert : List C → K → Option B) where
  unfoldable pub load_certs : P → TlsError ⊎ List C
  load_certs path = elim (open_file path) [
    | none ↦ inl certificate_not_opened
    | some file ↦ elim (parse_certs file) [
      | none ↦ inl certificate_not_parsed
      | some [] ↦ inl no_certificates
      | some (cert ∷ certs) ↦ inr (cert ∷ certs)
    ]
  ]

  unfoldable pub load_private_key : P → TlsError ⊎ K
  load_private_key path = elim (open_file path) [
    | none ↦ inl key_not_opened
    | some file ↦ elim (parse_private_key file) [
      | none ↦ inl key_not_parsed
      | some none ↦ inl no_private_key
      | some (some key) ↦ inr key
    ]
  ]

  unfoldable pub load_server_config : P → P → Bool → TlsError ⊎ TlsConfig B
  load_server_config cert_path key_path http2 = elim (load_certs cert_path) [
    | inl e ↦ inl e
    | inr certs ↦ elim (load_private_key key_path) [
      | inl e ↦ inl e
      | inr key ↦ elim (with_single_cert certs key) [
        | none ↦ inl configuration_not_built
        | some built ↦ inr (record {
          built = built;
          alpn_protocols =
              if http2 then codes "h2" ∷ (codes "http/1.1" ∷ []) else codes "http/1.1" ∷ [];
        })
      ]
    ]
  ]
