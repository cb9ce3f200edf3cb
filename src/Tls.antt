-- ===== src/Tls.antt =====
-- tls.rs: `build_tls_state`. rustls and its PEM parser are the parameter `Rustls`.
use prismproxy.Prelude.{
  String, Option, List, [], ◌∷◌, format, Result, ok, err, ok_or, map_err, ◌>>=◌, ◌>>◌,
}
use prismproxy.Errors.{ProxyError, tls}
use prismproxy.Config.{TlsConfig}

pub record Rustls : Type 1 where
  pub Cert : Type 0
  pub Key : Type 0
  pub ServerConfig : Type 0
  -- `rustls_pemfile::certs`, collected, and `rustls_pemfile::private_key`
  pub certs : String → Result (List Cert) String
  pub private_key : String → Result (Option Key) String
  -- `with_no_client_auth().with_single_cert(…)`
  pub with_single_cert : List Cert → Key → Result ServerConfig String

-- `TlsState`; the acceptor is its server configuration with the ALPN protocols.
pub record TlsState (rustls : Rustls) : Type 0 where
  pub server_config : rustls.ServerConfig
  pub alpn_protocols : List String
  pub domains : List String

module _ (rustls : Rustls) where
  abbrev pub require_certs : List rustls.Cert → Result (Unit {0}) ProxyError
  require_certs [] = err (tls "no certificates found in PEM")
  require_certs (c ∷ cs) = ok tt

  -- `build_tls_state`
  unfoldable pub build_tls_state : TlsConfig → String → String → Result (TlsState rustls) ProxyError
  build_tls_state tls_config cert_pem key_pem = do
    certs ← map_err (λ e. tls (format ("parse cert chain: " ∷ e ∷ []))) (rustls.certs cert_pem)
    require_certs certs
    found ←
        map_err (λ e. tls (format ("parse private key: " ∷ e ∷ []))) (rustls.private_key key_pem)
    key ← ok_or found (tls "no private key found in PEM")
    server_config ←
        map_err (λ e. tls (format ("build server config: " ∷ e ∷ [])))
          (rustls.with_single_cert certs key)
    ok (record {
      server_config = server_config;
      alpn_protocols = "h2" ∷ "http/1.1" ∷ [];
      domains = tls_config.domains;
    })
