-- ===== src/Startup/Base.antt =====
-- What server.rs's startup uses and spawns, and what happens at its listener.
use prismproxy.Prelude.{ℕ, String, Option, Result}
use prismproxy.Config.{Config}
use prismproxy.Plugin.{Wasm}
use prismproxy.Tls.{Rustls}
use prismproxy.Acme.Base.{Ca}

-- What the program uses of wasmtime, rustls, toml, the CA, `Path::file_stem` and `SocketAddr`.
pub record Outside : Type 1 where
  pub wasm : Wasm
  pub rustls : Rustls
  pub file_stem : String → Option String
  pub toml : String → Result Config String
  pub ca : Ca
  pub Addr : Type 0
  pub parse_addr : String → Result Addr String
  pub port : Addr → ℕ

-- The arguments of a spawned `upstream_health_loop`; `healthy` is the handle of its flag.
pub record HealthLoop : Type 0 where
  pub upstream : String
  pub healthy : ℕ
  pub interval_secs : ℕ
  pub fail_threshold : ℕ
  pub recover_threshold : ℕ

-- The arguments of a spawned `run_http_redirect_server`.
pub record Redirect : Type 0 where
  pub bind : String
  pub https_port : ℕ

-- What happens at the listener: a connection, with the state that is published when its task starts,
-- a failure to accept one, or the shutdown.
pub data Event (App : Type 0) : Type 0 where
  accepted : App → Event App
  not_accepted : String → Event App
  shut_down : Event App
