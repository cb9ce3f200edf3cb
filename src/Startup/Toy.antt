-- ===== src/Startup/Toy.antt =====
-- Toy modules, a parsed file and the CA of Acme/Toy, as the outside of a start of server.rs.
use prismproxy.Prelude.{ℕ, String, none, some, List, [], ◌∷◌, ok}
use prismproxy.Exec.{Flow, returns}
use prismproxy.Config.{TlsConfig}
use prismproxy.Plugin.Toy.{toy as toy_wasm}
use prismproxy.State.Toy.{rustls, file_stem, config, old_flags}
use prismproxy.Acme.Base.{Machine}
use prismproxy.Acme.Toy.{toy}
use prismproxy.Startup.Base.{Outside}
use prismproxy.Startup.{Started, run_with_app_state}

abbrev pub tls_config : TlsConfig
tls_config = record {
  acme_email = "ops@example.com";
  acme_directory = "https://localhost";
  cache_dir = "certs";
  domains = "example.com" ∷ [];
}

abbrev pub env : Outside
env = record {
  wasm = toy_wasm;
  rustls = rustls;
  file_stem = file_stem;
  toml = λ s. ok config;
  ca = toy (some "CERT");
  Addr = ℕ;
  parse_addr = λ s. ok 8443;
  port = λ a. a;
}

abbrev pub machine_of : List (String × String) → Machine (toy (some "CERT"))
machine_of files = record {
  world = 0;
  disk = record { files = ("proxy.toml", "") ∷ files; fates = [] };
  challenges = [];
  told = [];
}

-- What is started, if anything is.
abbrev pub started_by : Flow (Started env) → Started env
started_by (returns s) = s
started_by _ = run_with_app_state env (record { timeout_ms = 0; routes = []; tls = none }) old_flags
