-- ===== src/State/Toy.antt =====
-- A configuration over the toy modules, and the state that state.rs builds from it.
use prismproxy.Prelude.{ℕ, String, true, Option, some, List, [], ◌∷◌, map, ok, ◌==◌, if◌then◌else◌}
use prismproxy.Config.{Config, RouteConfig}
use prismproxy.Plugin.Toy.{toy, plugin_of, pass_all}
use prismproxy.Tls.{Rustls}
use prismproxy.State.{Files, Flags, RouteState, AppState}

abbrev pub rustls : Rustls
rustls = record {
  Cert = String;
  Key = String;
  ServerConfig = String;
  certs = λ pem. ok (pem ∷ []);
  private_key = λ pem. ok (some pem);
  with_single_cert = λ certs key. ok key;
}

abbrev pub files : Files
files = record { exists = λ path. true; read_to_string = λ path. ok path }

abbrev pub file_stem : String → Option String
file_stem path = some path

abbrev pub route_of : String → List String → RouteConfig
route_of path_prefix plugins = record {
  path_prefix = path_prefix;
  upstream = "127.0.0.1:3000";
  plugins = plugins;
}

abbrev pub config : Config
config = record {
  server = record {
    listen = "127.0.0.1:8080";
    max_idle_connections = 8;
    timeout_ms = 500;
    http_challenge_listen = some "0.0.0.0:80";
  };
  routes = route_of "/api" ("a.wasm" ∷ "b.wasm" ∷ []) ∷ route_of "/" [] ∷ [];
  tls = some (record {
    acme_email = "ops@example.com";
    acme_directory = "https://localhost";
    cache_dir = "certs";
    domains = "example.com" ∷ [];
  });
}

-- Flags 0 to 2 belong to an older state; flag 1 is down.
abbrev pub old_flags : Flags
old_flags = record { next = 3; value = λ h. h == 0 }

abbrev pub state_of : String → List String → ℕ → RouteState toy rustls
state_of path_prefix plugins healthy = record {
  route = route_of path_prefix plugins;
  runtime = record { plugins = map (λ p. plugin_of p pass_all) plugins };
  healthy = healthy;
}

abbrev pub built : AppState toy rustls
built = record {
  timeout_ms = 500;
  routes = state_of "/api" ("a.wasm" ∷ "b.wasm" ∷ []) 3 ∷ state_of "/" [] 4 ∷ [];
  tls = some (record {
    server_config = "certs/key.pem";
    alpn_protocols = "h2" ∷ "http/1.1" ∷ [];
    domains = "example.com" ∷ [];
  });
}

abbrev pub made : Flags
made = record {
  next = 5;
  value = λ h. if h == 4 then true else if h == 3 then true else old_flags.value h;
}
