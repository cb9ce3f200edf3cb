-- ===== src/Startup.antt =====
-- server.rs: `run_with_listener`, `run_with_app_state` and `run_with_listener_hot` up to their
-- accept loop, and the loop; main.rs: `main` up to `run_with_listener_hot`. A task that is spawned is
-- a value that tells what it runs.
pub mod Base
pub mod Inversion
pub mod Watched
pub mod Secured
pub mod Toy
mod Tests
use prismproxy.Prelude.{
  ℕ, String, Bool, true, false, not, ◌&&◌, Option, none, some, List, [], ◌∷◌, map, str_eq,
  if◌then◌else◌, Result, ok, err, ok_or,
}
use prismproxy.Errors.{ProxyError, config as config_error, io}
use prismproxy.Exec.{
  Flow, returns, fails, panics, elapsed, Exec, pure, raise, lift, unwrap, flow_of, ◌>>=◌, ◌>>◌,
}
use prismproxy.Config.{Config, is_some, parse, from_file, validate}
use prismproxy.Plugin.{Wasm}
use prismproxy.Tls.{Rustls, TlsState}
use prismproxy.State.{Flags, RouteState, AppState, build_state}
use prismproxy.Disk.{read_to_string, files_of}
use prismproxy.Acme.Base.{Ca, Machine}
use prismproxy.Acme.{provision}
use prismproxy.Startup.Base.{
  Outside, HealthLoop, Redirect, Event, accepted, not_accepted, shut_down,
}

module _ (env : Outside) where
  open env use {wasm, rustls, file_stem, toml, ca, Addr, parse_addr, port}

  abbrev pub App : Type 0
  App = AppState wasm rustls

  -- What runs once the listener's loop begins: the capacity of the pool, the published state, the
  -- flags that have been made, and the tasks.
  pub record Started : Type 0 where
    pub max_idle : ℕ
    pub app : App
    pub flags : Flags
    pub health_loops : List HealthLoop
    -- `initial_mtime` of the reload loop, if there is one
    pub reload_from : Option ℕ
    pub redirect : Option Redirect
    -- whether there is a renewal loop, with a store
    pub renewal : Bool

  abbrev pub health_loop_of : RouteState wasm rustls → HealthLoop
  health_loop_of rs = record {
    upstream = rs.route.upstream;
    healthy = rs.healthy;
    interval_secs = 10;
    fail_threshold = 3;
    recover_threshold = 2;
  }

  -- `run_with_listener`, with the disk as it is at the start.
  unfoldable pub run_with_listener : Config → Flags → Exec (Machine ca) Started
  run_with_listener config flags m =
      (lift (build_state wasm rustls file_stem (files_of m.disk) config flags) >>= λ built.
      pure (record {
        max_idle = config.server.max_idle_connections;
        app = built.0;
        flags = built.1;
        health_loops = map health_loop_of built.0.routes;
        reload_from = none;
        redirect = none;
        renewal = false;
      }))
        m

  -- `run_with_app_state`
  abbrev pub run_with_app_state : App → Flags → Started
  run_with_app_state app flags = record {
    max_idle = 8;
    app = app;
    flags = flags;
    health_loops = [];
    reload_from = none;
    redirect = none;
    renewal = false;
  }

  abbrev pub read_config : String → Exec (Machine ca) Config
  read_config path m = (flow_of (from_file toml (λ p. read_to_string p m.disk) path), m)

  abbrev pub build : Config → Flags → Exec (Machine ca) (App × Flags)
  build config flags m =
      (flow_of (build_state wasm rustls file_stem (files_of m.disk) config flags), m)

  abbrev pub no_challenge_listen : ProxyError
  no_challenge_listen = config_error "http_challenge_listen required when [tls] is configured"

  -- The certificate first, and the state again.
  unfoldable pub provision_first :
      ℕ → String → Option String → Flags → Exec (Machine ca) (App × Flags)
  provision_first rounds path http_challenge_listen flags = do
    config ← read_config path
    tls_config ← unwrap config.tls
    challenge_listen ← lift (ok_or http_challenge_listen no_challenge_listen)
    _ ← provision ca rounds tls_config challenge_listen
    config2 ← read_config path
    lift (validate parse_addr config2)
    build config2 flags

  abbrev pub initial_state :
      ℕ → String → Bool → Option String → App × Flags → Exec (Machine ca) (App × Flags)
  initial_state rounds path has_tls_config http_challenge_listen initial =
      if has_tls_config && not (is_some initial.0.tls)
      then provision_first rounds path http_challenge_listen initial.1
      else pure initial

  abbrev or_443 : Result Addr String → ℕ
  or_443 (ok a) = port a
  or_443 (err e) = 443

  -- `unwrap_or_else`
  abbrev or_parse : Result Config ProxyError → Exec (Machine ca) Config
  or_parse (ok config) = pure config
  or_parse (err e) = unwrap (result_ok (parse toml "[server]\nlisten=\"0.0.0.0:443\""))
    where
      result_ok : Result Config ProxyError → Option Config
      result_ok (ok config) = some config
      result_ok (err e) = none

  -- `https_port`
  abbrev pub https_port : String → Exec (Machine ca) ℕ
  https_port path = do
    config ← λ m. or_parse (from_file toml (λ p. read_to_string p m.disk) path) m
    pure (or_443 (parse_addr config.server.listen))

  abbrev unwrap_or_default : Option String → String
  unwrap_or_default none = ""
  unwrap_or_default (some s) = s

  -- The redirect server, unless its address is empty.
  abbrev pub redirect_on : String → ℕ → Option Redirect
  redirect_on bind https_port =
      if str_eq bind "" then none else some (record { bind = bind; https_port = https_port })

  abbrev pub redirecting : Bool → String → Option String → Exec (Machine ca) (Option Redirect)
  redirecting false path http_challenge_listen = pure none
  redirecting true path http_challenge_listen = do
    port ← https_port path
    pure (redirect_on (unwrap_or_default http_challenge_listen) port)

  abbrev unwrap_or_epoch : Option ℕ → ℕ
  unwrap_or_epoch none = 0
  unwrap_or_epoch (some t) = t

  -- `run_with_listener_hot`; `modified` is the file's time of modification, if it can be read.
  unfoldable pub run_with_listener_hot : ℕ → String → Option ℕ → Flags → Exec (Machine ca) Started
  unfolding provision_first
  run_with_listener_hot rounds path modified flags = do
    config ← read_config path
    lift (validate parse_addr config)
    built ← build config flags
    initial ←
        initial_state rounds path (is_some config.tls) config.server.http_challenge_listen built
    redirect ← redirecting (is_some config.tls) path config.server.http_challenge_listen
    pure (record {
      max_idle = config.server.max_idle_connections;
      app = initial.0;
      flags = initial.1;
      health_loops = map health_loop_of initial.0.routes;
      reload_from = some (unwrap_or_epoch modified);
      redirect = redirect;
      renewal = is_some config.tls;
    })

  -- The tasks of the connections: `serve_tls` with the acceptor of the state, or `serve_plain`.
  abbrev pub Serving : Type 0
  Serving = Option (TlsState rustls)

  abbrev pub served_first :
      Serving
      → List Serving × Result (Unit {0}) ProxyError
      → List Serving × Result (Unit {0}) ProxyError
  served_first serving rest = (serving ∷ rest.0, rest.1)

  -- `run_accept_loop` over what happens, with the tasks that it spawns and what it returns. The
  -- shutdown comes at last; a list that ends without it is read as if it came then.
  unfoldable pub run_accept_loop : List (Event App) → List Serving × Result (Unit {0}) ProxyError
  run_accept_loop [] = ([], ok tt)
  run_accept_loop (accepted app ∷ events) = served_first app.tls (run_accept_loop events)
  run_accept_loop (not_accepted e ∷ events) = ([], err (io e))
  run_accept_loop (shut_down ∷ events) = ([], ok tt)

  -- `main`, with its argument, if there is one: the configuration, the listener and the server.
  unfoldable pub main :
      ℕ
      → Option String
      → (String → Exec (Machine ca) (Unit {0}))
      → Option ℕ
      → Flags
      → Exec (Machine ca) Started
  unfolding run_with_listener_hot
  main rounds argument bind modified flags = do
    let config_path = or_default argument
    config ← read_config config_path
    lift (validate parse_addr config)
    bind config.server.listen
    run_with_listener_hot rounds config_path modified flags
    where
      or_default : Option String → String
      or_default none = "config/default.toml"
      or_default (some path) = path
