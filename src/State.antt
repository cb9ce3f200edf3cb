-- ===== src/State.antt =====
-- state.rs: `AppState` and `build_state`. A route's `healthy` is a handle of a shared flag, so that
-- the handler and a health-check loop mean the same flag exactly if they hold the same handle. The
-- file system is read through `Files`.
pub mod Build
pub mod Grown
pub mod Toy
mod Tests
use prismproxy.Prelude.{
  ℕ, suc, String, Bool, true, false, ◌&&◌, Option, none, some, List, [], ◌∷◌, ◌++◌, format,
  if◌then◌else◌, str_eq, ends_with, Result, ok, err, map_err, ◌>>=◌, ◌>>◌, ◌==◌,
}
use prismproxy.Errors.{ProxyError, tls}
use prismproxy.Config.{Config, RouteConfig, TlsConfig}
use prismproxy.Plugin.{Wasm, PluginRuntime, new_runtime, load}
use prismproxy.Tls.{Rustls, TlsState, build_tls_state}

-- `Path::exists` and `std::fs::read_to_string` at one moment.
pub record Files : Type 0 where
  pub exists : String → Bool
  pub read_to_string : String → Result String String

-- `Path::join` with a relative path.
unfoldable pub join : String → String → String
join dir name =
    if str_eq dir ""
    then name
    else if ends_with dir "/"
    then format (dir ∷ name ∷ [])
    else format (dir ∷ "/" ∷ name ∷ [])

-- The `AtomicBool`s that have been made, by handle; handles from `next` on are free.
pub record Flags : Type 0 where
  pub next : ℕ
  pub value : ℕ → Bool

-- `Arc::new(AtomicBool::new(b))`
unfoldable pub new_flag : Bool → Flags → ℕ × Flags
new_flag b f =
    (f.next, record { next = suc f.next; value = λ i. if i == f.next then b else f.value i })

module _ (wasm : Wasm) (rustls : Rustls) where
  pub record RouteState : Type 0 where
    pub route : RouteConfig
    pub runtime : PluginRuntime wasm
    pub healthy : ℕ

  pub record AppState : Type 0 where
    pub timeout_ms : ℕ
    pub routes : List RouteState
    pub tls : Option (TlsState rustls)

module _ (wasm : Wasm) (rustls : Rustls) (file_stem : String → Option String) where
  -- `for path in &route.plugins { runtime.load(path)?; }`
  unfoldable pub load_plugins :
      List String → PluginRuntime wasm → Result (PluginRuntime wasm) ProxyError
  load_plugins [] runtime = ok runtime
  load_plugins (path ∷ paths) runtime = do
    loaded ← load wasm file_stem path runtime
    load_plugins paths loaded

  -- The loop over the routes.
  unfoldable pub build_routes :
      List RouteConfig → Flags → Result (List (RouteState wasm rustls) × Flags) ProxyError
  unfolding load_plugins new_flag
  build_routes [] flags = ok ([], flags)
  build_routes (route ∷ routes) flags = do
    runtime ← load_plugins route.plugins (new_runtime wasm)
    let made = new_flag true flags
    rest ← build_routes routes made.1
    ok (record { route = route; runtime = runtime; healthy = made.0 } ∷ rest.0, rest.1)

  module _ (files : Files) where
    -- The value of `tls` in `build_state`.
    unfoldable pub load_tls : Option TlsConfig → Result (Option (TlsState rustls)) ProxyError
    load_tls none = ok none
    load_tls (some tls_config) =
        let cert_path = join tls_config.cache_dir "cert.pem" in
        let key_path = join tls_config.cache_dir "key.pem" in
        if files.exists cert_path && files.exists key_path
        then (do
          cert_pem ←
              map_err (λ e. tls (format ("read cert.pem: " ∷ e ∷ [])))
                (files.read_to_string cert_path)
          key_pem ←
              map_err (λ e. tls (format ("read key.pem: " ∷ e ∷ [])))
                (files.read_to_string key_path)
          state ← build_tls_state rustls tls_config cert_pem key_pem
          ok (some state))
        else ok none

    -- `build_state`
    unfoldable pub build_state : Config → Flags → Result (AppState wasm rustls × Flags) ProxyError
    unfolding build_routes load_tls
    build_state config flags = do
      built ← build_routes config.routes flags
      tls_state ← load_tls config.tls
      ok (
        record { timeout_ms = config.server.timeout_ms; routes = built.0; tls = tls_state },
        built.1,
      )
