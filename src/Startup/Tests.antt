-- ===== src/Startup/Tests.antt =====
-- Starts of server.rs with toy modules and the CA of Acme/Toy, with a cached certificate and without.
use prismproxy.Prelude.{
  String, ◌≡◌, refl, true, none, some, List, [], ◌∷◌, map, Result, ok, err, lookup, insert,
}
use prismproxy.Errors.{ProxyError, io}
use prismproxy.Acme.{provision}
use prismproxy.Exec.{Flow, returns}
use prismproxy.Config.{from_file, validate}
use prismproxy.Plugin.{load}
use prismproxy.Plugin.Toy.{toy as toy_wasm}
use prismproxy.Tls.{build_tls_state}
use prismproxy.State.{Flags, build_state, join}
use prismproxy.State.Toy.{rustls, file_stem, files, config, old_flags, state_of}
use prismproxy.Server.{Disk, try_reload}
use prismproxy.Disk.{create_dir_all, exists, read_to_string, write, rename, remove_file}
use prismproxy.Acme.Toy.{old_files}
use prismproxy.Startup.Toy.{tls_config, env, machine_of, started_by}
use prismproxy.Startup.Base.{HealthLoop, accepted, not_accepted, shut_down}
use prismproxy.Startup.{Started, App, run_with_listener_hot, run_accept_loop}
use prismproxy.Startup.Watched.{IsWatched, run_with_listener_hot-watches}
use prismproxy.Startup.Secured.{HasTls, run_with_listener_hot-HasTls}

abbrev start : List (String × String) → Started env
start files =
    started_by (run_with_listener_hot env 3 "proxy.toml" (some 7) old_flags (machine_of files)).0

abbrev run_on : List (String × String) → Flow (Started env)
run_on files = (run_with_listener_hot env 3 "proxy.toml" (some 7) old_flags (machine_of files)).0

starts_cached : run_on old_files ≡ returns (start old_files)
unfolding run_with_listener_hot from_file read_to_string lookup validate build_state load exists
    join build_tls_state
starts_cached = refl

starts_fresh : run_on [] ≡ returns (start [])
unfolding run_with_listener_hot from_file read_to_string lookup validate build_state load exists
    join build_tls_state provision create_dir_all write rename insert remove_file
starts_fresh = refl

-- The tasks at the start.
tasks :
    ((start old_files).redirect ≡ some (record { bind = "0.0.0.0:80"; https_port = 8443 }))
    × ((start old_files).renewal ≡ true)
    × (map (λ (l : HealthLoop). l.healthy) (start old_files).health_loops ≡ 3 ∷ 4 ∷ [])
unfolding run_with_listener_hot from_file read_to_string lookup validate build_state load exists
    join build_tls_state
tasks = (refl, refl, refl)

run_with_listener_hot-watches_example : IsWatched env (start old_files) 1 (state_of "/" [] 4)
unfolding run_with_listener_hot from_file read_to_string lookup validate build_state load exists
    join build_tls_state
run_with_listener_hot-watches_example =
    run_with_listener_hot-watches env 3 "proxy.toml" (some 7) old_flags (machine_of old_files)
      (start old_files) 1 (state_of "/" [] 4) starts_cached refl

abbrev edited : Disk
edited = record { modified = some 9; from_file = ok config; files = files }

abbrev built_by : Result (App env × Flags) ProxyError → App env × Flags
built_by (ok new) = new
built_by (err e) = ((start old_files).app, old_flags)

abbrev reloaded : App env × Flags
reloaded =
    built_by (try_reload toy_wasm rustls file_stem env.parse_addr edited (start old_files).flags)

reloads :
    try_reload toy_wasm rustls file_stem env.parse_addr edited (start old_files).flags ≡ ok reloaded
unfolding run_with_listener_hot try_reload from_file read_to_string lookup validate build_state load
    exists join build_tls_state
reloads = refl

run_with_listener_hot-HasTls_example : HasTls env (start []).app
unfolding run_with_listener_hot from_file read_to_string lookup validate build_state load exists
    join build_tls_state provision create_dir_all write rename insert remove_file
run_with_listener_hot-HasTls_example =
    run_with_listener_hot-HasTls env 3 "proxy.toml" (machine_of []) config tls_config "0.0.0.0:80"
      refl refl refl refl (some 7) old_flags (start []) starts_fresh

-- The second connection meets a state with TLS; the listener fails before the third.
accept_run :
    run_accept_loop env (
      accepted (record { timeout_ms = 0; routes = []; tls = none })
      ∷ accepted (start old_files).app
      ∷ not_accepted "x"
      ∷ accepted (start old_files).app
      ∷ shut_down
      ∷ [])
    ≡ (none ∷ (start old_files).app.tls ∷ [], err (io "x"))
unfolding run_accept_loop
accept_run = refl
