-- ===== src/System/Tests.antt =====
-- A run of the proxy over the toy modules and networks: a connection, a request, a ping that fails,
-- the answer, and a reload.
use mathlib.Core.List.{reverse}
use prismproxy.Startup.Secured.{HasTls}
use prismproxy.Startup.{App, run_with_listener_hot}
use prismproxy.State.{Flags, RouteState, build_state, join}
use prismproxy.Server.{try_reload, Disk}
use prismproxy.Prelude.{
  ap, sym, ok_inj, ℕ, ◌≡◌, ◌≤◌, ◌⊎◌, refl, arith, true, some, List, [], ◌∷◌, map, get_elem?, ok,
  lookup, length,
}
use prismproxy.System.Encrypted.{IsSecure, IsEncrypted, Run-IsEncrypted}
use prismproxy.HealthCheck.Hysteresis.{is_healthy}
use prismproxy.Config.{from_file, validate}
use prismproxy.Plugin.{load}
use prismproxy.Plugin.Toy.{toy as toy_wasm}
use prismproxy.Tls.{build_tls_state}
use prismproxy.State.Toy.{state_of, rustls, files, config}
use prismproxy.Disk.{exists, read_to_string}
use prismproxy.HealthCheck.{connect_failed, ping}
use prismproxy.Pool.Refinement.{stack}
use prismproxy.Http.{Request, Bytes}
use prismproxy.Http.Toy.{toy_http, toy-HttpLaws}
use prismproxy.Http.ToyNet.{toy_net}
use prismproxy.Acme.Toy.{old_files}
use prismproxy.Startup.Toy.{env, machine_of}
use prismproxy.System.Base.{Watch}
use prismproxy.System.Toy.{begun_proxy, starts, client}
use prismproxy.System.{
  Inflight, System, Event, Run, boot, reload, watch, accept, begin, finish, here, next, reloads,
  pings, accepts, begins, finishes, accepted, begun, pinged, finished, reloaded, outcome_of,
}
use prismproxy.System.Running.{Run-is_healthy, Run-unwatched}
use prismproxy.System.Tallies.{Run-max_idle}

abbrev get_root : Request toy_http Bytes
get_root = record { method = "GET"; uri = "/x"; headers = []; body = [] }

abbrev first_watch : Watch
first_watch = record {
  loop = record {
    upstream = "127.0.0.1:3000";
    healthy = 0;
    interval_secs = 10;
    fail_threshold = 3;
    recover_threshold = 2;
  };
  consecutive_failures = 0;
  consecutive_successes = 0;
}

abbrev edited : Disk
edited = record { modified = some 9; from_file = ok config; files = files }

abbrev s0 : System env toy_net
s0 = boot env toy_net begun_proxy

abbrev s1 : System env toy_net
s1 = accepted env toy_net "10.1.1.1" (ok tt) s0

abbrev s2 : System env toy_net
s2 = begun env toy_net client get_root s1

abbrev s3 : System env toy_net
s3 = pinged env toy_net 0 first_watch connect_failed s2

abbrev request : Inflight env toy_net
request = record { app = s1.app; is_up = s1.flags.value; connection = client; request = get_root }

abbrev s4 : System env toy_net
s4 = finished env toy_net 0 request [] s3

abbrev s5 : System env toy_net
s5 = reloaded env toy_net edited 7 s4

abbrev events : List (Event env toy_net)
events =
    reloads edited
    ∷ finishes request (record { world = []; pool = s3.pool })
        (outcome_of env toy_net request [] s3).task (outcome_of env toy_net request [] s3).response
    ∷ pings 0 connect_failed
    ∷ begins get_root
    ∷ accepts "10.1.1.1" (ok tt)
    ∷ []

runs : Run env toy_net s0 events s5
unfolding run_with_listener_hot from_file read_to_string lookup validate build_state load exists
    join build_tls_state
runs =
    next (reloads edited)
      (next (finishes request _ _ _)
        (next (pings 0 connect_failed)
          (next (begins get_root)
            (next (accepts "10.1.1.1" (ok tt)) here (accept "10.1.1.1" (ok tt) (omega arith)))
            (begin 0 client get_root refl))
          (watch 0 first_watch connect_failed refl))
        (finish 0 request [] refl))
      (reload edited 7 refl)

Run-is_healthy_example :
    s5.flags.value 0 ≡ is_healthy 3 2 (reverse (map ping (connect_failed ∷ [])))
unfolding run_with_listener_hot from_file read_to_string lookup validate build_state load exists
    join build_tls_state
Run-is_healthy_example =
    Run-is_healthy env toy_net 3 "proxy.toml" (some 7) (machine_of old_files) begun_proxy events s5
      0 (state_of "/api" ("a.wasm" ∷ "b.wasm" ∷ []) 0) starts runs refl (omega arith)

Run-unwatched_example :
    (s5.app ≡ begun_proxy.app)
    ⊎ ((i : ℕ) (rs : RouteState toy_wasm rustls)
        → get_elem? s5.app.routes i ≡ some rs
        → s5.flags.value rs.healthy ≡ true)
Run-unwatched_example =
    Run-unwatched env toy_net 3 "proxy.toml" (some 7) (machine_of old_files) begun_proxy events s5
      starts runs

read_at_start :
    from_file env.toml (λ p. read_to_string p (machine_of old_files).disk) "proxy.toml" ≡ ok config
unfolding from_file read_to_string lookup
read_at_start = refl

Run-max_idle_example : length (stack s5.pool "127.0.0.1:3000") ≤ 8
Run-max_idle_example =
    Run-max_idle env toy_net toy-HttpLaws 3 "proxy.toml" (some 7) (machine_of old_files) begun_proxy
      config events s5 "127.0.0.1:3000" read_at_start starts runs

begun-HasTls : HasTls env begun_proxy.app
unfolding run_with_listener_hot from_file read_to_string lookup validate build_state load exists
    join build_tls_state
begun-HasTls = (_, refl)

edited-IsSecure : IsSecure env edited
unfolding try_reload validate build_state load join build_tls_state
edited-IsSecure flags new built = (_, ap (λ (x : App env × Flags). x.0.tls) (sym (ok_inj built)))

Run-IsEncrypted_example : IsEncrypted env toy_net s5
Run-IsEncrypted_example =
    Run-IsEncrypted env toy_net begun_proxy events s5 begun-HasTls (edited-IsSecure, tt) runs
