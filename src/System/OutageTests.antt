-- ===== src/System/OutageTests.antt =====
-- A run of the proxy over the toy modules and networks in which an upstream goes down.
use prismproxy.Prelude.{
  ℕ, String, ◌≡◌, ◌≢◌, refl, arith, true, false, some, List, [], ◌∷◌, lookup, str_eq, eq_iff,
}
use prismproxy.Config.{from_file, validate}
use prismproxy.Plugin.{load}
use prismproxy.Plugin.Toy.{toy as toy_wasm}
use prismproxy.Tls.{build_tls_state}
use prismproxy.State.{RouteState, build_state, join}
use prismproxy.State.Toy.{rustls, state_of}
use prismproxy.Disk.{exists, read_to_string}
use prismproxy.HealthCheck.{connect_failed, response, observe, ping}
use prismproxy.Http.{Request, Bytes}
use prismproxy.Http.Toy.{toy_http, toy-HttpLaws}
use prismproxy.Http.ToyNet.{toy_net}
use prismproxy.Handler.{find_route}
use prismproxy.Handler.Refusals.{Refused}
use prismproxy.Acme.Toy.{old_files}
use prismproxy.Startup.{run_with_listener_hot}
use prismproxy.Startup.Toy.{env, machine_of}
use prismproxy.System.Base.{Watch}
use prismproxy.System.Toy.{begun_proxy, starts, client}
use prismproxy.System.{System, Event, Run, boot, watch, here, next, pings, pinged, outcome_of}
use prismproxy.System.Outage.{beginning, Run-outage}

-- The first loop after failures.
abbrev watch_after : ℕ → Watch
watch_after failures = record {
  loop = record {
    upstream = "127.0.0.1:3000";
    healthy = 0;
    interval_secs = 10;
    fail_threshold = 3;
    recover_threshold = 2;
  };
  consecutive_failures = failures;
  consecutive_successes = 0;
}

abbrev s0 : System env toy_net
s0 = boot env toy_net begun_proxy

abbrev s1 : System env toy_net
s1 = pinged env toy_net 0 (watch_after 0) connect_failed s0

abbrev s2 : System env toy_net
s2 = pinged env toy_net 0 (watch_after 1) (response 500) s1

abbrev s3 : System env toy_net
s3 = pinged env toy_net 0 (watch_after 2) connect_failed s2

abbrev failures : List (Event env toy_net)
failures = pings 0 connect_failed ∷ pings 0 (response 500) ∷ pings 0 connect_failed ∷ []

runs : Run env toy_net s0 failures s3
unfolding run_with_listener_hot from_file read_to_string lookup validate build_state load exists
    join build_tls_state observe ping
runs =
    next (pings 0 connect_failed)
      (next (pings 0 (response 500))
        (next (pings 0 connect_failed) here (watch 0 (watch_after 0) connect_failed refl))
        (watch 0 (watch_after 1) (response 500) refl))
      (watch 0 (watch_after 2) connect_failed refl)

abbrev get_user : Request toy_http Bytes
get_user = record { method = "GET"; uri = "/api/x"; headers = []; body = [] }

abbrev api : RouteState toy_wasm rustls
api = state_of "/api" ("a.wasm" ∷ "b.wasm" ∷ []) 0

distinct : (s t : String) → str_eq s t ≡ false → s ≢ t
distinct s t e h = let h' = (eq_iff s t).1 h in cc

Run-outage_example :
    Refused toy-HttpLaws toy_net s3.app s3.flags.value "10.1.1.1" true get_user 503 false
      (record { world = []; pool = s3.pool })
      s3.metrics
      (outcome_of env toy_net (beginning env toy_net s3 client get_user) [] s3)
unfolding run_with_listener_hot from_file read_to_string lookup validate build_state load exists
    join build_tls_state ping find_route
Run-outage_example =
    Run-outage env toy_net toy-HttpLaws 3 "proxy.toml" (some 7) (machine_of old_files) begun_proxy
      failures s3 0 api [] connect_failed (response 500) connect_failed client get_user s3 [] starts
      runs refl refl refl refl refl (omega arith) refl (distinct _ _ refl) (distinct _ _ refl)
