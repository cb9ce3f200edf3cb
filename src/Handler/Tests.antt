-- ===== src/Handler/Tests.antt =====
-- Runs of handler.rs with two routes over the toy modules and the toy network, and its properties
-- there.
use prismproxy.Prelude.{
  ℕ, String, ◌≡◌, ◌≢◌, refl, ap, ◌↔◌, Bool, true, false, none, some, List, [], ◌∷◌, ◌==◌, str_eq,
  eq_iff, arith, lookup, insert, show, as_bytes, ok,
}
use prismproxy.Metrics.{new}
use prismproxy.Pool.{take_idle, run}
use prismproxy.Plugin.{run_plugin, run_on_request}
use prismproxy.Plugin.Toy.{toy, plugin_of, ToyModule, pass_all, block_all}
use prismproxy.Http.{Request, Bytes}
use prismproxy.Http.Toy.{toy_http, toy-HttpLaws}
use prismproxy.Http.ToyNet.{toy_net}
use prismproxy.Proxy.{Task, forward}
use prismproxy.State.{RouteState, AppState}
use prismproxy.State.Toy.{rustls}
use prismproxy.Handler.{find_route, Handled, handle}
use prismproxy.Handler.Routing.{Chosen, find_route-Chosen_iff}
use prismproxy.Handler.Shadowing.{find_route-unreachable}
use prismproxy.Handler.Answers.{Counted, handle-Counted}
use prismproxy.Handler.Refusals.{Permitted, blocked, Refused, handle-Refused, contact-Permitted}

abbrev route_state : String → ToyModule → ℕ → RouteState toy rustls
route_state path_prefix code healthy = record {
  route = record { path_prefix = path_prefix; upstream = "127.0.0.1:3000"; plugins = "p" ∷ [] };
  runtime = record { plugins = plugin_of "p" code ∷ [] };
  healthy = healthy;
}

abbrev api : RouteState toy rustls
api = route_state "/api" pass_all 0

abbrev admin : RouteState toy rustls
admin = route_state "/admin" block_all 0

abbrev app : AppState toy rustls
app = record { timeout_ms = 30000; routes = admin ∷ api ∷ []; tls = none }

-- The flag of handle 0 is up.
abbrev is_up : ℕ → Bool
is_up i = i == 0

abbrev request_for : String → Request toy_http Bytes
request_for path = record {
  method = "GET";
  uri = path;
  headers = ("host", "example.com") ∷ [];
  body = [];
}

abbrev task : Task toy_net
task = record { world = []; pool = record { idle = []; max_idle_per_host = 2 } }

abbrev handled : (path : String) → Handled toy_net app is_up "10.1.1.1" false (request_for path)
handled path = handle toy_net app is_up "10.1.1.1" false (request_for path) task new

find_route-Chosen_iff_example :
    (find_route "/api/users" app.routes ≡ some api) ↔ Chosen "/api/users" app.routes (some api)
find_route-Chosen_iff_example = find_route-Chosen_iff "/api/users" app.routes (some api)

distinct : (s t : String) → str_eq s t ≡ false → s ≢ t
distinct s t e h = let h' = (eq_iff s t).1 h in cc

not_metrics : (toy_http.path_of (request_for "/api/users").uri) ≢ "/metrics"
not_metrics = distinct _ _ refl

not_health : (toy_http.path_of (request_for "/api/users").uri) ≢ "/health"
not_health = distinct _ _ refl

admin_not_metrics : (toy_http.path_of (request_for "/admin").uri) ≢ "/metrics"
admin_not_metrics = distinct _ _ refl

admin_not_health : (toy_http.path_of (request_for "/admin").uri) ≢ "/health"
admin_not_health = distinct _ _ refl

handle-Counted_example :
    Counted toy-HttpLaws toy_net app is_up "10.1.1.1" false
      (request_for "/api/users")
      new
      (handled "/api/users")
handle-Counted_example =
    handle-Counted toy-HttpLaws toy_net app is_up "10.1.1.1" false (request_for "/api/users")
      (omega arith) task new not_metrics

admin_found : find_route "/admin" app.routes ≡ some admin
unfolding find_route
admin_found = refl

admin_verdict : run_on_request toy admin.runtime "GET" "/admin" ≡ ok true
unfolding run_on_request run_plugin as_bytes
admin_verdict = refl

handle-Refused_example :
    Refused toy-HttpLaws toy_net app is_up "10.1.1.1" false
      (request_for "/admin")
      403
      true
      task
      new
      (handled "/admin")
handle-Refused_example =
    handle-Refused toy-HttpLaws toy_net app is_up "10.1.1.1" false (request_for "/admin") task new
      admin_not_metrics admin_not_health (blocked admin admin_found refl admin_verdict)

length_zero : {A : Type 0} {x : A} {xs : List A} → x ∷ xs ≢ []
length_zero e = cc

api_contacts : (handled "/api/users").task ≢ task
unfolding handle forward lookup insert take_idle run run_on_request run_plugin as_bytes show
    find_route
api_contacts e = length_zero (ap (λ (t : Task toy_net). t.world) e)

contact-Permitted_example :
    Permitted toy-HttpLaws toy_net app is_up "10.1.1.1" false (request_for "/api/users")
contact-Permitted_example =
    contact-Permitted toy-HttpLaws toy_net app is_up "10.1.1.1" false (request_for "/api/users")
      task new not_metrics not_health api_contacts

abbrev catch_all : RouteState toy rustls
catch_all = route_state "/" pass_all 0

find_route-unreachable_example :
    find_route "/api/users" (admin ∷ catch_all ∷ api ∷ [])
    ≡ find_route "/api/users" (admin ∷ catch_all ∷ [])
find_route-unreachable_example =
    find_route-unreachable "/api/users" (admin ∷ []) [] [] catch_all api refl
