-- ===== src/Handler/Pooling.antt =====
-- What handler.rs's `handle` does to the shared pool.
use mathlib.Core.Path.{subst}
use prismproxy.Errors.{no_route}
use prismproxy.Prelude.{
  sym, Bool-cases, inl, inr, ℕ, String, ◌≡◌, refl, Bool, true, false, not, Option, none, some,
  ok_or, length, str_eq, if◌then◌else◌, IsVisible,
}
use prismproxy.Exec.{
  Flow, returns, fails, panics, elapsed, Exec, pure, continue, flow_or_panic, flow_of,
}
use prismproxy.Config.{is_some}
use prismproxy.Metrics.{Metrics}
use prismproxy.Plugin.{Wasm, run_on_request}
use prismproxy.Http.{Http, HttpLaws, Net, Request, Response, Bytes}
use prismproxy.Proxy.{Task, forward}
use prismproxy.Proxy.Outcome.{BySteps, BySteps-trans, no_steps}
use prismproxy.Proxy.Forward.{forward-BySteps}
use prismproxy.Tls.{Rustls}
use prismproxy.State.{AppState, RouteState}
use prismproxy.Handler.{
  after_plugins, on_route, route, answer_ok, answer_err, answer, handle, health_response,
  find_route, blocked_response,
}

module _ {http : Http} (net : Net http) where
  BySteps-continue :
      {A B : Type 0} (r : Flow A) (f : A → Exec (Task net) B) (t u : Task net)
      → BySteps net t u
      → ((a : A) → BySteps net u (f a u).1)
      → BySteps net t (continue r f u).1
  BySteps-continue (returns a) f t u h hf = BySteps-trans net h (hf a)
  BySteps-continue (fails e) f t u h hf = h
  BySteps-continue panics f t u h hf = h
  BySteps-continue elapsed f t u h hf = h

  BySteps-if :
      {A : Type 0} (b : Bool) (m n : Exec (Task net) A) (t : Task net)
      → BySteps net t (m t).1
      → BySteps net t (n t).1
      → BySteps net t ((if b then m else n) t).1
  BySteps-if true m n t hm hn = hm
  BySteps-if false m n t hm hn = hn

module _ {http : Http} (laws : HttpLaws http) (net : Net http) {wasm : Wasm} {rustls : Rustls}
    (app : AppState wasm rustls) (is_up : ℕ → Bool) (client_ip : String) (is_tls : Bool)
    (req : Request http net.Incoming) where
  answer_ok-task :
      (ms : ℕ) (t : Task net) (m : Metrics) (r : Response http Bytes) (blocked : Bool)
      (o : Option http.Value)
      → (answer_ok net app is_up client_ip is_tls req ms t m r blocked o).task ≡ t
  answer_ok-task ms t m r blocked none = refl
  answer_ok-task ms t m r blocked (some v) = refl

  answer_err-task :
      (ms : ℕ) (t : Task net) (m : Metrics) (o : Option (Response http Bytes))
      → (answer_err net app is_up client_ip is_tls req ms t m o).task ≡ t
  answer_err-task ms t m none = refl
  answer_err-task ms t m (some r) = refl

  answer-task :
      (ms : ℕ) (t : Task net) (m : Metrics) (r : Flow (Response http Bytes × Bool))
      → (answer net app is_up client_ip is_tls req ms t m r).task ≡ t
  answer-task ms t m (returns (response, blocked)) = answer_ok-task ms t m response blocked _
  answer-task ms t m (fails e) = answer_err-task ms t m _
  answer-task ms t m panics = refl
  answer-task ms t m elapsed = refl

  module _ (visible : IsVisible client_ip) where
    after_plugins-BySteps :
        (rs : RouteState wasm rustls) (blocked : Bool) (t : Task net)
        → BySteps net t (after_plugins net app is_up client_ip is_tls req rs blocked t).1
    after_plugins-BySteps rs true t =
        BySteps-continue net (flow_or_panic (blocked_response http)) _ t t (no_steps net refl)
          λ r. no_steps net refl
    after_plugins-BySteps rs false t =
        let forwarded = forward net req rs.route.upstream app.timeout_ms client_ip is_tls t in
        BySteps-continue net forwarded.0 _ t forwarded.1
          (forward-BySteps laws net req rs.route.upstream client_ip is_tls app.timeout_ms t visible)
          λ r. no_steps net refl

    on_route-BySteps :
        (rs : RouteState wasm rustls) (t : Task net)
        → BySteps net t (on_route net app is_up client_ip is_tls req rs t).1
    on_route-BySteps rs t = BySteps-if net (not (is_up rs.healthy)) _ _ t (no_steps net refl) (
        BySteps-continue net
          (flow_of (run_on_request wasm rs.runtime req.method (http.path_of req.uri)))
          (after_plugins net app is_up client_ip is_tls req rs) t t (no_steps net refl)
          λ blocked. after_plugins-BySteps rs blocked t)

    route-BySteps : (t : Task net) → BySteps net t (route net app is_up client_ip is_tls req t).1
    unfolding route
    route-BySteps t =
        BySteps-if net (str_eq (http.path_of req.uri) "/health") _ _ t
          (BySteps-continue net
            (flow_or_panic
              (health_response http (net.uptime t.world) (length app.routes) (is_some app.tls)))
            (λ (response : Response http Bytes). pure (response, false)) t t (no_steps net refl)
            λ r. no_steps net refl)
          (BySteps-continue net
            (flow_of (
              ok_or (find_route (http.path_of req.uri) app.routes)
                (no_route (http.path_of req.uri))))
            (on_route net app is_up client_ip is_tls req) t t (no_steps net refl)
            λ rs. on_route-BySteps rs t)

    -- All that `handle` has done to the shared pool when it ends are locked sections.
    pub handle-BySteps :
        (t : Task net) (m : Metrics)
        → BySteps net t (handle net app is_up client_ip is_tls req t m).task
    unfolding handle
    handle-BySteps t m =
        let r = route net app is_up client_ip is_tls req t in
        elim (Bool-cases (str_eq (http.path_of req.uri) "/metrics")) [
          | inl same ↦ rw same (no_steps net refl)
          | inr differ ↦
              rw differ (subst (BySteps net t) (sym (answer-task _ r.1 m r.0)) (route-BySteps t))
        ]
