-- ===== src/Handler/Verdicts.antt =====
-- What handler.rs's `handle` records of a request: its status, its time and whether it was blocked.
use prismproxy.Prelude.{
  ℕ, String, ◌≡◌, ◌≢◌, refl, sym, ap, Bool, true, false, not, ◌&&◌, Option, none, some, str_eq,
  Bool-cases, inl, inr, Result, ok, err, ok_or, ◌%◌, ◌^◌, IsVisible,
}
use prismproxy.Errors.{ProxyError, no_route}
use prismproxy.Exec.{Flow, returns, fails, panics, elapsed, flow_of, flow_or_panic, continue, pure}
use prismproxy.Exec.Settling.{Settles}
use prismproxy.Metrics.{Metrics, record_request}
use prismproxy.Plugin.{Wasm, run_on_request}
use prismproxy.Http.{Http, HttpLaws, Net, Request, Response, Bytes}
use prismproxy.Proxy.{Task, forward}
use prismproxy.Tls.{Rustls}
use prismproxy.State.{AppState, RouteState}
use prismproxy.Handler.{
  find_route, after_plugins, on_route, route, Handled, elapsed_ms, answer_ok, answer_err, answer,
  handle, blocked_response,
}
use prismproxy.Handler.Responses.{Responds, error_response-Responds}
use prismproxy.Handler.Answers.{time_text-IsVisible, route-Settles}

-- The verdict of the plugins, if they came to one.
abbrev verdict : Result Bool ProxyError → Bool
verdict (ok blocked) = blocked
verdict (err e) = false

module _ {http : Http} (net : Net http) {wasm : Wasm} {rustls : Rustls} (app : AppState wasm rustls)
    (is_up : ℕ → Bool) (client_ip : String) (is_tls : Bool) (req : Request http net.Incoming) where
  abbrev verdict_on : Option (RouteState wasm rustls) → Bool
  verdict_on none = false
  verdict_on (some rs) =
      is_up rs.healthy && verdict (run_on_request wasm rs.runtime req.method (http.path_of req.uri))

  -- The request is not for "/health", and the plugins of its route, whose upstream is healthy, block
  -- it.
  abbrev pub is_blocked : Bool
  is_blocked =
      not (str_eq (http.path_of req.uri) "/health")
      && verdict_on (find_route (http.path_of req.uri) app.routes)

  -- One call of `record`, with the status of the response that was returned, the time from the start
  -- to the end, and whether the request was blocked.
  pub record Recorded (was_blocked : Bool) (t : Task net) (m : Metrics)
      (h : Handled net app is_up client_ip is_tls req) : Type 0 where
    pub response : Response http Bytes
    pub returned : h.response ≡ returns response
    pub counted :
        h.metrics
        ≡ record_request response.status
            (net.elapsed_between t.world h.task.world % 2 ^ 64)
            was_blocked
            m

module _ {http : Http} (laws : HttpLaws http) (net : Net http) {wasm : Wasm} {rustls : Rustls}
    (app : AppState wasm rustls) (is_up : ℕ → Bool) (client_ip : String) (is_tls : Bool)
    (req : Request http net.Incoming) where
  -- What `route` says of the plugins' verdict.
  Judges : Bool → Flow (Response http Bytes × Bool) → Type 0
  Judges b (returns (response, blocked)) = blocked ≡ b
  Judges b (fails e) = b ≡ false
  Judges b panics = Unit
  Judges b elapsed = Unit

  answer_ok-Recorded :
      (b : Bool) (t u : Task net) (m : Metrics) (r : Response http Bytes) (blocked : Bool)
      (o : Option http.Value)
      → o ≢ none
      → blocked ≡ b
      → Recorded net app is_up client_ip is_tls req b t m (
          answer_ok net app is_up client_ip is_tls req
            (elapsed_ms net app is_up client_ip is_tls req t u)
            u
            m
            r
            blocked
            o)
  answer_ok-Recorded b t u m r blocked none h same = absurd (h refl)
  answer_ok-Recorded b t u m r blocked (some v) h same = record {
    response = _;
    returned = refl;
    counted =
        ap (λ x. record_request r.status (elapsed_ms net app is_up client_ip is_tls req t u) x m)
          same;
  }

  answer_err-Recorded :
      (b : Bool) (t u : Task net) (m : Metrics) {status : ℕ} (o : Option (Response http Bytes))
      → Responds laws status o
      → b ≡ false
      → Recorded net app is_up client_ip is_tls req b t m (
          answer_err net app is_up client_ip is_tls req
            (elapsed_ms net app is_up client_ip is_tls req t u)
            u
            m
            o)
  answer_err-Recorded b t u m none h passed = absurd (cc h.made)
  answer_err-Recorded b t u m (some r) h passed = record {
    response = r;
    returned = refl;
    counted =
        ap (λ x. record_request r.status (elapsed_ms net app is_up client_ip is_tls req t u) x m)
          (sym passed);
  }

  answer-Recorded :
      (b : Bool) (t u : Task net) (m : Metrics) (r : Flow (Response http Bytes × Bool))
      → Settles r
      → Judges b r
      → Recorded net app is_up client_ip is_tls req b t m (
          answer net app is_up client_ip is_tls req
            (elapsed_ms net app is_up client_ip is_tls req t u)
            u
            m
            r)
  unfolding Judges
  answer-Recorded b t u m (returns (response, blocked)) h same =
      answer_ok-Recorded b t u m response blocked _
        (time_text-IsVisible laws net app is_up client_ip is_tls req
          (elapsed_ms net app is_up client_ip is_tls req t u))
        same
  answer-Recorded b t u m (fails e) h passed =
      answer_err-Recorded b t u m _ (error_response-Responds laws e) passed
  answer-Recorded b t u m panics h j = absurd h
  answer-Recorded b t u m elapsed h j = absurd h

  Judges-unwrap :
      (b : Bool) (o : Option (Response http Bytes)) (t : Task net)
      → Judges b (continue (flow_or_panic o) (λ r. pure (r, b)) t).0
  unfolding Judges
  Judges-unwrap b none t = tt
  Judges-unwrap b (some r) t = refl

  Judges-passed :
      (r : Flow (Response http Bytes)) (t : Task net)
      → Judges false (continue r (λ x. pure (x, false)) t).0
  unfolding Judges
  Judges-passed (returns r) t = refl
  Judges-passed (fails e) t = refl
  Judges-passed panics t = tt
  Judges-passed elapsed t = tt

  Judges-plugins :
      (rs : RouteState wasm rustls) (v : Result Bool ProxyError) (t : Task net)
      → Judges
          (verdict v)
          (continue (flow_of v) (after_plugins net app is_up client_ip is_tls req rs) t).0
  unfolding Judges
  Judges-plugins rs (ok true) t = Judges-unwrap true (blocked_response http) t
  Judges-plugins rs (ok false) t =
      Judges-passed _ (forward net req rs.route.upstream app.timeout_ms client_ip is_tls t).1
  Judges-plugins rs (err e) t = refl

  Judges-route :
      (o : Option (RouteState wasm rustls)) (e : ProxyError) (t : Task net)
      → Judges
          (verdict_on net app is_up client_ip is_tls req o)
          (continue (flow_of (ok_or o e)) (on_route net app is_up client_ip is_tls req) t).0
  unfolding Judges
  Judges-route none e t = refl
  Judges-route (some rs) e t = elim (Bool-cases (is_up rs.healthy)) [
    | inl up ↦ rw up (Judges-plugins rs _ t)
    | inr down ↦ rw down refl
  ]

  route-Judges :
      (t : Task net)
      → Judges
          (is_blocked net app is_up client_ip is_tls req)
          (route net app is_up client_ip is_tls req t).0
  unfolding route
  route-Judges t = elim (Bool-cases (str_eq (http.path_of req.uri) "/health")) [
    | inl same ↦ rw same (Judges-unwrap false _ t)
    | inr other ↦ rw other (
        Judges-route (find_route (http.path_of req.uri) app.routes)
          (no_route (http.path_of req.uri)) t)
  ]

  -- A request but for "/metrics" is recorded with what became of it.
  pub handle-Recorded :
      (t : Task net) (m : Metrics)
      → IsVisible client_ip
      → str_eq (http.path_of req.uri) "/metrics" ≡ false
      → Recorded net app is_up client_ip is_tls req
          (is_blocked net app is_up client_ip is_tls req)
          t
          m
          (handle net app is_up client_ip is_tls req t m)
  unfolding handle
  handle-Recorded t m visible differ =
      let r = route net app is_up client_ip is_tls req t in
      rw differ (
        answer-Recorded (is_blocked net app is_up client_ip is_tls req) t r.1 m r.0
          (route-Settles laws net app is_up client_ip is_tls req visible t) (route-Judges t))
