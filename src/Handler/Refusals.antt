-- ===== src/Handler/Refusals.antt =====
-- The requests that handler.rs answers without an upstream.
use mathlib.Core.Path.{subst}
use mathlib.Core.Option.{some_inj}
use prismproxy.Prelude.{
  ℕ, String, ◌≡◌, ◌≢◌, refl, ap, ◌∙◌, Bool, true, false, Option, none, some, str_eq, eq_iff,
  Bool-cases, Option-cases, Result-cases, err_inj, inl, inr, ◌⊎◌, Result, ok, err,
}
use prismproxy.Errors.{ProxyError, no_route, upstream_unhealthy}
use prismproxy.Exec.{Flow, returns, fails}
use prismproxy.Metrics.{Metrics, record_request}
use prismproxy.Plugin.{Wasm, run_on_request}
use prismproxy.Plugin.Faults.{FailsInPlugin, of_plugin, run_on_request-FailsInPlugin}
use prismproxy.Http.{Http, HttpLaws, Net, Request, Response, Bytes}
use prismproxy.Proxy.{Task}
use prismproxy.Tls.{Rustls}
use prismproxy.State.{AppState, RouteState}
use prismproxy.Handler.{
  error_status, error_response, find_route, route, Handled, elapsed_ms, answer_ok, answer_err,
  answer, handle,
}
use prismproxy.Handler.Responses.{Responds, blocked_response-Responds, error_response-Responds}
use prismproxy.Handler.Answers.{time_text-IsVisible}

differ : (s t : String) → s ≢ t → str_eq s t ≡ false
differ s t h = elim (Bool-cases (str_eq s t)) [ inl e ↦ absurd (h ((eq_iff s t).0 e)) | inr e ↦ e ]

module _ {http : Http} (laws : HttpLaws http) (net : Net http) {wasm : Wasm} {rustls : Rustls}
    (app : AppState wasm rustls) (is_up : ℕ → Bool) (client_ip : String) (is_tls : Bool)
    (req : Request http net.Incoming) where
  -- A route that may be used: the first that matches, with a healthy upstream, whose plugins all
  -- pass the request.
  pub record Permitted : Type 0 where
    pub chosen : RouteState wasm rustls
    pub found : find_route (http.path_of req.uri) app.routes ≡ some chosen
    pub up : is_up chosen.healthy ≡ true
    pub passed : run_on_request wasm chosen.runtime req.method (http.path_of req.uri) ≡ ok false

  -- Why a request is refused, with the status of the answer and whether it counts as blocked.
  pub data Refusal : ℕ → Bool → Type 0 where
    unknown : find_route (http.path_of req.uri) app.routes ≡ none → Refusal 404 false
    unhealthy :
        (rs : RouteState wasm rustls)
        → find_route (http.path_of req.uri) app.routes ≡ some rs
        → is_up rs.healthy ≡ false
        → Refusal 503 false
    faulty :
        (rs : RouteState wasm rustls) (e : ProxyError)
        → find_route (http.path_of req.uri) app.routes ≡ some rs
        → is_up rs.healthy ≡ true
        → run_on_request wasm rs.runtime req.method (http.path_of req.uri) ≡ err e
        → Refusal 500 false
    blocked :
        (rs : RouteState wasm rustls)
        → find_route (http.path_of req.uri) app.routes ≡ some rs
        → is_up rs.healthy ≡ true
        → run_on_request wasm rs.runtime req.method (http.path_of req.uri) ≡ ok true
        → Refusal 403 true

  -- What becomes of a refused request: an answer with the status, one count, and nothing else.
  pub record Refused (status : ℕ) (was_blocked : Bool) (t : Task net) (m : Metrics)
      (h : Handled net app is_up client_ip is_tls req) : Type 0 where
    pub response : Response http Bytes
    pub returned : h.response ≡ returns response
    pub has_status : response.status ≡ status
    pub untouched : h.task ≡ t
    pub counted :
        h.metrics
        ≡ record_request status (elapsed_ms net app is_up client_ip is_tls req t t) was_blocked m

  -- A request is permitted or refused.
  permitted_or_refused :
      Permitted ⊎ ((status : ℕ) × (was_blocked : Bool) × Refusal status was_blocked)
  permitted_or_refused = elim (Option-cases (find_route (http.path_of req.uri) app.routes)) [
    | inl e ↦ inr (404, false, unknown e)
    | inr (rs, e) ↦ elim (Bool-cases (is_up rs.healthy)) [
      | inr down ↦ inr (503, false, unhealthy rs e down)
      | inl up ↦
          elim (Result-cases (run_on_request wasm rs.runtime req.method (http.path_of req.uri))) [
            | inr (x, fault) ↦ inr (500, false, faulty rs x e up fault)
            | inl (true, verdict) ↦ inr (403, true, blocked rs e up verdict)
            | inl (false, verdict) ↦
                inl (record { chosen = rs; found = e; up = up; passed = verdict })
          ]
    ]
  ]

  answer_err-Refused :
      (t : Task net) (m : Metrics) {status : ℕ} (o : Option (Response http Bytes))
      → Responds laws status o
      → Refused status false t m (
          answer_err net app is_up client_ip is_tls req
            (elapsed_ms net app is_up client_ip is_tls req t t)
            t
            m
            o)
  answer_err-Refused t m none h = absurd (cc h.made)
  answer_err-Refused t m (some r) h =
      let status_is =
        ap (λ (x : Response http Bytes). x.status) (some_inj.0 h.made) ∙ h.has_status in
      record {
        response = r;
        returned = refl;
        has_status = status_is;
        untouched = refl;
        counted =
            ap (λ s. record_request s (elapsed_ms net app is_up client_ip is_tls req t t) false m)
              status_is;
      }

  answer_ok-Refused :
      (t : Task net) (m : Metrics) (r : Response http Bytes) {status : ℕ} (o : Option http.Value)
      → o ≢ none
      → r.status ≡ status
      → Refused status true t m (
          answer_ok net app is_up client_ip is_tls req
            (elapsed_ms net app is_up client_ip is_tls req t t)
            t
            m
            r
            true
            o)
  answer_ok-Refused t m r none h e = absurd (h refl)
  answer_ok-Refused t m r (some v) h e = record {
    response = _;
    returned = refl;
    has_status = e;
    untouched = refl;
    counted =
        ap (λ s. record_request s (elapsed_ms net app is_up client_ip is_tls req t t) true m) e;
  }

  -- What `route` returns for a refused request.
  data Answered (status : ℕ) : Bool → Flow (Response http Bytes × Bool) → Type 0 where
    in_error : (e : ProxyError) → error_status e ≡ status → Answered status false (fails e)
    by_plugin :
        (r : Response http Bytes) → r.status ≡ status → Answered status true (returns (r, true))

  answer-Refused :
      (t : Task net) (m : Metrics) {status : ℕ} {was_blocked : Bool}
      {r : Flow (Response http Bytes × Bool)}
      → Answered status was_blocked r
      → Refused status was_blocked t m (
          answer net app is_up client_ip is_tls req
            (elapsed_ms net app is_up client_ip is_tls req t t)
            t
            m
            r)
  answer-Refused t m (in_error e status_is) = answer_err-Refused t m _ (
      subst (λ s. Responds laws s (error_response http e)) status_is
        (error_response-Responds laws e))
  answer-Refused t m (by_plugin r status_is) =
      answer_ok-Refused t m r _
        (time_text-IsVisible laws net app is_up client_ip is_tls req
          (elapsed_ms net app is_up client_ip is_tls req t t))
        status_is

  plugin_status :
      (r : Result Bool ProxyError) (e : ProxyError)
      → FailsInPlugin r
      → r ≡ err e
      → error_status e ≡ 500
  unfolding error_status
  plugin_status (ok b) e h same = absurd (cc same)
  plugin_status (err e') e (of_plugin message) same =
      subst (λ x. error_status x ≡ 500) (err_inj same) refl

  route-Answered :
      (t : Task net) {status : ℕ} {was_blocked : Bool}
      → http.path_of req.uri ≢ "/health"
      → Refusal status was_blocked
      → (r : Flow (Response http Bytes × Bool)) × (route net app is_up client_ip is_tls req t
          ≡ (r, t))
        × Answered status was_blocked r
  unfolding route error_status
  route-Answered t other (unknown none_found) =
      (fails (no_route (http.path_of req.uri)), rw (differ _ _ other, none_found), in_error _ refl)
  route-Answered t other (unhealthy rs found down) = (
    fails (upstream_unhealthy rs.route.upstream),
    rw (differ _ _ other, found, down),
    in_error _ refl,
  )
  route-Answered t other (faulty rs e found up fault) = (
    fails e,
    rw (differ _ _ other, found, up, fault),
    in_error e (
        plugin_status _ e
          (run_on_request-FailsInPlugin wasm req.method (http.path_of req.uri) rs.runtime) fault),
  )
  route-Answered t other (blocked rs found up verdict) =
      let answer = blocked_response-Responds laws in
      (
        returns (answer.response, true),
        rw (differ _ _ other, found, up, verdict, answer.made),
        by_plugin answer.response answer.has_status,
      )

  -- A request for neither "/metrics" nor "/health" that is refused (404 if no route matches, 503 if
  -- the first match is marked unhealthy, 500 if a plugin fails, 403 if a plugin blocks) is answered
  -- with that status, leaves the pool and the world alone, and is counted once with that status, as
  -- blocked exactly if a plugin blocked it.
  pub handle-Refused :
      (t : Task net) (m : Metrics) {status : ℕ} {was_blocked : Bool}
      → http.path_of req.uri ≢ "/metrics"
      → http.path_of req.uri ≢ "/health"
      → Refusal status was_blocked
      → Refused status was_blocked t m (handle net app is_up client_ip is_tls req t m)
  unfolding handle
  handle-Refused t m not_metrics not_health refusal =
      let (r, result, answered) = route-Answered t not_health refusal in
      rw (differ _ _ not_metrics, result) (answer-Refused t m answered)

  -- A request other than for "/metrics" and "/health" reaches the network or the pool only if the
  -- first route that matches is healthy and all its plugins pass the request.
  pub contact-Permitted :
      (t : Task net) (m : Metrics)
      → http.path_of req.uri ≢ "/metrics"
      → http.path_of req.uri ≢ "/health"
      → (handle net app is_up client_ip is_tls req t m).task ≢ t
      → Permitted
  contact-Permitted t m not_metrics not_health changed = elim permitted_or_refused [
    | inl permitted ↦ permitted
    | inr (status, was_blocked, refusal) ↦
        absurd (changed (handle-Refused t m not_metrics not_health refusal).untouched)
  ]
