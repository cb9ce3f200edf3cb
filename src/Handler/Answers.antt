-- ===== src/Handler/Answers.antt =====
-- What handler.rs's `handle` answers, and what it counts.
use prismproxy.Prelude.{
  ℕ, String, ◌≡◌, ◌≢◌, refl, Bool, true, false, not, Option, none, some, arith, str_eq, eq_iff,
  length, Bool-cases, inl, inr, IsVisible, IsVisible-append, show-IsVisible, show,
}
use prismproxy.Exec.{Flow, returns, fails, panics, elapsed, flow_or_panic}
use prismproxy.Exec.Settling.{Settles, Settles-continue, Settles-flow_of, Settles-if}
use prismproxy.Config.{is_some}
use prismproxy.Metrics.{Metrics, record_request}
use prismproxy.Plugin.{Wasm}
use prismproxy.Http.{Http, HttpLaws, Net, Request, Response, Bytes}
use prismproxy.Proxy.{Task}
use prismproxy.Proxy.Forward.{EndsForward, forward-EndsForward}
use prismproxy.Tls.{Rustls}
use prismproxy.State.{AppState, RouteState}
use prismproxy.Handler.{
  after_plugins, on_route, route, Handled, time_text, answer_ok, answer_err, answer, handle,
}
use prismproxy.Handler.Responses.{
  Responds, blocked_response-Responds, error_response-Responds, health_response-Responds,
}

module _ {http : Http} (laws : HttpLaws http) (net : Net http) {wasm : Wasm} {rustls : Rustls}
    (app : AppState wasm rustls) (is_up : ℕ → Bool) (client_ip : String) (is_tls : Bool)
    (req : Request http net.Incoming) where
  -- `handle` answered, having counted the response once with its own status.
  pub record Counted (m : Metrics) (h : Handled net app is_up client_ip is_tls req) : Type 0 where
    pub response : Response http Bytes
    pub ms : ℕ
    pub blocked : Bool
    pub returned : h.response ≡ returns response
    pub counted : h.metrics ≡ record_request response.status ms blocked m

  pub time_text-IsVisible :
      (ms : ℕ) → http.parse_value (time_text net app is_up client_ip is_tls req ms) ≢ none
  time_text-IsVisible ms =
      laws.parse_visible _ (IsVisible-append (show ms) _ (show-IsVisible ms) (omega arith))

  answer_ok-Counted :
      (ms : ℕ) (t : Task net) (m : Metrics) (r : Response http Bytes) (blocked : Bool)
      (o : Option http.Value)
      → o ≢ none
      → Counted m (answer_ok net app is_up client_ip is_tls req ms t m r blocked o)
  answer_ok-Counted ms t m r blocked none h = absurd (h refl)
  answer_ok-Counted ms t m r blocked (some v) h = record {
    response = _;
    ms = ms;
    blocked = blocked;
    returned = refl;
    counted = refl;
  }

  answer_err-Counted :
      (ms : ℕ) (t : Task net) (m : Metrics) {status : ℕ} (o : Option (Response http Bytes))
      → Responds laws status o
      → Counted m (answer_err net app is_up client_ip is_tls req ms t m o)
  answer_err-Counted ms t m none h = absurd (cc h.made)
  answer_err-Counted ms t m (some r) h = record {
    response = r;
    ms = ms;
    blocked = false;
    returned = refl;
    counted = refl;
  }

  answer-Counted :
      (ms : ℕ) (t : Task net) (m : Metrics) (r : Flow (Response http Bytes × Bool))
      → Settles r
      → Counted m (answer net app is_up client_ip is_tls req ms t m r)
  answer-Counted ms t m (returns (response, blocked)) h =
      answer_ok-Counted ms t m response blocked _ (time_text-IsVisible ms)
  answer-Counted ms t m (fails e) h = answer_err-Counted ms t m _ (error_response-Responds laws e)
  answer-Counted ms t m panics h = absurd h
  answer-Counted ms t m elapsed h = absurd h

  Settles-unwrap :
      {status : ℕ} (o : Option (Response http Bytes))
      → Responds laws status o
      → Settles (flow_or_panic o)
  Settles-unwrap none h = absurd (cc h.made)
  Settles-unwrap (some r) h = tt

  Settles-forward :
      (addr : String) (ms : ℕ) (r : Flow (Response http Bytes))
      → EndsForward laws net req addr client_ip is_tls ms r
      → Settles r
  Settles-forward addr ms (returns r) h = tt
  Settles-forward addr ms (fails e) h = tt
  Settles-forward addr ms panics h = h
  Settles-forward addr ms elapsed h = h

  module _ (visible : IsVisible client_ip) where
    after_plugins-Settles :
        (rs : RouteState wasm rustls) (blocked : Bool) (t : Task net)
        → Settles (after_plugins net app is_up client_ip is_tls req rs blocked t).0
    after_plugins-Settles rs true t =
        Settles-continue _ _ t (Settles-unwrap _ (blocked_response-Responds laws)) λ r u. tt
    after_plugins-Settles rs false t =
        Settles-continue _ _ _
          (Settles-forward rs.route.upstream app.timeout_ms _ (
            forward-EndsForward laws net req rs.route.upstream client_ip is_tls app.timeout_ms t
              visible))
          λ r u. tt

    on_route-Settles :
        (rs : RouteState wasm rustls) (t : Task net)
        → Settles (on_route net app is_up client_ip is_tls req rs t).0
    on_route-Settles rs t =
        Settles-if (not (is_up rs.healthy)) _ _ t tt
          (Settles-continue _ _ t (Settles-flow_of _) (after_plugins-Settles rs))

    pub route-Settles : (t : Task net) → Settles (route net app is_up client_ip is_tls req t).0
    unfolding route
    route-Settles t =
        Settles-if (str_eq (http.path_of req.uri) "/health") _ _ t
          (Settles-continue _ _ t
            (Settles-unwrap _ (
              health_response-Responds laws (net.uptime t.world) (length app.routes)
                (is_some app.tls)))
            λ r u. tt)
          (Settles-continue _ _ t (Settles-flow_of _) on_route-Settles)

    -- With a client address of visible characters, `handle` answers every request but those for
    -- "/metrics" with a response, never panicking, at every outcome of the plugins and the network,
    -- and records exactly one call of the counters, with the status of that response.
    pub handle-Counted :
        (t : Task net) (m : Metrics)
        → http.path_of req.uri ≢ "/metrics"
        → Counted m (handle net app is_up client_ip is_tls req t m)
    unfolding handle
    handle-Counted t m other = elim (Bool-cases (str_eq (http.path_of req.uri) "/metrics")) [
      | inl same ↦ absurd (other ((eq_iff _ _).0 same))
      | inr differ ↦ rw differ (answer-Counted _ _ m _ (route-Settles t))
    ]
