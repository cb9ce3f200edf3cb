-- ===== src/Handler.antt =====
-- handler.rs: routing, the responses of the proxy's own, and `handle`. `app` is the state that
-- `load_full` returned and `is_up` reads the health flags; a request changes only its task's state
-- and the counters.
pub mod Routing
pub mod Shadowing
pub mod Responses
pub mod Answers
pub mod Verdicts
pub mod Refusals
pub mod Pooling
mod Tests
use prismproxy.Prelude.{
  ℕ, ◌+◌, ◌-◌, ◌%◌, ◌^◌, String, Bool, true, false, not, Option, none, some, List, [], ◌∷◌, format,
  show, length, as_bytes, str_eq, starts_with, if◌then◌else◌, Result, ok, err, ok_or,
}
use prismproxy.Errors.{
  ProxyError, no_route, upstream_connect, timeout, upstream_unhealthy, to_string,
}
use prismproxy.Exec.{
  Flow, returns, fails, panics, elapsed, Exec, pure, raise, lift, unwrap, flow_or_panic, ◌>>=◌,
  ◌>>◌,
}
use prismproxy.Config.{is_some}
use prismproxy.Metrics.{Metrics, record_request, render}
use prismproxy.Plugin.{Wasm, run_on_request}
use prismproxy.Http.{Http, Net, Request, Response, Bytes}
use prismproxy.Proxy.{Task, forward}
use prismproxy.Tls.{Rustls}
use prismproxy.State.{AppState, RouteState}

-- `CARGO_PKG_VERSION` of Cargo.toml.
abbrev pub version : String
version = "0.1.0"

-- The statuses of `error_response`.
unfoldable pub error_status : ProxyError → ℕ
error_status (no_route _) = 404
error_status (upstream_connect _) = 502
error_status (timeout _) = 504
error_status (upstream_unhealthy _) = 503
error_status _ = 500

-- Its bodies: what went wrong inside the proxy is not told.
unfoldable pub error_body : ProxyError → String
error_body (no_route e) = to_string (no_route e)
error_body (upstream_connect e) = to_string (upstream_connect e)
error_body (timeout e) = to_string (timeout e)
error_body (upstream_unhealthy e) = to_string (upstream_unhealthy e)
error_body _ = "internal error"

module _ (http : Http) where
  abbrev pub with_type : ℕ → String → Option http.Value → Option (Response http Bytes)
  with_type status body none = none
  with_type status body (some v) = some (record {
    status = status;
    headers = http.append "content-type" v http.empty;
    body = as_bytes body;
  })

  -- `Response::builder()` with a content type; `none` is a panic of `unwrap`.
  abbrev pub text_response : ℕ → String → String → Option (Response http Bytes)
  text_response status content_type body = with_type status body (http.parse_value content_type)

  abbrev show_bool : Bool → String
  show_bool true = "true"
  show_bool false = "false"

  unfoldable pub health_response : String → ℕ → Bool → Option (Response http Bytes)
  health_response uptime routes tls = text_response 200 "application/json" (
      format (
        "{\"status\":\"ok\",\"version\":\""
        ∷ version
        ∷ "\",\"uptime_secs\":"
        ∷ uptime
        ∷ ",\"routes\":"
        ∷ show routes
        ∷ ",\"tls\":"
        ∷ show_bool tls
        ∷ "}"
        ∷ []))

  unfoldable pub blocked_response : Option (Response http Bytes)
  blocked_response = text_response 403 "text/plain" "403 Forbidden\n"

  unfoldable pub error_response : ProxyError → Option (Response http Bytes)
  unfolding error_status error_body
  error_response e = text_response (error_status e) "text/plain" (error_body e)

module _ {wasm : Wasm} {rustls : Rustls} where
  -- `routes.iter().find(|rs| path.starts_with(&rs.route.path_prefix))`
  unfoldable pub find_route :
      String → List (RouteState wasm rustls) → Option (RouteState wasm rustls)
  find_route path [] = none
  find_route path (rs ∷ rest) =
      if starts_with path rs.route.path_prefix then some rs else find_route path rest

module _ {http : Http} (net : Net http) {wasm : Wasm} {rustls : Rustls} (app : AppState wasm rustls)
    (is_up : ℕ → Bool) (client_ip : String) (is_tls : Bool) (req : Request http net.Incoming) where
  abbrev pub path : String
  path = http.path_of req.uri

  -- A request that the plugins have judged.
  abbrev pub after_plugins :
      RouteState wasm rustls → Bool → Exec (Task net) (Response http Bytes × Bool)
  after_plugins rs true = do response ← unwrap (blocked_response http); pure (response, true)
  after_plugins rs false = do
    response ← forward net req rs.route.upstream app.timeout_ms client_ip is_tls
    pure (response, false)

  -- A request for a route.
  abbrev pub on_route : RouteState wasm rustls → Exec (Task net) (Response http Bytes × Bool)
  on_route rs = if not (is_up rs.healthy) then raise (upstream_unhealthy rs.route.upstream) else (do
    blocked ← lift (run_on_request wasm rs.runtime req.method path)
    after_plugins rs blocked)

  -- `route`: the response, and whether a plugin blocked the request.
  unfoldable pub route : Exec (Task net) (Response http Bytes × Bool)
  route =
      if str_eq path "/health"
      then (λ t.
          (do
            response ←
                unwrap
                  (health_response http (net.uptime t.world) (length app.routes) (is_some app.tls))
            pure (response, false))
            t)
      else (do rs ← lift (ok_or (find_route path app.routes) (no_route path)); on_route rs)

  -- What `handle` returns and leaves behind.
  pub record Handled : Type 0 where
    pub response : Flow (Response http Bytes)
    pub task : Task net
    pub metrics : Metrics

  -- `req_start.elapsed().as_millis() as u64`
  abbrev pub elapsed_ms : Task net → Task net → ℕ
  elapsed_ms before after = net.elapsed_between before.world after.world % 2 ^ 64

  abbrev pub time_text : ℕ → String
  time_text ms = format (show ms ∷ "ms" ∷ [])

  -- The arm `Ok`: the time header, then the counters.
  abbrev pub answer_ok :
      ℕ → Task net → Metrics → Response http Bytes → Bool → Option http.Value → Handled
  answer_ok ms t m response blocked none = record { response = panics; task = t; metrics = m }
  answer_ok ms t m response blocked (some v) = record {
    response =
        returns (record response { headers = http.insert "x-response-time" v response.headers });
    task = t;
    metrics = record_request response.status ms blocked m;
  }

  -- The arm `Err`.
  abbrev pub answer_err : ℕ → Task net → Metrics → Option (Response http Bytes) → Handled
  answer_err ms t m none = record { response = panics; task = t; metrics = m }
  answer_err ms t m (some response) = record {
    response = returns response;
    task = t;
    metrics = record_request response.status ms false m;
  }

  abbrev pub answer : ℕ → Task net → Metrics → Flow (Response http Bytes × Bool) → Handled
  answer ms t m (returns (response, blocked)) =
      answer_ok ms t m response blocked (http.parse_value (time_text ms))
  answer ms t m (fails e) = answer_err ms t m (error_response http e)
  answer ms t m panics = record { response = panics; task = t; metrics = m }
  answer ms t m elapsed = record { response = elapsed; task = t; metrics = m }

  -- `handle`
  unfoldable pub handle : Task net → Metrics → Handled
  unfolding route
  handle t m =
      if str_eq path "/metrics"
      then record {
        response = flow_or_panic (text_response http 200 "text/plain; version=0.0.4" (render m));
        task = t;
        metrics = m;
      }
      else (let r = route t in answer (elapsed_ms t r.1) r.1 m r.0)
