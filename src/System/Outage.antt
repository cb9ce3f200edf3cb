-- ===== src/System/Outage.antt =====
-- What the clients of the running proxy see of an upstream that is down.
use mathlib.Core.List.{reverse, reverse_aux}
use prismproxy.Prelude.{
  ℕ, ◌<◌, ◌^◌, ◌≡◌, ◌≢◌, refl, ap, ◌∙◌, Bool, false, Option, some, List, [], ◌∷◌, ◌++◌, map,
  get_elem?, length, arith, String,
}
use prismproxy.HealthCheck.{PingOutcome, ping}
use prismproxy.HealthCheck.Hysteresis.{is_healthy}
use prismproxy.Http.{Http, HttpLaws, Net, Request}
use prismproxy.State.{RouteState}
use prismproxy.Handler.{find_route}
use prismproxy.Handler.Refusals.{Refused, unhealthy, handle-Refused}
use prismproxy.Exec.{returns}
use prismproxy.Acme.Base.{Machine}
use prismproxy.Startup.Base.{Outside}
use prismproxy.Startup.{Started, run_with_listener_hot}
use prismproxy.System.Base.{Connection}
use prismproxy.System.Start.{no_flags}
use prismproxy.System.{Inflight, System, Event, Run, boot, outcome_of}
use prismproxy.System.Running.{pings_at, Run-is_healthy}

reverse_aux-append :
    (xs ys : List PingOutcome) (acc : List Bool)
    → reverse_aux (map ping (xs ++ ys)) acc
      ≡ reverse_aux (map ping ys) (reverse_aux (map ping xs) acc)
reverse_aux-append [] ys acc = refl
reverse_aux-append (x ∷ xs) ys acc = reverse_aux-append xs ys (ping x ∷ acc)

-- Three failures in a row reach the threshold.
is_healthy-outage :
    (older : List PingOutcome) (a b c : PingOutcome)
    → ping a ≡ false
    → ping b ≡ false
    → ping c ≡ false
    → is_healthy 3 2 (reverse (map ping (older ++ a ∷ b ∷ c ∷ []))) ≡ false
is_healthy-outage older a b c ha hb hc =
    ap (is_healthy 3 2) (reverse_aux-append older (a ∷ b ∷ c ∷ []) [])
    ∙ rw (ha, hb, hc) (ground arith)

module _ (env : Outside) {http : Http} (net : Net http) where
  -- The request as it begins in a state, on a connection.
  abbrev pub beginning : System env net → Connection → Request http net.Incoming → Inflight env net
  beginning t c req = record { app = t.app; is_up = t.flags.value; connection = c; request = req }

module _ (env : Outside) {http : Http} (net : Net http) (laws : HttpLaws http) where
  -- If the last three of fewer than 2 ^ 32 pings of a route's loop failed, then a request for neither
  -- "/metrics" nor "/health" that begins then, and whose route in the published state is that one of
  -- the state that the start published, is answered 503, counted once, and has not touched the pool or
  -- the network, whatever happens before it is answered.
  pub Run-outage :
      (rounds : ℕ) (path : String) (modified : Option ℕ) (m : Machine env.ca) (s : Started env)
      (es : List (Event env net)) (t : System env net) (i : ℕ) (rs : RouteState env.wasm env.rustls)
      (older : List PingOutcome) (a b c : PingOutcome) (k : Connection)
      (req : Request http net.Incoming) (u : System env net) (world : net.World)
      → (run_with_listener_hot env rounds path modified no_flags m).0 ≡ returns s
      → Run env net (boot env net s) es t
      → get_elem? s.app.routes i ≡ some rs
      → pings_at env net es i ≡ older ++ a ∷ b ∷ c ∷ []
      → ping a ≡ false
      → ping b ≡ false
      → ping c ≡ false
      → length (pings_at env net es i) < 2 ^ 32
      → find_route (http.path_of req.uri) t.app.routes ≡ some rs
      → http.path_of req.uri ≢ "/metrics"
      → http.path_of req.uri ≢ "/health"
      → Refused laws net t.app t.flags.value k.client_ip k.is_tls req 503 false
          (record { world = world; pool = u.pool })
          u.metrics
          (outcome_of env net (beginning env net t k req) world u)
  Run-outage rounds path modified m s es t i rs older a b c k req u world h run at pinged ha hb hc
        few found not_metrics not_health =
      let down : t.flags.value rs.healthy ≡ false =
        Run-is_healthy env net rounds path modified m s es t i rs h run at few
        ∙ ap (λ xs. is_healthy 3 2 (reverse (map ping xs))) pinged
        ∙ is_healthy-outage older a b c ha hb hc in
      handle-Refused laws net t.app t.flags.value k.client_ip k.is_tls req
        (record { world = world; pool = u.pool }) u.metrics not_metrics not_health
        (unhealthy rs found down)
