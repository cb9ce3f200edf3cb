-- ===== src/System/Tallies.antt =====
-- The pool and the counters of the running proxy, in every state that it can reach.
use mathlib.Core.Path.{subst}
use mathlib.Core.Option.{some_inj}
use prismproxy.Prelude.{
  ℕ, ◌≤◌, ◌≡◌, refl, sym, ap, ◌∙◌, Option, none, some, List, [], ◌∷◌, ◌++◌, get_elem?, String,
  length, IsVisible, Result, ok, err, ok_inj, All,
}
use prismproxy.Metrics.History.{after}
use prismproxy.Pool.{run}
use prismproxy.Pool as Pool
use prismproxy.Pool.Refinement.{stack, run-append, run-bounded}
use prismproxy.Exec.{returns}
use prismproxy.Http.{Http, HttpLaws, Net}
use prismproxy.Proxy.{Task}
use prismproxy.Handler.Pooling.{handle-BySteps}
use prismproxy.Config.{Config, from_file}
use prismproxy.Disk.{read_to_string}
use prismproxy.Acme.Base.{Machine}
use prismproxy.Startup.Base.{Outside}
use prismproxy.Startup.{Started, Serving, run_with_listener_hot}
use prismproxy.Startup.Inversion.{run_with_listener_hot-Steps}
use prismproxy.System.Base.{Connection}
use prismproxy.System.Lists.{All-remove_at, All-get_elem?}
use prismproxy.System.Start.{no_flags}
use prismproxy.System.{
  Inflight, System, Event, Step, Run, boot, outcome_of, reload, renew, watch, accept, begin, finish,
  here, next, accepts, finishes, with_connection, served, finished,
}
use prismproxy.System.Traffic.{Answered, samples, Counts, finishes-Counts, silent-Counts}

module _ (env : Outside) {http : Http} (net : Net http) (laws : HttpLaws http) where
  module _ (max_idle : ℕ) where
    -- What holds of the connections, the pool and the counters after the events.
    record Tallied (es : List (Event env net)) (t : System env net) : Type 0 where
      pub visible : All (λ (c : Connection). IsVisible c.client_ip) t.connections
      pub visible_inflight :
          All (λ (f : Inflight env net). IsVisible f.connection.client_ip) t.inflight
      pub sections : List (Pool.Step net.Conn)
      pub pooled : t.pool ≡ run sections (Pool.new max_idle)
      pub counts : Counts env net es t.metrics

    -- A step that touches neither requests nor connections.
    silent-Tallied :
        (e : Event env net) (es : List (Event env net)) (t u : System env net)
        → u.connections ≡ t.connections
        → u.inflight ≡ t.inflight
        → u.pool ≡ t.pool
        → u.metrics ≡ t.metrics
        → samples env net (e ∷ es) ≡ samples env net es
        → (Answered env net es → Answered env net (e ∷ es))
        → Tallied es t
        → Tallied (e ∷ es) u
    silent-Tallied e es t u connections inflight pool metrics same answers w = record {
      visible = subst (All (λ (c : Connection). IsVisible c.client_ip)) (sym connections) w.visible;
      visible_inflight =
          subst (All (λ (f : Inflight env net). IsVisible f.connection.client_ip)) (sym inflight)
            w.visible_inflight;
      sections = w.sections;
      pooled = pool ∙ w.pooled;
      counts =
          subst (Counts env net (e ∷ es)) (sym metrics)
            (silent-Counts env net laws e es t.metrics same answers w.counts);
    }

    accept-Tallied :
        (es : List (Event env net)) (client_ip : String) (handshake : Result (Unit {0}) String)
        (t : System env net)
        → IsVisible client_ip
        → Tallied es t
        → (o : Option Connection) → ((c : Connection) → o ≡ some c → c.client_ip ≡ client_ip)
        → Tallied (accepts client_ip handshake ∷ es) (with_connection env net o t)
    accept-Tallied es client_ip handshake t seen w none of =
        silent-Tallied (accepts client_ip handshake) es t t refl refl refl refl refl (λ a. a) w
    accept-Tallied es client_ip handshake t seen w (some c) of = record {
      visible = (subst IsVisible (sym (of c refl)) seen, w.visible);
      visible_inflight = w.visible_inflight;
      sections = w.sections;
      pooled = w.pooled;
      counts =
          silent-Counts env net laws (accepts client_ip handshake) es t.metrics refl (λ a. a)
            w.counts;
    }

    served-client_ip :
        (tls : Serving env) (client_ip : String) (handshake : Result (Unit {0}) String)
        (c : Connection)
        → served env net tls client_ip handshake ≡ some c
        → c.client_ip ≡ client_ip
    served-client_ip none client_ip handshake c e =
        ap (λ (x : Connection). x.client_ip) (sym (some_inj.0 e))
    served-client_ip (some tls) client_ip (ok u) c e =
        ap (λ (x : Connection). x.client_ip) (sym (some_inj.0 e))
    served-client_ip (some tls) client_ip (err x) c e = cc

    finish-Tallied :
        (es : List (Event env net)) (t : System env net) (i : ℕ) (f : Inflight env net)
        (world : net.World)
        → get_elem? t.inflight i ≡ some f
        → Tallied es t
        → Tallied
            (finishes f
                (record { world = world; pool = t.pool })
                (outcome_of env net f world t).task
                (outcome_of env net f world t).response
              ∷ es)
            (finished env net i f world t)
    finish-Tallied es t i f world at w =
        let visible =
          All-get_elem? (λ (x : Inflight env net). IsVisible x.connection.client_ip) i f t.inflight
            w.visible_inflight at in
        let task : Task net = record { world = world; pool = t.pool } in
        let by =
          handle-BySteps laws net f.app f.is_up f.connection.client_ip f.connection.is_tls f.request
            visible task t.metrics in
        record {
          visible = w.visible;
          visible_inflight =
              All-remove_at (λ (x : Inflight env net). IsVisible x.connection.client_ip) i
                t.inflight w.visible_inflight;
          sections = w.sections ++ by.steps;
          pooled =
              by.result
              ∙ ap (run by.steps) w.pooled
              ∙ sym (run-append w.sections by.steps (Pool.new max_idle));
          counts = finishes-Counts env net laws f task es t.metrics visible w.counts;
        }

    Step-Tallied :
        (es : List (Event env net)) (t : System env net) (e : Event env net) (u : System env net)
        → Tallied es t
        → Step env net t e u
        → Tallied (e ∷ es) u
    Step-Tallied es t e u w (reload disk mtime is) =
        silent-Tallied e es t u refl refl refl refl refl (λ a. a) w
    Step-Tallied es t e u w (renew rounds path m is) =
        silent-Tallied e es t u refl refl refl refl refl (λ a. a) w
    Step-Tallied es t e u w (watch i v outcome at) =
        silent-Tallied e es t u refl refl refl refl refl (λ a. a) w
    Step-Tallied es t e u w (accept client_ip handshake seen) =
        accept-Tallied es client_ip handshake t seen w
          (served env net t.app.tls client_ip handshake)
          (served-client_ip t.app.tls client_ip handshake)
    Step-Tallied es t e u w (begin i c req at) = record {
      visible = w.visible;
      visible_inflight = (
        All-get_elem? (λ (x : Connection). IsVisible x.client_ip) i c t.connections w.visible at,
        w.visible_inflight,
      );
      sections = w.sections;
      pooled = w.pooled;
      counts = silent-Counts env net laws e es t.metrics refl (λ a. a) w.counts;
    }
    Step-Tallied es t e u w (finish i f world at) = finish-Tallied es t i f world at w

  Run-Tallied :
      (s : Started env) (es : List (Event env net)) (t : System env net)
      → Run env net (boot env net s) es t
      → Tallied s.max_idle es t
  unfolding run after
  Run-Tallied s es t here = record {
    visible = tt;
    visible_inflight = tt;
    sections = [];
    pooled = refl;
    counts = record { counted = refl; answered = tt };
  }
  Run-Tallied s es t (next e r step) = Step-Tallied s.max_idle _ _ e t (Run-Tallied s _ _ r) step

  -- In every state that the proxy reaches once it has started, no address has more idle connections
  -- in the pool than the `max_idle_connections` of the file that was read at the start, however the
  -- requests interleaved and whatever a reload has read since.
  pub Run-max_idle :
      (rounds : ℕ) (path : String) (modified : Option ℕ) (m : Machine env.ca) (s : Started env)
      (config : Config) (es : List (Event env net)) (t : System env net) (addr : String)
      → from_file env.toml (λ p. read_to_string p m.disk) path ≡ ok config
      → (run_with_listener_hot env rounds path modified no_flags m).0 ≡ returns s
      → Run env net (boot env net s) es t
      → length (stack t.pool addr) ≤ config.server.max_idle_connections
  Run-max_idle rounds path modified m s config es t addr is_read h r =
      let steps = run_with_listener_hot-Steps env rounds path modified no_flags m s h in
      let w = Run-Tallied s es t r in
      let read_once = ok_inj (sym steps.is_read ∙ is_read) in
      subst (λ p. length (stack p addr) ≤ config.server.max_idle_connections) (sym w.pooled)
        (subst
          (λ n.
            length (stack (run w.sections (Pool.new n)) addr) ≤ config.server.max_idle_connections)
          (sym (steps.capacity ∙ ap (λ (c : Config). c.server.max_idle_connections) read_once))
          (run-bounded w.sections config.server.max_idle_connections addr))
