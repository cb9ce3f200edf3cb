-- ===== src/System/Running.antt =====
-- The health flags of the running proxy, in every state that it can reach.
use mathlib.Core.List.{reverse}
use prismproxy.HealthCheck.Hysteresis.{is_healthy, loop-follows_rule}
use prismproxy.Startup.Watched.{run_with_listener_hot-watches}
use prismproxy.Prelude.{
  ℕ, ◌<◌, ◌≡◌, sym, ap, ◌∙◌, true, ◌==◌, inl, inr, ◌⊎◌, Option, none, some, List, [], ◌∷◌, ◌++◌,
  map, get_elem?, get_elem?-map, length, ◌^◌, arith, if◌then◌else◌, String, Result,
}
use prismproxy.HealthCheck.{Monitor, PingOutcome, ping, start, upstream_health_loop}
use prismproxy.Http.{Http, Net}
use prismproxy.State.{Flags, RouteState}
use prismproxy.Exec.{returns}
use prismproxy.Acme.Base.{Machine}
use prismproxy.Startup.Base.{Outside, HealthLoop}
use prismproxy.Startup.{Started, App, run_with_listener_hot}
use prismproxy.System.Base.{Watch, Connection, monitor_of}
use prismproxy.System.Publishing.{Published, tick-Published, renewal_tick-Published}
use prismproxy.System.Start.{IsReady, no_flags, run_with_listener_hot-IsReady}
use prismproxy.System.Watches.{
  IsGuarded, loop_of, after_ping, Follows, start-IsGuarded, Published-IsGuarded, pinged-IsGuarded,
}
use prismproxy.System.Isolation.{start-Follows, Published-Follows, pinged-Follows}
use prismproxy.System.{
  System, Event, Step, Run, boot, reload, renew, watch, accept, begin, finish, here, next, reloads,
  renews, pings, accepts, begins, finishes, with_connection, served,
}

module _ (env : Outside) {http : Http} (net : Net http) where
  -- The pings of the loop at an index, the first one first.
  abbrev pub pings_at : List (Event env net) → ℕ → List PingOutcome
  pings_at [] j = []
  pings_at (pings i outcome ∷ es) j =
      if j == i then pings_at es j ++ (outcome ∷ []) else pings_at es j
  pings_at (reloads disk ∷ es) j = pings_at es j
  pings_at (renews rounds path m ∷ es) j = pings_at es j
  pings_at (accepts client_ip handshake ∷ es) j = pings_at es j
  pings_at (begins req ∷ es) j = pings_at es j
  pings_at (finishes f before after response ∷ es) j = pings_at es j

  module _ (s : Started env) (ready : IsReady env s) where
    -- What holds of the flags and their loops after the events.
    record Watched (es : List (Event env net)) (t : System env net) : Type 0 where
      pub guarded : IsGuarded env s t.watches t.flags t.app
      pub follows : Follows env s (pings_at es) t.watches t.flags

    Published-Watched :
        (es : List (Event env net)) (t : System env net) (new : App env × Flags)
        → Published env (t.app, t.flags) new
        → Watched es t
        → (IsGuarded env s t.watches new.1 new.0) × (Follows env s (pings_at es) t.watches new.1)
    Published-Watched es t new p w = (
      Published-IsGuarded env s t.watches (t.app, t.flags) new p w.guarded,
      Published-Follows env s ready (pings_at es) t.watches (t.app, t.flags) new p w.guarded
          w.follows,
    )

    with_connection-Watched :
        (es : List (Event env net)) (client_ip : String) (handshake : Result (Unit {0}) String)
        (t : System env net)
        → Watched es t
        → (o : Option Connection)
        → Watched (accepts client_ip handshake ∷ es) (with_connection env net o t)
    with_connection-Watched es client_ip handshake t w none = record {
      guarded = w.guarded;
      follows = w.follows;
    }
    with_connection-Watched es client_ip handshake t w (some c) = record {
      guarded = w.guarded;
      follows = w.follows;
    }

    Step-Watched :
        (es : List (Event env net)) (t : System env net) (e : Event env net) (u : System env net)
        → Watched es t
        → Step env net t e u
        → Watched (e ∷ es) u
    Step-Watched es t e u w (reload disk mtime is) =
        let (g, f) =
          Published-Watched es t _
            (tick-Published env disk (record { app = t.app; flags = t.flags; last_mtime = mtime }))
            w in
        record { guarded = g; follows = f }
    Step-Watched es t e u w (renew rounds path m is) =
        let (g, f) =
          Published-Watched es t _ (renewal_tick-Published env rounds path m (t.app, t.flags)) w in
        record { guarded = g; follows = f }
    Step-Watched es t e u w (watch i v outcome at) = record {
      guarded =
          pinged-IsGuarded env s t.watches t.flags t.app i v (after_ping t.flags v outcome) at
            w.guarded;
      follows =
          pinged-Follows env s ready (pings_at es) t.watches t.flags t.app i v outcome at w.guarded
            w.follows;
    }
    Step-Watched es t e u w (accept client_ip handshake is_visible) =
        with_connection-Watched es client_ip handshake t w
          (served env net t.app.tls client_ip handshake)
    Step-Watched es t e u w (begin i c req at) = record { guarded = w.guarded; follows = w.follows }
    Step-Watched es t e u w (finish i f world at) = record {
      guarded = w.guarded;
      follows = w.follows;
    }

    Run-Watched :
        (es : List (Event env net)) (t : System env net)
        → Run env net (boot env net s) es t
        → Watched es t
    Run-Watched es t here = record {
      guarded = start-IsGuarded env s ready;
      follows = start-Follows env s ready;
    }
    Run-Watched es t (next e run step) = Step-Watched _ _ e t (Run-Watched _ _ run) step

  -- In every state that the proxy reaches once it has started, each health-check loop stands, with the
  -- flag that it shares, where `upstream_health_loop` stands after the pings of that loop alone,
  -- with the thresholds 3 and 2 and from a healthy start: the other loops, the requests, and the
  -- reloads and renewals in between do not disturb it.
  pub Run-upstream_health_loop :
      (rounds : ℕ) (path : String) (modified : Option ℕ) (m : Machine env.ca) (s : Started env)
      (es : List (Event env net)) (t : System env net) (i : ℕ) (w : Watch)
      → (run_with_listener_hot env rounds path modified no_flags m).0 ≡ returns s
      → Run env net (boot env net s) es t
      → get_elem? t.watches i ≡ some w
      → monitor_of t.flags w ≡ upstream_health_loop 3 2 start (pings_at es i)
  Run-upstream_health_loop rounds path modified m s es t i w h run at =
      let ready = run_with_listener_hot-IsReady env rounds path modified m s h in
      (Run-Watched s ready es t run).follows i w at

  -- In every state that the proxy reaches once it has started, the published state is the one that
  -- the start published, or the flag of each of its routes is up, whatever the pings have found.
  pub Run-unwatched :
      (rounds : ℕ) (path : String) (modified : Option ℕ) (m : Machine env.ca) (s : Started env)
      (es : List (Event env net)) (t : System env net)
      → (run_with_listener_hot env rounds path modified no_flags m).0 ≡ returns s
      → Run env net (boot env net s) es t
      → (t.app ≡ s.app)
        ⊎ ((i : ℕ) (rs : RouteState env.wasm env.rustls)
            → get_elem? t.app.routes i ≡ some rs
            → t.flags.value rs.healthy ≡ true)
  Run-unwatched rounds path modified m s es t h run =
      let ready = run_with_listener_hot-IsReady env rounds path modified m s h in
      let g = (Run-Watched s ready es t run).guarded in
      elim g.fresh [
        | inl first ↦ inl first
        | inr within ↦ inr λ i rs at.
            let (least, less) = within i rs at in
            g.up rs.healthy less λ j l found same. omega (arith, ready.below j l found, same, least)
      ]

  -- In every state that the proxy reaches once it has started, after fewer than 2 ^ 32 pings of a
  -- route's loop, the flag of the route of the state that the start published is what the documented
  -- rule, with the thresholds 3 and 2, prescribes for the pings of that loop, whatever else has
  -- happened in between.
  pub Run-is_healthy :
      (rounds : ℕ) (path : String) (modified : Option ℕ) (m : Machine env.ca) (s : Started env)
      (es : List (Event env net)) (t : System env net) (i : ℕ) (rs : RouteState env.wasm env.rustls)
      → (run_with_listener_hot env rounds path modified no_flags m).0 ≡ returns s
      → Run env net (boot env net s) es t
      → get_elem? s.app.routes i ≡ some rs
      → length (pings_at es i) < 2 ^ 32
      → t.flags.value rs.healthy ≡ is_healthy 3 2 (reverse (map ping (pings_at es i)))
  Run-is_healthy rounds path modified m s es t i rs h run at few =
      let ready = run_with_listener_hot-IsReady env rounds path modified m s h in
      let g = (Run-Watched s ready es t run).guarded in
      let watched = run_with_listener_hot-watches env rounds path modified no_flags m s i rs h at in
      let (w, found, is) =
        get_elem?-map loop_of t.watches i _ (ap (λ ls. get_elem? ls i) g.loops ∙ watched.by) in
      ap (λ (l : HealthLoop). t.flags.value l.healthy) (sym is)
      ∙ ap (λ (x : Monitor). x.healthy)
          (Run-upstream_health_loop rounds path modified m s es t i w h run found
            ∙ loop-follows_rule 3 2 (pings_at es i) few)
