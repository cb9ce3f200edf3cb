-- ===== src/Startup/Watched.antt =====
-- Which flags server.rs's health-check loops watch.
use prismproxy.Prelude.{
  get_elem?-map, get_elem?-map-some, ℕ, ◌+◌, ◌<◌, String, ◌≡◌, ◌≢◌, sym, ap, ◌∙◌, true, Option,
  some, map, get_elem?, arith, ok, >>=-eq-ok,
}
use prismproxy.Exec.{returns}
use prismproxy.Config.{validate}
use prismproxy.State.{Flags, RouteState}
use prismproxy.State.Build.{build_state-own_flag, build_state-is_made}
use prismproxy.Server.{Disk, try_reload}
use prismproxy.Acme.Base.{Machine}
use prismproxy.Startup.Base.{Outside, HealthLoop}
use prismproxy.Startup.{Started, health_loop_of, run_with_listener_hot, App}
use prismproxy.Startup.Inversion.{IsBuilt, run_with_listener_hot-Steps, Steps-IsBuilt}

module _ (env : Outside) where
  open env use {wasm, rustls, file_stem, toml, ca, Addr, parse_addr, port}

  -- Route i is watched by loop i, on its own upstream, through its own flag, which is up at the
  -- start; no other loop has that flag.
  pub record IsWatched (s : Started env) (i : ℕ) (rs : RouteState wasm rustls) : Type 0 where
    pub by :
        get_elem? s.health_loops i
        ≡ some (record {
          upstream = rs.route.upstream;
          healthy = rs.healthy;
          interval_secs = 10;
          fail_threshold = 3;
          recover_threshold = 2;
        })
    pub is_up : s.flags.value rs.healthy ≡ true
    pub alone :
        (j : ℕ) (l : HealthLoop)
        → get_elem? s.health_loops j ≡ some l
        → l.healthy ≡ rs.healthy
        → j ≡ i

  module _ (s : Started env) (monitored : s.health_loops ≡ map (health_loop_of env) s.app.routes)
      (b : IsBuilt env (s.app, s.flags)) where
    -- The route of a loop.
    pub loop-route :
        (j : ℕ) (l : HealthLoop)
        → get_elem? s.health_loops j ≡ some l
        → (rs : RouteState wasm rustls) × (get_elem? s.app.routes j ≡ some rs)
          × (health_loop_of env rs ≡ l)
    loop-route j l h =
        get_elem?-map (health_loop_of env) s.app.routes j l
          (ap (λ ls. get_elem? ls j) (sym monitored) ∙ h)

    own :
        (i : ℕ) (rs : RouteState wasm rustls)
        → get_elem? s.app.routes i ≡ some rs
        → (rs.healthy ≡ b.flags.next + i) × (s.flags.value rs.healthy ≡ true)
    own i rs at =
        build_state-own_flag wasm rustls file_stem b.files b.config b.flags s.flags s.app i rs
          b.built at

    routes-IsWatched :
        (i : ℕ) (rs : RouteState wasm rustls)
        → get_elem? s.app.routes i ≡ some rs
        → IsWatched s i rs
    routes-IsWatched i rs at = record {
      by =
          ap (λ ls. get_elem? ls i) monitored
          ∙ get_elem?-map-some (health_loop_of env) s.app.routes i rs at;
      is_up = (own i rs at).1;
      alone = λ j l watched same.
          let (other, found, is) = loop-route j l watched in
          let one = (own i rs at).0 in
          let two = (own j other found).0 in
          let equal : other.healthy ≡ rs.healthy = ap (λ (x : HealthLoop). x.healthy) is ∙ same in
          omega (arith, one, two, equal);
    }

    -- The flag of a loop is one of those that are made.
    pub loop-is_made :
        (j : ℕ) (l : HealthLoop) → get_elem? s.health_loops j ≡ some l → l.healthy < s.flags.next
    loop-is_made j l watched =
        let (rs, found, is) = loop-route j l watched in
        let made =
          build_state-is_made wasm rustls file_stem b.files b.config b.flags s.flags s.app j rs
            b.built found in
        let equal : rs.healthy ≡ l.healthy = ap (λ (x : HealthLoop). x.healthy) is in
        omega (arith, made, equal)

  module _ (rounds : ℕ) (path : String) (modified : Option ℕ) (flags : Flags) (m : Machine ca)
      (s : Started env) where
    -- If `run_with_listener_hot` comes to its accept loop, then route i of the published state is
    -- watched by health-check loop i, on its own upstream, with the thresholds 3 and 2 and every 10
    -- seconds, through its own flag: the flag is up at the start, and no other loop has it.
    pub run_with_listener_hot-watches :
        (i : ℕ) (rs : RouteState wasm rustls)
        → (run_with_listener_hot env rounds path modified flags m).0 ≡ returns s
        → get_elem? s.app.routes i ≡ some rs
        → IsWatched s i rs
    run_with_listener_hot-watches i rs h at =
        let steps = run_with_listener_hot-Steps env rounds path modified flags m s h in
        routes-IsWatched s steps.monitored (Steps-IsBuilt env rounds path flags m s steps) i rs at

    -- Once the configuration is reloaded, no health-check loop that was spawned at the start has the
    -- flag of a route of the new state: that flag is up and nobody watches the upstream.
    pub try_reload-unwatched :
        (disk : Disk) (new : App env × Flags) (i j : ℕ) (rs : RouteState wasm rustls)
        (l : HealthLoop)
        → (run_with_listener_hot env rounds path modified flags m).0 ≡ returns s
        → try_reload wasm rustls file_stem parse_addr disk s.flags ≡ ok new
        → get_elem? new.0.routes i ≡ some rs
        → get_elem? s.health_loops j ≡ some l
        → (new.1.value rs.healthy ≡ true) × (l.healthy ≢ rs.healthy)
    unfolding try_reload
    try_reload-unwatched disk new i j rs l h reloaded at watched =
        let steps = run_with_listener_hot-Steps env rounds path modified flags m s h in
        let older =
          loop-is_made s steps.monitored (Steps-IsBuilt env rounds path flags m s steps) j l
            watched in
        let (config, _, e1) = >>=-eq-ok disk.from_file _ reloaded in
        let (checked, _, e2) = >>=-eq-ok (validate parse_addr config) _ e1 in
        let (newer, is_up) =
          build_state-own_flag wasm rustls file_stem disk.files config s.flags new.1 new.0 i rs e2
            at in
        (is_up, omega (arith, older, newer))
