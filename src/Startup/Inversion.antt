-- ===== src/Startup/Inversion.antt =====
-- What server.rs has done when it begins to accept connections.
use mathlib.Core.Path.{subst}
use prismproxy.Prelude.{
  ℕ, String, ◌≡◌, ap, sym, ◌∙◌, Bool, true, false, Option, none, some, map, Result, ok, err, ok_or,
  ok_inj, if◌then◌else◌,
}
use prismproxy.Errors.{ProxyError}
use prismproxy.Exec.{returns, pure, flow_of, flow_or_panic, continue-eq-returns, returns-injective}
use prismproxy.Acme.{provision}
use prismproxy.Config.{Config, TlsConfig, is_some, from_file, validate}
use prismproxy.State.{Files, Flags, build_state}
use prismproxy.Disk.{read_to_string, files_of}
use prismproxy.Acme.Base.{Machine}
use prismproxy.Startup.Base.{Outside}
use prismproxy.Startup.{
  Started, health_loop_of, read_config, build, no_challenge_listen, provision_first, initial_state,
  redirecting, run_with_listener_hot, App,
}

module _ (env : Outside) where
  open env use {wasm, rustls, file_stem, toml, ca, Addr, parse_addr, port}

  -- The state and its flags were built together.
  pub record IsBuilt (made : App env × Flags) : Type 0 where
    pub config : Config
    pub files : Files
    pub flags : Flags
    pub built : build_state wasm rustls file_stem files config flags ≡ ok made

  -- The steps before the tasks are spawned.
  pub record Steps (rounds : ℕ) (path : String) (flags : Flags) (m : Machine ca) (s : Started env)
      : Type 0 where
    pub config : Config
    pub is_read : from_file toml (λ p. read_to_string p m.disk) path ≡ ok config
    pub valid : validate parse_addr config ≡ ok tt
    pub built : App env × Flags
    pub is_built : build_state wasm rustls file_stem (files_of m.disk) config flags ≡ ok built
    pub initial :
        (initial_state env rounds path
          (is_some config.tls)
          config.server.http_challenge_listen
          built
          m).0
        ≡ returns (s.app, s.flags)
    pub capacity : s.max_idle ≡ config.server.max_idle_connections
    pub monitored : s.health_loops ≡ map (health_loop_of env) s.app.routes

  pub flow_of-returns :
      {A : Type 0} (r : Result A ProxyError) {a : A} → flow_of r ≡ returns a → r ≡ ok a
  flow_of-returns (ok a) h = ap ok (returns-injective h)
  flow_of-returns (err e) h = cc

  pub run_with_listener_hot-Steps :
      (rounds : ℕ) (path : String) (modified : Option ℕ) (flags : Flags) (m : Machine ca)
      (s : Started env)
      → (run_with_listener_hot env rounds path modified flags m).0 ≡ returns s
      → Steps rounds path flags m s
  unfolding run_with_listener_hot
  run_with_listener_hot-Steps rounds path modified flags m s h =
      let (config, read, h1) = continue-eq-returns (read_config env path m).0 _ _ h in
      let (u, valid, h2) = continue-eq-returns (flow_of (validate parse_addr config)) _ _ h1 in
      let (built, made, h3) = continue-eq-returns (build env config flags m).0 _ _ h2 in
      let started =
        initial_state env rounds path (is_some config.tls) config.server.http_challenge_listen built
          m in
      let (initial, provisioned, h4) = continue-eq-returns started.0 _ started.1 h3 in
      let (redirect, bound, h5) =
        continue-eq-returns
          (redirecting env (is_some config.tls) path config.server.http_challenge_listen
            started.1).0
          _ _ h4 in
      let same = returns-injective h5 in
      record {
        config = config;
        is_read = flow_of-returns _ read;
        valid = flow_of-returns _ valid;
        built = built;
        is_built = flow_of-returns _ made;
        initial = provisioned ∙ ap (λ (t : Started env). returns (t.app, t.flags)) same;
        capacity = ap (λ (t : Started env). t.max_idle) (sym same);
        monitored =
            ap (λ (t : Started env). t.health_loops) (sym same)
            ∙ ap (λ (t : Started env). map (health_loop_of env) t.app.routes) same;
      }

  -- The steps of the first provisioning.
  pub record Provisioned (rounds : ℕ) (path : String) (http_challenge_listen : Option String)
      (flags : Flags) (m : Machine ca) (made : App env × Flags) : Type 0 where
    pub config : Config
    pub is_read : from_file toml (λ p. read_to_string p m.disk) path ≡ ok config
    pub tls_config : TlsConfig
    pub has_tls : config.tls ≡ some tls_config
    pub listen : String
    pub listens : http_challenge_listen ≡ some listen
    pub pair : String × String
    pub provisioned : (provision ca rounds tls_config listen m).0 ≡ returns pair
    pub config2 : Config
    pub is_read2 :
        from_file toml (λ p. read_to_string p (provision ca rounds tls_config listen m).1.disk) path
        ≡ ok config2
    pub built :
        build_state wasm rustls file_stem
          (files_of (provision ca rounds tls_config listen m).1.disk)
          config2
          flags
        ≡ ok made

  flow_or_panic-returns :
      {A : Type 0} (o : Option A) {a : A} → flow_or_panic o ≡ returns a → o ≡ some a
  flow_or_panic-returns (some a) h = ap some (returns-injective h)
  flow_or_panic-returns none h = cc

  ok_or-some : {A : Type 0} (o : Option A) (e : ProxyError) {a : A} → ok_or o e ≡ ok a → o ≡ some a
  ok_or-some (some a) e h = ap some (ok_inj h)
  ok_or-some none e h = cc

  pub provision_first-Provisioned :
      (rounds : ℕ) (path : String) (listen : Option String) (flags : Flags) (m : Machine ca)
      (made : App env × Flags)
      → (provision_first env rounds path listen flags m).0 ≡ returns made
      → Provisioned rounds path listen flags m made
  unfolding provision_first
  provision_first-Provisioned rounds path listen flags m made h =
      let (config, read, h1) = continue-eq-returns (read_config env path m).0 _ _ h in
      let (tls_config, has_tls, h2) = continue-eq-returns (flow_or_panic config.tls) _ _ h1 in
      let (address, listens, h3) =
        continue-eq-returns (flow_of (ok_or listen (no_challenge_listen env))) _ _ h2 in
      let r = provision ca rounds tls_config address m in
      let (pair, provisioned, h4) = continue-eq-returns r.0 _ r.1 h3 in
      let (config2, read2, h5) = continue-eq-returns (read_config env path r.1).0 _ _ h4 in
      let (u, valid, h6) = continue-eq-returns (flow_of (validate parse_addr config2)) _ r.1 h5 in
      record {
        config = config;
        is_read = flow_of-returns _ read;
        tls_config = tls_config;
        has_tls = flow_or_panic-returns config.tls has_tls;
        listen = address;
        listens = ok_or-some listen _ (flow_of-returns _ listens);
        pair = pair;
        provisioned = provisioned;
        config2 = config2;
        is_read2 = flow_of-returns _ read2;
        built = flow_of-returns _ h6;
      }

  -- Whether or not a certificate was got first.
  pub initial_state-IsBuilt :
      (rounds : ℕ) (path : String) (b : Bool) (listen : Option String)
      (built made : App env × Flags) (m : Machine ca)
      → IsBuilt built
      → ((if b then provision_first env rounds path listen built.1 else pure built) m).0
        ≡ returns made
      → IsBuilt made
  initial_state-IsBuilt rounds path true listen built made m was h =
      let p = provision_first-Provisioned rounds path listen built.1 m made h in
      record { config = p.config2; files = _; flags = built.1; built = p.built }
  initial_state-IsBuilt rounds path false listen built made m was h =
      subst IsBuilt (returns-injective h) was

  pub Steps-IsBuilt :
      (rounds : ℕ) (path : String) (flags : Flags) (m : Machine ca) (s : Started env)
      → Steps rounds path flags m s
      → IsBuilt (s.app, s.flags)
  Steps-IsBuilt rounds path flags m s steps =
      initial_state-IsBuilt rounds path _ steps.config.server.http_challenge_listen steps.built _ m
        (record { config = steps.config; files = _; flags = flags; built = steps.is_built })
        steps.initial
