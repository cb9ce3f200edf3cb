-- ===== src/System/Start.antt =====
-- The health flags and their loops when server.rs begins to accept connections.
use mathlib.Core.Path.{subst}
use prismproxy.Prelude.{
  ℕ, ◌<◌, ◌≡◌, sym, ap, ◌∙◌, String, Bool, true, false, Option, some, get_elem?, arith,
  if◌then◌else◌,
}
use prismproxy.Exec.{pure, returns, returns-injective}
use prismproxy.State.{Flags}
use prismproxy.State.Grown.{Grown, Grown-trans, build_state-Grown}
use prismproxy.Acme.Base.{Machine}
use prismproxy.Startup.Base.{Outside, HealthLoop}
use prismproxy.Startup.{Started, App, provision_first, run_with_listener_hot}
use prismproxy.Startup.Inversion.{
  run_with_listener_hot-Steps, Steps-IsBuilt, provision_first-Provisioned,
}
use prismproxy.Startup.Watched.{run_with_listener_hot-watches, loop-is_made, loop-route}

-- Before `main`.
abbrev pub no_flags : Flags
no_flags = record { next = 0; value = λ h. false }

module _ (env : Outside) where
  open env use {wasm, rustls, file_stem, toml, ca, Addr, parse_addr, port}

  -- Each loop has a flag that is made, that no other loop has, and that is up; so is every flag.
  pub record IsReady (s : Started env) : Type 0 where
    pub below :
        (j : ℕ) (l : HealthLoop) → get_elem? s.health_loops j ≡ some l → l.healthy < s.flags.next
    pub distinct :
        (i j : ℕ) (k l : HealthLoop)
        → get_elem? s.health_loops i ≡ some k
        → get_elem? s.health_loops j ≡ some l
        → l.healthy ≡ k.healthy
        → j ≡ i
    pub up : (h : ℕ) → h < s.flags.next → s.flags.value h ≡ true
    pub thresholds :
        (j : ℕ) (l : HealthLoop)
        → get_elem? s.health_loops j ≡ some l
        → (l.fail_threshold ≡ 3) × (l.recover_threshold ≡ 2)

  choice-Grown :
      (rounds : ℕ) (path : String) (b : Bool) (listen : Option String)
      (built made : App env × Flags) (m : Machine ca)
      → Grown no_flags built.1
      → ((if b then provision_first env rounds path listen built.1 else pure built) m).0
        ≡ returns made
      → Grown no_flags made.1
  choice-Grown rounds path true listen built made m grown h =
      let p = provision_first-Provisioned env rounds path listen built.1 m made h in
      Grown-trans no_flags built.1 made.1 grown
        (build_state-Grown wasm rustls file_stem _ p.config2 built.1 made.1 made.0 p.built)
  choice-Grown rounds path false listen built made m grown h =
      subst (λ (x : App env × Flags). Grown no_flags x.1) (returns-injective h) grown

  pub run_with_listener_hot-IsReady :
      (rounds : ℕ) (path : String) (modified : Option ℕ) (m : Machine ca) (s : Started env)
      → (run_with_listener_hot env rounds path modified no_flags m).0 ≡ returns s
      → IsReady s
  run_with_listener_hot-IsReady rounds path modified m s h =
      let steps = run_with_listener_hot-Steps env rounds path modified no_flags m s h in
      let b = Steps-IsBuilt env rounds path no_flags m s steps in
      let grown =
        choice-Grown rounds path _ steps.config.server.http_challenge_listen steps.built
          (s.app, s.flags) m
          (build_state-Grown wasm rustls file_stem _ steps.config no_flags steps.built.1
            steps.built.0 steps.is_built)
          steps.initial in
      record {
        below = loop-is_made env s steps.monitored b;
        distinct = λ i j k l first second same.
            let (rs, at, is) = loop-route env s steps.monitored b i k first in
            (run_with_listener_hot-watches env rounds path modified no_flags m s i rs h at).alone j
              l second (same ∙ sym (ap (λ (x : HealthLoop). x.healthy) is));
        up = λ x less. grown.up x (omega arith) less;
        thresholds = λ j l at.
            let (rs, found, is) = loop-route env s steps.monitored b j l at in
            (
              ap (λ (x : HealthLoop). x.fail_threshold) (sym is),
              ap (λ (x : HealthLoop). x.recover_threshold) (sym is),
            );
      }
