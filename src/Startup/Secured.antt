-- ===== src/Startup/Secured.antt =====
-- With `[tls]` configured, server.rs begins to accept connections over TLS.
use mathlib.Core.Path.{subst}
use mathlib.Core.Option.{some_inj}
use prismproxy.Prelude.{
  ℕ, String, ◌≡◌, refl, sym, ap, ◌∙◌, Bool, true, false, not, ◌&&◌, Option, some, Option-cases, inl,
  inr, ok, ok_inj, if◌then◌else◌,
}
use prismproxy.Exec.{returns, pure, returns-injective}
use prismproxy.Exec.Hoare.{Ends-eq-returns}
use prismproxy.Config.{Config, TlsConfig, is_some, from_file}
use prismproxy.State.{Flags}
use prismproxy.Disk.{Disk, read_to_string}
use prismproxy.Acme.Base.{Machine}
use prismproxy.Acme.Installed.{IsNew}
use prismproxy.Acme.Outcome.{provision-IsInstalled}
use prismproxy.Acme.Replacing.{build_state-Serves}
use prismproxy.Acme.{provision}
use prismproxy.Startup.Base.{Outside}
use prismproxy.Startup.{Started, App, provision_first, initial_state, run_with_listener_hot}
use prismproxy.Startup.Inversion.{
  run_with_listener_hot-Steps, Provisioned, provision_first-Provisioned,
}

module _ (env : Outside) where
  open env use {wasm, rustls, file_stem, toml, ca, Addr, parse_addr, port}

  -- The text of the configuration file, as `Config::from_file` reads it.
  abbrev pub Reads : String → Disk → Config → Type 0
  Reads path d config = from_file toml (λ p. read_to_string p d) path ≡ ok config

  abbrev pub HasTls : App env → Type 0
  HasTls app = (t : _) × (app.tls ≡ some t)

  module _ (rounds : ℕ) (path : String) (m : Machine ca) (config : Config) (tls_config : TlsConfig)
      (listen : String) (is_read : Reads path m.disk config)
      (has_tls : config.tls ≡ some tls_config)
      (listens : config.server.http_challenge_listen ≡ some listen)
      (stays : Reads path (provision ca rounds tls_config listen m).1.disk config) where
    Provisioned-HasTls :
        (flags : Flags) (made : App env × Flags)
        → Provisioned env rounds path config.server.http_challenge_listen flags m made
        → HasTls made.0
    Provisioned-HasTls flags made p =
        let same_config = ok_inj (sym p.is_read ∙ is_read) in
        let same_tls =
          some_inj.0 (sym p.has_tls ∙ ap (λ (c : Config). c.tls) same_config ∙ has_tls) in
        let same_listen = some_inj.0 (sym p.listens ∙ listens) in
        let same : (p.tls_config, p.listen) ≡ (tls_config, listen) =
          rw (same_tls, same_listen) refl in
        let reread =
          ap
            (λ (q : TlsConfig × String).
              from_file toml (λ x. read_to_string x (provision ca rounds q.0 q.1 m).1.disk) path)
            same in
        let same_config2 = ok_inj (sym p.is_read2 ∙ reread ∙ stays) in
        let has_tls2 = ap (λ (c : Config). c.tls) same_config2 ∙ has_tls ∙ ap some (sym same_tls) in
        let n = (provision ca rounds p.tls_config p.listen m).1 in
        let installed =
          Ends-eq-returns (λ q (u : Machine ca). IsNew ca p.tls_config q u.disk) _ _ n p.pair
            p.provisioned (provision-IsInstalled p.tls_config m rounds p.listen) in
        let (t, at, _) =
          build_state-Serves wasm rustls file_stem n.disk p.config2 p.tls_config p.pair flags made
            has_tls2 installed.0 p.built in
        (t, at)

    initial_state-HasTls :
        (built made : App env × Flags)
        → (initial_state env rounds path
            (is_some config.tls)
            config.server.http_challenge_listen
            built
            m).0
          ≡ returns made
        → HasTls made.0
    initial_state-HasTls built made h =
        let choose = λ (b : Bool).
          ((if b
              then provision_first env rounds path config.server.http_challenge_listen built.1
              else pure built)
            m).0
          ≡ returns made in
        elim (Option-cases built.0.tls) [
          | inl missing ↦
              let on : (is_some config.tls && not (is_some built.0.tls)) ≡ true =
                rw (has_tls, missing) refl in
              Provisioned-HasTls built.1 made
                (provision_first-Provisioned env rounds path _ built.1 m made (subst choose on h))
          | inr (t, cached) ↦
              let off : (is_some config.tls && not (is_some built.0.tls)) ≡ false =
                rw (has_tls, cached) refl in
              (
                t,
                ap (λ (x : App env × Flags). x.0.tls) (sym (returns-injective (subst choose off h)))
                    ∙ cached,
              )
        ]

    -- If `[tls]` and the challenges' address are configured, and provisioning leaves the
    -- configuration as it is, then `run_with_listener_hot` comes to its accept loop only with a
    -- state that has a TLS acceptor, whether the certificate was cached or had to be got: it does
    -- not begin to serve in the clear.
    pub run_with_listener_hot-HasTls :
        (modified : Option ℕ) (flags : Flags) (s : Started env)
        → (run_with_listener_hot env rounds path modified flags m).0 ≡ returns s
        → HasTls s.app
    run_with_listener_hot-HasTls modified flags s h =
        let steps = run_with_listener_hot-Steps env rounds path modified flags m s h in
        let same = ok_inj (sym is_read ∙ steps.is_read) in
        let initial =
          subst
            (λ (c : Config).
              (initial_state env rounds path (is_some c.tls) c.server.http_challenge_listen
                steps.built m).0
              ≡ returns (s.app, s.flags))
            (sym same) steps.initial in
        initial_state-HasTls steps.built (s.app, s.flags) initial
