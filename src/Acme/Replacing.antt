-- ===== src/Acme/Replacing.antt =====
-- What acme.rs's renewal publishes.
use prismproxy.Prelude.{
  ℕ, String, ◌≡◌, refl, sym, ap, ◌∙◌, Bool, true, false, Bool-cases, Option, none, some, ◌⊎◌, inl,
  inr, Result, ok, err, Result-cases, ok_inj, >>=-eq-ok, ◌>>=◌,
}
use prismproxy.Errors.{ProxyError}
use prismproxy.Exec.{Exec, Flow, returns, fails, panics, elapsed}
use prismproxy.Exec.Hoare.{Ends}
use prismproxy.Config.{Config, TlsConfig, from_file}
use prismproxy.Plugin.{Wasm}
use prismproxy.Tls.{Rustls, TlsState, build_tls_state}
use prismproxy.State.{Flags, AppState, build_routes, load_tls, build_state}
use prismproxy.Disk.{Disk, exists, read_to_string, files_of}
use prismproxy.Disk.Laws.{file}
use prismproxy.Acme.Base.{Ca, Machine}
use prismproxy.Acme.Installed.{IsInstalled, IsNew}
use prismproxy.Acme.{provision, provision_with_store}
use prismproxy.Acme.Outcome.{provision-IsInstalled, provision_with_store-IsInstalled}
use prismproxy.Acme.Renewal.{
  cert_needs_renewal, Published, Round, renewed, provision_by, renew, if_due, if_read, renewal_tick,
}

module _ (wasm : Wasm) (rustls : Rustls) (file_stem : String → Option String) (d : Disk) where
  -- With the pair on the disk, it is the pair that is loaded.
  pub load_tls-installed :
      (tls_config : TlsConfig) (pair : String × String)
      → IsInstalled tls_config.cache_dir pair d
      → load_tls wasm rustls file_stem (files_of d) (some tls_config)
        ≡ (build_tls_state rustls tls_config pair.0 pair.1 >>= λ state. ok (some state))
  unfolding load_tls exists read_to_string
  load_tls-installed tls_config pair installed =
      let cert : file tls_config.cache_dir "cert.pem" d ≡ some pair.0 = ap (λ p. p.0) installed in
      let key : file tls_config.cache_dir "key.pem" d ≡ some pair.1 = ap (λ p. p.1) installed in
      rw (cert, key) refl

  -- The state that is built has the acceptor of the pair.
  abbrev pub Serves : TlsConfig → String × String → AppState wasm rustls → Type 0
  Serves tls_config pair app =
      (t : TlsState rustls) × (app.tls ≡ some t)
      × (build_tls_state rustls tls_config pair.0 pair.1 ≡ ok t)

  pub build_state-Serves :
      (config : Config) (tls_config : TlsConfig) (pair : String × String) (flags : Flags)
      (new : AppState wasm rustls × Flags)
      → config.tls ≡ some tls_config
      → IsInstalled tls_config.cache_dir pair d
      → build_state wasm rustls file_stem (files_of d) config flags ≡ ok new
      → Serves tls_config pair new.0
  unfolding build_state
  build_state-Serves config tls_config pair flags new has_tls installed built =
      let (routes, _, h) =
        >>=-eq-ok (build_routes wasm rustls file_stem config.routes flags) _ built in
      let (loaded, at, made) =
        >>=-eq-ok (load_tls wasm rustls file_stem (files_of d) config.tls) _ h in
      let from_pair =
        sym (load_tls-installed tls_config pair installed)
        ∙ ap (load_tls wasm rustls file_stem (files_of d)) (sym has_tls)
        ∙ at in
      let (t, from, whole) =
        >>=-eq-ok (build_tls_state rustls tls_config pair.0 pair.1) _ from_pair in
      (
        t,
        ap (λ (n : AppState wasm rustls × Flags). n.0.tls) (sym (ok_inj made)) ∙ sym (ok_inj whole),
        from,
      )

module _ (wasm : Wasm) (rustls : Rustls) (file_stem : String → Option String)
    (toml : String → Result Config String) (ca : Ca) where
  -- A round replaces the published state only after a certificate was due, its provisioning returned
  -- a pair which came from the CA and which is on the disk, and the new state was built with it.
  pub record Replaces (rounds : ℕ) (stored : Bool) (r : Flow (Unit {0}) × Machine ca)
      (read : Result Config ProxyError) (m : Machine ca)
      (old new : Published wasm rustls file_stem toml ca) : Type 0 where
    pub config : Config
    pub tls_config : TlsConfig
    pub pair : String × String
    pub is_read : read ≡ ok config
    pub has_tls : config.tls ≡ some tls_config
    pub due : cert_needs_renewal tls_config.cache_dir (ca.unix_time m.world) m.disk ≡ true
    pub provisioning : Exec (Machine ca) (String × String)
    pub by :
        provision_by wasm rustls file_stem toml ca rounds stored tls_config
          config.server.http_challenge_listen
        ≡ some provisioning
    pub got : provisioning m ≡ (returns pair, r.1)
    pub is_new : IsNew ca tls_config pair r.1.disk
    pub built : build_state wasm rustls file_stem (files_of r.1.disk) config old.1 ≡ ok new
    pub serves : Serves wasm rustls file_stem r.1.disk tls_config pair new.0

  -- A round keeps the published state or replaces it.
  abbrev pub KeepsOrReplaces :
      ℕ
      → Bool
      → Result Config ProxyError
      → Machine ca
      → Published wasm rustls file_stem toml ca
      → Round wasm rustls file_stem toml ca
      → Type 0
  KeepsOrReplaces rounds stored read m old r =
      (r.1 ≡ old) ⊎ Replaces rounds stored r.0 read m old r.1

  module _ (m : Machine ca) (old : Published wasm rustls file_stem toml ca) (config : Config)
      (tls_config : TlsConfig) (has_tls : config.tls ≡ some tls_config)
      (due : cert_needs_renewal tls_config.cache_dir (ca.unix_time m.world) m.disk ≡ true) where
    renewed-Replaces :
        (rounds : ℕ) (stored : Bool) (provisioning : Exec (Machine ca) (String × String))
        → provision_by wasm rustls file_stem toml ca rounds stored tls_config
            config.server.http_challenge_listen
          ≡ some provisioning
        → (E : Machine ca → Type 0) (f : Flow (String × String)) (n : Machine ca)
        → provisioning m ≡ (f, n)
        → Ends (λ pair (u : Machine ca). IsNew ca tls_config pair u.disk) E f n
        → KeepsOrReplaces rounds stored
            (ok config)
            m
            old
            (renewed wasm rustls file_stem toml ca config f n old)
    renewed-Replaces rounds stored provisioning by E (returns pair) n got h =
        elim (Result-cases (build_state wasm rustls file_stem (files_of n.disk) config old.1)) [
          | inl (new, built) ↦ rw built (
              inr (record {
                config = config;
                tls_config = tls_config;
                pair = pair;
                is_read = refl;
                has_tls = has_tls;
                due = due;
                provisioning = provisioning;
                by = by;
                got = got;
                is_new = h;
                built = built;
                serves =
                    build_state-Serves wasm rustls file_stem n.disk config tls_config pair old.1 new
                      has_tls h.0 built;
              }))
          | inr (e, refused) ↦ rw refused (inl refl)
        ]
    renewed-Replaces rounds stored provisioning by E (fails e) n got h = inl refl
    renewed-Replaces rounds stored provisioning by E panics n got h = inl refl
    renewed-Replaces rounds stored provisioning by E elapsed n got h = inl refl

    renew-Replaces :
        (rounds : ℕ) (stored : Bool) (listen : Option String)
        → config.server.http_challenge_listen ≡ listen
        → KeepsOrReplaces rounds stored (ok config) m old (
            renew wasm rustls file_stem toml ca config
              (provision_by wasm rustls file_stem toml ca rounds stored tls_config listen)
              m
              old)
    renew-Replaces rounds true listen at =
        renewed-Replaces rounds true (provision_with_store ca tls_config) refl _ _ _ refl
          (provision_with_store-IsInstalled tls_config m)
    renew-Replaces rounds false none at = inl refl
    renew-Replaces rounds false (some listen) at =
        renewed-Replaces rounds false (provision ca rounds tls_config listen) (rw at refl) _ _ _
          refl (provision-IsInstalled tls_config m rounds listen)

  module _ (m : Machine ca) (old : Published wasm rustls file_stem toml ca) where
    if_due-Replaces :
        (rounds : ℕ) (stored : Bool) (config : Config) (o : Option TlsConfig)
        → config.tls ≡ o
        → KeepsOrReplaces rounds stored
            (ok config)
            m
            old
            (if_due wasm rustls file_stem toml ca rounds stored config o m old)
    if_due-Replaces rounds stored config none at = inl refl
    if_due-Replaces rounds stored config (some tls_config) at =
        elim (Bool-cases (cert_needs_renewal tls_config.cache_dir (ca.unix_time m.world) m.disk)) [
          | inl due ↦ rw due (
              renew-Replaces m old config tls_config at due rounds stored
                config.server.http_challenge_listen refl)
          | inr not_due ↦ rw not_due (inl refl)
        ]

    if_read-Replaces :
        (rounds : ℕ) (stored : Bool) (read : Result Config ProxyError)
        → KeepsOrReplaces rounds stored read m old
            (if_read wasm rustls file_stem toml ca rounds stored read m old)
    if_read-Replaces rounds stored (ok config) =
        if_due-Replaces rounds stored config config.tls refl
    if_read-Replaces rounds stored (err e) = inl refl

    -- A round of the renewal, whatever write, rename or removal fails in it, keeps the published
    -- state, or replaces it by one of the configuration on the disk: then a certificate was due, the
    -- round's own call of `provision_with_store`, or of `provision` if there is no store, returned
    -- a certificate and a key, the certificate is what the CA gave for an order for the configured
    -- domains that was finalized with a request of that key, both are on the disk, and the new state
    -- serves them.
    pub renewal_tick-Replaces :
        (rounds : ℕ) (stored : Bool) (config_path : String)
        → KeepsOrReplaces rounds stored
            (from_file toml (λ path. read_to_string path m.disk) config_path)
            m
            old
            (renewal_tick wasm rustls file_stem toml ca rounds stored config_path m old)
    unfolding renewal_tick
    renewal_tick-Replaces rounds stored config_path = if_read-Replaces rounds stored _
