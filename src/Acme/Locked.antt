-- ===== src/Acme/Locked.antt =====
-- acme.rs's renewal where a lock file was left behind.
use mathlib.Core.Path.{subst}
use prismproxy.Prelude.{
  ℕ, String, ◌≡◌, refl, sym, ap, ◌∙◌, Bool, true, false, Bool-cases, inl, inr, Option, none, some,
  Result, Result-cases, ok,
}
use prismproxy.Errors.{ProxyError}
use prismproxy.Exec.{returns, fails, Exec, continue}
use prismproxy.Config.{Config, TlsConfig, from_file, is_some}
use prismproxy.Plugin.{Wasm}
use prismproxy.Tls.{Rustls}
use prismproxy.State.{join}
use prismproxy.Disk.{exists, read_to_string, create_dir_all}
use prismproxy.Disk.Laws.{file-create_dir_all}
use prismproxy.Acme.Base.{Ca, Machine, failure}
use prismproxy.Acme.Pair.{pair_of, pair-create_dir_all}
use prismproxy.Acme.{
  provision_inner, provision_inner_with_store, lock_unless, lock, cleaning, clearing, provision,
  provision_with_store, in_progress,
}
use prismproxy.Acme.Renewal.{
  cert_needs_renewal, Published, Round, provision_by, renewed, renew, if_due, if_read, renewal_tick,
}

module _ {ca : Ca} (m : Machine ca) where
  -- Where a provisioning ends that finds the lock file.
  abbrev refused : Machine ca
  refused = record m { disk = (create_dir_all m.disk).1 }

  -- The provisioning ends with an error, having done nothing but to make sure of the directory.
  abbrev Refuses : {A : Type 0} → Exec (Machine ca) A → Type 0
  Refuses body = (e : ProxyError) × (body m ≡ (fails e, refused))

  module _ (cache : String) (locked : exists (join cache ".renewing") m.disk ≡ true) where
    still_locked : exists (join cache ".renewing") refused.disk ≡ true
    unfolding exists
    still_locked = ap is_some (file-create_dir_all cache ".renewing" m.disk) ∙ locked

    lock-Refuses : Refuses (lock ca cache)
    lock-Refuses = elim (Result-cases (create_dir_all m.disk).0) [
      | inl (u, done) ↦ (
        in_progress ca,
        rw done (ap (λ b. lock_unless ca b (join cache ".renewing") refused) still_locked),
      )
      | inr (e, broken) ↦ (failure "create cache_dir: " e, rw broken refl)
    ]

    then-Refuses :
        {A : Type 0} (rest : Unit {0} → Exec (Machine ca) A)
        → (e : ProxyError) × ((continue (lock ca cache m).0 rest (lock ca cache m).1)
            ≡ (fails e, refused))
    then-Refuses rest = let (e, h) = lock-Refuses in (e, ap (λ r. continue r.0 rest r.1) h)

  module _ (tls_config : TlsConfig)
      (locked : exists (join tls_config.cache_dir ".renewing") m.disk ≡ true) where
    provision_with_store-Refuses : Refuses (provision_with_store ca tls_config)
    unfolding provision_with_store
    provision_with_store-Refuses = then-Refuses tls_config.cache_dir locked λ u.
        clearing ca (cleaning ca tls_config.cache_dir (provision_inner_with_store ca tls_config))

    provision-Refuses :
        (rounds : ℕ) (listen : String) → Refuses (provision ca rounds tls_config listen)
    unfolding provision
    provision-Refuses rounds listen =
        then-Refuses tls_config.cache_dir locked
          λ u. cleaning ca tls_config.cache_dir (provision_inner ca rounds tls_config listen)

module _ (wasm : Wasm) (rustls : Rustls) (file_stem : String → Option String)
    (toml : String → Result Config String) (ca : Ca) where
  -- The round is over and the loop goes on; the published state, the certificate with its key, and
  -- the lock file are as they were.
  pub record IsStuck (cache : String) (m : Machine ca)
      (old : Published wasm rustls file_stem toml ca) (r : Round wasm rustls file_stem toml ca)
      : Type 0 where
    pub goes_on : r.0.0 ≡ returns tt
    pub published : r.1 ≡ old
    pub installed : pair_of cache r.0.1.disk ≡ pair_of cache m.disk
    pub locked : exists (join cache ".renewing") r.0.1.disk ≡ true

  module _ (rounds : ℕ) (m : Machine ca) (old : Published wasm rustls file_stem toml ca)
      (config : Config) (tls_config : TlsConfig)
      (locked : exists (join tls_config.cache_dir ".renewing") m.disk ≡ true) where
    kept : IsStuck tls_config.cache_dir m old ((returns tt, m), old)
    kept = record { goes_on = refl; published = refl; installed = refl; locked = locked }

    refused-IsStuck :
        (body : Exec (Machine ca) (String × String))
        → Refuses m body
        → IsStuck tls_config.cache_dir m old
            (renew wasm rustls file_stem toml ca config (some body) m old)
    refused-IsStuck body (e, h) =
        subst
          (λ r.
            IsStuck tls_config.cache_dir m old
              (renewed wasm rustls file_stem toml ca config r.0 r.1 old))
          (sym h)
          (record {
            goes_on = refl;
            published = refl;
            installed = pair-create_dir_all tls_config.cache_dir m.disk;
            locked = still_locked m tls_config.cache_dir locked;
          })

    renew-IsStuck :
        (stored : Bool) (listen : Option String)
        → IsStuck tls_config.cache_dir m old (
            renew wasm rustls file_stem toml ca config
              (provision_by wasm rustls file_stem toml ca rounds stored tls_config listen)
              m
              old)
    renew-IsStuck true listen =
        refused-IsStuck (provision_with_store ca tls_config)
          (provision_with_store-Refuses m tls_config locked)
    renew-IsStuck false none = kept
    renew-IsStuck false (some listen) =
        refused-IsStuck (provision ca rounds tls_config listen)
          (provision-Refuses m tls_config locked rounds listen)

    if_due-IsStuck :
        (stored : Bool)
        → IsStuck tls_config.cache_dir m old
            (if_due wasm rustls file_stem toml ca rounds stored config (some tls_config) m old)
    if_due-IsStuck stored =
        elim (Bool-cases (cert_needs_renewal tls_config.cache_dir (ca.unix_time m.world) m.disk)) [
          | inl due ↦ rw due (renew-IsStuck stored config.server.http_challenge_listen)
          | inr not_due ↦ rw not_due kept
        ]

    -- A round that reads a configuration with `[tls]` and finds a lock file does not renew, whether
    -- a certificate is due or not and whether the loop has a store or not: it publishes nothing,
    -- leaves the certificate and its key as they are, leaves the lock file, and lets the loop go
    -- on.
    pub renewal_tick-IsStuck :
        (stored : Bool) (path : String)
        → from_file toml (λ p. read_to_string p m.disk) path ≡ ok config
        → config.tls ≡ some tls_config
        → IsStuck tls_config.cache_dir m old
            (renewal_tick wasm rustls file_stem toml ca rounds stored path m old)
    unfolding renewal_tick
    renewal_tick-IsStuck stored path is_read has_tls =
        let whole =
          ap (λ x. if_read wasm rustls file_stem toml ca rounds stored x m old) is_read
          ∙ ap (λ x. if_due wasm rustls file_stem toml ca rounds stored config x m old) has_tls in
        subst (IsStuck tls_config.cache_dir m old) (sym whole) (if_due-IsStuck stored)
