-- ===== src/Acme/Renews.antt =====
-- A round of acme.rs's `renewal_loop` renews with a CA that does its part.
use mathlib.Core.Path.{subst}
use prismproxy.Prelude.{
  ℕ, String, ◌≡◌, refl, sym, ap, ◌∙◌, true, false, Option, some, Result, ok, if◌then◌else◌,
}
use prismproxy.Exec.{returns}
use prismproxy.Config.{Config, TlsConfig, from_file}
use prismproxy.Plugin.{Wasm}
use prismproxy.Tls.{Rustls}
use prismproxy.State.{Flags, AppState, build_state, join}
use prismproxy.Disk.{Disk, exists, read_to_string, files_of}
use prismproxy.Disk.Fates.{IsFair}
use prismproxy.Acme.Base.{Ca, Machine}
use prismproxy.Acme.{provision_with_store}
use prismproxy.Acme.Installed.{IsInstalled}
use prismproxy.Acme.Polling.{ClockLaws}
use prismproxy.Acme.Contract.{IsObliging}
use prismproxy.Acme.Success.{provision_with_store-returns}
use prismproxy.Acme.Renewal.{
  cert_needs_renewal, Published, Round, replace, renewed, if_due, if_read, renewal_tick,
}
use prismproxy.Acme.Replacing.{Replaces, build_state-Serves}

module _ (wasm : Wasm) (rustls : Rustls) (file_stem : String → Option String)
    (toml : String → Result Config String) {ca : Ca} (laws : ClockLaws ca) (o : IsObliging ca)
    (rounds : ℕ) (path : String) (m : Machine ca) (old : Published wasm rustls file_stem toml ca)
    (config : Config) (tls_config : TlsConfig) where
  -- The round, up to the result of the provisioning.
  renewal_tick-renewed :
      (pair : String × String)
      → from_file toml (λ p. read_to_string p m.disk) path ≡ ok config
      → config.tls ≡ some tls_config
      → cert_needs_renewal tls_config.cache_dir (ca.unix_time m.world) m.disk ≡ true
      → (provision_with_store ca tls_config m).0 ≡ returns pair
      → renewal_tick wasm rustls file_stem toml ca rounds true path m old
        ≡ renewed wasm rustls file_stem toml ca config
            (returns pair)
            (provision_with_store ca tls_config m).1
            old
  unfolding renewal_tick
  renewal_tick-renewed pair is_read has_tls due got =
      let r = provision_with_store ca tls_config m in
      let kept : Round wasm rustls file_stem toml ca = ((returns tt, m), old) in
      let on = renewed wasm rustls file_stem toml ca config r.0 r.1 old in
      ap (λ x. if_read wasm rustls file_stem toml ca rounds true x m old) is_read
      ∙ ap (λ x. if_due wasm rustls file_stem toml ca rounds true config x m old) has_tls
      ∙ ap (λ b. if b then on else kept) due
      ∙ ap (λ f. renewed wasm rustls file_stem toml ca config f r.1 old) got

  -- A round that reads a configuration with `[tls]` and finds the certificate due replaces the
  -- published state by one that serves the certificate and the key that its own call of
  -- `provision_with_store` returned, which are on the disk, and of which the CA gave the certificate
  -- for an order for the configured domains that was finalized with a request of the key: if the
  -- loop has a store, the CA does its part in time, the clock does not go back and sleeps last,
  -- nothing goes wrong with the files, there is no lock file, and a state can be built with whatever
  -- pair is installed.
  pub renewal_tick-renews :
      from_file toml (λ p. read_to_string p m.disk) path ≡ ok config
      → config.tls ≡ some tls_config
      → cert_needs_renewal tls_config.cache_dir (ca.unix_time m.world) m.disk ≡ true
      → IsFair m.disk
      → exists (join tls_config.cache_dir ".renewing") m.disk ≡ false
      → ((pair : String × String) (d : Disk)
          → IsInstalled tls_config.cache_dir pair d
          → (new : AppState wasm rustls × Flags) × (build_state wasm rustls file_stem
                (files_of d)
                config
                old.1
              ≡ ok new))
      → let r = renewal_tick wasm rustls file_stem toml ca rounds true path m old in
        Replaces wasm rustls file_stem toml ca rounds true r.0 (ok config) m old r.1
  renewal_tick-renews is_read has_tls due fair free builds =
      let n = (provision_with_store ca tls_config m).1 in
      let (pair, got, is_new) = provision_with_store-returns laws o tls_config m fair free in
      let (new, built) = builds pair n.disk is_new.0 in
      let whole =
        renewal_tick-renewed pair is_read has_tls due got
        ∙ ap (λ x. ((returns tt, n), replace wasm rustls file_stem toml ca x old)) built in
      subst
        (λ (r : Round wasm rustls file_stem toml ca).
          Replaces wasm rustls file_stem toml ca rounds true r.0 (ok config) m old r.1)
        (sym whole)
        (record {
          config = config;
          tls_config = tls_config;
          pair = pair;
          is_read = refl;
          has_tls = has_tls;
          due = due;
          provisioning = provision_with_store ca tls_config;
          by = refl;
          got = rw got refl;
          is_new = is_new;
          built = built;
          serves =
              build_state-Serves wasm rustls file_stem n.disk config tls_config pair old.1 new
                has_tls is_new.0 built;
        })
