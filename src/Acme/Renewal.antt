-- ===== src/Acme/Renewal.antt =====
-- acme.rs: `cert_needs_renewal`, and one round of `renewal_loop`.
use prismproxy.Prelude.{
  ℕ, ◌+◌, ◌%◌, ◌^◌, String, Bool, true, false, Option, none, some, List, [], ◌∷◌, ltb,
  if◌then◌else◌, trim, parse_u64, Result, ok, err,
}
use prismproxy.Errors.{ProxyError}
use prismproxy.Exec.{Flow, returns, fails, panics, elapsed, Exec}
use prismproxy.Config.{Config, TlsConfig, from_file}
use prismproxy.Plugin.{Wasm}
use prismproxy.Tls.{Rustls}
use prismproxy.State.{Flags, AppState, build_state, join}
use prismproxy.Disk.{Disk, exists, read_to_string, files_of}
use prismproxy.Acme.Base.{Ca, Machine}
use prismproxy.Acme.{provision, provision_with_store}

abbrev or_zero : Option ℕ → ℕ
or_zero none = 0
or_zero (some n) = n

-- What the text of `issued_at` means, if it can be read.
abbrev pub issued_at : Result String String → ℕ
issued_at (ok text) = or_zero (parse_u64 (trim text))
issued_at (err e) = 0

-- `cert_needs_renewal`, at `now` seconds since the epoch. The sum is a `u64`.
unfoldable pub cert_needs_renewal : String → ℕ → Disk → Bool
cert_needs_renewal cache now d =
    if exists (join cache "cert.pem") d
    then ltb ((issued_at (read_to_string (join cache "issued_at") d) + 5_184_000) % 2 ^ 64) now
    else true

module _ (wasm : Wasm) (rustls : Rustls) (file_stem : String → Option String)
    (toml : String → Result Config String) (ca : Ca) where
  -- The published state, with the flags that have been made.
  abbrev pub Published : Type 0
  Published = AppState wasm rustls × Flags

  -- What a round leaves: how it ended, what it acted on, and the published state.
  abbrev pub Round : Type 0
  Round = (Flow (Unit {0}) × Machine ca) × Published

  -- The `match` on `build_state`.
  abbrev pub replace : Result Published ProxyError → Published → Published
  replace (ok new) p = new
  replace (err e) p = p

  -- The `match` on the result of the provisioning.
  abbrev pub renewed : Config → Flow (String × String) → Machine ca → Published → Round
  renewed config (returns pair) m p =
      ((returns tt, m), replace (build_state wasm rustls file_stem (files_of m.disk) config p.1) p)
  renewed config (fails e) m p = ((returns tt, m), p)
  renewed config panics m p = ((panics, m), p)
  renewed config elapsed m p = ((elapsed, m), p)

  -- `provision_with_store` if there is a store, else `provision` if there is an address for it.
  abbrev pub provision_by :
      ℕ → Bool → TlsConfig → Option String → Option (Exec (Machine ca) (String × String))
  provision_by rounds true tls_config listen = some (provision_with_store ca tls_config)
  provision_by rounds false tls_config none = none
  provision_by rounds false tls_config (some listen) = some (provision ca rounds tls_config listen)

  abbrev pub renew :
      Config → Option (Exec (Machine ca) (String × String)) → Machine ca → Published → Round
  renew config none m p = ((returns tt, m), p)
  renew config (some provisioning) m p = let r = provisioning m in renewed config r.0 r.1 p

  abbrev pub if_due : ℕ → Bool → Config → Option TlsConfig → Machine ca → Published → Round
  if_due rounds stored config none m p = ((returns tt, m), p)
  if_due rounds stored config (some tls_config) m p =
      if cert_needs_renewal tls_config.cache_dir (ca.unix_time m.world) m.disk
      then renew config (provision_by rounds stored tls_config config.server.http_challenge_listen)
          m p
      else ((returns tt, m), p)

  abbrev pub if_read : ℕ → Bool → Result Config ProxyError → Machine ca → Published → Round
  if_read rounds stored (ok config) m p = if_due rounds stored config config.tls m p
  if_read rounds stored (err e) m p = ((returns tt, m), p)

  -- One round of `renewal_loop`; `stored` tells whether it has a store for its challenges.
  unfoldable pub renewal_tick : ℕ → Bool → String → Machine ca → Published → Round
  renewal_tick rounds stored config_path m p =
      if_read rounds stored (from_file toml (λ path. read_to_string path m.disk) config_path) m p

  -- The rounds of the loop, each with the machine as it finds it, until one panics or is dropped.
  unfoldable pub renewal_loop : ℕ → Bool → String → List (Machine ca) → Published → Published
  unfolding renewal_tick
  renewal_loop rounds stored config_path [] p = p
  renewal_loop rounds stored config_path (m ∷ ms) p =
      let r = renewal_tick rounds stored config_path m p in
      elim r.0.0 [ returns u ↦ renewal_loop rounds stored config_path ms r.1 | _ ↦ r.1 ]
