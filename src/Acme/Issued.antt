-- ===== src/Acme/Issued.antt =====
-- When a certificate of acme.rs's `provision_with_store` is due again.
use mathlib.Core.Path.{subst}
use prismproxy.Prelude.{
  ℕ, ◌+◌, ◌%◌, ◌^◌, ◌<◌, String, ◌≡◌, refl, sym, ap, ◌∙◌, some, [], show, ltb, arith,
  parse_u64-trim-show, Result-cases, inl, inr,
}
use prismproxy.Exec.{Flow, returns, fails, panics, elapsed, Exec, pure, returns-injective, ◌>>=◌}
use prismproxy.Exec.Hoare.{Ends, Hoare, Hoare-bind}
use prismproxy.Config.{TlsConfig}
use prismproxy.State.{join}
use prismproxy.Disk.{Disk, write, exists, read_to_string}
use prismproxy.Disk.Laws.{file, file-write, file-remove_other}
use prismproxy.Acme.Base.{Ca, Machine, call, on_disk, seconds_now}
use prismproxy.Acme.Steps.{
  begin_order, store_challenges, set_ready, until_ready, until_downloaded, request_certificate,
}
use prismproxy.Acme.Installed.{IsInstalled, IsNew}
use prismproxy.Acme.Outcome.{provision_with_store-IsInstalled}
use prismproxy.Acme.Renewal.{cert_needs_renewal}
use prismproxy.Acme.{
  install, provision_inner_with_store, lock, clean_up, cleaning, clear_store, clearing,
  provision_with_store,
}

-- With a certificate and the moment of its issue on the disk, it is due after 60 days.
cert_needs_renewal-issued :
    (cache cert : String) (issued now : ℕ) (d : Disk)
    → issued + 5_184_000 < 2 ^ 64
    → file cache "cert.pem" d ≡ some cert
    → file cache "issued_at" d ≡ some (show issued)
    → cert_needs_renewal cache now d ≡ ltb (issued + 5_184_000) now
unfolding cert_needs_renewal exists read_to_string
cert_needs_renewal-issued cache cert issued now d fits there stamped =
    let whole : (issued + 5_184_000) % 2 ^ 64 ≡ issued + 5_184_000 = omega arith in
    rw (there, stamped, parse_u64-trim-show issued (omega arith), whole) refl

module _ {ca : Ca} where
  abbrev IsNow : ℕ → Machine ca → Type 0
  IsNow time m = time ≡ ca.unix_time m.world

  reading : Hoare (λ (m : Machine ca). Unit {0}) seconds_now IsNow (λ m. Unit {0})
  reading = record { run = λ m h. refl }

module _ {ca : Ca} (cache : String) where
  abbrev IsStamped : Machine ca → Type 0
  IsStamped m = file cache "issued_at" m.disk ≡ some (show (ca.unix_time m.world))

  abbrev Stamps : {A : Type 0} → Exec (Machine ca) A → Type 0
  Stamps {A} body = Hoare (λ m. Unit {0}) body (λ (a : A). IsStamped) (λ m. Unit {0})

  Ends-anyhow :
      {A : Type 0} (r : Flow A) (m : Machine ca) → Ends (λ (a : A) m. Unit {0}) (λ m. Unit {0}) r m
  Ends-anyhow (returns a) m = tt
  Ends-anyhow (fails e) m = tt
  Ends-anyhow panics m = tt
  Ends-anyhow elapsed m = tt

  -- Whatever comes before.
  then-Stamps :
      {A B : Type 0} (body : Exec (Machine ca) A) (rest : A → Exec (Machine ca) B)
      → ((a : A) → Stamps (rest a))
      → Stamps (body >>= rest)
  then-Stamps body rest h =
      Hoare-bind body rest (record { run = λ m u. Ends-anyhow (body m).0 (body m).1 }) h

  -- The moment is written, and the clock of the world stands still meanwhile.
  writing :
      (time : ℕ)
      → Hoare
          (IsNow time)
          (on_disk "write issued_at: " (write (join cache "issued_at") (show time)))
          (λ u. IsStamped)
          (λ m. Unit {0})
  writing time = record {
    run = λ m at. elim (Result-cases (write (join cache "issued_at") (show time) m.disk).0) [
      | inl (u, done) ↦
          rw done
            (file-write cache "issued_at" (show time) m.disk done ∙ ap (λ t. some (show t)) at)
      | inr (e, broken) ↦ rw broken tt
    ];
  }

  done-Stamps :
      {A : Type 0} (a : A) → Hoare IsStamped (pure a) (λ (x : A). IsStamped) (λ m. Unit {0})
  done-Stamps a = record { run = λ m h. h }

  -- What is done with an end that keeps the world and the file keeps the stamp.
  Ends-IsStamped :
      {A : Type 0} (r : Flow A) (m n : Machine ca)
      → n.world ≡ m.world
      → file cache "issued_at" n.disk ≡ file cache "issued_at" m.disk
      → Ends (λ (a : A). IsStamped) (λ m. Unit {0}) r m
      → Ends (λ (a : A). IsStamped) (λ m. Unit {0}) r n
  Ends-IsStamped (returns a) m n world same h =
      same ∙ h ∙ ap (λ w. some (show (ca.unix_time w))) (sym world)
  Ends-IsStamped (fails e) m n world same h = tt
  Ends-IsStamped panics m n world same h = tt
  Ends-IsStamped elapsed m n world same h = tt

  clean_up-world :
      {A : Type 0} (r : Flow A) (m : Machine ca) → (clean_up ca cache r m).1.world ≡ m.world
  clean_up-world (returns a) m = refl
  clean_up-world (fails e) m = refl
  clean_up-world panics m = refl
  clean_up-world elapsed m = refl

  clean_up-issued_at :
      {A : Type 0} (r : Flow A) (m : Machine ca)
      → file cache "issued_at" (clean_up ca cache r m).1.disk ≡ file cache "issued_at" m.disk
  clean_up-issued_at (returns a) m = file-remove_other cache ".renewing" "issued_at" m.disk refl
  clean_up-issued_at (fails e) m =
      file-remove_other cache "key.pem.tmp" "issued_at" _ refl
      ∙ file-remove_other cache "cert.pem.tmp" "issued_at" _ refl
      ∙ file-remove_other cache ".renewing" "issued_at" m.disk refl
  clean_up-issued_at panics m = refl
  clean_up-issued_at elapsed m = refl

  cleaning-Stamps :
      {A : Type 0} (body : Exec (Machine ca) A) → Stamps body → Stamps (cleaning ca cache body)
  unfolding cleaning
  cleaning-Stamps body h = record {
    run = λ m u.
        let r = body m in
        Ends-IsStamped r.0 r.1 _ (clean_up-world r.0 r.1) (clean_up-issued_at r.0 r.1) (h.run m u);
  }

  -- So does the store's being cleared.
  Ends-cleared :
      {A : Type 0} (r : Flow A) (m : Machine ca)
      → Ends (λ (a : A). IsStamped) (λ m. Unit {0}) r m
      → Ends (λ (a : A). IsStamped) (λ m. Unit {0}) r (clear_store ca r m)
  Ends-cleared (returns a) m h = h
  Ends-cleared (fails e) m h = tt
  Ends-cleared panics m h = tt
  Ends-cleared elapsed m h = tt

  clearing-Stamps :
      {A : Type 0} (body : Exec (Machine ca) A) → Stamps body → Stamps (clearing ca body)
  clearing-Stamps body h = record { run = λ m u. Ends-cleared (body m).0 (body m).1 (h.run m u) }

module _ {ca : Ca} (tls_config : TlsConfig) where
  open ca use {authorizations, serialize_pem}

  inner-Stamps : Stamps {ca = ca} tls_config.cache_dir (provision_inner_with_store ca tls_config)
  unfolding provision_inner_with_store
  inner-Stamps =
      let cache = tls_config.cache_dir in
      then-Stamps cache (begin_order ca tls_config) _ λ order.
        then-Stamps cache (call "get authorizations: " (authorizations order)) _ λ auths.
          then-Stamps cache (store_challenges ca order auths []) _ λ urls.
            then-Stamps cache (set_ready ca order urls) _ λ _.
              then-Stamps cache (until_ready ca order) _ λ _.
                then-Stamps cache (request_certificate ca tls_config.domains order) _ λ key_pair.
                  then-Stamps cache (until_downloaded ca order) _ λ cert.
                    then-Stamps cache (install ca cache cert (serialize_pem key_pair)) _ λ _.
                      Hoare-bind seconds_now _ reading λ time.
                        Hoare-bind
                          (on_disk "write issued_at: " (write (join cache "issued_at") (show time)))
                          _ (writing cache time)
                          λ _. done-Stamps cache (cert, serialize_pem key_pair)

  whole-Stamps : Stamps {ca = ca} tls_config.cache_dir (provision_with_store ca tls_config)
  unfolding provision_with_store
  whole-Stamps =
      let cache = tls_config.cache_dir in
      then-Stamps cache (lock ca cache) _ λ _.
        clearing-Stamps cache (cleaning ca cache (provision_inner_with_store ca tls_config))
          (cleaning-Stamps cache (provision_inner_with_store ca tls_config) inner-Stamps)

  -- What the whole says of an end that returned.
  Ends-due :
      (r : Flow (String × String)) (n : Machine ca) (pair : String × String)
      (E : Machine ca → Type 0)
      → r ≡ returns pair
      → Ends (λ (p : String × String). IsStamped tls_config.cache_dir) (λ m. Unit {0}) r n
      → Ends (λ p (u : Machine ca). IsNew ca tls_config p u.disk) E r n
      → IsStamped tls_config.cache_dir n × IsInstalled tls_config.cache_dir pair n.disk
  Ends-due (returns p) n pair E h stamped installed = (
    stamped,
    subst (λ q. IsInstalled tls_config.cache_dir q n.disk) (returns-injective h) installed.0,
  )
  Ends-due (fails e) n pair E h stamped installed = cc
  Ends-due panics n pair E h stamped installed = cc
  Ends-due elapsed n pair E h stamped installed = cc

  -- Once `provision_with_store` returned, the certificate is due again when 60 days have passed
  -- since the moment of its end, and not before, for as long as the files stay. The sum is no more
  -- than a `u64` holds.
  pub provision_with_store-due :
      (m : Machine ca) (pair : String × String) (now : ℕ)
      → (provision_with_store ca tls_config m).0 ≡ returns pair
      → ca.unix_time (provision_with_store ca tls_config m).1.world + 5_184_000 < 2 ^ 64
      → cert_needs_renewal tls_config.cache_dir now (provision_with_store ca tls_config m).1.disk
        ≡ ltb (ca.unix_time (provision_with_store ca tls_config m).1.world + 5_184_000) now
  provision_with_store-due m pair now returned fits =
      let r = provision_with_store ca tls_config m in
      let (stamped, installed) =
        Ends-due r.0 r.1 pair _ returned (whole-Stamps.run m tt)
          (provision_with_store-IsInstalled tls_config m) in
      cert_needs_renewal-issued tls_config.cache_dir pair.0 _ now r.1.disk fits
        (ap (λ p. p.0) installed) stamped
