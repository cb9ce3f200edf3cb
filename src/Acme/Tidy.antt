-- ===== src/Acme/Tidy.antt =====
-- What acme.rs's `provision` leaves behind on a disk on which nothing goes wrong.
use prismproxy.Prelude.{ℕ, String, ◌≡◌, refl, ap, ◌∙◌, false, none}
use prismproxy.Exec.{Flow, returns, fails, panics, elapsed}
use prismproxy.Exec.Hoare.{Ends}
use prismproxy.Config.{TlsConfig, is_some}
use prismproxy.State.{join}
use prismproxy.Disk.{Disk, write, remove_file, exists, create_dir_all}
use prismproxy.Disk.Laws.{file, file-remove, file-remove_other, file-create_dir_all}
use prismproxy.Disk.Fates.{
  IsFair, remove_file-IsFair, first_fine, write-IsFair, write-ok, create_dir_all-IsFair,
  create_dir_all-ok,
}
use prismproxy.Acme.Base.{Ca, Machine}
use prismproxy.Acme.Leftovers.{HasNoTemps, Fair, inner-HasNoTemps}
use prismproxy.Acme.{lock, clean_up, provision}

-- Neither the lock file nor a temporary file is there.
pub record IsTidy (cache : String) (d : Disk) : Type 0 where
  pub no_lock : file cache ".renewing" d ≡ none
  pub no_cert : file cache "cert.pem.tmp" d ≡ none
  pub no_key : file cache "key.pem.tmp" d ≡ none

-- An end that the function comes to by itself leaves all tidy.
abbrev pub EndsTidy {ℓ} : {A : Type ℓ} → String → Flow A → Disk → Type 0
EndsTidy cache (returns a) d = IsTidy cache d
EndsTidy cache (fails e) d = IsTidy cache d
EndsTidy cache panics d = Unit
EndsTidy cache elapsed d = Unit

module _ (cache : String) (d : Disk) where
  after_success-IsTidy :
      HasNoTemps cache d → IsTidy cache (remove_file (join cache ".renewing") d).1
  after_success-IsTidy h = record {
    no_lock = file-remove cache ".renewing" d (first_fine d h.0);
    no_cert = file-remove_other cache ".renewing" "cert.pem.tmp" d refl ∙ h.1;
    no_key = file-remove_other cache ".renewing" "key.pem.tmp" d refl ∙ h.2;
  }

  -- Three removals on a disk on which nothing goes wrong.
  after_failure-IsTidy :
      IsFair d
      → let unlocked = (remove_file (join cache ".renewing") d).1 in
        let half = (remove_file (join cache "cert.pem.tmp") unlocked).1 in
        IsTidy cache (remove_file (join cache "key.pem.tmp") half).1
  after_failure-IsTidy fair =
      let unlocked = (remove_file (join cache ".renewing") d).1 in
      let half = (remove_file (join cache "cert.pem.tmp") unlocked).1 in
      let fair_unlocked = remove_file-IsFair d fair (join cache ".renewing") in
      let fair_half = remove_file-IsFair unlocked fair_unlocked (join cache "cert.pem.tmp") in
      record {
        no_lock =
            file-remove_other cache "key.pem.tmp" ".renewing" half refl
            ∙ file-remove_other cache "cert.pem.tmp" ".renewing" unlocked refl
            ∙ file-remove cache ".renewing" d (first_fine d fair);
        no_cert =
            file-remove_other cache "key.pem.tmp" "cert.pem.tmp" half refl
            ∙ file-remove cache "cert.pem.tmp" unlocked (first_fine unlocked fair_unlocked);
        no_key = file-remove cache "key.pem.tmp" half (first_fine half fair_half);
      }

module _ {ca : Ca} {A : Type 0} (cache : String) where
  clean_up-IsTidy :
      (r : Flow A) (m : Machine ca)
      → Ends (λ a (u : Machine ca). HasNoTemps cache u.disk) (Fair ca) r m
      → EndsTidy cache r (clean_up ca cache r m).1.disk
  clean_up-IsTidy (returns a) m h = after_success-IsTidy cache m.disk h
  clean_up-IsTidy (fails e) m h = after_failure-IsTidy cache m.disk h
  clean_up-IsTidy panics m h = tt
  clean_up-IsTidy elapsed m h = tt

module _ {ca : Ca} (cache : String) (m : Machine ca) where
  -- The disk with the directory, and with the lock file.
  abbrev with_dir : Disk
  with_dir = (create_dir_all m.disk).1

  abbrev locked : Disk
  locked = (write (join cache ".renewing") "" with_dir).1

  exists_lock :
      file cache ".renewing" m.disk ≡ none → exists (join cache ".renewing") with_dir ≡ false
  unfolding exists
  exists_lock unlocked = ap is_some (file-create_dir_all cache ".renewing" m.disk ∙ unlocked)

  -- Nothing goes wrong and no lock file is there: the lock is taken.
  lock_taken :
      IsFair m.disk
      → file cache ".renewing" m.disk ≡ none
      → lock ca cache m ≡ (returns tt, record m { disk = locked })
  lock_taken fair unlocked = rw (
    create_dir_all-ok m.disk fair,
    exists_lock unlocked,
    write-ok with_dir (create_dir_all-IsFair m.disk fair) (join cache ".renewing") "",
  )

module _ {ca : Ca} (tls_config : TlsConfig) (m : Machine ca) where
  -- On a disk on which nothing goes wrong, with no lock file: if `provision` ends, with a
  -- certificate or with an error, whatever the CA and the network did, then neither the lock file
  -- nor a temporary file is left.
  pub provision-EndsTidy :
      (rounds : ℕ) (listen : String)
      → IsFair m.disk
      → file tls_config.cache_dir ".renewing" m.disk ≡ none
      → EndsTidy tls_config.cache_dir
          (provision ca rounds tls_config listen m).0
          (provision ca rounds tls_config listen m).1.disk
  unfolding provision
  provision-EndsTidy rounds listen fair unlocked =
      let cache = tls_config.cache_dir in
      let with_dir_IsFair = create_dir_all-IsFair m.disk fair in
      let fair_locked =
        write-IsFair (with_dir cache m) with_dir_IsFair (join cache ".renewing") "" in
      rw (lock_taken cache m fair unlocked) (
        clean_up-IsTidy cache _ _ (
          (inner-HasNoTemps tls_config rounds listen).run (record m { disk = locked cache m })
            fair_locked))
