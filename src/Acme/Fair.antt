-- ===== src/Acme/Fair.antt =====
-- The steps of acme.rs on the files succeed where nothing goes wrong.
use mathlib.Core.Path.{subst}
use prismproxy.Prelude.{String, ◌≡◌, refl, sym, ap, ◌∙◌, false, some, Result, ok}
use prismproxy.Exec.Hoare.{Ends, Hoare, Hoare-bind}
use prismproxy.Config.{is_some}
use prismproxy.State.{join}
use prismproxy.Disk.{Disk, Operation, write, rename, exists, create_dir_all}
use prismproxy.Disk.Fates.{
  IsFair, write-IsFair, rename-IsFair, create_dir_all-IsFair, write-ok, rename-ok,
  create_dir_all-ok,
}
use prismproxy.Disk.Laws.{
  file, file-write, file-write_other, file-rename_other, file-create_dir_all,
}
use prismproxy.Acme.Base.{Ca, Machine, call, on_disk}
use prismproxy.Acme.Patience.{Never}
use prismproxy.Acme.{install, lock_unless, lock}

module _ {ca : Ca} where
  -- A call that is answered.
  pub answered :
      {A : Type 0} (P : Machine ca → Type 0) (Q : A → Machine ca → Type 0) (what : String)
      (operation : ca.World → Result A String × ca.World)
      → ((m : Machine ca)
          → P m
          → (a : A) × ((operation m.world).0 ≡ ok a)
            × Q a (record m { world = (operation m.world).1 }))
      → Hoare P (call what operation) Q Never
  answered P Q what operation h = record { run = λ m p. let (a, e, q) = h m p in rw e q }

  -- An operation on the files that is done.
  pub done :
      (P Q : Disk → Type 0) (what : String) (operation : Operation)
      → ((d : Disk) → P d → ((operation d).0 ≡ ok tt) × Q (operation d).1)
      → Hoare
          (λ (m : Machine ca). P m.disk)
          (on_disk what operation)
          (λ (u : Unit {0}) m. Q m.disk)
          Never
  done P Q what operation h = record { run = λ m p. let (e, q) = h m.disk p in rw e q }

  pub install-succeeds :
      (cache cert key : String)
      → Hoare
          (λ (m : Machine ca). IsFair m.disk)
          (install ca cache cert key)
          (λ (u : Unit {0}) m. IsFair m.disk)
          Never
  unfolding install
  install-succeeds cache cert key =
      let has_cert = λ (d : Disk). IsFair d × (file cache "cert.pem.tmp" d ≡ some cert) in
      let has_both = λ (d : Disk). has_cert d × (file cache "key.pem.tmp" d ≡ some key) in
      let has_key = λ (d : Disk). IsFair d × (file cache "key.pem.tmp" d ≡ some key) in
      Hoare-bind (on_disk "write cert.pem.tmp: " (write (join cache "cert.pem.tmp") cert)) _
        (done IsFair has_cert _ _ λ d fair. (
          write-ok d fair _ cert,
          (
            write-IsFair d fair _ cert,
            file-write cache "cert.pem.tmp" cert d (write-ok d fair _ cert),
          ),
        ))
        λ _.
          Hoare-bind (on_disk "write key.pem.tmp: " (write (join cache "key.pem.tmp") key)) _
            (done has_cert has_both _ _ λ d h. (
              write-ok d h.0 _ key,
              (
                (
                  write-IsFair d h.0 _ key,
                  file-write_other cache "key.pem.tmp" "cert.pem.tmp" key d refl ∙ h.1,
                ),
                file-write cache "key.pem.tmp" key d (write-ok d h.0 _ key),
              ),
            ))
            λ _.
              Hoare-bind
                (on_disk "rename cert.pem: "
                  (rename (join cache "cert.pem.tmp") (join cache "cert.pem")))
                _
                (done has_both has_key _ _ λ d h. (
                  rename-ok d h.0.0 _ _ cert h.0.1,
                  (
                    rename-IsFair d h.0.0 _ _,
                    file-rename_other cache "cert.pem.tmp" "cert.pem" "key.pem.tmp" d refl refl
                        ∙ h.1,
                  ),
                ))
                λ _.
                  done has_key IsFair "rename key.pem: "
                    (rename (join cache "key.pem.tmp") (join cache "key.pem"))
                    λ d h. (rename-ok d h.0 _ _ key h.1, rename-IsFair d h.0 _ _)

  -- The files are in order, and there is no lock file.
  abbrev pub IsFree : String → Machine ca → Type 0
  IsFree cache m = IsFair m.disk × (exists (join cache ".renewing") m.disk ≡ false)

  pub lock-succeeds :
      (cache : String)
      → Hoare (IsFree cache) (lock ca cache) (λ (u : Unit {0}) m. IsFair m.disk) Never
  unfolding exists
  lock-succeeds cache =
      let is_free = λ (d : Disk). IsFair d × (exists (join cache ".renewing") d ≡ false) in
      Hoare-bind (on_disk "create cache_dir: " create_dir_all) _
        (done is_free is_free _ _ λ d h. (
          create_dir_all-ok d h.0,
          (create_dir_all-IsFair d h.0, ap is_some (file-create_dir_all cache ".renewing" d) ∙ h.1),
        ))
        λ _. record {
          run = λ m h.
              subst
                (λ b.
                  Ends (λ (u : Unit {0}) (n : Machine ca). IsFair n.disk) Never
                    (lock_unless ca b (join cache ".renewing") m).0
                    (lock_unless ca b (join cache ".renewing") m).1)
                (sym h.1)
                ((done IsFair IsFair "create lockfile: " (write (join cache ".renewing") "")
                    λ d fair. (write-ok d fair _ "", write-IsFair d fair _ "")).run
                  m h.0);
        }
