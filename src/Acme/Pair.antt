-- ===== src/Acme/Pair.antt =====
-- The certificate and its key on the disk, however acme.rs's provisioning ends.
use prismproxy.Prelude.{
  String, ◌≡◌, refl, ap, ◌∙◌, false, Option, some, List, ◌⊎◌, inl, inr, str_eq,
}
use prismproxy.Exec.Hoare.{Hoare, Hoare-bind}
use prismproxy.State.{join}
use prismproxy.Disk.{Disk, write, rename, remove_file, create_dir_all}
use prismproxy.Disk.Laws.{
  file, file-write, file-write_other, file-rename_other, file-rename_to, file-rename_failed,
  file-remove_other, file-create_dir_all,
}
use prismproxy.Acme.Base.{Ca, Machine, on_disk}
use prismproxy.Acme.Origin.{IsIssued}
use prismproxy.Acme.Keeps.{Hoare-on_disk}
use prismproxy.Acme.{install}

-- The files that the proxy loads its certificate and its key from.
abbrev pub pair_of : String → Disk → Option String × Option String
pair_of cache d = (file cache "cert.pem" d, file cache "key.pem" d)

-- The pair is what it was, or a certificate that the CA gave for an order for these domains stands
-- beside the old key.
abbrev pub IsOldOrSplit :
    (ca : Ca) → List String → Option String × Option String → Option String × Option String → Type 0
IsOldOrSplit ca domains old pair =
    (pair ≡ old)
    ⊎ ((cert : String) × (key_pair : ca.KeyPair) × IsIssued ca domains cert key_pair
        × (pair ≡ (some cert, old.1)))

-- A write of another file keeps the pair.
pub pair-write_other :
    (cache name text : String) (d : Disk)
    → str_eq name "cert.pem" ≡ false
    → str_eq name "key.pem" ≡ false
    → pair_of cache (write (join cache name) text d).1 ≡ pair_of cache d
pair-write_other cache name text d not_cert not_key =
    rw
      (
        file-write_other cache name "cert.pem" text d not_cert,
        file-write_other cache name "key.pem" text d not_key,
      )
      refl

pub pair-remove :
    (cache name : String) (d : Disk)
    → str_eq "cert.pem" name ≡ false
    → str_eq "key.pem" name ≡ false
    → pair_of cache (remove_file (join cache name) d).1 ≡ pair_of cache d
pair-remove cache name d not_cert not_key =
    rw
      (
        file-remove_other cache name "cert.pem" d not_cert,
        file-remove_other cache name "key.pem" d not_key,
      )
      refl

pub pair-create_dir_all :
    (cache : String) (d : Disk) → pair_of cache (create_dir_all d).1 ≡ pair_of cache d
pair-create_dir_all cache d =
    rw (file-create_dir_all cache "cert.pem" d, file-create_dir_all cache "key.pem" d) refl

module _ (cache : String) (old : Option String × Option String) where
  -- The pair, and the temporary files so far.
  abbrev AtCert : String → Disk → Type 0
  AtCert cert d = (pair_of cache d ≡ old) × (file cache "cert.pem.tmp" d ≡ some cert)

  abbrev AtBoth : String → String → Disk → Type 0
  AtBoth cert key d =
      (pair_of cache d ≡ old)
      × (file cache "cert.pem.tmp" d ≡ some cert)
      × (file cache "key.pem.tmp" d ≡ some key)

  abbrev AtSplit : String → String → Disk → Type 0
  AtSplit cert key d =
      (pair_of cache d ≡ (some cert, old.1)) × (file cache "key.pem.tmp" d ≡ some key)

  abbrev pub AtNew : String → String → Disk → Type 0
  AtNew cert key d = pair_of cache d ≡ (some cert, some key)

  module _ {ca : Ca} (domains : List String) (cert key : String) (key_pair : ca.KeyPair)
      (issued : IsIssued ca domains cert key_pair) where
    write_cert :
        Hoare
          (λ (m : Machine ca). pair_of cache m.disk ≡ old)
          (on_disk "write cert.pem.tmp: " (write (join cache "cert.pem.tmp") cert))
          (λ u m. AtCert cert m.disk)
          (λ m. IsOldOrSplit ca domains old (pair_of cache m.disk))
    write_cert =
        Hoare-on_disk (λ d. pair_of cache d ≡ old) (AtCert cert)
          (λ d. IsOldOrSplit ca domains old (pair_of cache d)) _ _
          (λ d h done. (
            pair-write_other cache "cert.pem.tmp" cert d refl refl ∙ h,
            file-write cache "cert.pem.tmp" cert d done,
          ))
          (λ d e h broken. inl (pair-write_other cache "cert.pem.tmp" cert d refl refl ∙ h))

    write_key :
        Hoare
          (λ (m : Machine ca). AtCert cert m.disk)
          (on_disk "write key.pem.tmp: " (write (join cache "key.pem.tmp") key))
          (λ u m. AtBoth cert key m.disk)
          (λ m. IsOldOrSplit ca domains old (pair_of cache m.disk))
    write_key =
        Hoare-on_disk (AtCert cert) (AtBoth cert key)
          (λ d. IsOldOrSplit ca domains old (pair_of cache d)) _ _
          (λ d h done. (
            pair-write_other cache "key.pem.tmp" key d refl refl ∙ h.0,
            file-write_other cache "key.pem.tmp" "cert.pem.tmp" key d refl ∙ h.1,
            file-write cache "key.pem.tmp" key d done,
          ))
          (λ d e h broken. inl (pair-write_other cache "key.pem.tmp" key d refl refl ∙ h.0))

    rename_cert :
        Hoare
          (λ (m : Machine ca). AtBoth cert key m.disk)
          (on_disk "rename cert.pem: " (rename (join cache "cert.pem.tmp") (join cache "cert.pem")))
          (λ u m. AtSplit cert key m.disk)
          (λ m. IsOldOrSplit ca domains old (pair_of cache m.disk))
    rename_cert =
        Hoare-on_disk (AtBoth cert key) (AtSplit cert key)
          (λ d. IsOldOrSplit ca domains old (pair_of cache d)) _ _
          (λ d h done. (
            rw
                (
                  file-rename_to cache "cert.pem.tmp" "cert.pem" cert d h.1 done,
                  file-rename_other cache "cert.pem.tmp" "cert.pem" "key.pem" d refl refl,
                )
                (ap (λ (p : Option String × Option String). (some cert, p.1)) h.0),
            file-rename_other cache "cert.pem.tmp" "cert.pem" "key.pem.tmp" d refl refl ∙ h.2,
          ))
          (λ d e h broken. inl (
            rw
              (
                file-rename_failed cache "cert.pem.tmp" "cert.pem" "cert.pem" e d broken,
                file-rename_failed cache "cert.pem.tmp" "cert.pem" "key.pem" e d broken,
              )
              h.0))

    rename_key :
        Hoare
          (λ (m : Machine ca). AtSplit cert key m.disk)
          (on_disk "rename key.pem: " (rename (join cache "key.pem.tmp") (join cache "key.pem")))
          (λ u m. AtNew cert key m.disk)
          (λ m. IsOldOrSplit ca domains old (pair_of cache m.disk))
    rename_key =
        Hoare-on_disk (AtSplit cert key) (AtNew cert key)
          (λ d. IsOldOrSplit ca domains old (pair_of cache d)) _ _
          (λ d h done.
            rw
              (
                file-rename_other cache "key.pem.tmp" "key.pem" "cert.pem" d refl refl,
                file-rename_to cache "key.pem.tmp" "key.pem" key d h.1 done,
              )
              (ap (λ (p : Option String × Option String). (p.0, some key)) h.0))
          (λ d e h broken. inr (
            cert,
            key_pair,
            issued,
            rw
                (
                  file-rename_failed cache "key.pem.tmp" "key.pem" "cert.pem" e d broken,
                  file-rename_failed cache "key.pem.tmp" "key.pem" "key.pem" e d broken,
                )
                h.0,
          ))

    pub install-pair :
        Hoare
          (λ (m : Machine ca). pair_of cache m.disk ≡ old)
          (install ca cache cert key)
          (λ u m. AtNew cert key m.disk)
          (λ m. IsOldOrSplit ca domains old (pair_of cache m.disk))
    unfolding install
    install-pair =
        Hoare-bind (on_disk "write cert.pem.tmp: " (write (join cache "cert.pem.tmp") cert)) _
          write_cert
          λ _.
            Hoare-bind (on_disk "write key.pem.tmp: " (write (join cache "key.pem.tmp") key)) _
              write_key
              λ _.
                Hoare-bind
                  (on_disk "rename cert.pem: "
                    (rename (join cache "cert.pem.tmp") (join cache "cert.pem")))
                  _ rename_cert λ _. rename_key
