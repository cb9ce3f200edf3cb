-- ===== src/Acme/Leftovers.antt =====
-- The temporary files while acme.rs's two inner functions run on a disk on which nothing goes wrong.
use prismproxy.Prelude.{ℕ, String, ◌≡◌, refl, ◌∙◌, none, List, [], show, str_eq, false}
use prismproxy.Exec.{Flow, returns, fails, panics, elapsed, Exec, pure, lift}
use prismproxy.Exec.Hoare.{Ends, Hoare, Hoare-bind}
use prismproxy.Config.{TlsConfig}
use prismproxy.State.{join}
use prismproxy.Disk.{Disk, write, rename}
use prismproxy.Disk.Laws.{file, file-write_other, file-rename_other, file-rename_from}
use prismproxy.Disk.Fates.{IsFair, write-IsFair, rename-IsFair}
use prismproxy.Acme.Base.{Ca, Machine, call, on_disk, ignoring, seconds_now, serve, closing}
use prismproxy.Acme.Steps.{
  begin_order, collect_challenges, set_ready, until_ready, download, request_certificate,
}
use prismproxy.Acme.Parts.{
  Closed, begin_order-Closed, set_ready-Closed, request_certificate-Closed, until_ready-Closed,
  download-Closed,
}
use prismproxy.Acme.Keeps.{Keeps, Keeps-Closed, Keeps-dropped, Keeps-tell, Hoare-on_disk}
use prismproxy.Acme.{install, provision_served, provision_inner}

-- Nothing goes wrong, and no temporary file is left.
abbrev pub HasNoTemps : String → Disk → Type 0
HasNoTemps cache d =
    IsFair d × (file cache "cert.pem.tmp" d ≡ none) × (file cache "key.pem.tmp" d ≡ none)

abbrev pub Fair : (ca : Ca) → Machine ca → Type 0
Fair ca m = IsFair m.disk

abbrev fair-Closed : (ca : Ca) → Closed ca (Keeps (Fair ca) (Fair ca) (λ m h. h))
fair-Closed ca = Keeps-Closed (Fair ca) (Fair ca) (λ m h. h) (λ m w h. h)

abbrev HalfTidy : String → Disk → Type 0
HalfTidy cache d = IsFair d × (file cache "cert.pem.tmp" d ≡ none)

write-HasNoTemps :
    (cache name text : String) (d : Disk)
    → str_eq name "cert.pem.tmp" ≡ false
    → str_eq name "key.pem.tmp" ≡ false
    → HasNoTemps cache d
    → HasNoTemps cache (write (join cache name) text d).1
write-HasNoTemps cache name text d not_cert not_key h = (
  write-IsFair d h.0 (join cache name) text,
  file-write_other cache name "cert.pem.tmp" text d not_cert ∙ h.1,
  file-write_other cache name "key.pem.tmp" text d not_key ∙ h.2,
)

module _ {ca : Ca} (cache : String) where
  write-Fair :
      (what name text : String)
      → Hoare (Fair ca) (on_disk what (write (join cache name) text)) (λ u m. Fair ca m) (Fair ca)
  write-Fair what name text =
      Hoare-on_disk IsFair IsFair IsFair _ _ (λ d h done. write-IsFair d h (join cache name) text)
        (λ d e h broken. write-IsFair d h (join cache name) text)

  install-HasNoTemps :
      (cert key : String)
      → Hoare (Fair ca) (install ca cache cert key) (λ u m. HasNoTemps cache m.disk) (Fair ca)
  unfolding install
  install-HasNoTemps cert key =
      Hoare-bind (on_disk "write cert.pem.tmp: " (write (join cache "cert.pem.tmp") cert)) _
        (write-Fair _ _ _)
        λ _.
          Hoare-bind (on_disk "write key.pem.tmp: " (write (join cache "key.pem.tmp") key)) _
            (write-Fair _ _ _)
            λ _.
              Hoare-bind
                (on_disk "rename cert.pem: "
                  (rename (join cache "cert.pem.tmp") (join cache "cert.pem")))
                _
                (Hoare-on_disk IsFair (HalfTidy cache) IsFair _ _
                  (λ d h done. (
                    rename-IsFair d h _ _,
                    file-rename_from cache "cert.pem.tmp" "cert.pem" d refl done,
                  ))
                  (λ d e h broken. rename-IsFair d h _ _))
                λ _.
                  Hoare-on_disk (HalfTidy cache) (HasNoTemps cache) IsFair _ _
                    (λ d h done. (
                      rename-IsFair d h.0 _ _,
                      file-rename_other cache "key.pem.tmp" "key.pem" "cert.pem.tmp" d refl refl
                          ∙ h.1,
                      file-rename_from cache "key.pem.tmp" "key.pem" d refl done,
                    ))
                    (λ d e h broken. rename-IsFair d h.0 _ _)

  stamp-HasNoTemps :
      (time : ℕ)
      → Hoare
          (λ (m : Machine ca). HasNoTemps cache m.disk)
          (ignoring (write (join cache "issued_at") (show time)))
          (λ u m. HasNoTemps cache m.disk)
          (Fair ca)
  stamp-HasNoTemps time = record {
    run = λ m h. write-HasNoTemps cache "issued_at" (show time) m.disk refl refl h;
  }

  time-HasNoTemps :
      Hoare
        (λ (m : Machine ca). HasNoTemps cache m.disk)
        seconds_now
        (λ u m. HasNoTemps cache m.disk)
        (Fair ca)
  time-HasNoTemps = record { run = λ m h. h }

  done-HasNoTemps :
      (pair : String × String)
      → Hoare
          (λ (m : Machine ca). HasNoTemps cache m.disk)
          (pure pair)
          (λ u m. HasNoTemps cache m.disk)
          (Fair ca)
  done-HasNoTemps pair = record { run = λ m h. h }

Ends-closing :
    {ca : Ca} {A : Type 0} (Q : Disk → Type 0) (r : Flow A) (m : Machine ca)
    → Ends (λ a (u : Machine ca). Q u.disk) (Fair ca) r m
    → Ends (λ a (u : Machine ca). Q u.disk) (Fair ca) r (record m { challenges = [] })
Ends-closing Q (returns a) m h = h
Ends-closing Q (fails e) m h = h
Ends-closing Q panics m h = h
Ends-closing Q elapsed m h = h

closing-Hoare :
    {ca : Ca} {A : Type 0} (Q : Disk → Type 0) (body : Exec (Machine ca) A)
    → Hoare (Fair ca) body (λ a u. Q u.disk) (Fair ca)
    → Hoare (Fair ca) (closing body) (λ a u. Q u.disk) (Fair ca)
closing-Hoare Q body h = record { run = λ m p. Ends-closing Q (body m).0 (body m).1 (h.run m p) }

module _ {ca : Ca} (tls_config : TlsConfig) where
  open ca use {Order, authorizations, bind, serialize_pem}

  served-HasNoTemps :
      (rounds : ℕ) (order : Order) (challenges : List (String × String)) (urls : List String)
      → Hoare
          (Fair ca)
          (provision_served ca rounds tls_config order challenges urls)
          (λ pair m. HasNoTemps tls_config.cache_dir m.disk)
          (Fair ca)
  unfolding provision_served
  served-HasNoTemps rounds order challenges urls =
      let cache = tls_config.cache_dir in
      let closed = fair-Closed ca in
      Hoare-bind (serve challenges) _ (record { run = λ m h. h })
        λ _.
          Hoare-bind (set_ready ca order urls) _
            (set_ready-Closed closed (Keeps-tell _ _ (λ m h. h) (λ m w told h. h)) order urls)
            λ _.
              Hoare-bind (until_ready ca order) _
                (until_ready-Closed closed (Keeps-dropped _ _ (λ m h. h)) order)
                λ _.
                  Hoare-bind (serve []) _ (record { run = λ m h. h })
                    λ _.
                      Hoare-bind (request_certificate ca tls_config.domains order) _
                        (request_certificate-Closed closed tls_config.domains order)
                        λ key_pair.
                          Hoare-bind (download ca rounds order) _
                            (download-Closed closed (Keeps-dropped _ _ (λ m h. h)) rounds order)
                            λ cert.
                              Hoare-bind (install ca cache cert (serialize_pem key_pair)) _
                                (install-HasNoTemps cache cert (serialize_pem key_pair))
                                λ _. Hoare-bind seconds_now _ (time-HasNoTemps cache) λ time.
                                  Hoare-bind (ignoring (write (join cache "issued_at") (show time)))
                                    _ (stamp-HasNoTemps cache time)
                                    λ _. done-HasNoTemps cache (cert, serialize_pem key_pair)

  pub inner-HasNoTemps :
      (rounds : ℕ) (listen : String)
      → Hoare
          (Fair ca)
          (provision_inner ca rounds tls_config listen)
          (λ pair m. HasNoTemps tls_config.cache_dir m.disk)
          (Fair ca)
  unfolding provision_inner
  inner-HasNoTemps rounds listen =
      let closed = fair-Closed ca in
      Hoare-bind (begin_order ca tls_config) _ (begin_order-Closed closed tls_config) λ order.
        Hoare-bind (call "get authorizations: " (authorizations order)) _ (closed.of_call _ _ _)
          λ auths.
            Hoare-bind (lift (collect_challenges ca order auths [] [])) _ (closed.of_lift _ _)
              λ collected.
                Hoare-bind (call "bind challenge server: " (bind listen)) _ (closed.of_call _ _ _)
                  λ _.
                    closing-Hoare (HasNoTemps tls_config.cache_dir)
                      (provision_served ca rounds tls_config order collected.0 collected.1)
                      (served-HasNoTemps rounds order collected.0 collected.1)
