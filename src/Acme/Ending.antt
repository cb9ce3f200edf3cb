-- ===== src/Acme/Ending.antt =====
-- acme.rs's `provision_with_store` ends.
use prismproxy.Prelude.{String, Bool, true, false, [], show, ok}
use prismproxy.Exec.{Exec}
use prismproxy.Exec.Settling.{Settles, Settles-flow_of, Terminates, Terminates-bind}
use prismproxy.Config.{TlsConfig}
use prismproxy.State.{join}
use prismproxy.Disk.{Operation, write, rename, create_dir_all}
use prismproxy.Acme.Base.{Ca, Machine, call, on_disk, seconds_now}
use prismproxy.Acme.Steps.{
  begin_order, store_challenges, set_ready, until_ready, request_certificate, until_downloaded,
}
use prismproxy.Acme.Parts.{
  Closed, begin_order-Closed, store_challenges-Closed, set_ready-Closed, request_certificate-Closed,
}
use prismproxy.Acme.Polling.{ClockLaws, until_ready-Settles, until_downloaded-Settles}
use prismproxy.Acme.{install, provision_inner_with_store, lock_unless, lock, provision_with_store}

module _ {ca : Ca} where
  open ca use {authorizations, serialize_pem}

  abbrev EndsSo : (A : Type 0) → Exec (Machine ca) A → Type 0
  EndsSo A m = Terminates m

  Terminates-Closed : Closed ca EndsSo
  Terminates-Closed = record {
    of_bind = λ A B m f h k. Terminates-bind m f h k;
    of_call = λ A what operation. record { ends = λ m. Settles-flow_of _ };
    of_lift = λ A r. record { ends = λ m. Settles-flow_of r };
    of_pause = λ d. record { ends = λ m. tt };
    of_instant = record { ends = λ m. tt };
  }

  Terminates-on_disk :
      (what : String) (operation : Operation) → Terminates (on_disk {ca = ca} what operation)
  Terminates-on_disk what operation = record { ends = λ m. Settles-flow_of _ }

  Terminates-install : (cache cert key : String) → Terminates (install ca cache cert key)
  unfolding install
  Terminates-install cache cert key =
      Terminates-bind (on_disk "write cert.pem.tmp: " (write (join cache "cert.pem.tmp") cert)) _
        (Terminates-on_disk _ _)
        λ _.
          Terminates-bind (on_disk "write key.pem.tmp: " (write (join cache "key.pem.tmp") key)) _
            (Terminates-on_disk _ _)
            λ _.
              Terminates-bind
                (on_disk "rename cert.pem: "
                  (rename (join cache "cert.pem.tmp") (join cache "cert.pem")))
                _ (Terminates-on_disk _ _) λ _. Terminates-on_disk _ _

  lock_unless-Settles :
      (b : Bool) (path : String) (m : Machine ca) → Settles (lock_unless ca b path m).0
  lock_unless-Settles true path m = tt
  lock_unless-Settles false path m = Settles-flow_of _

  Terminates-lock : (cache : String) → Terminates (lock ca cache)
  Terminates-lock cache =
      Terminates-bind (on_disk "create cache_dir: " create_dir_all) _ (Terminates-on_disk _ _)
        λ _. record { ends = λ m. lock_unless-Settles _ _ m }

  module _ (laws : ClockLaws ca) (tls_config : TlsConfig) where
    Terminates-inner : Terminates (provision_inner_with_store ca tls_config)
    unfolding provision_inner_with_store
    Terminates-inner =
        Terminates-bind (begin_order ca tls_config) _
          (begin_order-Closed Terminates-Closed tls_config)
          λ order.
            Terminates-bind (call "get authorizations: " (authorizations order)) _
              (Terminates-Closed.of_call _ _ _)
              λ auths.
                Terminates-bind (store_challenges ca order auths []) _
                  (store_challenges-Closed Terminates-Closed
                    (λ token key_auth. record { ends = λ m. tt }) order auths [])
                  λ urls.
                    Terminates-bind (set_ready ca order urls) _
                      (set_ready-Closed Terminates-Closed
                        (λ o url. record { ends = λ m. Settles-flow_of _ }) order urls)
                      λ _.
                        Terminates-bind (until_ready ca order) _
                          (record { ends = until_ready-Settles laws order })
                          λ _.
                            Terminates-bind (request_certificate ca tls_config.domains order) _
                              (request_certificate-Closed Terminates-Closed tls_config.domains
                                order)
                              λ key_pair.
                                Terminates-bind (until_downloaded ca order) _
                                  (record { ends = until_downloaded-Settles laws order })
                                  λ cert.
                                    Terminates-bind
                                      (install ca tls_config.cache_dir cert
                                        (serialize_pem key_pair))
                                      _ (Terminates-install _ _ _)
                                      λ _.
                                        Terminates-bind seconds_now _ (record { ends = λ m. tt })
                                          λ time.
                                            Terminates-bind
                                              (on_disk "write issued_at: " (
                                                write (join tls_config.cache_dir "issued_at")
                                                  (show time)))
                                              _ (Terminates-on_disk _ _)
                                              λ _.
                                                Terminates-Closed.of_lift _
                                                  (ok (cert, serialize_pem key_pair))

    -- Where every call of the CA, of rcgen and of the file system comes back, with a result or an
    -- error of whatever kind, the clock does not go back and sleeps last, `provision_with_store` ends
    -- with a certificate or an error and never panics: its two polls end by their deadlines, however
    -- often the CA answers that the order or the certificate is not ready.
    pub provision_with_store-Settles :
        (m : Machine ca) → Settles (provision_with_store ca tls_config m).0
    unfolding provision_with_store
    provision_with_store-Settles m =
        (Terminates-bind (lock ca tls_config.cache_dir) _ (Terminates-lock tls_config.cache_dir)
            λ _. record { ends = λ u. Terminates-inner.ends u }).ends
          m
