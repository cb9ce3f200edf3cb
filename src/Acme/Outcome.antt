-- ===== src/Acme/Outcome.antt =====
-- The certificate and its key after acme.rs's `provision` and `provision_with_store`.
use prismproxy.Prelude.{
  ℕ, String, ◌≡◌, refl, ◌∙◌, Bool, true, false, Option, some, List, [], inl, inr, show,
}
use prismproxy.Exec.{lift}
use prismproxy.Exec.Hoare.{Ends, Hoare, Hoare-bind, Hoare-bind_given}
use prismproxy.Config.{TlsConfig}
use prismproxy.State.{join}
use prismproxy.Disk.{write, create_dir_all}
use prismproxy.Acme.Base.{Ca, Machine, call, on_disk, ignoring, seconds_now, serve}
use prismproxy.Acme.Steps.{
  begin_order, collect_challenges, store_challenges, set_ready, until_ready, download,
  until_downloaded, request_certificate,
}
use prismproxy.Acme.Parts.{
  begin_order-Closed, store_challenges-Closed, set_ready-Closed, request_certificate-Closed,
  download-Closed, until_downloaded-Closed,
}
use prismproxy.Acme.Keeps.{Keeps-dropped, Keeps-tell, Keeps-publish, Hoare-on_disk}
use prismproxy.Acme.Pair.{pair_of, IsOldOrSplit, pair-write_other, pair-create_dir_all}
use prismproxy.Acme.Origin.{
  IsOrdered, begin_order-Yields, IsAsked, IsIssued, IsGot, IsGiven, request_certificate-Yields,
  download-Yields, until_downloaded-Yields,
}
use prismproxy.Acme.Unchanged.{closing-pair, clearing-pair, cleaning-pair}
use prismproxy.Acme.Installed.{
  IsNew, IsOldSplitOrNew, left, IsOld-Closed, install-Done, until-Old, stamp, stamp_or_fail, done,
  serve-Old, time-Done,
}
use prismproxy.Acme.{
  install, provision_served, provision_inner, provision_inner_with_store, lock_unless, lock,
  cleaning, provision, provision_with_store,
}

module _ {ca : Ca} (old : Option String × Option String) (tls_config : TlsConfig) where
  open ca use {Order, KeyPair, authorizations, bind, serialize_pem}

  served-pair :
      (rounds : ℕ) (order : Order) (challenges : List (String × String)) (urls : List String)
      → IsOrdered ca tls_config.domains order
      → Hoare
          (λ (m : Machine ca). pair_of tls_config.cache_dir m.disk ≡ old)
          (provision_served ca rounds tls_config order challenges urls)
          (λ pair m. IsNew ca tls_config pair m.disk)
          (λ m. IsOldOrSplit ca tls_config.domains old (pair_of tls_config.cache_dir m.disk))
  unfolding provision_served
  served-pair rounds order challenges urls ordered =
      let cache = tls_config.cache_dir in
      let E = IsOldOrSplit ca tls_config.domains old in
      let into =
        λ (p : Option String × Option String) (h : IsOldOrSplit ca tls_config.domains old p). h in
      let closed = IsOld-Closed {ca = ca} {domains = tls_config.domains} cache old E into in
      Hoare-bind (serve challenges) _ (serve-Old cache old E into challenges) λ _.
        Hoare-bind (set_ready ca order urls) _
          (set_ready-Closed closed (Keeps-tell _ _ (left cache old E into) (λ m w told h. h)) order
            urls)
          λ _. Hoare-bind (until_ready ca order) _ (until-Old cache old E into order) λ _.
            Hoare-bind (serve []) _ (serve-Old cache old E into []) λ _.
              Hoare-bind_given (IsAsked ca tls_config.domains order)
                (request_certificate ca tls_config.domains order) _
                (request_certificate-Yields tls_config.domains order)
                (request_certificate-Closed closed tls_config.domains order)
                λ key_pair asked.
                  Hoare-bind_given (IsGiven ca order) (download ca rounds order) _
                    (download-Yields ca order rounds)
                    (download-Closed closed (Keeps-dropped _ _ (left cache old E into)) rounds
                      order)
                    λ cert given.
                      let issued : IsIssued ca tls_config.domains cert key_pair = record {
                        order = order;
                        ordered = ordered;
                        asked = asked;
                        given = given;
                      } in
                      Hoare-bind (install ca cache cert (serialize_pem key_pair)) _
                        (install-Done cache old E into cert (serialize_pem key_pair) key_pair
                          issued)
                        λ _. Hoare-bind seconds_now _ (time-Done cache old E into _) λ time.
                          Hoare-bind (ignoring (write (join cache "issued_at") (show time))) _
                            (stamp cache old E into _ time)
                            λ _.
                              done cache old E into (cert, serialize_pem key_pair)
                                (key_pair, issued, refl)

  served_listening :
      (rounds : ℕ) (listen : String)
      → Hoare
          (λ (m : Machine ca). pair_of tls_config.cache_dir m.disk ≡ old)
          (provision_inner ca rounds tls_config listen)
          (λ pair m. IsNew ca tls_config pair m.disk)
          (λ m. IsOldOrSplit ca tls_config.domains old (pair_of tls_config.cache_dir m.disk))
  unfolding provision_inner
  served_listening rounds listen =
      let cache = tls_config.cache_dir in
      let closed =
        IsOld-Closed {ca = ca} {domains = tls_config.domains} cache old
          (IsOldOrSplit ca tls_config.domains old) (λ p h. h) in
      Hoare-bind_given (IsOrdered ca tls_config.domains) (begin_order ca tls_config) _
        (begin_order-Yields tls_config) (begin_order-Closed closed tls_config)
        λ order ordered.
          Hoare-bind (call "get authorizations: " (authorizations order)) _ (closed.of_call _ _ _)
            λ auths.
              Hoare-bind (lift (collect_challenges ca order auths [] [])) _ (closed.of_lift _ _)
                λ collected.
                  Hoare-bind (call "bind challenge server: " (bind listen)) _ (closed.of_call _ _ _)
                    λ _.
                      closing-pair cache
                        (λ pair p.
                          (p ≡ (some pair.0, some pair.1)) × IsGot ca tls_config.domains pair)
                        (IsOldOrSplit ca tls_config.domains old)
                        (provision_served ca rounds tls_config order collected.0 collected.1)
                        (served-pair rounds order collected.0 collected.1 ordered)

  store-pair :
      Hoare
        (λ (m : Machine ca). pair_of tls_config.cache_dir m.disk ≡ old)
        (provision_inner_with_store ca tls_config)
        (λ pair m. IsNew ca tls_config pair m.disk)
        (λ m. IsOldSplitOrNew ca tls_config.domains old (pair_of tls_config.cache_dir m.disk))
  unfolding provision_inner_with_store
  store-pair =
      let cache = tls_config.cache_dir in
      let E = IsOldSplitOrNew ca tls_config.domains old in
      let into =
        λ (p : Option String × Option String) (h : IsOldOrSplit ca tls_config.domains old p).
          inl h in
      let closed = IsOld-Closed {ca = ca} {domains = tls_config.domains} cache old E into in
      Hoare-bind_given (IsOrdered ca tls_config.domains) (begin_order ca tls_config) _
        (begin_order-Yields tls_config) (begin_order-Closed closed tls_config)
        λ order ordered.
          Hoare-bind (call "get authorizations: " (authorizations order)) _ (closed.of_call _ _ _)
            λ auths.
              Hoare-bind (store_challenges ca order auths []) _
                (store_challenges-Closed closed
                  (Keeps-publish _ _ (left cache old E into) (λ m cs h. h)) order auths [])
                λ urls.
                  Hoare-bind (set_ready ca order urls) _
                    (set_ready-Closed closed
                      (Keeps-tell _ _ (left cache old E into) (λ m w told h. h)) order urls)
                    λ _. Hoare-bind (until_ready ca order) _ (until-Old cache old E into order) λ _.
                      Hoare-bind_given (IsAsked ca tls_config.domains order)
                        (request_certificate ca tls_config.domains order) _
                        (request_certificate-Yields tls_config.domains order)
                        (request_certificate-Closed closed tls_config.domains order)
                        λ key_pair asked.
                          Hoare-bind_given (IsGiven ca order) (until_downloaded ca order) _
                            (until_downloaded-Yields ca order)
                            (until_downloaded-Closed closed
                              (Keeps-dropped _ _ (left cache old E into)) order)
                            λ cert given.
                              let issued : IsIssued ca tls_config.domains cert key_pair = record {
                                order = order;
                                ordered = ordered;
                                asked = asked;
                                given = given;
                              } in
                              Hoare-bind (install ca cache cert (serialize_pem key_pair)) _
                                (install-Done cache old E into cert (serialize_pem key_pair)
                                  key_pair issued)
                                λ _. Hoare-bind seconds_now _ (time-Done cache old E into _) λ time.
                                  Hoare-bind
                                    (on_disk "write issued_at: "
                                      (write (join cache "issued_at") (show time)))
                                    _
                                    (stamp_or_fail cache old E into _ time
                                      (λ p new. inr (cert, key_pair, issued, new)))
                                    λ _.
                                      done cache old E into (cert, serialize_pem key_pair)
                                        (key_pair, issued, refl)

  lock_unless-pair :
      (b : Bool) (E : Option String × Option String → Type 0)
      → ((p : Option String × Option String) → p ≡ old → E p)
      → Hoare
          (λ (m : Machine ca). pair_of tls_config.cache_dir m.disk ≡ old)
          (lock_unless ca b (join tls_config.cache_dir ".renewing"))
          (λ u m. pair_of tls_config.cache_dir m.disk ≡ old)
          (λ m. E (pair_of tls_config.cache_dir m.disk))
  lock_unless-pair true E into = record { run = λ m h. into _ h }
  lock_unless-pair false E into =
      let cache = tls_config.cache_dir in
      Hoare-on_disk (λ d. pair_of cache d ≡ old) (λ d. pair_of cache d ≡ old)
        (λ d. E (pair_of cache d)) _ _
        (λ d h done. pair-write_other cache ".renewing" "" d refl refl ∙ h)
        (λ d e h broken. into _ (pair-write_other cache ".renewing" "" d refl refl ∙ h))

  lock-pair :
      (E : Option String × Option String → Type 0)
      → ((p : Option String × Option String) → p ≡ old → E p)
      → Hoare
          (λ (m : Machine ca). pair_of tls_config.cache_dir m.disk ≡ old)
          (lock ca tls_config.cache_dir)
          (λ u m. pair_of tls_config.cache_dir m.disk ≡ old)
          (λ m. E (pair_of tls_config.cache_dir m.disk))
  lock-pair E into =
      let cache = tls_config.cache_dir in
      Hoare-bind (on_disk "create cache_dir: " create_dir_all) _
        (Hoare-on_disk (λ d. pair_of cache d ≡ old) (λ d. pair_of cache d ≡ old)
          (λ d. E (pair_of cache d)) _ _ (λ d h done. pair-create_dir_all cache d ∙ h)
          (λ d e h broken. into _ (pair-create_dir_all cache d ∙ h)))
        λ _. record { run = λ m h. (lock_unless-pair _ E into).run m h }

module _ {ca : Ca} (tls_config : TlsConfig) (m : Machine ca) where
  -- Whatever write, rename or removal fails: if `provision` returns a certificate and a key, then
  -- these are the files that the proxy loads, and the certificate is what the CA gave for an order
  -- for the configured domains that was finalized with a request of that key; if it ends otherwise,
  -- then the files are the old ones, or such a certificate, whole, stands beside the old key.
  pub provision-IsInstalled :
      (rounds : ℕ) (listen : String)
      → Ends
          (λ pair u. IsNew ca tls_config pair u.disk)
          (λ u.
            IsOldOrSplit ca tls_config.domains
              (pair_of tls_config.cache_dir m.disk)
              (pair_of tls_config.cache_dir u.disk))
          (provision ca rounds tls_config listen m).0
          (provision ca rounds tls_config listen m).1
  unfolding provision
  provision-IsInstalled rounds listen =
      let cache = tls_config.cache_dir in
      let old = pair_of cache m.disk in
      (Hoare-bind (lock ca cache) _
          (lock-pair old tls_config (IsOldOrSplit ca tls_config.domains old) (λ p h. inl h))
          λ _.
            cleaning-pair cache
              (λ pair p. (p ≡ (some pair.0, some pair.1)) × IsGot ca tls_config.domains pair)
              (IsOldOrSplit ca tls_config.domains old) (provision_inner ca rounds tls_config listen)
              (served_listening old tls_config rounds listen)).run
        m refl

  -- Whatever write, rename or removal fails: if `provision_with_store` returns a certificate and a
  -- key, then these are the files that the proxy loads, and the certificate is what the CA gave for
  -- an order for the configured domains that was finalized with a request of that key; if it ends
  -- otherwise, then the files are the old ones, or such a certificate, whole, stands beside the old
  -- key or beside the key that it is for.
  pub provision_with_store-IsInstalled :
      Ends
        (λ pair u. IsNew ca tls_config pair u.disk)
        (λ u.
          IsOldSplitOrNew ca tls_config.domains
            (pair_of tls_config.cache_dir m.disk)
            (pair_of tls_config.cache_dir u.disk))
        (provision_with_store ca tls_config m).0
        (provision_with_store ca tls_config m).1
  unfolding provision_with_store
  provision_with_store-IsInstalled =
      let cache = tls_config.cache_dir in
      let old = pair_of cache m.disk in
      let new = λ (pair : String × String) (p : Option String × Option String).
        (p ≡ (some pair.0, some pair.1)) × IsGot ca tls_config.domains pair in
      let E = IsOldSplitOrNew ca tls_config.domains old in
      (Hoare-bind (lock ca cache) _ (lock-pair old tls_config E (λ p h. inl (inl h))) λ _.
          clearing-pair cache new E (cleaning ca cache (provision_inner_with_store ca tls_config)) (
            cleaning-pair cache new E (provision_inner_with_store ca tls_config)
              (store-pair old tls_config))).run
        m refl
