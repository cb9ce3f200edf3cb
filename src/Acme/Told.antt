-- ===== src/Acme/Told.antt =====
-- What acme.rs told the CA, once its provisioning has ended.
use mathlib.Core.Path.{subst}
use prismproxy.Prelude.{All, sym, ℕ, String, ◌≡◌, refl, List, [], show, map_err, Result, ok, err}
use prismproxy.Errors.{ProxyError}
use prismproxy.Exec.{Flow, returns, fails, panics, elapsed, Exec, flow_of, lift}
use prismproxy.Exec.Hoare.{Ends, Hoare, Hoare-bind, Hoare-bind_given}
use prismproxy.Config.{TlsConfig}
use prismproxy.State.{join}
use prismproxy.Disk.{write}
use prismproxy.Acme.Base.{
  Ca, Machine, Authorization, failure, call, on_disk, ignoring, seconds_now, serve, closing,
}
use prismproxy.Acme.Steps.{
  begin_order, collect_challenges, store_challenges, set_ready, until_ready, download,
  until_downloaded, request_certificate,
}
use prismproxy.Acme.Parts.{
  begin_order-Closed, request_certificate-Closed, until_ready-Closed, download-Closed,
  until_downloaded-Closed,
}
use prismproxy.Acme.Keeps.{Keeps-dropped}
use prismproxy.Acme.Origin.{Answers, call-Yields}
use prismproxy.Acme.Offers.{KeyLaw, IsAuthorization, IsHonest, Offers}
use prismproxy.Acme.{
  install, provision_served, provision_inner, provision_inner_with_store, lock, cleaning, provision,
  provision_with_store,
}
use prismproxy.Acme.Honest.{
  Honestly, honest-Closed, set_ready-Honest, answered-authorizations, store_challenges-Offers,
  collecting, on_disk-Honest, ignoring-Honest, install-Honest, lock-Honest, Ends-IsHonest,
  clearing-Honest, cleaning-Honest, Collected,
}

module _ {ca : Ca} where
  time-Honest : Honestly ca seconds_now
  time-Honest = record { run = λ m h. h }

  serve_nothing : Honestly ca (serve [])
  serve_nothing = record { run = λ m h. h }

  Ends-both :
      {A : Type 0} (r : Flow A) (m : Machine ca)
      → Ends (λ (a : A). IsHonest ca) (IsHonest ca) r m
      → IsHonest ca m
  Ends-both (returns a) m h = h
  Ends-both (fails e) m h = h
  Ends-both panics m h = h
  Ends-both elapsed m h = h

  -- Where nothing was told before.
  Honestly-end :
      {A : Type 0} (body : Exec (Machine ca) A) (m : Machine ca)
      → Honestly ca body
      → m.told ≡ []
      → IsHonest ca (body m).1
  Honestly-end body m h fresh =
      Ends-both (body m).0 (body m).1 (h.run m (subst (All _) (sym fresh) tt))

module _ {ca : Ca} (laws : KeyLaw ca) (order : ca.Order) where
  open ca use {bind}

  serving :
      (collected : List (String × String) × List String)
      → Hoare
          (Collected laws order collected)
          (serve collected.0)
          (λ u. Offers ca order collected.1)
          (IsHonest ca)
  serving collected = record { run = λ m h. h }

  Ends-call :
      (collected : List (String × String) × List String) (r : Result (Unit {0}) ProxyError)
      (m : Machine ca)
      → Collected laws order collected m
      → Ends (λ (u : Unit {0}). Collected laws order collected) (IsHonest ca) (flow_of r) m
  Ends-call collected (ok u) m h = h
  Ends-call collected (err e) m h = h.0

  bound :
      (collected : List (String × String) × List String) (listen : String)
      → Hoare
          (Collected laws order collected)
          (call "bind challenge server: " (bind listen))
          (λ u. Collected laws order collected)
          (IsHonest ca)
  bound collected listen = record {
    run = λ m h.
        Ends-call collected (map_err (failure "bind challenge server: ") (bind listen m.world).0) _
          h;
  }

  closing-Collected :
      {A : Type 0} (collected : List (String × String) × List String) {body : Exec (Machine ca) A}
      → Hoare (Collected laws order collected) body (λ a. IsHonest ca) (IsHonest ca)
      → Hoare (Collected laws order collected) (closing body) (λ a. IsHonest ca) (IsHonest ca)
  closing-Collected collected {body} h = record {
    run = λ m p. Ends-IsHonest (body m).0 (body m).1 _ refl (h.run m p);
  }

  stored :
      (auths : List Authorization)
      → All (IsAuthorization ca order) auths
      → Hoare (IsHonest ca) (store_challenges ca order auths []) (Offers ca order) (IsHonest ca)
  stored auths given = record {
    run = λ m h. (store_challenges-Offers laws order auths [] given).run m (h, tt);
  }

module _ {ca : Ca} (laws : KeyLaw ca) (tls_config : TlsConfig) where
  open ca use {Order, KeyPair, authorizations, bind, serialize_pem}

  served-Honest :
      (rounds : ℕ) (order : Order) (collected : List (String × String) × List String)
      → Hoare
          (Collected laws order collected)
          (provision_served ca rounds tls_config order collected.0 collected.1)
          (λ pair. IsHonest ca)
          (IsHonest ca)
  unfolding provision_served
  served-Honest rounds order collected =
      let cache = tls_config.cache_dir in
      let closed = honest-Closed ca in
      Hoare-bind (serve collected.0) _ (serving laws order collected) λ _.
        Hoare-bind (set_ready ca order collected.1) _ (set_ready-Honest laws order collected.1) λ _.
          Hoare-bind (until_ready ca order) _
            (until_ready-Closed closed (Keeps-dropped _ _ (λ m h. h)) order)
            λ _. Hoare-bind (serve []) _ serve_nothing λ _.
              Hoare-bind (request_certificate ca tls_config.domains order) _
                (request_certificate-Closed closed tls_config.domains order)
                λ key_pair.
                  Hoare-bind (download ca rounds order) _
                    (download-Closed closed (Keeps-dropped _ _ (λ m h. h)) rounds order)
                    λ cert.
                      Hoare-bind (install ca cache cert (serialize_pem key_pair)) _
                        (install-Honest cache cert (serialize_pem key_pair))
                        λ _. Hoare-bind seconds_now _ time-Honest λ time.
                          Hoare-bind (ignoring (write (join cache "issued_at") (show time))) _
                            (ignoring-Honest (write (join cache "issued_at") (show time)))
                            λ _. closed.of_lift _ (ok (cert, serialize_pem key_pair))

  inner-Honest :
      (rounds : ℕ) (listen : String) → Honestly ca (provision_inner ca rounds tls_config listen)
  unfolding provision_inner
  inner-Honest rounds listen =
      let closed = honest-Closed ca in
      Hoare-bind (begin_order ca tls_config) _ (begin_order-Closed closed tls_config) λ order.
        Hoare-bind_given (Answers (authorizations order))
          (call "get authorizations: " (authorizations order)) _ (call-Yields _ _)
          (closed.of_call _ _ _)
          λ auths answer.
            let given = answered-authorizations laws order auths answer in
            Hoare-bind (lift (collect_challenges ca order auths [] [])) _
              (collecting laws order auths given)
              λ collected.
                Hoare-bind (call "bind challenge server: " (bind listen)) _
                  (bound laws order collected listen)
                  λ _. closing-Collected laws order collected (served-Honest rounds order collected)

  inner_with_store-Honest : Honestly ca (provision_inner_with_store ca tls_config)
  unfolding provision_inner_with_store
  inner_with_store-Honest =
      let cache = tls_config.cache_dir in
      let closed = honest-Closed ca in
      Hoare-bind (begin_order ca tls_config) _ (begin_order-Closed closed tls_config) λ order.
        Hoare-bind_given (Answers (authorizations order))
          (call "get authorizations: " (authorizations order)) _ (call-Yields _ _)
          (closed.of_call _ _ _)
          λ auths answer.
            let given = answered-authorizations laws order auths answer in
            Hoare-bind (store_challenges ca order auths []) _ (stored laws order auths given)
              λ urls. Hoare-bind (set_ready ca order urls) _ (set_ready-Honest laws order urls) λ _.
                Hoare-bind (until_ready ca order) _
                  (until_ready-Closed closed (Keeps-dropped _ _ (λ m h. h)) order)
                  λ _.
                    Hoare-bind (request_certificate ca tls_config.domains order) _
                      (request_certificate-Closed closed tls_config.domains order)
                      λ key_pair.
                        Hoare-bind (until_downloaded ca order) _
                          (until_downloaded-Closed closed (Keeps-dropped _ _ (λ m h. h)) order)
                          λ cert.
                            Hoare-bind (install ca cache cert (serialize_pem key_pair)) _
                              (install-Honest cache cert (serialize_pem key_pair))
                              λ _. Hoare-bind seconds_now _ time-Honest λ time.
                                Hoare-bind
                                  (on_disk "write issued_at: "
                                    (write (join cache "issued_at") (show time)))
                                  _ (on_disk-Honest _ _)
                                  λ _. closed.of_lift _ (ok (cert, serialize_pem key_pair))

  -- Whatever goes wrong, and whatever the CA answers: each challenge that `provision` told the CA of
  -- is an HTTP-01 challenge of an authorization that the CA answered for the order, whose key authorization stood under its token among the challenges that
  -- were served at that moment. Nothing was told before, and the key authorization of a challenge is
  -- a function of its token.
  pub provision-IsHonest :
      (m : Machine ca) (rounds : ℕ) (listen : String)
      → m.told ≡ []
      → IsHonest ca (provision ca rounds tls_config listen m).1
  unfolding provision
  provision-IsHonest m rounds listen fresh =
      Honestly-end _ m
        (Hoare-bind (lock ca tls_config.cache_dir) _ (lock-Honest tls_config.cache_dir) λ _.
          cleaning-Honest tls_config.cache_dir (provision_inner ca rounds tls_config listen)
            (inner-Honest rounds listen))
        fresh

  -- Whatever goes wrong, and whatever the CA answers: each challenge that `provision_with_store`
  -- told the CA of is an HTTP-01 challenge of an authorization that the CA answered for the order, whose key authorization stood under its token in the
  -- store at that moment. Nothing was told before, and the key authorization of a challenge is a
  -- function of its token.
  pub provision_with_store-IsHonest :
      (m : Machine ca) → m.told ≡ [] → IsHonest ca (provision_with_store ca tls_config m).1
  unfolding provision_with_store
  provision_with_store-IsHonest m fresh =
      Honestly-end _ m
        (Hoare-bind (lock ca tls_config.cache_dir) _ (lock-Honest tls_config.cache_dir) λ _.
          clearing-Honest
            (cleaning ca tls_config.cache_dir (provision_inner_with_store ca tls_config))
            (cleaning-Honest tls_config.cache_dir (provision_inner_with_store ca tls_config)
              inner_with_store-Honest))
        fresh
