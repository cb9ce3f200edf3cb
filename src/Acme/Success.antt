-- ===== src/Acme/Success.antt =====
-- acme.rs's `provision_with_store` succeeds with a CA that does its part.
use prismproxy.Prelude.{
  ℕ, String, ◌≡◌, refl, true, false, some, List, [], ◌∷◌, ◌++◌, All, show, insert, format,
}
use prismproxy.Exec.{Flow, returns, fails, panics, elapsed, pure}
use prismproxy.Exec.Hoare.{Ends-eq-returns, Ends, Hoare, Hoare-bind}
use prismproxy.Config.{TlsConfig}
use prismproxy.State.{join}
use prismproxy.Disk.{write, exists}
use prismproxy.Disk.Fates.{IsFair, write-IsFair, write-ok}
use prismproxy.Acme.Base.{Ca, Machine, Challenge, Authorization, call, on_disk, seconds_now, tell}
use prismproxy.Acme.Steps.{
  find_http01, begin_order, store_challenges, set_ready, until_ready, until_downloaded,
  request_certificate,
}
use prismproxy.Acme.Polling.{ClockLaws}
use prismproxy.Acme.Contract.{IsObliging}
use prismproxy.Acme.Patience.{Never, Stage, Fairly, until_ready-Ends, until_downloaded-Ends}
use prismproxy.Acme.Installed.{IsInstalled, IsNew}
use prismproxy.Acme.Outcome.{provision_with_store-IsInstalled}
use prismproxy.Acme.{install, provision_inner_with_store, lock, cleaning, provision_with_store}
use prismproxy.Acme.Fair.{answered, done, install-succeeds, IsFree, lock-succeeds}

module _ {ca : Ca} (laws : ClockLaws ca) (o : IsObliging ca) where
  open ca use {
    Order, KeyPair, create_account, new_order, authorizations, finalize, generate, params,
    serialize_request, serialize_pem, key_authorization,
  }

  -- Each authorization has a challenge that can be met.
  abbrev Offered : List Authorization → Machine ca → Type 0
  Offered auths m =
      All (λ auth. (c : Challenge) × (find_http01 auth ≡ some c)) auths × Stage laws o false m

  begin_order-succeeds :
      (tls_config : TlsConfig)
      → Hoare
          (Fairly laws o)
          (begin_order ca tls_config)
          (λ (order : Order). Stage laws o false)
          Never
  begin_order-succeeds tls_config =
      Hoare-bind
        (call "create account: " (
          create_account (format ("mailto:" ∷ tls_config.acme_email ∷ []))
            tls_config.acme_directory))
        _
        (answered (Fairly laws o) (λ account. Fairly laws o) _ _
          λ m fair. let (a, e) = o.has_account _ _ m.world in (a, e, fair))
        λ account.
          answered (Fairly laws o) (λ order. Stage laws o false) "new order: "
            (new_order account tls_config.domains)
            λ m fair.
              let (x, e, open_still) = o.has_order account _ m.world in (x, e, (fair, open_still))

  store_challenges-succeeds :
      (order : Order) (auths : List Authorization) (urls : List String)
      → Hoare
          (Offered auths)
          (store_challenges ca order auths urls)
          (λ (us : List String). Stage laws o false)
          Never
  unfolding store_challenges
  store_challenges-succeeds order [] urls = record { run = λ m h. h.1 }
  store_challenges-succeeds order (auth ∷ auths) urls = record {
    run = λ m h.
        let (c, found) = h.0.0 in
        rw found (
          (store_challenges-succeeds order auths (urls ++ c.url ∷ [])).run
            (record m { challenges = insert c.token (key_authorization order c) m.challenges })
            (h.0.1, h.1));
  }

  set_ready-succeeds :
      (order : Order) (urls : List String)
      → Hoare
          (Stage laws o false)
          (set_ready ca order urls)
          (λ (u : Unit {0}). Stage laws o false)
          Never
  unfolding set_ready
  set_ready-succeeds order [] = record { run = λ m h. h }
  set_ready-succeeds order (url ∷ urls) =
      Hoare-bind (tell order url) _
        (record {
          run = λ m h. let (e, still) = o.is_told order url m.world h.1 in rw e (h.0, still);
        })
        λ _. set_ready-succeeds order urls

  request_certificate-succeeds :
      (domains : List String) (order : Order)
      → Hoare
          (Fairly laws o)
          (request_certificate ca domains order)
          (λ (k : KeyPair). Stage laws o true)
          Never
  request_certificate-succeeds domains order = record {
    run = λ m fair.
        let (p, e) = o.has_params domains in
        let (k, e') = o.has_key m.world in
        let (csr, e'') = o.has_request p k in
        let (e3, final) = o.is_finalized order csr (generate m.world).1 in
        rw (e, e', e'', e3) (fair, final);
  }

  inner-succeeds :
      (tls_config : TlsConfig)
      → Hoare
          (Fairly laws o)
          (provision_inner_with_store ca tls_config)
          (λ (pair : String × String) (m : Machine ca). Unit)
          Never
  unfolding provision_inner_with_store
  inner-succeeds tls_config =
      let cache = tls_config.cache_dir in
      Hoare-bind (begin_order ca tls_config) _ (begin_order-succeeds tls_config) λ order.
        Hoare-bind (call "get authorizations: " (authorizations order)) _
          (answered (Stage laws o false) Offered _ _ λ m h.
            let (auths, e, still, all) = o.has_challenges order m.world h.1 in
            (auths, e, (all, (h.0, still))))
          λ auths.
            Hoare-bind (store_challenges ca order auths []) _
              (store_challenges-succeeds order auths [])
              λ urls. Hoare-bind (set_ready ca order urls) _ (set_ready-succeeds order urls) λ _.
                Hoare-bind (until_ready ca order) _ (until_ready-Ends laws o order) λ _.
                  Hoare-bind (request_certificate ca tls_config.domains order) _
                    (request_certificate-succeeds tls_config.domains order)
                    λ key_pair.
                      Hoare-bind (until_downloaded ca order) _ (until_downloaded-Ends laws o order)
                        λ cert.
                          Hoare-bind (install ca cache cert (serialize_pem key_pair)) _
                            (install-succeeds cache cert (serialize_pem key_pair))
                            λ _. Hoare-bind seconds_now _ (seconds-succeeds tls_config) λ time.
                              Hoare-bind
                                (on_disk "write issued_at: "
                                  (write (join cache "issued_at") (show time)))
                                (λ (u : Unit {0}). pure (cert, serialize_pem key_pair))
                                (done IsFair IsFair _ _
                                  λ d fair. (write-ok d fair _ _, write-IsFair d fair _ _))
                                λ _. end_of (cert, serialize_pem key_pair)
    where
      end_of :
          (pair : String × String)
          → Hoare (Fairly laws o) (pure pair) (λ (p : String × String) (m : Machine ca). Unit) Never
      end_of pair = record { run = λ m fair. tt }

      seconds-succeeds :
          (t : TlsConfig) → Hoare (Fairly laws o) seconds_now (λ (n : ℕ). Fairly laws o) Never
      seconds-succeeds t = record { run = λ m fair. fair }

module _ {S A : Type 0} where
  -- In whatever state it ends.
  Ends-anywhere :
      (r : Flow A) (s t : S)
      → Ends (λ (a : A) (x : S). Unit) Never r s
      → Ends (λ (a : A) (x : S). Unit) Never r t
  Ends-anywhere (returns a) s t h = tt
  Ends-anywhere (fails e) s t h = h
  Ends-anywhere panics s t h = h
  Ends-anywhere elapsed s t h = h

  Ends-returns :
      (r : Flow A) (s : S) → Ends (λ (a : A) (x : S). Unit) Never r s → (a : A) × (r ≡ returns a)
  Ends-returns (returns a) s h = (a, refl)
  Ends-returns (fails e) s h = absurd h
  Ends-returns panics s h = absurd h
  Ends-returns elapsed s h = absurd h

module _ {ca : Ca} (laws : ClockLaws ca) (o : IsObliging ca) (tls_config : TlsConfig) where
  with_store-succeeds :
      Hoare
        (IsFree tls_config.cache_dir)
        (provision_with_store ca tls_config)
        (λ (pair : String × String) (m : Machine ca). Unit)
        Never
  unfolding provision_with_store cleaning
  with_store-succeeds =
      let inner = provision_inner_with_store ca tls_config in
      Hoare-bind (lock ca tls_config.cache_dir) _ (lock-succeeds tls_config.cache_dir) λ _. record {
        run = λ m fair.
            Ends-anywhere (inner m).0 (inner m).1 _ ((inner-succeeds laws o tls_config).run m fair);
      }

  -- It returns a pair, and what it says of a pair that it returned holds.
  pub provision_with_store-returns :
      (m : Machine ca)
      → IsFair m.disk
      → exists (join tls_config.cache_dir ".renewing") m.disk ≡ false
      → (pair : String × String) × ((provision_with_store ca tls_config m).0 ≡ returns pair)
        × IsNew ca tls_config pair (provision_with_store ca tls_config m).1.disk
  provision_with_store-returns m fair free =
      let r = provision_with_store ca tls_config m in
      let (pair, e) = Ends-returns r.0 r.1 (with_store-succeeds.run m (fair, free)) in
      (pair, e, Ends-eq-returns _ _ r.0 r.1 pair e (provision_with_store-IsInstalled tls_config m))

  -- With a CA that does its part (it answers, offers an HTTP-01 challenge for each authorization,
  -- and by the polls within 120 and 60 seconds has the order ready and the certificate there), a
  -- clock that does not go back and sleeps that last, files with which nothing goes wrong and no
  -- lock file, `provision_with_store` returns a certificate and a key, and these are then the files
  -- that the proxy loads.
  pub provision_with_store-succeeds :
      (m : Machine ca)
      → IsFair m.disk
      → exists (join tls_config.cache_dir ".renewing") m.disk ≡ false
      → (pair : String × String) × ((provision_with_store ca tls_config m).0 ≡ returns pair)
        × IsInstalled tls_config.cache_dir pair (provision_with_store ca tls_config m).1.disk
  provision_with_store-succeeds m fair free =
      let (pair, e, is_new) = provision_with_store-returns m fair free in (pair, e, is_new.0)
