-- ===== src/Acme/Origin.antt =====
-- Where the certificate and the key of acme.rs's provisioning come from.
use prismproxy.Prelude.{
  ℕ, zero, suc, String, ◌≡◌, ap, Option, none, some, List, [], ◌∷◌, format, Result, ok, err,
  map_err, Bool, true, false, if◌then◌else◌, ltb, ◌+◌,
}
use prismproxy.Errors.{ProxyError, acme}
use prismproxy.Exec.{
  returns, Exec, lift, raise, flow_of, Yields, Yields-bind, Yields-bind_given, Yields-pure,
  returns-injective,
}
use prismproxy.Config.{TlsConfig}
use prismproxy.Acme.Base.{Ca, Machine, secs, failure, call, pause, instant}
use prismproxy.Acme.Steps.{
  begin_order, or_again, or_until, download, download_by, until_downloaded, request_certificate,
}

-- What a call answered, at some moment.
abbrev pub Answers : {W A : Type 0} → (W → Result A String × W) → A → Type 0
Answers {W} operation a = (w : W) × ((operation w).0 ≡ ok a)

flow_of-map_err :
    {A : Type 0} (f : String → ProxyError) (r : Result A String) (a : A)
    → flow_of (map_err f r) ≡ returns a
    → r ≡ ok a
flow_of-map_err f (ok b) a h = ap ok (returns-injective h)
flow_of-map_err f (err e) a h = cc

module _ (ca : Ca) (domains : List String) where
  -- The order was finalized with a request of this key, made for the domains.
  pub record IsAsked (order : ca.Order) (key_pair : ca.KeyPair) : Type 0 where
    pub cert_params : ca.Params
    pub csr : ca.Csr
    pub of_domains : ca.params domains ≡ ok cert_params
    pub generated : Answers ca.generate key_pair
    pub of_key : ca.serialize_request cert_params key_pair ≡ ok csr
    pub finalized : Answers (ca.finalize order csr) tt

  -- The CA answered a request for an order for the domains with this one.
  abbrev pub IsOrdered : ca.Order → Type 0
  IsOrdered order = (account : ca.Account) × Answers (ca.new_order account domains) order

  -- The CA gave the certificate for an order for the domains that was finalized with a request of this key.
  pub record IsIssued (cert : String) (key_pair : ca.KeyPair) : Type 0 where
    pub order : ca.Order
    pub ordered : IsOrdered order
    pub asked : IsAsked order key_pair
    pub given : Answers (ca.certificate order) (some cert)

  -- A certificate from the CA, and the key that it is for.
  abbrev pub IsGot : String × String → Type 0
  IsGot pair =
      (key_pair : ca.KeyPair) × IsIssued pair.0 key_pair × (ca.serialize_pem key_pair ≡ pair.1)

module _ {ca : Ca} where
  pub call-Yields :
      {A : Type 0} (what : String) (operation : ca.World → Result A String × ca.World)
      → Yields (Answers operation) (call {ca = ca} what operation)
  call-Yields what operation = record {
    holds = λ m a h. (m.world, flow_of-map_err (failure what) (operation m.world).0 a h);
  }

  lift-Yields :
      {A : Type 0} (what : String) (r : Result A String)
      → Yields (λ a. r ≡ ok a) (lift {S = Machine ca} (map_err (failure what) r))
  lift-Yields what r = record { holds = λ m a h. flow_of-map_err (failure what) r a h }

  pub begin_order-Yields :
      (tls_config : TlsConfig)
      → Yields (IsOrdered ca tls_config.domains) (begin_order ca tls_config)
  begin_order-Yields tls_config =
      Yields-bind
        (call "create account: " (
          ca.create_account (format ("mailto:" ∷ tls_config.acme_email ∷ []))
            tls_config.acme_directory))
        _
        λ account. record {
          holds = λ m a h. (
            account,
            (call-Yields "new order: " (ca.new_order account tls_config.domains)).holds m a h,
          );
        }

  pub request_certificate-Yields :
      (domains : List String) (order : ca.Order)
      → Yields (IsAsked ca domains order) (request_certificate ca domains order)
  request_certificate-Yields domains order =
      Yields-bind_given (λ p. ca.params domains ≡ ok p)
        (lift (map_err (failure "cert params: ") (ca.params domains))) _ (lift-Yields _ _)
        λ p made.
          Yields-bind_given (Answers ca.generate) (call "key generation: " ca.generate) _
            (call-Yields _ _)
            λ k generated.
              Yields-bind_given (λ csr. ca.serialize_request p k ≡ ok csr)
                (lift (map_err (failure "serialize CSR: ") (ca.serialize_request p k))) _
                (lift-Yields _ _)
                λ csr written.
                  Yields-bind_given (Answers (ca.finalize order csr))
                    (call "finalize order: " (ca.finalize order csr)) _ (call-Yields _ _)
                    λ u finalized. Yields-pure k (record {
                      cert_params = p;
                      csr = csr;
                      of_domains = made;
                      generated = generated;
                      of_key = written;
                      finalized = finalized;
                    })

module _ (ca : Ca) (order : ca.Order) where
  -- The CA answered the certificate of the order.
  abbrev pub IsGiven : String → Type 0
  IsGiven cert = Answers (ca.certificate order) (some cert)

  or_again-Yields :
      (found : Option String) (next : Exec (Machine ca) String)
      → Answers (ca.certificate order) found
      → Yields IsGiven next
      → Yields IsGiven (or_again ca found next)
  or_again-Yields none next given h = h
  or_again-Yields (some cert) next given h = Yields-pure cert given

  pub download-Yields : (rounds : ℕ) → Yields IsGiven (download ca rounds order)
  unfolding download
  download-Yields zero = record { holds = λ m a h. cc }
  download-Yields (suc rounds) = Yields-bind (pause (secs 1)) _ λ u.
      Yields-bind_given (Answers (ca.certificate order))
        (call "download cert: " (ca.certificate order)) _ (call-Yields _ _)
        λ found given.
          or_again-Yields found (download ca rounds order) given (download-Yields rounds)

  late-Yields :
      (late : Bool) (next : Exec (Machine ca) String)
      → Yields IsGiven next
      → Yields IsGiven (if late then raise (acme "cert not ready after 60s") else next)
  late-Yields true next h = record { holds = λ m a h. cc }
  late-Yields false next h = h

  or_until-Yields :
      (deadline : ℕ) (found : Option String) (next : Exec (Machine ca) String)
      → Answers (ca.certificate order) found
      → Yields IsGiven next
      → Yields IsGiven (or_until ca deadline found next)
  or_until-Yields deadline (some cert) next given h = Yields-pure cert given
  or_until-Yields deadline none next given h =
      Yields-bind instant _ λ time. late-Yields (ltb deadline time) next h

  download_by-Yields : (rounds deadline : ℕ) → Yields IsGiven (download_by ca rounds deadline order)
  unfolding download_by
  download_by-Yields zero deadline = record { holds = λ m a h. cc }
  download_by-Yields (suc rounds) deadline = Yields-bind (pause (secs 2)) _ λ u.
      Yields-bind_given (Answers (ca.certificate order))
        (call "get certificate: " (ca.certificate order)) _ (call-Yields _ _)
        λ found given.
          or_until-Yields deadline found (download_by ca rounds deadline order) given
            (download_by-Yields rounds deadline)

  pub until_downloaded-Yields : Yields IsGiven (until_downloaded ca order)
  until_downloaded-Yields =
      Yields-bind instant _ λ started. download_by-Yields 31 (started + secs 60)
