-- ===== src/Acme/Steps.antt =====
-- The order of acme.rs's two inner functions, up to the certificate.
use prismproxy.Prelude.{
  ℕ, zero, suc, ◌+◌, String, Option, none, some, List, [], ◌∷◌, ◌++◌, format, ltb, insert,
  if◌then◌else◌, Result, ok, ok_or, map_err, ◌>>=◌ as ◌>>?◌,
}
use prismproxy.Errors.{ProxyError, acme}
use prismproxy.Exec.{Exec, pure, raise, lift, ◌>>=◌, ◌>>◌}
use prismproxy.Config.{TlsConfig}
use prismproxy.Acme.Base.{
  Ca, Machine, OrderStatus, ready, invalid, http01, Challenge, Authorization, secs, failure, call,
  pause, instant, dropped, publish, tell,
}

-- `challenges.iter().find(|c| c.r#type == ChallengeType::Http01)`
unfoldable pub find_http01 : Authorization → Option Challenge
find_http01 [] = none
find_http01 (c ∷ cs) = elim c.kind [ http01 ↦ some c | _ ↦ find_http01 cs ]

abbrev pub no_challenge : ProxyError
no_challenge = acme "no HTTP-01 challenge available"

module _ (ca : Ca) where
  open ca use {
    Order, Params, KeyPair, Csr, create_account, new_order, key_authorization, refresh, finalize,
    certificate, params, generate, serialize_request,
  }

  abbrev pub begin_order : TlsConfig → Exec (Machine ca) Order
  begin_order tls_config = do
    account ←
        call "create account: " (
          create_account (format ("mailto:" ∷ tls_config.acme_email ∷ []))
            tls_config.acme_directory)
    call "new order: " (new_order account tls_config.domains)

  -- The loop over the authorizations in `provision_inner`.
  unfoldable pub collect_challenges :
      Order
      → List Authorization
      → List (String × String)
      → List String
      → Result (List (String × String) × List String) ProxyError
  unfolding find_http01
  collect_challenges order [] challenges urls = ok (challenges, urls)
  collect_challenges order (auth ∷ auths) challenges urls =
      ok_or (find_http01 auth) no_challenge >>? λ challenge.
      collect_challenges order auths
        (insert challenge.token (key_authorization order challenge) challenges)
        (urls ++ challenge.url ∷ [])

  -- The loop over the authorizations in `provision_inner_with_store`.
  unfoldable pub store_challenges :
      Order → List Authorization → List String → Exec (Machine ca) (List String)
  unfolding find_http01
  store_challenges order [] urls = pure urls
  store_challenges order (auth ∷ auths) urls = do
    challenge ← lift (ok_or (find_http01 auth) no_challenge)
    publish challenge.token (key_authorization order challenge)
    store_challenges order auths (urls ++ challenge.url ∷ [])

  -- `for url in &challenge_urls { order.set_challenge_ready(url)… }`
  unfoldable pub set_ready : Order → List String → Exec (Machine ca) (Unit {0})
  set_ready order [] = pure tt
  set_ready order (url ∷ urls) = do tell order url; set_ready order urls

  -- The test of the deadline at the end of a round.
  abbrev pub unless_late : ℕ → String → Exec (Machine ca) (Unit {0}) → Exec (Machine ca) (Unit {0})
  unless_late deadline message next = do
    time ← instant
    if ltb deadline time then raise (acme message) else next

  abbrev pub after_status :
      ℕ → OrderStatus → Exec (Machine ca) (Unit {0}) → Exec (Machine ca) (Unit {0})
  after_status deadline ready next = pure tt
  after_status deadline invalid next = raise (acme "ACME order became invalid")
  after_status deadline _ next = unless_late deadline "ACME order timed out after 120s" next

  -- The loop that polls the order, with the rounds that it may make.
  unfoldable pub wait_ready : ℕ → ℕ → Order → Exec (Machine ca) (Unit {0})
  wait_ready zero deadline order = dropped
  wait_ready (suc rounds) deadline order = do
    pause (secs 3)
    status ← call "refresh order: " (refresh order)
    after_status deadline status (wait_ready rounds deadline order)

  abbrev pub until_ready : Order → Exec (Machine ca) (Unit {0})
  until_ready order = do started ← instant; wait_ready 41 (started + secs 120) order

  abbrev pub or_again : Option String → Exec (Machine ca) String → Exec (Machine ca) String
  or_again none next = next
  or_again (some cert) next = pure cert

  abbrev pub or_until : ℕ → Option String → Exec (Machine ca) String → Exec (Machine ca) String
  or_until deadline (some cert) next = pure cert
  or_until deadline none next = do
    time ← instant
    if ltb deadline time then raise (acme "cert not ready after 60s") else next

  -- The loop that downloads the certificate in `provision_inner`: no deadline ends it.
  unfoldable pub download : ℕ → Order → Exec (Machine ca) String
  download zero order = dropped
  download (suc rounds) order = do
    pause (secs 1)
    found ← call "download cert: " (certificate order)
    or_again found (download rounds order)

  -- The loop of `provision_inner_with_store`, which has a deadline.
  unfoldable pub download_by : ℕ → ℕ → Order → Exec (Machine ca) String
  download_by zero deadline order = dropped
  download_by (suc rounds) deadline order = do
    pause (secs 2)
    found ← call "get certificate: " (certificate order)
    or_until deadline found (download_by rounds deadline order)

  abbrev pub until_downloaded : Order → Exec (Machine ca) String
  until_downloaded order = do started ← instant; download_by 31 (started + secs 60) order

  -- The key pair and the request for the certificate, and `finalize`.
  abbrev pub request_certificate : List String → Order → Exec (Machine ca) KeyPair
  request_certificate domains order = do
    cert_params ← lift (map_err (failure "cert params: ") (params domains))
    key_pair ← call "key generation: " generate
    csr ← lift (map_err (failure "serialize CSR: ") (serialize_request cert_params key_pair))
    call "finalize order: " (finalize order csr)
    pure key_pair
