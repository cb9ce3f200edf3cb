-- ===== src/Acme/Parts.antt =====
-- Properties of code that pass from its steps to acme.rs's handling of an order.
use prismproxy.Prelude.{
  ℕ, zero, suc, ◌+◌, String, Bool, true, false, Option, none, some, List, [], ◌∷◌, ◌++◌, format,
  ltb, ok_or, map_err, Result, ok, err, if◌then◌else◌,
}
use prismproxy.Errors.{ProxyError, acme}
use prismproxy.Exec.{Exec, raise, lift, ◌>>=◌}
use prismproxy.Config.{TlsConfig}
use prismproxy.Acme.Base.{
  Ca, Machine, OrderStatus, pending, ready, processing, valid, invalid, Authorization, secs,
  failure, call, pause, instant, dropped, publish, tell,
}
use prismproxy.Acme.Steps.{
  find_http01, no_challenge, begin_order, store_challenges, set_ready, unless_late, after_status,
  wait_ready, until_ready, or_again, or_until, download, download_by, until_downloaded,
  request_certificate,
}

-- A property of code that a chain has if its steps have it, and that each step on the CA has.
pub record Closed (ca : Ca) (P : (A : Type 0) → Exec (Machine ca) A → Type 0) : Type 1 where
  pub of_bind :
      (A B : Type 0) (m : Exec (Machine ca) A) (f : A → Exec (Machine ca) B)
      → P A m
      → ((a : A) → P B (f a))
      → P B (m >>= f)
  pub of_call :
      (A : Type 0) (what : String) (operation : ca.World → Result A String × ca.World)
      → P A (call what operation)
  pub of_lift : (A : Type 0) (r : Result A ProxyError) → P A (lift r)
  pub of_pause : (d : ℕ) → P (Unit {0}) (pause d)
  pub of_instant : P ℕ instant

module _ {ca : Ca} {P : (A : Type 0) → Exec (Machine ca) A → Type 0} (c : Closed ca P) where
  open ca use {
    Order, Params, KeyPair, Csr, create_account, new_order, key_authorization, refresh, finalize,
    certificate, params, generate, serialize_request,
  }

  -- `m`, then `f`.
  then_so :
      {A B : Type 0} (m : Exec (Machine ca) A) {f : A → Exec (Machine ca) B}
      → P A m
      → ((a : A) → P B (f a))
      → P B (m >>= f)
  then_so {A} {B} m {f} h k = c.of_bind A B m f h k

  pub begin_order-Closed : (tls_config : TlsConfig) → P Order (begin_order ca tls_config)
  begin_order-Closed tls_config =
      then_so
        (call "create account: " (
          create_account (format ("mailto:" ∷ tls_config.acme_email ∷ []))
            tls_config.acme_directory))
        (c.of_call _ _ _)
        λ account. c.of_call _ "new order: " (new_order account tls_config.domains)

  pub store_challenges-Closed :
      ((token key_auth : String) → P (Unit {0}) (publish token key_auth))
      → (order : Order) (auths : List Authorization) (urls : List String)
      → P (List String) (store_challenges ca order auths urls)
  unfolding store_challenges
  store_challenges-Closed of_publish order [] urls = c.of_lift _ (ok urls)
  store_challenges-Closed of_publish order (auth ∷ auths) urls =
      then_so (lift (ok_or (find_http01 auth) no_challenge)) (c.of_lift _ _) λ challenge.
        then_so (publish challenge.token (key_authorization order challenge)) (of_publish _ _)
          λ _. store_challenges-Closed of_publish order auths (urls ++ challenge.url ∷ [])

  pub set_ready-Closed :
      ((order : Order) (url : String) → P (Unit {0}) (tell order url))
      → (order : Order) (urls : List String) → P (Unit {0}) (set_ready ca order urls)
  unfolding set_ready
  set_ready-Closed of_tell order [] = c.of_lift _ (ok tt)
  set_ready-Closed of_tell order (url ∷ urls) =
      then_so (tell order url) (of_tell order url) λ _. set_ready-Closed of_tell order urls

  pub request_certificate-Closed :
      (domains : List String) (order : Order) → P KeyPair (request_certificate ca domains order)
  request_certificate-Closed domains order =
      then_so (lift (map_err (failure "cert params: ") (params domains))) (c.of_lift _ _)
        λ cert_params. then_so (call "key generation: " generate) (c.of_call _ _ _) λ key_pair.
          then_so
            (lift (map_err (failure "serialize CSR: ") (serialize_request cert_params key_pair)))
            (c.of_lift _ _)
            λ csr.
              then_so (call "finalize order: " (finalize order csr)) (c.of_call _ _ _)
                λ _. c.of_lift _ (ok key_pair)

  -- The polls, for a property that code which is cut off has too.
  module _ (of_dropped : (A : Type 0) → P A dropped) where
    Closed-if :
        {A : Type 0} (b : Bool) (m n : Exec (Machine ca) A)
        → P A m
        → P A n
        → P A (if b then m else n)
    Closed-if true m n hm hn = hm
    Closed-if false m n hm hn = hn

    unless_late-Closed :
        (deadline : ℕ) (message : String) (next : Exec (Machine ca) (Unit {0}))
        → P (Unit {0}) next
        → P (Unit {0}) (unless_late ca deadline message next)
    unless_late-Closed deadline message next h =
        then_so instant c.of_instant
          λ time. Closed-if (ltb deadline time) (raise (acme message)) next (c.of_lift _ (err _)) h

    after_status-Closed :
        (deadline : ℕ) (status : OrderStatus) (next : Exec (Machine ca) (Unit {0}))
        → P (Unit {0}) next
        → P (Unit {0}) (after_status ca deadline status next)
    after_status-Closed deadline ready next h = c.of_lift _ (ok tt)
    after_status-Closed deadline invalid next h = c.of_lift _ (err _)
    after_status-Closed deadline pending next h = unless_late-Closed deadline _ next h
    after_status-Closed deadline processing next h = unless_late-Closed deadline _ next h
    after_status-Closed deadline valid next h = unless_late-Closed deadline _ next h

    wait_ready-Closed :
        (rounds deadline : ℕ) (order : Order) → P (Unit {0}) (wait_ready ca rounds deadline order)
    unfolding wait_ready
    wait_ready-Closed zero deadline order = of_dropped _
    wait_ready-Closed (suc rounds) deadline order = then_so (pause (secs 3)) (c.of_pause _) λ _.
        then_so (call "refresh order: " (refresh order)) (c.of_call _ _ _) λ status.
          after_status-Closed deadline status (wait_ready ca rounds deadline order)
            (wait_ready-Closed rounds deadline order)

    pub until_ready-Closed : (order : Order) → P (Unit {0}) (until_ready ca order)
    until_ready-Closed order =
        then_so instant c.of_instant λ started. wait_ready-Closed 41 (started + secs 120) order

    or_again-Closed :
        (found : Option String) (next : Exec (Machine ca) String)
        → P String next
        → P String (or_again ca found next)
    or_again-Closed none next h = h
    or_again-Closed (some cert) next h = c.of_lift _ (ok cert)

    pub download-Closed : (rounds : ℕ) (order : Order) → P String (download ca rounds order)
    unfolding download
    download-Closed zero order = of_dropped _
    download-Closed (suc rounds) order = then_so (pause (secs 1)) (c.of_pause _) λ _.
        then_so (call "download cert: " (certificate order)) (c.of_call _ _ _)
          λ found. or_again-Closed found (download ca rounds order) (download-Closed rounds order)

    or_until-Closed :
        (deadline : ℕ) (found : Option String) (next : Exec (Machine ca) String)
        → P String next
        → P String (or_until ca deadline found next)
    or_until-Closed deadline (some cert) next h = c.of_lift _ (ok cert)
    or_until-Closed deadline none next h = then_so instant c.of_instant λ time.
        Closed-if (ltb deadline time) (raise (acme "cert not ready after 60s")) next
          (c.of_lift _ (err _)) h

    download_by-Closed :
        (rounds deadline : ℕ) (order : Order) → P String (download_by ca rounds deadline order)
    unfolding download_by
    download_by-Closed zero deadline order = of_dropped _
    download_by-Closed (suc rounds) deadline order = then_so (pause (secs 2)) (c.of_pause _) λ _.
        then_so (call "get certificate: " (certificate order)) (c.of_call _ _ _) λ found.
          or_until-Closed deadline found (download_by ca rounds deadline order)
            (download_by-Closed rounds deadline order)

    pub until_downloaded-Closed : (order : Order) → P String (until_downloaded ca order)
    until_downloaded-Closed order =
        then_so instant c.of_instant λ started. download_by-Closed 31 (started + secs 60) order
