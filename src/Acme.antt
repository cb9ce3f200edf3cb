-- ===== src/Acme.antt =====
-- acme.rs: `provision` and `provision_with_store`, with the two inner functions. What they act on is
-- in Base, and the steps of an order are in Steps.
pub mod Base
pub mod Steps
pub mod Polling
pub mod Parts
pub mod Ending
pub mod Tidy
pub mod Leftovers
pub mod Unchanged
pub mod Outcome
pub mod Installed
pub mod Pair
pub mod Keeps
pub mod Issued
pub mod Replacing
pub mod Renewal
pub mod Told
pub mod Fetched
pub mod Contract
pub mod Patience
pub mod Fair
pub mod Success
pub mod Renews
pub mod Locked
pub mod Waiting
pub mod Obliging
mod SuccessTests
pub mod Honest
pub mod Offers
pub mod Toy
pub mod Origin
mod Tests
use prismproxy.Prelude.{ℕ, String, Bool, true, false, List, [], ◌∷◌, show}
use prismproxy.Errors.{ProxyError, acme}
use prismproxy.Exec.{Flow, returns, fails, panics, elapsed, Exec, pure, raise, lift, ◌>>=◌, ◌>>◌}
use prismproxy.Config.{TlsConfig}
use prismproxy.State.{join}
use prismproxy.Disk.{write, rename, remove_file, exists, create_dir_all}
use prismproxy.Acme.Base.{Ca, Machine, call, on_disk, ignoring, seconds_now, serve, closing}
use prismproxy.Acme.Steps.{
  begin_order, collect_challenges, store_challenges, set_ready, wait_ready, until_ready, download,
  download_by, until_downloaded, request_certificate,
}

module _ (ca : Ca) where
  open ca use {Order, authorizations, bind, serialize_pem}

  -- The temporary files and the renames.
  unfoldable pub install : String → String → String → Exec (Machine ca) (Unit {0})
  install cache cert key = do
    on_disk "write cert.pem.tmp: " (write (join cache "cert.pem.tmp") cert)
    on_disk "write key.pem.tmp: " (write (join cache "key.pem.tmp") key)
    on_disk "rename cert.pem: " (rename (join cache "cert.pem.tmp") (join cache "cert.pem"))
    on_disk "rename key.pem: " (rename (join cache "key.pem.tmp") (join cache "key.pem"))

  -- `provision_inner` once the listener is bound.
  unfoldable pub provision_served :
      ℕ
      → TlsConfig
      → Order
      → List (String × String)
      → List String
      → Exec (Machine ca) (String × String)
  unfolding set_ready wait_ready download install
  provision_served rounds tls_config order challenges urls = do
    serve challenges
    set_ready ca order urls
    until_ready ca order
    serve []
    key_pair ← request_certificate ca tls_config.domains order
    cert ← download ca rounds order
    install tls_config.cache_dir cert (serialize_pem key_pair)
    time ← seconds_now
    ignoring (write (join tls_config.cache_dir "issued_at") (show time))
    pure (cert, serialize_pem key_pair)

  -- `provision_inner`
  unfoldable pub provision_inner : ℕ → TlsConfig → String → Exec (Machine ca) (String × String)
  unfolding collect_challenges provision_served
  provision_inner rounds tls_config listen = do
    order ← begin_order ca tls_config
    auths ← call "get authorizations: " (authorizations order)
    collected ← lift (collect_challenges ca order auths [] [])
    call "bind challenge server: " (bind listen)
    closing (provision_served rounds tls_config order collected.0 collected.1)

  -- `provision_inner_with_store`
  unfoldable pub provision_inner_with_store : TlsConfig → Exec (Machine ca) (String × String)
  unfolding store_challenges set_ready wait_ready download_by install
  provision_inner_with_store tls_config = do
    order ← begin_order ca tls_config
    auths ← call "get authorizations: " (authorizations order)
    urls ← store_challenges ca order auths []
    set_ready ca order urls
    until_ready ca order
    key_pair ← request_certificate ca tls_config.domains order
    cert ← until_downloaded ca order
    install tls_config.cache_dir cert (serialize_pem key_pair)
    time ← seconds_now
    on_disk "write issued_at: " (write (join tls_config.cache_dir "issued_at") (show time))
    pure (cert, serialize_pem key_pair)

  abbrev pub in_progress : ProxyError
  in_progress = acme "another renewal is in progress (.renewing exists)"

  abbrev pub lock_unless : Bool → String → Exec (Machine ca) (Unit {0})
  lock_unless true path = raise in_progress
  lock_unless false path = on_disk "create lockfile: " (write path "")

  -- The directory, and the lock file.
  abbrev pub lock : String → Exec (Machine ca) (Unit {0})
  lock cache = do
    on_disk "create cache_dir: " create_dir_all
    λ m. lock_unless (exists (join cache ".renewing") m.disk) (join cache ".renewing") m

  -- What is removed once the inner function has ended, by an error or not.
  abbrev pub after_failure : String → Exec (Machine ca) (Unit {0})
  after_failure cache = do
    ignoring (remove_file (join cache ".renewing"))
    ignoring (remove_file (join cache "cert.pem.tmp"))
    ignoring (remove_file (join cache "key.pem.tmp"))

  abbrev pub clean_up : {A : Type 0} → String → Flow A → Exec (Machine ca) (Unit {0})
  clean_up cache (returns a) = ignoring (remove_file (join cache ".renewing"))
  clean_up cache (fails e) = after_failure cache
  clean_up cache panics = pure tt
  clean_up cache elapsed = pure tt

  -- `let result = inner.await;`, what is done with it, and `result`.
  unfoldable pub cleaning : {A : Type 0} → String → Exec (Machine ca) A → Exec (Machine ca) A
  cleaning cache inner m = let r = inner m in (r.0, (clean_up cache r.0 r.1).1)

  -- `provision`
  unfoldable pub provision : ℕ → TlsConfig → String → Exec (Machine ca) (String × String)
  unfolding provision_inner cleaning
  provision rounds tls_config listen = do
    lock tls_config.cache_dir
    cleaning tls_config.cache_dir (provision_inner rounds tls_config listen)

  abbrev pub clear_store : {A : Type 0} → Flow A → (Machine ca) → (Machine ca)
  clear_store (returns a) m = record m { challenges = [] }
  clear_store (fails e) m = record m { challenges = [] }
  clear_store panics m = m
  clear_store elapsed m = m

  -- `store.write().unwrap().clear()` once the inner function has ended.
  abbrev pub clearing : {A : Type 0} → Exec (Machine ca) A → Exec (Machine ca) A
  clearing body m = let r = body m in (r.0, clear_store r.0 r.1)

  -- `provision_with_store`
  unfoldable pub provision_with_store : TlsConfig → Exec (Machine ca) (String × String)
  unfolding provision_inner_with_store cleaning
  provision_with_store tls_config = do
    lock tls_config.cache_dir
    clearing (cleaning tls_config.cache_dir (provision_inner_with_store tls_config))
