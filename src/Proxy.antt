-- ===== src/Proxy.antt =====
-- proxy.rs: `forward`, with the awaiting parts of pool.rs. One task runs it; what other tasks do to
-- the shared pool while this one waits for the lock is part of the world.
pub mod Forward
pub mod Headers
pub mod Outcome
mod Tests
use mathlib.Core.List.{foldl}
use prismproxy.Prelude.{
  ℕ, ◌+◌, ◌/◌, ◌%◌, String, Bool, Option, none, some, List, [], ◌∷◌, format, show, ltb, ◌==◌,
  if◌then◌else◌, Result, ok, err, map_err,
}
use prismproxy.Errors.{ProxyError, hyper, upstream_connect, timeout}
use prismproxy.Exec.{
  Flow, returns, fails, panics, elapsed, Exec, pure, raise, lift, unwrap, ◌>>=◌, ◌>>◌,
}
use prismproxy.Http.{Http, Net, Request, Response, Await, ready, late, Bytes}
use prismproxy.Pool.{Pool, take_idle, release, run}

-- `HOP_BY_HOP`
abbrev pub hop_by_hop : List String
hop_by_hop =
    "connection" ∷ "keep-alive" ∷ "proxy-authenticate" ∷ "proxy-authorization" ∷ "te" ∷ "trailers"
    ∷ "transfer-encoding" ∷ "upgrade" ∷ []

module _ (http : Http) where
  open http use {Headers, Value, empty, get, insert, append, remove, entries, parse_value}

  -- `for h in HOP_BY_HOP { headers.remove(h) }`
  unfoldable pub strip : Headers → Headers
  strip h = foldl (λ acc name. remove name acc) h hop_by_hop

  abbrev pub insert_if : String → Option Value → Headers → Headers
  insert_if name none h = h
  insert_if name (some v) h = insert name v h

  abbrev pub proto : Bool → String
  proto is_tls = if is_tls then "https" else "http"

  -- The headers sent upstream; `none` is a panic of `unwrap`.
  unfoldable pub upstream_headers : String → String → Bool → Headers → Option Headers
  unfolding strip
  upstream_headers upstream_addr client_ip is_tls h =
      let hosted = insert_if "host" (parse_value upstream_addr) (strip h) in
      elim (parse_value client_ip) [
        | none ↦ none
        | some ip ↦ elim (parse_value (proto is_tls)) [
          | none ↦ none
          | some scheme ↦
              let forwarded =
                insert "x-forwarded-proto" scheme (insert "x-forwarded-for" ip hosted) in
              some (insert_if "x-forwarded-host" (get "host" forwarded) forwarded)
        ]
      ]

  -- The headers of the closure `build_request`, appended one by one.
  unfoldable pub copy_headers : Headers → Headers
  copy_headers h =
      foldl (λ acc (entry : String × Value). append entry.0 entry.1 acc) empty (entries h)

  abbrev pub build_request : String → http.Uri → Headers → Bytes → Request http Bytes
  build_request method uri h body = record {
    method = method;
    uri = uri;
    headers = copy_headers h;
    body = body;
  }

-- `Debug` of a `Duration` of whole milliseconds.
abbrev fraction : ℕ → String
fraction ms =
    if ms == 0
    then ""
    else if ms % 100 == 0
    then format ("." ∷ show (ms / 100) ∷ [])
    else if ms % 10 == 0
    then format ("." ∷ show (ms / 100) ∷ show (ms / 10 % 10) ∷ [])
    else format ("." ∷ show (ms / 100) ∷ show (ms / 10 % 10) ∷ show (ms % 10) ∷ [])

unfoldable pub show_duration : ℕ → String
show_duration ms =
    if ms == 0
    then "0ns"
    else if ltb ms 1000
    then format (show ms ∷ "ms" ∷ [])
    else format (show (ms / 1000) ∷ fraction (ms % 1000) ∷ "s" ∷ [])

module _ {http : Http} (net : Net http) where
  open net use {World, Stream, Conn, Incoming, connect, handshake, send_request, collect, lock}

  -- What the task can change.
  pub record Task : Type 0 where
    pub world : World
    pub pool : Pool Conn

  abbrev pub arrived {ℓ} : {A : Type ℓ} → Await A → Flow A
  arrived (ready a) = returns a
  arrived late = elapsed

  abbrev pub await : {A : Type 0} → (World → Await A × World) → Exec Task A
  await operation t = let r = operation t.world in (arrived r.0, record t { world = r.1 })

  -- `pool.lock().await`: the other tasks' steps come first.
  unfoldable pub lock_pool : Exec Task (Unit {0})
  lock_pool = do steps ← await lock; λ t. (returns tt, record t { pool = run steps t.pool })

  -- `ConnectionPool::connect_fresh`
  unfoldable pub connect_fresh : String → Exec Task Conn
  connect_fresh addr = do
    connected ← await (connect addr)
    stream ← lift (map_err (λ e. upstream_connect (format (addr ∷ ": " ∷ e ∷ []))) connected)
    shaken ← await (handshake stream)
    lift (map_err hyper shaken)

  -- An idle connection, or a new one.
  abbrev pub use_or_connect : String → Option Conn → Exec Task Conn
  use_or_connect addr none = connect_fresh addr
  use_or_connect addr (some sender) = pure sender

  -- `ConnectionPool::acquire`
  unfoldable pub acquire : String → Exec Task Conn
  unfolding lock_pool connect_fresh
  acquire addr = do
    lock_pool
    found ← λ t. let r = take_idle addr t.pool in (returns r.0, record t { pool = r.1 })
    use_or_connect addr found

  -- `ConnectionPool::release`
  unfoldable pub give_back : String → Conn → Exec Task (Unit {0})
  unfolding lock_pool
  give_back addr sender = do
    lock_pool
    λ t. (returns tt, record t { pool = release addr sender t.pool })

  -- The arm `Err(e)`: one more attempt, on a new connection.
  unfoldable pub retry : String → Request http Bytes → Exec Task (Response http Incoming)
  unfolding connect_fresh give_back
  retry addr request = do
    fresh ← connect_fresh addr
    sent ← await (send_request fresh request)
    response ← lift (map_err hyper sent)
    give_back addr fresh
    pure response

  abbrev pub first_result :
      String
      → Conn
      → Request http Bytes
      → Result (Response http Incoming) String
      → Exec Task (Response http Incoming)
  first_result addr sender request (ok response) = do give_back addr sender; pure response
  first_result addr sender request (err e) = retry addr request

  -- The `match` on the first `send_request`.
  unfoldable pub send : String → Conn → Request http Bytes → Exec Task (Response http Incoming)
  unfolding give_back retry
  send addr sender request = do
    sent ← await (send_request sender request)
    first_result addr sender request sent

  unfoldable pub forward_inner :
      Request http Incoming → String → String → Bool → Exec Task (Response http Bytes)
  unfolding acquire send upstream_headers strip
  forward_inner req upstream_addr client_ip is_tls = do
    collected ← await (collect req.body)
    body ← lift (map_err hyper collected)
    headers ← unwrap (upstream_headers http upstream_addr client_ip is_tls req.headers)
    sender ← acquire upstream_addr
    response ← send upstream_addr sender (build_request http req.method req.uri headers body)
    received ← await (collect response.body)
    bytes ← lift (map_err hyper received)
    pure (record { status = response.status; headers = strip http response.headers; body = bytes })

  -- What `tokio::time::timeout` makes of the future's end.
  abbrev pub timed : ProxyError → Flow (Response http Bytes) → Flow (Response http Bytes)
  timed e (returns r) = returns r
  timed e (fails e') = fails e'
  timed e panics = panics
  timed e elapsed = fails e

  -- `forward`
  unfoldable pub forward :
      Request http Incoming → String → ℕ → String → Bool → Exec Task (Response http Bytes)
  unfolding forward_inner
  forward req upstream_addr timeout_ms client_ip is_tls t =
      let r = forward_inner req upstream_addr client_ip is_tls t in
      (
        timed (timeout (format (upstream_addr ∷ ": exceeded " ∷ show_duration timeout_ms ∷ [])))
            r.0,
        r.1,
      )
