-- ===== src/System.antt =====
-- The running proxy: the tasks that server.rs spawns and the connections that it serves, over the
-- state that they share, interleaved in any order. A step is what a task does between two awaits
-- that matter to the others; the answer to a request is one step, in which the world of its task
-- tells what the others did to the pool meanwhile, and the request keeps the state that was
-- published, and the flag that it read, when it began.
pub mod Base
pub mod Watches
pub mod Lists
pub mod Start
pub mod Publishing
pub mod Isolation
pub mod Running
pub mod Outage
pub mod Encrypted
pub mod Traffic
pub mod Tallies
pub mod Toy
mod Tests
mod OutageTests
use prismproxy.Prelude.{
  ℕ, zero, suc, String, Bool, true, false, Option, none, some, List, [], ◌∷◌, map, get_elem?, ◌≡◌,
  ◌==◌, if◌then◌else◌, Result, ok, err, IsVisible,
}
use prismproxy.Metrics.{Metrics}
use prismproxy.Metrics as Metrics
use prismproxy.HealthCheck.{Monitor, PingOutcome, ping, observe}
use prismproxy.Pool as Pool
use prismproxy.Pool.{Pool}
use prismproxy.Exec.{Flow}
use prismproxy.Http.{Http, Net, Request, Response, Bytes}
use prismproxy.Proxy.{Task}
use prismproxy.Handler.{Handled, handle}
use prismproxy.State.{Flags}
use prismproxy.Server.{Disk, Server, tick}
use prismproxy.Acme.Base.{Ca, Machine}
use prismproxy.Acme.Renewal.{Round, renewal_tick}
use prismproxy.Startup.Base.{Outside, HealthLoop}
use prismproxy.Startup.{Started, App, Serving}
use prismproxy.System.Base.{Watch, Connection, set_flag, set_at, remove_at, monitor_of, start_watch}

module _ (env : Outside) {http : Http} (net : Net http) where
  open env use {wasm, rustls, file_stem, toml, ca, Addr, parse_addr, port}

  -- A request that is being answered: what `load_full` returned, and the flags as they were read.
  pub record Inflight : Type 0 where
    pub app : App env
    pub is_up : ℕ → Bool
    pub connection : Connection
    pub request : Request http net.Incoming

  pub record System : Type 0 where
    pub app : App env
    pub flags : Flags
    -- that of the reload loop, if there is one
    pub last_mtime : Option ℕ
    pub renewal : Bool
    pub watches : List Watch
    pub connections : List Connection
    pub inflight : List Inflight
    pub pool : Pool net.Conn
    pub metrics : Metrics

  -- The tasks are spawned, and the accept loop begins.
  abbrev pub boot : Started env → System
  boot s = record {
    app = s.app;
    flags = s.flags;
    last_mtime = s.reload_from;
    renewal = s.renewal;
    watches = map start_watch s.health_loops;
    connections = [];
    inflight = [];
    pool = Pool.new s.max_idle;
    metrics = Metrics.new;
  }

  -- A round of `reload_loop`.
  abbrev pub reloaded : Disk → ℕ → System → System
  reloaded disk mtime s =
      let after =
        tick wasm rustls file_stem parse_addr disk
          (record { app = s.app; flags = s.flags; last_mtime = mtime }) in
      record s { app = after.app; flags = after.flags; last_mtime = some after.last_mtime }

  -- A round of `renewal_loop`, with the store.
  abbrev pub renewed : ℕ → String → Machine ca → System → System
  renewed rounds path m s =
      let after =
        (renewal_tick wasm rustls file_stem toml ca rounds true path m (s.app, s.flags)).1 in
      record s { app = after.0; flags = after.1 }

  -- A round of a health-check loop.
  abbrev pub pinged : ℕ → Watch → PingOutcome → System → System
  pinged i w outcome s =
      let m =
        observe w.loop.fail_threshold w.loop.recover_threshold (monitor_of s.flags w)
          (ping outcome) in
      record s {
        flags = set_flag w.loop.healthy m.healthy s.flags;
        watches =
            set_at i
              (record w {
                consecutive_failures = m.consecutive_failures;
                consecutive_successes = m.consecutive_successes;
              })
              s.watches;
      }

  -- `serve_plain`, or `serve_tls` with the outcome of the handshake: the connection whose requests
  -- are served, if there is one.
  abbrev pub served : Serving env → String → Result (Unit {0}) String → Option Connection
  served none client_ip handshake = some (record { client_ip = client_ip; is_tls = false })
  served (some t) client_ip (ok u) = some (record { client_ip = client_ip; is_tls = true })
  served (some t) client_ip (err e) = none

  abbrev pub with_connection : Option Connection → System → System
  with_connection none s = s
  with_connection (some c) s = record s { connections = c ∷ s.connections }

  -- A connection is accepted, and its task reads the published state.
  abbrev pub accepted : String → Result (Unit {0}) String → System → System
  accepted client_ip handshake s = with_connection (served s.app.tls client_ip handshake) s

  -- A request is read from a connection, and `handle` is called.
  abbrev pub begun : Connection → Request http net.Incoming → System → System
  begun c req s = record s {
    inflight =
        record { app = s.app; is_up = s.flags.value; connection = c; request = req } ∷ s.inflight;
  }

  -- What `handle` comes to, in a world.
  abbrev pub outcome_of :
      (f : Inflight)
      → net.World
      → System
      → Handled net f.app f.is_up f.connection.client_ip f.connection.is_tls f.request
  outcome_of f world s =
      handle net f.app f.is_up f.connection.client_ip f.connection.is_tls f.request
        (record { world = world; pool = s.pool }) s.metrics

  -- The answer is sent.
  abbrev pub finished : ℕ → Inflight → net.World → System → System
  finished i f world s = record s {
    inflight = remove_at i s.inflight;
    pool = (outcome_of f world s).task.pool;
    metrics = (outcome_of f world s).metrics;
  }

  -- What happens next.
  pub data Event : Type 0 where
    reloads : Disk → Event
    renews : ℕ → String → Machine ca → Event
    pings : ℕ → PingOutcome → Event
    accepts : String → Result (Unit {0}) String → Event
    begins : Request http net.Incoming → Event
    -- the request, its task as it begins and ends, and what `handle` returns
    finishes : Inflight → Task net → Task net → Flow (Response http Bytes) → Event

  -- One step. The text of a client's address is of visible characters.
  pub data Step (s : System) : Event → System → Type 0 where
    reload :
        (disk : Disk) (mtime : ℕ)
        → s.last_mtime ≡ some mtime
        → Step s (reloads disk) (reloaded disk mtime s)
    renew :
        (rounds : ℕ) (path : String) (m : Machine ca)
        → s.renewal ≡ true
        → Step s (renews rounds path m) (renewed rounds path m s)
    watch :
        (i : ℕ) (w : Watch) (outcome : PingOutcome)
        → get_elem? s.watches i ≡ some w
        → Step s (pings i outcome) (pinged i w outcome s)
    accept :
        (client_ip : String) (handshake : Result (Unit {0}) String)
        → IsVisible client_ip
        → Step s (accepts client_ip handshake) (accepted client_ip handshake s)
    begin :
        (i : ℕ) (c : Connection) (req : Request http net.Incoming)
        → get_elem? s.connections i ≡ some c
        → Step s (begins req) (begun c req s)
    finish :
        (i : ℕ) (f : Inflight) (world : net.World)
        → get_elem? s.inflight i ≡ some f
        → Step s
            (finishes f
              (record { world = world; pool = s.pool })
              (outcome_of f world s).task
              (outcome_of f world s).response)
            (finished i f world s)

  -- The steps of a run, the latest event first.
  pub data Run (s : System) : List Event → System → Type 0 where
    here : Run s [] s
    next : {es : List Event} {t u : System} (e : Event) → Run s es t → Step t e u → Run s (e ∷ es) u
