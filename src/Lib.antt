-- ===== src/Lib.antt =====
-- prismproxy: a reverse proxy with WASM plugins, health checks, metrics and certificates by ACME.
--
-- A request goes to `handle` (src/handler.rs), which answers "/metrics" and "/health" itself, finds
-- the first route whose prefix begins the path, refuses it if the route's upstream is marked
-- unhealthy, runs the route's plugins (src/plugin.rs), which may block it, and forwards it
-- (src/proxy.rs) on a connection of the pool (src/pool.rs). Each answer is counted
-- (src/metrics.rs). The routes, their plugins and their health flags are built from the
-- configuration (src/config.rs) by `build_state` (src/state.rs, with src/tls.rs), anew when the
-- file of the configuration changes (src/server.rs), and a loop for each route writes its flag
-- (src/health_check.rs). With `[tls]` configured, the startup (src/main.rs, src/server.rs) gets a
-- certificate first if none is cached, and a loop renews it (src/acme.rs), both by a protocol with
-- the CA that ends in files of the cache directory. Errors are those of src/error.rs.
--
-- Files:
--   Errors       src/error.rs: `ProxyError` and its texts.
--   Config       src/config.rs: the data, the defaults, `from_file`, `parse`, and `validate` (a helper
--                for each message and one for the round of its loop).
--   Metrics      src/metrics.rs: `record` is `record_request`, which performs its `updates`, the atomic
--                `fetch_add`s, in order; `render`. History folds the calls, Interleaving permutes their atomic steps.
--   HealthCheck  src/health_check.rs: `upstream_health_loop` is a fold of `observe`, one round, over
--                the outcomes of `ping`.
--   Pool         src/pool.rs: `take_idle` and `release` are the sections under the lock of `acquire`
--                and of `release`. Refinement has one stack for each address.
--   Plugin       src/plugin.rs: `from_file`, `load`, `run_on_request`, whose loop is `run_all` and
--                one round `run_plugin`.
--   Proxy        src/proxy.rs: `forward`, `forward_inner` and its parts; also what awaits in
--                src/pool.rs: `acquire`, `connect_fresh`, and `release` as `give_back`.
--   Tls          src/tls.rs: `build_tls_state`.
--   State        src/state.rs: `build_state`; an `AtomicBool` is a handle of a store of flags.
--   Server       src/server.rs: `try_reload` and `reload_loop`, a fold of `tick` over what the disk
--                holds at each tick.
--   Acme         src/acme.rs: `provision` and `provision_with_store`, with the two inner functions.
--                Acme/Base has what they act on, Acme/Steps the steps of an order that the two
--                share or have of their own, Acme/Origin where a certificate and its key come from,
--                Acme/Renewal `cert_needs_renewal` and `renewal_loop`,
--                a chain of `renewal_tick`s. Acme/Polling is about the deadlines, Acme/Parts and
--                Acme/Keeps are about what the steps of an order leave alone, the others about what
--                an end of a provisioning leaves, and Acme/Contract, Patience, Success and Renews about
--                one that succeeds.
--   Startup      src/server.rs: `run_with_listener`, `run_with_app_state`, `run_with_listener_hot`,
--                `run_accept_loop`, and src/main.rs: `main`. A spawned task is a value.
--   System       the running proxy, from src/server.rs: the tasks that `run_with_listener_hot` spawns
--                and the connections of `serve_plain` and `serve_tls`, over what they share. `Step`
--                is what one of them does next: a round of `reload_loop`, of `renewal_loop` or of an
--                `upstream_health_loop`, an accepted connection, a request that begins, an answer;
--                a `Run` is any sequence of steps, so that the tasks interleave in any order.
--   Disk         `std::fs`: files by path, and the fate of each coming write, rename, removal and
--                creation of a directory, each of which may fail; reading a file that is there, and
--                asking whether one is there, do not.
--   Challenges   the challenge server of src/acme.rs and the redirect server of src/server.rs: the
--                answer to one request, and the accept loops.
--   Handler      src/handler.rs: `handle`, `route` and the responses of the proxy itself.
--   Exec         a computation on a state that returns, fails with a `ProxyError`, panics, or is cut
--                off by the timeout around it. Exec/Hoare has contracts for such code, Exec/Settling
--                that it is not cut off.
--   Http         hyper and tokio, as parameters; Http/Toy and Http/ToyNet are instances of them.
--   Prelude      what the others share: results, lists, texts, maps as lists of pairs.
--
-- Parameters, for code of other packages: `Http` (header maps, values and URIs, with the laws
-- `HttpLaws`: a map holds what was inserted or appended, and a text of visible ASCII is a header
-- value), `Net` (connecting, sending and collecting, each with an outcome or with none before the
-- timeout; the world it acts on also tells the time and what other tasks did to the pool), `Wasm`
-- (wasmtime, with `WriteLaw`: a write changes exactly the bytes it covers), `Rustls`, `Files`, `Ca`
-- (instant_acme, rcgen and the clocks, each of whose calls comes back with a result or an error,
-- with `ClockLaws`: the clock does not go back and a sleep
-- lasts, `KeyLaw`: a key authorization is a function of the token, and `IsObliging`: it answers,
-- validates and issues in time), `toml`, and the functions
-- `parse_addr` and `file_stem` of the standard library. Startup has them together as `Outside`.
--
-- Bounds: the counters are `u64` and those of a health loop `u32`, both written with their
-- wrap-around. The decimal text of a number n is made in at most n + 1 rounds, one for each digit,
-- which is enough since each round divides by 10. The poll of an order has 41 rounds of 3 seconds
-- for its deadline of 120 seconds, and the download of `provision_with_store` 31 rounds of 2 seconds
-- for its 60: more than fit. The download of `provision` has no deadline in the code; its rounds are
-- an argument, and code that makes more of them is cut off. Every other loop is a recursion on a
-- list, that of a list of ticks or of events where the code loops for ever. The sum in
-- `cert_needs_renewal` is a `u64`, with its wrap-around.
--
-- In a run of the proxy the answer to a request is one step; what other requests do to the pool
-- meanwhile is a part of its world, as for `forward` alone. The round of a health-check loop is one
-- step since no other task writes its flag.
--
-- Not modelled: a call of the CA, of rcgen or of the listener that never comes back, though the code
-- awaits these without a timeout; a failure to read a file that is there, or to see that it is; what
-- hyper and TLS do on a stream in src/server.rs and src/acme.rs; the store of
-- challenges as the redirect server finds it in a run of the proxy; the start of
-- logging and of the runtime in src/main.rs; the parser of the configuration file; log lines; what
-- other processes do to the files; a lock that a panic has poisoned. A response's version and the trailers of bodies are left out, and
-- so is the task that drives an open connection.
mod Prelude
pub mod Disk
pub mod Errors
pub mod Exec
pub mod Acme
pub mod Startup
pub mod System
pub mod Challenges
pub mod Config
pub mod Handler
pub mod HealthCheck
pub mod Http
pub mod Metrics
pub mod Plugin
pub mod Pool
pub mod Proxy
pub mod Server
pub mod State
pub mod Tls
