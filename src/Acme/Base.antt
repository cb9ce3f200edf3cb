-- ===== src/Acme/Base.antt =====
-- What acme.rs acts on: instant_acme, rcgen and the clocks as the parameter `Ca`, the files, and the
-- challenges that can be fetched.
use prismproxy.Prelude.{ℕ, ◌*◌, String, Option, List, [], ◌∷◌, format, insert, Result, map_err}
use prismproxy.Errors.{ProxyError, acme}
use prismproxy.Exec.{returns, elapsed, Exec, flow_of}
use prismproxy.Disk.{Disk, Operation}

-- `OrderStatus`
pub data OrderStatus : Type 0 where
  pending ready processing valid invalid : OrderStatus

-- `ChallengeType`
pub data ChallengeType : Type 0 where
  http01 dns01 tls_alpn01 : ChallengeType

pub record Challenge : Type 0 where
  pub kind : ChallengeType
  pub url : String
  pub token : String

-- `Authorization`: its challenges.
abbrev pub Authorization : Type 0
Authorization = List Challenge

-- What the program uses of instant_acme, of rcgen and of the clocks. An order is a handle; its state
-- is part of the world. A failure is the text of the error. Each call comes back with a result or a
-- failure: one that never replies, which the code would await without a timeout, is left out.
pub record Ca : Type 1 where
  pub World : Type 0
  pub Account : Type 0
  pub Order : Type 0
  pub Params : Type 0
  pub KeyPair : Type 0
  pub Csr : Type 0
  -- `Account::create`, with a contact and the URL of the directory
  pub create_account : String → String → World → Result Account String × World
  pub new_order : Account → List String → World → Result Order String × World
  pub authorizations : Order → World → Result (List Authorization) String × World
  pub key_authorization : Order → Challenge → String
  pub set_challenge_ready : Order → String → World → Result (Unit {0}) String × World
  pub refresh : Order → World → Result OrderStatus String × World
  pub finalize : Order → Csr → World → Result (Unit {0}) String × World
  pub certificate : Order → World → Result (Option String) String × World
  -- `CertificateParams::new`, `KeyPair::generate`, `serialize_request`, `serialize_pem`
  pub params : List String → Result Params String
  pub generate : World → Result KeyPair String × World
  pub serialize_request : Params → KeyPair → Result Csr String
  pub serialize_pem : KeyPair → String
  -- `TcpListener::bind`
  pub bind : String → World → Result (Unit {0}) String × World
  -- `tokio::time::sleep`
  pub sleep : ℕ → World → World
  -- `tokio::time::Instant::now`, in nanoseconds
  pub now : World → ℕ
  -- The seconds of `SystemTime::now` since the epoch, 0 before it
  pub unix_time : World → ℕ

abbrev pub secs : ℕ → ℕ
secs n = n * 1_000_000_000

abbrev pub failure : String → String → ProxyError
failure what e = acme (format (what ∷ e ∷ []))

-- What a provisioning acts on. `told` records what the CA was told, the latest first: the URL of
-- a challenge, with what could be fetched by token at that moment.
pub record Machine (ca : Ca) : Type 0 where
  pub world : ca.World
  pub disk : Disk
  pub challenges : List (String × String)
  pub told : List (String × List (String × String))

module _ {ca : Ca} where
  open ca use {World, Order, set_challenge_ready, now, unix_time, sleep}

  -- A call of the CA, of rcgen or of the network, with `map_err` and `?`.
  abbrev pub call : {A : Type 0} → String → (World → Result A String × World) → Exec (Machine ca) A
  call what operation m =
      let r = operation m.world in (flow_of (map_err (failure what) r.0), record m { world = r.1 })

  -- An operation of the file system, with `map_err` and `?`.
  abbrev pub on_disk : String → Operation → Exec (Machine ca) (Unit {0})
  on_disk what operation m =
      let r = operation m.disk in (flow_of (map_err (failure what) r.0), record m { disk = r.1 })

  -- The same, its result ignored: `let _ = …`.
  abbrev pub ignoring : Operation → Exec (Machine ca) (Unit {0})
  ignoring operation m = (returns tt, record m { disk = (operation m.disk).1 })

  abbrev pub pause : ℕ → Exec (Machine ca) (Unit {0})
  pause d m = (returns tt, record m { world = sleep d m.world })

  abbrev pub instant : Exec (Machine ca) ℕ
  instant m = (returns (now m.world), m)

  -- The rounds that are given are over: the task is dropped at this await.
  abbrev pub dropped : {A : Type 0} → Exec (Machine ca) A
  dropped m = (elapsed, m)

  abbrev pub publish : String → String → Exec (Machine ca) (Unit {0})
  publish token key_auth m =
      (returns tt, record m { challenges = insert token key_auth m.challenges })

  abbrev pub tell : Order → String → Exec (Machine ca) (Unit {0})
  tell order url m =
      let r = set_challenge_ready order url m.world in
      (
        flow_of (map_err (failure "set challenge ready: ") r.0),
        record m { world = r.1; told = (url, m.challenges) ∷ m.told },
      )

  abbrev pub seconds_now : Exec (Machine ca) ℕ
  seconds_now m = (returns (unix_time m.world), m)

  -- The challenge server of `provision_inner` listens with these challenges, or no longer.
  abbrev pub serve : List (String × String) → Exec (Machine ca) (Unit {0})
  serve challenges m = (returns tt, record m { challenges = challenges })

  -- However the function ends, its channel is closed, and with it the server.
  abbrev pub closing : {A : Type 0} → Exec (Machine ca) A → Exec (Machine ca) A
  closing body m = let r = body m in (r.0, record r.1 { challenges = [] })
