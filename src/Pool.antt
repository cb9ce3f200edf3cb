-- ===== src/Pool.antt =====
-- pool.rs: the idle connections. A locked section of `acquire` or `release` is one step on the map;
-- tasks interleave between such steps, so a history of the pool is a list of them. The end of a
-- `Vec` is the head of a list. The awaits of `acquire` and `connect_fresh` are in Proxy.
pub mod Refinement
mod Tests
use prismproxy.Prelude.{
  ℕ, String, Option, none, some, List, [], ◌∷◌, length, lookup, insert, ltb, if◌then◌else◌,
}

-- `ConnectionPool`
pub record Pool {ℓ} (Conn : Type ℓ) : Type ℓ where
  pub idle : List (String × List Conn)
  pub max_idle_per_host : ℕ

-- One locked section, by any task.
pub data Step {ℓ} (Conn : Type ℓ) : Type ℓ where
  take : String → Step Conn
  put : String → Conn → Step Conn

module _ {ℓ} {Conn : Type ℓ} where
  -- `ConnectionPool::new`
  abbrev pub new : ℕ → Pool Conn
  new max_idle_per_host = record { idle = []; max_idle_per_host = max_idle_per_host }

  -- `if let Some(sender) = conns.pop()`
  abbrev pub pop_idle : Pool Conn → String → Option (List Conn) → Option Conn × Pool Conn
  pop_idle p addr none = (none, p)
  pop_idle p addr (some []) = (none, p)
  pop_idle p addr (some (sender ∷ conns)) =
      (some sender, record p { idle = insert addr conns p.idle })

  -- The locked section of `acquire`.
  unfoldable pub take_idle : String → Pool Conn → Option Conn × Pool Conn
  take_idle addr p = pop_idle p addr (lookup addr p.idle)

  -- `entry(addr).or_default()`
  abbrev pub or_default : Option (List Conn) → List Conn
  or_default none = []
  or_default (some conns) = conns

  -- `release`
  unfoldable pub release : String → Conn → Pool Conn → Pool Conn
  release addr sender p =
      let conns = or_default (lookup addr p.idle) in
      if ltb (length conns) p.max_idle_per_host
      then record p { idle = insert addr (sender ∷ conns) p.idle }
      else record p { idle = insert addr conns p.idle }

  unfoldable pub apply : Step Conn → Pool Conn → Pool Conn
  unfolding take_idle release
  apply (take addr) p = (take_idle addr p).1
  apply (put addr sender) p = release addr sender p

  -- The steps in order.
  unfoldable pub run : List (Step Conn) → Pool Conn → Pool Conn
  unfolding apply
  run [] p = p
  run (s ∷ ss) p = run ss (apply s p)
