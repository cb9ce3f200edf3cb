-- ===== src/System/Base.antt =====
-- What the tasks of the running proxy hold.
use prismproxy.Prelude.{ℕ, zero, suc, String, Bool, List, [], ◌∷◌, ◌==◌, if◌then◌else◌}
use prismproxy.HealthCheck.{Monitor}
use prismproxy.State.{Flags}
use prismproxy.Startup.Base.{HealthLoop}

-- A health-check loop with its two counters; its flag is among the flags.
pub record Watch : Type 0 where
  pub loop : HealthLoop
  pub consecutive_failures : ℕ
  pub consecutive_successes : ℕ

abbrev pub start_watch : HealthLoop → Watch
start_watch loop = record { loop = loop; consecutive_failures = 0; consecutive_successes = 0 }

-- The loop's state, with the flag that it shares.
abbrev pub monitor_of : Flags → Watch → Monitor
monitor_of flags w = record {
  healthy = flags.value w.loop.healthy;
  consecutive_failures = w.consecutive_failures;
  consecutive_successes = w.consecutive_successes;
}

-- A connection that is served: the client's address, and whether it came over TLS.
pub record Connection : Type 0 where
  pub client_ip : String
  pub is_tls : Bool

-- `AtomicBool::store`
abbrev pub set_flag : ℕ → Bool → Flags → Flags
set_flag h b f = record f { value = λ i. if i == h then b else f.value i }

module _ {ℓ} {A : Type ℓ} where
  abbrev pub set_at : ℕ → A → List A → List A
  set_at i a [] = []
  set_at zero a (x ∷ xs) = a ∷ xs
  set_at (suc i) a (x ∷ xs) = x ∷ set_at i a xs

  abbrev pub remove_at : ℕ → List A → List A
  remove_at i [] = []
  remove_at zero (x ∷ xs) = xs
  remove_at (suc i) (x ∷ xs) = x ∷ remove_at i xs
