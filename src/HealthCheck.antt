-- ===== src/HealthCheck.antt =====
-- health_check.rs: `upstream_health_loop`, as a state machine over the answers of `ping`. The flag
-- `healthy` is written by this loop alone. The counters are `u32`.
pub mod Hysteresis
mod Tests
use prismproxy.Prelude.{
  ℕ, ◌+◌, ◌%◌, ◌^◌, Bool, true, false, not, ◌&&◌, List, [], ◌∷◌, leb, if◌then◌else◌,
}

pub record Monitor : Type 0 where
  pub healthy : Bool
  pub consecutive_failures : ℕ
  pub consecutive_successes : ℕ

-- The state in which the loop starts; `build_state` makes the flag true.
abbrev pub start : Monitor
start = record { healthy = true; consecutive_failures = 0; consecutive_successes = 0 }

abbrev pub add_u32 : ℕ → ℕ → ℕ
add_u32 a b = (a + b) % 2 ^ 32

-- A response to the ping, or why there is none in time.
pub data PingOutcome : Type 0 where
  connect_failed connect_timed_out handshake_failed request_invalid send_failed send_timed_out :
      PingOutcome
  response : (status : ℕ) → PingOutcome

-- `ping`: `is_success` of the response, false on every failure.
unfoldable pub ping : PingOutcome → Bool
ping (response status) = leb 200 status && leb status 299
ping _ = false

module _ (fail_threshold recover_threshold : ℕ) where
  -- One round of the loop, after the ping.
  unfoldable pub observe : Monitor → Bool → Monitor
  observe m ok =
      if ok
      then (let successes = add_u32 m.consecutive_successes 1 in
          record {
            healthy =
                (if not m.healthy && leb recover_threshold successes then true else m.healthy);
            consecutive_failures = 0;
            consecutive_successes = successes;
          })
      else (let failures = add_u32 m.consecutive_failures 1 in
          record {
            healthy = (if m.healthy && leb fail_threshold failures then false else m.healthy);
            consecutive_failures = failures;
            consecutive_successes = 0;
          })

  -- The rounds of the loop, one for each tick after the first.
  unfoldable pub upstream_health_loop : Monitor → List PingOutcome → Monitor
  unfolding observe ping
  upstream_health_loop m [] = m
  upstream_health_loop m (outcome ∷ outcomes) =
      upstream_health_loop (observe m (ping outcome)) outcomes
