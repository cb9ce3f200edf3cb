-- ===== src/HealthCheck/Tests.antt =====
-- Runs of health_check.rs with the thresholds of server.rs, 3 and 2, and its properties there.
use mathlib.Core.List.{reverse}
use prismproxy.Prelude.{◌≡◌, refl, true, false, List, [], ◌∷◌, map, arith}
use prismproxy.HealthCheck.{
  Monitor, start, PingOutcome, connect_failed, send_timed_out, response, ping, upstream_health_loop,
}
use prismproxy.HealthCheck.Hysteresis.{ruled, loop-follows_rule}

abbrev three_failures : List PingOutcome
three_failures = connect_failed ∷ response 500 ∷ send_timed_out ∷ []

abbrev two_successes : List PingOutcome
two_successes = response 200 ∷ response 204 ∷ []

abbrev down : Monitor
down = record { healthy = false; consecutive_failures = 3; consecutive_successes = 0 }

outage_run : upstream_health_loop 3 2 start three_failures ≡ down
unfolding upstream_health_loop
outage_run = refl

two_failures_are_not_enough :
    (upstream_health_loop 3 2 start
      (connect_failed ∷ connect_failed ∷ response 200 ∷ connect_failed ∷ [])).healthy
    ≡ true
unfolding upstream_health_loop
two_failures_are_not_enough = refl

loop-follows_rule_example :
    upstream_health_loop 3 2 start three_failures ≡ ruled 3 2 (reverse (map ping three_failures))
loop-follows_rule_example = loop-follows_rule 3 2 three_failures (omega arith)
