-- ===== src/HealthCheck/Hysteresis.antt =====
-- When health_check.rs's loop holds an upstream healthy.
use mathlib.Core.List.{reverse, reverse_aux}
use prismproxy.Prelude.{
  ℕ, suc, ◌+◌, ◌^◌, ◌≤◌, ◌<◌, ◌≡◌, refl, ap, ◌∙◌, Bool, true, false, ◌&&◌, ◌||◌, List, [], ◌∷◌, map,
  arith, leb, ltb, length, All,
}
use prismproxy.HealthCheck.{Monitor, start, PingOutcome, ping, observe, upstream_health_loop}

-- How many of the newest pings failed in a row; the newest is the head.
abbrev pub failing : List Bool → ℕ
failing [] = 0
failing (true ∷ older) = 0
failing (false ∷ older) = suc (failing older)

-- How many of the newest pings succeeded in a row.
abbrev pub succeeding : List Bool → ℕ
succeeding [] = 0
succeeding (true ∷ older) = suc (succeeding older)
succeeding (false ∷ older) = 0

module _ (fail_threshold recover_threshold : ℕ) where
  -- The documented rule, as a function of all the pings so far, newest first: healthy until
  -- `fail_threshold` failures in a row, and again after `recover_threshold` successes in a row.
  abbrev pub is_healthy : List Bool → Bool
  is_healthy [] = true
  is_healthy (true ∷ older) = is_healthy older || leb recover_threshold (suc (succeeding older))
  is_healthy (false ∷ older) = is_healthy older && ltb (suc (failing older)) fail_threshold

  -- The state that the rule prescribes.
  abbrev pub ruled : List Bool → Monitor
  ruled pings = record {
    healthy = is_healthy pings;
    consecutive_failures = failing pings;
    consecutive_successes = succeeding pings;
  }

  streak_bounds :
      (pings : List Bool) → (failing pings ≤ length pings) × (succeeding pings ≤ length pings)
  streak_bounds [] = (omega arith, omega arith)
  streak_bounds (true ∷ older) = (omega arith, omega (arith, (streak_bounds older).1))
  streak_bounds (false ∷ older) = (omega (arith, (streak_bounds older).0), omega arith)

  observe-ruled :
      (ok : Bool) (older : List Bool)
      → length older + 1 < 2 ^ 32
      → observe fail_threshold recover_threshold (ruled older) ok ≡ ruled (ok ∷ older)
  unfolding observe
  observe-ruled true older h = let (f, s) = streak_bounds older in ground arith
  observe-ruled false older h = let (f, s) = streak_bounds older in ground arith

  loop-ruled :
      (outcomes : List PingOutcome) (older : List Bool)
      → length outcomes + length older < 2 ^ 32
      → upstream_health_loop fail_threshold recover_threshold (ruled older) outcomes
        ≡ ruled (reverse_aux (map ping outcomes) older)
  unfolding upstream_health_loop
  loop-ruled [] older h = refl
  loop-ruled (outcome ∷ outcomes) older h =
      ap (λ m. upstream_health_loop fail_threshold recover_threshold m outcomes)
        (observe-ruled (ping outcome) older (omega arith))
      ∙ loop-ruled outcomes (ping outcome ∷ older) (omega arith)

  -- For any thresholds and any fewer than 2 ^ 32 pings, the loop reaches the state that the
  -- documented rule prescribes for those pings: the same flag, and the two lengths of the streak.
  pub loop-follows_rule :
      (outcomes : List PingOutcome)
      → length outcomes < 2 ^ 32
      → upstream_health_loop fail_threshold recover_threshold start outcomes
        ≡ ruled (reverse (map ping outcomes))
  loop-follows_rule outcomes h = loop-ruled outcomes [] (omega arith)

  failures_from :
      (m : Monitor) (outcomes : List PingOutcome)
      → All (λ o. ping o ≡ false) outcomes
      → m.consecutive_failures + length outcomes < 2 ^ 32
      → (m.healthy ≡ true → m.consecutive_failures < fail_threshold)
      → (upstream_health_loop fail_threshold recover_threshold m outcomes).healthy
        ≡ (m.healthy && ltb (m.consecutive_failures + length outcomes) fail_threshold)
  unfolding upstream_health_loop
  failures_from m [] all small below = ground arith
  failures_from m (o ∷ outcomes) all small below =
      rw (all.0, upstream_health_loop)
        (ground
          (arith, failures_from (observe fail_threshold recover_threshold m false) outcomes all.1))

  successes_from :
      (m : Monitor) (outcomes : List PingOutcome)
      → All (λ o. ping o ≡ true) outcomes
      → m.consecutive_successes + length outcomes < 2 ^ 32
      → (m.healthy ≡ false → m.consecutive_successes < recover_threshold)
      → (upstream_health_loop fail_threshold recover_threshold m outcomes).healthy
        ≡ (m.healthy || leb recover_threshold (m.consecutive_successes + length outcomes))
  unfolding upstream_health_loop
  successes_from m [] all small below = ground arith
  successes_from m (o ∷ outcomes) all small below =
      rw (all.0, upstream_health_loop)
        (ground
          (arith, successes_from (observe fail_threshold recover_threshold m true) outcomes all.1))

  -- Fewer than 2 ^ 32 failed pings in a row, from a monitor with no failure counted: the upstream is
  -- healthy afterwards exactly if it was healthy before and the failures are fewer than the
  -- threshold, which is positive.
  pub outage-healthy :
      (m : Monitor) (outcomes : List PingOutcome)
      → All (λ o. ping o ≡ false) outcomes
      → m.consecutive_failures ≡ 0
      → 0 < fail_threshold
      → length outcomes < 2 ^ 32
      → (upstream_health_loop fail_threshold recover_threshold m outcomes).healthy
        ≡ (m.healthy && ltb (length outcomes) fail_threshold)
  outage-healthy m outcomes all none_yet positive few =
      failures_from m outcomes all (omega arith) (λ _. omega arith)
      ∙ ap (λ n. m.healthy && ltb n fail_threshold) (omega arith)

  -- Fewer than 2 ^ 32 successful pings in a row, from a monitor with no success counted: the upstream
  -- is healthy afterwards exactly if it was healthy before or the successes have reached the
  -- threshold, which is positive.
  pub recovery-healthy :
      (m : Monitor) (outcomes : List PingOutcome)
      → All (λ o. ping o ≡ true) outcomes
      → m.consecutive_successes ≡ 0
      → 0 < recover_threshold
      → length outcomes < 2 ^ 32
      → (upstream_health_loop fail_threshold recover_threshold m outcomes).healthy
        ≡ (m.healthy || leb recover_threshold (length outcomes))
  recovery-healthy m outcomes all none_yet positive few =
      successes_from m outcomes all (omega arith) (λ _. omega arith)
      ∙ ap (λ n. m.healthy || leb recover_threshold n) (omega arith)
