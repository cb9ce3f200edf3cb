-- ===== src/System/Isolation.antt =====
-- The health loops of the running proxy: each against the flag that it shares.
use mathlib.Core.Path.{subst}
use mathlib.Core.Option.{some_inj}
use prismproxy.Prelude.{
  ℕ, ◌≡◌, ◌≢◌, refl, sym, ap, ◌∙◌, Bool, ◌==◌, Bool-cases, inl, inr, some, List, [], ◌∷◌, ◌++◌, map,
  get_elem?, get_elem?-map, arith, if◌then◌else◌,
}
use prismproxy.HealthCheck.{Monitor, PingOutcome, ping, start, observe, upstream_health_loop}
use prismproxy.State.{Flags}
use prismproxy.Startup.Base.{Outside}
use prismproxy.Startup.{Started, App}
use prismproxy.System.Base.{Watch, start_watch, monitor_of, set_flag, set_at}
use prismproxy.System.Lists.{get_elem?-set_at, get_elem?-set_at_other}
use prismproxy.System.Publishing.{Published}
use prismproxy.System.Start.{IsReady}
use prismproxy.System.Watches.{IsGuarded, loop_at, after_ping, with_counters, Follows}

upstream_health_loop-snoc :
    (fail recover : ℕ) (m : Monitor) (xs : List PingOutcome) (x : PingOutcome)
    → upstream_health_loop fail recover m (xs ++ (x ∷ []))
      ≡ observe fail recover (upstream_health_loop fail recover m xs) (ping x)
unfolding upstream_health_loop
upstream_health_loop-snoc fail recover m [] x = refl
upstream_health_loop-snoc fail recover m (y ∷ ys) x =
    upstream_health_loop-snoc fail recover (observe fail recover m (ping y)) ys x

-- What a loop stores is what it holds next, and what the others hold is as it was.
monitor_of-set_flag :
    (w : Watch) (m : Monitor) (flags : Flags)
    → monitor_of (set_flag w.loop.healthy m.healthy flags) (with_counters w m) ≡ m
monitor_of-set_flag w m flags =
    let own : (if w.loop.healthy == w.loop.healthy then m.healthy else flags.value w.loop.healthy)
        ≡ m.healthy =
      ground arith in
    ap
      (λ b. record {
        healthy = b;
        consecutive_failures = m.consecutive_failures;
        consecutive_successes = m.consecutive_successes;
      })
      own

monitor_of-set_flag_other :
    (w v : Watch) (b : Bool) (flags : Flags)
    → w.loop.healthy ≢ v.loop.healthy
    → monitor_of (set_flag w.loop.healthy b flags) v ≡ monitor_of flags v
monitor_of-set_flag_other w v b flags other =
    let kept : (if v.loop.healthy == w.loop.healthy then b else flags.value v.loop.healthy)
        ≡ flags.value v.loop.healthy =
      ground (arith, other) in
    ap
      (λ c. record {
        healthy = c;
        consecutive_failures = v.consecutive_failures;
        consecutive_successes = v.consecutive_successes;
      })
      kept

observe-thresholds :
    (w : Watch) (flags : Flags) (outcome : PingOutcome) (xs : List PingOutcome)
    → w.loop.fail_threshold ≡ 3
    → w.loop.recover_threshold ≡ 2
    → monitor_of flags w ≡ upstream_health_loop 3 2 start xs
    → after_ping flags w outcome ≡ upstream_health_loop 3 2 start (xs ++ (outcome ∷ []))
observe-thresholds w flags outcome xs a b h =
    ap (λ n. observe n w.loop.recover_threshold (monitor_of flags w) (ping outcome)) a
    ∙ ap (λ n. observe 3 n (monitor_of flags w) (ping outcome)) b
    ∙ ap (λ m. observe 3 2 m (ping outcome)) h
    ∙ sym (upstream_health_loop-snoc 3 2 start xs outcome)

module _ (env : Outside) (s : Started env) (ready : IsReady env s) where
  pub start-Follows : Follows env s (λ i. []) (map start_watch s.health_loops) s.flags
  unfolding upstream_health_loop
  start-Follows i w at =
      let (l, found, is) = get_elem?-map start_watch s.health_loops i w at in
      subst (λ x. monitor_of s.flags x ≡ start) is
        (ap (λ b. record { healthy = b; consecutive_failures = 0; consecutive_successes = 0 })
          (ready.up l.healthy (ready.below i l found)))

  pub Published-Follows :
      (of : ℕ → List PingOutcome) (watches : List Watch) (old new : App env × Flags)
      → Published env old new
      → IsGuarded env s watches old.1 old.0
      → Follows env s of watches old.1
      → Follows env s of watches new.1
  Published-Follows of watches old new p g follows i w at =
      let less = ready.below i w.loop (loop_at env s watches i w g.loops at) in
      ap
        (λ b. record {
          healthy = b;
          consecutive_failures = w.consecutive_failures;
          consecutive_successes = w.consecutive_successes;
        })
        (p.grown.kept w.loop.healthy (omega (arith, g.more, less)))
      ∙ follows i w at

  -- The pings of every loop after one more ping of the loop at an index.
  abbrev pub pinged_once : ℕ → PingOutcome → (ℕ → List PingOutcome) → ℕ → List PingOutcome
  pinged_once i outcome of j = if j == i then of j ++ (outcome ∷ []) else of j

  pub pinged-Follows :
      (of : ℕ → List PingOutcome) (watches : List Watch) (flags : Flags) (app : App env) (i : ℕ)
      (w : Watch) (outcome : PingOutcome)
      → get_elem? watches i ≡ some w
      → IsGuarded env s watches flags app
      → Follows env s of watches flags
      → Follows env s
          (pinged_once i outcome of)
          (set_at i (with_counters w (after_ping flags w outcome)) watches)
          (set_flag w.loop.healthy (after_ping flags w outcome).healthy flags)
  pinged-Follows of watches flags app i w outcome at g follows j v found =
      let m : Monitor = after_ping flags w outcome in
      let loop_there = loop_at env s watches i w g.loops at in
      elim (Bool-cases (j == i)) [
        | inl same ↦
            let here_now : j ≡ i = ground arith in
            let is_new = some_inj.0 (
              sym (get_elem?-set_at i w (with_counters w m) watches at)
              ∙ ap (get_elem? (set_at i (with_counters w m) watches)) (sym here_now)
              ∙ found) in
            let (a, b) = ready.thresholds i w.loop loop_there in
            rw same (
              subst
                (λ x.
                  monitor_of (set_flag w.loop.healthy m.healthy flags) x
                  ≡ upstream_health_loop 3 2 start (of j ++ (outcome ∷ [])))
                is_new
                (monitor_of-set_flag w m flags
                  ∙ observe-thresholds w flags outcome (of j) a b
                      (follows j w (ap (get_elem? watches) here_now ∙ at))))
        | inr other ↦
            let elsewhere : i ≢ j = ground (arith, other) in
            let before =
              sym (get_elem?-set_at_other i j (with_counters w m) watches elsewhere) ∙ found in
            let unshared : w.loop.healthy ≢ v.loop.healthy = λ e. elsewhere (
              ready.distinct j i v.loop w.loop (loop_at env s watches j v g.loops before) loop_there
                e) in
            rw other (monitor_of-set_flag_other w v m.healthy flags unshared ∙ follows j v before)
      ]
