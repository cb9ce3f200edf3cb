-- ===== src/System/Watches.antt =====
-- The health flags while the proxy runs: what is watched, and by which loop.
use mathlib.Core.Path.{subst}
use prismproxy.Prelude.{
  ℕ, ◌≤◌, ◌<◌, ◌≡◌, ◌≢◌, refl, sym, ap, ◌∙◌, true, Bool-cases, ltb, inl, inr, ◌⊎◌, some, List, [],
  ◌∷◌, map, get_elem?, get_elem?-map-some, arith,
}
use prismproxy.HealthCheck.{Monitor, PingOutcome, ping, start, observe, upstream_health_loop}
use prismproxy.State.{Flags}
use prismproxy.Startup.Base.{Outside, HealthLoop}
use prismproxy.Startup.{Started, App}
use prismproxy.System.Base.{Watch, start_watch, monitor_of, set_flag, set_at}
use prismproxy.System.Lists.{map-set_at}
use prismproxy.System.Publishing.{Published, FlagsWithin}
use prismproxy.System.Start.{IsReady}

abbrev pub loop_of : Watch → HealthLoop
loop_of w = w.loop

-- The loop's state after one more ping.
abbrev pub after_ping : Flags → Watch → PingOutcome → Monitor
after_ping flags w outcome =
    observe w.loop.fail_threshold w.loop.recover_threshold (monitor_of flags w) (ping outcome)

abbrev pub with_counters : Watch → Monitor → Watch
with_counters w m = record w {
  consecutive_failures = m.consecutive_failures;
  consecutive_successes = m.consecutive_successes;
}

module _ (env : Outside) (s : Started env) where
  -- No loop has the flag of this handle.
  abbrev pub IsUnwatched : ℕ → Type 0
  IsUnwatched h = (j : ℕ) (l : HealthLoop) → get_elem? s.health_loops j ≡ some l → l.healthy ≢ h

  -- The loops are those of the start, a flag that none of them has is up, and the published state is
  -- the first one or has none of their flags.
  pub record IsGuarded (watches : List Watch) (flags : Flags) (app : App env) : Type 0 where
    pub loops : map loop_of watches ≡ s.health_loops
    pub more : s.flags.next ≤ flags.next
    pub up : (h : ℕ) → h < flags.next → IsUnwatched h → flags.value h ≡ true
    pub fresh : (app ≡ s.app) ⊎ FlagsWithin env s.flags.next flags.next app

  pub start-IsGuarded : IsReady env s → IsGuarded (map start_watch s.health_loops) s.flags s.app
  start-IsGuarded ready = record {
    loops = loops_of_start s.health_loops;
    more = omega arith;
    up = λ h less unwatched. ready.up h less;
    fresh = inl refl;
  }
    where
      loops_of_start : (ls : List HealthLoop) → map loop_of (map start_watch ls) ≡ ls
      loops_of_start [] = refl
      loops_of_start (l ∷ ls) = ap (◌∷◌ l) (loops_of_start ls)

  pub Published-IsGuarded :
      (watches : List Watch) (old new : App env × Flags)
      → Published env old new
      → IsGuarded watches old.1 old.0
      → IsGuarded watches new.1 new.0
  Published-IsGuarded watches old new p g = record {
    loops = g.loops;
    more = omega (arith, g.more, p.grown.more);
    up = λ h less unwatched. elim (Bool-cases (ltb h old.1.next)) [
      | inl b ↦
          let older : h < old.1.next = ground arith in p.grown.kept h older ∙ g.up h older unwatched
      | inr b ↦ let newer : old.1.next ≤ h = ground arith in p.grown.up h newer less
    ];
    fresh = elim p.fresh [
      | inl same ↦ elim g.fresh [
        | inl first ↦ inl (same ∙ first)
        | inr within ↦ inr (
            subst (FlagsWithin env s.flags.next new.1.next) (sym same) λ i rs at.
              (omega (arith, within i rs at), omega (arith, within i rs at, p.grown.more)))
      ]
      | inr within ↦ inr λ i rs at. (omega (arith, within i rs at, g.more), (within i rs at).1)
    ];
  }

  -- The watch at an index is that of the loop there.
  pub loop_at :
      (watches : List Watch) (i : ℕ) (w : Watch)
      → map loop_of watches ≡ s.health_loops
      → get_elem? watches i ≡ some w
      → get_elem? s.health_loops i ≡ some w.loop
  loop_at watches i w loops at =
      ap (λ ls. get_elem? ls i) (sym loops) ∙ get_elem?-map-some loop_of watches i w at

  pub pinged-IsGuarded :
      (watches : List Watch) (flags : Flags) (app : App env) (i : ℕ) (w : Watch) (m : Monitor)
      → get_elem? watches i ≡ some w
      → IsGuarded watches flags app
      → IsGuarded
          (set_at i (with_counters w m) watches)
          (set_flag w.loop.healthy m.healthy flags)
          app
  pinged-IsGuarded watches flags app i w m at g = record {
    loops = map-set_at loop_of i w (with_counters w m) watches at refl ∙ g.loops;
    more = g.more;
    up = λ h less unwatched.
        let other : w.loop.healthy ≢ h = unwatched i w.loop (loop_at watches i w g.loops at) in
        let kept = g.up h less unwatched in ground (arith, other, kept);
    fresh = g.fresh;
  }

  -- The loop at every index is where the loop alone would be after the pings that it made.
  abbrev pub Follows : (ℕ → List PingOutcome) → List Watch → Flags → Type 0
  Follows pings watches flags =
      (i : ℕ) (w : Watch)
      → get_elem? watches i ≡ some w
      → monitor_of flags w ≡ upstream_health_loop 3 2 start (pings i)
