-- ===== src/Metrics/History.antt =====
-- What the counters of metrics.rs hold after a history of requests.
use prismproxy.Prelude.{
  ℕ, ◌+◌, ◌*◌, ◌/◌, ◌%◌, ◌^◌, ◌≤◌, ◌<◌, ◌≡◌, refl, Bool, not, ◌&&◌, List, [], ◌∷◌, arith, ◌==◌,
  if◌then◌else◌, length, All,
}
use native.Mathlib.Nat.{mod-eq_of_lt}
use prismproxy.Metrics.{Metrics, new, record_request, mean_ms}

-- One call of `record`.
pub record Sample : Type 0 where
  pub status : ℕ
  pub elapsed_ms : ℕ
  pub was_blocked : Bool

-- The calls in order; the newest is the head.
unfoldable pub after : List Sample → Metrics
after [] = new
after (s ∷ older) = record_request s.status s.elapsed_ms s.was_blocked (after older)

abbrev pub count : (Sample → Bool) → List Sample → ℕ
count p [] = 0
count p (s ∷ ss) = (if p s then 1 else 0) + count p ss

abbrev pub total_ms : List Sample → ℕ
total_ms [] = 0
total_ms (s ∷ ss) = s.elapsed_ms + total_ms ss

-- No plugin blocked the request, and the status begins with the digit `class`.
abbrev pub answered : ℕ → Sample → Bool
answered class s = not s.was_blocked && s.status / 100 == class

-- The counters as totals of the history, each modulo 2 ^ 64.
abbrev pub summary : List Sample → Metrics
summary ss = record {
  requests_total = length ss % 2 ^ 64;
  requests_2xx = count (answered 2) ss % 2 ^ 64;
  requests_4xx = count (answered 4) ss % 2 ^ 64;
  requests_5xx = count (answered 5) ss % 2 ^ 64;
  requests_blocked = count (λ s. s.was_blocked) ss % 2 ^ 64;
  response_time_ms_total = total_ms ss % 2 ^ 64;
}

record-summary :
    (s : Sample) (ss : List Sample)
    → record_request s.status s.elapsed_ms s.was_blocked (summary ss) ≡ summary (s ∷ ss)
unfolding record_request
record-summary s ss = ground arith

-- After any history of calls of `record`, in any classes and wrapping included, the six counters
-- are the totals of the history modulo 2 ^ 64: all calls, the calls that no plugin blocked by status
-- class (2xx, 4xx, 5xx), the blocked calls, and the sum of the response times.
pub after-summary : (ss : List Sample) → after ss ≡ summary ss
unfolding after
after-summary [] = refl
after-summary (s ∷ ss) = rw (after-summary ss) (record-summary s ss)

total_ms_bounds :
    (lo hi : ℕ) (ss : List Sample)
    → All (λ s. (lo ≤ s.elapsed_ms) × (s.elapsed_ms ≤ hi)) ss
    → (lo * length ss ≤ total_ms ss) × (total_ms ss ≤ hi * length ss)
total_ms_bounds lo hi [] h = (omega arith, omega arith)
total_ms_bounds lo hi (s ∷ ss) h =
    let ih = total_ms_bounds lo hi ss h.1 in
    (omega (arith, ih.0, h.0.0), omega (arith, ih.1, h.0.1))

div_bounds :
    (lo hi sum n : ℕ) → 0 < n → lo * n ≤ sum → sum ≤ hi * n → (lo ≤ sum / n) × (sum / n ≤ hi)
div_bounds lo hi sum n pos below above = (grind arith, grind arith)

mean_ms-after :
    (ss : List Sample)
    → 0 < length ss
    → length ss < 2 ^ 64
    → total_ms ss < 2 ^ 64
    → mean_ms (after ss) ≡ total_ms ss / length ss
unfolding mean_ms
mean_ms-after ss some_request few short =
    rw (after-summary ss) (rw (mod-eq_of_lt few, mod-eq_of_lt short) (ground arith))

-- While neither the number of requests nor the sum of their times has reached 2 ^ 64, the mean that
-- is shown lies between any two bounds of the recorded response times, if there is a request.
pub mean_ms_bounds :
    (lo hi : ℕ) (ss : List Sample)
    → 0 < length ss
    → length ss < 2 ^ 64
    → total_ms ss < 2 ^ 64
    → All (λ s. (lo ≤ s.elapsed_ms) × (s.elapsed_ms ≤ hi)) ss
    → (lo ≤ mean_ms (after ss)) × (mean_ms (after ss) ≤ hi)
mean_ms_bounds lo hi ss some_request few short bounds =
    let (below, above) = total_ms_bounds lo hi ss bounds in
    rw (mean_ms-after ss some_request few short)
      (div_bounds lo hi (total_ms ss) (length ss) some_request below above)
