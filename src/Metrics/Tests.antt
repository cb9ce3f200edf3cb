-- ===== src/Metrics/Tests.antt =====
-- Runs of metrics.rs, and its properties at concrete histories.
use mathlib.Core.List.Perm
use prismproxy.Prelude.{◌-◌, ◌^◌, ◌≡◌, refl, true, false, List, [], ◌∷◌}
use prismproxy.Metrics.{new, perform, record_request}
use prismproxy.Metrics.History.{Sample, summary}
use prismproxy.Metrics.Interleaving.{all_updates, interleaving-summary}

-- A 404, a request that a plugin blocked, and a 200; the newest first.
abbrev three : List Sample
three =
    record { status = 404; elapsed_ms = 7; was_blocked = false }
    ∷ record { status = 403; elapsed_ms = 2; was_blocked = true }
    ∷ record { status = 200; elapsed_ms = 12; was_blocked = false }
    ∷ []

record_wraps :
    record_request 302 5 false (record new { response_time_ms_total = 2 ^ 64 - 1 })
    ≡ record new { requests_total = 1; response_time_ms_total = 4 }
unfolding record_request
record_wraps = refl

interleaving-summary_example : perform (all_updates three) new ≡ summary three
interleaving-summary_example = interleaving-summary three (all_updates three) (Perm.refl _)
