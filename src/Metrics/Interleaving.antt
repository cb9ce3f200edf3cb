-- ===== src/Metrics/Interleaving.antt =====
-- Concurrent calls of metrics.rs's `record` interleave at their `fetch_add`s.
use mathlib.Core.List.{Perm, Permᴰ}
use mathlib.Core.Logic.{∥∥₁_elim}
use prismproxy.Prelude.{ℕ, ◌≡◌, refl, ◌∙◌, ap, List, [], ◌∷◌, ◌++◌, arith}
use prismproxy.Metrics.{
  Metrics, new, Counter, total, fetch_add, Update, updates, perform, record_request,
}
use prismproxy.Metrics.History.{Sample, after, summary, after-summary}

fetch_add_comm :
    (c d : Counter) (n k : ℕ) (m : Metrics)
    → fetch_add c n (fetch_add d k m) ≡ fetch_add d k (fetch_add c n m)
unfolding fetch_add
fetch_add_comm total total n k m = ground arith
fetch_add_comm _ _ n k m = ground arith

perform-Permᴰ : {us vs : List Update} → Permᴰ us vs → (m : Metrics) → perform us m ≡ perform vs m
unfolding perform
perform-Permᴰ Permᴰ.nil m = refl
perform-Permᴰ (Permᴰ.cons {a = u} {b = v} {l₁ = us} same p) m =
    ap (λ (w : Update). perform us (fetch_add w.0 w.1 m)) same
    ∙ perform-Permᴰ p (fetch_add v.0 v.1 m)
perform-Permᴰ (Permᴰ.swap {a = u} {b = v} {l = us} e f) m =
    ap (perform us) (fetch_add_comm v.0 u.0 v.1 u.1 m) ∙ cc (e, f)
perform-Permᴰ (Permᴰ.trans p q) m = perform-Permᴰ p m ∙ perform-Permᴰ q m

Metrics-set : IsSet Metrics
Metrics-set = hlevel

perform-perm : {us vs : List Update} → Perm us vs → (m : Metrics) → perform us m ≡ perform vs m
perform-perm p m = ∥∥₁_elim p (Metrics-set _ _) (λ q. perform-Permᴰ q m)

-- The `fetch_add`s of one call, and those of all the calls of a history, the oldest first.
abbrev pub updates_of : Sample → List Update
updates_of s = updates s.status s.elapsed_ms s.was_blocked

abbrev pub all_updates : List Sample → List Update
all_updates [] = []
all_updates (s ∷ ss) = all_updates ss ++ updates_of s

perform-append :
    (us vs : List Update) (m : Metrics) → perform (us ++ vs) m ≡ perform vs (perform us m)
unfolding perform
perform-append [] vs m = refl
perform-append (u ∷ us) vs m = perform-append us vs (fetch_add u.0 u.1 m)

perform-after : (ss : List Sample) → perform (all_updates ss) new ≡ after ss
unfolding perform after record_request
perform-after [] = refl
perform-after (s ∷ ss) =
    perform-append (all_updates ss) (updates_of s) new
    ∙ ap (record_request s.status s.elapsed_ms s.was_blocked) (perform-after ss)

-- Whatever the order in which the atomic steps of any number of concurrent calls of `record` take
-- effect, once all the steps are done the counters are the totals of the calls modulo 2 ^ 64: all
-- calls, those that were not blocked by class, the blocked ones, and the sum of the times.
pub interleaving-summary :
    (ss : List Sample) (us : List Update) → Perm us (all_updates ss) → perform us new ≡ summary ss
interleaving-summary ss us p = perform-perm p new ∙ perform-after ss ∙ after-summary ss
