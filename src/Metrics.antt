-- ===== src/Metrics.antt =====
-- metrics.rs: the six counters and the text of `/metrics`. Each counter is an `AtomicU64`, on which
-- `fetch_add` is one atomic step that wraps at 2 ^ 64; a state is what the six hold between steps.
pub mod History
pub mod Interleaving
mod Tests
use prismproxy.Prelude.{
  ℕ, ◌+◌, ◌/◌, ◌%◌, ◌^◌, String, Bool, true, false, ◌&&◌, List, [], ◌∷◌, format, show, leb, ltb,
  if◌then◌else◌,
}

pub record Metrics : Type 0 where
  pub requests_total : ℕ
  pub requests_2xx : ℕ
  pub requests_4xx : ℕ
  pub requests_5xx : ℕ
  pub requests_blocked : ℕ
  pub response_time_ms_total : ℕ

-- `Metrics::new` and `Default::default`
abbrev pub new : Metrics
new = record {
  requests_total = 0;
  requests_2xx = 0;
  requests_4xx = 0;
  requests_5xx = 0;
  requests_blocked = 0;
  response_time_ms_total = 0;
}

-- The fields, as what a `fetch_add` is called on.
pub data Counter : Type 0 where
  total class_2xx class_4xx class_5xx blocked time_ms : Counter

abbrev pub add_u64 : ℕ → ℕ → ℕ
add_u64 a b = (a + b) % 2 ^ 64

unfoldable pub fetch_add : Counter → ℕ → Metrics → Metrics
fetch_add total n m = record m { requests_total = add_u64 m.requests_total n }
fetch_add class_2xx n m = record m { requests_2xx = add_u64 m.requests_2xx n }
fetch_add class_4xx n m = record m { requests_4xx = add_u64 m.requests_4xx n }
fetch_add class_5xx n m = record m { requests_5xx = add_u64 m.requests_5xx n }
fetch_add blocked n m = record m { requests_blocked = add_u64 m.requests_blocked n }
fetch_add time_ms n m = record m { response_time_ms_total = add_u64 m.response_time_ms_total n }

-- One `fetch_add`: the counter and what is added.
abbrev pub Update : Type 0
Update = Counter × ℕ

-- The arms of `match status`, in order.
unfoldable pub status_updates : ℕ → List Update
status_updates status =
    if leb 200 status && leb status 299
    then (class_2xx, 1) ∷ []
    else if leb 400 status && leb status 499
    then (class_4xx, 1) ∷ []
    else if leb 500 status && leb status 599
    then (class_5xx, 1) ∷ []
    else []

-- The `fetch_add`s of a call of `Metrics::record`, in order.
unfoldable pub updates : ℕ → ℕ → Bool → List Update
unfolding status_updates
updates status elapsed_ms was_blocked =
    (total, 1)
    ∷ (time_ms, elapsed_ms)
    ∷ (if was_blocked then (blocked, 1) ∷ [] else status_updates status)

-- One after the other.
unfoldable pub perform : List Update → Metrics → Metrics
unfolding fetch_add
perform [] m = m
perform (u ∷ us) m = perform us (fetch_add u.0 u.1 m)

-- `Metrics::record`
unfoldable pub record_request : ℕ → ℕ → Bool → Metrics → Metrics
unfolding updates perform
record_request status elapsed_ms was_blocked = perform (updates status elapsed_ms was_blocked)

-- The mean that `render` prints.
unfoldable pub mean_ms : Metrics → ℕ
mean_ms m = if ltb 0 m.requests_total then m.response_time_ms_total / m.requests_total else 0

-- `Metrics::render`
unfoldable pub render : Metrics → String
unfolding mean_ms
render m = format (
    "# HELP prismproxy_requests_total Total requests handled\n"
    ∷ "# TYPE prismproxy_requests_total counter\n"
    ∷ "prismproxy_requests_total "
    ∷ show m.requests_total
    ∷ "\n"
    ∷ "# HELP prismproxy_requests_2xx 2xx responses\n"
    ∷ "# TYPE prismproxy_requests_2xx counter\n"
    ∷ "prismproxy_requests_2xx "
    ∷ show m.requests_2xx
    ∷ "\n"
    ∷ "# HELP prismproxy_requests_4xx 4xx responses\n"
    ∷ "# TYPE prismproxy_requests_4xx counter\n"
    ∷ "prismproxy_requests_4xx "
    ∷ show m.requests_4xx
    ∷ "\n"
    ∷ "# HELP prismproxy_requests_5xx 5xx responses\n"
    ∷ "# TYPE prismproxy_requests_5xx counter\n"
    ∷ "prismproxy_requests_5xx "
    ∷ show m.requests_5xx
    ∷ "\n"
    ∷ "# HELP prismproxy_requests_blocked Requests blocked by plugins\n"
    ∷ "# TYPE prismproxy_requests_blocked counter\n"
    ∷ "prismproxy_requests_blocked "
    ∷ show m.requests_blocked
    ∷ "\n"
    ∷ "# HELP prismproxy_response_time_ms_mean Mean response time in ms\n"
    ∷ "# TYPE prismproxy_response_time_ms_mean gauge\n"
    ∷ "prismproxy_response_time_ms_mean "
    ∷ show (mean_ms m)
    ∷ "\n"
    ∷ [])
