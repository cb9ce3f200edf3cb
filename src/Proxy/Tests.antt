-- ===== src/Proxy/Tests.antt =====
-- Runs of proxy.rs over the toy network, and its properties there.
use prismproxy.Prelude.{String, ◌≡◌, refl, false, some, List, [], ◌∷◌, arith, lookup, insert, show}
use prismproxy.Errors.{upstream_connect, timeout}
use prismproxy.Exec.{returns, fails}
use prismproxy.Http.{Request, Bytes}
use prismproxy.Http.Toy.{toy_http, toy-HttpLaws}
use prismproxy.Http.ToyNet.{toy_net, hello}
use prismproxy.Pool.{new, take_idle, run}
use prismproxy.Proxy.{Task, upstream_headers, copy_headers, forward, show_duration}
use prismproxy.Proxy.Headers.{sent_value, upstream_headers-sent_value}
use prismproxy.Proxy.Forward.{EndsForward, forward-EndsForward}

abbrev addr : String
addr = "127.0.0.1:3000"

abbrev client_headers : List (String × String)
client_headers =
    ("host", "example.com")
    ∷ ("connection", "upgrade")
    ∷ ("x-forwarded-for", "6.6.6.6")
    ∷ ("accept", "*/*")
    ∷ []

abbrev get_request : Request toy_http Bytes
get_request = record { method = "GET"; uri = "/api"; headers = client_headers; body = [] }

abbrev sent_headers : List (String × String)
sent_headers =
    ("x-forwarded-host", addr)
    ∷ ("x-forwarded-proto", "http")
    ∷ ("x-forwarded-for", "10.1.1.1")
    ∷ ("host", addr)
    ∷ ("accept", "*/*")
    ∷ []

headers_run : upstream_headers toy_http addr "10.1.1.1" false client_headers ≡ some sent_headers
unfolding upstream_headers
headers_run = refl

upstream_headers-sent_value_example :
    toy_http.get "x-forwarded-host" (copy_headers toy_http sent_headers)
    ≡ sent_value toy_http toy-HttpLaws
        (some addr)
        "10.1.1.1"
        "http"
        client_headers
        "x-forwarded-host"
upstream_headers-sent_value_example =
    upstream_headers-sent_value toy_http toy-HttpLaws addr "10.1.1.1" false client_headers
      sent_headers "10.1.1.1" "http" "x-forwarded-host" refl refl headers_run

-- A task whose pool holds the stale connection 0 for the address.
abbrev stale : Task toy_net
stale = record { world = []; pool = record { idle = (addr, 0 ∷ []) ∷ []; max_idle_per_host = 2 } }

stale_run :
    (forward toy_net get_request addr 30000 "10.1.1.1" false stale).0
    ≡ returns (record hello { headers = ("content-type", "text/plain") ∷ [] })
unfolding forward lookup insert take_idle run
stale_run = refl

-- The fresh connection is idle afterwards, and the stale one is gone.
stale_pool :
    (forward toy_net get_request addr 30000 "10.1.1.1" false stale).1.pool.idle
    ≡ (addr, 5 ∷ []) ∷ []
unfolding forward lookup insert take_idle run
stale_pool = refl

late_run :
    (forward toy_net get_request addr 1500 "10.1.1.1" false
      (record stale { pool = record stale.pool { idle = (addr, 9 ∷ []) ∷ [] } })).0
    ≡ fails (timeout "127.0.0.1:3000: exceeded 1.5s")
unfolding forward lookup insert take_idle run show show_duration
late_run = refl

refused_run :
    (forward toy_net get_request "127.0.0.1:1" 30000 "10.1.1.1" false stale).0
    ≡ fails (upstream_connect "127.0.0.1:1: connection refused")
unfolding forward lookup insert take_idle run
refused_run = refl

forward-EndsForward_example :
    EndsForward toy-HttpLaws toy_net get_request addr "10.1.1.1" false 30000
      (forward toy_net get_request addr 30000 "10.1.1.1" false stale).0
forward-EndsForward_example =
    forward-EndsForward toy-HttpLaws toy_net get_request addr "10.1.1.1" false 30000 stale
      (omega arith)

abbrev empty_pool : Task toy_net
empty_pool = record { world = []; pool = new 2 }
