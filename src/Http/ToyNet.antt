-- ===== src/Http/ToyNet.antt =====
-- A network for runs and witnesses: connection 0 is stale, connection 9 never answers, and the
-- address "127.0.0.1:1" refuses. The world is the log of what was sent, the newest first.
use prismproxy.Prelude.{ℕ, String, List, [], ◌∷◌, ◌==◌, if◌then◌else◌, str_eq, Result, ok, err}
use prismproxy.Http.{Net, Request, Response, Await, ready, late, Bytes}
use prismproxy.Http.Toy.{toy_http}

abbrev pub Log : Type 0
Log = List (Request toy_http Bytes)

abbrev pub hello : Response toy_http Bytes
hello = record {
  status = 200;
  headers = ("connection", "close") ∷ ("content-type", "text/plain") ∷ [];
  body = 104 ∷ 105 ∷ [];
}

abbrev send_toy :
    ℕ → Request toy_http Bytes → Log → Await (Result (Response toy_http Bytes) String) × Log
send_toy conn request w =
    if conn == 0
    then (ready (err "connection closed"), w)
    else if conn == 9
    then (late, w)
    else (ready (ok hello), request ∷ w)

abbrev pub toy_net : Net toy_http
toy_net = record {
  World = Log;
  Stream = String;
  Conn = ℕ;
  Incoming = Bytes;
  connect = λ addr w.
      (ready (if str_eq addr "127.0.0.1:1" then err "connection refused" else ok addr), w);
  handshake = λ stream w. (ready (ok 5), w);
  send_request = send_toy;
  collect = λ body w. (ready (ok body), w);
  lock = λ w. (ready [], w);
  elapsed_between = λ before after. 3;
  uptime = λ w. "1.0";
}
