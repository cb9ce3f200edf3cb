-- ===== src/Challenges.antt =====
-- acme.rs's challenge server and server.rs's redirect server: what each answers to one request, and
-- their accept loops over what happens at the listener.
pub mod Answers
mod Tests
use Prim.Native.Char.{code}
use Prim.Native.String
use prismproxy.Prelude.{
  ℕ, String, Option, none, some, List, [], ◌∷◌, format, show, lookup, ◌==◌, if◌then◌else◌, Result,
  ok, err,
}
use prismproxy.Http.{Http, Request, Response, Bytes}
use prismproxy.Handler.{text_response}

-- `PREFIX` of both servers
abbrev pub challenge_prefix : String
challenge_prefix = "/.well-known/acme-challenge/"

-- `str::strip_prefix`
unfoldable pub strip_prefix : String → String → Option String
strip_prefix s String.[] = some s
strip_prefix String.[] (String.◌∷◌ d p) = none
strip_prefix (String.◌∷◌ c s) (String.◌∷◌ d p) = if code c == code d then strip_prefix s p else none

-- `split(':').next()`
unfoldable pub before_colon : String → String
before_colon String.[] = ""
before_colon (String.◌∷◌ c s) =
    let rest = before_colon s in if code c == 58 then "" else String.◌∷◌ c rest

-- The key authorization for a path, if its token is in the store.
abbrev pub authorization : List (String × String) → Option String → Option String
authorization store none = none
authorization store (some token) = lookup token store

-- What happens at the listener: a connection, with the requests that are read from it, a failure to
-- accept one, or the shutdown. The redirect server has none but the end of the process.
pub data Arrival (Req : Type 0) : Type 0 where
  connection : List Req → Arrival Req
  not_accepted : String → Arrival Req
  shut_down : Arrival Req

-- The answers on one connection, whose task a panic ends.
abbrev pub answers : {Req Resp : Type 0} → (Req → Option Resp) → List Req → List Resp
answers service [] = []
answers service (req ∷ reqs) =
    let rest = answers service reqs in elim (service req) [ some resp ↦ resp ∷ rest | none ↦ [] ]

-- The answers on each connection that the loop accepts; a failure to accept one is passed over.
unfoldable pub serve_arrivals :
    {Req Resp : Type 0} → (Req → Option Resp) → List (Arrival Req) → List (List Resp)
serve_arrivals service [] = []
serve_arrivals service (connection reqs ∷ arrivals) =
    answers service reqs ∷ serve_arrivals service arrivals
serve_arrivals service (not_accepted e ∷ arrivals) = serve_arrivals service arrivals
serve_arrivals service (shut_down ∷ arrivals) = []

module _ (http : Http) where
  abbrev pub not_found : Response http Bytes
  not_found = record { status = 404; headers = http.empty; body = [] }

  abbrev pub challenge_or_404 : Option String → Option (Response http Bytes)
  challenge_or_404 none = some not_found
  challenge_or_404 (some key_auth) = text_response http 200 "text/plain" key_auth

  -- The service of `run_challenge_server_with_listener`; `none` is a panic of `unwrap`.
  unfoldable pub challenge_service :
      {Body : Type 0} → List (String × String) → Request http Body → Option (Response http Bytes)
  unfolding strip_prefix
  challenge_service challenges req =
      challenge_or_404
        (authorization challenges (strip_prefix (http.path_of req.uri) challenge_prefix))

  -- The text of the `host` header.
  abbrev text_of : Option http.Value → Option String
  text_of none = none
  text_of (some v) = http.to_str v

  abbrev pub host_header : http.Headers → Option String
  host_header h = text_of (http.get "host" h)

  abbrev pub host_name : Option String → String
  host_name none = ""
  host_name (some h) = before_colon h

  unfoldable pub location : ℕ → String → String → String
  location https_port host uri =
      if https_port == 443
      then format ("https://" ∷ host ∷ uri ∷ [])
      else format ("https://" ∷ host ∷ ":" ∷ show https_port ∷ uri ∷ [])

  abbrev pub moved : Option http.Value → Option (Response http Bytes)
  moved none = none
  moved (some v) =
      some (record { status = 301; headers = http.append "location" v http.empty; body = [] })

  abbrev pub challenge_or_redirect :
      {Body : Type 0} → ℕ → Request http Body → Option String → Option (Response http Bytes)
  challenge_or_redirect https_port req (some key_auth) =
      text_response http 200 "text/plain" key_auth
  challenge_or_redirect https_port req none = moved (
      http.parse_value
        (location https_port (host_name (host_header req.headers)) (http.show_uri req.uri)))

  -- The service of `run_http_redirect_server_with_listener`; `none` is a panic of `unwrap`.
  unfoldable pub redirect_service :
      {Body : Type 0}
      → ℕ
      → List (String × String)
      → Request http Body
      → Option (Response http Bytes)
  unfolding strip_prefix location
  redirect_service https_port challenges req =
      challenge_or_redirect https_port req
        (authorization challenges (strip_prefix (http.path_of req.uri) challenge_prefix))

  -- `run_challenge_server_with_listener`
  unfoldable pub run_challenge_server_with_listener :
      {Body : Type 0}
      → List (String × String)
      → List (Arrival (Request http Body))
      → List (List (Response http Bytes))
  unfolding challenge_service serve_arrivals
  run_challenge_server_with_listener challenges = serve_arrivals (challenge_service challenges)

  -- `run_http_redirect_server_with_listener`; each request finds the store as it is by then.
  unfoldable pub run_http_redirect_server_with_listener :
      {Body : Type 0}
      → ℕ
      → List (Arrival (List (String × String) × Request http Body))
      → List (List (Response http Bytes))
  unfolding redirect_service serve_arrivals
  run_http_redirect_server_with_listener https_port =
      serve_arrivals (λ found. redirect_service https_port found.0 found.1)

  -- `run_http_redirect_server`, with the outcome of `bind`.
  unfoldable pub run_http_redirect_server :
      {Body : Type 0}
      → Result (Unit {0}) String
      → ℕ
      → List (Arrival (List (String × String) × Request http Body))
      → List (List (Response http Bytes))
  unfolding run_http_redirect_server_with_listener
  run_http_redirect_server (err e) https_port arrivals = []
  run_http_redirect_server (ok u) https_port arrivals =
      run_http_redirect_server_with_listener https_port arrivals
