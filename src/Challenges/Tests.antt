-- ===== src/Challenges/Tests.antt =====
-- Runs of the two services over the toy header maps, and their properties there.
use prismproxy.Prelude.{
  ℕ, ◌⊎◌, ◌≢◌, format, lookup, String, ◌≡◌, refl, none, some, List, [], ◌∷◌, arith, insert, show,
  map, err,
}
use prismproxy.Http.{Request, Response, Bytes}
use prismproxy.Http.Toy.{toy_http, toy-HttpLaws}
use prismproxy.Challenges.{
  challenge_service, redirect_service, strip_prefix, location, before_colon, host_name, host_header,
  authorization, challenge_prefix, connection, not_accepted, shut_down,
  run_challenge_server_with_listener, run_http_redirect_server,
}
use prismproxy.Challenges.Answers.{
  Proves, Names, token-Proves, Redirects, redirect_service-Redirects,
}

abbrev request_of : String → String → Request toy_http Bytes
request_of host path = record {
  method = "GET";
  uri = path;
  headers = ("host", host) ∷ [];
  body = [];
}

abbrev token_request : Request toy_http Bytes
token_request = request_of "example.com" "/.well-known/acme-challenge/abc"

abbrev store : List (String × String)
store = ("xyz", "xyz.key") ∷ []

token-Proves_example :
    Proves toy-HttpLaws token_request "abc.key"
      (challenge_service toy_http (insert "abc" "abc.key" store) token_request)
    × Proves toy-HttpLaws token_request "abc.key"
        (redirect_service toy_http 8443 (insert "abc" "abc.key" store) token_request)
token-Proves_example = token-Proves toy-HttpLaws token_request 8443 "abc" "abc.key" store refl

abbrev page_request : Request toy_http Bytes
page_request = request_of "example.com:8080" "/index.html"

page_location :
    location toy_http 8443
      (host_name toy_http (host_header toy_http page_request.headers))
      "/index.html"
    ≡ "https://example.com:8443/index.html"
unfolding location before_colon show
page_location = refl

-- The brackets of an IPv6 host are lost.
ipv6_location :
    location toy_http 443 (host_name toy_http (some "[::1]:80")) "/index.html"
    ≡ "https://[/index.html"
unfolding location before_colon
ipv6_location = refl

page_unknown : authorization store (strip_prefix "/index.html" challenge_prefix) ≡ none
unfolding strip_prefix
page_unknown = refl

abbrev another_port : ℕ
another_port = 8443

redirect_service-Redirects_example :
    (host : String) × Names (some "example.com:8080") host
    × (((another_port ≡ 443)
          × Redirects toy-HttpLaws page_request
              (format ("https://" ∷ host ∷ "/index.html" ∷ []))
              (redirect_service toy_http another_port store page_request))
        ⊎ ((another_port ≢ 443)
            × Redirects toy-HttpLaws page_request
                (format ("https://" ∷ host ∷ ":" ∷ show another_port ∷ "/index.html" ∷ []))
                (redirect_service toy_http another_port store page_request)))
unfolding show
redirect_service-Redirects_example =
    redirect_service-Redirects toy-HttpLaws page_request another_port store (omega arith)
      (omega arith) page_unknown

-- A failure to accept a connection stops neither server, and no connection comes after the shutdown.
served_run :
    map (map (λ (r : Response toy_http Bytes). r.status)) (
      run_challenge_server_with_listener toy_http store (
        not_accepted "x"
        ∷ connection (token_request ∷ request_of "" "/.well-known/acme-challenge/xyz" ∷ [])
        ∷ shut_down
        ∷ connection (token_request ∷ [])
        ∷ []))
    ≡ (404 ∷ 200 ∷ []) ∷ []
unfolding run_challenge_server_with_listener lookup
served_run = refl

unbound_run :
    run_http_redirect_server toy_http
      (err "in use")
      443
      (connection ((store, token_request) ∷ []) ∷ [])
    ≡ []
unfolding run_http_redirect_server
unbound_run = refl
