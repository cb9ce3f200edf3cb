-- ===== src/Acme/Fetched.antt =====
-- What the servers answer to the CA when acme.rs has told it of a challenge.
use Prim.Native.String
use prismproxy.Prelude.{ℕ, String, ◌≡◌, Option, List, [], ◌∷◌, All}
use prismproxy.Config.{TlsConfig}
use prismproxy.Http.{Http, HttpLaws, Request, Response, Bytes}
use prismproxy.Challenges.{challenge_prefix, challenge_service, redirect_service}
use prismproxy.Challenges.Answers.{Proves, lookup-Proves}
use prismproxy.Acme.Base.{Ca, Machine, Challenge, http01}
use prismproxy.Acme.Offers.{KeyLaw, IsServed, IsOffered}
use prismproxy.Acme.{provision, provision_with_store}
use prismproxy.Acme.Told.{provision-IsHonest, provision_with_store-IsHonest}

-- A server's service, from the challenges that it finds.
abbrev pub Service : Http → Type 0 → Type 0
Service http Body = List (String × String) → Request http Body → Option (Response http Bytes)

module _ (ca : Ca) {http : Http} (laws : HttpLaws http) {Body : Type 0}
    (request_for : String → Request http Body) where
  -- The URL is that of an HTTP-01 challenge that the CA offered for an order, and the request for its
  -- token is answered with its key authorization.
  pub record IsFetched (service : Service http Body) (served : List (String × String))
      (url : String) : Type 0 where
    pub order : ca.Order
    pub challenge : Challenge
    pub at : challenge.url ≡ url
    pub is_http : challenge.kind ≡ http01
    pub offered : IsOffered ca order challenge
    pub answered :
        Proves laws
          (request_for challenge.token)
          (ca.key_authorization order challenge)
          (service served (request_for challenge.token))

  -- That of every challenge that the CA was told of, with the challenges of that moment.
  abbrev pub AllFetched : Service http Body → Machine ca → Type 0
  AllFetched service m =
      All (λ (t : String × List (String × String)). IsFetched service t.1 t.0) m.told

  module _ (https_port : ℕ)
      (at_prefix : (token : String)
        → http.path_of (request_for token).uri ≡ String.◌++◌ challenge_prefix token) where
    proved :
        (order : ca.Order) (served : List (String × String)) (url : String)
        (s : IsServed ca order served url)
        → Proves laws
            (request_for s.challenge.token)
            (ca.key_authorization order s.challenge)
            (challenge_service http served (request_for s.challenge.token))
          × Proves laws
              (request_for s.challenge.token)
              (ca.key_authorization order s.challenge)
              (redirect_service http https_port served (request_for s.challenge.token))
    proved order served url s =
        let token = s.challenge.token in
        lookup-Proves laws (request_for token) https_port token _ served (at_prefix token) s.fetched

    served-IsFetched :
        (told : List (String × List (String × String)))
        → All
            (λ (t : String × List (String × String)).
              (order : ca.Order) × IsServed ca order t.1 t.0)
            told
        → All
            (λ (t : String × List (String × String)). IsFetched (challenge_service http) t.1 t.0)
            told
          × All
              (λ (t : String × List (String × String)).
                IsFetched (redirect_service http https_port) t.1 t.0)
              told
    served-IsFetched [] h = (tt, tt)
    served-IsFetched ((url, served) ∷ told) ((order, s), h) =
        let (first, second) = proved order served url s in
        let (challenged, redirected) = served-IsFetched told h in
        (
          (
            record {
              order = order;
              challenge = s.challenge;
              at = s.at;
              is_http = s.is_http;
              offered = s.offered;
              answered = first;
            },
            challenged,
          ),
          (
            record {
              order = order;
              challenge = s.challenge;
              at = s.at;
              is_http = s.is_http;
              offered = s.offered;
              answered = second;
            },
            redirected,
          ),
        )

    module _ (keys : KeyLaw ca) (tls_config : TlsConfig) (m : Machine ca) where
      -- However `provision_with_store` ends, each URL that it told the CA of is that of an HTTP-01
      -- challenge of an authorization that the CA answered for an order, and the redirect server, with the store as it was at that moment, answers a
      -- request for the challenge's path with its key authorization. The machine had told nothing
      -- before, and the key authorization of a challenge is a function of its token.
      pub provision_with_store-AllFetched :
          m.told ≡ []
          → AllFetched (redirect_service http https_port) (provision_with_store ca tls_config m).1
      provision_with_store-AllFetched fresh =
          (served-IsFetched _ (provision_with_store-IsHonest keys tls_config m fresh)).1

      -- However `provision` ends, each URL that it told the CA of is that of an HTTP-01 challenge of
      -- an authorization that the CA answered for an order, and the challenge server, with the challenges that were served at that moment, answers a
      -- request for the challenge's path with its key authorization. The machine had told nothing
      -- before, and the key authorization of a challenge is a function of its token.
      pub provision-AllFetched :
          (rounds : ℕ) (listen : String)
          → m.told ≡ []
          → AllFetched (challenge_service http) (provision ca rounds tls_config listen m).1
      provision-AllFetched rounds listen fresh =
          (served-IsFetched _ (provision-IsHonest keys tls_config m rounds listen fresh)).0
