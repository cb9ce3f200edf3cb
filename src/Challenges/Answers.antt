-- ===== src/Challenges/Answers.antt =====
-- What the challenge server and the redirect server answer.
use Prim.Native.Char.{Char, code}
use mathlib.Core.Path.{subst}
use Prim.Native.String
use text.Mathlib.TextLemmas.{nil-append, cons-append}
use prismproxy.Prelude.{
  ℕ, String, ◌≡◌, ◌≢◌, refl, ap, ◌∙◌, Option, none, some, List, [], ◌∷◌, ◌⊎◌, format, ◌==◌, arith,
  as_bytes, lookup, insert, lookup-insert, eq_refl, show, IsVisible, IsVisible-append,
  show-IsVisible, Option-cases, Bool-cases, inl, inr,
}
use prismproxy.Http.{Http, HttpLaws, Request, Response, Bytes}
use prismproxy.Handler.{text_response, with_type}
use prismproxy.Challenges.{
  challenge_prefix, strip_prefix, before_colon, authorization, challenge_service, host_header,
  host_name, location, moved, redirect_service,
}

strip_prefix-append : (p s : String) → strip_prefix (String.◌++◌ p s) p ≡ some s
unfolding strip_prefix
strip_prefix-append String.[] s = ap some (nil-append s)
strip_prefix-append (String.◌∷◌ c p) s = rw cons-append (ground (arith, strip_prefix-append p s))

IsVisible-before_colon : (s : String) → IsVisible s → IsVisible (before_colon s)
unfolding before_colon
IsVisible-before_colon String.[] h = tt
IsVisible-before_colon (String.◌∷◌ c s) (lo, hi, h) = elim (Bool-cases (code c == 58)) [
  | inl colon ↦ rw colon tt
  | inr other ↦ rw other (lo, hi, IsVisible-before_colon s h)
]

-- A `host` header, if there is one, of visible characters, as `HeaderValue::to_str` yields it.
abbrev pub IsVisibleHost : Option String → Type 0
IsVisibleHost none = Unit
IsVisibleHost (some h) = IsVisible h

IsVisible-host_name :
    (http : Http) (o : Option String) → IsVisibleHost o → IsVisible (host_name http o)
IsVisible-host_name http none h = tt
IsVisible-host_name http (some s) h = IsVisible-before_colon s h

IsVisible-location :
    (http : Http) (https_port : ℕ) (host uri : String)
    → IsVisible host
    → IsVisible uri
    → IsVisible (location http https_port host uri)
unfolding location
IsVisible-location http https_port host uri h u = elim (Bool-cases (https_port == 443)) [
  | inl default ↦ rw default (
      IsVisible-append "https://" _ (omega arith)
        (IsVisible-append host _ h (IsVisible-append uri "" u tt)))
  | inr other ↦ rw other (
      IsVisible-append "https://" _ (omega arith) (
        IsVisible-append host _ h (
          IsVisible-append ":" _ (omega arith) (
            IsVisible-append (show https_port) _ (show-IsVisible https_port)
              (IsVisible-append uri "" u tt)))))
]

-- The first text is what stands before the first colon of the second.
pub data UpToColon : String → String → Type 0 where
  whole : UpToColon "" ""
  stops : (c : Char) (s : String) → code c ≡ 58 → UpToColon "" (String.◌∷◌ c s)
  goes_on :
      (c : Char) (host s : String)
      → code c ≢ 58
      → UpToColon host s
      → UpToColon (String.◌∷◌ c host) (String.◌∷◌ c s)

before_colon-UpToColon : (s : String) → UpToColon (before_colon s) s
unfolding before_colon
before_colon-UpToColon String.[] = whole
before_colon-UpToColon (String.◌∷◌ c s) = elim (Bool-cases (code c == 58)) [
  | inl colon ↦ rw colon (stops c s (ground (arith, colon)))
  | inr other ↦
      let differs : code c ≢ 58 = λ e. ground (arith, other, e) in
      rw other (goes_on c _ s differs (before_colon-UpToColon s))
]

-- The host that a `host` header names.
abbrev pub Names : Option String → String → Type 0
Names none host = host ≡ ""
Names (some h) host = UpToColon host h

Names-host_name : (http : Http) (o : Option String) → Names o (host_name http o)
Names-host_name http none = refl
Names-host_name http (some h) = before_colon-UpToColon h

location-cases :
    (http : Http) (https_port : ℕ) (host uri : String)
    → ((https_port ≡ 443)
        × (location http https_port host uri ≡ format ("https://" ∷ host ∷ uri ∷ [])))
      ⊎ ((https_port ≢ 443)
          × (location http https_port host uri
              ≡ format ("https://" ∷ host ∷ ":" ∷ show https_port ∷ uri ∷ [])))
unfolding location
location-cases http https_port host uri = elim (Bool-cases (https_port == 443)) [
  | inl default ↦
      let same : https_port ≡ 443 = ground (arith, default) in rw default (inl (same, refl))
  | inr other ↦
      let differs : https_port ≢ 443 = λ e. ground (arith, other, e) in
      rw other (inr (differs, refl))
]

module _ {http : Http} (laws : HttpLaws http) {Body : Type 0} (req : Request http Body) where
  -- A response that carries a key authorization.
  pub record Proves (key_auth : String) (o : Option (Response http Bytes)) : Type 0 where
    pub response : Response http Bytes
    pub made : o ≡ some response
    pub has_status : response.status ≡ 200
    pub has_body : response.body ≡ as_bytes key_auth

  with_type-Proves :
      (key_auth : String) (o : Option http.Value)
      → o ≢ none
      → Proves key_auth (with_type http 200 key_auth o)
  with_type-Proves key_auth none h = absurd (h refl)
  with_type-Proves key_auth (some v) h = record {
    response = _;
    made = refl;
    has_status = refl;
    has_body = refl;
  }

  text_response-Proves :
      (key_auth : String) → Proves key_auth (text_response http 200 "text/plain" key_auth)
  text_response-Proves key_auth =
      with_type-Proves key_auth (http.parse_value "text/plain")
        (laws.parse_visible "text/plain" (omega arith))

  -- What both servers answer where the store has the authorization of a token.
  pub lookup-Proves :
      (https_port : ℕ) (token key_auth : String) (store : List (String × String))
      → http.path_of req.uri ≡ String.◌++◌ challenge_prefix token
      → lookup token store ≡ some key_auth
      → Proves key_auth (challenge_service http store req)
        × Proves key_auth (redirect_service http https_port store req)
  unfolding challenge_service redirect_service
  lookup-Proves https_port token key_auth store at stored =
      let found : authorization store (strip_prefix (http.path_of req.uri) challenge_prefix)
          ≡ some key_auth =
        rw (at, strip_prefix-append challenge_prefix token, stored) refl in
      (rw found (text_response-Proves key_auth), rw found (text_response-Proves key_auth))

  -- Once the authorization of a token has been stored, whatever else the store holds, both the
  -- challenge server and the redirect server answer a request for the token's path with it.
  pub token-Proves :
      (https_port : ℕ) (token key_auth : String) (store : List (String × String))
      → http.path_of req.uri ≡ String.◌++◌ challenge_prefix token
      → Proves key_auth (challenge_service http (insert token key_auth store) req)
        × Proves key_auth (redirect_service http https_port (insert token key_auth store) req)
  token-Proves https_port token key_auth store at =
      lookup-Proves https_port token key_auth (insert token key_auth store) at
        (lookup-insert token token key_auth store ∙ rw (eq_refl token) refl)

  -- A permanent redirect to a location.
  pub record Redirects (to : String) (o : Option (Response http Bytes)) : Type 0 where
    pub value : http.Value
    pub parsed : http.parse_value to ≡ some value
    pub made :
        o
        ≡ some
            (record { status = 301; headers = http.append "location" value http.empty; body = [] })

  moved-Redirects : (to : String) → IsVisible to → Redirects to (moved http (http.parse_value to))
  moved-Redirects to visible = elim (Option-cases (http.parse_value to)) [
    | inl missing ↦ absurd (laws.parse_visible to visible missing)
    | inr (v, parsed) ↦ record { value = v; parsed = parsed; made = rw parsed refl }
  ]

  redirected :
      (https_port : ℕ) (store : List (String × String))
      → IsVisibleHost (host_header http req.headers)
      → IsVisible (http.show_uri req.uri)
      → authorization store (strip_prefix (http.path_of req.uri) challenge_prefix) ≡ none
      → Redirects
          (location http https_port
            (host_name http (host_header http req.headers))
            (http.show_uri req.uri))
          (redirect_service http https_port store req)
  unfolding redirect_service
  redirected https_port store host uri unknown = rw unknown (
      moved-Redirects _
        (IsVisible-location http https_port _ _ (IsVisible-host_name http _ host) uri))

  -- If the host header and the URI are of visible characters and the store has no authorization for
  -- the path, the redirect server does not panic, and answers with a permanent redirect to the URI at
  -- the host that the header names before its first colon, by `https`: without a port if that is
  -- 443, else with it.
  pub redirect_service-Redirects :
      (https_port : ℕ) (store : List (String × String))
      → IsVisibleHost (host_header http req.headers)
      → IsVisible (http.show_uri req.uri)
      → authorization store (strip_prefix (http.path_of req.uri) challenge_prefix) ≡ none
      → (host : String) × Names (host_header http req.headers) host
        × (((https_port ≡ 443)
              × Redirects
                  (format ("https://" ∷ host ∷ http.show_uri req.uri ∷ []))
                  (redirect_service http https_port store req))
            ⊎ ((https_port ≢ 443)
                × Redirects
                    (format
                      ("https://" ∷ host ∷ ":" ∷ show https_port ∷ http.show_uri req.uri ∷ []))
                    (redirect_service http https_port store req)))
  redirect_service-Redirects https_port store host uri unknown =
      let named = host_name http (host_header http req.headers) in
      let sent = redirected https_port store host uri unknown in
      let service = redirect_service http https_port store req in
      (
        named,
        Names-host_name http (host_header http req.headers),
        elim (location-cases http https_port named (http.show_uri req.uri)) [
          | inl (default, e) ↦ inl (default, subst (λ to. Redirects to service) e sent)
          | inr (other, e) ↦ inr (other, subst (λ to. Redirects to service) e sent)
        ],
      )
