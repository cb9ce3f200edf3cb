-- ===== src/Acme/Offers.antt =====
-- The challenges that can be fetched when acme.rs tells the CA to fetch them.
use mathlib.Core.Path.{subst}
use prismproxy.Prelude.{
  ℕ, suc, get_elem?, String, ◌≡◌, refl, ap, ◌∙◌, Bool-cases, inl, inr, ◌⊎◌, Option, some, List, [],
  ◌∷◌, ◌++◌, lookup, insert, lookup-insert, All, All-append, str_eq,
}
use text.Mathlib.TextEquality.{eq_iff}
use prismproxy.Acme.Base.{
  Ca, Machine, Challenge, ChallengeType, http01, dns01, tls_alpn01, Authorization,
}
use prismproxy.Acme.Origin.{Answers}
use prismproxy.Acme.Steps.{find_http01}

-- The key authorization of a challenge is a function of its token: the token and the account's
-- thumbprint.
pub record KeyLaw (ca : Ca) : Type 0 where
  pub of_token :
      (order : ca.Order) (c d : Challenge)
      → c.token ≡ d.token
      → ca.key_authorization order c ≡ ca.key_authorization order d

by_kind :
    (k : ChallengeType) (c d : Challenge) (later : Option Challenge)
    → (elim k [ http01 ↦ some c | _ ↦ later ]) ≡ some d
    → ((k ≡ http01) × (c ≡ d)) ⊎ (later ≡ some d)
by_kind http01 c d later h = inl (refl, cc)
by_kind dns01 c d later h = inr h
by_kind tls_alpn01 c d later h = inr h

-- The challenge that is found is one of the authorization's, and of the type HTTP-01.
pub find_http01-member :
    (auth : Authorization) (c : Challenge)
    → find_http01 auth ≡ some c
    → (c.kind ≡ http01) × ((j : ℕ) × (get_elem? auth j ≡ some c))
unfolding find_http01
find_http01-member [] c h = cc
find_http01-member (d ∷ ds) c h = elim (by_kind d.kind d c (find_http01 ds) h) [
  | inl (http, same) ↦ (subst (λ (e : Challenge). e.kind ≡ http01) same http, (0, ap some same))
  | inr found ↦ let (http, (j, at)) = find_http01-member ds c found in (http, (suc j, at))
]

pub All-get_elem? :
    {A : Type 0} (P : A → Type 0) (xs : List A)
    → ((i : ℕ) (x : A) → get_elem? xs i ≡ some x → P x)
    → All P xs
All-get_elem? P [] h = tt
All-get_elem? P (x ∷ xs) h = (h 0 x refl, All-get_elem? P xs (λ i. h (suc i)))

module _ (ca : Ca) where
  open ca use {Order, key_authorization}

  -- One of the authorizations that the CA answered for the order.
  abbrev pub IsAuthorization : Order → Authorization → Type 0
  IsAuthorization order auth =
      (auths : List Authorization) × Answers (ca.authorizations order) auths
      × ((i : ℕ) × (get_elem? auths i ≡ some auth))

  -- A challenge of one of them.
  abbrev pub IsOffered : Order → Challenge → Type 0
  IsOffered order c =
      (auth : Authorization) × IsAuthorization order auth × ((j : ℕ) × (get_elem? auth j ≡ some c))

  -- An HTTP-01 challenge of the order, with its key authorization under its token.
  pub record IsServed (order : Order) (served : List (String × String)) (url : String)
      : Type 0 where
    pub challenge : Challenge
    pub at : challenge.url ≡ url
    pub is_http : challenge.kind ≡ http01
    pub offered : IsOffered order challenge
    pub fetched : lookup challenge.token served ≡ some (key_authorization order challenge)

  -- Whatever the CA was told of, it could fetch at that moment.
  abbrev pub IsHonest : Machine ca → Type 0
  IsHonest m =
      All (λ (t : String × List (String × String)). (order : Order) × IsServed order t.1 t.0) m.told

  abbrev pub AllServed : Order → List (String × String) → List String → Type 0
  AllServed order served urls = All (IsServed order served) urls

  abbrev pub Offers : Order → List String → Machine ca → Type 0
  Offers order urls m = IsHonest m × AllServed order m.challenges urls

module _ {ca : Ca} (laws : KeyLaw ca) (order : ca.Order) where
  open ca use {key_authorization}

  IsServed-insert :
      (c : Challenge) (served : List (String × String)) (url : String)
      → IsServed ca order served url
      → IsServed ca order (insert c.token (key_authorization order c) served) url
  IsServed-insert c served url s =
      let d = s.challenge in
      record {
        challenge = d;
        at = s.at;
        is_http = s.is_http;
        offered = s.offered;
        fetched =
            lookup-insert c.token d.token (key_authorization order c) served
            ∙ (elim (Bool-cases (str_eq c.token d.token)) [
              | inl same ↦
                  rw same (ap some (laws.of_token order c d ((eq_iff c.token d.token).0 same)))
              | inr other ↦ rw other s.fetched
            ]);
      }

  AllServed-insert :
      (c : Challenge) (served : List (String × String)) (urls : List String)
      → AllServed ca order served urls
      → AllServed ca order (insert c.token (key_authorization order c) served) urls
  AllServed-insert c served [] h = tt
  AllServed-insert c served (url ∷ urls) h =
      (IsServed-insert c served url h.0, AllServed-insert c served urls h.1)

  -- One more challenge.
  pub AllServed-more :
      (c : Challenge) (served : List (String × String)) (urls : List String)
      → c.kind ≡ http01
      → IsOffered ca order c
      → AllServed ca order served urls
      → AllServed ca order (insert c.token (key_authorization order c) served) (urls ++ c.url ∷ [])
  AllServed-more c served urls http offered h =
      All-append _ urls (c.url ∷ []) (AllServed-insert c served urls h) (
        record {
          challenge = c;
          at = refl;
          is_http = http;
          offered = offered;
          fetched =
              lookup-insert c.token c.token (key_authorization order c) served
              ∙ (rw ((eq_iff c.token c.token).1 refl) refl);
        },
        tt,
      )
