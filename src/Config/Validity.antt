-- ===== src/Config/Validity.antt =====
-- Which configurations config.rs's `validate` accepts, and which route it refuses.
use mathlib.Core.Path.{subst}
use prismproxy.Prelude.{
  ℕ, ◌+◌, String, ◌≡◌, refl, sym, ◌≢◌, ◌↔◌, true, false, none, List, [], ◌∷◌, arith, any, str_eq,
  eq_iff, starts_with, Result, ok, map, All, Bool-cases, Result-cases, inl, inr,
}
use prismproxy.Config.{Config, RouteConfig, check_route, check_routes, validate}

-- `x` is none of the texts.
abbrev pub IsFresh : String → List String → Type 0
IsFresh x seen = All (λ p. x ≢ p) seen

-- No text occurs twice.
abbrev pub AreDistinct : List String → Type 0
AreDistinct [] = Unit
AreDistinct (x ∷ xs) = IsFresh x xs × AreDistinct xs

pub any-eq-false : (x : String) (seen : List String) → IsFresh x seen → any (str_eq x) seen ≡ false
any-eq-false x [] h = refl
any-eq-false x (p ∷ seen) h = ground (arith, eq_iff x p, any-eq-false x seen h.1)

pub IsFresh-of_any :
    (x : String) (seen : List String) → any (str_eq x) seen ≡ false → IsFresh x seen
IsFresh-of_any x [] h = tt
IsFresh-of_any x (p ∷ seen) h =
    ((λ e. ground (arith, eq_iff x p)), IsFresh-of_any x seen (ground arith))

module _ {Addr : Type 0} (parse_addr : String → Result Addr String) where
  abbrev pub IsAddress : String → Type 0
  IsAddress s = (a : Addr) × (parse_addr s ≡ ok a)

  -- A route that the proxy can serve: its prefix is a path and its upstream an address.
  pub record IsServable (route : RouteConfig) : Type 0 where
    pub rooted : starts_with route.path_prefix "/" ≡ true
    pub address : IsAddress route.upstream

  pub record IsValid (c : Config) : Type 0 where
    pub listen : IsAddress c.server.listen
    pub challenge : c.tls ≢ none → c.server.http_challenge_listen ≢ none
    pub servable : All IsServable c.routes
    pub distinct : AreDistinct (map (λ r. r.path_prefix) c.routes)

  check_route_sound :
      (i : ℕ) (seen : List String) (r : RouteConfig)
      → check_route parse_addr i seen r ≡ ok tt
      → IsFresh r.path_prefix seen × IsServable r
  unfolding check_route
  check_route_sound i seen r h = elim (Result-cases (parse_addr r.upstream)) [
    | inl parsed ↦ (
      IsFresh-of_any r.path_prefix seen (ground arith),
      record { rooted = ground arith; address = parsed },
    )
    | inr (e, refused) ↦ absurd (ground arith)
  ]

  pub not-empty : (p : String) → starts_with p "/" ≡ true → str_eq p "" ≡ false
  not-empty p h = elim (Bool-cases (str_eq p "")) [
    | inl e ↦ cc (subst (λ s. starts_with s "/" ≡ true) ((eq_iff p "").0 e) h)
    | inr e ↦ e
  ]

  pub check_route_complete :
      (i : ℕ) (seen : List String) (r : RouteConfig)
      → IsFresh r.path_prefix seen
      → IsServable r
      → check_route parse_addr i seen r ≡ ok tt
  unfolding check_route
  check_route_complete i seen r fresh servable =
      let (a, parsed) = servable.address in
      rw (
        any-eq-false r.path_prefix seen fresh,
        not-empty r.path_prefix servable.rooted,
        servable.rooted,
        parsed,
      )

  -- The prefix of each route is none of `seen`.
  abbrev pub AvoidAll : List String → List RouteConfig → Type 0
  AvoidAll seen = All (λ r. IsFresh r.path_prefix seen)

  -- `seen` grows by `x` exactly if none of the routes has the prefix `x`.
  pub AvoidAll-cons :
      (x : String) (seen : List String) (rs : List RouteConfig)
      → AvoidAll (x ∷ seen) rs ↔ (IsFresh x (map (λ r. r.path_prefix) rs) × AvoidAll seen rs)
  AvoidAll-cons x seen [] = (λ _. (tt, tt), λ _. tt)
  AvoidAll-cons x seen (r ∷ rs) =
      let (to, from) = AvoidAll-cons x seen rs in
      (
        λ h. let (fresh, avoid) = to h.1 in ((λ e. h.0.0 (sym e), fresh), (h.0.1, avoid)),
        λ h. (((λ e. h.0.0 (sym e)), h.1.0), from (h.0.1, h.1.1)),
      )

  check_routes_sound :
      (i : ℕ) (seen : List String) (rs : List RouteConfig)
      → check_routes parse_addr i seen rs ≡ ok tt
      → AvoidAll seen rs × All IsServable rs × AreDistinct (map (λ r. r.path_prefix) rs)
  unfolding check_routes
  check_routes_sound i seen [] h = (tt, tt, tt)
  check_routes_sound i seen (r ∷ rs) h = elim (Result-cases (check_route parse_addr i seen r)) [
    | inl (u, passed) ↦
        let (fresh, servable) = check_route_sound i seen r passed in
        let (avoid, each, distinct) =
          check_routes_sound (i + 1) (r.path_prefix ∷ seen) rs (rw (passed) at h) in
        let (unlike, older) = (AvoidAll-cons r.path_prefix seen rs).0 avoid in
        ((fresh, older), (servable, each), (unlike, distinct))
    | inr (e, refused) ↦ absurd (cc (rw refused at h))
  ]

  check_routes_complete :
      (i : ℕ) (seen : List String) (rs : List RouteConfig)
      → AvoidAll seen rs
      → All IsServable rs
      → AreDistinct (map (λ r. r.path_prefix) rs)
      → check_routes parse_addr i seen rs ≡ ok tt
  unfolding check_routes
  check_routes_complete i seen [] avoid each distinct = refl
  check_routes_complete i seen (r ∷ rs) avoid each distinct =
      rw (check_route_complete i seen r avoid.0 each.0) (
        check_routes_complete (i + 1) (r.path_prefix ∷ seen) rs
          ((AvoidAll-cons r.path_prefix seen rs).1 (distinct.0, avoid.1)) each.1 distinct.1)

  validate_sound : (c : Config) → validate parse_addr c ≡ ok tt → IsValid c
  unfolding validate
  validate_sound c h = elim (Result-cases (parse_addr c.server.listen)) [
    | inl listen ↦
        let routes : check_routes parse_addr 0 [] c.routes ≡ ok tt = ground arith in
        let (_, servable, distinct) = check_routes_sound 0 [] c.routes routes in
        record {
          listen = listen;
          challenge = λ tls missing. ground arith;
          servable = servable;
          distinct = distinct;
        }
    | inr (e, refused) ↦ absurd (ground arith)
  ]

  pub avoid_nothing : (rs : List RouteConfig) → AvoidAll [] rs
  avoid_nothing [] = tt
  avoid_nothing (r ∷ rs) = (tt, avoid_nothing rs)

  validate_complete : (c : Config) → IsValid c → validate parse_addr c ≡ ok tt
  unfolding validate
  validate_complete c v =
      let (a, parsed) = v.listen in
      let routes =
        check_routes_complete 0 [] c.routes (avoid_nothing c.routes) v.servable v.distinct in
      let challenge = v.challenge in rw parsed (ground arith)

  -- `validate` accepts a configuration exactly if the listen address parses, a challenge listener is
  -- named wherever TLS is configured, every route has a prefix that begins with "/" and an upstream
  -- that parses, and no prefix occurs twice.
  pub validate_iff : (c : Config) → (validate parse_addr c ≡ ok tt) ↔ IsValid c
  validate_iff c = (validate_sound c, validate_complete c)
