-- ===== src/Config/Refusals.antt =====
-- Which error config.rs's `validate` returns.
use prismproxy.Prelude.{
  ℕ, ◌+◌, String, ◌≡◌, ◌≢◌, true, false, none, List, [], ◌∷◌, ◌++◌, arith, any, str_eq, starts_with,
  Result, err, length, map, All, Bool-cases, inl, inr, ap, ◌∙◌,
}
use prismproxy.Errors.{config}
use prismproxy.Config.{
  Config, RouteConfig, duplicate_message, prefix_message, upstream_message, check_routes, validate,
}
use prismproxy.Config.Validity.{
  IsFresh, AreDistinct, any-eq-false, IsFresh-of_any, IsServable, IsAddress, check_route_complete,
  not-empty, AvoidAll, AvoidAll-cons, avoid_nothing,
}

-- The prefixes in the set after a run over some routes.
abbrev seen_after : List String → List RouteConfig → List String
seen_after seen [] = seen
seen_after seen (r ∷ rs) = seen_after (r.path_prefix ∷ seen) rs

abbrev pub prefixes : List RouteConfig → List String
prefixes = map λ r. r.path_prefix

seen_after-IsFresh :
    (x : String) (seen : List String) (rs : List RouteConfig)
    → IsFresh x seen
    → IsFresh x (prefixes rs)
    → IsFresh x (seen_after seen rs)
seen_after-IsFresh x seen [] fresh later = fresh
seen_after-IsFresh x seen (r ∷ rs) fresh later =
    seen_after-IsFresh x (r.path_prefix ∷ seen) rs (later.0, fresh) later.1

IsFresh-of_seen_after :
    (x : String) (seen : List String) (rs : List RouteConfig)
    → IsFresh x (seen_after seen rs)
    → IsFresh x seen × IsFresh x (prefixes rs)
IsFresh-of_seen_after x seen [] fresh = (fresh, tt)
IsFresh-of_seen_after x seen (r ∷ rs) fresh =
    let (older, later) = IsFresh-of_seen_after x (r.path_prefix ∷ seen) rs fresh in
    (older.1, (older.0, later))

seen-twice :
    (x : String) (rs : List RouteConfig)
    → ¬ IsFresh x (prefixes rs)
    → any (str_eq x) (seen_after [] rs) ≡ true
seen-twice x rs twice = elim (Bool-cases (any (str_eq x) (seen_after [] rs))) [
  | inl e ↦ e
  | inr e ↦ absurd (twice (IsFresh-of_seen_after x [] rs (IsFresh-of_any x _ e)).1)
]

module _ {Addr : Type 0} (parse_addr : String → Result Addr String) where
  -- Routes that pass are skipped.
  check_routes-append :
      (i : ℕ) (seen : List String) (good rest : List RouteConfig)
      → AvoidAll parse_addr seen good
      → All (IsServable parse_addr) good
      → AreDistinct (prefixes good)
      → check_routes parse_addr i seen (good ++ rest)
        ≡ check_routes parse_addr (i + length good) (seen_after seen good) rest
  unfolding check_routes
  check_routes-append i seen [] rest avoid each distinct =
      ap (λ k. check_routes parse_addr k seen rest) (omega arith)
  check_routes-append i seen (r ∷ good) rest avoid each distinct =
      rw (check_route_complete parse_addr i seen r avoid.0 each.0) (
        check_routes-append (i + 1) (r.path_prefix ∷ seen) good rest
          ((AvoidAll-cons parse_addr r.path_prefix seen good).1 (distinct.0, avoid.1)) each.1
          distinct.1
        ∙ ap (λ k. check_routes parse_addr k (seen_after (r.path_prefix ∷ seen) good) rest)
            (omega arith))

  -- What precedes the routes is in order.
  abbrev pub HeadIsValid : Config → Type 0
  HeadIsValid c =
      IsAddress parse_addr c.server.listen × (c.tls ≢ none → c.server.http_challenge_listen ≢ none)

  validate-routes :
      (c : Config) → HeadIsValid c → validate parse_addr c ≡ check_routes parse_addr 0 [] c.routes
  unfolding validate
  validate-routes c ((a, parsed), challenge) = rw parsed (ground arith)

  -- The first fault of the route `r` at index `i`, after routes with the prefixes `earlier`, and the
  -- message for it.
  pub data Fault (i : ℕ) (earlier : List String) (r : RouteConfig) : String → Type 0 where
    repeated : ¬ IsFresh r.path_prefix earlier → Fault i earlier r (duplicate_message i r)
    unrooted :
        IsFresh r.path_prefix earlier
        → starts_with r.path_prefix "/" ≡ false
        → Fault i earlier r (prefix_message i r)
    no_address :
        (e : String)
        → IsFresh r.path_prefix earlier
        → starts_with r.path_prefix "/" ≡ true
        → parse_addr r.upstream ≡ err e
        → Fault i earlier r (upstream_message i r e)

  check_routes-Fault :
      (i : ℕ) (good rest : List RouteConfig) (r : RouteConfig) {message : String}
      → Fault i (prefixes good) r message
      → check_routes parse_addr i (seen_after [] good) (r ∷ rest) ≡ err (config message)
  unfolding check_routes
  check_routes-Fault i good rest r (repeated twice) = rw (seen-twice r.path_prefix good twice)
  check_routes-Fault i good rest r (unrooted fresh h) =
      rw (any-eq-false r.path_prefix _ (seen_after-IsFresh r.path_prefix [] good tt fresh))
        (ground arith)
  check_routes-Fault i good rest r (no_address e fresh h refused) = rw (
    any-eq-false r.path_prefix _ (seen_after-IsFresh r.path_prefix [] good tt fresh),
    not-empty parse_addr r.path_prefix h,
    h,
    refused,
  )

  -- If the listen address parses and a challenge listener is named wherever TLS is configured, and
  -- the routes before the route `r` have distinct prefixes, each beginning with "/", and upstreams
  -- that parse, then `validate` returns an error that names the index of `r` and its first fault: a
  -- prefix that an earlier route has, else a prefix that does not begin with "/", else an upstream
  -- that does not parse, with the parser's text.
  pub validate-Fault :
      (c : Config) (good rest : List RouteConfig) (r : RouteConfig) {message : String}
      → HeadIsValid c
      → c.routes ≡ good ++ (r ∷ rest)
      → All (IsServable parse_addr) good
      → AreDistinct (prefixes good)
      → Fault (length good) (prefixes good) r message
      → validate parse_addr c ≡ err (config message)
  validate-Fault c good rest r {message} head routes each distinct fault =
      validate-routes c head
      ∙ ap (check_routes parse_addr 0 []) routes
      ∙ check_routes-append 0 [] good (r ∷ rest) (avoid_nothing parse_addr good) each distinct
      ∙ ap (λ k. check_routes parse_addr k (seen_after [] good) (r ∷ rest)) (omega arith)
      ∙ check_routes-Fault (length good) good rest r fault
