-- ===== src/Handler/Routing.antt =====
-- Which route handler.rs's `route` takes.
use mathlib.Core.List.{append-nil}
use mathlib.Core.Path.{subst}
use prismproxy.Prelude.{
  String, ◌≡◌, refl, ap, ◌∙◌, ◌↔◌, true, false, Option, none, some, List, [], ◌∷◌, ◌++◌,
  starts_with, Bool-cases, inl, inr, All,
}
use prismproxy.Plugin.{Wasm}
use prismproxy.Tls.{Rustls}
use prismproxy.State.{RouteState}
use prismproxy.Handler.{find_route}

module _ {wasm : Wasm} {rustls : Rustls} (path : String) where
  abbrev pub Serves : RouteState wasm rustls → Type 0
  Serves rs = starts_with path rs.route.path_prefix ≡ true

  abbrev pub Skips : RouteState wasm rustls → Type 0
  Skips rs = starts_with path rs.route.path_prefix ≡ false

  -- The outcome of the search: the first route whose prefix begins the path, or none.
  pub data Chosen : List (RouteState wasm rustls) → Option (RouteState wasm rustls) → Type 0 where
    unmatched : {rs : List (RouteState wasm rustls)} → All Skips rs → Chosen rs none
    matched :
        {rs : List (RouteState wasm rustls)} (before : List (RouteState wasm rustls))
        (r : RouteState wasm rustls) (behind : List (RouteState wasm rustls))
        → rs ≡ before ++ (r ∷ behind)
        → All Skips before
        → Serves r
        → Chosen rs (some r)

  find_route-skip :
      (before rest : List (RouteState wasm rustls))
      → All Skips before
      → find_route path (before ++ rest) ≡ find_route path rest
  unfolding find_route
  find_route-skip [] rest h = refl
  find_route-skip (r ∷ before) rest h = rw (h.0) (find_route-skip before rest h.1)

  find_route_of_Chosen :
      {rs : List (RouteState wasm rustls)} {o : Option (RouteState wasm rustls)}
      → Chosen rs o
      → find_route path rs ≡ o
  unfolding find_route
  find_route_of_Chosen (unmatched {rs} h) =
      subst (λ qs. find_route path qs ≡ none) (append-nil rs) (find_route-skip rs [] h)
  find_route_of_Chosen (matched before r behind e h serves) =
      ap (find_route path) e ∙ find_route-skip before (r ∷ behind) h ∙ rw serves

  Chosen-cons :
      (r : RouteState wasm rustls) {rs : List (RouteState wasm rustls)}
      {o : Option (RouteState wasm rustls)}
      → Skips r
      → Chosen rs o
      → Chosen (r ∷ rs) o
  Chosen-cons r skip (unmatched h) = unmatched (skip, h)
  Chosen-cons r skip (matched before q behind e h serves) =
      matched (r ∷ before) q behind (ap (◌∷◌ r) e) (skip, h) serves

  find_route-Chosen : (rs : List (RouteState wasm rustls)) → Chosen rs (find_route path rs)
  unfolding find_route
  find_route-Chosen [] = unmatched tt
  find_route-Chosen (r ∷ rs) = elim (Bool-cases (starts_with path r.route.path_prefix)) [
    | inl serves ↦ rw serves (matched [] r rs refl tt serves)
    | inr skips ↦ rw skips (Chosen-cons r skips (find_route-Chosen rs))
  ]

  -- `route` takes the first route, in the order of the configuration, whose prefix begins the path,
  -- and finds none exactly if no prefix begins it.
  pub find_route-Chosen_iff :
      (rs : List (RouteState wasm rustls)) (o : Option (RouteState wasm rustls))
      → (find_route path rs ≡ o) ↔ Chosen rs o
  find_route-Chosen_iff rs o =
      (λ e. subst (Chosen rs) e (find_route-Chosen rs), find_route_of_Chosen)
