-- ===== src/Handler/Shadowing.antt =====
-- Which routes handler.rs's `route` can never take.
use text.Mathlib.TextLemmas.{append_assoc}
use text.Mathlib.TextEquality.{starts_with_iff}
use Prim.Native.String
use prismproxy.Prelude.{
  String, ◌≡◌, refl, sym, ap, ◌∙◌, true, List, [], ◌∷◌, ◌++◌, starts_with, Bool-cases, inl, inr,
}
use prismproxy.Plugin.{Wasm}
use prismproxy.Tls.{Rustls}
use prismproxy.State.{RouteState}
use prismproxy.Handler.{find_route}
use prismproxy.Handler.Routing.{Skips}

starts_with_trans :
    (s t u : String) → starts_with s t ≡ true → starts_with t u ≡ true → starts_with s u ≡ true
starts_with_trans s t u h k =
    let (after_t, s_is) = (starts_with_iff s t).0 h in
    let (after_u, t_is) = (starts_with_iff t u).0 k in
    (starts_with_iff s u).1 (
      String.◌++◌ after_u after_t,
      sym (append_assoc u after_u after_t) ∙ ap (λ x. String.◌++◌ x after_t) t_is ∙ s_is,
    )

module _ {wasm : Wasm} {rustls : Rustls} (path : String) where
  -- A route that does not serve the path can be left out behind any others.
  find_route-drop :
      (middle behind : List (RouteState wasm rustls)) (q : RouteState wasm rustls)
      → Skips path q
      → find_route path (middle ++ (q ∷ behind)) ≡ find_route path (middle ++ behind)
  unfolding find_route
  find_route-drop [] behind q skips = rw skips refl
  find_route-drop (r ∷ middle) behind q skips = rw (find_route-drop middle behind q skips) refl

  find_route-shadowed :
      (middle behind : List (RouteState wasm rustls)) (r q : RouteState wasm rustls)
      → starts_with q.route.path_prefix r.route.path_prefix ≡ true
      → find_route path (r ∷ (middle ++ (q ∷ behind))) ≡ find_route path (r ∷ (middle ++ behind))
  unfolding find_route
  find_route-shadowed middle behind r q extends =
      elim (Bool-cases (starts_with path r.route.path_prefix)) [
        | inl serves ↦ rw serves refl
        | inr skips ↦ elim (Bool-cases (starts_with path q.route.path_prefix)) [
          | inl reached ↦ absurd (
              let both =
                starts_with_trans path q.route.path_prefix r.route.path_prefix reached extends in
              cc)
          | inr unreached ↦ rw (find_route-drop middle behind q unreached) refl
        ]
      ]

  -- A route whose prefix begins with the prefix of an earlier route is never taken: for every path
  -- the search has the same outcome as without it.
  pub find_route-unreachable :
      (before middle behind : List (RouteState wasm rustls)) (r q : RouteState wasm rustls)
      → starts_with q.route.path_prefix r.route.path_prefix ≡ true
      → find_route path (before ++ (r ∷ (middle ++ (q ∷ behind))))
        ≡ find_route path (before ++ (r ∷ (middle ++ behind)))
  unfolding find_route
  find_route-unreachable [] middle behind r q extends =
      find_route-shadowed middle behind r q extends
  find_route-unreachable (p ∷ before) middle behind r q extends =
      rw (find_route-unreachable before middle behind r q extends) refl
