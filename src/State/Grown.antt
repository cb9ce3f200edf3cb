-- ===== src/State/Grown.antt =====
-- The health flags before and after state.rs's `build_state`.
use mathlib.Core.Path.{subst}
use prismproxy.Prelude.{
  ℕ, ◌≤◌, ◌<◌, ◌≡◌, refl, ap, ◌∙◌, String, true, Option, List, [], ◌∷◌, arith, ok, >>=-eq-ok,
  ok_inj, ltb, Bool-cases, inl, inr, ◌⊎◌,
}
use prismproxy.Config.{Config, RouteConfig}
use prismproxy.Plugin.{Wasm, new_runtime}
use prismproxy.Tls.{Rustls}
use prismproxy.State.{
  Files, Flags, RouteState, AppState, new_flag, load_plugins, build_routes, load_tls, build_state,
}

-- The old flags are as they were, and the new ones are up.
pub record Grown (old new : Flags) : Type 0 where
  pub more : old.next ≤ new.next
  pub kept : (h : ℕ) → h < old.next → new.value h ≡ old.value h
  pub up : (h : ℕ) → old.next ≤ h → h < new.next → new.value h ≡ true

pub Grown-refl : (f : Flags) → Grown f f
Grown-refl f = record {
  more = omega arith;
  kept = λ h less. refl;
  up = λ h least less. ground arith;
}

below_or_from : (x n : ℕ) → (x < n) ⊎ (n ≤ x)
below_or_from x n = elim (Bool-cases (ltb x n)) [
  | inl b ↦ inl (ground arith)
  | inr b ↦ inr (ground arith)
]

pub Grown-trans : (f g h : Flags) → Grown f g → Grown g h → Grown f h
Grown-trans f g h a b = record {
  more = omega (arith, a.more, b.more);
  kept = λ x less. b.kept x (omega (arith, a.more)) ∙ a.kept x less;
  up = λ x least less. elim (below_or_from x g.next) [
    | inl old ↦ b.kept x old ∙ a.up x least old
    | inr new ↦ b.up x new less
  ];
}

Grown-new_flag : (f : Flags) → Grown f (new_flag true f).1
unfolding new_flag
Grown-new_flag f = record {
  more = omega arith;
  kept = λ h less. ground arith;
  up = λ h least less. ground arith;
}

module _ (wasm : Wasm) (rustls : Rustls) (file_stem : String → Option String) where
  build_routes-Grown :
      (routes : List RouteConfig) (flags : Flags) (x : List (RouteState wasm rustls) × Flags)
      → build_routes wasm rustls file_stem routes flags ≡ ok x
      → Grown flags x.1
  unfolding build_routes
  build_routes-Grown [] flags x e =
      subst (λ (y : List (RouteState wasm rustls) × Flags). Grown flags y.1) (ok_inj e)
        (Grown-refl flags)
  build_routes-Grown (route ∷ routes) flags x e =
      let (runtime, loaded, e') =
        >>=-eq-ok (load_plugins wasm rustls file_stem route.plugins (new_runtime wasm)) _ e in
      let made = (new_flag true flags).1 in
      let (rest, built, e'') = >>=-eq-ok (build_routes wasm rustls file_stem routes made) _ e' in
      subst (λ (y : List (RouteState wasm rustls) × Flags). Grown flags y.1) (ok_inj e'')
        (Grown-trans flags made rest.1 (Grown-new_flag flags)
          (build_routes-Grown routes made rest built))

  -- `build_state` leaves the health flags that there were as they were, also those of the state that
  -- the new one replaces, and whatever flags it makes are up.
  pub build_state-Grown :
      (files : Files) (config : Config) (flags made : Flags) (app : AppState wasm rustls)
      → build_state wasm rustls file_stem files config flags ≡ ok (app, made)
      → Grown flags made
  unfolding build_state
  build_state-Grown files config flags made app e =
      let (built, routed, e') =
        >>=-eq-ok (build_routes wasm rustls file_stem config.routes flags) _ e in
      let (tls, loaded, e'') = >>=-eq-ok (load_tls wasm rustls file_stem files config.tls) _ e' in
      subst (Grown flags) (ap (λ (y : AppState wasm rustls × Flags). y.1) (ok_inj e''))
        (build_routes-Grown config.routes flags built routed)
