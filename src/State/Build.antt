-- ===== src/State/Build.antt =====
-- What state.rs's `build_state` builds, if it succeeds.
use mathlib.Core.Path.{subst}
use mathlib.Core.List.{append-nil, append_assoc}
use mathlib.Core.Option.{some_inj}
use prismproxy.Prelude.{
  ◌≤◌, ℕ, zero, suc, ◌+◌, ◌<◌, ◌≡◌, refl, sym, ap, ◌∙◌, String, true, Option, some, List, [], ◌∷◌,
  ◌++◌, map, arith, get_elem?, Result, ok, >>=-eq-ok, ok_inj,
}
use prismproxy.Errors.{ProxyError}
use prismproxy.Config.{Config, RouteConfig}
use prismproxy.Plugin.{Wasm, Plugin, PluginRuntime, new_runtime, from_file, load}
use prismproxy.Tls.{Rustls}
use prismproxy.State.{
  Files, Flags, RouteState, AppState, load_plugins, build_routes, load_tls, build_state, new_flag,
}

map-append {ℓ κ} :
    {A : Type ℓ} {B : Type κ} (f : A → B) (xs ys : List A) → map f (xs ++ ys) ≡ map f xs ++ map f ys
map-append f [] ys = refl
map-append f (x ∷ xs) ys = ap (◌∷◌ (f x)) (map-append f xs ys)

module _ (wasm : Wasm) (rustls : Rustls) (file_stem : String → Option String) where
  -- The outcomes of loading some plugin files, in order.
  abbrev pub from_files : List String → List (Result (Plugin wasm) ProxyError)
  from_files = map (from_file wasm file_stem)

  load-plugins :
      (path : String) (runtime loaded : PluginRuntime wasm)
      → load wasm file_stem path runtime ≡ ok loaded
      → map ok loaded.plugins ≡ map ok runtime.plugins ++ (from_file wasm file_stem path ∷ [])
  unfolding load
  load-plugins path runtime loaded e =
      let (p, made, e') = >>=-eq-ok _ _ e in
      ap (λ (x : PluginRuntime wasm). map ok x.plugins) (sym (ok_inj e'))
      ∙ map-append ok runtime.plugins (p ∷ [])
      ∙ ap (λ x. map ok runtime.plugins ++ (x ∷ [])) (sym made)

  load_plugins-plugins :
      (paths : List String) (runtime loaded : PluginRuntime wasm)
      → load_plugins wasm rustls file_stem paths runtime ≡ ok loaded
      → map ok loaded.plugins ≡ map ok runtime.plugins ++ from_files paths
  unfolding load_plugins
  load_plugins-plugins [] runtime loaded e =
      ap (λ (x : PluginRuntime wasm). map ok x.plugins) (sym (ok_inj e)) ∙ sym (append-nil _)
  load_plugins-plugins (path ∷ paths) runtime loaded e =
      let (r, made, e') = >>=-eq-ok _ _ e in
      load_plugins-plugins paths r loaded e'
      ∙ ap (λ x. x ++ from_files paths) (load-plugins path runtime r made)
      ∙ append_assoc (map ok runtime.plugins) _ _

  -- What the loop over the routes makes: a state for each route in order, with its plugins in
  -- order, and with a flag of its own, which is up.
  record Routed (routes : List RouteConfig) (flags : Flags)
      (x : List (RouteState wasm rustls) × Flags) : Type 0 where
    in_order : map (λ (rs : RouteState wasm rustls). rs.route) x.0 ≡ routes
    plugins_loaded :
        map (λ (rs : RouteState wasm rustls). map ok rs.runtime.plugins) x.0
        ≡ map (λ (r : RouteConfig). from_files r.plugins) routes
    others : (h : ℕ) → h < flags.next → x.1.value h ≡ flags.value h
    own_flag :
        (i : ℕ) (rs : RouteState wasm rustls)
        → get_elem? x.0 i ≡ some rs
        → (rs.healthy ≡ flags.next + i) × (x.1.value rs.healthy ≡ true)
    grows : flags.next ≤ x.1.next
    is_made :
        (i : ℕ) (rs : RouteState wasm rustls) → get_elem? x.0 i ≡ some rs → rs.healthy < x.1.next

  -- A route with the flag of a handle, which is up.
  abbrev Flagged : RouteState wasm rustls → ℕ → Flags → Type 0
  Flagged rs h flags = (rs.healthy ≡ h) × (flags.value rs.healthy ≡ true)

  own_flag-cons :
      (rs : RouteState wasm rustls) (built : List (RouteState wasm rustls)) (n : ℕ) (made : Flags)
      → Flagged rs n made
      → ((j : ℕ) (q : RouteState wasm rustls)
          → get_elem? built j ≡ some q
          → Flagged q (suc n + j) made)
      → (i : ℕ) (q : RouteState wasm rustls) → get_elem? (rs ∷ built) i ≡ some q
      → Flagged q (n + i) made
  own_flag-cons rs built n made first others zero q found =
      subst (λ x. Flagged x (n + 0) made) (some_inj.0 found) (first.0 ∙ omega arith, first.1)
  own_flag-cons rs built n made first others (suc j) q found =
      let (is, up) = others j q found in (is ∙ omega arith, up)

  is_made-cons :
      (rs : RouteState wasm rustls) (built : List (RouteState wasm rustls)) (made : Flags)
      → rs.healthy < made.next
      → ((j : ℕ) (q : RouteState wasm rustls) → get_elem? built j ≡ some q → q.healthy < made.next)
      → (i : ℕ) (q : RouteState wasm rustls) → get_elem? (rs ∷ built) i ≡ some q
      → q.healthy < made.next
  is_made-cons rs built made first others zero q found =
      subst (λ (x : RouteState wasm rustls). x.healthy < made.next) (some_inj.0 found) first
  is_made-cons rs built made first others (suc j) q found = others j q found

  Routed-cons :
      (route : RouteConfig) (routes : List RouteConfig) (flags : Flags)
      (runtime : PluginRuntime wasm) (rest : List (RouteState wasm rustls) × Flags)
      → load_plugins wasm rustls file_stem route.plugins (new_runtime wasm) ≡ ok runtime
      → Routed routes (new_flag true flags).1 rest
      → Routed
          (route ∷ routes)
          flags
          (record { route = route; runtime = runtime; healthy = flags.next } ∷ rest.0, rest.1)
  unfolding new_flag
  Routed-cons route routes flags runtime rest e r = record {
    in_order = ap (◌∷◌ route) r.in_order;
    plugins_loaded =
        rw (load_plugins-plugins route.plugins (new_runtime wasm) runtime e, r.plugins_loaded) refl;
    others = λ h less. r.others h (omega (arith, less)) ∙ ground (arith, less);
    own_flag =
        own_flag-cons _ rest.0 flags.next rest.1
          (refl, r.others flags.next (omega arith) ∙ ground arith) r.own_flag;
    grows = omega (arith, r.grows);
    is_made = is_made-cons _ rest.0 rest.1 (omega (arith, r.grows)) r.is_made;
  }

  build_routes-Routed :
      (routes : List RouteConfig) (flags : Flags) (x : List (RouteState wasm rustls) × Flags)
      → build_routes wasm rustls file_stem routes flags ≡ ok x
      → Routed routes flags x
  unfolding build_routes new_flag
  build_routes-Routed [] flags x e = subst (Routed [] flags) (ok_inj e) (record {
    in_order = refl;
    plugins_loaded = refl;
    others = λ h less. refl;
    own_flag = λ i rs found. cc;
    grows = omega arith;
    is_made = λ i rs found. cc;
  })
  build_routes-Routed (route ∷ routes) flags x e =
      let (runtime, loaded, e') = >>=-eq-ok _ _ e in
      let (rest, built, e'') = >>=-eq-ok _ _ e' in
      subst (Routed (route ∷ routes) flags) (ok_inj e'') (
        Routed-cons route routes flags runtime rest loaded
          (build_routes-Routed routes _ rest built))

  module _ (files : Files) where
    build_state-Routed :
        (config : Config) (flags : Flags) (x : AppState wasm rustls × Flags)
        → build_state wasm rustls file_stem files config flags ≡ ok x
        → Routed config.routes flags (x.0.routes, x.1) × (x.0.timeout_ms ≡ config.server.timeout_ms)
    unfolding build_state
    build_state-Routed config flags x e =
        let (built, made, e') = >>=-eq-ok _ _ e in
        let (tls, loaded, e'') =
          >>=-eq-ok (load_tls wasm rustls file_stem files config.tls)
            (λ t. ok (
              record { timeout_ms = config.server.timeout_ms; routes = built.0; tls = t },
              built.1,
            ))
            e' in
        subst
          (λ (y : AppState wasm rustls × Flags).
            Routed config.routes flags (y.0.routes, y.1)
            × (y.0.timeout_ms ≡ config.server.timeout_ms))
          (ok_inj e'') (build_routes-Routed config.routes flags built made, refl)

    -- If `build_state` succeeds, the routes are those of the configuration in its order, each with
    -- exactly its plugin files loaded, in their order, and the timeout is the configured one.
    pub build_state-in_order :
        (config : Config) (flags made : Flags) (app : AppState wasm rustls)
        → build_state wasm rustls file_stem files config flags ≡ ok (app, made)
        → (map (λ (rs : RouteState wasm rustls). rs.route) app.routes ≡ config.routes)
          × (map (λ (rs : RouteState wasm rustls). map ok rs.runtime.plugins) app.routes
              ≡ map (λ (r : RouteConfig). from_files r.plugins) config.routes)
          × (app.timeout_ms ≡ config.server.timeout_ms)
    build_state-in_order config flags made app e =
        let (routed, budget) = build_state-Routed config flags (app, made) e in
        (routed.in_order, routed.plugins_loaded, budget)

    -- If `build_state` succeeds, route i has the i-th new health flag, so that no two routes share
    -- one, and the flag is up.
    pub build_state-own_flag :
        (config : Config) (flags made : Flags) (app : AppState wasm rustls) (i : ℕ)
        (rs : RouteState wasm rustls)
        → build_state wasm rustls file_stem files config flags ≡ ok (app, made)
        → get_elem? app.routes i ≡ some rs
        → (rs.healthy ≡ flags.next + i) × (made.value rs.healthy ≡ true)
    build_state-own_flag config flags made app i rs e found =
        (build_state-Routed config flags (app, made) e).0.own_flag i rs found

    -- `build_state` leaves the health flags that were there before as they were: those of the state
    -- that a reload replaces are not touched.
    pub build_state-old_flags :
        (config : Config) (flags made : Flags) (app : AppState wasm rustls) (h : ℕ)
        → build_state wasm rustls file_stem files config flags ≡ ok (app, made)
        → h < flags.next
        → made.value h ≡ flags.value h
    build_state-old_flags config flags made app h e old =
        (build_state-Routed config flags (app, made) e).0.others h old

    -- The flags of the routes are made, so that no later state gets them again.
    pub build_state-is_made :
        (config : Config) (flags made : Flags) (app : AppState wasm rustls) (i : ℕ)
        (rs : RouteState wasm rustls)
        → build_state wasm rustls file_stem files config flags ≡ ok (app, made)
        → get_elem? app.routes i ≡ some rs
        → rs.healthy < made.next
    build_state-is_made config flags made app i rs e found =
        (build_state-Routed config flags (app, made) e).0.is_made i rs found
