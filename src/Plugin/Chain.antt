-- ===== src/Plugin/Chain.antt =====
-- The order of the plugins in plugin.rs's loop.
use mathlib.Core.List.{append-nil}
use mathlib.Core.Path.{subst}
use prismproxy.Prelude.{
  ◌≡◌, refl, ap, ◌∙◌, ◌≢◌, ◌↔◌, String, Bool, true, false, List, [], ◌∷◌, ◌++◌, Result, ok, err,
  All, ◌>>=◌, if◌then◌else◌,
}
use prismproxy.Errors.{ProxyError}
use prismproxy.Plugin.{Wasm, Plugin, PluginRuntime, run_plugin, run_all, run_on_request}

module _ (wasm : Wasm) (method path : String) where
  abbrev pub Passes : Plugin wasm → Type 0
  Passes p = run_plugin wasm method path p ≡ ok false

  -- The verdict of a chain, as a relation: every plugin passes, or the first that does not pass
  -- decides, whatever stands behind it.
  pub data Verdict : List (Plugin wasm) → Result Bool ProxyError → Type 0 where
    all_pass : {ps : List (Plugin wasm)} → All Passes ps → Verdict ps (ok false)
    decides :
        {ps : List (Plugin wasm)} (before : List (Plugin wasm)) (p : Plugin wasm)
        (behind : List (Plugin wasm)) (v : Result Bool ProxyError)
        → ps ≡ before ++ (p ∷ behind)
        → All Passes before
        → run_plugin wasm method path p ≡ v
        → v ≢ ok false
        → Verdict ps v

  run_all-pass :
      (before rest : List (Plugin wasm))
      → All Passes before
      → run_all wasm method path (before ++ rest) ≡ run_all wasm method path rest
  unfolding run_all
  run_all-pass [] rest h = refl
  run_all-pass (p ∷ before) rest h = rw (h.0) (run_all-pass before rest h.1)

  run_all-decided :
      (p : Plugin wasm) (behind : List (Plugin wasm)) (v : Result Bool ProxyError)
      → run_plugin wasm method path p ≡ v
      → v ≢ ok false
      → run_all wasm method path (p ∷ behind) ≡ v
  unfolding run_all
  run_all-decided p behind (ok true) e h = rw e
  run_all-decided p behind (ok false) e h = absurd (h refl)
  run_all-decided p behind (err x) e h = rw e

  Verdict-run_all :
      {ps : List (Plugin wasm)} {v : Result Bool ProxyError}
      → Verdict ps v
      → run_all wasm method path ps ≡ v
  unfolding run_all
  Verdict-run_all (all_pass {ps} h) =
      subst (λ qs. run_all wasm method path qs ≡ ok false) (append-nil ps) (run_all-pass ps [] h)
  Verdict-run_all (decides before p behind v e h runs decisive) =
      ap (run_all wasm method path) e
      ∙ run_all-pass before (p ∷ behind) h
      ∙ run_all-decided p behind v runs decisive

  Verdict-cons :
      (p : Plugin wasm) {ps : List (Plugin wasm)} {v : Result Bool ProxyError}
      → Passes p
      → Verdict ps v
      → Verdict (p ∷ ps) v
  Verdict-cons p pass (all_pass h) = all_pass (pass, h)
  Verdict-cons p pass (decides before q behind v e h runs decisive) =
      decides (p ∷ before) q behind v (ap (◌∷◌ p) e) (pass, h) runs decisive

  run_all-Verdict : (ps : List (Plugin wasm)) → Verdict ps (run_all wasm method path ps)
  unfolding run_all
  run_all-Verdict [] = all_pass tt
  run_all-Verdict (p ∷ ps) = go (run_plugin wasm method path p) refl (run_all-Verdict ps)
    where
      go :
          (r : Result Bool ProxyError)
          → run_plugin wasm method path p ≡ r
          → Verdict ps (run_all wasm method path ps)
          → Verdict
              (p ∷ ps)
              (r >>= λ blocks. if blocks then ok true else run_all wasm method path ps)
      go (ok true) e later = decides [] p ps (ok true) refl tt e (λ q. cc)
      go (ok false) e later = Verdict-cons p e later
      go (err x) e later = decides [] p ps (err x) refl tt e (λ q. cc)

  -- A request is let through exactly if every plugin of the route passes it; otherwise the first
  -- plugin that does not pass decides, by blocking or by its error, whatever stands behind it.
  pub run_on_request-Verdict :
      (runtime : PluginRuntime wasm) (v : Result Bool ProxyError)
      → (run_on_request wasm runtime method path ≡ v) ↔ Verdict runtime.plugins v
  unfolding run_on_request
  run_on_request-Verdict runtime v =
      (λ e. subst (Verdict runtime.plugins) e (run_all-Verdict runtime.plugins), Verdict-run_all)
