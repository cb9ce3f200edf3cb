-- ===== src/Plugin/Faults.antt =====
-- The errors of plugin.rs's chain are all `ProxyError::Plugin`.
use prismproxy.Prelude.{
  String, Bool, true, false, List, [], ◌∷◌, Result, ok, err, map_err, ◌>>=◌, if◌then◌else◌,
  as_bytes, length, ltb,
}
use prismproxy.Errors.{ProxyError, plugin}
use prismproxy.Plugin.{
  Wasm, Plugin, PluginRuntime, run_plugin, run_all, run_on_request, require_memory, max_method,
}

-- An error is one of a plugin.
pub data IsPluginError : ProxyError → Type 0 where
  of_plugin : (message : String) → IsPluginError (plugin message)

abbrev pub FailsInPlugin {ℓ} : {A : Type ℓ} → Result A ProxyError → Type 0
FailsInPlugin (ok a) = Unit
FailsInPlugin (err e) = IsPluginError e

FailsInPlugin-bind :
    {A B : Type 0} (r : Result A ProxyError) (k : A → Result B ProxyError)
    → FailsInPlugin r
    → ((a : A) → FailsInPlugin (k a))
    → FailsInPlugin (r >>= k)
FailsInPlugin-bind (ok a) k h hk = hk a
FailsInPlugin-bind (err e) k h hk = h

FailsInPlugin-map_err :
    {A B : Type 0} (f : String → ProxyError) (r : Result A String) (k : A → Result B ProxyError)
    → ((e : String) → IsPluginError (f e))
    → ((a : A) → FailsInPlugin (k a))
    → FailsInPlugin (map_err f r >>= k)
FailsInPlugin-map_err f (ok a) k h hk = hk a
FailsInPlugin-map_err f (err e) k h hk = h e

FailsInPlugin-if :
    {A : Type 0} (b : Bool) (x y : Result A ProxyError)
    → FailsInPlugin x
    → FailsInPlugin y
    → FailsInPlugin (if b then x else y)
FailsInPlugin-if true x y hx hy = hx
FailsInPlugin-if false x y hx hy = hy

module _ (wasm : Wasm) (method path : String) where
  run_plugin-FailsInPlugin : (p : Plugin wasm) → FailsInPlugin (run_plugin wasm method path p)
  unfolding run_plugin
  run_plugin-FailsInPlugin p =
      FailsInPlugin-if (ltb max_method (length (as_bytes method))) _ _ (of_plugin _) (
        FailsInPlugin-map_err _ (wasm.instantiate p.module_code) _ (λ e. of_plugin _)
          λ made.
            FailsInPlugin-bind (require_memory wasm p made) _
              (FailsInPlugin-if (wasm.has_memory made) _ _ tt (of_plugin _))
              λ _.
                FailsInPlugin-map_err _ (wasm.write made 0 (as_bytes method)) _ (λ e. of_plugin _)
                  λ one.
                    FailsInPlugin-map_err _ (wasm.write one 256 (as_bytes path)) _
                      (λ e. of_plugin _)
                      λ two.
                        FailsInPlugin-map_err _ (wasm.get_on_request two) _ (λ e. of_plugin _)
                          λ function.
                            FailsInPlugin-map_err _ (wasm.call function two 0 _ 256 _) _
                              (λ e. of_plugin _) λ result. tt)

  run_all-FailsInPlugin : (ps : List (Plugin wasm)) → FailsInPlugin (run_all wasm method path ps)
  unfolding run_all
  run_all-FailsInPlugin [] = tt
  run_all-FailsInPlugin (p ∷ ps) =
      let later = run_all-FailsInPlugin ps in
      FailsInPlugin-bind (run_plugin wasm method path p) _ (run_plugin-FailsInPlugin p)
        λ blocks. FailsInPlugin-if blocks _ _ tt later

  pub run_on_request-FailsInPlugin :
      (runtime : PluginRuntime wasm) → FailsInPlugin (run_on_request wasm runtime method path)
  unfolding run_on_request
  run_on_request-FailsInPlugin runtime = run_all-FailsInPlugin runtime.plugins
