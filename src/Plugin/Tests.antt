-- ===== src/Plugin/Tests.antt =====
-- plugin.rs over the toy modules: the chain of its unit tests, and its properties there.
use prismproxy.Prelude.{◌≡◌, refl, ◌↔◌, true, false, List, [], ◌∷◌, ok, err, as_bytes}
use prismproxy.Errors.{plugin}
use prismproxy.Plugin.{Plugin, PluginRuntime, run_plugin, run_on_request}
use prismproxy.Plugin.Toy.{toy, toy-WriteLaw, plugin_of, pass_all, method_check, no_memory}
use prismproxy.Plugin.Chain.{Verdict, run_on_request-Verdict}
use prismproxy.Plugin.Layout.{Answered, run_plugin-Answered}

abbrev pass : Plugin toy
pass = plugin_of "pass" pass_all

abbrev check : Plugin toy
check = plugin_of "method-check" method_check

abbrev runtime_of : List (Plugin toy) → PluginRuntime toy
runtime_of ps = record { plugins = ps }

abbrev chain : PluginRuntime toy
chain = runtime_of (pass ∷ check ∷ plugin_of "broken" no_memory ∷ [])

chain_tests :
    (run_on_request toy chain "GET" "/test" ≡ ok true)
    × (run_on_request toy chain "POST" "/test" ≡ err (plugin "'broken' missing 'memory' export"))
    × (run_on_request toy (runtime_of (pass ∷ pass ∷ [])) "GET" "/test" ≡ ok false)
unfolding run_on_request run_plugin as_bytes
chain_tests = (refl, refl, refl)

run_on_request-Verdict_example :
    (run_on_request toy chain "GET" "/test" ≡ ok true)
    ↔ Verdict toy "GET" "/test" chain.plugins (ok true)
run_on_request-Verdict_example = run_on_request-Verdict toy "GET" "/test" chain (ok true)

check_blocks : run_plugin toy "GET" "/test" check ≡ ok true
unfolding run_plugin as_bytes
check_blocks = refl

run_plugin-Answered_example : Answered toy "GET" "/test" check true
run_plugin-Answered_example =
    run_plugin-Answered toy toy-WriteLaw "GET" "/test" check true check_blocks
