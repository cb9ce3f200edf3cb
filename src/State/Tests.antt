-- ===== src/State/Tests.antt =====
-- A run of state.rs's `build_state` over the toy modules, and its properties there.
use prismproxy.Prelude.{◌≡◌, refl, map, ok}
use prismproxy.Config.{RouteConfig}
use prismproxy.Plugin.{load}
use prismproxy.Plugin.Toy.{toy}
use prismproxy.Tls.{build_tls_state}
use prismproxy.State.{RouteState, build_state, join}
use prismproxy.State.Toy.{rustls, files, file_stem, config, old_flags, built, made}
use prismproxy.State.Grown.{Grown, build_state-Grown}
use prismproxy.State.Build.{from_files, build_state-in_order}

build_run : build_state toy rustls file_stem files config old_flags ≡ ok (built, made)
unfolding build_state build_tls_state join load
build_run = refl

build_state-in_order_example :
    (map (λ (rs : RouteState toy rustls). rs.route) built.routes ≡ config.routes)
    × (map (λ (rs : RouteState toy rustls). map ok rs.runtime.plugins) built.routes
        ≡ map (λ (r : RouteConfig). from_files toy rustls file_stem r.plugins) config.routes)
    × (built.timeout_ms ≡ 500)
build_state-in_order_example =
    build_state-in_order toy rustls file_stem files config old_flags made built build_run

build_state-Grown_example : Grown old_flags made
build_state-Grown_example =
    build_state-Grown toy rustls file_stem files config old_flags made built build_run
