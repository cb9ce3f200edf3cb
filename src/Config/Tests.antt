-- ===== src/Config/Tests.antt =====
-- Runs of config.rs's `validate`, with an address parser that knows a few addresses, and its
-- properties at concrete configurations.
use prismproxy.Prelude.{
  ℕ, String, ◌≡◌, refl, ◌↔◌, none, List, [], ◌∷◌, str_eq, show, if◌then◌else◌, Result, ok, err,
}
use prismproxy.Errors.{config}
use prismproxy.Config.{
  Config, ServerConfig, RouteConfig, duplicate_message, validate, default_max_idle,
  default_timeout_ms,
}
use prismproxy.Config.Validity.{IsValid, IsServable, validate_iff}
use prismproxy.Config.Refusals.{repeated, validate-Fault}

abbrev known_addr : String → Result ℕ String
known_addr s =
    if str_eq s "127.0.0.1:8080"
    then ok 8080
    else if str_eq s "127.0.0.1:3000"
    then ok 3000
    else err "invalid socket address syntax"

abbrev server : ServerConfig
server = record {
  listen = "127.0.0.1:8080";
  max_idle_connections = default_max_idle;
  timeout_ms = default_timeout_ms;
  http_challenge_listen = none;
}

abbrev route_at : String → RouteConfig
route_at p = record { path_prefix = p; upstream = "127.0.0.1:3000"; plugins = [] }

abbrev config_of : List RouteConfig → Config
config_of routes = record { server = server; routes = routes; tls = none }

abbrev good_config : Config
good_config = config_of (route_at "/api" ∷ route_at "/" ∷ [])

validate_tests :
    (validate known_addr good_config ≡ ok tt)
    × (validate known_addr (config_of (route_at "api" ∷ []))
        ≡ err (config "route[0]: path_prefix must start with '/', got 'api'"))
    × (validate known_addr
          (config_of (route_at "/" ∷ record (route_at "/x") { upstream = "x" } ∷ []))
        ≡ err (config "route[1]: invalid upstream address 'x': invalid socket address syntax"))
unfolding validate show
validate_tests = (refl, refl, refl)

validate_iff_example : (validate known_addr good_config ≡ ok tt) ↔ IsValid known_addr good_config
validate_iff_example = validate_iff known_addr good_config

abbrev twice_config : Config
twice_config = config_of (route_at "/api" ∷ route_at "/api" ∷ [])

api-IsServable : IsServable known_addr (route_at "/api")
api-IsServable = record { rooted = refl; address = (3000, refl) }

validate-Fault_example :
    validate known_addr twice_config ≡ err (config (duplicate_message 1 (route_at "/api")))
validate-Fault_example =
    validate-Fault known_addr twice_config (route_at "/api" ∷ []) [] (route_at "/api")
      ((8080, refl), λ tls. absurd (tls refl)) refl (api-IsServable, tt) (tt, tt)
      (repeated λ fresh. fresh.0 refl)
