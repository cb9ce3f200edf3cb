-- ===== src/Config.antt =====
-- config.rs: the configuration, its defaults, `Config::from_file` and `Config::validate`. `toml`
-- stands for `toml::from_str` with the defaults, a configuration or the text of the error, and
-- `parse_addr` stands for `str::parse::<SocketAddr>`, an address or the text of the error.
pub mod Refusals
pub mod Validity
mod Tests
use prismproxy.Prelude.{
  ℕ, ◌+◌, String, Bool, true, false, not, ◌&&◌, ◌||◌, Option, none, some, List, [], ◌∷◌, format,
  show, any, str_eq, starts_with, if◌then◌else◌, Result, ok, err, map_err, ◌>>=◌, ◌>>◌,
}
use prismproxy.Errors.{ProxyError, config}

pub record ServerConfig : Type 0 where
  pub listen : String
  pub max_idle_connections : ℕ
  pub timeout_ms : ℕ
  pub http_challenge_listen : Option String

pub record RouteConfig : Type 0 where
  pub path_prefix : String
  pub upstream : String
  pub plugins : List String

pub record TlsConfig : Type 0 where
  pub acme_email : String
  pub acme_directory : String
  pub cache_dir : String
  pub domains : List String

pub record Config : Type 0 where
  pub server : ServerConfig
  pub routes : List RouteConfig
  pub tls : Option TlsConfig

abbrev pub default_max_idle : ℕ
default_max_idle = 10

abbrev pub default_timeout_ms : ℕ
default_timeout_ms = 30_000

abbrev pub default_acme_directory : String
default_acme_directory = "https://acme-v02.api.letsencrypt.org/directory"

abbrev pub is_some {ℓ} : {A : Type ℓ} → Option A → Bool
is_some none = false
is_some (some a) = true

-- The messages of the loop over the routes, for the route at index `i`.
abbrev pub duplicate_message : ℕ → RouteConfig → String
duplicate_message i route =
    format ("route[" ∷ show i ∷ "]: duplicate path_prefix '" ∷ route.path_prefix ∷ "'" ∷ [])

abbrev pub prefix_message : ℕ → RouteConfig → String
prefix_message i route =
    format (
      "route["
      ∷ show i
      ∷ "]: path_prefix must start with '/', got '"
      ∷ route.path_prefix
      ∷ "'"
      ∷ [])

abbrev pub upstream_message : ℕ → RouteConfig → String → String
upstream_message i route e =
    format ("route[" ∷ show i ∷ "]: invalid upstream address '" ∷ route.upstream ∷ "': " ∷ e ∷ [])

module _ {Addr : Type 0} (parse_addr : String → Result Addr String) where
  -- One round of the loop: the checks of one route, in order. `seen` holds the earlier prefixes.
  unfoldable pub check_route : ℕ → List String → RouteConfig → Result (Unit {0}) ProxyError
  check_route i seen route =
      if any (str_eq route.path_prefix) seen
      then err (config (duplicate_message i route))
      else if str_eq route.path_prefix "" || not (starts_with route.path_prefix "/")
      then err (config (prefix_message i route))
      else (do
        _ ← map_err (λ e. config (upstream_message i route e)) (parse_addr route.upstream)
        ok tt)

  unfoldable pub check_routes : ℕ → List String → List RouteConfig → Result (Unit {0}) ProxyError
  unfolding check_route
  check_routes i seen [] = ok tt
  check_routes i seen (route ∷ routes) = do
    check_route i seen route
    check_routes (i + 1) (route.path_prefix ∷ seen) routes

  -- `Config::validate`
  unfoldable pub validate : Config → Result (Unit {0}) ProxyError
  unfolding check_routes
  validate c = do
    _ ←
        map_err
          (λ e. config (format ("invalid listen address '" ∷ c.server.listen ∷ "': " ∷ e ∷ [])))
          (parse_addr c.server.listen)
    if is_some c.tls && not (is_some c.server.http_challenge_listen)
        then err (config "http_challenge_listen is required when [tls] is configured")
        else check_routes 0 [] c.routes

module _ (toml : String → Result Config String) where
  -- `Config::parse`
  unfoldable pub parse : String → Result Config ProxyError
  parse s = map_err (λ e. config (format ("parse: " ∷ e ∷ []))) (toml s)

  -- `Config::from_file`, with `std::fs::read_to_string` at that moment.
  unfoldable pub from_file : (String → Result String String) → String → Result Config ProxyError
  unfolding parse
  from_file read_to_string path = do
    content ← map_err (λ e. config (format ("read: " ∷ e ∷ []))) (read_to_string path)
    parse content
