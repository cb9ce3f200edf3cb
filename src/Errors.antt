-- ===== src/Errors.antt =====
-- error.rs: `ProxyError` and its `Display`. An error of the standard library or of hyper is held by
-- its own `Display` text, which is all that the program reads of it.
use prismproxy.Prelude.{String, [], ◌∷◌, format}

pub data ProxyError : Type 0 where
  io hyper config no_route upstream_connect timeout plugin tls acme upstream_unhealthy :
      String → ProxyError

-- The `#[error("…")]` attributes.
unfoldable pub to_string : ProxyError → String
to_string (io e) = format ("io: " ∷ e ∷ [])
to_string (hyper e) = format ("http: " ∷ e ∷ [])
to_string (config e) = format ("config: " ∷ e ∷ [])
to_string (no_route e) = format ("no route for path: " ∷ e ∷ [])
to_string (upstream_connect e) = format ("upstream: " ∷ e ∷ [])
to_string (timeout e) = format ("timeout: " ∷ e ∷ [])
to_string (plugin e) = format ("plugin: " ∷ e ∷ [])
to_string (tls e) = format ("tls: " ∷ e ∷ [])
to_string (acme e) = format ("acme: " ∷ e ∷ [])
to_string (upstream_unhealthy e) = format ("upstream unhealthy: " ∷ e ∷ [])
