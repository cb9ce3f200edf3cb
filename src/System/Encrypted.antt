-- ===== src/System/Encrypted.antt =====
-- That the running proxy serves over TLS alone.
use mathlib.Core.Path.{subst}
use mathlib.Core.Option.{some_inj}
use prismproxy.Prelude.{
  ℕ, ◌≡◌, refl, sym, ap, String, true, leb, Bool-cases, inl, inr, Option, none, some, List, [], ◌∷◌,
  All, Result, ok, err, Result-cases,
}
use prismproxy.Http.{Http, Net}
use prismproxy.State.{Flags}
use prismproxy.Server.{Disk, Server, try_reload, publish, if_newer, tick}
use prismproxy.Acme.Base.{Machine}
use prismproxy.Acme.Renewal.{renewal_tick}
use prismproxy.Acme.Replacing.{renewal_tick-Replaces}
use prismproxy.Startup.Base.{Outside}
use prismproxy.Startup.{Started, App, Serving}
use prismproxy.Startup.Secured.{HasTls}
use prismproxy.System.Base.{Connection}
use prismproxy.System.Lists.{All-remove_at, All-get_elem?}
use prismproxy.System.{
  Inflight, System, Event, Step, Run, boot, served, with_connection, reload, renew, watch, accept,
  begin, finish, here, next, reloads, renews, pings, accepts, begins, finishes,
}

module _ (env : Outside) where
  open env use {wasm, rustls, file_stem, toml, ca, Addr, parse_addr, port}

  -- Whatever state is built from the disk has an acceptor.
  abbrev pub IsSecure : Disk → Type 0
  IsSecure disk =
      (flags : Flags) (new : App env × Flags)
      → try_reload wasm rustls file_stem parse_addr disk flags ≡ ok new
      → HasTls env new.0

  publish-HasTls :
      (disk : Disk) (mtime : ℕ) (s : Server wasm rustls file_stem parse_addr)
      → IsSecure disk
      → HasTls env s.app
      → HasTls env
          (publish wasm rustls file_stem parse_addr mtime s
            (try_reload wasm rustls file_stem parse_addr disk s.flags)).app
  publish-HasTls disk mtime s secure h =
      elim (Result-cases (try_reload wasm rustls file_stem parse_addr disk s.flags)) [
        | inl (new, made) ↦ rw made (secure s.flags new made)
        | inr (e, refused) ↦ rw refused h
      ]

  if_newer-HasTls :
      (disk : Disk) (s : Server wasm rustls file_stem parse_addr) (o : Option ℕ)
      → IsSecure disk
      → HasTls env s.app
      → HasTls env (if_newer wasm rustls file_stem parse_addr disk s o).app
  if_newer-HasTls disk s none secure h = h
  if_newer-HasTls disk s (some mtime) secure h = elim (Bool-cases (leb mtime s.last_mtime)) [
    | inl older ↦ rw older h
    | inr newer ↦ rw newer (publish-HasTls disk mtime s secure h)
  ]

  tick-HasTls :
      (disk : Disk) (s : Server wasm rustls file_stem parse_addr)
      → IsSecure disk
      → HasTls env s.app
      → HasTls env (tick wasm rustls file_stem parse_addr disk s).app
  unfolding tick
  tick-HasTls disk s secure h = if_newer-HasTls disk s disk.modified secure h

  renewal_tick-HasTls :
      (rounds : ℕ) (path : String) (m : Machine ca) (old : App env × Flags)
      → HasTls env old.0
      → HasTls env (renewal_tick wasm rustls file_stem toml ca rounds true path m old).1.0
  renewal_tick-HasTls rounds path m old h =
      elim (renewal_tick-Replaces wasm rustls file_stem toml ca m old rounds true path) [
        | inl same ↦ subst (λ (p : App env × Flags). HasTls env p.0) (sym same) h
        | inr replaced ↦ let (t, at, _) = replaced.serves in (t, at)
      ]

module _ (env : Outside) {http : Http} (net : Net http) where
  -- No reload among the events finds files of which a state without TLS is built.
  abbrev pub AllSecure : List (Event env net) → Type 0
  AllSecure [] = Unit
  AllSecure (reloads disk ∷ es) = IsSecure env disk × AllSecure es
  AllSecure (renews rounds path m ∷ es) = AllSecure es
  AllSecure (pings i outcome ∷ es) = AllSecure es
  AllSecure (accepts client_ip handshake ∷ es) = AllSecure es
  AllSecure (begins req ∷ es) = AllSecure es
  AllSecure (finishes f before after response ∷ es) = AllSecure es

  abbrev IsTls : Connection → Type 0
  IsTls c = c.is_tls ≡ true

  abbrev IsOverTls : Inflight env net → Type 0
  IsOverTls f = IsTls f.connection

  -- The published state has an acceptor, and all connections and requests are over TLS.
  pub record IsEncrypted (t : System env net) : Type 0 where
    pub has_tls : HasTls env t.app
    pub connections : All IsTls t.connections
    pub requests : All IsOverTls t.inflight

  with_connection-IsEncrypted :
      (t : System env net) (o : Option Connection)
      → IsEncrypted t
      → ((c : Connection) → o ≡ some c → IsTls c)
      → IsEncrypted (with_connection env net o t)
  with_connection-IsEncrypted t none h of = h
  with_connection-IsEncrypted t (some c) h of = record {
    has_tls = h.has_tls;
    connections = (of c refl, h.connections);
    requests = h.requests;
  }

  served-IsTls :
      (tls : Serving env) (client_ip : String) (handshake : Result (Unit {0}) String)
      (c : Connection)
      → ((x : _) × (tls ≡ some x))
      → served env net tls client_ip handshake ≡ some c
      → IsTls c
  served-IsTls none client_ip handshake c (x, e) at = cc
  served-IsTls (some t) client_ip (ok u) c has at =
      ap (λ (x : Connection). x.is_tls) (sym (some_inj.0 at))
  served-IsTls (some t) client_ip (err e) c has at = cc

  Step-IsEncrypted :
      (t : System env net) (e : Event env net) (u : System env net)
      → IsEncrypted t
      → AllSecure (e ∷ [])
      → Step env net t e u
      → IsEncrypted u
  Step-IsEncrypted t e u h secure (reload disk mtime is) = record {
    has_tls =
        tick-HasTls env disk (record { app = t.app; flags = t.flags; last_mtime = mtime }) secure.0
          h.has_tls;
    connections = h.connections;
    requests = h.requests;
  }
  Step-IsEncrypted t e u h secure (renew rounds path m is) = record {
    has_tls = renewal_tick-HasTls env rounds path m (t.app, t.flags) h.has_tls;
    connections = h.connections;
    requests = h.requests;
  }
  Step-IsEncrypted t e u h secure (watch i w outcome at) = record {
    has_tls = h.has_tls;
    connections = h.connections;
    requests = h.requests;
  }
  Step-IsEncrypted t e u h secure (accept client_ip handshake seen) =
      with_connection-IsEncrypted t (served env net t.app.tls client_ip handshake) h
        λ c at. served-IsTls t.app.tls client_ip handshake c h.has_tls at
  Step-IsEncrypted t e u h secure (begin i c req at) = record {
    has_tls = h.has_tls;
    connections = h.connections;
    requests = (All-get_elem? IsTls i c t.connections h.connections at, h.requests);
  }
  Step-IsEncrypted t e u h secure (finish i f world at) = record {
    has_tls = h.has_tls;
    connections = h.connections;
    requests = All-remove_at IsOverTls i t.inflight h.requests;
  }

  AllSecure-split :
      (e : Event env net) (es : List (Event env net))
      → AllSecure (e ∷ es)
      → AllSecure (e ∷ []) × AllSecure es
  AllSecure-split (reloads disk) es h = ((h.0, tt), h.1)
  AllSecure-split (renews rounds path m) es h = (tt, h)
  AllSecure-split (pings i outcome) es h = (tt, h)
  AllSecure-split (accepts client_ip handshake) es h = (tt, h)
  AllSecure-split (begins req) es h = (tt, h)
  AllSecure-split (finishes f before after response) es h = (tt, h)

  -- In every state that the proxy reaches from a start whose published state has a TLS acceptor, if
  -- no reload on the way finds files of which a state without one is built, the published state has
  -- an acceptor, and every connection that is served and every request that is being answered came
  -- over TLS.
  pub Run-IsEncrypted :
      (s : Started env) (es : List (Event env net)) (t : System env net)
      → HasTls env s.app
      → AllSecure es
      → Run env net (boot env net s) es t
      → IsEncrypted t
  Run-IsEncrypted s es t h secure here = record { has_tls = h; connections = tt; requests = tt }
  Run-IsEncrypted s es t h secure (next e run step) =
      let (now, before) = AllSecure-split e _ secure in
      Step-IsEncrypted _ e t (Run-IsEncrypted s _ _ h before run) now step
