-- ===== src/System/Publishing.antt =====
-- What the two loops that publish a state do to it and to the health flags.
use mathlib.Core.Path.{subst}
use prismproxy.Prelude.{
  ℕ, ◌≤◌, ◌<◌, ◌≡◌, refl, sym, String, true, leb, Bool-cases, inl, inr, ◌⊎◌, Option, none, some,
  get_elem?, arith, ok, Result-cases, >>=-eq-ok,
}
use prismproxy.Config.{Config, validate}
use prismproxy.State.{Files, Flags, RouteState, build_state}
use prismproxy.State.Build.{build_state-own_flag, build_state-is_made}
use prismproxy.State.Grown.{Grown, Grown-refl, build_state-Grown}
use prismproxy.Server.{Disk, Server, try_reload, publish, if_newer, tick}
use prismproxy.Acme.Base.{Machine}
use prismproxy.Acme.Renewal.{renewal_tick}
use prismproxy.Acme.Replacing.{renewal_tick-Replaces}
use prismproxy.Startup.Base.{Outside}
use prismproxy.Startup.{App}

module _ (env : Outside) where
  open env use {wasm, rustls, file_stem, toml, ca, Addr, parse_addr, port}

  -- The flag of every route of the state is one of those at these handles.
  abbrev pub FlagsWithin : ℕ → ℕ → App env → Type 0
  FlagsWithin first end app =
      (i : ℕ) (rs : RouteState wasm rustls)
      → get_elem? app.routes i ≡ some rs
      → (first ≤ rs.healthy) × (rs.healthy < end)

  -- The published state and the flags are what they were, or the state was built with new flags.
  pub record Published (old new : App env × Flags) : Type 0 where
    pub grown : Grown old.1 new.1
    pub fresh : (new.0 ≡ old.0) ⊎ FlagsWithin old.1.next new.1.next new.0

  Published-same : (old : App env × Flags) → Published old old
  Published-same old = record { grown = Grown-refl old.1; fresh = inl refl }

  Published-built :
      (files : Files) (config : Config) (old new : App env × Flags)
      → build_state wasm rustls file_stem files config old.1 ≡ ok new
      → Published old new
  Published-built files config old new e = record {
    grown = build_state-Grown wasm rustls file_stem files config old.1 new.1 new.0 e;
    fresh = inr λ i rs at. (
      (let own =
            (build_state-own_flag wasm rustls file_stem files config old.1 new.1 new.0 i rs e
              at).0 in
          omega (arith, own)),
      build_state-is_made wasm rustls file_stem files config old.1 new.1 new.0 i rs e at,
    );
  }

  publish-Published :
      (disk : Disk) (mtime : ℕ) (s : Server wasm rustls file_stem parse_addr)
      → Published
          (s.app, s.flags)
          (let t =
              publish wasm rustls file_stem parse_addr mtime s
                (try_reload wasm rustls file_stem parse_addr disk s.flags) in
            (t.app, t.flags))
  unfolding try_reload
  publish-Published disk mtime s =
      elim (Result-cases (try_reload wasm rustls file_stem parse_addr disk s.flags)) [
        | inl (new, made) ↦
            let (config, read, e1) = >>=-eq-ok disk.from_file _ made in
            let (checked, valid, e2) = >>=-eq-ok (validate parse_addr config) _ e1 in
            rw made (Published-built disk.files config (s.app, s.flags) new e2)
        | inr (e, refused) ↦ rw refused (Published-same (s.app, s.flags))
      ]

  if_newer-Published :
      (disk : Disk) (s : Server wasm rustls file_stem parse_addr) (o : Option ℕ)
      → Published
          (s.app, s.flags)
          (let t = if_newer wasm rustls file_stem parse_addr disk s o in (t.app, t.flags))
  if_newer-Published disk s none = Published-same (s.app, s.flags)
  if_newer-Published disk s (some mtime) = elim (Bool-cases (leb mtime s.last_mtime)) [
    | inl older ↦ rw older (Published-same (s.app, s.flags))
    | inr newer ↦ rw newer (publish-Published disk mtime s)
  ]

  pub tick-Published :
      (disk : Disk) (s : Server wasm rustls file_stem parse_addr)
      → Published
          (s.app, s.flags)
          (let t = tick wasm rustls file_stem parse_addr disk s in (t.app, t.flags))
  unfolding tick
  tick-Published disk s = if_newer-Published disk s disk.modified

  pub renewal_tick-Published :
      (rounds : ℕ) (path : String) (m : Machine ca) (old : App env × Flags)
      → Published old (renewal_tick wasm rustls file_stem toml ca rounds true path m old).1
  renewal_tick-Published rounds path m old =
      elim (renewal_tick-Replaces wasm rustls file_stem toml ca m old rounds true path) [
        | inl same ↦ subst (Published old) (sym same) (Published-same old)
        | inr replaced ↦ Published-built _ replaced.config old _ replaced.built
      ]
