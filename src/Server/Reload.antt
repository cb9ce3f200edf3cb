-- ===== src/Server/Reload.antt =====
-- What server.rs's reload loop publishes.
use prismproxy.Prelude.{
  ℕ, ◌<◌, ◌≡◌, refl, ap, ◌∙◌, String, Option, none, some, List, [], ◌∷◌, ◌++◌, map, arith, leb, All,
  Result, ok, err, >>=-eq-ok, Bool-cases, inl, inr,
}
use prismproxy.Errors.{ProxyError}
use prismproxy.Config.{Config, validate}
use prismproxy.Config.Validity.{IsValid, validate_iff}
use prismproxy.Plugin.{Wasm}
use prismproxy.Tls.{Rustls}
use prismproxy.State.{Flags, RouteState, AppState}
use prismproxy.State.Build.{build_state-in_order}
use prismproxy.Server.{Disk, Server, try_reload, publish, if_newer, reload_loop}

module _ (wasm : Wasm) (rustls : Rustls) (file_stem : String → Option String) {Addr : Type 0}
    (parse_addr : String → Result Addr String) where
  -- A state that was built from a configuration that `validate` accepts.
  pub record IsSound (app : AppState wasm rustls) : Type 0 where
    pub config : Config
    pub valid : IsValid parse_addr config
    pub in_order : map (λ (rs : RouteState wasm rustls). rs.route) app.routes ≡ config.routes
    pub budget : app.timeout_ms ≡ config.server.timeout_ms

  try_reload-IsSound :
      (disk : Disk) (flags : Flags) (built : AppState wasm rustls × Flags)
      → try_reload wasm rustls file_stem parse_addr disk flags ≡ ok built
      → IsSound built.0
  unfolding try_reload
  try_reload-IsSound disk flags built e =
      let (config, _, e1) = >>=-eq-ok disk.from_file _ e in
      let (checked, accepted, e2) = >>=-eq-ok (validate parse_addr config) _ e1 in
      let (order, _, budget) =
        build_state-in_order wasm rustls file_stem disk.files config flags built.1 built.0 e2 in
      record {
        config = config;
        valid = (validate_iff parse_addr config).0 accepted;
        in_order = order;
        budget = budget;
      }

  publish-IsSound :
      (mtime : ℕ) (s : Server wasm rustls file_stem parse_addr) (disk : Disk)
      (r : Result (AppState wasm rustls × Flags) ProxyError)
      → try_reload wasm rustls file_stem parse_addr disk s.flags ≡ r
      → IsSound s.app
      → IsSound (publish wasm rustls file_stem parse_addr mtime s r).app
  publish-IsSound mtime s disk (ok built) e h = try_reload-IsSound disk s.flags built e
  publish-IsSound mtime s disk (err x) e h = h

  if_newer-IsSound :
      (disk : Disk) (s : Server wasm rustls file_stem parse_addr) (o : Option ℕ)
      → IsSound s.app
      → IsSound (if_newer wasm rustls file_stem parse_addr disk s o).app
  if_newer-IsSound disk s none h = h
  if_newer-IsSound disk s (some mtime) h = elim (Bool-cases (leb mtime s.last_mtime)) [
    | inl older ↦ rw older h
    | inr newer ↦ rw newer (publish-IsSound mtime s disk _ refl h)
  ]

  -- If the published state was built from a configuration that `validate` accepts, with its routes
  -- in order and its timeout, then so is the one that is published after any number of ticks,
  -- whatever the file holds at each of them.
  pub reload_loop-IsSound :
      (s : Server wasm rustls file_stem parse_addr) (disks : List Disk)
      → IsSound s.app
      → IsSound (reload_loop wasm rustls file_stem parse_addr s disks).app
  unfolding reload_loop
  reload_loop-IsSound s [] h = h
  reload_loop-IsSound s (disk ∷ disks) h =
      reload_loop-IsSound (if_newer wasm rustls file_stem parse_addr disk s disk.modified) disks
        (if_newer-IsSound disk s disk.modified h)

  -- A tick leaves the server alone or moves the time of the last reload on.
  data Moved (s : Server wasm rustls file_stem parse_addr)
      : Server wasm rustls file_stem parse_addr → Type 0 where
    still : Moved s s
    later : {t : Server wasm rustls file_stem parse_addr} → s.last_mtime < t.last_mtime → Moved s t

  Moved-trans :
      {s t u : Server wasm rustls file_stem parse_addr} → Moved s t → Moved t u → Moved s u
  Moved-trans still h = h
  Moved-trans (later a) still = later a
  Moved-trans (later a) (later b) = later (omega (arith, a, b))

  publish-Moved :
      (mtime : ℕ) (s : Server wasm rustls file_stem parse_addr)
      (r : Result (AppState wasm rustls × Flags) ProxyError)
      → s.last_mtime < mtime
      → Moved s (publish wasm rustls file_stem parse_addr mtime s r)
  publish-Moved mtime s (ok built) h = later h
  publish-Moved mtime s (err e) h = still

  if_newer-Moved :
      (disk : Disk) (s : Server wasm rustls file_stem parse_addr) (o : Option ℕ)
      → Moved s (if_newer wasm rustls file_stem parse_addr disk s o)
  if_newer-Moved disk s none = still
  if_newer-Moved disk s (some mtime) = elim (Bool-cases (leb mtime s.last_mtime)) [
    | inl older ↦ rw older still
    | inr newer ↦ rw newer (
        publish-Moved mtime s (try_reload wasm rustls file_stem parse_addr disk s.flags)
          (ground arith))
  ]

  reload_loop-Moved :
      (s : Server wasm rustls file_stem parse_addr) (disks : List Disk)
      → Moved s (reload_loop wasm rustls file_stem parse_addr s disks)
  unfolding reload_loop
  reload_loop-Moved s [] = still
  reload_loop-Moved s (disk ∷ disks) =
      Moved-trans (if_newer-Moved disk s disk.modified)
        (reload_loop-Moved (if_newer wasm rustls file_stem parse_addr disk s disk.modified) disks)

  still_if_same :
      {s t : Server wasm rustls file_stem parse_addr}
      → Moved s t
      → t.last_mtime ≡ s.last_mtime
      → t ≡ s
  still_if_same still e = refl
  still_if_same (later a) e = absurd (omega (arith, a, e))

  -- Over any number of ticks, the published state and the health flags are replaced only if the
  -- time of the last reload has changed.
  pub reload_loop-unchanged :
      (s : Server wasm rustls file_stem parse_addr) (disks : List Disk)
      → (reload_loop wasm rustls file_stem parse_addr s disks).last_mtime ≡ s.last_mtime
      → reload_loop wasm rustls file_stem parse_addr s disks ≡ s
  reload_loop-unchanged s disks e = still_if_same (reload_loop-Moved s disks) e

  -- The configuration on the disk is refused, by the parser, by `validate` or by `build_state`.
  abbrev pub IsRefused : Flags → Disk → Type 0
  IsRefused flags disk =
      (e : ProxyError) × (try_reload wasm rustls file_stem parse_addr disk flags ≡ err e)

  if_newer-IsRefused :
      (disk : Disk) (s : Server wasm rustls file_stem parse_addr) (o : Option ℕ)
      → IsRefused s.flags disk
      → if_newer wasm rustls file_stem parse_addr disk s o ≡ s
  if_newer-IsRefused disk s none h = refl
  if_newer-IsRefused disk s (some mtime) h = elim (Bool-cases (leb mtime s.last_mtime)) [
    | inl older ↦ rw older refl
    | inr newer ↦ rw (newer, h.1) refl
  ]

  -- However many ticks find a configuration that is refused, the first tick after them that finds a
  -- file newer than the last reload, with a configuration that is accepted, publishes it.
  pub reload_loop-recovers :
      (s : Server wasm rustls file_stem parse_addr) (refused : List Disk) (disk : Disk) (mtime : ℕ)
      (built : AppState wasm rustls × Flags)
      → All (IsRefused s.flags) refused
      → disk.modified ≡ some mtime
      → s.last_mtime < mtime
      → try_reload wasm rustls file_stem parse_addr disk s.flags ≡ ok built
      → reload_loop wasm rustls file_stem parse_addr s (refused ++ (disk ∷ []))
        ≡ record { app = built.0; flags = built.1; last_mtime = mtime }
  unfolding reload_loop
  reload_loop-recovers s [] disk mtime built all found newer accepted =
      rw (found, accepted) (ground arith)
  reload_loop-recovers s (d ∷ refused) disk mtime built all found newer accepted =
      ap (λ t. reload_loop wasm rustls file_stem parse_addr t (refused ++ (disk ∷ [])))
        (if_newer-IsRefused d s d.modified all.0)
      ∙ (reload_loop-recovers s refused disk mtime built all.1 found newer accepted)
