-- ===== src/Server.antt =====
-- server.rs: `try_reload` and `reload_loop`, which replace the published state when the file of the
-- configuration has changed. The startup is in Startup, the redirect server in Challenges. A
-- time of modification is a number.
pub mod Reload
mod Tests
use prismproxy.Prelude.{
  ℕ, String, Option, none, some, List, [], ◌∷◌, leb, if◌then◌else◌, Result, ok, err, ◌>>=◌, ◌>>◌,
}
use prismproxy.Errors.{ProxyError}
use prismproxy.Config.{Config, validate}
use prismproxy.Plugin.{Wasm}
use prismproxy.Tls.{Rustls}
use prismproxy.State.{Files, Flags, AppState, build_state}

-- What one tick of the loop finds on the disk: the file's time of modification, if it can be read,
-- the outcome of `Config::from_file`, and the cached certificate.
pub record Disk : Type 0 where
  pub modified : Option ℕ
  pub from_file : Result Config ProxyError
  pub files : Files

module _ (wasm : Wasm) (rustls : Rustls) (file_stem : String → Option String) {Addr : Type 0}
    (parse_addr : String → Result Addr String) where
  -- The published state, the flags that have been made, and the time of the last reload.
  pub record Server : Type 0 where
    pub app : AppState wasm rustls
    pub flags : Flags
    pub last_mtime : ℕ

  -- `try_reload`
  unfoldable pub try_reload : Disk → Flags → Result (AppState wasm rustls × Flags) ProxyError
  try_reload disk flags = do
    config ← disk.from_file
    validate parse_addr config
    build_state wasm rustls file_stem disk.files config flags

  -- The `match` on `try_reload`: a refused configuration leaves all as it was, also the time.
  abbrev pub publish : ℕ → Server → Result (AppState wasm rustls × Flags) ProxyError → Server
  publish mtime s (ok built) = record { app = built.0; flags = built.1; last_mtime = mtime }
  publish mtime s (err e) = s

  abbrev pub if_newer : Disk → Server → Option ℕ → Server
  if_newer disk s none = s
  if_newer disk s (some mtime) =
      if leb mtime s.last_mtime then s else publish mtime s (try_reload disk s.flags)

  -- One round of the loop.
  unfoldable pub tick : Disk → Server → Server
  unfolding try_reload
  tick disk s = if_newer disk s disk.modified

  -- The rounds of the loop, one for each tick.
  unfoldable pub reload_loop : Server → List Disk → Server
  unfolding tick
  reload_loop s [] = s
  reload_loop s (disk ∷ disks) = reload_loop (tick disk s) disks
