-- ===== src/Server/Tests.antt =====
-- A run of server.rs's reload loop over the toy modules, and its properties there.
use prismproxy.Prelude.{ℕ, ◌≡◌, refl, String, some, List, [], ◌∷◌, arith, Result, ok, err}
use prismproxy.Errors.{config}
use prismproxy.Config.{validate}
use prismproxy.Config.Validity.{validate_iff}
use prismproxy.Plugin.{load}
use prismproxy.Plugin.Toy.{toy}
use prismproxy.Tls.{build_tls_state}
use prismproxy.State.{build_state, join}
use prismproxy.State.Toy as StateToy
use prismproxy.State.Toy.{rustls, files, file_stem, old_flags, built, made}
use prismproxy.Server.{Disk, Server, try_reload, reload_loop}
use prismproxy.Server.Reload.{IsSound, reload_loop-IsSound, reload_loop-recovers}

abbrev any_addr : String → Result String String
any_addr s = ok s

-- A file that the parser refuses.
abbrev broken_file : ℕ → Disk
broken_file mtime = record {
  modified = some mtime;
  from_file = err (config "parse: x");
  files = files;
}

abbrev good_file : ℕ → Disk
good_file mtime = record { modified = some mtime; from_file = ok StateToy.config; files = files }

abbrev before : Server toy rustls file_stem any_addr
before = record { app = built; flags = old_flags; last_mtime = 10 }

abbrev loop : List Disk → Server toy rustls file_stem any_addr
loop = reload_loop toy rustls file_stem any_addr before

built-IsSound : IsSound toy rustls file_stem any_addr built
unfolding validate
built-IsSound = record {
  config = StateToy.config;
  valid = (validate_iff any_addr StateToy.config).0 refl;
  in_order = refl;
  budget = refl;
}

reload_loop-IsSound_example :
    IsSound toy rustls file_stem any_addr (loop (broken_file 11 ∷ good_file 12 ∷ [])).app
reload_loop-IsSound_example =
    reload_loop-IsSound toy rustls file_stem any_addr before (broken_file 11 ∷ good_file 12 ∷ [])
      built-IsSound

not_reloaded : (loop (broken_file 11 ∷ good_file 9 ∷ [])).last_mtime ≡ 10
unfolding reload_loop
not_reloaded = refl

broken_refused :
    try_reload toy rustls file_stem any_addr (broken_file 11) old_flags ≡ err (config "parse: x")
unfolding try_reload
broken_refused = refl

good_accepted : try_reload toy rustls file_stem any_addr (good_file 11) old_flags ≡ ok (built, made)
unfolding try_reload validate build_state build_tls_state join load
good_accepted = refl

reload_loop-recovers_example :
    loop (broken_file 11 ∷ good_file 11 ∷ [])
    ≡ record { app = built; flags = made; last_mtime = 11 }
reload_loop-recovers_example =
    reload_loop-recovers toy rustls file_stem any_addr before (broken_file 11 ∷ []) (good_file 11)
      11 (built, made) ((config "parse: x", broken_refused), tt) refl (omega arith) good_accepted
