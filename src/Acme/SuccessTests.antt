-- ===== src/Acme/SuccessTests.antt =====
-- Provisionings and rounds of the renewal with the CA of Acme/Obliging.
use prismproxy.Prelude.{
  String, ◌≡◌, refl, [], ◌∷◌, List, lookup, true, false, some, none, ok, Result,
}
use prismproxy.Errors.{acme}
use prismproxy.Exec.{returns, fails, elapsed}
use prismproxy.Config.{Config, from_file}
use prismproxy.Plugin.Toy.{toy as toy_wasm}
use prismproxy.Tls.{build_tls_state}
use prismproxy.Disk.{Disk, exists, read_to_string, files_of}
use prismproxy.State.{AppState, Flags, join, build_state}
use prismproxy.State.Toy.{rustls, file_stem, config, old_flags}
use prismproxy.Acme.Base.{Machine}
use prismproxy.Acme.Steps.{download, until_downloaded}
use prismproxy.Acme.{provision_with_store}
use prismproxy.Acme.Toy.{toy, toy_tls, toy_machine, toy-ClockLaws, old_files}
use prismproxy.Acme.Obliging.{obliging, obliging-ClockLaws, obliging-IsObliging}
use prismproxy.Acme.Installed.{IsInstalled}
use prismproxy.Acme.Success.{provision_with_store-succeeds}
use prismproxy.Acme.Renewal.{cert_needs_renewal, Published, renewal_tick}
use prismproxy.Acme.Replacing.{Replaces, load_tls-installed}
use prismproxy.Acme.Renews.{renewal_tick-renews}
use prismproxy.Acme.Locked.{IsStuck, renewal_tick-IsStuck}
use prismproxy.Acme.Waiting.{waits_or_gives_up}

abbrev machine_with : List (String × String) → Machine obliging
machine_with files = record {
  world = record { since = 0; passed = 7; is_final = false };
  disk = record { files = files; fates = [] };
  challenges = [];
  told = [];
}

abbrev machine : Machine obliging
machine = machine_with (("proxy.toml", "") ∷ old_files)

unlocked : exists (join toy_tls.cache_dir ".renewing") machine.disk ≡ false
unfolding exists lookup join
unlocked = refl

provision_with_store-succeeds_example :
    (pair : String × String) × ((provision_with_store obliging toy_tls machine).0 ≡ returns pair)
    × IsInstalled "certs" pair (provision_with_store obliging toy_tls machine).1.disk
provision_with_store-succeeds_example =
    provision_with_store-succeeds obliging-ClockLaws obliging-IsObliging toy_tls machine refl
      unlocked

-- A configuration without routes, whatever the text of its file.
abbrev bare : Config
bare = record config { routes = []; tls = some toy_tls }

abbrev parsed : String → Result Config String
parsed s = ok bare

abbrev published : Published toy_wasm rustls file_stem parsed obliging
published = (record { timeout_ms = 0; routes = []; tls = none }, old_flags)

is_read : from_file parsed (λ p. read_to_string p machine.disk) "proxy.toml" ≡ ok bare
unfolding from_file read_to_string lookup
is_read = refl

is_due : cert_needs_renewal "certs" 1_700_000_000 machine.disk ≡ true
unfolding cert_needs_renewal exists read_to_string lookup join
is_due = refl

builds :
    (pair : String × String) (d : Disk)
    → IsInstalled "certs" pair d
    → (new : AppState toy_wasm rustls × Flags) × (build_state toy_wasm rustls file_stem
          (files_of d)
          bare
          old_flags
        ≡ ok new)
unfolding build_state build_tls_state
builds pair d installed = (
  (
    record {
      timeout_ms = 500;
      routes = [];
      tls = some (record {
        server_config = pair.1;
        alpn_protocols = "h2" ∷ "http/1.1" ∷ [];
        domains = "b.c" ∷ [];
      });
    },
    old_flags,
  ),
  rw (load_tls-installed toy_wasm rustls file_stem d toy_tls pair installed) refl,
)

renewal_tick-renews_example :
    let r =
      renewal_tick toy_wasm rustls file_stem parsed obliging 3 true "proxy.toml" machine
        published in
    Replaces toy_wasm rustls file_stem parsed obliging 3 true r.0 (ok bare) machine published r.1
renewal_tick-renews_example =
    renewal_tick-renews toy_wasm rustls file_stem parsed obliging-ClockLaws obliging-IsObliging 3
      "proxy.toml" machine published bare toy_tls is_read refl is_due refl unlocked builds

-- A process that was stopped left the lock file.
abbrev locked : Machine obliging
locked = machine_with (("certs/.renewing", "") ∷ ("proxy.toml", "") ∷ old_files)

has_lock : exists (join toy_tls.cache_dir ".renewing") locked.disk ≡ true
unfolding exists lookup join
has_lock = refl

is_read_too : from_file parsed (λ p. read_to_string p locked.disk) "proxy.toml" ≡ ok bare
unfolding from_file read_to_string lookup
is_read_too = refl

renewal_tick-IsStuck_example :
    IsStuck toy_wasm rustls file_stem parsed obliging "certs" locked published
      (renewal_tick toy_wasm rustls file_stem parsed obliging 3 true "proxy.toml" locked published)
renewal_tick-IsStuck_example =
    renewal_tick-IsStuck toy_wasm rustls file_stem parsed obliging 3 locked published bare toy_tls
      has_lock true "proxy.toml" is_read_too refl

waits_or_gives_up_example :
    ((download (toy none) 5 ("b.c" ∷ []) (toy_machine none [])).0 ≡ elapsed)
    × ((until_downloaded (toy none) ("b.c" ∷ []) (toy_machine none [])).0
        ≡ fails (acme "cert not ready after 60s"))
waits_or_gives_up_example =
    waits_or_gives_up (toy-ClockLaws none) ("b.c" ∷ []) (λ w. refl) 5 (toy_machine none [])
