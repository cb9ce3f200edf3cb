-- ===== src/System/Toy.antt =====
-- A start of the proxy over the toy modules and the CA of Acme/Toy, with a cached certificate.
use prismproxy.Prelude.{◌≡◌, refl, some, lookup, true}
use prismproxy.Exec.{returns}
use prismproxy.Config.{from_file, validate}
use prismproxy.Plugin.{load}
use prismproxy.Tls.{build_tls_state}
use prismproxy.State.{build_state, join}
use prismproxy.Disk.{exists, read_to_string}
use prismproxy.Acme.Toy.{old_files}
use prismproxy.Startup.{Started, run_with_listener_hot}
use prismproxy.Startup.Toy.{env, machine_of, started_by}
use prismproxy.System.Base.{Connection}
use prismproxy.System.Start.{no_flags}

abbrev pub begun_proxy : Started env
begun_proxy =
    started_by (run_with_listener_hot env 3 "proxy.toml" (some 7) no_flags (machine_of old_files)).0

pub starts :
    (run_with_listener_hot env 3 "proxy.toml" (some 7) no_flags (machine_of old_files)).0
    ≡ returns begun_proxy
unfolding run_with_listener_hot from_file read_to_string lookup validate build_state load exists
    join build_tls_state
starts = refl

abbrev pub client : Connection
client = record { client_ip = "10.1.1.1"; is_tls = true }
