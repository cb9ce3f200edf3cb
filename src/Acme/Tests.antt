-- ===== src/Acme/Tests.antt =====
-- Runs of acme.rs with the CA of Toy.
use Prim.Native.String
use prismproxy.Http.{Request, Bytes}
use prismproxy.Http.Toy.{toy_http, toy-HttpLaws}
use prismproxy.Challenges.{challenge_prefix, challenge_service, redirect_service}
use prismproxy.Acme.Fetched.{AllFetched, provision-AllFetched, provision_with_store-AllFetched}
use prismproxy.State.{join, build_state}
use prismproxy.Prelude.{
  String, Result, ok, true, map, arith, lookup, insert, ◌≡◌, refl, Option, none, some, List, [],
  ◌∷◌,
}
use prismproxy.Exec.{returns, elapsed}
use prismproxy.Exec.Settling.{Settles}
use prismproxy.Exec.Hoare.{Ends}
use prismproxy.Config.{Config, from_file}
use prismproxy.Tls.{TlsState, build_tls_state}
use prismproxy.Plugin.{load}
use prismproxy.Plugin.Toy.{toy as toy_wasm}
use prismproxy.State.Toy.{rustls, file_stem, config, old_flags}
use prismproxy.Acme.Renewal.{cert_needs_renewal, Published, renewal_tick}
use prismproxy.Acme.Replacing.{KeepsOrReplaces, renewal_tick-Replaces}
use prismproxy.Acme.Issued.{provision_with_store-due}
use prismproxy.Disk.{
  read_to_string, create_dir_all, exists, write, rename, remove_file, Fate, fine, failed,
}
use prismproxy.Acme.Base.{Machine}
use prismproxy.Acme.Steps.{download}
use prismproxy.Acme.Pair.{IsOldOrSplit, pair_of}
use prismproxy.Acme.Installed.{IsNew}
use prismproxy.Acme.Ending.{provision_with_store-Settles}
use prismproxy.Acme.Outcome.{provision-IsInstalled, provision_with_store-IsInstalled}
use prismproxy.Acme.Tidy.{EndsTidy, provision-EndsTidy}
use prismproxy.Acme.Toy.{toy, toy-ClockLaws, toy-KeyLaw, toy_tls, toy_machine, old_files}
use prismproxy.Acme.{provision, provision_with_store}

issues :
    (provision_with_store (toy (some "CERT")) toy_tls (toy_machine (some "CERT") [])).0
    ≡ returns ("CERT", "KEY")
unfolding provision_with_store create_dir_all exists lookup join write rename insert
issues = refl

-- The rename of the key goes wrong: a new certificate beside the old key.
abbrev broken : List Fate
broken = fine ∷ fine ∷ fine ∷ fine ∷ fine ∷ failed "disk" none ∷ []

split_pair :
    (pair_of "certs"
      (provision
        (toy (some "CERT"))
        3
        toy_tls
        "0.0.0.0:80"
        (toy_machine (some "CERT") broken)).1.disk)
    ≡ (some "CERT", some "OLDKEY")
unfolding provision create_dir_all exists lookup join write rename insert remove_file
split_pair = refl

provision_with_store-Settles_example :
    Settles (provision_with_store (toy none) toy_tls (toy_machine none [])).0
provision_with_store-Settles_example =
    provision_with_store-Settles (toy-ClockLaws none) toy_tls (toy_machine none [])

provision-IsInstalled_example :
    Ends
      (λ pair u. IsNew (toy (some "CERT")) toy_tls pair u.disk)
      (λ u.
        IsOldOrSplit
          (toy (some "CERT"))
          toy_tls.domains
          (some "OLD", some "OLDKEY")
          (pair_of "certs" u.disk))
      (provision (toy (some "CERT")) 3 toy_tls "0.0.0.0:80" (toy_machine (some "CERT") broken)).0
      (provision (toy (some "CERT")) 3 toy_tls "0.0.0.0:80" (toy_machine (some "CERT") broken)).1
unfolding lookup join
provision-IsInstalled_example =
    provision-IsInstalled toy_tls (toy_machine (some "CERT") broken) 3 "0.0.0.0:80"

provision_with_store-IsInstalled_example :
    IsNew
      (toy (some "CERT"))
      toy_tls
      ("CERT", "KEY")
      (provision_with_store (toy (some "CERT")) toy_tls (toy_machine (some "CERT") [])).1.disk
unfolding provision_with_store create_dir_all exists lookup join write rename insert
provision_with_store-IsInstalled_example =
    provision_with_store-IsInstalled toy_tls (toy_machine (some "CERT") [])

provision-EndsTidy_example :
    EndsTidy "certs"
      (provision (toy (some "CERT")) 3 toy_tls "0.0.0.0:80" (toy_machine (some "CERT") [])).0
      (provision (toy (some "CERT")) 3 toy_tls "0.0.0.0:80" (toy_machine (some "CERT") [])).1.disk
unfolding lookup join
provision-EndsTidy_example =
    provision-EndsTidy toy_tls (toy_machine (some "CERT") []) 3 "0.0.0.0:80" refl refl

-- With no certificate at the CA, the download goes on for as many rounds as it is given.
waiting_run : (download (toy none) 100 ("b.c" ∷ []) (toy_machine none [])).0 ≡ elapsed
unfolding download
waiting_run = refl

abbrev fresh : Machine (toy (some "CERT"))
fresh = toy_machine (some "CERT") []

abbrev challenge_request : String → Request toy_http Bytes
challenge_request token = record {
  method = "GET";
  uri = String.◌++◌ challenge_prefix token;
  headers = [];
  body = [];
}

provision-AllFetched_example :
    AllFetched
      (toy (some "CERT"))
      toy-HttpLaws
      challenge_request
      (challenge_service toy_http)
      (provision (toy (some "CERT")) 3 toy_tls "0.0.0.0:80" fresh).1
provision-AllFetched_example =
    provision-AllFetched (toy (some "CERT")) toy-HttpLaws challenge_request 443 (λ token. refl)
      (toy-KeyLaw (some "CERT")) toy_tls fresh 3 "0.0.0.0:80" refl

provision_with_store-AllFetched_example :
    AllFetched
      (toy (some "CERT"))
      toy-HttpLaws
      challenge_request
      (redirect_service toy_http 443)
      (provision_with_store (toy (some "CERT")) toy_tls fresh).1
provision_with_store-AllFetched_example =
    provision_with_store-AllFetched (toy (some "CERT")) toy-HttpLaws challenge_request 443
      (λ token. refl) (toy-KeyLaw (some "CERT")) toy_tls fresh refl

told_run :
    (provision_with_store (toy (some "CERT")) toy_tls fresh).1.told
    ≡ ("url/http", ("abc", "abc.thumb") ∷ []) ∷ []
unfolding provision_with_store create_dir_all exists lookup join write rename insert
told_run = refl

provision_with_store-due_example :
    cert_needs_renewal "certs" 1_705_184_001
      (provision_with_store (toy (some "CERT")) toy_tls fresh).1.disk
    ≡ true
unfolding provision_with_store create_dir_all exists lookup join write rename insert
provision_with_store-due_example =
    provision_with_store-due toy_tls fresh ("CERT", "KEY") 1_705_184_001 issues (omega arith)

-- A configuration, whatever the text of its file, and a certificate of unknown age.
abbrev renewing : Machine (toy (some "CERT"))
renewing = record fresh { disk = record { files = ("proxy.toml", "") ∷ old_files; fates = [] } }

abbrev parsed : String → Result Config String
parsed s = ok config

abbrev list_of : Option (TlsState rustls) → List (TlsState rustls)
list_of none = []
list_of (some t) = t ∷ []

abbrev published : Published toy_wasm rustls file_stem parsed (toy (some "CERT"))
published = (record { timeout_ms = 0; routes = []; tls = none }, old_flags)

renewal_tick-Replaces_example :
    KeepsOrReplaces toy_wasm rustls file_stem parsed
      (toy (some "CERT"))
      3
      true
      (from_file parsed (λ path. read_to_string path renewing.disk) "proxy.toml")
      renewing
      published
      (renewal_tick toy_wasm rustls file_stem parsed
        (toy (some "CERT"))
        3
        true
        "proxy.toml"
        renewing
        published)
renewal_tick-Replaces_example =
    renewal_tick-Replaces toy_wasm rustls file_stem parsed (toy (some "CERT")) renewing published 3
      true "proxy.toml"

-- Such a round publishes the new certificate.
renewal_run :
    map
      (λ (t : TlsState rustls). t.server_config)
      (list_of
        (renewal_tick toy_wasm rustls file_stem parsed
          (toy (some "CERT"))
          3
          true
          "proxy.toml"
          renewing
          published).1.0.tls)
    ≡ "KEY" ∷ []
unfolding renewal_tick from_file read_to_string lookup cert_needs_renewal exists join
    provision_with_store create_dir_all write rename insert build_state load remove_file
    build_tls_state
renewal_run = refl
