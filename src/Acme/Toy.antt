-- ===== src/Acme/Toy.antt =====
-- A CA for the tests of acme.rs: it accepts every order once it was asked twice, and its world is
-- the time in nanoseconds.
use prismproxy.Prelude.{
  ℕ, ◌+◌, String, Option, ap, arith, List, [], ◌∷◌, format, ok, ltb, if◌then◌else◌,
}
use prismproxy.Config.{TlsConfig}
use prismproxy.Disk.{Fate}
use prismproxy.Acme.Base.{Ca, Machine, Challenge, http01, dns01, pending, ready, secs}
use prismproxy.Acme.Offers.{KeyLaw}
use prismproxy.Acme.Polling.{ClockLaws}

abbrev pub toy_challenges : List Challenge
toy_challenges =
    record { kind = dns01; url = "url/dns"; token = "dns" }
    ∷ record { kind = http01; url = "url/http"; token = "abc" }
    ∷ []

-- An order that becomes ready five seconds after the beginning, and has its certificate when `cert` is some.
abbrev pub toy : Option String → Ca
toy cert = record {
  World = ℕ;
  Account = String;
  Order = List String;
  Params = List String;
  KeyPair = String;
  Csr = String;
  create_account = λ contact directory w. (ok contact, w);
  new_order = λ account domains w. (ok domains, w);
  authorizations = λ order w. (ok (toy_challenges ∷ []), w);
  key_authorization = λ order challenge. format (challenge.token ∷ ".thumb" ∷ []);
  set_challenge_ready = λ order url w. (ok tt, w);
  refresh = λ order w. (ok (if ltb w (secs 5) then pending else ready), w);
  finalize = λ order csr w. (ok tt, w);
  certificate = λ order w. (ok cert, w);
  params = λ domains. ok domains;
  generate = λ w. (ok "KEY", w);
  serialize_request = λ params key. ok "CSR";
  serialize_pem = λ key. key;
  bind = λ listen w. (ok tt, w);
  sleep = λ d w. w + d;
  now = λ w. w;
  unix_time = λ w. 1_700_000_000;
}

pub toy-ClockLaws : (cert : Option String) → ClockLaws (toy cert)
toy-ClockLaws cert = record {
  now-sleep = λ d w. omega arith;
  now-refresh = λ o w. omega arith;
  now-certificate = λ o w. omega arith;
}

pub toy-KeyLaw : (cert : Option String) → KeyLaw (toy cert)
toy-KeyLaw cert = record {
  of_token = λ order c d same. ap (λ token. format (token ∷ ".thumb" ∷ [])) same;
}

abbrev pub toy_tls : TlsConfig
toy_tls = record {
  acme_email = "a@b.c";
  acme_directory = "https://ca/dir";
  cache_dir = "certs";
  domains = "b.c" ∷ [];
}

abbrev pub old_files : List (String × String)
old_files = ("certs/cert.pem", "OLD") ∷ ("certs/key.pem", "OLDKEY") ∷ []

-- Before a renewal, with the fates of its operations on the disk.
abbrev pub toy_machine : (cert : Option String) → List Fate → Machine (toy cert)
toy_machine cert fates = record {
  world = 0;
  disk = record { files = old_files; fates = fates };
  challenges = [];
  told = [];
}
