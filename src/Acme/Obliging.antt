-- ===== src/Acme/Obliging.antt =====
-- A CA for the tests of acme.rs that validates in five seconds and issues in three. Its world is when
-- it was last asked for something, the time since then, and whether the order is finalized.
use prismproxy.Prelude.{
  ℕ, ◌+◌, ◌≤◌, String, ◌≡◌, ◌≢◌, refl, Bool, true, false, Bool-cases, inl, inr, Option, none, some,
  arith, List, [], ◌∷◌, format, ok, ltb, if◌then◌else◌,
}
use prismproxy.Acme.Base.{Ca, OrderStatus, pending, ready, invalid, http01, secs}
use prismproxy.Acme.Steps.{find_http01}
use prismproxy.Acme.Polling.{ClockLaws}
use prismproxy.Acme.Contract.{IsObliging}
use prismproxy.Acme.Toy.{toy_challenges}

pub record Clock : Type 0 where
  pub since : ℕ
  pub passed : ℕ
  pub is_final : Bool

abbrev asked : Bool → Clock → Clock
asked b w = record { since = w.since + w.passed; passed = 0; is_final = b }

abbrev status_at : Clock → OrderStatus
status_at w = if ltb w.passed (secs 5) then pending else ready

abbrev found_at : Clock → Option String
found_at w = if ltb w.passed (secs 3) then none else some "CERT"

abbrev pub obliging : Ca
obliging = record {
  World = Clock;
  Account = String;
  Order = List String;
  Params = List String;
  KeyPair = String;
  Csr = String;
  create_account = λ contact directory w. (ok contact, w);
  new_order = λ account domains w. (ok domains, asked false w);
  authorizations = λ order w. (ok (toy_challenges ∷ []), w);
  key_authorization = λ order challenge. format (challenge.token ∷ ".thumb" ∷ []);
  set_challenge_ready = λ order url w. (ok tt, asked false w);
  refresh = λ order w. (ok (status_at w), w);
  finalize = λ order csr w. (ok tt, asked true w);
  certificate = λ order w. (ok (found_at w), w);
  params = λ domains. ok domains;
  generate = λ w. (ok "KEY", w);
  serialize_request = λ params key. ok "CSR";
  serialize_pem = λ key. key;
  bind = λ listen w. (ok tt, w);
  sleep = λ d w. record w { passed = w.passed + d };
  now = λ w. w.since + w.passed;
  unix_time = λ w. 1_700_000_000;
}

pub obliging-ClockLaws : ClockLaws obliging
obliging-ClockLaws = record {
  now-sleep = λ d w. omega arith;
  now-refresh = λ o w. omega arith;
  now-certificate = λ o w. omega arith;
}

chosen-valid : (b : Bool) → (if b then pending else ready) ≢ invalid
chosen-valid true e = cc
chosen-valid false e = cc

ready-late : (w : Clock) → w.since + secs 5 ≤ w.since + w.passed → status_at w ≡ ready
ready-late w late = elim (Bool-cases (ltb w.passed (secs 5))) [
  | inl early ↦ absurd (ground arith)
  | inr over ↦ rw over refl
]

found-late :
    (w : Clock) → w.since + secs 3 ≤ w.since + w.passed → (cert : String) × (found_at w ≡ some cert)
found-late w late = elim (Bool-cases (ltb w.passed (secs 3))) [
  | inl early ↦ absurd (ground arith)
  | inr over ↦ ("CERT", rw over refl)
]

pub obliging-IsObliging : IsObliging obliging
unfolding find_http01
obliging-IsObliging = record {
  validation = secs 5;
  issuance = secs 3;
  latency = 0;
  in_time = (omega arith, omega arith);
  is_final = λ w. w.is_final;
  since = λ w. w.since;
  since-now = λ w. omega arith;
  has_account = λ contact directory w. (contact, refl);
  has_order = λ a domains w. (domains, refl, refl);
  has_challenges = λ o w open_still. (
    toy_challenges ∷ [],
    refl,
    open_still,
    ((record { kind = http01; url = "url/http"; token = "abc" }, refl), tt),
  );
  is_told = λ o url w open_still. (refl, refl);
  sleeps = λ d w. (refl, refl);
  validates = λ o w open_still. (
    status_at w,
    refl,
    chosen-valid (ltb w.passed (secs 5)),
    ready-late w,
    open_still,
    refl,
    omega arith,
  );
  has_params = λ domains. (domains, refl);
  has_key = λ w. ("KEY", refl);
  has_request = λ p k. ("CSR", refl);
  is_finalized = λ o csr w. (refl, refl);
  issues = λ o w final. (found_at w, refl, found-late w, final, refl, omega arith);
}
