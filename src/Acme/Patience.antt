-- ===== src/Acme/Patience.antt =====
-- The polls of acme.rs succeed with a CA that does its part.
use mathlib.Core.Path.{subst}
use prismproxy.Prelude.{
  ℕ, zero, suc, ◌+◌, ◌*◌, ◌≤◌, ◌<◌, ◌≡◌, ◌≢◌, refl, sym, ap, ◌∙◌, String, Bool, true, false, Option,
  none, some, arith, ltb, leb, Bool-cases, inl, inr, Result, ok, map_err,
}
use prismproxy.Exec.{Flow, returns, Exec, continue, flow_of}
use prismproxy.Exec.Hoare.{Ends, Hoare}
use prismproxy.Disk.Fates.{IsFair}
use prismproxy.Acme.Base.{
  Ca, Machine, OrderStatus, pending, ready, processing, valid, invalid, secs, call, failure,
}
use prismproxy.Acme.Steps.{
  unless_late, after_status, wait_ready, until_ready, or_until, download_by, until_downloaded,
}
use prismproxy.Acme.Polling.{ClockLaws}
use prismproxy.Acme.Contract.{IsObliging}

-- Code that does not end otherwise than by returning.
abbrev pub Never : {S : Type 0} → S → Type 0
Never s = ⊥

module _ {S A B : Type 0} (Q : B → S → Type 0) where
  -- After a step that returned.
  pub Ends-returned :
      (r : Flow A) (f : A → Exec S B) (s : S) (a : A)
      → r ≡ returns a
      → Ends Q Never (f a s).0 (f a s).1
      → Ends Q Never (continue r f s).0 (continue r f s).1
  Ends-returned r f s a e h =
      subst (λ x. Ends Q Never (continue x f s).0 (continue x f s).1) (sym e) h

-- An answer that has not come yet leaves the deadline ahead.
on_time :
    (P : Type 0) (since wait now latency after deadline : ℕ)
    → (since + wait ≤ now → P)
    → ¬ P
    → after ≤ now + latency
    → since + wait + latency ≤ deadline
    → after ≤ deadline
on_time P since wait now latency after deadline due not_yet quick soon =
    elim (Bool-cases (leb (since + wait) now)) [
      | inl over ↦ absurd (not_yet (due (ground arith)))
      | inr under ↦ ground arith
    ]

module _ {ca : Ca} (laws : ClockLaws ca) (o : IsObliging ca) where
  -- The files are in order, and the order is finalized or not.
  abbrev pub Stage : Bool → Machine ca → Type 0
  Stage b m = IsFair m.disk × (o.is_final m.world ≡ b)

  abbrev pub Fairly : Machine ca → Type 0
  Fairly m = IsFair m.disk

  pub called :
      {A : Type 0} (what : String) (r : Result A String) (a : A)
      → r ≡ ok a
      → flow_of (map_err (failure what) r) ≡ returns a
  called what r a e = ap (λ x. flow_of (map_err (failure what) x)) e

  unless_late-Ends :
      (deadline : ℕ) (message : String) (next : Exec (Machine ca) (Unit {0})) (m : Machine ca)
      → ca.now m.world ≤ deadline
      → Ends (λ u. Fairly) Never (next m).0 (next m).1
      → Ends
          (λ u. Fairly)
          Never
          (unless_late ca deadline message next m).0
          (unless_late ca deadline message next m).1
  unless_late-Ends deadline message next m early h =
      let on_time : ltb deadline (ca.now m.world) ≡ false = ground arith in rw on_time h

  after_status-Ends :
      (deadline : ℕ) (status : OrderStatus) (next : Exec (Machine ca) (Unit {0})) (m : Machine ca)
      → status ≢ invalid
      → Fairly m
      → (status ≢ ready → ca.now m.world ≤ deadline)
      → (status ≢ ready → Ends (λ u. Fairly) Never (next m).0 (next m).1)
      → Ends
          (λ u. Fairly)
          Never
          (after_status ca deadline status next m).0
          (after_status ca deadline status next m).1
  after_status-Ends deadline ready next m ends fair early h = fair
  after_status-Ends deadline invalid next m ends fair early h = absurd (ends refl)
  after_status-Ends deadline pending next m ends fair early h =
      unless_late-Ends deadline _ next m (early λ e. cc) (h λ e. cc)
  after_status-Ends deadline processing next m ends fair early h =
      unless_late-Ends deadline _ next m (early λ e. cc) (h λ e. cc)
  after_status-Ends deadline valid next m ends fair early h =
      unless_late-Ends deadline _ next m (early λ e. cc) (h λ e. cc)

  wait_ready-Ends :
      (rounds deadline : ℕ) (order : ca.Order) (m : Machine ca)
      → Stage false m
      → ca.now m.world ≤ deadline
      → deadline < ca.now m.world + secs 3 * rounds
      → o.since m.world + o.validation + o.latency ≤ deadline
      → Ends
          (λ u. Fairly)
          Never
          (wait_ready ca rounds deadline order m).0
          (wait_ready ca rounds deadline order m).1
  unfolding wait_ready
  wait_ready-Ends zero deadline order m stage early enough soon = absurd (omega arith)
  wait_ready-Ends (suc rounds) deadline order m stage early enough soon =
      let later = record m { world = ca.sleep (secs 3) m.world } in
      let slept = laws.now-sleep (secs 3) m.world in
      let asked = laws.now-refresh order later.world in
      let (kept, same) = o.sleeps (secs 3) m.world in
      let (status, answered, fine, in_time, still, since, quick) =
        o.validates order later.world (kept ∙ stage.1) in
      let early_yet = λ (not_yet : status ≢ ready).
        on_time (status ≡ ready) (o.since later.world) o.validation (ca.now later.world) o.latency
          (ca.now (ca.refresh order later.world).1) deadline in_time not_yet quick
          (omega (arith, same, soon)) in
      Ends-returned (λ u. Fairly) (call "refresh order: " (ca.refresh order) later).0 _ _ status
        (called "refresh order: " _ status answered)
        (after_status-Ends deadline status (wait_ready ca rounds deadline order)
          (call "refresh order: " (ca.refresh order) later).1 fine stage.0 early_yet
          λ not_yet.
            wait_ready-Ends rounds deadline order _ (stage.0, still) (early_yet not_yet)
              (omega (arith, slept, asked)) (omega (arith, since, same, soon)))

  -- Waiting for the order succeeds.
  pub until_ready-Ends :
      (order : ca.Order)
      → Hoare (Stage false) (until_ready ca order) (λ (u : Unit {0}). Fairly) Never
  until_ready-Ends order = record {
    run = λ m stage.
        let past = o.since-now m.world in
        let soon = o.in_time.0 in
        wait_ready-Ends 41 (ca.now m.world + secs 120) order m stage (omega arith) (omega arith)
          (omega (arith, past, soon));
  }

  or_until-Ends :
      (deadline : ℕ) (found : Option String) (next : Exec (Machine ca) String) (m : Machine ca)
      → Fairly m
      → (¬ ((cert : String) × (found ≡ some cert)) → ca.now m.world ≤ deadline)
      → (¬ ((cert : String) × (found ≡ some cert))
          → Ends (λ (cert : String). Fairly) Never (next m).0 (next m).1)
      → Ends
          (λ (cert : String). Fairly)
          Never
          (or_until ca deadline found next m).0
          (or_until ca deadline found next m).1
  or_until-Ends deadline (some cert) next m fair early h = fair
  or_until-Ends deadline none next m fair early h =
      let missing : ¬ ((cert : String) × (none ≡ some cert)) = λ found. cc (found.1) in
      let before = early missing in
      let not_late : ltb deadline (ca.now m.world) ≡ false = ground arith in rw not_late (h missing)

  download_by-Ends :
      (rounds deadline : ℕ) (order : ca.Order) (m : Machine ca)
      → Stage true m
      → ca.now m.world ≤ deadline
      → deadline < ca.now m.world + secs 2 * rounds
      → o.since m.world + o.issuance + o.latency ≤ deadline
      → Ends
          (λ (cert : String). Fairly)
          Never
          (download_by ca rounds deadline order m).0
          (download_by ca rounds deadline order m).1
  unfolding download_by
  download_by-Ends zero deadline order m stage early enough soon = absurd (omega arith)
  download_by-Ends (suc rounds) deadline order m stage early enough soon =
      let later = record m { world = ca.sleep (secs 2) m.world } in
      let slept = laws.now-sleep (secs 2) m.world in
      let asked = laws.now-certificate order later.world in
      let (kept, same) = o.sleeps (secs 2) m.world in
      let (found, answered, in_time, still, since, quick) =
        o.issues order later.world (kept ∙ stage.1) in
      let early_yet = λ (not_yet : ¬ ((cert : String) × (found ≡ some cert))).
        on_time ((cert : String) × (found ≡ some cert)) (o.since later.world) o.issuance
          (ca.now later.world) o.latency (ca.now (ca.certificate order later.world).1) deadline
          in_time not_yet quick (omega (arith, same, soon)) in
      Ends-returned (λ (cert : String). Fairly)
        (call "get certificate: " (ca.certificate order) later).0 _ _ found
        (called "get certificate: " _ found answered)
        (or_until-Ends deadline found (download_by ca rounds deadline order)
          (call "get certificate: " (ca.certificate order) later).1 stage.0 early_yet
          λ not_yet.
            download_by-Ends rounds deadline order _ (stage.0, still) (early_yet not_yet)
              (omega (arith, slept, asked)) (omega (arith, since, same, soon)))

  -- Waiting for the certificate succeeds.
  pub until_downloaded-Ends :
      (order : ca.Order)
      → Hoare (Stage true) (until_downloaded ca order) (λ (cert : String). Fairly) Never
  until_downloaded-Ends order = record {
    run = λ m stage.
        let past = o.since-now m.world in
        let soon = o.in_time.1 in
        download_by-Ends 31 (ca.now m.world + secs 60) order m stage (omega arith) (omega arith)
          (omega (arith, past, soon));
  }
