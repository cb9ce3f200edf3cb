-- ===== src/Acme/Polling.antt =====
-- The polls of acme.rs end: each has a deadline, and the clock passes it.
use prismproxy.Prelude.{
  ℕ, zero, suc, ◌+◌, ◌*◌, ◌≤◌, ◌<◌, String, Option, none, some, arith, ltb, Bool-cases, inl, inr,
}
use prismproxy.Exec.{Exec}
use prismproxy.Exec.Settling.{Settles, Settles-continue_at, Settles-flow_of}
use prismproxy.Acme.Base.{
  Ca, Machine, OrderStatus, pending, ready, processing, valid, invalid, secs, call,
}
use prismproxy.Acme.Steps.{
  unless_late, after_status, wait_ready, until_ready, or_until, download_by, until_downloaded,
}

-- `Instant::now` does not go back, and `sleep` takes the time that it is asked for.
pub record ClockLaws (ca : Ca) : Type 0 where
  pub now-sleep : (d : ℕ) (w : ca.World) → ca.now w + d ≤ ca.now (ca.sleep d w)
  pub now-refresh : (o : ca.Order) (w : ca.World) → ca.now w ≤ ca.now (ca.refresh o w).1
  pub now-certificate : (o : ca.Order) (w : ca.World) → ca.now w ≤ ca.now (ca.certificate o w).1

module _ {ca : Ca} (laws : ClockLaws ca) where
  unless_late-Settles :
      (deadline : ℕ) (message : String) (next : Exec (Machine ca) (Unit {0})) (m : Machine ca)
      → (ca.now m.world ≤ deadline → Settles (next m).0)
      → Settles (unless_late ca deadline message next m).0
  unless_late-Settles deadline message next m h =
      elim (Bool-cases (ltb deadline (ca.now m.world))) [
        | inl late ↦ rw late tt
        | inr early ↦ rw early (h (ground arith))
      ]

  after_status-Settles :
      (deadline : ℕ) (status : OrderStatus) (next : Exec (Machine ca) (Unit {0})) (m : Machine ca)
      → (ca.now m.world ≤ deadline → Settles (next m).0)
      → Settles (after_status ca deadline status next m).0
  after_status-Settles deadline ready next m h = tt
  after_status-Settles deadline invalid next m h = tt
  after_status-Settles deadline pending next m h = unless_late-Settles deadline _ next m h
  after_status-Settles deadline processing next m h = unless_late-Settles deadline _ next m h
  after_status-Settles deadline valid next m h = unless_late-Settles deadline _ next m h

  -- With rounds enough for the deadline to pass, the loop ends.
  wait_ready-Settles :
      (rounds deadline : ℕ) (order : ca.Order) (m : Machine ca)
      → ca.now m.world ≤ deadline
      → deadline < ca.now m.world + secs 3 * rounds
      → Settles (wait_ready ca rounds deadline order m).0
  unfolding wait_ready
  wait_ready-Settles zero deadline order m early enough = absurd (omega arith)
  wait_ready-Settles (suc rounds) deadline order m early enough =
      let later = record m { world = ca.sleep (secs 3) m.world } in
      let slept = laws.now-sleep (secs 3) m.world in
      let asked = laws.now-refresh order later.world in
      Settles-continue_at (call "refresh order: " (ca.refresh order) later).0 _ _
        (Settles-flow_of _)
        λ status.
          after_status-Settles deadline status (wait_ready ca rounds deadline order)
            (call "refresh order: " (ca.refresh order) later).1
            λ still. wait_ready-Settles rounds deadline order _ still (omega (arith, slept, asked))

  -- The rounds of the loop are enough: waiting for the order ends, with the order ready or with an
  -- error, whatever the CA answers.
  pub until_ready-Settles : (order : ca.Order) (m : Machine ca) → Settles (until_ready ca order m).0
  until_ready-Settles order m = wait_ready-Settles 41 _ order m (omega arith) (omega arith)

  or_until-Settles :
      (deadline : ℕ) (found : Option String) (next : Exec (Machine ca) String) (m : Machine ca)
      → (ca.now m.world ≤ deadline → Settles (next m).0)
      → Settles (or_until ca deadline found next m).0
  or_until-Settles deadline (some cert) next m h = tt
  or_until-Settles deadline none next m h = elim (Bool-cases (ltb deadline (ca.now m.world))) [
    | inl late ↦ rw late tt
    | inr early ↦ rw early (h (ground arith))
  ]

  download_by-Settles :
      (rounds deadline : ℕ) (order : ca.Order) (m : Machine ca)
      → ca.now m.world ≤ deadline
      → deadline < ca.now m.world + secs 2 * rounds
      → Settles (download_by ca rounds deadline order m).0
  unfolding download_by
  download_by-Settles zero deadline order m early enough = absurd (omega arith)
  download_by-Settles (suc rounds) deadline order m early enough =
      let later = record m { world = ca.sleep (secs 2) m.world } in
      let slept = laws.now-sleep (secs 2) m.world in
      let asked = laws.now-certificate order later.world in
      Settles-continue_at (call "get certificate: " (ca.certificate order) later).0 _ _
        (Settles-flow_of _)
        λ found.
          or_until-Settles deadline found (download_by ca rounds deadline order)
            (call "get certificate: " (ca.certificate order) later).1
            λ still. download_by-Settles rounds deadline order _ still (omega (arith, slept, asked))

  pub until_downloaded-Settles :
      (order : ca.Order) (m : Machine ca) → Settles (until_downloaded ca order m).0
  until_downloaded-Settles order m = download_by-Settles 31 _ order m (omega arith) (omega arith)
