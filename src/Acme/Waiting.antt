-- ===== src/Acme/Waiting.antt =====
-- acme.rs's two ways to wait for a certificate that never comes.
use prismproxy.Prelude.{
  ℕ, zero, suc, ◌+◌, ◌*◌, ◌≤◌, ◌<◌, ◌≡◌, refl, none, arith, ltb, Bool-cases, inl, inr, ok,
}
use prismproxy.Errors.{acme}
use prismproxy.Exec.{fails, elapsed}
use prismproxy.Acme.Base.{Ca, Machine, secs}
use prismproxy.Acme.Steps.{download, download_by, until_downloaded}
use prismproxy.Acme.Polling.{ClockLaws}

module _ {ca : Ca} (laws : ClockLaws ca) (order : ca.Order)
    (never : (w : ca.World) → (ca.certificate order w).0 ≡ ok none) where
  download-waits : (rounds : ℕ) (m : Machine ca) → (download ca rounds order m).0 ≡ elapsed
  unfolding download
  download-waits zero m = refl
  download-waits (suc rounds) m = rw (never (ca.sleep (secs 1) m.world)) (
      download-waits rounds
        (record m { world = (ca.certificate order (ca.sleep (secs 1) m.world)).1 }))

  download_by-gives_up :
      (rounds deadline : ℕ) (m : Machine ca)
      → ca.now m.world ≤ deadline
      → deadline < ca.now m.world + secs 2 * rounds
      → (download_by ca rounds deadline order m).0 ≡ fails (acme "cert not ready after 60s")
  unfolding download_by
  download_by-gives_up zero deadline m early enough = absurd (omega arith)
  download_by-gives_up (suc rounds) deadline m early enough =
      let slept = laws.now-sleep (secs 2) m.world in
      let asked = laws.now-certificate order (ca.sleep (secs 2) m.world) in
      let after = (ca.certificate order (ca.sleep (secs 2) m.world)).1 in
      elim (Bool-cases (ltb deadline (ca.now after))) [
        | inl late ↦ rw (never (ca.sleep (secs 2) m.world), late) refl
        | inr in_time ↦
            let still : ca.now after ≤ deadline = ground arith in
            rw (never (ca.sleep (secs 2) m.world), in_time)
              (download_by-gives_up rounds deadline (record m { world = after }) still
                (omega (arith, slept, asked)))
      ]

  -- If the CA never has the certificate, then the loop of `provision` that downloads it is not done
  -- after any number of rounds, while that of `provision_with_store` ends with the error of its
  -- deadline, with a clock that does not go back and sleeps that last.
  pub waits_or_gives_up :
      (rounds : ℕ) (m : Machine ca)
      → ((download ca rounds order m).0 ≡ elapsed)
        × ((until_downloaded ca order m).0 ≡ fails (acme "cert not ready after 60s"))
  waits_or_gives_up rounds m =
      (download-waits rounds m, download_by-gives_up 31 _ m (omega arith) (omega arith))
