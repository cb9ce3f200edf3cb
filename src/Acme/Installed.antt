-- ===== src/Acme/Installed.antt =====
-- What acme.rs's `provision` and `provision_with_store` leave of the certificate and its key.
use prismproxy.Prelude.{ℕ, String, ◌≡◌, refl, ◌∙◌, Option, some, List, inl, ◌⊎◌, show}
use prismproxy.Exec.{pure}
use prismproxy.Exec.Hoare.{Hoare, Hoare-weaken}
use prismproxy.State.{join}
use prismproxy.Disk.{Disk, write}
use prismproxy.Acme.Base.{Ca, Machine, on_disk, ignoring, seconds_now, serve}
use prismproxy.Acme.Steps.{until_ready}
use prismproxy.Acme.Parts.{Closed, until_ready-Closed}
use prismproxy.Acme.Keeps.{Keeps, Keeps-Closed, Keeps-dropped, Hoare-on_disk}
use prismproxy.Config.{TlsConfig}
use prismproxy.Acme.Origin.{IsIssued, IsGot}
use prismproxy.Acme.Pair.{pair_of, IsOldOrSplit, pair-write_other, install-pair}
use prismproxy.Acme.{install}

-- The certificate and the key that were returned are those on the disk.
abbrev pub IsInstalled : String → String × String → Disk → Type 0
IsInstalled cache pair d = pair_of cache d ≡ (some pair.0, some pair.1)

-- They came from the CA, in answer to an order for the configured domains, and are on the disk.
abbrev pub IsNew : (ca : Ca) → TlsConfig → String × String → Disk → Type 0
IsNew ca tls_config pair d =
    IsInstalled tls_config.cache_dir pair d × IsGot ca tls_config.domains pair

-- The pair is the old one, or split, or the issued one with the key that it is for.
abbrev pub IsOldSplitOrNew :
    (ca : Ca) → List String → Option String × Option String → Option String × Option String → Type 0
IsOldSplitOrNew ca domains old pair =
    IsOldOrSplit ca domains old pair
    ⊎ ((cert : String) × (key_pair : ca.KeyPair) × IsIssued ca domains cert key_pair
        × (pair ≡ (some cert, some (ca.serialize_pem key_pair))))

-- `E` says what an error leaves of the pair.
module _ {ca : Ca} {domains : List String} (cache : String) (old : Option String × Option String)
    (E : Option String × Option String → Type 0)
    (into : (p : Option String × Option String) → IsOldOrSplit ca domains old p → E p) where
  open ca use {Order, KeyPair}

  abbrev pub IsOld : Machine ca → Type 0
  IsOld m = pair_of cache m.disk ≡ old

  abbrev pub IsLeft : Machine ca → Type 0
  IsLeft m = E (pair_of cache m.disk)

  abbrev pub IsDone : String × String → Machine ca → Type 0
  IsDone pair m = IsInstalled cache pair m.disk

  pub left : (m : Machine ca) → IsOld m → IsLeft m
  left m h = into _ (inl h)

  pub IsOld-Closed : Closed ca (Keeps IsOld IsLeft left)
  IsOld-Closed = Keeps-Closed IsOld IsLeft left (λ m w h. h)

  pub install-Done :
      (cert key : String) (key_pair : KeyPair)
      → IsIssued ca domains cert key_pair
      → Hoare IsOld (install ca cache cert key) (λ u m. IsDone (cert, key) m) IsLeft
  install-Done cert key key_pair issued =
      Hoare-weaken (λ m. into _) (install-pair cache old domains cert key key_pair issued)

  pub until-Old : (order : Order) → Keeps IsOld IsLeft left (Unit {0}) (until_ready ca order)
  until-Old order = until_ready-Closed IsOld-Closed (Keeps-dropped IsOld IsLeft left) order

  -- The write of `issued_at` keeps the pair.
  pub stamp :
      (pair : String × String) (time : ℕ)
      → Hoare
          (IsDone pair)
          (ignoring (write (join cache "issued_at") (show time)))
          (λ u m. IsDone pair m)
          IsLeft
  stamp pair time = record {
    run = λ m h. pair-write_other cache "issued_at" (show time) m.disk refl refl ∙ h;
  }

  pub done :
      (pair : String × String)
      → IsGot ca domains pair
      → Hoare (IsDone pair) (pure pair) (λ p m. IsDone p m × IsGot ca domains p) IsLeft
  done pair got = record { run = λ m h. (h, got) }

  pub serve-Old :
      (challenges : List (String × String)) → Hoare IsOld (serve challenges) (λ u m. IsOld m) IsLeft
  serve-Old challenges = record { run = λ m h. h }

  pub time-Done :
      (pair : String × String) → Hoare (IsDone pair) seconds_now (λ t m. IsDone pair m) IsLeft
  time-Done pair = record { run = λ m h. h }

  pub stamp_or_fail :
      (pair : String × String) (time : ℕ)
      → ((p : Option String × Option String) → p ≡ (some pair.0, some pair.1) → E p)
      → Hoare
          (IsDone pair)
          (on_disk "write issued_at: " (write (join cache "issued_at") (show time)))
          (λ u m. IsDone pair m)
          IsLeft
  stamp_or_fail pair time given =
      Hoare-on_disk (IsInstalled cache pair) (IsInstalled cache pair) (λ d. E (pair_of cache d)) _ _
        (λ d h done. pair-write_other cache "issued_at" (show time) d refl refl ∙ h)
        (λ d e h broken. given _ (pair-write_other cache "issued_at" (show time) d refl refl ∙ h))
