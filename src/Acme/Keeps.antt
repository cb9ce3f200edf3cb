-- ===== src/Acme/Keeps.antt =====
-- What acme.rs's handling of an order leaves alone: all but the world of the CA and the challenges.
use prismproxy.Prelude.{String, List, ◌≡◌, Result, ok, err, map_err, Result-cases, inl, inr}
use prismproxy.Errors.{ProxyError}
use prismproxy.Exec.{Exec, flow_of}
use prismproxy.Exec.Hoare.{Ends, Hoare, Hoare-bind, Hoare-lift}
use prismproxy.Disk.{Disk, Operation}
use prismproxy.Acme.Base.{Ca, Machine, failure, on_disk, dropped, publish, tell}
use prismproxy.Acme.Parts.{Closed}

module _ {ca : Ca} (I E : Machine ca → Type 0) (into : (m : Machine ca) → I m → E m) where
  -- Code that keeps `I`, or ends otherwise in `E`.
  abbrev pub Keeps : (A : Type 0) → Exec (Machine ca) A → Type 0
  Keeps A m = Hoare I m (λ (a : A). I) E

  pub Ends-flow_of :
      {A : Type 0} (r : Result A ProxyError) (m : Machine ca)
      → I m
      → Ends (λ (a : A). I) E (flow_of r) m
  Ends-flow_of (ok a) m h = h
  Ends-flow_of (err e) m h = into m h

  pub Keeps-Closed :
      ((m : Machine ca) (w : ca.World) → I m → I (record m { world = w })) → Closed ca Keeps
  Keeps-Closed blind = record {
    of_bind = λ A B m f h k. Hoare-bind m f h k;
    of_call = λ A what operation. record {
      run = λ m h. Ends-flow_of (map_err (failure what) (operation m.world).0) _ (blind m _ h);
    };
    of_lift = λ A r. Hoare-lift r (λ a m h. h) into;
    of_pause = λ d. record { run = λ m h. blind m _ h };
    of_instant = record { run = λ m h. h };
  }

  pub Keeps-dropped : (A : Type 0) → Keeps A dropped
  Keeps-dropped A = record { run = into }

  pub Keeps-publish :
      ((m : Machine ca) (cs : List (String × String)) → I m → I (record m { challenges = cs }))
      → (token key_auth : String) → Keeps (Unit {0}) (publish token key_auth)
  Keeps-publish blind token key_auth = record { run = λ m h. blind m _ h }

  pub Keeps-tell :
      ((m : Machine ca) (w : ca.World) (told : List (String × List (String × String)))
        → I m
        → I (record m { world = w; told = told }))
      → (order : ca.Order) (url : String) → Keeps (Unit {0}) (tell order url)
  Keeps-tell blind order url = record {
    run = λ m h.
        Ends-flow_of
          (map_err (failure "set challenge ready: ") (ca.set_challenge_ready order url m.world).0) _
          (blind m _ _ h);
  }

module _ {ca : Ca} (PD QD ED : Disk → Type 0) where
  -- A step on the disk, from what its operation does.
  pub Hoare-on_disk :
      (what : String) (operation : Operation)
      → ((d : Disk) → PD d → (operation d).0 ≡ ok tt → QD (operation d).1)
      → ((d : Disk) (e : String) → PD d → (operation d).0 ≡ err e → ED (operation d).1)
      → Hoare
          (λ (m : Machine ca). PD m.disk)
          (on_disk what operation)
          (λ (u : Unit {0}) m. QD m.disk)
          (λ m. ED m.disk)
  Hoare-on_disk what operation good bad = record {
    run = λ m h. elim (Result-cases (operation m.disk).0) [
      | inl (u, done) ↦ rw done (good m.disk h done)
      | inr (e, broken) ↦ rw broken (bad m.disk e h broken)
    ];
  }
