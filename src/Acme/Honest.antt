-- ===== src/Acme/Honest.antt =====
-- acme.rs tells the CA of a challenge only once it can be fetched.
use mathlib.Core.Path.{subst}
use prismproxy.Prelude.{
  All, sym, String, ◌≡◌, refl, Bool, true, false, inl, inr, Option-cases, List, [], ◌∷◌, ◌++◌,
  insert, map_err, Result, ok, err,
}
use prismproxy.Errors.{ProxyError}
use prismproxy.Exec.{Flow, returns, fails, panics, elapsed, Exec, flow_of, lift}
use prismproxy.Exec.Hoare.{Ends, Hoare, Hoare-bind}
use prismproxy.State.{join}
use prismproxy.Disk.{Operation, write, rename, exists, create_dir_all}
use prismproxy.Acme.Base.{Ca, Machine, Authorization, failure, on_disk, ignoring, tell}
use prismproxy.Acme.Steps.{find_http01, collect_challenges, store_challenges, set_ready}
use prismproxy.Acme.Parts.{Closed}
use prismproxy.Acme.Keeps.{Keeps-Closed, Ends-flow_of}
use prismproxy.Acme.Origin.{Answers}
use prismproxy.Acme.Offers.{
  KeyLaw, find_http01-member, All-get_elem?, IsAuthorization, IsHonest, AllServed, Offers,
  AllServed-more,
}
use prismproxy.Acme.{install, lock_unless, lock, clean_up, cleaning, clear_store, clearing}

abbrev pub Honestly : (ca : Ca) {A : Type 0} → Exec (Machine ca) A → Type 0
Honestly ca m = Hoare (IsHonest ca) m (λ a. IsHonest ca) (IsHonest ca)

abbrev pub honest-Closed : (ca : Ca) → Closed ca (λ A. Honestly ca)
honest-Closed ca = Keeps-Closed (IsHonest ca) (IsHonest ca) (λ m h. h) (λ m w h. h)

module _ {ca : Ca} (laws : KeyLaw ca) (order : ca.Order) where
  open ca use {key_authorization}

  -- What stays known where `tell` ends, well or not.
  Ends-told :
      (Q : Machine ca → Type 0) (r : Result (Unit {0}) ProxyError) (m : Machine ca)
      → Q m
      → IsHonest ca m
      → Ends (λ (u : Unit {0}). Q) (IsHonest ca) (flow_of r) m
  Ends-told Q (ok u) m q h = q
  Ends-told Q (err e) m q h = h

  pub set_ready-Honest :
      (urls : List String)
      → Hoare (Offers ca order urls) (set_ready ca order urls) (λ u. IsHonest ca) (IsHonest ca)
  unfolding set_ready
  set_ready-Honest [] = record { run = λ m h. h.0 }
  set_ready-Honest (url ∷ urls) =
      Hoare-bind (tell order url) _
        (record {
          run = λ m h.
              Ends-told (Offers ca order urls)
                (map_err (failure "set challenge ready: ")
                  (ca.set_challenge_ready order url m.world).0)
                _ (((order, h.1.0), h.0), h.1.1) ((order, h.1.0), h.0);
        })
        λ _. set_ready-Honest urls

  -- The authorizations that a call of the CA answered.
  pub answered-authorizations :
      (auths : List Authorization)
      → Answers (ca.authorizations order) auths
      → All (IsAuthorization ca order) auths
  answered-authorizations auths answer =
      All-get_elem? _ auths (λ i auth at. (auths, answer, (i, at)))

  pub store_challenges-Offers :
      (auths : List Authorization) (urls : List String)
      → All (IsAuthorization ca order) auths
      → Hoare
          (Offers ca order urls)
          (store_challenges ca order auths urls)
          (Offers ca order)
          (IsHonest ca)
  unfolding store_challenges
  store_challenges-Offers [] urls given = record { run = λ m h. h }
  store_challenges-Offers (auth ∷ auths) urls given = record {
    run = λ m h. elim (Option-cases (find_http01 auth)) [
      | inl missing ↦ rw missing h.0
      | inr (c, found) ↦ rw found (
          (store_challenges-Offers auths (urls ++ c.url ∷ []) given.1).run
            (record m { challenges = insert c.token (key_authorization order c) m.challenges })
            (
              h.0,
              let (http, at) = find_http01-member auth c found in
                  AllServed-more laws order c m.challenges urls http (auth, given.0, at) h.1,
            ))
    ];
  }

  -- What `collect_challenges` gives.
  abbrev Gives : Result (List (String × String) × List String) ProxyError → Type 0
  Gives (ok collected) = AllServed ca order collected.0 collected.1
  Gives (err e) = Unit

  collect_challenges-Gives :
      (auths : List Authorization) (challenges : List (String × String)) (urls : List String)
      → All (IsAuthorization ca order) auths
      → AllServed ca order challenges urls
      → Gives (collect_challenges ca order auths challenges urls)
  unfolding collect_challenges
  collect_challenges-Gives [] challenges urls given h = h
  collect_challenges-Gives (auth ∷ auths) challenges urls given h =
      elim (Option-cases (find_http01 auth)) [
        | inl missing ↦ rw missing tt
        | inr (c, found) ↦ rw found (
            collect_challenges-Gives auths (insert c.token (key_authorization order c) challenges)
              (urls ++ c.url ∷ []) given.1
              (let (http, at) = find_http01-member auth c found in
                AllServed-more laws order c challenges urls http (auth, given.0, at) h))
      ]

  abbrev pub Collected : List (String × String) × List String → Machine ca → Type 0
  Collected collected m = IsHonest ca m × AllServed ca order collected.0 collected.1

  Ends-Collected :
      (r : Result (List (String × String) × List String) ProxyError) (m : Machine ca)
      → Gives r
      → IsHonest ca m
      → Ends Collected (IsHonest ca) (flow_of r) m
  Ends-Collected (ok collected) m g h = (h, g)
  Ends-Collected (err e) m g h = h

  pub collecting :
      (auths : List Authorization)
      → All (IsAuthorization ca order) auths
      → Hoare (IsHonest ca) (lift (collect_challenges ca order auths [] [])) Collected (IsHonest ca)
  collecting auths given = record {
    run = λ m h. Ends-Collected _ m (collect_challenges-Gives auths [] [] given tt) h;
  }

module _ {ca : Ca} where
  pub on_disk-Honest :
      (what : String) (operation : Operation) → Honestly ca (on_disk what operation)
  on_disk-Honest what operation = record {
    run = λ m h.
        Ends-flow_of (IsHonest ca) (IsHonest ca) (λ m h. h)
          (map_err (failure what) (operation m.disk).0) _ h;
  }

  pub ignoring-Honest : (operation : Operation) → Honestly ca (ignoring operation)
  ignoring-Honest operation = record { run = λ m h. h }

  pub install-Honest : (cache cert key : String) → Honestly ca (install ca cache cert key)
  unfolding install
  install-Honest cache cert key =
      Hoare-bind (on_disk "write cert.pem.tmp: " (write (join cache "cert.pem.tmp") cert)) _
        (on_disk-Honest _ _)
        λ _.
          Hoare-bind (on_disk "write key.pem.tmp: " (write (join cache "key.pem.tmp") key)) _
            (on_disk-Honest _ _)
            λ _.
              Hoare-bind
                (on_disk "rename cert.pem: "
                  (rename (join cache "cert.pem.tmp") (join cache "cert.pem")))
                _ (on_disk-Honest _ _)
                λ _. on_disk-Honest _ (rename (join cache "key.pem.tmp") (join cache "key.pem"))

  lock_unless-Honest : (b : Bool) (path : String) → Honestly ca (lock_unless ca b path)
  lock_unless-Honest true path = record { run = λ m h. h }
  lock_unless-Honest false path = on_disk-Honest "create lockfile: " (write path "")

  pub lock-Honest : (cache : String) → Honestly ca (lock ca cache)
  lock-Honest cache =
      Hoare-bind (on_disk "create cache_dir: " create_dir_all) _ (on_disk-Honest _ _) λ _. record {
        run = λ m. (lock_unless-Honest (exists (join cache ".renewing") m.disk) _).run m;
      }

  -- What is told stays told: the end of a computation keeps what it told.
  pub Ends-IsHonest :
      {A : Type 0} (r : Flow A) (m n : Machine ca)
      → n.told ≡ m.told
      → Ends (λ (a : A). IsHonest ca) (IsHonest ca) r m
      → Ends (λ (a : A). IsHonest ca) (IsHonest ca) r n
  Ends-IsHonest (returns a) m n e h = subst (All _) (sym e) h
  Ends-IsHonest (fails x) m n e h = subst (All _) (sym e) h
  Ends-IsHonest panics m n e h = subst (All _) (sym e) h
  Ends-IsHonest elapsed m n e h = subst (All _) (sym e) h

  clean_up-told :
      {A : Type 0} (cache : String) (r : Flow A) (m : Machine ca)
      → (clean_up ca cache r m).1.told ≡ m.told
  clean_up-told cache (returns a) m = refl
  clean_up-told cache (fails e) m = refl
  clean_up-told cache panics m = refl
  clean_up-told cache elapsed m = refl

  clear_store-told : {A : Type 0} (r : Flow A) (m : Machine ca) → (clear_store ca r m).told ≡ m.told
  clear_store-told (returns a) m = refl
  clear_store-told (fails e) m = refl
  clear_store-told panics m = refl
  clear_store-told elapsed m = refl

  pub clearing-Honest :
      {A : Type 0} (body : Exec (Machine ca) A) → Honestly ca body → Honestly ca (clearing ca body)
  clearing-Honest body h = record {
    run = λ m p.
        Ends-IsHonest (body m).0 (body m).1 _ (clear_store-told (body m).0 (body m).1) (h.run m p);
  }

  pub cleaning-Honest :
      {A : Type 0} (cache : String) (body : Exec (Machine ca) A)
      → Honestly ca body
      → Honestly ca (cleaning ca cache body)
  unfolding cleaning
  cleaning-Honest cache body h = record {
    run = λ m p.
        Ends-IsHonest (body m).0 (body m).1 _ (clean_up-told cache (body m).0 (body m).1)
          (h.run m p);
  }
