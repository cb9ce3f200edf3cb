-- ===== src/Acme/Unchanged.antt =====
-- What acme.rs does once a provisioning has ended leaves the certificate and its key alone.
use mathlib.Core.Path.{subst}
use prismproxy.Prelude.{String, ◌≡◌, refl, sym, ap, ◌∙◌, Option}
use prismproxy.Exec.{Flow, returns, fails, panics, elapsed, Exec}
use prismproxy.Exec.Hoare.{Ends, Hoare}
use prismproxy.Acme.Base.{Ca, Machine, closing}
use prismproxy.Acme.Pair.{pair_of, pair-remove}
use prismproxy.Acme.{clean_up, cleaning, clear_store, clearing}

module _ {ca : Ca} {A : Type 0} (cache : String) (R : A → Option String × Option String → Type 0)
    (F : Option String × Option String → Type 0) where
  -- What is known of the pair at an end still holds where the pair is the same.
  Ends-same_pair :
      (r : Flow A) (m n : Machine ca)
      → pair_of cache n.disk ≡ pair_of cache m.disk
      → Ends (λ a (u : Machine ca). R a (pair_of cache u.disk)) (λ u. F (pair_of cache u.disk)) r m
      → Ends (λ a (u : Machine ca). R a (pair_of cache u.disk)) (λ u. F (pair_of cache u.disk)) r n
  Ends-same_pair (returns a) m n e h = subst (R a) (sym e) h
  Ends-same_pair (fails x) m n e h = subst F (sym e) h
  Ends-same_pair panics m n e h = subst F (sym e) h
  Ends-same_pair elapsed m n e h = subst F (sym e) h

  pub closing-pair :
      {P : Machine ca → Type 0} (body : Exec (Machine ca) A)
      → Hoare P body
          (λ a (u : Machine ca). R a (pair_of cache u.disk))
          (λ u. F (pair_of cache u.disk))
      → Hoare P
          (closing body)
          (λ a (u : Machine ca). R a (pair_of cache u.disk))
          (λ u. F (pair_of cache u.disk))
  closing-pair body h = record {
    run = λ m p. Ends-same_pair (body m).0 (body m).1 _ refl (h.run m p);
  }

  clean_up-pair :
      (r : Flow A) (m : Machine ca)
      → pair_of cache (clean_up ca cache r m).1.disk ≡ pair_of cache m.disk
  clean_up-pair (returns a) m = pair-remove cache ".renewing" m.disk refl refl
  clean_up-pair (fails e) m =
      pair-remove cache "key.pem.tmp" _ refl refl
      ∙ pair-remove cache "cert.pem.tmp" _ refl refl
      ∙ pair-remove cache ".renewing" m.disk refl refl
  clean_up-pair panics m = refl
  clean_up-pair elapsed m = refl

  pub cleaning-pair :
      {P : Machine ca → Type 0} (inner : Exec (Machine ca) A)
      → Hoare P inner
          (λ a (u : Machine ca). R a (pair_of cache u.disk))
          (λ u. F (pair_of cache u.disk))
      → Hoare P
          (cleaning ca cache inner)
          (λ a (u : Machine ca). R a (pair_of cache u.disk))
          (λ u. F (pair_of cache u.disk))
  unfolding cleaning
  cleaning-pair inner h = record {
    run = λ m p.
        Ends-same_pair (inner m).0 (inner m).1 _ (clean_up-pair (inner m).0 (inner m).1)
          (h.run m p);
  }

  clear_store-disk : (r : Flow A) (m : Machine ca) → (clear_store ca r m).disk ≡ m.disk
  clear_store-disk (returns a) m = refl
  clear_store-disk (fails e) m = refl
  clear_store-disk panics m = refl
  clear_store-disk elapsed m = refl

  pub clearing-pair :
      {P : Machine ca → Type 0} (body : Exec (Machine ca) A)
      → Hoare P body
          (λ a (u : Machine ca). R a (pair_of cache u.disk))
          (λ u. F (pair_of cache u.disk))
      → Hoare P
          (clearing ca body)
          (λ a (u : Machine ca). R a (pair_of cache u.disk))
          (λ u. F (pair_of cache u.disk))
  clearing-pair body h = record {
    run = λ m p.
        Ends-same_pair (body m).0 (body m).1 _
          (ap (pair_of cache) (clear_store-disk (body m).0 (body m).1)) (h.run m p);
  }
