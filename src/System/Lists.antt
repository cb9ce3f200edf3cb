-- ===== src/System/Lists.antt =====
-- Writing and removing at an index of a list.
use mathlib.Core.Path.{subst}
use mathlib.Core.Option.{some_inj}
use prismproxy.Prelude.{
  ℕ, zero, suc, ◌≡◌, ◌≢◌, refl, sym, ap, ◌∙◌, some, List, [], ◌∷◌, map, get_elem?, All,
}
use prismproxy.System.Base.{set_at, remove_at}

module _ {ℓ} {A : Type ℓ} where
  pub get_elem?-set_at :
      (i : ℕ) (a b : A) (xs : List A)
      → get_elem? xs i ≡ some a
      → get_elem? (set_at i b xs) i ≡ some b
  get_elem?-set_at i a b [] h = cc
  get_elem?-set_at zero a b (x ∷ xs) h = refl
  get_elem?-set_at (suc i) a b (x ∷ xs) h = get_elem?-set_at i a b xs h

  pub get_elem?-set_at_other :
      (i j : ℕ) (b : A) (xs : List A) → i ≢ j → get_elem? (set_at i b xs) j ≡ get_elem? xs j
  get_elem?-set_at_other i j b [] other = refl
  get_elem?-set_at_other zero zero b (x ∷ xs) other = absurd (other refl)
  get_elem?-set_at_other zero (suc j) b (x ∷ xs) other = refl
  get_elem?-set_at_other (suc i) zero b (x ∷ xs) other = refl
  get_elem?-set_at_other (suc i) (suc j) b (x ∷ xs) other =
      get_elem?-set_at_other i j b xs (λ e. other (ap suc e))

  -- Where a function does not see the difference.
  pub map-set_at {κ} :
      {B : Type κ} (f : A → B) (i : ℕ) (a b : A) (xs : List A)
      → get_elem? xs i ≡ some a
      → f b ≡ f a
      → map f (set_at i b xs) ≡ map f xs
  map-set_at f i a b [] h same = refl
  map-set_at f zero a b (x ∷ xs) h same = ap (λ y. y ∷ map f xs) (same ∙ ap f (sym (some_inj.0 h)))
  map-set_at f (suc i) a b (x ∷ xs) h same = ap (◌∷◌ (f x)) (map-set_at f i a b xs h same)

  pub All-remove_at {κ} : (P : A → Type κ) (i : ℕ) (xs : List A) → All P xs → All P (remove_at i xs)
  All-remove_at P i [] h = tt
  All-remove_at P zero (x ∷ xs) h = h.1
  All-remove_at P (suc i) (x ∷ xs) h = (h.0, All-remove_at P i xs h.1)

  pub All-get_elem? {κ} :
      (P : A → Type κ) (i : ℕ) (a : A) (xs : List A) → All P xs → get_elem? xs i ≡ some a → P a
  All-get_elem? P i a [] h at = cc
  All-get_elem? P zero a (x ∷ xs) h at = subst P (some_inj.0 at) h.0
  All-get_elem? P (suc i) a (x ∷ xs) h at = All-get_elem? P i a xs h.1 at
