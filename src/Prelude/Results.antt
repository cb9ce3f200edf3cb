-- ===== src/Prelude/Results.antt =====
-- `std::result::Result`, with `?` as `do`.
use mathlib.Core.Option.{Option, none, some}
use mathlib.Core.Path.{◌≡◌, refl}
use mathlib.Core.Logic.{◌⊎◌, inl, inr}

pub data Result {ℓ κ} (A : Type ℓ) (E : Type κ) : Type (ℓ ⊔ κ) where
  ok : A → Result A E
  err : E → Result A E

module _ {ℓ κ} {A : Type ℓ} {E : Type κ} where
  infixl 5 ◌>>=◌
  abbrev pub ◌>>=◌ {μ} : {B : Type μ} → Result A E → (A → Result B E) → Result B E
  ok a >>= f = f a
  err e >>= f = err e

  abbrev pub ok_or : Option A → E → Result A E
  ok_or none e = err e
  ok_or (some a) e = ok a

  abbrev pub map_err {μ} : {F : Type μ} → (E → F) → Result A E → Result A F
  map_err f (ok a) = ok a
  map_err f (err e) = err (f e)

infixl 5 ◌>>◌
abbrev pub ◌>>◌ {ℓ κ} : {B : Type ℓ} {E : Type κ} → Result (Unit {0}) E → Result B E → Result B E
m >> k = m >>= λ _. k

pub Result-cases {ℓ κ} :
    {A : Type ℓ} {E : Type κ} (r : Result A E) → ((a : A) × (r ≡ ok a)) ⊎ ((e : E) × (r ≡ err e))
Result-cases (ok a) = inl (a, refl)
Result-cases (err e) = inr (e, refl)

module _ {ℓ κ} {A : Type ℓ} {E : Type κ} where
  pub ok_inj : {a b : A} → ◌≡◌ {A = Result A E} (ok a) (ok b) → a ≡ b
  ok_inj h = cc

  pub err_inj : {e f : E} → ◌≡◌ {A = Result A E} (err e) (err f) → e ≡ f
  err_inj h = cc

-- Inversions of a chain that succeeds.
module _ {ℓ κ μ} {A : Type ℓ} {E : Type κ} {B : Type μ} where
  pub >>=-eq-ok :
      (r : Result A E) (k : A → Result B E) {b : B}
      → (r >>= k) ≡ ok b
      → (a : A) × (r ≡ ok a) × (k a ≡ ok b)
  >>=-eq-ok (ok a) k h = (a, refl, h)
  >>=-eq-ok (err e) k h = cc

  pub map_err-eq-ok {ν} :
      {F : Type ν} (f : F → E) (r : Result A F) (k : A → Result B E) {b : B}
      → (map_err f r >>= k) ≡ ok b
      → (a : A) × (r ≡ ok a) × (k a ≡ ok b)
  map_err-eq-ok f (ok a) k h = (a, refl, h)
  map_err-eq-ok f (err e) k h = cc
