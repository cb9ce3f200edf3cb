-- ===== src/Exec.antt =====
-- Asynchronous code over a state: a future that returns, returns a `ProxyError`, panics, or is
-- dropped at an await because the deadline of `tokio::time::timeout` came first. What was done to
-- the state before such an end stays done.
pub mod Hoare
pub mod Settling
use prismproxy.Prelude.{◌≡◌, refl, Option, none, some, Result, ok, err}
use mathlib.Core.Path.{subst}
use prismproxy.Errors.{ProxyError}

pub data Flow {ℓ} (A : Type ℓ) : Type ℓ where
  returns : A → Flow A
  fails : ProxyError → Flow A
  panics : Flow A
  elapsed : Flow A

abbrev pub Exec {ℓ κ} : Type ℓ → Type κ → Type (ℓ ⊔ κ)
Exec S A = S → Flow A × S

abbrev pub flow_of {ℓ} : {A : Type ℓ} → Result A ProxyError → Flow A
flow_of (ok a) = returns a
flow_of (err e) = fails e

abbrev pub flow_or_panic {ℓ} : {A : Type ℓ} → Option A → Flow A
flow_or_panic none = panics
flow_or_panic (some a) = returns a

module _ {ℓ κ} {S : Type ℓ} {A : Type κ} where
  abbrev pub pure : A → Exec S A
  pure a s = (returns a, s)

  abbrev pub raise : ProxyError → Exec S A
  raise e s = (fails e, s)

  -- `?` on a result
  abbrev pub lift : Result A ProxyError → Exec S A
  lift r s = (flow_of r, s)

  -- `unwrap`
  abbrev pub unwrap : Option A → Exec S A
  unwrap o s = (flow_or_panic o, s)

module _ {ℓ κ μ} {S : Type ℓ} {A : Type κ} {B : Type μ} where
  abbrev pub continue : Flow A → (A → Exec S B) → Exec S B
  continue (returns a) f s = f a s
  continue (fails e) f s = (fails e, s)
  continue panics f s = (panics, s)
  continue elapsed f s = (elapsed, s)

  infixl 5 ◌>>=◌
  abbrev pub ◌>>=◌ : Exec S A → (A → Exec S B) → Exec S B
  ◌>>=◌ m f s = let r = m s in continue r.0 f r.1

infixl 5 ◌>>◌
abbrev pub ◌>>◌ {ℓ κ} : {S : Type ℓ} {B : Type κ} → Exec S (Unit {0}) → Exec S B → Exec S B
m >> k = m >>= λ _. k

-- The step that returned before a step that returned.
pub continue-eq-returns {ℓ κ μ} :
    {S : Type ℓ} {A : Type κ} {B : Type μ} (r : Flow A) (f : A → Exec S B) (s : S) {b : B}
    → (continue r f s).0 ≡ returns b
    → (a : A) × (r ≡ returns a) × ((f a s).0 ≡ returns b)
continue-eq-returns (returns a) f s h = (a, refl, h)
continue-eq-returns (fails e) f s h = cc
continue-eq-returns panics f s h = cc
continue-eq-returns elapsed f s h = cc

-- Whatever the code returns satisfies `P`.
pub record Yields {ℓ κ μ} {S : Type ℓ} {A : Type κ} (P : A → Type μ) (m : Exec S A)
    : Type (ℓ ⊔ κ ⊔ μ) where
  pub holds : (s : S) (a : A) → (m s).0 ≡ returns a → P a

pub Yields-bind {ℓ κ μ ν} :
    {S : Type ℓ} {A : Type κ} {B : Type μ} {P : B → Type ν} (m : Exec S A) (f : A → Exec S B)
    → ((a : A) → Yields P (f a))
    → Yields P (m >>= f)
Yields-bind m f hf = record {
  holds =
      λ s b h. let (a, _, e) = continue-eq-returns (m s).0 f (m s).1 h in (hf a).holds (m s).1 b e;
}

pub returns-injective {ℓ} : {A : Type ℓ} {a b : A} → returns a ≡ returns b → a ≡ b
returns-injective e = cc

pub Yields-pure {ℓ κ μ} :
    {S : Type ℓ} {A : Type κ} {P : A → Type μ} (a : A) → P a → Yields P (pure {S = S} a)
Yields-pure {P} a p = record { holds = λ s b e. subst P (returns-injective e) p }

-- The rest may use what a step yields.
pub Yields-bind_given {ℓ κ μ ν ρ} :
    {S : Type ℓ} {A : Type κ} {B : Type μ} (R : A → Type ρ) {P : B → Type ν} (m : Exec S A)
    (f : A → Exec S B)
    → Yields R m
    → ((a : A) → R a → Yields P (f a))
    → Yields P (m >>= f)
Yields-bind_given R m f hm hf = record {
  holds = λ s b h.
      let (a, at, e) = continue-eq-returns (m s).0 f (m s).1 h in
      (hf a (hm.holds s a at)).holds (m s).1 b e;
}
