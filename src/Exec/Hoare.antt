-- ===== src/Exec/Hoare.antt =====
-- Contracts of code over a state: from a state with `P` it returns with `Q`, or ends otherwise (by
-- an error, a panic or a cut) in a state with `E`.
use mathlib.Core.Path.{subst}
use prismproxy.Prelude.{refl, ◌≡◌, Result, ok, err}
use prismproxy.Errors.{ProxyError}
use prismproxy.Exec.{
  Yields, Flow, returns, fails, panics, elapsed, Exec, pure, raise, lift, flow_of, continue, ◌>>=◌,
}

abbrev pub Ends {ℓ κ μ} :
    {S : Type ℓ} {A : Type κ} → (A → S → Type μ) → (S → Type μ) → Flow A → S → Type μ
Ends Q E (returns a) s = Q a s
Ends Q E (fails e) s = E s
Ends Q E panics s = E s
Ends Q E elapsed s = E s

pub record Hoare {ℓ κ μ} {S : Type ℓ} {A : Type κ} (P : S → Type μ) (m : Exec S A)
    (Q : A → S → Type μ) (E : S → Type μ) : Type (ℓ ⊔ κ ⊔ μ) where
  pub run : (s : S) → P s → Ends Q E (m s).0 (m s).1

module _ {ℓ κ μ} {S : Type ℓ} {A : Type κ} (Q : A → S → Type μ) (E : S → Type μ) where
  Ends-lift : (r : Result A ProxyError) (s : S) → ((a : A) → Q a s) → E s → Ends Q E (flow_of r) s
  Ends-lift (ok a) s q e = q a
  Ends-lift (err x) s q e = e

module _ {ℓ κ μ} {S : Type ℓ} {A : Type κ} {P : S → Type μ} {Q : A → S → Type μ}
    {E : S → Type μ} where
  pub Hoare-lift :
      (r : Result A ProxyError)
      → ((a : A) (s : S) → P s → Q a s)
      → ((s : S) → P s → E s)
      → Hoare P (lift r) Q E
  Hoare-lift r q e = record { run = λ s p. Ends-lift Q E r s (λ a. q a s p) (e s p) }

  pub Hoare-raise : (x : ProxyError) → ((s : S) → P s → E s) → Hoare P (raise x) Q E
  Hoare-raise x e = record { run = e }

  pub Hoare-pure : (a : A) → ((s : S) → P s → Q a s) → Hoare P (pure a) Q E
  Hoare-pure a q = record { run = q }

module _ {ℓ κ ν μ} {S : Type ℓ} {A : Type κ} {B : Type ν} (R : A → S → Type μ) (Q : B → S → Type μ)
    (E : S → Type μ) where
  Ends-continue :
      (r : Flow A) (f : A → Exec S B) (s : S)
      → Ends R E r s
      → ((a : A) → Hoare (R a) (f a) Q E)
      → Ends Q E (continue r f s).0 (continue r f s).1
  Ends-continue (returns a) f s h k = (k a).run s h
  Ends-continue (fails e) f s h k = h
  Ends-continue panics f s h k = h
  Ends-continue elapsed f s h k = h

module _ {ℓ κ ν μ} {S : Type ℓ} {A : Type κ} {B : Type ν} {P : S → Type μ} {R : A → S → Type μ}
    {Q : B → S → Type μ} {E : S → Type μ} where
  pub Hoare-bind :
      (m : Exec S A) (f : A → Exec S B)
      → Hoare P m R E
      → ((a : A) → Hoare (R a) (f a) Q E)
      → Hoare P (m >>= f) Q E
  Hoare-bind m f h k = record { run = λ s p. Ends-continue R Q E (m s).0 f (m s).1 (h.run s p) k }

module _ {ℓ κ μ} {S : Type ℓ} {A : Type κ} {E F : S → Type μ} (Q : A → S → Type μ) where
  Ends-weaken : (r : Flow A) (s : S) → ((t : S) → E t → F t) → Ends Q E r s → Ends Q F r s
  Ends-weaken (returns a) s w h = h
  Ends-weaken (fails e) s w h = w s h
  Ends-weaken panics s w h = w s h
  Ends-weaken elapsed s w h = w s h

module _ {ℓ κ μ} {S : Type ℓ} {A : Type κ} {Q : A → S → Type μ} {E F : S → Type μ} where
  pub Hoare-weaken :
      {P : S → Type μ} {m : Exec S A} → ((t : S) → E t → F t) → Hoare P m Q E → Hoare P m Q F
  Hoare-weaken {m} w h = record { run = λ s p. Ends-weaken Q (m s).0 (m s).1 w (h.run s p) }

-- What holds where the code has returned.
pub Ends-eq-returns {ℓ κ μ} :
    {S : Type ℓ} {A : Type κ} (Q : A → S → Type μ) (E : S → Type μ) (r : Flow A) (s : S) (a : A)
    → r ≡ returns a
    → Ends Q E r s
    → Q a s
Ends-eq-returns Q E r s a e h = subst (λ x. Ends Q E x s) e h

module _ {ℓ κ ν μ ρ} {S : Type ℓ} {A : Type κ} {B : Type ν} (R : A → S → Type μ)
    (Q : B → S → Type μ) (E : S → Type μ) (Y : A → Type ρ) where
  Ends-continue_given :
      (r : Flow A) (f : A → Exec S B) (s : S)
      → ((a : A) → r ≡ returns a → Y a)
      → Ends R E r s
      → ((a : A) → Y a → Hoare (R a) (f a) Q E)
      → Ends Q E (continue r f s).0 (continue r f s).1
  Ends-continue_given (returns a) f s y h k = (k a (y a refl)).run s h
  Ends-continue_given (fails e) f s y h k = h
  Ends-continue_given panics f s y h k = h
  Ends-continue_given elapsed f s y h k = h

module _ {ℓ κ ν μ ρ} {S : Type ℓ} {A : Type κ} {B : Type ν} {P : S → Type μ} {R : A → S → Type μ}
    {Q : B → S → Type μ} {E : S → Type μ} (Y : A → Type ρ) where
  -- The rest may use what a step yields.
  pub Hoare-bind_given :
      (m : Exec S A) (f : A → Exec S B)
      → Yields Y m
      → Hoare P m R E
      → ((a : A) → Y a → Hoare (R a) (f a) Q E)
      → Hoare P (m >>= f) Q E
  Hoare-bind_given m f y h k = record {
    run = λ s p. Ends-continue_given R Q E Y (m s).0 f (m s).1 (λ a. y.holds s a) (h.run s p) k;
  }
