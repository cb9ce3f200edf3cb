-- ===== src/Exec/Settling.antt =====
-- Code that ends by itself: neither in a panic nor cut off.
use prismproxy.Prelude.{Bool, true, false, if◌then◌else◌, Result, ok, err}
use prismproxy.Errors.{ProxyError}
use prismproxy.Exec.{Flow, returns, fails, panics, elapsed, Exec, flow_of, continue, ◌>>=◌}

abbrev pub Settles {ℓ} : {A : Type ℓ} → Flow A → Type 0
Settles (returns a) = Unit
Settles (fails e) = Unit
Settles panics = ⊥
Settles elapsed = ⊥

pub Settles-continue :
    {S A B : Type 0} (r : Flow A) (f : A → Exec S B) (t : S)
    → Settles r
    → ((a : A) (u : S) → Settles (f a u).0)
    → Settles (continue r f t).0
Settles-continue (returns a) f t h hf = hf a t
Settles-continue (fails e) f t h hf = tt
Settles-continue panics f t h hf = absurd h
Settles-continue elapsed f t h hf = absurd h

-- The same, where the rest needs to settle only in the state that is reached.
pub Settles-continue_at :
    {S A B : Type 0} (r : Flow A) (f : A → Exec S B) (t : S)
    → Settles r
    → ((a : A) → Settles (f a t).0)
    → Settles (continue r f t).0
Settles-continue_at (returns a) f t h hf = hf a
Settles-continue_at (fails e) f t h hf = tt
Settles-continue_at panics f t h hf = absurd h
Settles-continue_at elapsed f t h hf = absurd h

pub Settles-flow_of : {A : Type 0} (r : Result A ProxyError) → Settles (flow_of r)
Settles-flow_of (ok a) = tt
Settles-flow_of (err e) = tt

pub Settles-if :
    {S A : Type 0} (b : Bool) (m n : Exec S A) (t : S)
    → Settles (m t).0
    → Settles (n t).0
    → Settles ((if b then m else n) t).0
Settles-if true m n t hm hn = hm
Settles-if false m n t hm hn = hn

-- Code that ends by itself from every state.
pub record Terminates {S A : Type 0} (m : Exec S A) : Type 0 where
  pub ends : (s : S) → Settles (m s).0

pub Terminates-bind :
    {S A B : Type 0} (m : Exec S A) (f : A → Exec S B)
    → Terminates m
    → ((a : A) → Terminates (f a))
    → Terminates (m >>= f)
Terminates-bind m f h hf = record {
  ends = λ s. Settles-continue (m s).0 f (m s).1 (h.ends s) λ a. (hf a).ends;
}
