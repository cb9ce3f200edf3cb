-- ===== src/Pool/Refinement.antt =====
-- pool.rs's map of vectors as one bounded stack of connections for each address.
use mathlib.Core.Path.{fun_ext, ap₂, subst}
use prismproxy.Prelude.{
  ℕ, ◌≤◌, ◌<◌, String, ◌≡◌, refl, sym, ap, ◌∙◌, Option, none, some, List, [], ◌∷◌, ◌++◌, arith,
  length, lookup, lookup-insert, ltb, if◌then◌else◌, Bool-cases, lt→ltb, str_eq, eq_iff, eq_refl,
  inl, inr,
}
use prismproxy.Pool.{
  Pool, Step, take, put, new, pop_idle, take_idle, or_default, release, apply, run,
}

-- The first element, if there is one.
abbrev pub top {ℓ} : {A : Type ℓ} → List A → Option A
top [] = none
top (x ∷ xs) = some x

abbrev pub rest {ℓ} : {A : Type ℓ} → List A → List A
rest [] = []
rest (x ∷ xs) = xs

module _ {ℓ} {Conn : Type ℓ} where
  -- The idle connections of an address, the newest first.
  pub stack : Pool Conn → String → List Conn
  stack p addr = or_default (lookup addr p.idle)

  -- A stack of at most `cap` connections for each address.
  abbrev pub push_bounded : ℕ → Conn → List Conn → List Conn
  push_bounded cap sender conns = if ltb (length conns) cap then sender ∷ conns else conns

  abbrev pub abstract_apply : ℕ → Step Conn → (String → List Conn) → String → List Conn
  abstract_apply cap (take addr) stacks j = if str_eq addr j then rest (stacks j) else stacks j
  abstract_apply cap (put addr sender) stacks j =
      if str_eq addr j then push_bounded cap sender (stacks j) else stacks j

  abbrev pub abstract_run : ℕ → List (Step Conn) → (String → List Conn) → String → List Conn
  abstract_run cap [] stacks = stacks
  abstract_run cap (s ∷ ss) stacks = abstract_run cap ss (abstract_apply cap s stacks)

  -- The locked section of `acquire` hands out the newest idle connection of the address, or none
  -- if the address has none.
  take_idle-top : (addr : String) (p : Pool Conn) → (take_idle addr p).0 ≡ top (stack p addr)
  unfolding take_idle stack
  take_idle-top addr p = ground arith

  stack-pop_idle :
      (addr : String) (p : Pool Conn) (j : String) (found : Option (List Conn))
      → lookup addr p.idle ≡ found
      → stack (pop_idle p addr found).1 j ≡ (if str_eq addr j then rest (stack p j) else stack p j)
  unfolding stack
  stack-pop_idle addr p j none e = ground (arith, eq_iff addr j)
  stack-pop_idle addr p j (some []) e = ground (arith, eq_iff addr j)
  stack-pop_idle addr p j (some (sender ∷ conns)) e =
      ground (arith, eq_iff addr j, lookup-insert addr j conns p.idle)

  stack-take_idle :
      (addr : String) (p : Pool Conn) (j : String)
      → stack (take_idle addr p).1 j ≡ (if str_eq addr j then rest (stack p j) else stack p j)
  unfolding take_idle
  stack-take_idle addr p j = stack-pop_idle addr p j (lookup addr p.idle) refl

  stack-release :
      (addr : String) (sender : Conn) (p : Pool Conn) (j : String)
      → stack (release addr sender p) j
        ≡ (if str_eq addr j then push_bounded p.max_idle_per_host sender (stack p j) else stack p j)
  unfolding release stack
  stack-release addr sender p j = ground (
    arith,
    eq_iff addr j,
    lookup-insert addr j (sender ∷ or_default (lookup addr p.idle)) p.idle,
    lookup-insert addr j (or_default (lookup addr p.idle)) p.idle,
  )

  stack-apply :
      (s : Step Conn) (p : Pool Conn) (j : String)
      → stack (apply s p) j ≡ abstract_apply p.max_idle_per_host s (stack p) j
  unfolding apply
  stack-apply (take addr) p j = stack-take_idle addr p j
  stack-apply (put addr sender) p j = stack-release addr sender p j

  cap-apply : (s : Step Conn) (p : Pool Conn) → (apply s p).max_idle_per_host ≡ p.max_idle_per_host
  unfolding apply
  cap-apply (take addr) p = ground arith
  cap-apply (put addr sender) p = ground arith

  pub stack-new : (cap : ℕ) (j : String) → stack (new cap) j ≡ []
  unfolding stack lookup
  stack-new cap j = refl

  -- A history of locked sections, of any tasks in any order, acts on the map as the same history
  -- acts on one stack for each address, with pushes dropped at the pool's bound.
  pub stack-run :
      (ss : List (Step Conn)) (p : Pool Conn)
      → stack (run ss p) ≡ abstract_run p.max_idle_per_host ss (stack p)
  unfolding run
  stack-run [] p = refl
  stack-run (s ∷ ss) p =
      stack-run ss (apply s p)
      ∙ ap₂ (λ cap. abstract_run cap ss) (cap-apply s p) (fun_ext (stack-apply s p))

  abstract_apply-bounded :
      (cap : ℕ) (s : Step Conn) (stacks : String → List Conn) (j : String)
      → length (stacks j) ≤ cap
      → length (abstract_apply cap s stacks j) ≤ cap
  abstract_apply-bounded cap (take addr) stacks j h = ground arith
  abstract_apply-bounded cap (put addr sender) stacks j h = ground arith

  abstract_run-bounded :
      (cap : ℕ) (ss : List (Step Conn)) (stacks : String → List Conn)
      → ((j : String) → length (stacks j) ≤ cap)
      → (j : String) → length (abstract_run cap ss stacks j) ≤ cap
  abstract_run-bounded cap [] stacks h j = h j
  abstract_run-bounded cap (s ∷ ss) stacks h j =
      abstract_run-bounded cap ss (abstract_apply cap s stacks)
        (λ k. abstract_apply-bounded cap s stacks k (h k)) j

  -- A history of locked sections keeps the bound on the idle connections of every address.
  pub run-keeps_bound :
      (ss : List (Step Conn)) (p : Pool Conn)
      → ((j : String) → length (stack p j) ≤ p.max_idle_per_host)
      → (j : String) → length (stack (run ss p) j) ≤ p.max_idle_per_host
  run-keeps_bound ss p h j =
      subst (λ stacks. length (stacks j) ≤ p.max_idle_per_host) (sym (stack-run ss p))
        (abstract_run-bounded p.max_idle_per_host ss (stack p) h j)

  -- After any history of locked sections from a new pool no address has more idle connections than
  -- the bound given to `new`.
  pub run-bounded :
      (ss : List (Step Conn)) (cap : ℕ) (j : String) → length (stack (run ss (new cap)) j) ≤ cap
  run-bounded ss cap j = run-keeps_bound ss (new cap) (λ k. rw (stack-new cap k) (omega arith)) j

  stack-release-room :
      (addr : String) (sender : Conn) (p : Pool Conn)
      → length (stack p addr) < p.max_idle_per_host
      → stack (release addr sender p) addr ≡ sender ∷ stack p addr
  stack-release-room addr sender p room =
      stack-release addr sender p addr ∙ rw (eq_refl addr, lt→ltb _ _ room)

  -- A connection that is released below the bound is the one that the next `acquire` of the address
  -- reuses, and the pair of steps leaves every stack as it was.
  pub take-put :
      (addr : String) (sender : Conn) (p : Pool Conn) (j : String)
      → length (stack p addr) < p.max_idle_per_host
      → ((take_idle addr (release addr sender p)).0 ≡ some sender)
        × (stack (take_idle addr (release addr sender p)).1 j ≡ stack p j)
  take-put addr sender p j room =
      let pushed = stack-release-room addr sender p room in
      (
        take_idle-top addr (release addr sender p) ∙ ap top pushed,
        stack-take_idle addr (release addr sender p) j ∙ elim (Bool-cases (str_eq addr j)) [
          | inl same ↦ rw same (
              subst (λ k. rest (stack (release addr sender p) k) ≡ stack p k)
                ((eq_iff addr j).0 same) (ap rest pushed))
          | inr other ↦ rw other (stack-release addr sender p j ∙ rw other)
        ],
      )

  pub run-append : (ss ts : List (Step Conn)) (p : Pool Conn) → run (ss ++ ts) p ≡ run ts (run ss p)
  unfolding run
  run-append [] ts p = refl
  run-append (s ∷ ss) ts p = run-append ss ts (apply s p)
