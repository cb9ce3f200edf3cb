-- ===== src/Pool/Tests.antt =====
-- Runs of pool.rs with numbered connections, and its properties at concrete histories.
use prismproxy.Prelude.{ℕ, String, ◌≡◌, refl, List, [], ◌∷◌, lookup, insert}
use prismproxy.Pool.{Pool, Step, take, put, new, run}
use prismproxy.Pool.Refinement.{stack, abstract_run, stack-run}

abbrev host : String
host = "127.0.0.1:3000"

abbrev history : List (Step ℕ)
history = put host 1 ∷ put host 2 ∷ put host 3 ∷ take host ∷ put "b:1" 4 ∷ []

abbrev small : Pool ℕ
small = new 2

history-run : (run history small).idle ≡ ("b:1", 4 ∷ []) ∷ (host, 1 ∷ []) ∷ []
unfolding run lookup insert
history-run = refl

stack-run_example : stack (run history small) ≡ abstract_run 2 history (stack small)
stack-run_example = stack-run history small
