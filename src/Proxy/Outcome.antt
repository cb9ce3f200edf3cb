-- ===== src/Proxy/Outcome.antt =====
-- How proxy.rs's `forward` can end, and what it does to the shared pool.
use prismproxy.Prelude.{
  String, ◌≡◌, refl, sym, ap, ◌∙◌, Option, none, some, List, [], ◌∷◌, ◌++◌, format, Result, ok, err,
  map_err,
}
use prismproxy.Errors.{ProxyError, hyper, upstream_connect}
use prismproxy.Exec.{
  Flow, returns, fails, panics, elapsed, Exec, pure, lift, flow_of, ◌>>=◌, continue,
}
use prismproxy.Http.{Http, Net, Request, Response, Await, ready, late, Bytes}
use prismproxy.Pool.{Step, take, put, run, take_idle}
use prismproxy.Pool.Refinement.{run-append}
use prismproxy.Proxy.{
  Task, arrived, await, lock_pool, connect_fresh, use_or_connect, acquire, give_back, retry,
  first_result, send,
}

-- The message of a failed connection attempt to `addr`.
abbrev pub connect_message : String → String → String
connect_message addr e = format (addr ∷ ": " ∷ e ∷ [])

-- The errors of the steps below the timeout.
pub data IsUpstreamError (addr : String) : ProxyError → Type 0 where
  of_http : (e : String) → IsUpstreamError addr (hyper e)
  of_connect : (e : String) → IsUpstreamError addr (upstream_connect (connect_message addr e))

-- The ends of such a step: no panic, and no other error.
abbrev pub EndsWell {ℓ} : {A : Type ℓ} → String → Flow A → Type 0
EndsWell addr (returns a) = Unit
EndsWell addr (fails e) = IsUpstreamError addr e
EndsWell addr panics = ⊥
EndsWell addr elapsed = Unit

module _ {http : Http} (net : Net http) where
  -- One state follows from another by locked sections of the pool, by any tasks.
  pub record BySteps (t u : Task net) : Type 0 where
    pub steps : List (Step net.Conn)
    pub result : u.pool ≡ run steps t.pool

  pub BySteps-trans : {t u v : Task net} → BySteps t u → BySteps u v → BySteps t v
  BySteps-trans {t} p q = record {
    steps = p.steps ++ q.steps;
    result = q.result ∙ ap (run q.steps) p.result ∙ sym (run-append p.steps q.steps t.pool);
  }

  pub no_steps : {t u : Task net} → u.pool ≡ t.pool → BySteps t u
  unfolding run
  no_steps e = record { steps = []; result = e }

  pub record Behaves (addr : String) {A : Type 0} (m : Exec (Task net) A) : Type 0 where
    pub ends : (t : Task net) → EndsWell addr (m t).0
    pub steps : (t : Task net) → BySteps t (m t).1

  module _ (addr : String) where
    Behaves-continue :
        {A B : Type 0} (r : Flow A) (f : A → Exec (Task net) B)
        → EndsWell addr r
        → ((a : A) → Behaves addr (f a))
        → Behaves addr (continue r f)
    Behaves-continue (returns a) f h hf = hf a
    Behaves-continue (fails e) f h hf = record { ends = λ t. h; steps = λ t. no_steps refl }
    Behaves-continue panics f h hf = absurd h
    Behaves-continue elapsed f h hf = record { ends = λ t. tt; steps = λ t. no_steps refl }

    pub Behaves-bind :
        {A B : Type 0} (m : Exec (Task net) A) (f : A → Exec (Task net) B)
        → Behaves addr m
        → ((a : A) → Behaves addr (f a))
        → Behaves addr (m >>= f)
    Behaves-bind m f hm hf = record {
      ends = λ t. (Behaves-continue (m t).0 f (hm.ends t) hf).ends (m t).1;
      steps = λ t.
          BySteps-trans (hm.steps t) ((Behaves-continue (m t).0 f (hm.ends t) hf).steps (m t).1);
    }

    pub Behaves-pure : {A : Type 0} (a : A) → Behaves addr (pure {S = Task net} a)
    Behaves-pure a = record { ends = λ t. tt; steps = λ t. no_steps refl }

    EndsWell-arrived : {A : Type 0} (a : Await A) → EndsWell addr (arrived net a)
    EndsWell-arrived (ready a) = tt
    EndsWell-arrived late = tt

    pub Behaves-await :
        {A : Type 0} (operation : net.World → Await A × net.World)
        → Behaves addr (await net operation)
    Behaves-await operation = record {
      ends = λ t. EndsWell-arrived (operation t.world).0;
      steps = λ t. no_steps refl;
    }

    EndsWell-map_err :
        {A : Type 0} (f : String → ProxyError) (r : Result A String)
        → ((e : String) → IsUpstreamError addr (f e))
        → EndsWell addr (flow_of (map_err f r))
    EndsWell-map_err f (ok a) h = tt
    EndsWell-map_err f (err e) h = h e

    pub Behaves-lift :
        {A : Type 0} (f : String → ProxyError) (r : Result A String)
        → ((e : String) → IsUpstreamError addr (f e))
        → Behaves addr (lift {S = Task net} (map_err f r))
    Behaves-lift f r h = record { ends = λ t. EndsWell-map_err f r h; steps = λ t. no_steps refl }

    lock_pool-Behaves : Behaves addr (lock_pool net)
    unfolding lock_pool
    lock_pool-Behaves =
        Behaves-bind _ _ (Behaves-await net.lock)
          λ others. record { ends = λ t. tt; steps = λ t. record { steps = others; result = refl } }

    connect_fresh-Behaves : Behaves addr (connect_fresh net addr)
    unfolding connect_fresh
    connect_fresh-Behaves = Behaves-bind _ _ (Behaves-await (net.connect addr)) λ connected.
        Behaves-bind _ _ (Behaves-lift _ connected of_connect) λ stream.
          Behaves-bind _ _ (Behaves-await (net.handshake stream))
            λ shaken. Behaves-lift _ shaken of_http

    use_or_connect-Behaves :
        (found : Option net.Conn) → Behaves addr (use_or_connect net addr found)
    use_or_connect-Behaves none = connect_fresh-Behaves
    use_or_connect-Behaves (some sender) = Behaves-pure sender

    pub acquire-Behaves : Behaves addr (acquire net addr)
    unfolding acquire run
    acquire-Behaves =
        Behaves-bind _ _ lock_pool-Behaves
          λ _. Behaves-bind _ _ take-Behaves λ found. use_or_connect-Behaves found
      where
        take-Behaves :
            Behaves addr {A = Option net.Conn}
              λ t. let r = take_idle addr t.pool in (returns r.0, record t { pool = r.1 })
        take-Behaves = record {
          ends = λ t. tt;
          steps = λ t. record { steps = take addr ∷ []; result = refl };
        }

    give_back-Behaves : (sender : net.Conn) → Behaves addr (give_back net addr sender)
    unfolding give_back run
    give_back-Behaves sender = Behaves-bind _ _ lock_pool-Behaves λ _. record {
      ends = λ t. tt;
      steps = λ t. record { steps = put addr sender ∷ []; result = refl };
    }

    retry-Behaves : (request : Request http Bytes) → Behaves addr (retry net addr request)
    unfolding retry
    retry-Behaves request = Behaves-bind _ _ connect_fresh-Behaves λ fresh.
        Behaves-bind _ _ (Behaves-await (net.send_request fresh request)) λ sent.
          Behaves-bind _ _ (Behaves-lift _ sent of_http)
            λ response. Behaves-bind _ _ (give_back-Behaves fresh) λ _. Behaves-pure response

    first_result-Behaves :
        (sender : net.Conn) (request : Request http Bytes)
        (sent : Result (Response http net.Incoming) String)
        → Behaves addr (first_result net addr sender request sent)
    first_result-Behaves sender request (ok response) =
        Behaves-bind _ _ (give_back-Behaves sender) λ _. Behaves-pure response
    first_result-Behaves sender request (err e) = retry-Behaves request

    pub send-Behaves :
        (sender : net.Conn) (request : Request http Bytes)
        → Behaves addr (send net addr sender request)
    unfolding send
    send-Behaves sender request =
        Behaves-bind _ _ (Behaves-await (net.send_request sender request))
          (first_result-Behaves sender request)
