-- ===== src/Acme/Contract.antt =====
-- What acme.rs relies on of a CA that does its part, and of the network and rcgen.
use prismproxy.Prelude.{
  ℕ, ◌+◌, ◌≤◌, String, ◌≡◌, ◌≢◌, Bool, true, false, Option, some, List, ok, All,
}
use prismproxy.Acme.Base.{Ca, OrderStatus, ready, invalid, Challenge, Authorization, secs}
use prismproxy.Acme.Steps.{find_http01}

-- The CA answers all calls. It offers an HTTP-01 challenge for each authorization, the order is
-- ready `validation` nanoseconds after the CA was last asked for something, and the certificate
-- is there `issuance` nanoseconds after the order was finalized; a poll takes at most `latency`.
pub record IsObliging (ca : Ca) : Type 0 where
  pub validation : ℕ
  pub issuance : ℕ
  pub latency : ℕ
  pub in_time : (validation + latency ≤ secs 120) × (issuance + latency ≤ secs 60)
  -- Whether the order is finalized, and when the CA was last asked for something but a poll.
  pub is_final : ca.World → Bool
  pub since : ca.World → ℕ
  pub since-now : (w : ca.World) → since w ≤ ca.now w
  pub has_account :
      (contact directory : String) (w : ca.World)
      → (a : ca.Account) × ((ca.create_account contact directory w).0 ≡ ok a)
  pub has_order :
      (a : ca.Account) (domains : List String) (w : ca.World)
      → (o : ca.Order) × ((ca.new_order a domains w).0 ≡ ok o)
        × (is_final (ca.new_order a domains w).1 ≡ false)
  pub has_challenges :
      (o : ca.Order) (w : ca.World)
      → is_final w ≡ false
      → (auths : List Authorization) × ((ca.authorizations o w).0 ≡ ok auths)
        × (is_final (ca.authorizations o w).1 ≡ false)
        × All (λ auth. (c : Challenge) × (find_http01 auth ≡ some c)) auths
  pub is_told :
      (o : ca.Order) (url : String) (w : ca.World)
      → is_final w ≡ false
      → ((ca.set_challenge_ready o url w).0 ≡ ok tt)
        × (is_final (ca.set_challenge_ready o url w).1 ≡ false)
  pub sleeps :
      (d : ℕ) (w : ca.World)
      → (is_final (ca.sleep d w) ≡ is_final w) × (since (ca.sleep d w) ≡ since w)
  pub validates :
      (o : ca.Order) (w : ca.World)
      → is_final w ≡ false
      → (status : OrderStatus) × ((ca.refresh o w).0 ≡ ok status)
        × (status ≢ invalid)
        × (since w + validation ≤ ca.now w → status ≡ ready)
        × (is_final (ca.refresh o w).1 ≡ false)
        × (since (ca.refresh o w).1 ≡ since w)
        × (ca.now (ca.refresh o w).1 ≤ ca.now w + latency)
  pub has_params : (domains : List String) → (p : ca.Params) × (ca.params domains ≡ ok p)
  pub has_key : (w : ca.World) → (k : ca.KeyPair) × ((ca.generate w).0 ≡ ok k)
  pub has_request :
      (p : ca.Params) (k : ca.KeyPair) → (csr : ca.Csr) × (ca.serialize_request p k ≡ ok csr)
  pub is_finalized :
      (o : ca.Order) (csr : ca.Csr) (w : ca.World)
      → ((ca.finalize o csr w).0 ≡ ok tt) × (is_final (ca.finalize o csr w).1 ≡ true)
  pub issues :
      (o : ca.Order) (w : ca.World)
      → is_final w ≡ true
      → (found : Option String) × ((ca.certificate o w).0 ≡ ok found)
        × (since w + issuance ≤ ca.now w → (cert : String) × (found ≡ some cert))
        × (is_final (ca.certificate o w).1 ≡ true)
        × (since (ca.certificate o w).1 ≡ since w)
        × (ca.now (ca.certificate o w).1 ≤ ca.now w + latency)
