-- ===== src/Proxy/Forward.antt =====
-- The ends of proxy.rs's `forward` as a whole.
use mathlib.Core.Path.{subst}
use prismproxy.Prelude.{
  ℕ, ◌≤◌, String, ◌≡◌, refl, sym, Bool, true, false, none, some, [], ◌∷◌, arith, format, length,
  map_err, IsVisible, All, Option-cases, inl, inr,
}
use prismproxy.Errors.{ProxyError, hyper, timeout}
use prismproxy.Exec.{
  Flow, returns, fails, panics, elapsed, lift, unwrap, Yields, Yields-bind, Yields-pure,
}
use prismproxy.Http.{Http, HttpLaws, Net, Request, Response, Bytes}
use prismproxy.Pool.Refinement.{stack, run-keeps_bound}
use prismproxy.Proxy.{
  Task, await, acquire, send, forward_inner, forward, upstream_headers, proto, insert_if,
  build_request, hop_by_hop, strip, timed, show_duration,
}
use prismproxy.Proxy.Headers.{is_hop_by_hop, get-strip}
use prismproxy.Proxy.Outcome.{
  IsUpstreamError, of_http, BySteps, EndsWell, Behaves, Behaves-bind, Behaves-await, Behaves-lift,
  Behaves-pure, acquire-Behaves, send-Behaves,
}

-- The errors of `forward`.
pub data IsForwardError (addr : String) (timeout_ms : ℕ) : ProxyError → Type 0 where
  of_upstream : {e : ProxyError} → IsUpstreamError addr e → IsForwardError addr timeout_ms e
  of_timeout :
      IsForwardError addr timeout_ms
        (timeout (format (addr ∷ ": exceeded " ∷ show_duration timeout_ms ∷ [])))

proto-IsVisible : (http : Http) (is_tls : Bool) → IsVisible (proto http is_tls)
proto-IsVisible http true = omega arith
proto-IsVisible http false = omega arith

module _ {http : Http} (laws : HttpLaws http) (net : Net http) where
  upstream_headers_total :
      (addr client_ip : String) (is_tls : Bool) (h : http.Headers)
      → IsVisible client_ip
      → (sent : http.Headers) × (upstream_headers http addr client_ip is_tls h ≡ some sent)
  unfolding upstream_headers
  upstream_headers_total addr client_ip is_tls h visible =
      let hosted = insert_if http "host" (http.parse_value addr) (strip http h) in
      let with_scheme = λ (ip scheme : http.Value).
        http.insert "x-forwarded-proto" scheme (http.insert "x-forwarded-for" ip hosted) in
      elim (Option-cases (http.parse_value client_ip)) [
        | inl e ↦ absurd (laws.parse_visible client_ip visible e)
        | inr (ip, e) ↦ elim (Option-cases (http.parse_value (proto http is_tls))) [
          | inl e' ↦ absurd (laws.parse_visible _ (proto-IsVisible http is_tls) e')
          | inr (scheme, e') ↦ (
            insert_if http "x-forwarded-host" (http.get "host" (with_scheme ip scheme))
                (with_scheme ip scheme),
            ground arith,
          )
        ]
      ]

  module _ (req : Request http net.Incoming) (addr client_ip : String) (is_tls : Bool) where
    forward_inner-Behaves :
        IsVisible client_ip → Behaves net addr (forward_inner net req addr client_ip is_tls)
    unfolding forward_inner
    forward_inner-Behaves visible =
        let (sent, total) = upstream_headers_total addr client_ip is_tls req.headers visible in
        Behaves-bind net addr _ _ (Behaves-await net addr (net.collect req.body)) λ collected.
          Behaves-bind net addr _ _ (Behaves-lift net addr _ collected of_http) λ body. rw total (
            Behaves-bind net addr _ _ (Behaves-pure net addr sent) λ headers.
              Behaves-bind net addr _ _ (acquire-Behaves net addr) λ sender.
                Behaves-bind net addr _ _
                  (send-Behaves net addr sender
                    (build_request http req.method req.uri headers body))
                  λ response.
                    Behaves-bind net addr _ _ (Behaves-await net addr (net.collect response.body))
                      λ received.
                        Behaves-bind net addr _ _ (Behaves-lift net addr _ received of_http)
                          λ bytes. Behaves-pure net addr (record {
                            status = response.status;
                            headers = strip http response.headers;
                            body = bytes;
                          }))

    -- A response has no hop-by-hop header.
    abbrev pub IsStripped : Response http Bytes → Type 0
    IsStripped r = All (λ k. http.get k r.headers ≡ none) hop_by_hop

    IsStripped-strip : (h : http.Headers) → All (λ k. http.get k (strip http h) ≡ none) hop_by_hop
    unfolding is_hop_by_hop
    IsStripped-strip h =
        let gone = λ (k : String). get-strip http laws k h in
        (gone _, (gone _, (gone _, (gone _, (gone _, (gone _, (gone _, (gone _, tt))))))))

    forward_inner-IsStripped : Yields IsStripped (forward_inner net req addr client_ip is_tls)
    unfolding forward_inner
    forward_inner-IsStripped = Yields-bind (await net (net.collect req.body)) _ λ collected.
        Yields-bind (lift (map_err hyper collected)) _ λ body.
          Yields-bind (unwrap (upstream_headers http addr client_ip is_tls req.headers)) _
            λ headers. Yields-bind (acquire net addr) _ λ sender.
              Yields-bind
                (send net addr sender (build_request http req.method req.uri headers body)) _
                λ response. Yields-bind (await net (net.collect response.body)) _ λ received.
                  Yields-bind (lift (map_err hyper received)) _
                    λ bytes. Yields-pure _ (IsStripped-strip response.headers)

    -- The ends of `forward`: a response without hop-by-hop headers, or one of its errors.
    abbrev pub EndsForward : ℕ → Flow (Response http Bytes) → Type 0
    EndsForward timeout_ms (returns r) = IsStripped r
    EndsForward timeout_ms (fails e) = IsForwardError addr timeout_ms e
    EndsForward timeout_ms panics = ⊥
    EndsForward timeout_ms elapsed = ⊥

    timed-EndsForward :
        (timeout_ms : ℕ) (r : Flow (Response http Bytes))
        → EndsWell addr r
        → ((response : Response http Bytes) → r ≡ returns response → IsStripped response)
        → EndsForward timeout_ms
            (timed net (timeout (format (addr ∷ ": exceeded " ∷ show_duration timeout_ms ∷ []))) r)
    timed-EndsForward timeout_ms (returns response) h stripped = stripped response refl
    timed-EndsForward timeout_ms (fails e) h stripped = of_upstream h
    timed-EndsForward timeout_ms panics h stripped = h
    timed-EndsForward timeout_ms elapsed h stripped = of_timeout

    -- With a client address of visible characters, `forward` ends, at every outcome of each network
    -- operation and at a timeout at any await, with a response free of hop-by-hop headers or with an
    -- error of hyper, of connecting (which names the upstream) or of the timeout (which names the
    -- upstream and the limit), and never with a panic.
    pub forward-EndsForward :
        (timeout_ms : ℕ) (t : Task net)
        → IsVisible client_ip
        → EndsForward timeout_ms (forward net req addr timeout_ms client_ip is_tls t).0
    unfolding forward
    forward-EndsForward timeout_ms t visible =
        timed-EndsForward timeout_ms _ ((forward_inner-Behaves visible).ends t)
          (forward_inner-IsStripped.holds t)

    pub forward-BySteps :
        (timeout_ms : ℕ) (t : Task net)
        → IsVisible client_ip
        → BySteps net t (forward net req addr timeout_ms client_ip is_tls t).1
    unfolding forward
    forward-BySteps timeout_ms t visible = (forward_inner-Behaves visible).steps t

    -- However `forward` ends, all that has happened to the shared pool since are locked sections, so
    -- that no address has more idle connections than the bound if none had before.
    pub forward-keeps_bound :
        (timeout_ms : ℕ) (t : Task net)
        → IsVisible client_ip
        → ((j : String) → length (stack t.pool j) ≤ t.pool.max_idle_per_host)
        → (j : String)
        → length (stack (forward net req addr timeout_ms client_ip is_tls t).1.pool j)
          ≤ t.pool.max_idle_per_host
    forward-keeps_bound timeout_ms t visible bounded j =
        let by = forward-BySteps timeout_ms t visible in
        subst (λ p. length (stack p j) ≤ t.pool.max_idle_per_host) (sym by.result)
          (run-keeps_bound by.steps t.pool bounded j)
