-- ===== src/System/Traffic.antt =====
-- What the requests of the running proxy leave behind: the pool and the counters that they share.
use prismproxy.Prelude.{
  ℕ, ◌≡◌, refl, sym, ap, ◌∙◌, Bool, true, false, Bool-cases, inl, inr, Option, none, some, List, [],
  ◌∷◌, arith, if◌then◌else◌, str_eq, IsVisible, ◌%◌, ◌^◌,
}
use prismproxy.Metrics.{Metrics, record_request, render}
use prismproxy.Metrics.History.{Sample, after}
use prismproxy.Exec.{returns, fails, panics, elapsed, flow_or_panic}
use prismproxy.Http.{Http, HttpLaws, Net, Request, Response, Bytes}
use prismproxy.Handler.{Handled, handle, text_response}
use prismproxy.Proxy.{Task}
use prismproxy.Handler.Responses.{Responds, text_response-Responds}
use prismproxy.Handler.Verdicts.{is_blocked, Recorded, handle-Recorded}
use prismproxy.Startup.Base.{Outside}
use prismproxy.System.{Inflight, Event, reloads, renews, pings, accepts, begins, finishes}

module _ (env : Outside) {http : Http} (net : Net http) where
  abbrev is_for_metrics : Request http net.Incoming → Bool
  is_for_metrics req = str_eq (http.path_of req.uri) "/metrics"

  -- What a response is counted as: its status, the time that its request took, and whether the
  -- plugins of the request's route blocked it.
  abbrev pub sample_of : Inflight env net → Task net → Task net → Response http Bytes → Sample
  sample_of f before after r = record {
    status = r.status;
    elapsed_ms = net.elapsed_between before.world after.world % 2 ^ 64;
    was_blocked = is_blocked net f.app f.is_up f.connection.client_ip f.connection.is_tls f.request;
  }

  -- The responses that have been sent, but to "/metrics", the latest one first.
  abbrev pub samples : List (Event env net) → List Sample
  samples [] = []
  samples (finishes f before after (returns r) ∷ es) =
      if is_for_metrics f.request then samples es else sample_of f before after r ∷ samples es
  samples (finishes f before after (fails e) ∷ es) = samples es
  samples (finishes f before after panics ∷ es) = samples es
  samples (finishes f before after elapsed ∷ es) = samples es
  samples (reloads disk ∷ es) = samples es
  samples (renews rounds path m ∷ es) = samples es
  samples (pings i outcome ∷ es) = samples es
  samples (accepts client_ip handshake ∷ es) = samples es
  samples (begins req ∷ es) = samples es

  -- No request ended in a panic of its task.
  abbrev pub Answered : List (Event env net) → Type 0
  Answered [] = Unit
  Answered (finishes f before after flow ∷ es) =
      ((r : Response http Bytes) × (flow ≡ returns r)) × Answered es
  Answered (reloads disk ∷ es) = Answered es
  Answered (renews rounds path m ∷ es) = Answered es
  Answered (pings i outcome ∷ es) = Answered es
  Answered (accepts client_ip handshake ∷ es) = Answered es
  Answered (begins req ∷ es) = Answered es

  -- What holds of the counters after the events.
  pub record Counts (es : List (Event env net)) (m : Metrics) : Type 0 where
    pub counted : m ≡ after (samples es)
    pub answered : Answered es

  module _ (laws : HttpLaws http) where
    flow_or_panic-Responds :
        {status : ℕ} (o : Option (Response http Bytes))
        → Responds laws status o
        → (r : Response http Bytes) × (flow_or_panic o ≡ returns r)
    flow_or_panic-Responds none h = absurd (cc h.made)
    flow_or_panic-Responds (some r) h = (r, refl)

    metrics_page :
        (m : Metrics)
        → (r : Response http Bytes) × (flow_or_panic
              (text_response http 200 "text/plain; version=0.0.4" (render m))
            ≡ returns r)
    metrics_page m =
        flow_or_panic-Responds _ (text_response-Responds laws 200 _ (render m) (omega arith))

    page-Counts :
        (f : Inflight env net) (task : Task net) (es : List (Event env net)) (m : Metrics)
        → is_for_metrics f.request ≡ true
        → Counts es m
        → let h =
            handle net f.app f.is_up f.connection.client_ip f.connection.is_tls f.request task m in
          Counts (finishes f task h.task h.response ∷ es) h.metrics
    unfolding handle
    page-Counts f task es m same c =
        let (r, e) = metrics_page m in
        let skipped : samples (finishes f task task (returns r) ∷ es) ≡ samples es = rw same refl in
        rw same (record {
          counted =
              c.counted
              ∙ ap after (sym skipped ∙ ap (λ x. samples (finishes f task task x ∷ es)) (sym e));
          answered = ((r, e), c.answered);
        })

    Recorded-Counts :
        (f : Inflight env net) (task : Task net) (es : List (Event env net)) (m : Metrics)
        (h : Handled net f.app f.is_up f.connection.client_ip f.connection.is_tls f.request)
        → is_for_metrics f.request ≡ false
        → Recorded net f.app f.is_up f.connection.client_ip f.connection.is_tls f.request
            (is_blocked net f.app f.is_up f.connection.client_ip f.connection.is_tls f.request)
            task
            m
            h
        → Counts es m
        → Counts (finishes f task h.task h.response ∷ es) h.metrics
    unfolding after
    Recorded-Counts f task es m h other x c =
        let taken : samples (finishes f task h.task (returns x.response) ∷ es)
            ≡ sample_of f task h.task x.response ∷ samples es =
          rw other refl in
        let s = sample_of f task h.task x.response in
        record {
          counted =
              x.counted
              ∙ ap (record_request s.status s.elapsed_ms s.was_blocked) c.counted
              ∙ ap after
                  (sym taken ∙ ap (λ y. samples (finishes f task h.task y ∷ es)) (sym x.returned));
          answered = ((x.response, x.returned), c.answered);
        }

    -- The end of a request is counted.
    pub finishes-Counts :
        (f : Inflight env net) (task : Task net) (es : List (Event env net)) (m : Metrics)
        → IsVisible f.connection.client_ip
        → Counts es m
        → let h =
            handle net f.app f.is_up f.connection.client_ip f.connection.is_tls f.request task m in
          Counts (finishes f task h.task h.response ∷ es) h.metrics
    finishes-Counts f task es m visible c = elim (Bool-cases (is_for_metrics f.request)) [
      | inl same ↦ page-Counts f task es m same c
      | inr other ↦
          Recorded-Counts f task es m _ other
            (handle-Recorded laws net f.app f.is_up f.connection.client_ip f.connection.is_tls
              f.request task m visible other)
            c
    ]

    -- An event that answers no request.
    pub silent-Counts :
        (e : Event env net) (es : List (Event env net)) (m : Metrics)
        → samples (e ∷ es) ≡ samples es
        → (Answered es → Answered (e ∷ es))
        → Counts es m
        → Counts (e ∷ es) m
    silent-Counts e es m same answers c = record {
      counted = c.counted ∙ ap after (sym same);
      answered = answers c.answered;
    }
