-- ===== src/Servers/Counted.antt =====
-- How the calls of the service that a configuration sets up show in the request metrics.
use ibc_attestor.Common.{
  ℕ, suc, ◌+◌, ◌-◌, ◌≡◌, refl, ap, ◌∙◌, Bool, true, false, Option, some, List, [], ◌∷◌, ◌++◌,
  Result, All, arith, if◌then◌else◌,
}
use ibc_attestor.Common.Text.{codes}
use ibc_attestor.Adapter.Dispatch.Emitted.{adapter_enum-QuietAdapter}
use ibc_attestor.Config.{RuntimeConfig}
use ibc_attestor.Crates.{Crates, RetryLaws, CollectLaws}
use ibc_attestor.Error.{Status}
use ibc_attestor.Future.Emitted.{no_request, CountsNoRequest, metrics_of, Emits-Run}
use ibc_attestor.Future.Runs.{Happening, answered, emitted, Run}
use ibc_attestor.Metrics.Tracking.{result_label}
use ibc_attestor.Metrics.Registry.{
  Prometheus, PrometheusLaws, Metrics, Labels, eq_labels, record_metric,
}
use ibc_attestor.Metrics.Registry.Counted.{
  Counted, requests, durations, counts, count, reading, after, record_metric-some, after-reading,
}
use ibc_attestor.Rpc.Attestor.Emitted.{
  latest_height-quiet, state_attestation-quiet, packet_attestation-quiet,
}
use ibc_attestor.Rpc.Middleware.{LoggingMiddleware}
use ibc_attestor.Rpc.Middleware.Passed.{
  Call, latest, state, packets, Response, method, serve, handle, middleware-Tracked,
}
use ibc_attestor.Servers.{service_of, logging_service}
use ibc_attestor.Signer.Dispatch.Emitted.{signer_enum-QuietSigner}
use ibc_attestor.World.{Metric, now, rpc_request}

-- The registry after metrics, in their order.
abbrev pub record_all : (x : Prometheus) → List Metric → Option (Metrics x) → Option (Metrics x)
record_all x [] m = m
record_all x (metric ∷ metrics) m = record_all x metrics (record_metric x metric m)

-- What is counted of an event and of those after it.
counted_more :
    (holds : Bool) (n start next end : ℕ)
    → next ≡ (if holds then suc start else start)
    → end ≡ n + next
    → end ≡ (if holds then suc n else n) + start
counted_more true n start next end p q = omega arith
counted_more false n start next end p q = omega arith

record_all-reading :
    (x : Prometheus)
    → PrometheusLaws x
    → (metrics : List Metric) (m : Metrics x)
    → (m' : Metrics x) × (record_all x metrics (some m) ≡ some m')
      × ((k : Counted) (l : Labels)
          → reading x m' k l ≡ count (counts k l) metrics + reading x m k l)
record_all-reading x laws [] m = (m, refl, λ k l. omega arith)
record_all-reading x laws (metric ∷ metrics) m =
    let (m', e, same) = record_all-reading x laws metrics (after x metric m) in
    (
      m',
      rw (record_metric-some x laws metric m) e,
      λ k l.
          counted_more (counts k l metric) (count (counts k l) metrics) (reading x m k l)
            (reading x (after x metric m) k l) (reading x m' k l)
            (after-reading x laws k l metric m) (same k l),
    )

metrics_of-append : (h k : List Happening) → metrics_of (h ++ k) ≡ metrics_of h ++ metrics_of k
metrics_of-append [] k = refl
metrics_of-append (answered r a ∷ h) k = metrics_of-append h k
metrics_of-append (emitted m ∷ h) k = ap (λ l. m ∷ l) (metrics_of-append h k)

-- Only the last metric counts, where the others count no request.
count-last :
    (k : Counted) (l : Labels) (last : Metric)
    → ((m : Metric) → no_request m ≡ true → counts k l m ≡ false)
    → (metrics : List Metric) → All (λ m. no_request m ≡ true) metrics
    → count (counts k l) (metrics ++ (last ∷ [])) ≡ (if counts k l last then 1 else 0)
count-last k l last none_counts [] quiet = refl
count-last k l last none_counts (m ∷ metrics) (here, quiet) =
    rw (none_counts m here) (count-last k l last none_counts metrics quiet)

requests-other : (l : Labels) (m : Metric) → no_request m ≡ true → counts requests l m ≡ false
requests-other l (rpc_request method code elapsed) h = cc
requests-other l _ h = refl

durations-other : (l : Labels) (m : Metric) → no_request m ≡ true → counts durations l m ≡ false
durations-other l (rpc_request method code elapsed) h = cc
durations-other l _ h = refl

-- A reading that only the last metric has changed.
last-reading :
    (holds : Bool) (start end : ℕ)
    → end ≡ (if holds then 1 else 0) + start
    → end ≡ (if holds then suc start else start)
last-reading true start end p = omega arith
last-reading false start end p = omega arith

module _ (c : Crates) (retries : RetryLaws c) (order : CollectLaws c) (x : Prometheus)
    (loaded : RuntimeConfig c) where
  serve-quiet : (call : Call) → CountsNoRequest (serve c (service_of x c loaded) call)
  serve-quiet latest =
      latest_height-quiet c (service_of x c loaded)
        (adapter_enum-QuietAdapter c retries loaded.adapter)
        (signer_enum-QuietSigner c loaded.signer)
  serve-quiet (state request) =
      state_attestation-quiet c (service_of x c loaded)
        (adapter_enum-QuietAdapter c retries loaded.adapter)
        (signer_enum-QuietSigner c loaded.signer) request
  serve-quiet (packets request) =
      packet_attestation-quiet c (service_of x c loaded)
        (adapter_enum-QuietAdapter c retries loaded.adapter)
        (signer_enum-QuietSigner c loaded.signer) order request

  -- The metrics of a call: those of the service, and the request's at the end.
  abbrev middleware : LoggingMiddleware c
  middleware = logging_service x c loaded

  handle-metrics :
      (call : Call) (h : List Happening) (r : Result Status (Response call))
      → Run (handle c middleware call) h r
      → (elapsed : ℕ) × (inside : List Metric) × All (λ m. no_request m ≡ true) inside
        × (metrics_of h ≡ inside ++ (rpc_request (method call) (result_label c r) elapsed ∷ []))
  handle-metrics call h r run =
      let t = middleware-Tracked c middleware call h r run in
      (
        t.end - t.start,
        metrics_of t.inside,
        Emits-Run no_request (serve c (service_of x c loaded) call) t.inside r (serve-quiet call)
            t.run,
        ap metrics_of t.around
            ∙ metrics_of-append t.inside (
                answered now t.end
                ∷ emitted (rpc_request (method call) (result_label c r) (t.end - t.start))
                ∷ []),
      )

  -- Whatever a call of the service that the server command sets up for a configuration does and ends
  -- with, the metrics of its run leave a registry in which the counter of the call's method and of the
  -- code of its result is one more, and the durations of the method have one sample more; every other
  -- request counter, and the durations of every other method, are as they were.
  pub handle-counted :
      PrometheusLaws x
      → (call : Call) (h : List Happening) (r : Result Status (Response call))
      → Run (handle c (logging_service x c loaded) call) h r
      → (m : Metrics x) (l : Labels)
      → (m' : Metrics x) × (record_all x (metrics_of h) (some m) ≡ some m')
        × (x.value_with m'.rpc_requests_total l ≡ (
            if eq_labels (codes (method call) ∷ result_label c r ∷ []) l
            then suc (x.value_with m.rpc_requests_total l)
            else x.value_with m.rpc_requests_total l))
        × (x.sample_count_with m'.rpc_request_duration_seconds l ≡ (
            if eq_labels (codes (method call) ∷ []) l
            then suc (x.sample_count_with m.rpc_request_duration_seconds l)
            else x.sample_count_with m.rpc_request_duration_seconds l))
  handle-counted laws call h r run m l =
      let (elapsed, inside, quiet, all) = handle-metrics call h r run in
      let (m', e, same) = record_all-reading x laws (metrics_of h) m in
      let request = rpc_request (method call) (result_label c r) elapsed in
      (
        m',
        e,
        last-reading (counts requests l request) (reading x m requests l) (reading x m' requests l)
            (same requests l
              ∙ ap (λ n. n + reading x m requests l)
                  (ap (count (counts requests l)) all
                    ∙ count-last requests l request (requests-other l) inside quiet)),
        last-reading (counts durations l request) (reading x m durations l)
            (reading x m' durations l)
            (same durations l
              ∙ ap (λ n. n + reading x m durations l)
                  (ap (count (counts durations l)) all
                    ∙ count-last durations l request (durations-other l) inside quiet)),
      )
