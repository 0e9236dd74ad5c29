-- ===== src/Metrics/Registry.antt =====
-- The registry of apps/ibc-attestor/src/metrics.rs, and the functions that record into it. The static
-- `METRICS` is an optional value here, which each function takes and returns.
pub mod Counted
use ibc_attestor.Common.{
  ℕ, String, Bool, true, false, ◌&&◌, Option, none, some, List, [], ◌∷◌, Result, ok, err, Bytes,
  eq_bytes, if◌then◌else◌, ◌≡◌, suc,
}
use ibc_attestor.Common.Double.{F64}
use ibc_attestor.Common.Int.{ℤ, pos, negsuc}
use ibc_attestor.Common.Text.{codes}
use ibc_attestor.World.{
  Metric, rpc_request, height_lag, height_rejection, commitment_failure, retry_failure,
  finalized_height, signer_sign_result,
}

-- The values of the labels of a metric.
abbrev pub Labels : Type 0
Labels = List (List ℕ)

abbrev pub eq_labels : Labels → Labels → Bool
eq_labels [] [] = true
eq_labels [] (b ∷ m) = false
eq_labels (a ∷ l) [] = false
eq_labels (a ∷ l) (b ∷ m) = eq_bytes a b && eq_labels l m

-- The prometheus crate. Metrics are made of a name, a help text and the names of their labels, or
-- their buckets; a call that changes a metric is a function to its new state. The last three are the
-- conversions of a lag and of nanoseconds to `f64`, and the text encoder on the constant labels and
-- the metrics.
pub record Prometheus : Type 1 where
  pub IntCounterVec : Type 0
  pub new_counter_vec : String → String → List String → IntCounterVec
  pub inc_with : Labels → IntCounterVec → IntCounterVec
  pub value_with : IntCounterVec → Labels → ℕ
  pub IntCounter : Type 0
  pub new_counter : String → String → IntCounter
  pub inc : IntCounter → IntCounter
  pub value : IntCounter → ℕ
  pub IntGauge : Type 0
  pub new_gauge : String → String → IntGauge
  pub set : ℤ → IntGauge → IntGauge
  pub gauge_value : IntGauge → ℤ
  pub Histogram : Type 0
  pub new_histogram : String → String → List ℤ → Histogram
  pub observe : F64 → Histogram → Histogram
  pub sample_count : Histogram → ℕ
  pub HistogramVec : Type 0
  pub new_histogram_vec : String → String → List String → HistogramVec
  pub observe_with : Labels → F64 → HistogramVec → HistogramVec
  pub sample_count_with : HistogramVec → Labels → ℕ
  pub Encoding : Type 0
  pub counter_vec_family : IntCounterVec → Encoding
  pub counter_family : IntCounter → Encoding
  pub gauge_family : IntGauge → Encoding
  pub histogram_family : Histogram → Encoding
  pub histogram_vec_family : HistogramVec → Encoding
  pub lag_as_f64 : ℤ → F64
  pub as_secs_f64 : ℕ → F64
  pub encode : List (String × String) → List Encoding → Result String Bytes

-- What the crate documents: metrics start at zero, and a change changes the metric of its label
-- values alone.
pub record PrometheusLaws (x : Prometheus) : Type 0 where
  pub counter_vec-new :
      (name help : String) (names : List String) (l : Labels)
      → x.value_with (x.new_counter_vec name help names) l ≡ 0
  pub counter_vec-inc :
      (l m : Labels) (v : x.IntCounterVec)
      → x.value_with (x.inc_with l v) m
        ≡ (if eq_labels l m then suc (x.value_with v m) else x.value_with v m)
  pub counter-new : (name help : String) → x.value (x.new_counter name help) ≡ 0
  pub counter-inc : (v : x.IntCounter) → x.value (x.inc v) ≡ suc (x.value v)
  pub gauge-new : (name help : String) → x.gauge_value (x.new_gauge name help) ≡ pos 0
  pub gauge-set : (z : ℤ) (v : x.IntGauge) → x.gauge_value (x.set z v) ≡ z
  pub histogram-new :
      (name help : String) (buckets : List ℤ)
      → x.sample_count (x.new_histogram name help buckets) ≡ 0
  pub histogram-observe :
      (y : F64) (v : x.Histogram) → x.sample_count (x.observe y v) ≡ suc (x.sample_count v)
  pub histogram_vec-new :
      (name help : String) (names : List String) (l : Labels)
      → x.sample_count_with (x.new_histogram_vec name help names) l ≡ 0
  pub histogram_vec-observe :
      (l m : Labels) (y : F64) (v : x.HistogramVec)
      → x.sample_count_with (x.observe_with l y v) m
        ≡ (if eq_labels l m then suc (x.sample_count_with v m) else x.sample_count_with v m)

-- The registry is its constant labels here. The handles that it holds are shared with the other
-- fields.
pub record Metrics (x : Prometheus) : Type 0 where
  pub registry : List (String × String)
  pub rpc_requests_total : x.IntCounterVec
  pub rpc_request_duration_seconds : x.HistogramVec
  pub attestation_height_lag_blocks : x.Histogram
  pub height_validation_rejections_total : x.IntCounter
  pub commitment_validation_failures_total : x.IntCounterVec
  pub adapter_retry_failures_total : x.IntCounterVec
  pub adapter_finalized_height : x.IntGauge
  pub signer_signs_total : x.IntCounterVec

module _ (x : Prometheus) where
  -- `Metrics::new`
  unfoldable pub new : String → String → Metrics x
  new adapter signer = record {
    registry = ("adapter", adapter) ∷ ("signer", signer) ∷ [];
    rpc_requests_total =
        x.new_counter_vec "attestor_rpc_requests_total"
          "Total RPC requests by method and gRPC status code" ("method" ∷ "code" ∷ []);
    rpc_request_duration_seconds =
        x.new_histogram_vec "attestor_rpc_request_duration_seconds"
          "RPC request duration in seconds" ("method" ∷ []);
    attestation_height_lag_blocks =
        x.new_histogram "attestor_attestation_height_lag_blocks"
          "finalized_height minus requested_height; positive = caller behind, negative = caller ahead"
          (negsuc 99
            ∷ negsuc 9
            ∷ negsuc 2
            ∷ negsuc 0
            ∷ pos 0
            ∷ pos 1
            ∷ pos 3
            ∷ pos 10
            ∷ pos 50
            ∷ pos 100
            ∷ pos 500
            ∷ []);
    height_validation_rejections_total =
        x.new_counter "attestor_height_validation_rejections_total"
          "Number of attestation requests rejected because the requested height was beyond the latest finalized height";
    commitment_validation_failures_total =
        x.new_counter_vec "attestor_commitment_validation_failures_total"
          "Number of packet/ack/receipt commitment validation failures by kind" ("kind" ∷ []);
    adapter_retry_failures_total =
        x.new_counter_vec "attestor_adapter_retry_failures_total"
          "Number of adapter operations that exhausted retries without succeeding" ("op" ∷ []);
    adapter_finalized_height =
        x.new_gauge "attestor_adapter_finalized_height"
          "Latest finalized height returned by the chain adapter";
    signer_signs_total =
        x.new_counter_vec "attestor_signer_signs_total"
          "Total signing operations attempted, by outcome" ("result" ∷ []);
  }

  -- `METRICS.set(..)`, which does nothing once the metrics are set.
  unfoldable pub init : String → String → Option (Metrics x) → Option (Metrics x)
  unfolding new
  init adapter signer none = some (new adapter signer)
  init adapter signer (some m) = some m

  -- `if let Some(m) = metrics()`
  abbrev pub with_metrics : (Metrics x → Metrics x) → Option (Metrics x) → Option (Metrics x)
  with_metrics f none = none
  with_metrics f (some m) = some (f m)

  unfoldable pub record_rpc_request :
      String → List ℕ → F64 → Option (Metrics x) → Option (Metrics x)
  record_rpc_request method code duration_seconds = with_metrics λ m. record m {
    rpc_requests_total = x.inc_with (codes method ∷ code ∷ []) m.rpc_requests_total;
    rpc_request_duration_seconds =
        x.observe_with (codes method ∷ []) duration_seconds m.rpc_request_duration_seconds;
  }

  unfoldable pub observe_height_lag : ℤ → Option (Metrics x) → Option (Metrics x)
  observe_height_lag lag_blocks = with_metrics λ m. record m {
    attestation_height_lag_blocks =
        x.observe (x.lag_as_f64 lag_blocks) m.attestation_height_lag_blocks;
  }

  unfoldable pub inc_height_rejections : Option (Metrics x) → Option (Metrics x)
  inc_height_rejections = with_metrics λ m. record m {
    height_validation_rejections_total = x.inc m.height_validation_rejections_total;
  }

  unfoldable pub inc_commitment_failure : String → Option (Metrics x) → Option (Metrics x)
  inc_commitment_failure kind = with_metrics λ m. record m {
    commitment_validation_failures_total =
        x.inc_with (codes kind ∷ []) m.commitment_validation_failures_total;
  }

  unfoldable pub inc_retry_failure : String → Option (Metrics x) → Option (Metrics x)
  inc_retry_failure op = with_metrics λ m. record m {
    adapter_retry_failures_total = x.inc_with (codes op ∷ []) m.adapter_retry_failures_total;
  }

  -- Of the height as it is capped where the metric is emitted.
  unfoldable pub set_adapter_finalized_height : ℤ → Option (Metrics x) → Option (Metrics x)
  set_adapter_finalized_height value =
      with_metrics
        λ m. record m { adapter_finalized_height = x.set value m.adapter_finalized_height }

  unfoldable pub inc_signer_sign : String → Option (Metrics x) → Option (Metrics x)
  inc_signer_sign result =
      with_metrics
        λ m. record m { signer_signs_total = x.inc_with (codes result ∷ []) m.signer_signs_total }

  -- The call that a metric stands for.
  abbrev pub record_metric : Metric → Option (Metrics x) → Option (Metrics x)
  record_metric (rpc_request method code elapsed) =
      record_rpc_request method code (x.as_secs_f64 elapsed)
  record_metric (height_lag lag) = observe_height_lag lag
  record_metric height_rejection = inc_height_rejections
  record_metric (commitment_failure kind) = inc_commitment_failure kind
  record_metric (retry_failure op) = inc_retry_failure op
  record_metric (finalized_height value) = set_adapter_finalized_height value
  record_metric (signer_sign_result result) = inc_signer_sign result

  -- `registry.gather()`, of the current states, in the order in which they are registered.
  abbrev pub gather : Metrics x → List x.Encoding
  gather m =
      x.counter_vec_family m.rpc_requests_total
      ∷ x.histogram_vec_family m.rpc_request_duration_seconds
      ∷ x.histogram_family m.attestation_height_lag_blocks
      ∷ x.counter_family m.height_validation_rejections_total
      ∷ x.counter_vec_family m.commitment_validation_failures_total
      ∷ x.counter_vec_family m.adapter_retry_failures_total
      ∷ x.gauge_family m.adapter_finalized_height
      ∷ x.counter_vec_family m.signer_signs_total
      ∷ []

  unfoldable pub encode_text : Option (Metrics x) → Bytes
  encode_text none = []
  encode_text (some m) = elim (x.encode m.registry (gather m)) [ ok buf ↦ buf | err e ↦ [] ]
