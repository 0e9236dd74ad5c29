-- ===== src/Tests/Counting.antt =====
-- A registry, with metrics that are functions of their label values.
use ibc_attestor.Common.{ℕ, suc, refl, List, [], ◌∷◌, none, ok, length, if◌then◌else◌}
use ibc_attestor.Common.Double.{nan}
use ibc_attestor.Common.Int.{ℤ, pos}
use ibc_attestor.Common.Text.{codes}
use ibc_attestor.Metrics.Registry.{Prometheus, PrometheusLaws, eq_labels, Labels}
use ibc_attestor.Metrics.Registry.Counted.{
  Call, initialized, recorded, replay, viewed, ShowsOption, replay-Shows,
}
use ibc_attestor.World.{rpc_request, signer_sign_result, finalized_height}

abbrev toy_inc : Labels → (Labels → ℕ) → Labels → ℕ
toy_inc l v m = if eq_labels l m then suc (v m) else v m

abbrev pub toy : Prometheus
toy = record {
  IntCounterVec = Labels → ℕ;
  new_counter_vec = λ name help names l. 0;
  inc_with = toy_inc;
  value_with = λ v l. v l;
  IntCounter = ℕ;
  new_counter = λ name help. 0;
  inc = λ n. suc n;
  value = λ n. n;
  IntGauge = ℤ;
  new_gauge = λ name help. pos 0;
  set = λ z v. z;
  gauge_value = λ z. z;
  Histogram = ℕ;
  new_histogram = λ name help buckets. 0;
  observe = λ y n. suc n;
  sample_count = λ n. n;
  HistogramVec = Labels → ℕ;
  new_histogram_vec = λ name help names l. 0;
  observe_with = λ l y v. toy_inc l v;
  sample_count_with = λ v l. v l;
  Encoding = ℕ;
  counter_vec_family = λ v. 0;
  counter_family = λ n. n;
  gauge_family = λ z. 0;
  histogram_family = λ n. n;
  histogram_vec_family = λ v. 0;
  lag_as_f64 = λ z. nan;
  as_secs_f64 = λ n. nan;
  encode = λ names families. ok (length families ∷ []);
}

pub toy_laws : PrometheusLaws toy
toy_laws = record {
  counter_vec-new = λ name help names l. refl;
  counter_vec-inc = λ l m v. refl;
  counter-new = λ name help. refl;
  counter-inc = λ v. refl;
  gauge-new = λ name help. refl;
  gauge-set = λ z v. refl;
  histogram-new = λ name help buckets. refl;
  histogram-observe = λ y v. refl;
  histogram_vec-new = λ name help names l. refl;
  histogram_vec-observe = λ l m y v. refl;
}

-- A metric before the initialization, two requests and a signature after it, and a second
-- initialization.
abbrev calls : List Call
calls =
    recorded (signer_sign_result "ok")
    ∷ initialized "evm" "local"
    ∷ recorded (rpc_request "latest_height" (codes "ok") 5)
    ∷ recorded (finalized_height (pos 100))
    ∷ recorded (rpc_request "latest_height" (codes "ok") 7)
    ∷ initialized "cosmos" "remote"
    ∷ recorded (signer_sign_result "err")
    ∷ []

replay-Shows_example : ShowsOption toy (replay toy calls none) (viewed calls none)
replay-Shows_example = replay-Shows toy toy_laws calls
