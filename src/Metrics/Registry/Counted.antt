-- ===== src/Metrics/Registry/Counted.antt =====
-- What the registry shows after a sequence of calls.
use ibc_attestor.Common.{
  ℕ, zero, suc, ◌≡◌, refl, ◌∙◌, ap, String, Bool, true, false, Option, none, some, List, [], ◌∷◌,
  if◌then◌else◌,
}
use ibc_attestor.Common.Int.{ℤ, pos}
use ibc_attestor.Common.Text.{codes}
use ibc_attestor.Metrics.Registry.{
  Labels, eq_labels, Prometheus, PrometheusLaws, Metrics, new, init, record_rpc_request,
  observe_height_lag, inc_height_rejections, inc_commitment_failure, inc_retry_failure,
  set_adapter_finalized_height, inc_signer_sign, record_metric,
}
use ibc_attestor.World.{
  Metric, rpc_request, height_lag, height_rejection, commitment_failure, retry_failure,
  finalized_height, signer_sign_result,
}

pub data Call : Type 0 where
  initialized : String → String → Call
  recorded : Metric → Call

-- The calls of a program, in their order.
abbrev pub replay : (x : Prometheus) → List Call → Option (Metrics x) → Option (Metrics x)
replay x [] m = m
replay x (initialized adapter signer ∷ calls) m = replay x calls (init x adapter signer m)
replay x (recorded metric ∷ calls) m = replay x calls (record_metric x metric m)

-- What is to be seen, without the registry: the names of the first initialization, and what was
-- recorded since, the latest first.
pub record View : Type 0 where
  pub adapter : String
  pub signer : String
  pub events : List Metric

abbrev pub viewed : List Call → Option View → Option View
viewed [] v = v
viewed (initialized adapter signer ∷ calls) none =
    viewed calls (some (record { adapter = adapter; signer = signer; events = [] }))
viewed (initialized adapter signer ∷ calls) (some v) = viewed calls (some v)
viewed (recorded metric ∷ calls) none = viewed calls none
viewed (recorded metric ∷ calls) (some v) =
    viewed calls (some (record v { events = metric ∷ v.events }))

-- The metrics that count.
pub data Counted : Type 0 where
  requests durations lags rejections commitment_failures retry_failures signs : Counted

-- Whether an event counts in a metric, under some label values.
abbrev pub counts : Counted → Labels → Metric → Bool
counts requests l (rpc_request method code elapsed) = eq_labels (codes method ∷ code ∷ []) l
counts durations l (rpc_request method code elapsed) = eq_labels (codes method ∷ []) l
counts lags l (height_lag lag) = true
counts rejections l height_rejection = true
counts commitment_failures l (commitment_failure kind) = eq_labels (codes kind ∷ []) l
counts retry_failures l (retry_failure op) = eq_labels (codes op ∷ []) l
counts signs l (signer_sign_result result) = eq_labels (codes result ∷ []) l
counts _ l _ = false

-- How many of the events do.
abbrev pub count : (Metric → Bool) → List Metric → ℕ
count holds [] = zero
count holds (m ∷ events) = let rest = count holds events in if holds m then suc rest else rest

-- The height that was recorded last.
abbrev pub last_height : List Metric → ℤ
last_height [] = pos zero
last_height (finalized_height value ∷ events) = value
last_height (_ ∷ events) = last_height events

module _ (x : Prometheus) where
  -- What a metric shows under some label values, which those without labels ignore.
  abbrev pub reading : Metrics x → Counted → Labels → ℕ
  reading m requests l = x.value_with m.rpc_requests_total l
  reading m durations l = x.sample_count_with m.rpc_request_duration_seconds l
  reading m lags l = x.sample_count m.attestation_height_lag_blocks
  reading m rejections l = x.value m.height_validation_rejections_total
  reading m commitment_failures l = x.value_with m.commitment_validation_failures_total l
  reading m retry_failures l = x.value_with m.adapter_retry_failures_total l
  reading m signs l = x.value_with m.signer_signs_total l

  -- The metrics have the view's names, and count its events.
  pub record Shows (m : Metrics x) (v : View) : Type 0 where
    pub names : m.registry ≡ ("adapter", v.adapter) ∷ ("signer", v.signer) ∷ []
    pub counted : (k : Counted) (l : Labels) → reading m k l ≡ count (counts k l) v.events
    pub height : x.gauge_value m.adapter_finalized_height ≡ last_height v.events

  -- Without metrics there is no view.
  abbrev pub ShowsOption : Option (Metrics x) → Option View → Type 0
  ShowsOption none none = Unit {0}
  ShowsOption none (some v) = ⊥
  ShowsOption (some m) none = ⊥
  ShowsOption (some m) (some v) = Shows m v

  -- The metrics after an event.
  abbrev pub after : Metric → Metrics x → Metrics x
  after metric m = elim (record_metric x metric (some m)) [ none ↦ m | some n ↦ n ]

  module _ (laws : PrometheusLaws x) where
    new-counted :
        (adapter signer : String) (k : Counted) (l : Labels)
        → reading (new x adapter signer) k l ≡ 0
    unfolding new
    new-counted adapter signer requests l = laws.counter_vec-new _ _ _ l
    new-counted adapter signer durations l = laws.histogram_vec-new _ _ _ l
    new-counted adapter signer lags l = laws.histogram-new _ _ _
    new-counted adapter signer rejections l = laws.counter-new _ _
    new-counted adapter signer commitment_failures l = laws.counter_vec-new _ _ _ l
    new-counted adapter signer retry_failures l = laws.counter_vec-new _ _ _ l
    new-counted adapter signer signs l = laws.counter_vec-new _ _ _ l

    new-Shows :
        (adapter signer : String)
        → Shows (new x adapter signer) (record { adapter = adapter; signer = signer; events = [] })
    unfolding new
    new-Shows adapter signer = record {
      names = refl;
      counted = new-counted adapter signer;
      height = laws.gauge-new _ _;
    }

    record_metric-none : (metric : Metric) → record_metric x metric none ≡ none
    unfolding record_rpc_request observe_height_lag inc_height_rejections inc_commitment_failure
        inc_retry_failure set_adapter_finalized_height inc_signer_sign
    record_metric-none height_rejection = refl
    record_metric-none _ = refl

    pub record_metric-some :
        (metric : Metric) (m : Metrics x) → record_metric x metric (some m) ≡ some (after metric m)
    unfolding record_rpc_request observe_height_lag inc_height_rejections inc_commitment_failure
        inc_retry_failure set_adapter_finalized_height inc_signer_sign
    record_metric-some height_rejection m = refl
    record_metric-some _ m = refl

    -- An event is counted where it counts, and nowhere else.
    pub after-reading :
        (k : Counted) (l : Labels) (metric : Metric) (m : Metrics x)
        → reading (after metric m) k l
          ≡ (if counts k l metric then suc (reading m k l) else reading m k l)
    unfolding record_rpc_request observe_height_lag inc_height_rejections inc_commitment_failure
        inc_retry_failure set_adapter_finalized_height inc_signer_sign
    after-reading requests l (rpc_request method code elapsed) m =
        laws.counter_vec-inc (codes method ∷ code ∷ []) l m.rpc_requests_total
    after-reading durations l (rpc_request method code elapsed) m =
        laws.histogram_vec-observe (codes method ∷ []) l (x.as_secs_f64 elapsed)
          m.rpc_request_duration_seconds
    after-reading lags l (height_lag lag) m =
        laws.histogram-observe (x.lag_as_f64 lag) m.attestation_height_lag_blocks
    after-reading rejections l height_rejection m =
        laws.counter-inc m.height_validation_rejections_total
    after-reading commitment_failures l (commitment_failure kind) m =
        laws.counter_vec-inc (codes kind ∷ []) l m.commitment_validation_failures_total
    after-reading retry_failures l (retry_failure op) m =
        laws.counter_vec-inc (codes op ∷ []) l m.adapter_retry_failures_total
    after-reading signs l (signer_sign_result result) m =
        laws.counter_vec-inc (codes result ∷ []) l m.signer_signs_total
    after-reading _ l _ m = refl

    after-height :
        (metric : Metric) (m : Metrics x) (v : View)
        → x.gauge_value m.adapter_finalized_height ≡ last_height v.events
        → x.gauge_value (after metric m).adapter_finalized_height ≡ last_height (metric ∷ v.events)
    unfolding record_rpc_request observe_height_lag inc_height_rejections inc_commitment_failure
        inc_retry_failure set_adapter_finalized_height inc_signer_sign
    after-height (finalized_height value) m v h = laws.gauge-set value m.adapter_finalized_height
    after-height _ m v h = h

    after-registry : (metric : Metric) (m : Metrics x) → (after metric m).registry ≡ m.registry
    unfolding record_rpc_request observe_height_lag inc_height_rejections inc_commitment_failure
        inc_retry_failure set_adapter_finalized_height inc_signer_sign
    after-registry height_rejection m = refl
    after-registry _ m = refl

    after-Shows :
        (metric : Metric) (m : Metrics x) (v : View)
        → Shows m v
        → Shows (after metric m) (record v { events = metric ∷ v.events })
    after-Shows metric m v s = record {
      names = after-registry metric m ∙ s.names;
      counted = λ k l.
          after-reading k l metric m
          ∙ ap (λ n. if counts k l metric then suc n else n) (s.counted k l);
      height = after-height metric m v s.height;
    }

    replay-Shows_from :
        (calls : List Call) (m : Option (Metrics x)) (v : Option View)
        → ShowsOption m v
        → ShowsOption (replay x calls m) (viewed calls v)
    unfolding init
    replay-Shows_from [] m v s = s
    replay-Shows_from (call ∷ calls) none (some v) s = elim s [ ]
    replay-Shows_from (call ∷ calls) (some m) none s = elim s [ ]
    replay-Shows_from (initialized adapter signer ∷ calls) none none s =
        replay-Shows_from calls (some (new x adapter signer)) (some _) (new-Shows adapter signer)
    replay-Shows_from (initialized adapter signer ∷ calls) (some m) (some v) s =
        replay-Shows_from calls (some m) (some v) s
    replay-Shows_from (recorded metric ∷ calls) none none s =
        rw (record_metric-none metric) (replay-Shows_from calls none none tt)
    replay-Shows_from (recorded metric ∷ calls) (some m) (some v) s =
        rw (record_metric-some metric m)
          (replay-Shows_from calls (some (after metric m)) (some _) (after-Shows metric m v s))

    -- After any calls the registry shows just what was recorded since the first initialization, and
    -- the names of that one: each counter and each histogram has counted the events of its label
    -- values, the gauge has the height that was recorded last, and a later initialization changes
    -- nothing. Without an initialization there is no registry, whatever was recorded.
    pub replay-Shows : (calls : List Call) → ShowsOption (replay x calls none) (viewed calls none)
    replay-Shows calls = replay-Shows_from calls none none tt
