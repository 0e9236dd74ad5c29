-- ===== src/Logging/Sampling.antt =====
-- What a configuration that was loaded samples.
use native.Mathlib.Nat.{div-mul-le_self, div_self}
use ibc_attestor.Common.{
  ℕ, zero, ◌*◌, ◌/◌, ◌<◌, ◌≤◌, ◌≡◌, ◌≢◌, ◌∙◌, refl, sym, ap, ==_iff, String, true, false,
  Bool-cases, ◌⊎◌, inl, inr, some, ok, leb, ◌==◌, arith, if◌then◌else◌,
}
use ibc_attestor.Common.Double.{F64, nan, infinite, finite, unit, is_finite, in_unit_range}
use ibc_attestor.Config.{ChainType, SignerType, TracingConfig, Toml, RuntimeConfig, from_file}
use ibc_attestor.Config.Loaded.{IsTracing, from_file-Loaded}
use ibc_attestor.Crates.{Crates}
use ibc_attestor.Logging.{
  Sampler, always_on, trace_id_ratio_based, with_exporter, sampler_of, build_exporter_tracer,
  init_logging,
}
use ibc_attestor.Process.{Process}

below : (m n u : ℕ) → m ≤ n → n < u → (m == u) ≡ false
below m n u le h = ground arith

-- The whole part of what is less than one is zero.
whole_below : (u n : ℕ) → n < u → (n / u * u == u) ≡ false
whole_below u n h = let m = n / u * u in let le : m ≤ n = div-mul-le_self n u in below m n u le h

whole_one : (u : ℕ) → zero < u → (u / u * u == u) ≡ true
whole_one u h = rw (div_self h) (ground arith)

below_or : (n u : ℕ) → leb n u ≡ true → (n == u) ≡ false → n < u
below_or n u le ne = ground arith

-- A sampler for a rate: of all traces, just where the rate is one, and else of its share.
abbrev pub SamplerFor : F64 → Sampler → Type 0
SamplerFor rate s =
    ((rate ≡ finite false unit) × (s ≡ always_on))
    ⊎ ((rate ≢ finite false unit) × (s ≡ trace_id_ratio_based rate))

not_one : (n u : ℕ) → (n == u) ≡ false → ¬ (n ≡ u)
not_one n u ne e = ground arith

sampler_of-SamplerFor :
    (rate : F64)
    → is_finite rate ≡ true
    → in_unit_range rate ≡ true
    → SamplerFor rate (sampler_of rate)
sampler_of-SamplerFor nan number inside = cc
sampler_of-SamplerFor (infinite negative) number inside = cc
sampler_of-SamplerFor (finite true n) number inside = inr (λ e. cc, refl)
sampler_of-SamplerFor (finite false n) number inside = elim (Bool-cases (n == unit)) [
  | inl whole ↦
      let same : n ≡ unit = (==_iff n unit).0 whole in
      inl (
        ap (finite false) same,
        rw same (
            ap (λ b. if b then always_on else trace_id_ratio_based (finite false unit))
              (whole_one unit (ground arith))),
      )
  | inr other ↦ inr (
    λ e. let same : n ≡ unit = cc in not_one n unit other same,
    ap (λ b. if b then always_on else trace_id_ratio_based (finite false n))
        (whole_below unit n (below_or n unit inside other)),
  )
]

-- After a configuration was loaded, its traces, if it has a tracing section, are exported to the
-- endpoint of that section under its service name: all of them just where the rate is one, and else
-- the share of the rate.
pub init_logging-from_file :
    (t : Toml) (c : Crates) (path : String) (chain_type : ChainType) (signer_type : SignerType)
    (p : Process) (config : RuntimeConfig c) (tracing : TracingConfig)
    → from_file t c path chain_type signer_type p ≡ ok config
    → config.tracing ≡ some tracing
    → (sampler : Sampler) × (init_logging config.tracing
        ≡ with_exporter tracing.service_name sampler tracing.otlp_endpoint)
      × SamplerFor tracing.sample_rate sampler
unfolding init_logging build_exporter_tracer
init_logging-from_file t c path chain_type signer_type p config tracing h found =
    let l = (from_file-Loaded t c path chain_type signer_type p config).0 h in
    let rate : IsTracing (some tracing) = rw (sym l.tracing ∙ found) at l.rate in
    (
      sampler_of tracing.sample_rate,
      ap init_logging found,
      sampler_of-SamplerFor tracing.sample_rate rate.0 rate.1,
    )
