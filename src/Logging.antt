-- ===== src/Logging.antt =====
-- Which traces are exported: apps/ibc-attestor/src/logging.rs, without the subscriber and its layers.
pub mod Sampling
use ibc_attestor.Common.{String, Bool, Option, none, some, if◌then◌else◌}
use ibc_attestor.Common.Double.{F64, trunc, minus_one_is_zero}
use ibc_attestor.Config.{TracingConfig}

-- The samplers of opentelemetry_sdk that the source builds.
pub data Sampler : Type 0 where
  always_on : Sampler
  trace_id_ratio_based : F64 → Sampler

-- `SdkTracerProvider`, by what its builder was given: a sampler and the endpoint of an exporter, or
-- neither.
pub data TracerProvider : Type 0 where
  without_exporter : String → TracerProvider
  with_exporter : String → Sampler → String → TracerProvider

-- DEFAULT_SERVICE_NAME
abbrev pub default_service_name : String
default_service_name = "ibc-attestor"

abbrev pub sampler_of : F64 → Sampler
sampler_of rate = if minus_one_is_zero (trunc rate) then always_on else trace_id_ratio_based rate

unfoldable pub build_exporter_tracer : TracingConfig → String → TracerProvider
build_exporter_tracer config service_name =
    with_exporter service_name (sampler_of config.sample_rate) config.otlp_endpoint

abbrev pub service_of : Option TracingConfig → String
service_of none = default_service_name
service_of (some config) = config.service_name

-- The provider in the guard.
unfoldable pub init_logging : Option TracingConfig → TracerProvider
unfolding build_exporter_tracer
init_logging none = without_exporter (service_of none)
init_logging (some config) = build_exporter_tracer config (service_of (some config))
