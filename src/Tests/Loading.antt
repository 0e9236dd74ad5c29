-- ===== src/Tests/Loading.antt =====
-- Configurations that are loaded.
use ibc_attestor.Common.{◌≡◌, refl, false, none, some, [], ◌∷◌, ok, err, eq_bytes, if◌then◌else◌}
use ibc_attestor.Common.Double.{finite, unit}
use ibc_attestor.Common.Text.{codes}
use ibc_attestor.Adapter.Dispatch.{AdapterEnum}
use ibc_attestor.Config.{
  ServerConfig, TracingConfig, Toml, RuntimeConfig, read_to_string, utf8_from, validate,
  build_adapter, build_signer, from_file, evm, remote, local, toml, ConfigError,
}
use ibc_attestor.Config.Loaded.{Loaded}
use ibc_attestor.Config.Refused.{Refused, from_file-Refused}
use ibc_attestor.Logging.{Sampler, with_exporter, init_logging}
use ibc_attestor.Logging.Sampling.{SamplerFor, init_logging-from_file}
use ibc_attestor.Process.{Process}
use ibc_attestor.Signer.Dispatch.{SignerEnum}
use ibc_attestor.Adapter.Evm
use ibc_attestor.Signer.Remote
use ibc_attestor.Tests.{crates}

abbrev tracing : TracingConfig
tracing = record {
  otlp_endpoint = "http://tempo:4317";
  service_name = "attestor";
  sample_rate = finite false unit;
}

abbrev server : ServerConfig
server = record { listen_addr = "0.0.0.0:8080"; health_addr = "0.0.0.0:8081" }

-- A parser that knows one configuration.
abbrev toy_toml : Toml
toy_toml = record {
  Value = Unit;
  from_str =
      λ b. ok (record { server = server; adapter = tt; signer = tt; tracing = some tracing });
  into_evm =
      λ v. ok (record { url = "http://evm"; router_address = 1 ∷ []; finality_offset = none });
  into_solana = λ v. err "missing field `router_program_id`";
  into_cosmos = λ v. ok (record { url = "http://cosmos" });
  into_local = λ v. err "missing field `keystore_path`";
  into_remote = λ v. ok (record {
    endpoint = "http://signer";
    wallet_id = "wallet-1";
    service_account_token_path = none;
  });
  display = λ x. "1";
}

abbrev start : Process
start = record {
  disk = record {
    is_dir = λ q. false;
    file = λ q. if eq_bytes q (codes "a.toml") then some (97 ∷ []) else none;
    refuses = λ q. none;
  };
  env_var = λ name. none;
  stdout = [];
}

abbrev pub config : RuntimeConfig crates
config = record {
  server = server;
  adapter = AdapterEnum.evm (record {
    config = record { url = "http://evm"; router_address = 1 ∷ []; finality_offset = none };
  });
  signer = SignerEnum.remote (record {
    endpoint = "http://signer";
    wallet_id = "wallet-1";
    service_account_token_path = none;
  });
  tracing = some tracing;
}

loads : from_file toy_toml crates "a.toml" evm remote start ≡ ok config
unfolding from_file read_to_string utf8_from validate build_adapter build_signer Evm.build
    Remote.build
loads = refl

init_logging-from_file_example :
    (sampler : Sampler) × (init_logging config.tracing
      ≡ with_exporter tracing.service_name sampler tracing.otlp_endpoint)
    × SamplerFor tracing.sample_rate sampler
init_logging-from_file_example =
    init_logging-from_file toy_toml crates "a.toml" evm remote start config tracing loads refl

abbrev refusal : ConfigError
refusal = toml "missing field `keystore_path`"

refuses : from_file toy_toml crates "a.toml" evm local start ≡ err refusal
unfolding from_file read_to_string utf8_from validate build_adapter build_signer Evm.build
refuses = refl

from_file-Refused_example : Refused toy_toml crates "a.toml" evm local start refusal
from_file-Refused_example =
    from_file-Refused toy_toml crates "a.toml" evm local start refusal refuses
