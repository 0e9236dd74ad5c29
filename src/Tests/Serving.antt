-- ===== src/Tests/Serving.antt =====
-- A run of the server command.
use ibc_attestor.Common.{ℕ, none, some, [], ◌∷◌, refl, ◌≤◌, ◌⊎◌, ok}
use ibc_attestor.Adapter.Dispatch
use ibc_attestor.Adapter.Dispatch.{evm}
use ibc_attestor.Adapter.Evm
use ibc_attestor.Adapter.Retry.{with_retry_backoff}
use ibc_attestor.Attestation.{AttestationType, new, sign_attestation, tagged_signing_input}
use ibc_attestor.Config.{RuntimeConfig}
use ibc_attestor.Future.Runs.{run, run-Run}
use ibc_attestor.Keys
use ibc_attestor.Rpc.Attestor.{state_attestation, validate_height}
use ibc_attestor.Rpc.Attestor.Signed.{IsSigned}
use ibc_attestor.Servers.Served.{ChainAt, ChainTime, service_of-attested}
use ibc_attestor.Signer.Dispatch as SignerDispatch
use ibc_attestor.Signer.Dispatch.{SignerEnum, signer_enum}
use ibc_attestor.Signer.Local
use ibc_attestor.Tests.Attesting.{service, state_request, state_response, state_run}
use ibc_attestor.Tests.Outside.{chain}
use ibc_attestor.Servers.{
  System, started, run_servers, shut_down, Reaches, here, next, launch, signalled, interrupt,
}
use ibc_attestor.Servers.Ending.{CanStep, HasReturned, Reaches-ends}
use ibc_attestor.Servers.Phases.{Phase, Reaches-Phase}
use ibc_attestor.Tests.{crates, retry_if, delays_from, retry_laws}
use ibc_attestor.Tests.Counting.{toy}
use ibc_attestor.Tests.Loading.{config}

-- The launch, and an interrupt.
abbrev launched : System toy crates
launched = run_servers toy crates config (started toy crates (ok config))

abbrev stopping : System toy crates
stopping = shut_down toy crates launched

stops : Reaches toy crates (started toy crates (ok config)) 2 stopping
unfolding run_servers
stops =
    next 1 launched stopping
      (next 0 (started toy crates (ok config)) launched here (launch config refl))
      (signalled interrupt refl)

Reaches-Phase_example : Phase toy crates config stopping.main stopping
Reaches-Phase_example = Reaches-Phase toy crates config 2 stopping stops

Reaches-ends_example : (2 ≤ 6) × (CanStep toy crates stopping ⊎ HasReturned toy crates stopping)
Reaches-ends_example = Reaches-ends toy crates (ok config) 2 stopping stops

-- An EVM chain, and a key.
abbrev pub loaded : RuntimeConfig crates
loaded = record {
  server = config.server;
  adapter = evm (record {
    config = record { url = "http://evm"; router_address = 5 ∷ []; finality_offset = none };
  });
  signer = SignerEnum.local (record { inner = 42 });
  tracing = none;
}

service_of-attested_example :
    (finalized : ℕ) × (timestamp : ℕ) × ChainAt loaded.adapter finalized state_run
    × (60 ≤ finalized)
    × ChainTime crates loaded.adapter 60 timestamp state_run
    × IsSigned crates
        (signer_enum crates loaded.signer)
        60
        (some timestamp)
        (new (60 ∷ timestamp ∷ []) AttestationType.state)
        state_run
        state_response.attestation
unfolding run state_attestation validate_height sign_attestation
    Dispatch.get_last_height_at_configured_finality Evm.get_last_height_at_configured_finality
    Evm.get_block_timestamp with_retry_backoff retry_if delays_from tagged_signing_input
    SignerDispatch.sign Local.sign Keys.sign
service_of-attested_example =
    service_of-attested crates retry_laws toy loaded state_run state_request state_response
      (run-Run chain 0 (state_attestation crates service state_request))
