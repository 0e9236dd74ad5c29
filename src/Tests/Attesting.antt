-- ===== src/Tests/Attesting.antt =====
-- Requests to a service with an EVM adapter and a local key.
use ibc_attestor.Common.{arith, refl, some, none, List, [], ◌∷◌, ok, replicate}
use ibc_attestor.Common.Int.{pos}
use ibc_attestor.Adapter.Dispatch
use ibc_attestor.Adapter.Dispatch.{adapter_enum}
use ibc_attestor.Adapter.Evm
use ibc_attestor.Adapter.Retry.{with_retry_backoff}
use ibc_attestor.Attestation.{sign_attestation, tagged_signing_input, AttestationPayload}
use ibc_attestor.Future.Runs.{Happening, run, run-Run, Returns}
use ibc_attestor.Keys
use ibc_attestor.Packets.{try_from_abi_encoded}
use ibc_attestor.Rpc.{
  StateAttestationRequest, StateAttestationResponse, PacketAttestationRequest,
  PacketAttestationResponse, commitment_type_try_from,
}
use ibc_attestor.Rpc.Attestor.{
  AttestorService, validate_height, create_single_packet_attestation, state_attestation,
  packet_attestation,
}
use ibc_attestor.Rpc.Attestor.Requests.{AttestsState, state_attestation-attested}
use ibc_attestor.Signer.Dispatch as SignerDispatch
use ibc_attestor.Signer.Dispatch.{signer_enum}
use ibc_attestor.Signer.Local
use ibc_attestor.Adapter.{packet}
use ibc_attestor.Crates.{PacketCompact}
use ibc_attestor.Rpc.Attestor.Commitments.{Outcome, lookup}
use ibc_attestor.Rpc.Attestor.Granted.{create_single_packet_attestation-granted}
use ibc_attestor.Rpc.Attestor.Replies.{
  state_payload, packets_payload, state_attestation-granted, packet_attestation-granted,
}
use ibc_attestor.Tests.{toy_packet, crates, collect_laws, retry_if, delays_from}
use ibc_attestor.Tests.Outside.{chain}

abbrev pub service : AttestorService crates
service = record {
  adapter = adapter_enum crates (
      Dispatch.evm (record {
        config = record { url = "http://evm"; router_address = 5 ∷ []; finality_offset = none };
      }));
  adapter_name = "evm";
  signer = signer_enum crates (SignerDispatch.local (record { inner = 42 }));
  signer_name = "local";
}

abbrev pub state_request : StateAttestationRequest
state_request = record { height = 60 }

abbrev pub state_response : StateAttestationResponse
state_response = record {
  attestation = some (record {
    height = 60;
    timestamp = some 1_700_000_000;
    attested_data = 60 ∷ 1_700_000_000 ∷ [];
    signature = 42 ∷ replicate 64 0;
  });
}

abbrev pub state_run : List Happening
state_run = (run chain 0 (state_attestation crates service state_request)).0

state_attestation-attested_example :
    AttestsState crates service 60 state_run state_response.attestation
unfolding run state_attestation validate_height sign_attestation
    Dispatch.get_last_height_at_configured_finality Evm.get_last_height_at_configured_finality
    Evm.get_block_timestamp with_retry_backoff retry_if delays_from tagged_signing_input
    SignerDispatch.sign Local.sign Keys.sign
state_attestation-attested_example =
    state_attestation-attested crates service state_run state_request state_response
      (run-Run chain 0 (state_attestation crates service state_request))

abbrev pub packet_request : PacketAttestationRequest
packet_request = record { packets = (7 ∷ []) ∷ []; height = 60; commitment_type = pos 0 }

abbrev pub packet_response : PacketAttestationResponse
packet_response = record {
  attestation = some (record {
    height = 60;
    timestamp = none;
    attested_data = 60 ∷ 1 ∷ [];
    signature = 42 ∷ replicate 64 0;
  });
}

abbrev pub packet_run : List Happening
packet_run = (run chain 0 (packet_attestation crates service packet_request)).0

abbrev finality_run : List Happening
finality_run = (run chain 0 service.adapter.get_last_height_at_configured_finality).0

abbrev timestamp_run : List Happening
timestamp_run = (run chain 0 (service.adapter.get_block_timestamp 60)).0

abbrev lookup_run : List Happening
lookup_run = (run chain 0 (lookup crates service.adapter 60 packet (toy_packet 7))).0

abbrev sign_run : AttestationPayload → List Happening
sign_run payload = (run chain 0 (service.signer.sign (tagged_signing_input crates payload))).0

state_attestation-granted_example :
    Returns (state_attestation crates service state_request) (ok state_response)
unfolding run Dispatch.get_last_height_at_configured_finality
    Evm.get_last_height_at_configured_finality Evm.get_block_timestamp with_retry_backoff retry_if
    delays_from tagged_signing_input SignerDispatch.sign Local.sign Keys.sign
state_attestation-granted_example =
    state_attestation-granted crates service state_request 100 1_700_000_000 42
      (finality_run, run-Run chain 0 service.adapter.get_last_height_at_configured_finality)
      (omega arith) (timestamp_run, run-Run chain 0 (service.adapter.get_block_timestamp 60))
      (
        sign_run (state_payload crates 60 1_700_000_000),
        run-Run chain 0 (
            service.signer.sign
              (tagged_signing_input crates (state_payload crates 60 1_700_000_000))),
      )

abbrev entry : PacketCompact
entry = record { path = replicate 32 2; commitment = replicate 32 7 }

entry_proved : Outcome crates Returns service.adapter 60 packet (toy_packet 7) (ok entry)
unfolding run Evm.get_commitment with_retry_backoff retry_if delays_from
entry_proved = (
  some (replicate 32 7),
  (lookup_run, run-Run chain 0 (lookup crates service.adapter 60 packet (toy_packet 7))),
  refl,
  (refl, refl),
)

create_single_packet_attestation-granted_example :
    Returns
      (create_single_packet_attestation crates service.adapter 60 (toy_packet 7) packet)
      (ok entry)
create_single_packet_attestation-granted_example =
    create_single_packet_attestation-granted crates service.adapter 60 (toy_packet 7) packet entry
      entry_proved

packet_attestation-granted_example :
    Returns (packet_attestation crates service packet_request) (ok packet_response)
unfolding run try_from_abi_encoded commitment_type_try_from
    Dispatch.get_last_height_at_configured_finality Evm.get_last_height_at_configured_finality
    with_retry_backoff retry_if delays_from tagged_signing_input SignerDispatch.sign Local.sign
    Keys.sign
packet_attestation-granted_example =
    packet_attestation-granted crates service collect_laws packet_request
      (record { packets = toy_packet 7 ∷ [] }) packet 100 (entry ∷ []) 42 refl refl
      (finality_run, run-Run chain 0 service.adapter.get_last_height_at_configured_finality)
      (omega arith) (entry_proved, tt)
      (
        sign_run (packets_payload crates 60 (entry ∷ [])),
        run-Run chain 0 (
            service.signer.sign
              (tagged_signing_input crates (packets_payload crates 60 (entry ∷ [])))),
      )
