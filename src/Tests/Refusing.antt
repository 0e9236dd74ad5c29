-- ===== src/Tests/Refusing.antt =====
-- Requests that the service refuses.
use ibc_attestor.Common.{List, [], ◌∷◌}
use ibc_attestor.Common.Int.{pos}
use ibc_attestor.Adapter.Dispatch
use ibc_attestor.Adapter.Evm
use ibc_attestor.Adapter.Retry.{with_retry_backoff}
use ibc_attestor.Error.{AttestorError, Status}
use ibc_attestor.Future.Runs.{Happening, run, run-Run}
use ibc_attestor.Rpc.{StateAttestationRequest, PacketAttestationRequest}
use ibc_attestor.Rpc.Attestor.{validate_height, state_attestation, packet_attestation}
use ibc_attestor.Rpc.Attestor.Refused.{status_of}
use ibc_attestor.Rpc.Attestor.Refused.OfState.{RefusesState, state_attestation-RefusesState}
use ibc_attestor.Tests.{crates, retry_if, delays_from}
use ibc_attestor.Tests.Attesting.{service}
use ibc_attestor.Tests.Outside.{chain}

-- A height that is one beyond the finalized one.
abbrev state_request : StateAttestationRequest
state_request = record { height = 101 }

abbrev state_run : List Happening
state_run = (run chain 0 (state_attestation crates service state_request)).0

abbrev not_finalized : Status
not_finalized = status_of crates AttestorError.block_not_finalized

state_attestation-RefusesState_example : RefusesState crates service 101 state_run not_finalized
unfolding run state_attestation validate_height Dispatch.get_last_height_at_configured_finality
    Evm.get_last_height_at_configured_finality with_retry_backoff retry_if delays_from
state_attestation-RefusesState_example =
    state_attestation-RefusesState crates service state_run not_finalized state_request
      (run-Run chain 0 (state_attestation crates service state_request))

-- The second packet is not the one on the chain.
abbrev packet_request : PacketAttestationRequest
packet_request = record { packets = (7 ∷ []) ∷ (8 ∷ []) ∷ []; height = 60; commitment_type = pos 0 }

abbrev packet_run : List Happening
packet_run = (run chain 0 (packet_attestation crates service packet_request)).0

abbrev mismatch : Status
mismatch = status_of crates (
    AttestorError.invalid_commitment
      "Packet commitment mismatch for client_id=src-client seq=8: expected 0x.., got 0x..")
