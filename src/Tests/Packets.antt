-- ===== src/Tests/Packets.antt =====
-- Single packets, batches and heights, against an EVM chain.
use ibc_attestor.Common.{◌≡◌, none, List, [], ◌∷◌, ok, err, replicate, All₂}
use ibc_attestor.Common.Collected.{FirstError}
use ibc_attestor.Adapter.{packet, AttestationAdapter}
use ibc_attestor.Adapter.Dispatch
use ibc_attestor.Adapter.Dispatch.{adapter_enum, i64_max}
use ibc_attestor.Adapter.Evm
use ibc_attestor.Adapter.Evm.{EvmAdapter, evm_adapter}
use ibc_attestor.Adapter.Retry.{with_retry_backoff}
use ibc_attestor.Crates.{PacketCompact, PacketAttestation}
use ibc_attestor.Error.{AttestorError}
use ibc_attestor.Future.Collect.{collect_ordered}
use ibc_attestor.Future.Among.{RunsAmong}
use ibc_attestor.Future.Runs.{Happening, run, run-Run}
use ibc_attestor.Packets.{Packets}
use ibc_attestor.Rpc.Attestor.{
  validate_height, check_packet_commitment, handle_packet_commitment,
  create_single_packet_attestation, create_packets_attestation,
}
use ibc_attestor.Rpc.Attestor.Batches.{
  create_packets_attestation-attested, create_packets_attestation-FirstError,
}
use ibc_attestor.Rpc.Attestor.Commitments.{Outcome, create_single_packet_attestation-Outcome}
use ibc_attestor.Rpc.Attestor.Heights.{Validated, validate_height-Validated}
use ibc_attestor.Tests.{crates, collect_laws, retry_if, delays_from, toy_packet}
use ibc_attestor.Tests.Outside.{chain}

abbrev evm : EvmAdapter
evm = record {
  config = record { url = "http://evm"; router_address = 5 ∷ []; finality_offset = none };
}

abbrev adapter : AttestationAdapter
adapter = adapter_enum crates (Dispatch.evm evm)

-- Height 101 is one beyond the finalized one.
abbrev beyond_run : List Happening
beyond_run = (run chain 0 (validate_height adapter 101)).0

validate_height-Validated_example :
    Validated adapter 101 beyond_run (err AttestorError.block_not_finalized)
unfolding run validate_height Dispatch.get_last_height_at_configured_finality
    Evm.get_last_height_at_configured_finality with_retry_backoff retry_if delays_from
validate_height-Validated_example =
    validate_height-Validated adapter 101 beyond_run (err AttestorError.block_not_finalized)
      (run-Run chain 0 (validate_height adapter 101))

abbrev compact : PacketCompact
compact = record { path = replicate 32 2; commitment = replicate 32 7 }

abbrev single_run : List Happening
single_run =
    (run chain 0 (create_single_packet_attestation crates adapter 60 (toy_packet 7) packet)).0

create_single_packet_attestation-Outcome_example :
    Outcome crates (RunsAmong single_run) adapter 60 packet (toy_packet 7) (ok compact)
unfolding run create_single_packet_attestation handle_packet_commitment check_packet_commitment
    Evm.get_commitment with_retry_backoff retry_if delays_from
create_single_packet_attestation-Outcome_example =
    create_single_packet_attestation-Outcome crates adapter 60 (toy_packet 7) packet single_run
      (ok compact)
      (run-Run chain 0 (create_single_packet_attestation crates adapter 60 (toy_packet 7) packet))

abbrev two_packets : Packets
two_packets = record { packets = toy_packet 7 ∷ toy_packet 7 ∷ [] }

abbrev attested : PacketAttestation
attested = record { height = 60; packets = compact ∷ compact ∷ [] }

abbrev batch_run : List Happening
batch_run = (run chain 0 (create_packets_attestation crates adapter two_packets 60 packet)).0

create_packets_attestation-attested_example :
    (attested.height ≡ 60)
    × All₂
        (λ p k. Outcome crates (RunsAmong batch_run) adapter 60 packet p (ok k))
        two_packets.packets
        attested.packets
unfolding run create_packets_attestation create_single_packet_attestation handle_packet_commitment
    check_packet_commitment Evm.get_commitment with_retry_backoff retry_if delays_from
    collect_ordered
create_packets_attestation-attested_example =
    create_packets_attestation-attested crates collect_laws adapter two_packets 60 packet batch_run
      attested (run-Run chain 0 (create_packets_attestation crates adapter two_packets 60 packet))

-- The packet with the sequence 8 is not the one on the chain.
abbrev mixed_packets : Packets
mixed_packets = record { packets = toy_packet 7 ∷ toy_packet 8 ∷ toy_packet 9 ∷ [] }

abbrev mixed_error : AttestorError
mixed_error =
    AttestorError.invalid_commitment
      "Packet commitment mismatch for client_id=src-client seq=8: expected 0x.., got 0x.."

abbrev mixed_run : List Happening
mixed_run = (run chain 0 (create_packets_attestation crates adapter mixed_packets 60 packet)).0

create_packets_attestation-FirstError_example :
    FirstError
      (Outcome crates (RunsAmong mixed_run) adapter 60 packet)
      mixed_packets.packets
      mixed_error
unfolding run create_packets_attestation create_single_packet_attestation handle_packet_commitment
    check_packet_commitment Evm.get_commitment with_retry_backoff retry_if delays_from
    collect_ordered
create_packets_attestation-FirstError_example =
    create_packets_attestation-FirstError crates collect_laws adapter mixed_packets 60 packet
      mixed_run mixed_error
      (run-Run chain 0 (create_packets_attestation crates adapter mixed_packets 60 packet))
