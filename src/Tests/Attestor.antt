-- ===== src/Tests/Attestor.antt =====
-- The test module of apps/ibc-attestor/src/rpc/attestor.rs: its adapter over a map of commitments,
-- and its tests, which the model passes. A test is a function of the crates, and these are toy ones.
use text.Mathlib.Text.{◌==◌ as str_eq}
use ibc_attestor.Common.{
  ℕ, suc, ◌≡◌, refl, Bool, true, false, ◌&&◌, ◌==◌, String, Option, none, some, List, [], ◌∷◌,
  Result, ok, err, Bytes, is_ok, eq_bytes, length, replicate, if◌then◌else◌,
}
use ibc_attestor.Adapter.{CommitmentType, packet, ack, receipt, AttestationAdapter}
use ibc_attestor.Crates.{Crates, Packet, PacketAttestation}
use ibc_attestor.Error.{
  AttestorError, block_not_finalized, commitment_not_found, invalid_commitment,
}
use ibc_attestor.Future.{Future, return}
use ibc_attestor.Future.Collect.{collect_ordered}
use ibc_attestor.Future.Runs.{run}
use ibc_attestor.Packets.{Packets, try_from_abi_encoded}
use ibc_attestor.Rpc.Attestor.{
  validate_height, handle_packet_commitment, handle_ack_commitment, handle_receipt_commitment,
  check_packet_commitment, check_ack_commitment, check_receipt_commitment,
  create_single_packet_attestation, create_packets_attestation,
}
use ibc_attestor.Tests.{crates}
use ibc_attestor.Tests.Outside.{chain}

abbrev same_kind : CommitmentType → CommitmentType → Bool
same_kind packet packet = true
same_kind ack ack = true
same_kind receipt receipt = true
same_kind _ _ = false

record CommitmentKey : Type 0 where
  client_id : String
  height : ℕ
  sequence : ℕ
  commitment_path : Bytes
  commitment_type : CommitmentType

-- The derived equality.
abbrev same_key : CommitmentKey → CommitmentKey → Bool
same_key k l =
    str_eq k.client_id l.client_id
    && k.height == l.height
    && k.sequence == l.sequence
    && eq_bytes k.commitment_path l.commitment_path
    && same_kind k.commitment_type l.commitment_type

-- The map is a list, whose first entry for a key is the one that was inserted last.
record TestAdapter : Type 0 where
  finalized_height : ℕ
  commitments : List (CommitmentKey × Option Bytes)

abbrev with_finalized_height : ℕ → TestAdapter
with_finalized_height height = record { finalized_height = height; commitments = [] }

abbrev insert_commitment :
    String → ℕ → ℕ → Bytes → CommitmentType → Option Bytes → TestAdapter → TestAdapter
insert_commitment client_id height sequence commitment_path kind commitment self = record self {
  commitments =
      (
        record {
          client_id = client_id;
          height = height;
          sequence = sequence;
          commitment_path = commitment_path;
          commitment_type = kind;
        },
        commitment,
      )
      ∷ self.commitments;
}

-- `commitments.get(&key).copied().flatten()`
abbrev found : CommitmentKey → List (CommitmentKey × Option Bytes) → Option Bytes
found key [] = none
found key ((k, commitment) ∷ entries) = if same_key key k then commitment else found key entries

abbrev test_adapter : TestAdapter → AttestationAdapter
test_adapter self = record {
  get_last_height_at_configured_finality = return self.finalized_height;
  get_block_timestamp = λ height. return 1_700_000_000;
  get_commitment = λ client_id height sequence commitment_path kind. return (
      found
        (record {
          client_id = client_id;
          height = height;
          sequence = sequence;
          commitment_path = commitment_path;
          commitment_type = kind;
        })
        self.commitments);
}

abbrev test_packet : ℕ → Packet
test_packet sequence = record {
  sequence = sequence;
  source_client = "src-client";
  dest_client = "dst-client";
  timeout_timestamp = 123_456_789;
  payloads =
      record {
        source_port = "transfer";
        dest_port = "transfer";
        version = "ics20-1";
        encoding = "proto3";
        value = 1 ∷ 2 ∷ 3 ∷ [];
      }
      ∷ [];
}

-- What an awaited future ends with.
abbrev awaited : {A : Type 0} → Future A → A
awaited t = (run chain 0 t).1

abbrev is_not_finalized : {A : Type 0} → Result AttestorError A → Bool
is_not_finalized (err block_not_finalized) = true
is_not_finalized _ = false

abbrev is_not_found : {A : Type 0} → Result AttestorError A → Bool
is_not_found (err (commitment_not_found client sequence height)) = true
is_not_found _ = false

abbrev is_invalid : {A : Type 0} → Result AttestorError A → Bool
is_invalid (err (invalid_commitment reason)) = true
is_invalid _ = false

abbrev validate_height_accepts_finalized_height : Bool
validate_height_accepts_finalized_height =
    is_ok (awaited (validate_height (test_adapter (with_finalized_height 10)) 10))

abbrev validate_height_rejects_future_height : Bool
validate_height_rejects_future_height =
    is_not_finalized (awaited (validate_height (test_adapter (with_finalized_height 10)) 11))

-- Each test of a handler makes its packet, and an adapter with at most one commitment at height 50.
module _ (c : Crates) where
  abbrev handle_packet_commitment_succeeds_when_commitment_matches : Bool
  handle_packet_commitment_succeeds_when_commitment_matches =
      let p = test_packet 7 in
      let adapter =
        insert_commitment p.source_client 50 p.sequence (c.commitment_path p) packet
          (some (c.packet_commitment p)) (with_finalized_height 100) in
      is_ok (awaited (handle_packet_commitment c (test_adapter adapter) 50 p packet))

  abbrev handle_packet_commitment_errors_when_missing : Bool
  handle_packet_commitment_errors_when_missing = is_not_found (
      awaited (
        handle_packet_commitment c (test_adapter (with_finalized_height 100)) 50 (test_packet 8)
          packet))

  abbrev handle_packet_commitment_errors_when_mismatched : Bool
  handle_packet_commitment_errors_when_mismatched =
      let p = test_packet 9 in
      let adapter =
        insert_commitment p.source_client 50 p.sequence (c.commitment_path p) packet
          (some (replicate 32 9)) (with_finalized_height 100) in
      is_invalid (awaited (handle_packet_commitment c (test_adapter adapter) 50 p packet))

  abbrev handle_ack_commitment_succeeds_when_present : Bool
  handle_ack_commitment_succeeds_when_present =
      let p = test_packet 10 in
      let adapter =
        insert_commitment p.dest_client 50 p.sequence (c.ack_commitment_path p) ack
          (some (replicate 32 7)) (with_finalized_height 100) in
      is_ok (awaited (handle_ack_commitment c (test_adapter adapter) 50 p ack))

  abbrev handle_ack_commitment_errors_when_missing : Bool
  handle_ack_commitment_errors_when_missing = is_not_found (
      awaited (
        handle_ack_commitment c (test_adapter (with_finalized_height 100)) 50 (test_packet 11) ack))

  abbrev handle_receipt_commitment_accepts_none_as_zero : Bool
  handle_receipt_commitment_accepts_none_as_zero = is_ok (
      awaited (
        handle_receipt_commitment c (test_adapter (with_finalized_height 100)) 50 (test_packet 12)
          receipt))

  abbrev handle_receipt_commitment_rejects_non_zero_commitment : Bool
  handle_receipt_commitment_rejects_non_zero_commitment =
      let p = test_packet 13 in
      let adapter =
        insert_commitment p.dest_client 50 p.sequence (c.receipt_commitment_path p) receipt
          (some (replicate 32 1)) (with_finalized_height 100) in
      is_invalid (awaited (handle_receipt_commitment c (test_adapter adapter) 50 p receipt))

  -- The tests of a batch: two packets with their commitments, given to the adapter.
  abbrev has_two : Result AttestorError PacketAttestation → Bool
  has_two (ok a) = length a.packets == 2
  has_two (err e) = false

  abbrev with_two : ℕ → Packet → Bytes → Packet → Bytes → AttestationAdapter
  with_two height a commitment_a b commitment_b = test_adapter (
      insert_commitment b.source_client height b.sequence (c.commitment_path b) packet
        (some commitment_b)
        (insert_commitment a.source_client height a.sequence (c.commitment_path a) packet
          (some commitment_a) (with_finalized_height 100)))

  -- `abi_encode` of a packet is a parameter, and a test fails where what it gives is not decoded.
  abbrev attested :
      AttestationAdapter → ℕ → Result AttestorError Packets → Result AttestorError PacketAttestation
  attested adapter height (ok packets) =
      awaited (create_packets_attestation c adapter packets height packet)
  attested adapter height (err e) = err block_not_finalized

  module _ (abi_encode : Packet → Bytes) where
    abbrev create_packets_attestation_succeeds_when_all_packets_valid : Bool
    create_packets_attestation_succeeds_when_all_packets_valid =
        let a = test_packet 20 in
        let b = test_packet 21 in
        has_two (
          attested (with_two 60 a (c.packet_commitment a) b (c.packet_commitment b)) 60
            (try_from_abi_encoded c (abi_encode a ∷ abi_encode b ∷ [])))

    abbrev create_packets_attestation_errors_if_any_packet_is_invalid : Bool
    create_packets_attestation_errors_if_any_packet_is_invalid =
        let a = test_packet 30 in
        let b = test_packet 31 in
        is_invalid (
          attested (with_two 70 a (c.packet_commitment a) b (replicate 32 0xFF)) 70
            (try_from_abi_encoded c (abi_encode a ∷ abi_encode b ∷ [])))

-- Toy crates in which the commitment of a packet is none of the others of the tests.
abbrev test_crates : Crates
test_crates = record crates { packet_commitment = λ p. replicate 32 (suc p.sequence) }

abbrev test_encode : Packet → Bytes
test_encode p = p.sequence ∷ []

heights_pass :
    (validate_height_accepts_finalized_height && validate_height_rejects_future_height) ≡ true
unfolding run validate_height
heights_pass = refl

packets_pass :
    (handle_packet_commitment_succeeds_when_commitment_matches test_crates
      && handle_packet_commitment_errors_when_missing test_crates
      && handle_packet_commitment_errors_when_mismatched test_crates)
    ≡ true
unfolding run handle_packet_commitment check_packet_commitment
packets_pass = refl

acks_pass :
    (handle_ack_commitment_succeeds_when_present test_crates
      && handle_ack_commitment_errors_when_missing test_crates)
    ≡ true
unfolding run handle_ack_commitment check_ack_commitment
acks_pass = refl

receipts_pass :
    (handle_receipt_commitment_accepts_none_as_zero test_crates
      && handle_receipt_commitment_rejects_non_zero_commitment test_crates)
    ≡ true
unfolding run handle_receipt_commitment check_receipt_commitment
receipts_pass = refl

batches_pass :
    (create_packets_attestation_succeeds_when_all_packets_valid test_crates test_encode
      && create_packets_attestation_errors_if_any_packet_is_invalid test_crates test_encode)
    ≡ true
unfolding run create_packets_attestation create_single_packet_attestation handle_packet_commitment
    check_packet_commitment collect_ordered try_from_abi_encoded
batches_pass = refl
