-- ===== src/Rpc/Attestor.antt =====
-- `AttestorService` of apps/ibc-attestor/src/rpc/attestor.rs: the three requests of the service.
pub mod Heights
pub mod Granted
pub mod Replies
pub mod Requests
pub mod Refused
pub mod Emitted
pub mod Signed
pub mod Batches
pub mod Commitments
use ibc_attestor.Common.{
  ℕ, String, ◌<>◌, Option, none, some, map, Result, err, Bytes, map_err, map_ok, collect, ltb, min,
  eq_bytes, replicate, if◌then◌else◌,
}
use ibc_attestor.Common.Int.{ℤ, pos, ltb_ℤ, ◌-ℤ◌, negsuc}
use ibc_attestor.Common.Text.{decimal}
use ibc_attestor.Adapter.{CommitmentType, packet, ack, receipt, AttestationAdapter}
use ibc_attestor.Adapter.Dispatch.{i64_max}
use ibc_attestor.Attestation.{AttestationType, SignedAttestation, new, sign_attestation}
use ibc_attestor.Crates.{Crates, Packet, PacketCompact, PacketAttestation}
use ibc_attestor.Error.{
  AttestorError, invalid_commitment, commitment_not_found, adapter_error,
  malformed_commitment_error, Status, status_from,
}
use ibc_attestor.Future.{Future, ready, emits, fmap, ◌>>=◌, ◌>>◌, return, report}
use ibc_attestor.Packets.{Packets, try_from_abi_encoded, into_iter}
use ibc_attestor.Rpc.{
  Attestation, LatestHeightResponse, StateAttestationRequest, StateAttestationResponse,
  PacketAttestationRequest, PacketAttestationResponse, commitment_type_try_from,
}
use ibc_attestor.Signer.{Signer}
use ibc_attestor.World.{height_lag, height_rejection, commitment_failure}

pub record AttestorService (c : Crates) : Type 0 where
  pub adapter : AttestationAdapter
  pub adapter_name : String
  pub signer : Signer c
  pub signer_name : String

-- `i64::saturating_sub`, on the exact difference.
unfoldable pub saturate : ℤ → ℤ
saturate d =
    if ltb_ℤ (pos i64_max) d
    then pos i64_max
    else if ltb_ℤ d (negsuc i64_max)
    then negsuc i64_max
    else d

-- `i64::try_from(n).unwrap_or(i64::MAX)` of a `u64` is the smaller of the two.
unfoldable pub lag : ℕ → ℕ → ℤ
unfolding saturate ◌-ℤ◌
lag finalized height = saturate (pos (min finalized i64_max) -ℤ pos (min height i64_max))

-- What follows the answer for the finalized height.
unfoldable pub compare_height : ℕ → ℕ → Future (Result AttestorError (Unit {0}))
compare_height height finalized =
    report (height_lag (lag finalized height))
    >> (if ltb finalized height
        then emits height_rejection (ready (err AttestorError.block_not_finalized))
        else return tt)

unfoldable pub validate_height : AttestationAdapter → ℕ → Future (Result AttestorError (Unit {0}))
unfolding compare_height
validate_height adapter height = do
  finalized ← fmap (map_err adapter_error) adapter.get_last_height_at_configured_finality
  compare_height height finalized

module _ (c : Crates) where
  -- What `handle_packet_commitment` makes of the commitment on the chain.
  unfoldable pub check_packet_commitment :
      ℕ → Packet → Option Bytes → Future (Result AttestorError PacketCompact)
  unfolding decimal
  check_packet_commitment height p none =
      emits (commitment_failure "not_found")
        (ready (err (commitment_not_found p.source_client p.sequence height)))
  check_packet_commitment height p (some commitment) =
      let expected = c.packet_commitment p in
      if eq_bytes expected commitment
      then return (record { path = c.keccak256 (c.commitment_path p); commitment = commitment })
      else emits (commitment_failure "mismatch") (
          ready (
            err (
              invalid_commitment (
                "Packet commitment mismatch for client_id="
                <> (p.source_client
                    <> (" seq="
                        <> (decimal p.sequence
                            <> (": expected 0x"
                                <> (c.hex_encode expected
                                    <> (", got 0x" <> c.hex_encode commitment))))))))))

  unfoldable pub handle_packet_commitment :
      AttestationAdapter → ℕ → Packet → CommitmentType → Future (Result AttestorError PacketCompact)
  handle_packet_commitment adapter height p kind = do
    commitment ←
        fmap (map_err adapter_error)
          (adapter.get_commitment p.source_client height p.sequence (c.commitment_path p) kind)
    check_packet_commitment height p commitment

  unfoldable pub check_ack_commitment :
      ℕ → Packet → Option Bytes → Future (Result AttestorError PacketCompact)
  check_ack_commitment height p none =
      emits (commitment_failure "not_found")
        (ready (err (commitment_not_found p.dest_client p.sequence height)))
  check_ack_commitment height p (some commitment) =
      return (record { path = c.keccak256 (c.ack_commitment_path p); commitment = commitment })

  unfoldable pub handle_ack_commitment :
      AttestationAdapter → ℕ → Packet → CommitmentType → Future (Result AttestorError PacketCompact)
  handle_ack_commitment adapter height p kind = do
    commitment ←
        fmap (map_err adapter_error)
          (adapter.get_commitment p.dest_client height p.sequence (c.ack_commitment_path p) kind)
    check_ack_commitment height p commitment

  unfoldable pub check_receipt_commitment :
      Packet → Option Bytes → Future (Result AttestorError PacketCompact)
  unfolding decimal
  check_receipt_commitment p none =
      return
        (record { path = c.keccak256 (c.receipt_commitment_path p); commitment = replicate 32 0 })
  check_receipt_commitment p (some commitment) = emits (commitment_failure "unexpected_receipt") (
      ready (
        err (
          invalid_commitment (
            "Receipt commitment should be zero for client_id="
            <> (p.dest_client
                <> (" seq=" <> (decimal p.sequence <> (": got 0x" <> c.hex_encode commitment))))))))

  unfoldable pub handle_receipt_commitment :
      AttestationAdapter → ℕ → Packet → CommitmentType → Future (Result AttestorError PacketCompact)
  handle_receipt_commitment adapter height p kind = do
    commitment ←
        fmap (map_err adapter_error) (
          adapter.get_commitment p.dest_client height p.sequence (c.receipt_commitment_path p) kind)
    check_receipt_commitment p commitment

  unfoldable pub create_single_packet_attestation :
      AttestationAdapter → ℕ → Packet → CommitmentType → Future (Result AttestorError PacketCompact)
  unfolding handle_packet_commitment handle_ack_commitment handle_receipt_commitment
  create_single_packet_attestation adapter height p packet =
      handle_packet_commitment adapter height p packet
  create_single_packet_attestation adapter height p ack = handle_ack_commitment adapter height p ack
  create_single_packet_attestation adapter height p receipt =
      handle_receipt_commitment adapter height p receipt

  unfoldable pub create_packets_attestation :
      AttestationAdapter
      → Packets
      → ℕ
      → CommitmentType
      → Future (Result AttestorError PacketAttestation)
  create_packets_attestation adapter packets height kind =
      let futures =
        map (λ p. create_single_packet_attestation adapter height p kind) (into_iter packets) in
      fmap
        (λ validations. map_ok (λ l. record { height = height; packets = l }) (collect validations))
        (c.collect_ordered futures)

  abbrev pub attestation_of : SignedAttestation → Attestation
  attestation_of signed = record {
    height = signed.height;
    timestamp = signed.timestamp;
    attested_data = signed.attested_data;
    signature = signed.signature;
  }

  -- `?` on an `AttestorError` in a request.
  abbrev pub to_status : {A : Type 0} → Result AttestorError A → Result Status A
  to_status r = map_err (status_from c.unknown_enum_value_text) r

module _ (c : Crates) (self : AttestorService c) where
  unfoldable pub latest_height : Future (Result Status LatestHeightResponse)
  latest_height = do
    height ←
        fmap (λ r. to_status c (map_err adapter_error r))
          self.adapter.get_last_height_at_configured_finality
    return (record { height = height })

  -- The end of `state_attestation`: the unsigned attestation, signed.
  unfoldable pub sign_state : ℕ → ℕ → Future (Result Status StateAttestationResponse)
  sign_state height timestamp = do
    signed ← fmap (to_status c) (
        sign_attestation c height (some timestamp)
          (new (c.abi_encode_state (record { height = height; timestamp = timestamp }))
            AttestationType.state)
          self.signer)
    return (record { attestation = some (attestation_of c signed) })

  -- What follows the validation of the height.
  unfoldable pub attest_state : ℕ → Future (Result Status StateAttestationResponse)
  attest_state height = do
    timestamp ←
        fmap (λ r. to_status c (map_err adapter_error r)) (self.adapter.get_block_timestamp height)
    sign_state height timestamp

  unfoldable pub state_attestation :
      StateAttestationRequest → Future (Result Status StateAttestationResponse)
  unfolding sign_state attest_state
  state_attestation request = do
    fmap (to_status c) (validate_height self.adapter request.height)
    attest_state request.height

  -- The end of `packet_attestation`: the unsigned attestation, signed.
  unfoldable pub sign_packets :
      ℕ → PacketAttestation → Future (Result Status PacketAttestationResponse)
  sign_packets height unsigned = do
    signed ← fmap (to_status c) (
        sign_attestation c height none (new (c.abi_encode_packets unsigned) AttestationType.packet)
          self.signer)
    return (record { attestation = some (attestation_of c signed) })

  -- What follows the validation of the height.
  unfoldable pub attest_packets :
      ℕ → Packets → CommitmentType → Future (Result Status PacketAttestationResponse)
  attest_packets height packets kind = do
    unsigned ← fmap (to_status c) (create_packets_attestation c self.adapter packets height kind)
    sign_packets height unsigned

  -- What follows the decoding of the request.
  unfoldable pub validate_and_attest :
      ℕ → Packets → CommitmentType → Future (Result Status PacketAttestationResponse)
  validate_and_attest height packets kind = do
    fmap (to_status c) (validate_height self.adapter height)
    attest_packets height packets kind

  -- The packets and the commitment type of a request.
  unfoldable pub decode_kind : ℤ → Result Status CommitmentType
  decode_kind value =
      to_status c (map_err malformed_commitment_error (commitment_type_try_from value))

  unfoldable pub packet_attestation :
      PacketAttestationRequest → Future (Result Status PacketAttestationResponse)
  unfolding sign_packets attest_packets validate_and_attest decode_kind
  packet_attestation request = do
    packets ← ready (to_status c (try_from_abi_encoded c request.packets))
    kind ← ready (decode_kind request.commitment_type)
    validate_and_attest request.height packets kind
