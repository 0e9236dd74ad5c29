-- ===== src/Rpc/Attestor/Refused/OfPackets.antt =====
-- Why a packet request is refused.
use ibc_attestor.Common.{◌≡◌, List, [], Result, ok, err, All₂}
use ibc_attestor.Common.Collected.{FirstError}
use ibc_attestor.Common.Int.{ℤ}
use ibc_attestor.Adapter.{CommitmentType}
use ibc_attestor.Attestation.{AttestationType, new, tagged_signing_input}
use ibc_attestor.Crates.{Crates, CollectLaws, PacketAttestation}
use ibc_attestor.Error.{
  AttestorError, SignerError, signer_error, signer_error_text, malformed_commitment_error, Status,
}
use ibc_attestor.Future.{Future}
use ibc_attestor.Future.Among.{RunsAmong}
use ibc_attestor.Future.Runs.{Happening, RunsIn}
use ibc_attestor.Packets.{Packets, try_from_abi_encoded}
use ibc_attestor.Rpc.{PacketAttestationRequest, commitment_type_try_from}
use ibc_attestor.Rpc.Attestor.{AttestorService, create_packets_attestation}
use ibc_attestor.Rpc.Attestor.Commitments.{Outcome}
use ibc_attestor.Rpc.Attestor.Refused.{status_of, RefusesHeight, PassesHeight}
use ibc_attestor.Common.{All₂}

-- Why a packet request is refused: it cannot be decoded, which the adapter is not asked about; its
-- height is; the height passed, and a packet is not attested, after others that are; or all of them
-- are, and the signer does not sign.
pub data RefusesPackets (c : Crates) (self : AttestorService c) (request : PacketAttestationRequest)
    (h : List Happening) (s : Status) : Type 0 where
  undecodable :
      (e : AttestorError)
      → try_from_abi_encoded c request.packets ≡ err e
      → h ≡ []
      → s ≡ status_of c e
      → RefusesPackets c self request h s
  unknown_kind :
      (packets : Packets)
      → try_from_abi_encoded c request.packets ≡ ok packets
      → (value : ℤ) → commitment_type_try_from request.commitment_type ≡ err value
      → h ≡ []
      → s ≡ status_of c (malformed_commitment_error value)
      → RefusesPackets c self request h s
  refused_height : RefusesHeight c self request.height h s → RefusesPackets c self request h s
  refused_packet :
      PassesHeight c self request.height h
      → (packets : Packets) (kind : CommitmentType)
      → try_from_abi_encoded c request.packets ≡ ok packets
      → commitment_type_try_from request.commitment_type ≡ ok kind
      → (e : AttestorError)
      → FirstError (Outcome c (RunsAmong h) self.adapter request.height kind) packets.packets e
      → s ≡ status_of c e
      → RefusesPackets c self request h s
  packets_unsigned :
      PassesHeight c self request.height h
      → (packets : Packets) (kind : CommitmentType)
      → try_from_abi_encoded c request.packets ≡ ok packets
      → commitment_type_try_from request.commitment_type ≡ ok kind
      → (unsigned : PacketAttestation) → unsigned.height ≡ request.height
      → All₂
          (λ p compact. Outcome c (RunsAmong h) self.adapter request.height kind p (ok compact))
          packets.packets
          unsigned.packets
      → (e : SignerError)
      → RunsIn
          (self.signer.sign
            (tagged_signing_input c (new (c.abi_encode_packets unsigned) AttestationType.packet)))
          (err e)
          h
      → s ≡ status_of c (signer_error (signer_error_text e))
      → RefusesPackets c self request h s

module _ (c : Crates) (self : AttestorService c) (h : List Happening) (s : Status) where
  module _ (laws : CollectLaws c) (request : PacketAttestationRequest) (packets : Packets)
      (kind : CommitmentType) (decoded : try_from_abi_encoded c request.packets ≡ ok packets)
      (asked : commitment_type_try_from request.commitment_type ≡ ok kind) where
    abbrev created : Future (Result AttestorError PacketAttestation)
    created = create_packets_attestation c self.adapter packets request.height kind
