-- ===== src/Rpc/Attestor/Replies.antt =====
-- When a request is answered: what the adapter and the signer must be able to return.
use ibc_attestor.Common.{ℕ, ◌≤◌, ◌≡◌, refl, [], Option, none, some, ok, map_err, List, All₂}
use ibc_attestor.Adapter.{CommitmentType}
use ibc_attestor.Attestation.{
  AttestationType, AttestationPayload, SignedAttestation, new, tagged_signing_input,
  sign_attestation,
}
use ibc_attestor.Packets.{Packets, try_from_abi_encoded}
use ibc_attestor.Rpc.{
  PacketAttestationRequest, PacketAttestationResponse, commitment_type_try_from,
  StateAttestationRequest, StateAttestationResponse,
}
use ibc_attestor.Rpc.Attestor.{
  sign_packets, attest_packets, validate_and_attest, decode_kind, packet_attestation,
  create_packets_attestation, AttestorService, validate_height, to_status, attestation_of,
  sign_state, attest_state, state_attestation,
}
use ibc_attestor.Rpc.Attestor.Granted.{validate_height-granted, create_packets_attestation-granted}
use ibc_attestor.Crates.{CollectLaws, Crates, PacketCompact}
use ibc_attestor.Error.{adapter_error, signer_error, signer_error_text, Status}
use ibc_attestor.Future.{fmap, return}
use ibc_attestor.Future.Runs.{Returns, fmap-Returns, >>=-Returns}
use ibc_attestor.Rpc.Attestor.Commitments.{Outcome}

module _ (c : Crates) where
  -- The payload that a state request signs.
  abbrev pub state_payload : ℕ → ℕ → AttestationPayload
  state_payload height timestamp =
      new (c.abi_encode_state (record { height = height; timestamp = timestamp }))
        AttestationType.state

  -- The payload that a packet request signs.
  abbrev pub packets_payload : ℕ → List PacketCompact → AttestationPayload
  packets_payload height l =
      new (c.abi_encode_packets (record { height = height; packets = l })) AttestationType.packet

  -- An attestation with a given signature.
  abbrev pub signed_with : ℕ → Option ℕ → AttestationPayload → c.Signature → SignedAttestation
  signed_with height timestamp payload s = record {
    height = height;
    timestamp = timestamp;
    attested_data = payload.bytes;
    signature = c.as_bytes s;
  }

module _ (c : Crates) (self : AttestorService c) where
  asked_timestamp-granted :
      (height timestamp : ℕ)
      → Returns (self.adapter.get_block_timestamp height) (ok timestamp)
      → Returns
          (fmap
            (λ r. to_status c (map_err adapter_error r))
            (self.adapter.get_block_timestamp height))
          (ok timestamp)
  asked_timestamp-granted height timestamp asked =
      fmap-Returns (λ r. to_status c (map_err adapter_error r))
        (self.adapter.get_block_timestamp height) (ok timestamp) asked

  sign_attestation-granted :
      (height : ℕ) (timestamp : Option ℕ) (payload : AttestationPayload) (s : c.Signature)
      → Returns (self.signer.sign (tagged_signing_input c payload)) (ok s)
      → Returns
          (fmap (to_status c) (sign_attestation c height timestamp payload self.signer))
          (ok (signed_with c height timestamp payload s))
  unfolding sign_attestation
  sign_attestation-granted height timestamp payload s made =
      fmap-Returns (to_status c) (sign_attestation c height timestamp payload self.signer)
        (ok (signed_with c height timestamp payload s))
        (>>=-Returns
          (fmap (map_err λ e. signer_error (signer_error_text e))
            (self.signer.sign (tagged_signing_input c payload)))
          (λ x. return (signed_with c height timestamp payload x)) s _
          (fmap-Returns (map_err λ e. signer_error (signer_error_text e))
            (self.signer.sign (tagged_signing_input c payload)) (ok s) made)
          ([], (refl, refl)))

  validated :
      (height finalized : ℕ)
      → Returns self.adapter.get_last_height_at_configured_finality (ok finalized)
      → height ≤ finalized
      → Returns (fmap (to_status c) (validate_height self.adapter height)) (ok tt)
  validated height finalized asked within =
      fmap-Returns (to_status c) (validate_height self.adapter height) (ok tt)
        (validate_height-granted self.adapter height finalized asked within)

  -- A state request can be answered with the attestation of its height and of a timestamp, whenever
  -- the adapter can return a finalized height that is not below the requested one, and the timestamp,
  -- and the signer can sign the tagged message of the two.
  pub state_attestation-granted :
      (request : StateAttestationRequest) (finalized timestamp : ℕ) (s : c.Signature)
      → Returns self.adapter.get_last_height_at_configured_finality (ok finalized)
      → request.height ≤ finalized
      → Returns (self.adapter.get_block_timestamp request.height) (ok timestamp)
      → Returns
          (self.signer.sign (tagged_signing_input c (state_payload c request.height timestamp)))
          (ok s)
      → Returns (state_attestation c self request) (
          ok (record {
            attestation = some (record {
              height = request.height;
              timestamp = some timestamp;
              attested_data = (state_payload c request.height timestamp).bytes;
              signature = c.as_bytes s;
            });
          }))
  unfolding state_attestation attest_state sign_state
  state_attestation-granted request finalized timestamp s asked within time made =
      let payload = state_payload c request.height timestamp in
      >>=-Returns (fmap (to_status c) (validate_height self.adapter request.height))
        (λ _. attest_state c self request.height) tt _
        (validated request.height finalized asked within)
        (>>=-Returns
          (fmap (λ r. to_status c (map_err adapter_error r))
            (self.adapter.get_block_timestamp request.height))
          (sign_state c self request.height) timestamp _
          (asked_timestamp-granted request.height timestamp time)
          (>>=-Returns
            (fmap (to_status c)
              (sign_attestation c request.height (some timestamp) payload self.signer))
            (λ signed.
              return {E = Status} {A = StateAttestationResponse}
                (record { attestation = some (attestation_of c signed) }))
            (signed_with c request.height (some timestamp) payload s) _
            (sign_attestation-granted request.height (some timestamp) payload s made)
            ([], (refl, refl))))

  -- A packet request can be answered with the attestation of its height and of a list of entries,
  -- whenever its packets and its kind decode, the adapter can return a finalized height that is not
  -- below the requested one, and answers that prove each packet's entry, and the signer can sign the
  -- tagged message of the entries.
  pub packet_attestation-granted :
      CollectLaws c
      → (request : PacketAttestationRequest) (packets : Packets) (kind : CommitmentType)
        (finalized : ℕ) (l : List PacketCompact) (s : c.Signature)
      → try_from_abi_encoded c request.packets ≡ ok packets
      → commitment_type_try_from request.commitment_type ≡ ok kind
      → Returns self.adapter.get_last_height_at_configured_finality (ok finalized)
      → request.height ≤ finalized
      → All₂
          (λ p compact. Outcome c Returns self.adapter request.height kind p (ok compact))
          packets.packets
          l
      → Returns
          (self.signer.sign (tagged_signing_input c (packets_payload c request.height l)))
          (ok s)
      → Returns (packet_attestation c self request) (
          ok (record {
            attestation = some (record {
              height = request.height;
              timestamp = none;
              attested_data = (packets_payload c request.height l).bytes;
              signature = c.as_bytes s;
            });
          }))
  unfolding packet_attestation decode_kind validate_and_attest attest_packets sign_packets
  packet_attestation-granted laws request packets kind finalized l s decoded known asked within
        entries made =
      let payload = packets_payload c request.height l in
      let created = create_packets_attestation c self.adapter packets request.height kind in
      rw (decoded, known)
        (>>=-Returns (fmap (to_status c) (validate_height self.adapter request.height))
          (λ _. attest_packets c self request.height packets kind) tt _
          (validated request.height finalized asked within)
          (>>=-Returns (fmap (to_status c) created) (sign_packets c self request.height)
            (record { height = request.height; packets = l }) _
            (fmap-Returns (to_status c) created _ (
              create_packets_attestation-granted c laws self.adapter packets request.height kind l
                entries))
            (>>=-Returns
              (fmap (to_status c) (sign_attestation c request.height none payload self.signer))
              (λ signed.
                return {E = Status} {A = PacketAttestationResponse}
                  (record { attestation = some (attestation_of c signed) }))
              (signed_with c request.height none payload s) _
              (sign_attestation-granted request.height none payload s made) ([], (refl, refl)))))
