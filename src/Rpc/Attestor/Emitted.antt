-- ===== src/Rpc/Attestor/Emitted.antt =====
-- The service's own handlers count no request: the middleware around them does.
use ibc_attestor.Common.{
  ℕ, refl, Option, none, some, List, [], ◌∷◌, map, Bytes, All, ltb, eq_bytes, Bool-cases, inl, inr,
  map_err,
}
use ibc_attestor.Adapter.{CommitmentType, packet, ack, receipt, AttestationAdapter}
use ibc_attestor.Adapter.Dispatch.Emitted.{QuietAdapter}
use ibc_attestor.Attestation.{AttestationPayload, sign_attestation}
use ibc_attestor.Crates.{Crates, CollectLaws, Packet}
use ibc_attestor.Error.{adapter_error}
use ibc_attestor.Future.{ready, ◌>>=◌}
use ibc_attestor.Future.Emitted.{no_request, CountsNoRequest, Emits, Emits-fmap, Emits->>=}
use ibc_attestor.Packets.{Packets, try_from_abi_encoded}
use ibc_attestor.Rpc.{StateAttestationRequest, PacketAttestationRequest}
use ibc_attestor.Rpc.Attestor.{
  AttestorService, compare_height, validate_height, check_packet_commitment, check_ack_commitment,
  check_receipt_commitment, create_single_packet_attestation, create_packets_attestation, to_status,
  latest_height, state_attestation, sign_packets, attest_packets, validate_and_attest, decode_kind,
  packet_attestation,
}
use ibc_attestor.Signer.{Signer}
use ibc_attestor.Signer.Dispatch.Emitted.{QuietSigner}

compare_height-quiet : (height finalized : ℕ) → CountsNoRequest (compare_height height finalized)
unfolding compare_height
compare_height-quiet height finalized = elim (Bool-cases (ltb finalized height)) [
  | inl beyond ↦ rw beyond (refl, (refl, tt))
  | inr within ↦ rw within (refl, tt)
]

module _ (c : Crates) where
  check_packet-quiet :
      (height : ℕ) (p : Packet) (found : Option Bytes)
      → CountsNoRequest (check_packet_commitment c height p found)
  unfolding check_packet_commitment
  check_packet-quiet height p none = (refl, tt)
  check_packet-quiet height p (some v) = elim (Bool-cases (eq_bytes (c.packet_commitment p) v)) [
    | inl same ↦ rw same tt
    | inr other ↦ rw other (refl, tt)
  ]

  check_ack-quiet :
      (height : ℕ) (p : Packet) (found : Option Bytes)
      → CountsNoRequest (check_ack_commitment c height p found)
  unfolding check_ack_commitment
  check_ack-quiet height p none = (refl, tt)
  check_ack-quiet height p (some v) = tt

  check_receipt-quiet :
      (p : Packet) (found : Option Bytes) → CountsNoRequest (check_receipt_commitment c p found)
  unfolding check_receipt_commitment
  check_receipt-quiet p none = tt
  check_receipt-quiet p (some v) = (refl, tt)

  sign_attestation-quiet :
      (height : ℕ) (timestamp : Option ℕ) (payload : AttestationPayload) (signer : Signer c)
      → QuietSigner c signer
      → CountsNoRequest (sign_attestation c height timestamp payload signer)
  unfolding sign_attestation
  sign_attestation-quiet height timestamp payload signer quiet =
      Emits->>= no_request _ _ (Emits-fmap no_request _ (signer.sign _) (quiet _)) (λ s. tt)

  module _ (adapter : AttestationAdapter) (quiet : QuietAdapter adapter) where
    validate_height-quiet : (height : ℕ) → CountsNoRequest (validate_height adapter height)
    unfolding validate_height
    validate_height-quiet height =
        Emits->>= no_request _ _
          (Emits-fmap no_request (map_err adapter_error)
            adapter.get_last_height_at_configured_finality quiet.height)
          (compare_height-quiet height)

    single-quiet :
        (height : ℕ) (p : Packet) (kind : CommitmentType)
        → CountsNoRequest (create_single_packet_attestation c adapter height p kind)
    unfolding create_single_packet_attestation
    single-quiet height p packet =
        Emits->>= no_request _ _
          (Emits-fmap no_request (map_err adapter_error) _ (quiet.commitment _ _ _ _ _))
          (check_packet-quiet height p)
    single-quiet height p ack =
        Emits->>= no_request _ _
          (Emits-fmap no_request (map_err adapter_error) _ (quiet.commitment _ _ _ _ _))
          (check_ack-quiet height p)
    single-quiet height p receipt =
        Emits->>= no_request _ _
          (Emits-fmap no_request (map_err adapter_error) _ (quiet.commitment _ _ _ _ _))
          (check_receipt-quiet p)

    singles-quiet :
        (height : ℕ) (kind : CommitmentType) (ps : List Packet)
        → All
            (Emits no_request)
            (map (λ p. create_single_packet_attestation c adapter height p kind) ps)
    singles-quiet height kind [] = tt
    singles-quiet height kind (p ∷ ps) = (single-quiet height p kind, singles-quiet height kind ps)

    packets-quiet :
        CollectLaws c
        → (packets : Packets) (height : ℕ) (kind : CommitmentType)
        → CountsNoRequest (create_packets_attestation c adapter packets height kind)
    unfolding create_packets_attestation
    packets-quiet laws packets height kind =
        Emits-fmap no_request _ _
          (laws.collect_ordered-Emits no_request _ (singles-quiet height kind packets.packets))

module _ (c : Crates) (self : AttestorService c) (adapter : QuietAdapter self.adapter)
    (signer : QuietSigner c self.signer) where
  pub latest_height-quiet : CountsNoRequest (latest_height c self)
  unfolding latest_height
  latest_height-quiet =
      Emits->>= no_request _ _
        (Emits-fmap no_request _ self.adapter.get_last_height_at_configured_finality adapter.height)
        (λ h. tt)

  pub state_attestation-quiet :
      (request : StateAttestationRequest) → CountsNoRequest (state_attestation c self request)
  unfolding state_attestation
  state_attestation-quiet request =
      Emits->>= no_request _ _
        (Emits-fmap no_request (to_status c) (validate_height self.adapter request.height)
          (validate_height-quiet c self.adapter adapter request.height))
        λ passed.
          Emits->>= no_request _ _
            (Emits-fmap no_request _ (self.adapter.get_block_timestamp request.height)
              (adapter.time request.height))
            λ timestamp.
              Emits->>= no_request _ _
                (Emits-fmap no_request (to_status c) _
                  (sign_attestation-quiet c request.height (some timestamp) _ self.signer signer))
                (λ s. tt)

  attest_packets-quiet :
      CollectLaws c
      → (height : ℕ) (packets : Packets) (kind : CommitmentType)
      → CountsNoRequest (attest_packets c self height packets kind)
  unfolding attest_packets sign_packets
  attest_packets-quiet laws height packets kind =
      Emits->>= no_request _ _
        (Emits-fmap no_request (to_status c)
          (create_packets_attestation c self.adapter packets height kind)
          (packets-quiet c self.adapter adapter laws packets height kind))
        λ unsigned.
          Emits->>= no_request _ _
            (Emits-fmap no_request (to_status c) _
              (sign_attestation-quiet c height none _ self.signer signer))
            (λ s. tt)

  validate_and_attest-quiet :
      CollectLaws c
      → (height : ℕ) (packets : Packets) (kind : CommitmentType)
      → CountsNoRequest (validate_and_attest c self height packets kind)
  unfolding validate_and_attest
  validate_and_attest-quiet laws height packets kind =
      Emits->>= no_request _ _
        (Emits-fmap no_request (to_status c) (validate_height self.adapter height)
          (validate_height-quiet c self.adapter adapter height))
        (λ passed. attest_packets-quiet laws height packets kind)

  pub packet_attestation-quiet :
      CollectLaws c
      → (request : PacketAttestationRequest) → CountsNoRequest (packet_attestation c self request)
  unfolding packet_attestation
  packet_attestation-quiet laws request =
      Emits->>= no_request (ready (to_status c (try_from_abi_encoded c request.packets)))
        (λ packets. ready (decode_kind c self request.commitment_type) >>= λ kind.
          validate_and_attest c self request.height packets kind)
        tt
        λ packets.
          Emits->>= no_request (ready (decode_kind c self request.commitment_type))
            (validate_and_attest c self request.height packets) tt
            (validate_and_attest-quiet laws request.height packets)
