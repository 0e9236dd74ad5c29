-- ===== src/Rpc/Attestor/Requests.antt =====
-- What the answers of the service attest to.
use ibc_attestor.Common.{
  ℕ, ◌≤◌, ◌≡◌, ap, Option, none, some, List, Result, ok, All₂, map_err, map_err-eq-ok, ok_injective,
}
use ibc_attestor.Adapter.{packet, ack, receipt, CommitmentType}
use ibc_attestor.Attestation.{AttestationType, new, sign_attestation}
use ibc_attestor.Crates.{Crates, PacketAttestation}
use ibc_attestor.Common.Int.{pos}
use ibc_attestor.Error.{AttestationAdapterError, adapter_error, Status, status_from}
use ibc_attestor.Future.{Future, fmap, return}
use ibc_attestor.Future.Errors.{Run-map_err-ok}
use ibc_attestor.Future.Among.{RunsAmong}
use ibc_attestor.Future.Runs.{
  Happening, Run, Run-fmap, >>=-ok, RunsIn, RunsIn-first, RunsIn-second, RunsIn-all,
}
use ibc_attestor.Packets.{Packets, try_from_abi_encoded}
use ibc_attestor.Rpc.{
  Attestation, StateAttestationRequest, StateAttestationResponse, PacketAttestationRequest,
}
use ibc_attestor.Rpc.Attestor.{
  AttestorService, validate_height, attestation_of, to_status, state_attestation, sign_state,
  attest_state,
}
use ibc_attestor.Rpc.Attestor.Commitments.{Outcome}
use ibc_attestor.Rpc.Attestor.Heights.{validate_height-passed}
use ibc_attestor.Rpc.Attestor.Signed.{
  IsSigned, sign_attestation-IsSigned, IsSigned-first, IsSigned-second,
}

-- A future whose adapter error becomes a status.
pub asked_ok :
    (c : Crates) {A : Type 0} (t : Future (Result AttestationAdapterError A)) (h : List Happening)
    (a : A)
    → Run (fmap (λ r. to_status c (map_err adapter_error r)) t) h (ok a)
    → Run t h (ok a)
asked_ok c t h a run =
    let (r, p, e) = Run-fmap (λ r. to_status c (map_err adapter_error r)) t h (ok a) run in
    rw (map_err-eq-ok adapter_error r a (map_err-eq-ok _ (map_err adapter_error r) a e)) at p

-- What the answer to a state request attests to.
pub record AttestsState (c : Crates) (self : AttestorService c) (height : ℕ) (h : List Happening)
    (a : Option Attestation) : Type 0 where
  pub finalized : ℕ
  pub timestamp : ℕ
  pub finality : RunsIn self.adapter.get_last_height_at_configured_finality (ok finalized) h
  pub within : height ≤ finalized
  pub time : RunsIn (self.adapter.get_block_timestamp height) (ok timestamp) h
  pub signed :
      IsSigned c self.signer height
        (some timestamp)
        (new
          (c.abi_encode_state (record { height = height; timestamp = timestamp }))
          AttestationType.state)
        h
        a

-- The numbers of the kinds in the protocol.
abbrev pub kind_number : CommitmentType → ℕ
kind_number packet = 0
kind_number ack = 1
kind_number receipt = 2

-- What the answer to a packet request attests to.
pub record AttestsPackets (c : Crates) (self : AttestorService c)
    (request : PacketAttestationRequest) (h : List Happening) (a : Option Attestation)
    : Type 0 where
  pub packets : Packets
  pub kind : CommitmentType
  pub finalized : ℕ
  pub unsigned : PacketAttestation
  pub decoded : try_from_abi_encoded c request.packets ≡ ok packets
  pub asked : request.commitment_type ≡ pos (kind_number kind)
  pub finality : RunsIn self.adapter.get_last_height_at_configured_finality (ok finalized) h
  pub within : request.height ≤ finalized
  pub height : unsigned.height ≡ request.height
  pub entries :
      All₂
        (λ p compact. Outcome c (RunsAmong h) self.adapter request.height kind p (ok compact))
        packets.packets
        unsigned.packets
  pub signed :
      IsSigned c self.signer request.height none
        (new (c.abi_encode_packets unsigned) AttestationType.packet)
        h
        a

module _ (c : Crates) (self : AttestorService c) (h : List Happening) where
  -- The height was validated in a run that let it pass.
  pub validated :
      (height : ℕ) (k : List Happening)
      → Run (fmap (to_status c) (validate_height self.adapter height)) k (ok tt)
      → (finalized : ℕ) × RunsIn self.adapter.get_last_height_at_configured_finality
          (ok finalized)
          k
        × (height ≤ finalized)
  validated height k run = validate_height-passed self.adapter height k (
      Run-map_err-ok (status_from c.unknown_enum_value_text) (validate_height self.adapter height) k
        tt run)

  -- An answered state request attests the requested height, which is not beyond the finalized height
  -- that the adapter returned, with the timestamp that the adapter returned for that height, and all of
  -- this, and the signature, happened in the run of the request. The
  -- signature is over the ABI encoding of the two, tagged as a state attestation.
  pub state_attestation-attested :
      (request : StateAttestationRequest) (response : StateAttestationResponse)
      → Run (state_attestation c self request) h (ok response)
      → AttestsState c self request.height h response.attestation
  unfolding state_attestation
  state_attestation-attested request response run =
      let v =
        >>=-ok (fmap (to_status c) (validate_height self.adapter request.height))
          (λ _. attest_state c self request.height) h response run in
      let (finalized, passed, within) = validated request.height v.first v.before in
      let t =
        >>=-ok
          (fmap (λ r. to_status c (map_err adapter_error r))
            (self.adapter.get_block_timestamp request.height))
          (sign_state c self request.height) v.second response v.after in
      let time = self.adapter.get_block_timestamp request.height in
      let timestamp =
        asked_ok c (self.adapter.get_block_timestamp request.height) t.first t.value t.before in
      let payload =
        new (c.abi_encode_state (record { height = request.height; timestamp = t.value }))
          AttestationType.state in
      let s =
        >>=-ok
          (fmap (to_status c)
            (sign_attestation c request.height (some t.value) payload self.signer))
          (λ signed.
            return {E = Status} {A = StateAttestationResponse}
              (record { attestation = some (attestation_of c signed) }))
          t.second response t.after in
      let signed =
        IsSigned-second c self.signer request.height (some t.value) payload h v.first v.second
          v.joined (some (attestation_of c s.value))
          (IsSigned-second c self.signer request.height (some t.value) payload v.second t.first
            t.second t.joined (some (attestation_of c s.value))
            (IsSigned-first c self.signer request.height (some t.value) payload t.second s.first
              s.second s.joined (some (attestation_of c s.value))
              (sign_attestation-IsSigned c self.signer request.height (some t.value) payload s.first
                s.value s.before))) in
      let same = ap (λ x. x.attestation) (ok_injective s.after.1) in
      record {
        finalized = finalized;
        timestamp = t.value;
        finality =
            RunsIn-first self.adapter.get_last_height_at_configured_finality (ok finalized) h
              v.first v.second v.joined passed;
        within = within;
        time = RunsIn-second time (ok t.value) h v.first v.second v.joined (
            RunsIn-first time (ok t.value) v.second t.first t.second t.joined
              (RunsIn-all time (ok t.value) t.first timestamp));
        signed = rw same at signed;
      }
