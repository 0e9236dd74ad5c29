-- ===== src/Rpc/Attestor/Refused.antt =====
-- Why a request to the service is refused, and with which status: what its parts refuse.
pub mod OfState
pub mod OfPackets
use ibc_attestor.Common.{
  ℕ, ◌<◌, ◌≤◌, ◌≡◌, sym, ap, ◌∙◌, ◌⊎◌, inl, inr, Option, none, some, List, [], ◌∷◌, ◌++◌, Result,
  ok, err, map_err, map_err-eq-ok, map_err-eq-err, err_injective, All₂,
}
use ibc_attestor.Common.Collected.{FirstError}
use ibc_attestor.Common.Int.{ℤ}
use ibc_attestor.Adapter.{CommitmentType}
use ibc_attestor.Attestation.{
  AttestationType, AttestationPayload, SignedAttestation, new, sign_attestation,
  tagged_signing_input,
}
use ibc_attestor.Crates.{Crates, CollectLaws, PacketAttestation}
use ibc_attestor.Error.{
  AttestorError, AttestationAdapterError, SignerError, adapter_error, signer_error,
  signer_error_text, malformed_commitment_error, Status, status_from,
}
use ibc_attestor.Future.{Future, ready, fmap, return, ◌>>=◌}
use ibc_attestor.Future.Among.{RunsAmong}
use ibc_attestor.Future.Errors.{Run-map_err-ok, Run-map_err-err}
use ibc_attestor.Future.Runs.{
  Happening, Run, Run-fmap, >>=-cases, GoesOn, RunsIn, RunsIn-first, RunsIn-second, RunsIn-all,
  Within, Within-second, Within-trans, RunsIn-Within,
}
use ibc_attestor.Packets.{Packets, try_from_abi_encoded}
use ibc_attestor.Rpc.{
  StateAttestationRequest, StateAttestationResponse, PacketAttestationRequest,
  PacketAttestationResponse, commitment_type_try_from,
}
use ibc_attestor.Rpc.Attestor.{
  AttestorService, validate_height, create_packets_attestation, attestation_of, to_status,
  state_attestation, packet_attestation, sign_state, attest_state, sign_packets, attest_packets,
  validate_and_attest, decode_kind,
}
use ibc_attestor.Rpc.Attestor.Commitments.{Outcome}
use ibc_attestor.Rpc.Attestor.Heights.{validate_height-Validated}
use ibc_attestor.Rpc.Attestor.Requests.{validated, asked_ok}
use ibc_attestor.Signer.{Signer}

-- The status that the service converts an error to.
abbrev pub status_of : Crates → AttestorError → Status
status_of c e = status_from c.unknown_enum_value_text e

module _ (c : Crates) where
  -- An adapter's error that becomes a status.
  pub asked_err :
      {A : Type 0} (t : Future (Result AttestationAdapterError A)) (h : List Happening) (s : Status)
      → Run (fmap (λ r. to_status c (map_err adapter_error r)) t) h (err s)
      → (e : AttestationAdapterError) × Run t h (err e) × (s ≡ status_of c (adapter_error e))
  asked_err t h s run =
      let (r, p, e) = Run-fmap (λ r. to_status c (map_err adapter_error r)) t h (err s) run in
      let (d, q, i) = map_err-eq-err (status_of c) (map_err adapter_error r) s e in
      let (f, same, j) = map_err-eq-err adapter_error r d q in
      (f, rw same at p, sym i ∙ ap (status_of c) (sym j))

  -- A signature that is refused, with the signer's error.
  pub sign_attestation-refused :
      (height : ℕ) (timestamp : Option ℕ) (payload : AttestationPayload) (signer : Signer c)
      (h : List Happening) (s : Status)
      → Run (fmap (to_status c) (sign_attestation c height timestamp payload signer)) h (err s)
      → (e : SignerError) × RunsIn (signer.sign (tagged_signing_input c payload)) (err e) h
        × (s ≡ status_of c (signer_error (signer_error_text e)))
  unfolding sign_attestation
  sign_attestation-refused height timestamp payload signer h s run =
      let sign = signer.sign (tagged_signing_input c payload) in
      let made : c.Signature → Future (Result AttestorError SignedAttestation) = λ signature.
        return (record {
          height = height;
          timestamp = timestamp;
          attested_data = payload.bytes;
          signature = c.as_bytes signature;
        }) in
      let (d, p, same) =
        Run-map_err-err (status_of c) (sign_attestation c height timestamp payload signer) h s
          run in
      elim (>>=-cases (fmap (map_err λ e. signer_error (signer_error_text e)) sign) made h (err d)
        p) [
          | inl (e, (k, failed, w), refused) ↦
              let (f, q, i) =
                Run-map_err-err (λ e. signer_error (signer_error_text e)) sign k e failed in
              (f, (k, q, w), sym same ∙ ap (status_of c) (err_injective refused ∙ sym i))
          | inr go ↦ let (i, p) = go.after in cc
        ]

  -- A signature is asked for, and is followed by what cannot fail.
  pub signed_err :
      {A : Type 0} (height : ℕ) (timestamp : Option ℕ) (payload : AttestationPayload)
      (signer : Signer c) (later : SignedAttestation → Future (Result Status A))
      → ((a : SignedAttestation) (l : List Happening) (s : Status) → ¬ Run (later a) l (err s))
      → (h : List Happening) (s : Status)
      → Run
          (fmap (to_status c) (sign_attestation c height timestamp payload signer) >>= later)
          h
          (err s)
      → (e : SignerError) × RunsIn (signer.sign (tagged_signing_input c payload)) (err e) h
        × (s ≡ status_of c (signer_error (signer_error_text e)))
  signed_err height timestamp payload signer later sure h s run =
      let sign = signer.sign (tagged_signing_input c payload) in
      elim (>>=-cases (fmap (to_status c) (sign_attestation c height timestamp payload signer))
        later h (err s) run) [
          | inl (e, (k, failed, w), refused) ↦
              let (f, asked, same) =
                sign_attestation-refused height timestamp payload signer k e failed in
              (f, RunsIn-Within sign (err f) k h w asked, err_injective refused ∙ same)
          | inr go ↦ absurd (sure go.value go.second s go.after)
        ]

  module _ (self : AttestorService c) where
    -- A height that is not let pass: the adapter's error, or a height beyond the finalized one.
    abbrev pub RefusesHeight : ℕ → List Happening → Status → Type 0
    RefusesHeight height h s =
        ((e : AttestationAdapterError) × RunsIn self.adapter.get_last_height_at_configured_finality
            (err e) h
          × (s ≡ status_of c (adapter_error e)))
        ⊎ ((finalized : ℕ) × RunsIn self.adapter.get_last_height_at_configured_finality
              (ok finalized) h
            × (finalized < height)
            × (s ≡ status_of c AttestorError.block_not_finalized))

    -- A height that passed.
    abbrev pub PassesHeight : ℕ → List Happening → Type 0
    PassesHeight height h =
        (finalized : ℕ) × RunsIn self.adapter.get_last_height_at_configured_finality (ok finalized)
          h
        × (height ≤ finalized)

    pub validated_err :
        (height : ℕ) (h : List Happening) (s : Status)
        → Run (fmap (to_status c) (validate_height self.adapter height)) h (err s)
        → RefusesHeight height h s
    validated_err height h s run =
        let asked = self.adapter.get_last_height_at_configured_finality in
        let (d, p, same) =
          Run-map_err-err (status_of c) (validate_height self.adapter height) h s run in
        elim (validate_height-Validated self.adapter height h (err d) p) [
          | inl (e, failed, refused) ↦
              inl (e, failed, sym same ∙ ap (status_of c) (err_injective refused))
          | inr (finalized, k, q, inl (lag, lagging, within, passed, j)) ↦ cc
          | inr (finalized, k, q, inr (lag, lagging, beyond, refused, j)) ↦ inr (
            finalized,
            RunsIn-first asked (ok finalized) h k _ j (RunsIn-all asked (ok finalized) k q),
            beyond,
            sym same ∙ ap (status_of c) (err_injective refused),
          )
        ]

module _ (c : Crates) (self : AttestorService c) (h : List Happening) (s : Status) where
  pub RefusesHeight-Within :
      (height : ℕ) (k : List Happening)
      → Within k h
      → RefusesHeight c self height k s
      → RefusesHeight c self height h s
  RefusesHeight-Within height k w (inl (e, failed, same)) =
      inl (e, RunsIn-Within _ _ k h w failed, same)
  RefusesHeight-Within height k w (inr (finalized, asked, beyond, same)) =
      inr (finalized, RunsIn-Within _ _ k h w asked, beyond, same)

  pub PassesHeight-of_part :
      (height : ℕ) (first second : List Happening)
      → h ≡ first ++ second
      → Run (fmap (to_status c) (validate_height self.adapter height)) first (ok tt)
      → PassesHeight c self height h
  PassesHeight-of_part height first second joined run =
      let (finalized, asked, within) = validated c self h height first run in
      (finalized, RunsIn-first _ (ok finalized) h first second joined asked, within)
