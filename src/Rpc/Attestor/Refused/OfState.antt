-- ===== src/Rpc/Attestor/Refused/OfState.antt =====
-- Why a state request is refused.
use ibc_attestor.Common.{ℕ, ◌≡◌, ◌∙◌, inl, inr, some, List, [], ok, err, map_err, err_injective}
use ibc_attestor.Attestation.{AttestationType, new, tagged_signing_input}
use ibc_attestor.Crates.{Crates}
use ibc_attestor.Error.{
  AttestationAdapterError, SignerError, adapter_error, signer_error, signer_error_text, Status,
}
use ibc_attestor.Future.{fmap, return}
use ibc_attestor.Future.Runs.{
  Happening, Run, >>=-cases, RunsIn, Within, Within-second, Within-trans, RunsIn-Within,
}
use ibc_attestor.Rpc.{StateAttestationRequest, StateAttestationResponse}
use ibc_attestor.Rpc.Attestor.{
  AttestorService, validate_height, attestation_of, to_status, state_attestation, sign_state,
  attest_state,
}
use ibc_attestor.Rpc.Attestor.Requests.{asked_ok}
use ibc_attestor.Rpc.Attestor.Refused.{
  status_of, asked_err, signed_err, RefusesHeight, PassesHeight, validated_err,
  RefusesHeight-Within, PassesHeight-of_part,
}

-- Why a state request for a height is refused: the height is; it passed, and the adapter has no
-- timestamp for it; or it has one, and the signer does not sign.
pub data RefusesState (c : Crates) (self : AttestorService c) (height : ℕ) (h : List Happening)
    (s : Status) : Type 0 where
  refused_height : RefusesHeight c self height h s → RefusesState c self height h s
  no_timestamp :
      PassesHeight c self height h
      → (e : AttestationAdapterError) → RunsIn (self.adapter.get_block_timestamp height) (err e) h
      → s ≡ status_of c (adapter_error e)
      → RefusesState c self height h s
  state_unsigned :
      PassesHeight c self height h
      → (timestamp : ℕ) → RunsIn (self.adapter.get_block_timestamp height) (ok timestamp) h
      → (e : SignerError)
      → RunsIn
          (self.signer.sign (
            tagged_signing_input c (
              new
                (c.abi_encode_state (record { height = height; timestamp = timestamp }))
                AttestationType.state)))
          (err e)
          h
      → s ≡ status_of c (signer_error (signer_error_text e))
      → RefusesState c self height h s

module _ (c : Crates) (self : AttestorService c) (h : List Happening) (s : Status) where
  -- What follows a timestamp.
  sign_state-refused :
      (height timestamp : ℕ) (k : List Happening)
      → Run (sign_state c self height timestamp) k (err s)
      → (e : SignerError) × RunsIn
          (self.signer.sign (
            tagged_signing_input c (
              new
                (c.abi_encode_state (record { height = height; timestamp = timestamp }))
                AttestationType.state)))
          (err e)
          k
        × (s ≡ status_of c (signer_error (signer_error_text e)))
  unfolding sign_state
  sign_state-refused height timestamp k run =
      let payload =
        new (c.abi_encode_state (record { height = height; timestamp = timestamp }))
          AttestationType.state in
      signed_err c height (some timestamp) payload self.signer
        (λ signed.
          return {E = Status} {A = StateAttestationResponse}
            (record { attestation = some (attestation_of c signed) }))
        (λ a l s (i, p). cc) k s run

  -- A state request that is refused: the status is that of the adapter's error for the finalized
  -- height, of `BlockNotFinalized` for a height that is beyond it, of the adapter's error for the
  -- timestamp of a height that is not, or of the signer's error for the attestation of the height with
  -- that timestamp. The adapter and the signer returned these in the run of the request.
  pub state_attestation-RefusesState :
      (request : StateAttestationRequest)
      → Run (state_attestation c self request) h (err s)
      → RefusesState c self request.height h s
  unfolding state_attestation attest_state
  state_attestation-RefusesState request run =
      let height = request.height in
      let time = self.adapter.get_block_timestamp height in
      elim (>>=-cases (fmap (to_status c) (validate_height self.adapter height))
        (λ _. attest_state c self height) h (err s) run) [
          | inl (e, (k, failed, w), refused) ↦
              let status = err_injective refused in
              refused_height (
                RefusesHeight-Within c self h s height k w
                  (validated_err c self height k s (rw (← status) at failed)))
          | inr v ↦
              let later : Within v.second h = Within-second h v.first v.second v.joined in
              let passes =
                PassesHeight-of_part c self h s height v.first v.second v.joined v.before in
              elim (>>=-cases (fmap (λ r. to_status c (map_err adapter_error r)) time)
                (sign_state c self height) v.second (err s) v.after) [
                  | inl (e, (k, failed, w), refused) ↦
                      let (d, p, same) = asked_err c time k e failed in
                      no_timestamp passes d (k, p, Within-trans k v.second h w later)
                        (err_injective refused ∙ same)
                  | inr t ↦
                      let timestamp = asked_ok c time t.first t.value t.before in
                      let (e, unsigned, same) =
                        sign_state-refused height t.value t.second t.after in
                      state_unsigned passes t.value
                        (RunsIn-Within time (ok t.value) v.second h later
                          (t.first, timestamp, ([], t.second, t.joined)))
                        e
                        (RunsIn-Within _ (err e) t.second h
                          (Within-trans t.second v.second h
                            (Within-second v.second t.first t.second t.joined) later)
                          unsigned)
                        same
                ]
        ]
