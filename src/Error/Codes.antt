-- ===== src/Error/Codes.antt =====
-- Which errors lead to which status code.
use ibc_attestor.Common.{ℕ, ◌≡◌, refl, String, ◌↔◌, arith, ◌≢◌}
use ibc_attestor.Common.Int.{ℤ}
use ibc_attestor.Error.{
  AttestorError, block_not_finalized, commitment_not_found, Code, failed_precondition, not_found,
  invalid_commitment, malformed_commitment_error, signer_error, signer_init_error, abi_error,
  adapter_error, status_code, status_from,
}

status_code-not_found :
    (e : AttestorError)
    → status_code e ≡ not_found
    → (client : String) × (sequence : ℕ) × (height : ℕ) × (e
        ≡ commitment_not_found client sequence height)
unfolding status_code
status_code-not_found (commitment_not_found client s h) p = (client, s, h, ground arith)
status_code-not_found block_not_finalized p = ground arith
status_code-not_found (invalid_commitment reason) p = ground arith
status_code-not_found (signer_error s) p = ground arith
status_code-not_found (signer_init_error e) p = ground arith
status_code-not_found (abi_error s) p = ground arith
status_code-not_found (adapter_error e) p = ground arith
status_code-not_found (malformed_commitment_error v) p = ground arith

status_code-ne-ok : (e : AttestorError) → status_code e ≢ Code.ok
unfolding status_code
status_code-ne-ok block_not_finalized p = ground arith
status_code-ne-ok (commitment_not_found client s h) p = ground arith
status_code-ne-ok (invalid_commitment reason) p = ground arith
status_code-ne-ok (signer_error s) p = ground arith
status_code-ne-ok (signer_init_error e) p = ground arith
status_code-ne-ok (abi_error s) p = ground arith
status_code-ne-ok (adapter_error e) p = ground arith
status_code-ne-ok (malformed_commitment_error v) p = ground arith

status_code-precondition :
    (e : AttestorError) → status_code e ≡ failed_precondition → e ≡ block_not_finalized
unfolding status_code
status_code-precondition block_not_finalized p = refl
status_code-precondition (commitment_not_found client s h) p = ground arith
status_code-precondition (invalid_commitment reason) p = ground arith
status_code-precondition (signer_error s) p = ground arith
status_code-precondition (signer_init_error e) p = ground arith
status_code-precondition (abi_error s) p = ground arith
status_code-precondition (adapter_error e) p = ground arith
status_code-precondition (malformed_commitment_error v) p = ground arith

-- A failed request never carries the code `Ok`. `FailedPrecondition` means exactly that the
-- requested block is not finalized, and `NotFound` that a commitment is missing, whatever the
-- error's fields hold.
pub status_from-codes :
    (unknown : ℤ → String) (e : AttestorError)
    → ((status_from unknown e).code ≢ Code.ok)
      × (((status_from unknown e).code ≡ failed_precondition) ↔ (e ≡ block_not_finalized))
      × (((status_from unknown e).code ≡ not_found) ↔ (
          (client : String) × (sequence : ℕ) × (height : ℕ) × (e
            ≡ commitment_not_found client sequence height)))
unfolding status_from
status_from-codes unknown e = (
  status_code-ne-ok e,
  (status_code-precondition e, λ p. rw p),
  (status_code-not_found e, λ (client, s, h, p). rw p),
)
