-- ===== src/Error.antt =====
-- The error types of the service with their texts, and the gRPC status that a request fails with:
-- apps/ibc-attestor/src/error.rs, and the error enums of adapter/mod.rs and signer/mod.rs.
pub mod Codes
use ibc_attestor.Common.{ℕ, String, ◌<>◌}
use ibc_attestor.Common.Int.{ℤ}
use ibc_attestor.Common.Text.{decimal}

pub data AttestationAdapterError : Type 0 where
  config_error : String → AttestationAdapterError
  invalid_height : AttestationAdapterError
  block_not_finalized : AttestationAdapterError
  retrieval_error : String → AttestationAdapterError
  commitment_error : String → AttestationAdapterError

unfoldable pub adapter_error_text : AttestationAdapterError → String
adapter_error_text (config_error s) = "Failed to build attestor adapter due to: " <> s
adapter_error_text invalid_height = "Invalid height used"
adapter_error_text block_not_finalized = "Block not finalized"
adapter_error_text (retrieval_error s) = "Error while retrieving data: " <> s
adapter_error_text (commitment_error s) = "Commitment error: " <> s

pub data SignerError : Type 0 where
  local_error : String → SignerError
  remote_error : String → SignerError
  connection_error : String → SignerError
  invalid_signature : String → SignerError
  config_error : String → SignerError

unfoldable pub signer_error_text : SignerError → String
signer_error_text (local_error s) = "Local signing error: " <> s
signer_error_text (remote_error s) = "Remote signing error: " <> s
signer_error_text (connection_error s) = "Connection failed: " <> s
signer_error_text (invalid_signature s) = "Invalid signature format: " <> s
signer_error_text (config_error s) = "Failed to build signer due to: " <> s

pub data AttestorError : Type 0 where
  block_not_finalized : AttestorError
  -- the reason
  invalid_commitment : String → AttestorError
  -- client id, sequence, height
  commitment_not_found : String → ℕ → ℕ → AttestorError
  signer_error : String → AttestorError
  signer_init_error : SignerError → AttestorError
  -- an error of alloy's ABI decoder, as its text
  abi_error : String → AttestorError
  adapter_error : AttestationAdapterError → AttestorError
  -- `prost::UnknownEnumValue`, which holds the value
  malformed_commitment_error : ℤ → AttestorError

-- `to_string`, with the text of an `UnknownEnumValue` as an argument.
unfoldable pub attestor_error_text : (ℤ → String) → AttestorError → String
unfolding adapter_error_text signer_error_text decimal
attestor_error_text unknown block_not_finalized = "Block is not finalized"
attestor_error_text unknown (invalid_commitment reason) =
    "Packet commitment found but invalid due to: " <> reason
attestor_error_text unknown (commitment_not_found client sequence height) =
    "Commitment not found client_id="
    <> (client <> (", sequence=" <> (decimal sequence <> (" at height=" <> decimal height))))
attestor_error_text unknown (signer_error s) = "Failed to sign attestation due to: " <> s
attestor_error_text unknown (signer_init_error e) =
    "Signer initialization failed: " <> signer_error_text e
attestor_error_text unknown (abi_error s) = "AbiError: " <> s
attestor_error_text unknown (adapter_error e) = "AdapterError: " <> adapter_error_text e
attestor_error_text unknown (malformed_commitment_error v) =
    "MalformedCommitmentError: " <> unknown v

-- The codes of `tonic::Code` that the source names.
pub data Code : Type 0 where
  ok invalid_argument not_found failed_precondition internal : Code

pub record Status : Type 0 where
  pub code : Code
  pub message : String

-- The match of `From<AttestorError> for Status`.
unfoldable pub status_code : AttestorError → Code
status_code block_not_finalized = failed_precondition
status_code (commitment_not_found client sequence height) = not_found
status_code (invalid_commitment reason) = invalid_argument
status_code (malformed_commitment_error v) = invalid_argument
status_code (signer_error s) = internal
status_code (signer_init_error e) = internal
status_code (abi_error s) = internal
status_code (adapter_error e) = internal

unfoldable pub status_from : (ℤ → String) → AttestorError → Status
unfolding attestor_error_text status_code
status_from unknown e = record { code = status_code e; message = attestor_error_text unknown e }
