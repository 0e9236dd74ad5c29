-- ===== src/Tests/Signing.antt =====
-- Messages, signatures and status codes.
use ibc_attestor.Common.{
  List, Result, ◌≡◌, ◌≢◌, ◌↔◌, ℕ, String, none, [], ◌∷◌, ok, length, replicate, some, ◌++◌,
}
use ibc_attestor.Attestation.{
  AttestationPayload, SignedAttestation, AttestationType, new, tagged_signing_input,
  sign_attestation,
}
use ibc_attestor.Attestation.Signing.{tagged_signing_input-domain, sign_attestation-recovers}
use ibc_attestor.Error.{
  AttestorError, commitment_not_found, block_not_finalized, Code, failed_precondition, not_found,
  status_from, SignerError,
}
use ibc_attestor.Error.Codes.{status_from-codes}
use ibc_attestor.Future.Runs.{Run, Happening, run, run-Run}
use ibc_attestor.Keys
use ibc_attestor.Signer.Local
use ibc_attestor.Signer.Local.{LocalSigner, local_signer}
use ibc_attestor.Tests.{crates, hash_laws, signature_laws}
use ibc_attestor.Common.Text.{trim}
use ibc_attestor.Signer.Dispatch as SignerDispatch
use ibc_attestor.Signer.Dispatch.{SignerEnum}
use ibc_attestor.Signer.Dispatch.Counts.{counts, signer_enum_sign-counted}
use ibc_attestor.Signer.Remote
use ibc_attestor.Signer.Remote.{RemoteSigner}
use ibc_attestor.Signer.Remote.Answers.{SignedRemotely, remote_sign-SignedRemotely}
use ibc_attestor.Tests.Outside.{chain}

abbrev state : AttestationPayload
state = new (60 ∷ []) AttestationType.state

abbrev packet : AttestationPayload
packet = new (60 ∷ []) AttestationType.packet

tagged_signing_input-domain_example :
    (length (tagged_signing_input crates state) ≡ 33)
    × ((tagged_signing_input crates state ≡ tagged_signing_input crates packet) ↔ (
        (state.attestation_type ≡ packet.attestation_type)
        × (crates.sha256 state.bytes ≡ crates.sha256 packet.bytes)))
tagged_signing_input-domain_example = tagged_signing_input-domain crates hash_laws state packet

abbrev key : LocalSigner crates
key = record { inner = 42 }

abbrev signed : SignedAttestation
signed = record {
  height = 60;
  timestamp = none;
  attested_data = 60 ∷ [];
  signature = 42 ∷ replicate 64 0;
}

sign_attestation-recovers_example :
    (signed.attested_data ≡ packet.bytes)
    × (length signed.signature ≡ 65)
    × (Keys.recover_address crates (tagged_signing_input crates packet) signed.signature
        ≡ ok (crates.address 42))
unfolding run sign_attestation tagged_signing_input Local.sign Keys.sign
sign_attestation-recovers_example =
    sign_attestation-recovers crates signature_laws 60 none packet key [] signed
      (run-Run chain 0 (sign_attestation crates 60 none packet (local_signer crates key)))

abbrev missing : AttestorError
missing = commitment_not_found "client" 7 60

status_from-codes_example :
    ((status_from crates.unknown_enum_value_text missing).code ≢ Code.ok)
    × (((status_from crates.unknown_enum_value_text missing).code ≡ failed_precondition)
        ↔ (missing ≡ block_not_finalized))
    × (((status_from crates.unknown_enum_value_text missing).code ≡ not_found) ↔ (
        (client : String) × (sequence : ℕ) × (height : ℕ) × (missing
          ≡ commitment_not_found client sequence height)))
status_from-codes_example = status_from-codes crates.unknown_enum_value_text missing

-- A remote signer with a token file.
abbrev remote : RemoteSigner
remote = record {
  endpoint = "http://signer";
  wallet_id = "wallet-1";
  service_account_token_path = some "token";
}

abbrev remote_run : List Happening
remote_run = (run chain 0 (Remote.sign crates remote (1 ∷ []))).0

remote_sign-SignedRemotely_example : SignedRemotely crates remote (1 ∷ []) remote_run 42
unfolding run Remote.sign Remote.create_client Remote.optional_header Remote.load_bearer_header
    Remote.bearer_value Remote.parse_signature trim
remote_sign-SignedRemotely_example =
    remote_sign-SignedRemotely crates remote (1 ∷ []) remote_run 42
      (run-Run chain 0 (Remote.sign crates remote (1 ∷ [])))

abbrev chosen : SignerEnum crates
chosen = SignerEnum.local key

abbrev signature : Result SignerError ℕ
signature = ok 42

signer_enum_sign-counted_example :
    (k : List Happening) × Run ((SignerDispatch.inner crates chosen).sign (1 ∷ [])) k signature
    × ((counts signature ∷ []) ≡ k ++ (counts signature ∷ []))
unfolding run SignerDispatch.sign Local.sign Keys.sign
signer_enum_sign-counted_example =
    signer_enum_sign-counted crates chosen (1 ∷ []) (counts signature ∷ []) signature
      (run-Run chain 0 (SignerDispatch.sign crates chosen (1 ∷ [])))
