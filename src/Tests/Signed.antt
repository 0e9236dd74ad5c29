-- ===== src/Tests/Signed.antt =====
-- Tests of the source: those of apps/ibc-attestor/src/attestation.rs and error.rs, as functions into
-- Bool, which the model passes. A random key of the source is a key here.
use ibc_attestor.Common.{
  ℕ, ◌-◌, ◌≡◌, refl, Bool, true, false, not, ◌&&◌, ◌==◌, Option, none, some, [], ◌∷◌, ◌++◌, Result,
  ok, err, Bytes, eq_bytes, length, replicate, if◌then◌else◌, String,
}
use ibc_attestor.Common.Text.{codes}
use ibc_attestor.Attestation.{
  AttestationPayload, SignedAttestation, state, packet, new, tagged_signing_input, sign_attestation,
}
use ibc_attestor.Crates.{Crates}
use ibc_attestor.Error.{
  AttestorError, Code, commitment_not_found, invalid_commitment, signer_error, signer_init_error,
  config_error, failed_precondition, not_found, invalid_argument, internal, status_code,
  status_from,
}
use ibc_attestor.Future.{Future}
use ibc_attestor.Future.Runs.{run}
use ibc_attestor.Keys
use ibc_attestor.Keys.{recover_address}
use ibc_attestor.Signer.Local
use ibc_attestor.Signer.Local.{LocalSigner, local_signer}
use ibc_attestor.Tests.{crates}
use ibc_attestor.Tests.Outside.{chain}

-- `.await.unwrap()`, where a failure fails the test.
abbrev holds_of : {E A : Type 0} → Result E A → (A → Bool) → Bool
holds_of (err e) test = false
holds_of (ok a) test = test a

module _ (c : Crates) where
  abbrev awaited :
      Future (Result AttestorError SignedAttestation) → (SignedAttestation → Bool) → Bool
  awaited t test = holds_of ((run chain 0 t).1) test

  abbrev signed :
      c.PrivateKeySigner → ℕ → Option ℕ → AttestationPayload → (SignedAttestation → Bool) → Bool
  signed key height timestamp payload test =
      awaited
        (sign_attestation c height timestamp payload (local_signer c (record { inner = key }))) test

  module _ (key : c.PrivateKeySigner) where
    abbrev sign_attestation_produces_65_byte_signature : Bool
    sign_attestation_produces_65_byte_signature =
        signed key 100 (some 1_700_000_000) (new (codes "data") state)
          λ result. length result.signature == 65

    abbrev sign_attestation_preserves_original_attested_data : Bool
    sign_attestation_preserves_original_attested_data =
        signed key 42 none (new (codes "original abi-encoded data") packet)
          λ result. eq_bytes result.attested_data (codes "original abi-encoded data")

    abbrev signature_recovers_to_signer_address_with_correct_domain : Bool
    signature_recovers_to_signer_address_with_correct_domain =
        let data' = codes "test attestation" in
        signed key 100 (some 123) (new data' state) λ result.
          holds_of (recover_address c (tagged_signing_input c (new data' state)) result.signature)
            λ recovered. eq_bytes recovered (c.address key)

    abbrev signature_does_not_recover_with_wrong_domain : Bool
    signature_does_not_recover_with_wrong_domain =
        let data' = codes "cross-domain replay test" in
        signed key 100 (some 123) (new data' state) λ result.
          holds_of (recover_address c (tagged_signing_input c (new data' packet)) result.signature)
            λ recovered. not (eq_bytes recovered (c.address key))

    abbrev signature_does_not_recover_from_raw_data : Bool
    signature_does_not_recover_from_raw_data =
        let data' = codes "raw data replay test" in
        signed key 100 none (new data' packet) λ result.
          holds_of (recover_address c data' result.signature)
            λ recovered. not (eq_bytes recovered (c.address key))

    abbrev state_and_packet_signatures_differ_for_same_data : Bool
    state_and_packet_signatures_differ_for_same_data =
        let data' = codes "same data for both domains" in
        signed key 100 (some 123) (new data' state) λ state_result.
          signed key 100 none (new data' packet)
            λ packet_result. not (eq_bytes state_result.signature packet_result.signature)

    abbrev sign_attestation_is_deterministic : Bool
    sign_attestation_is_deterministic = signed key 1 none (new (codes "deterministic") state) λ r1.
        signed key 1 none (new (codes "deterministic") state)
          λ r2. eq_bytes r1.signature r2.signature

    abbrev cross_domain_replay_attack_fails : Bool
    cross_domain_replay_attack_fails =
        let packet_data = codes "packet attestation abi bytes" in
        signed key 100 none (new packet_data packet) λ packet_signed.
          holds_of
            (recover_address c (tagged_signing_input c (new packet_data state))
              packet_signed.signature)
            λ recovered. not (eq_bytes recovered (c.address key))

  abbrev code_of : AttestorError → Code
  code_of e = (status_from c.unknown_enum_value_text e).code

  abbrev same_code : Code → Code → Bool
  same_code Code.ok Code.ok = true
  same_code invalid_argument invalid_argument = true
  same_code not_found not_found = true
  same_code failed_precondition failed_precondition = true
  same_code internal internal = true
  same_code _ _ = false

  abbrev block_not_finalized_maps_to_failed_precondition : Bool
  block_not_finalized_maps_to_failed_precondition =
      same_code (code_of AttestorError.block_not_finalized) failed_precondition

  abbrev commitment_not_found_maps_to_not_found : Bool
  commitment_not_found_maps_to_not_found =
      same_code (code_of (commitment_not_found "client-a" 1 10)) not_found

  abbrev invalid_commitment_maps_to_invalid_argument : Bool
  invalid_commitment_maps_to_invalid_argument =
      same_code (code_of (invalid_commitment "mismatch")) invalid_argument

  abbrev signer_errors_map_to_internal : Bool
  signer_errors_map_to_internal =
      same_code (code_of (signer_error "boom")) internal
      && same_code (code_of (signer_init_error (config_error "bad cfg"))) internal

abbrev padded : ℕ → Bytes → Bytes
padded n b = b ++ replicate (n - length b) 0

-- A signature is the key, followed by the digest, and another digest recovers to another key.
abbrev toy_recover : Bytes → Bytes → Result String Bytes
toy_recover [] hash = err "signature"
toy_recover (key ∷ rest) hash = ok (if eq_bytes rest (padded 64 hash) then key ∷ [] else 0 ∷ [])

abbrev test_crates : Crates
test_crates = record crates {
  sha256 = padded 32;
  Signature = Bytes;
  as_bytes = λ s. s;
  signature_try_from = λ b. ok b;
  sign_hash_sync = λ k hash. ok (k ∷ padded 64 hash);
  recover_address_from_prehash = toy_recover;
}

signatures_pass :
    (sign_attestation_produces_65_byte_signature test_crates 42
      && sign_attestation_preserves_original_attested_data test_crates 42
      && signature_recovers_to_signer_address_with_correct_domain test_crates 42
      && signature_does_not_recover_with_wrong_domain test_crates 42
      && signature_does_not_recover_from_raw_data test_crates 42
      && state_and_packet_signatures_differ_for_same_data test_crates 42
      && sign_attestation_is_deterministic test_crates 42
      && cross_domain_replay_attack_fails test_crates 42)
    ≡ true
unfolding run sign_attestation recover_address tagged_signing_input Local.sign Keys.sign
signatures_pass = refl

errors_pass :
    (block_not_finalized_maps_to_failed_precondition crates
      && commitment_not_found_maps_to_not_found crates
      && invalid_commitment_maps_to_invalid_argument crates
      && signer_errors_map_to_internal crates)
    ≡ true
unfolding status_from status_code
errors_pass = refl
