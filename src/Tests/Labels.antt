-- ===== src/Tests/Labels.antt =====
-- Tests of the source: those of apps/ibc-attestor/src/attestation_payload.rs, and those of the labels
-- in metrics.rs, as functions into Bool, which the model passes.
use ibc_attestor.Common.{
  ℕ, ◌-◌, ◌≡◌, refl, Bool, true, false, not, ◌&&◌, ◌==◌, List, [], ◌∷◌, ◌++◌, Bytes, eq_bytes,
  length, replicate,
}
use ibc_attestor.Common.Text.{codes}
use ibc_attestor.Attestation.{AttestationType, state, packet, as_byte, new, tagged_signing_input}
use ibc_attestor.Crates.{Crates}
use ibc_attestor.Error.{Code, internal, failed_precondition, not_found}
use ibc_attestor.Metrics.{code_label, pascal_to_snake}
use ibc_attestor.Tests.{crates}

abbrev as_byte_returns_expected_values : Bool
as_byte_returns_expected_values = as_byte state == 0x01 && as_byte packet == 0x02

-- `msg[0]` and `&msg[1..]` of a message.
abbrev head_byte : Bytes → ℕ
head_byte [] = 0
head_byte (x ∷ b) = x

abbrev tail_bytes : Bytes → Bytes
tail_bytes [] = []
tail_bytes (x ∷ b) = b

abbrev same_type : AttestationType → AttestationType → Bool
same_type state state = true
same_type packet packet = true
same_type _ _ = false

module _ (c : Crates) where
  abbrev tagged_signing_input_is_33_bytes : Bool
  tagged_signing_input_is_33_bytes =
      let msg = tagged_signing_input c (new (codes "some attestation data") state) in
      length msg == 33 && head_byte msg == as_byte state

  abbrev tagged_signing_input_starts_with_domain_byte : Bool
  tagged_signing_input_starts_with_domain_byte =
      head_byte (tagged_signing_input c (new (codes "data") state)) == 0x01
      && head_byte (tagged_signing_input c (new (codes "data") packet)) == 0x02

  abbrev tagged_signing_input_suffix_is_sha256_of_data : Bool
  tagged_signing_input_suffix_is_sha256_of_data =
      let msg = tagged_signing_input c (new (codes "test data") state) in
      eq_bytes (tail_bytes msg) (c.sha256 (codes "test data"))

  abbrev different_domains_produce_different_tagged_signing_inputs : Bool
  different_domains_produce_different_tagged_signing_inputs =
      let data' = codes "identical data" in
      not (
        eq_bytes (tagged_signing_input c (new data' state))
          (tagged_signing_input c (new data' packet)))

  abbrev same_domain_same_data_is_deterministic : Bool
  same_domain_same_data_is_deterministic =
      eq_bytes (tagged_signing_input c (new (codes "deterministic check") state))
        (tagged_signing_input c (new (codes "deterministic check") state))

  abbrev different_data_produces_different_tagged_signing_inputs : Bool
  different_data_produces_different_tagged_signing_inputs = not (
      eq_bytes (tagged_signing_input c (new (codes "data-a") state))
        (tagged_signing_input c (new (codes "data-b") state)))

  -- Both digests are of what is signed.
  abbrev domain_tagged_digest_matches_manual_computation : Bool
  domain_tagged_digest_matches_manual_computation =
      let msg = tagged_signing_input c (new (codes "verify digest") state) in
      let expected_input = as_byte state ∷ c.sha256 (codes "verify digest") in
      eq_bytes (c.sha256 msg) (c.sha256 expected_input)

  abbrev code_label_covers_common_codes : Bool
  code_label_covers_common_codes =
      eq_bytes (code_label c Code.ok) (codes "ok")
      && eq_bytes (code_label c internal) (codes "internal")
      && eq_bytes (code_label c failed_precondition) (codes "failed_precondition")
      && eq_bytes (code_label c not_found) (codes "not_found")

-- The accessors are the fields.
abbrev domain_accessor_returns_correct_variant : Bool
domain_accessor_returns_correct_variant =
    same_type (new [] state).attestation_type state
    && same_type (new [] packet).attestation_type packet

abbrev data_accessor_returns_original_bytes : Bool
data_accessor_returns_original_bytes =
    eq_bytes (new (codes "original bytes") state).bytes (codes "original bytes")

abbrev pascal_to_snake_handles_typical_inputs : Bool
pascal_to_snake_handles_typical_inputs =
    eq_bytes (pascal_to_snake (codes "LatestHeight")) (codes "latest_height")
    && eq_bytes (pascal_to_snake (codes "ServerReflectionInfo")) (codes "server_reflection_info")
    && eq_bytes (pascal_to_snake (codes "Ok")) (codes "ok")

-- The names of the codes that the tests use.
abbrev code_name : Code → List ℕ
code_name Code.ok = codes "Ok"
code_name internal = codes "Internal"
code_name failed_precondition = codes "FailedPrecondition"
code_name not_found = codes "NotFound"
code_name _ = codes "InvalidArgument"

-- A digest of short data that tells them apart.
abbrev test_crates : Crates
test_crates = record crates {
  sha256 = λ b. b ++ replicate (32 - length b) 0;
  code_debug = code_name;
}

payloads_pass :
    (as_byte_returns_expected_values
      && tagged_signing_input_is_33_bytes test_crates
      && tagged_signing_input_starts_with_domain_byte test_crates
      && tagged_signing_input_suffix_is_sha256_of_data test_crates
      && different_domains_produce_different_tagged_signing_inputs test_crates
      && same_domain_same_data_is_deterministic test_crates
      && different_data_produces_different_tagged_signing_inputs test_crates
      && domain_tagged_digest_matches_manual_computation test_crates
      && domain_accessor_returns_correct_variant
      && data_accessor_returns_original_bytes)
    ≡ true
unfolding tagged_signing_input as_byte
payloads_pass = refl

labels_pass :
    (code_label_covers_common_codes test_crates && pascal_to_snake_handles_typical_inputs) ≡ true
unfolding pascal_to_snake
labels_pass = refl
