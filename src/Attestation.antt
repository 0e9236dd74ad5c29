-- ===== src/Attestation.antt =====
-- apps/ibc-attestor/src/attestation_payload.rs and attestation.rs
pub mod Signing
use ibc_attestor.Common.{ℕ, Option, Result, Bytes, ◌∷◌, map_err}
use ibc_attestor.Crates.{Crates}
use ibc_attestor.Error.{AttestorError, signer_error, signer_error_text}
use ibc_attestor.Future.{Future, fmap, ◌>>=◌, return}
use ibc_attestor.Signer.{Signer}

pub data AttestationType : Type 0 where
  state packet : AttestationType

unfoldable pub as_byte : AttestationType → ℕ
as_byte state = 0x01
as_byte packet = 0x02

-- `bytes` is the field `data` of the source.
pub record AttestationPayload : Type 0 where
  pub attestation_type : AttestationType
  pub bytes : Bytes

-- `AttestationPayload::new`
abbrev pub new : Bytes → AttestationType → AttestationPayload
new bytes attestation_type = record { attestation_type = attestation_type; bytes = bytes }

pub record SignedAttestation : Type 0 where
  pub height : ℕ
  pub timestamp : Option ℕ
  pub attested_data : Bytes
  pub signature : Bytes

module _ (c : Crates) where
  unfoldable pub tagged_signing_input : AttestationPayload → Bytes
  unfolding as_byte
  tagged_signing_input self = as_byte self.attestation_type ∷ c.sha256 self.bytes

  unfoldable pub sign_attestation :
      ℕ → Option ℕ → AttestationPayload → Signer c → Future (Result AttestorError SignedAttestation)
  sign_attestation height timestamp payload signer = do
    signature ←
        fmap (map_err λ e. signer_error (signer_error_text e))
          (signer.sign (tagged_signing_input payload))
    return (record {
      height = height;
      timestamp = timestamp;
      attested_data = payload.bytes;
      signature = c.as_bytes signature;
    })
