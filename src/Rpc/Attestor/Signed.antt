-- ===== src/Rpc/Attestor/Signed.antt =====
-- Attestations that are signed in a run.
use ibc_attestor.Common.{ℕ, ◌≡◌, ap, ◌++◌, Option, some, List, ok}
use ibc_attestor.Attestation.{
  AttestationPayload, SignedAttestation, sign_attestation, tagged_signing_input,
}
use ibc_attestor.Attestation.Signing.{sign_attestation-signed}
use ibc_attestor.Crates.{Crates}
use ibc_attestor.Error.{status_from}
use ibc_attestor.Future.{fmap}
use ibc_attestor.Future.Errors.{Run-map_err-ok}
use ibc_attestor.Future.Runs.{Happening, Run, RunsIn, RunsIn-first, RunsIn-second}
use ibc_attestor.Rpc.{Attestation}
use ibc_attestor.Rpc.Attestor.{attestation_of, to_status}
use ibc_attestor.Signer.{Signer}

-- The attestation of a height with a payload, over whose tagged message the signer made a signature
-- in the run with the happenings `h`.
pub record IsSigned (c : Crates) (signer : Signer c) (height : ℕ) (timestamp : Option ℕ)
    (payload : AttestationPayload) (h : List Happening) (a : Option Attestation) : Type 0 where
  pub signature : c.Signature
  pub made : RunsIn (signer.sign (tagged_signing_input c payload)) (ok signature) h
  pub holds :
      a
      ≡ some (record {
        height = height;
        timestamp = timestamp;
        attested_data = payload.bytes;
        signature = c.as_bytes signature;
      })

pub sign_attestation-IsSigned :
    (c : Crates) (signer : Signer c) (height : ℕ) (timestamp : Option ℕ)
    (payload : AttestationPayload) (h : List Happening) (s : SignedAttestation)
    → Run (fmap (to_status c) (sign_attestation c height timestamp payload signer)) h (ok s)
    → IsSigned c signer height timestamp payload h (some (attestation_of c s))
sign_attestation-IsSigned c signer height timestamp payload h s run =
    let signed =
      Run-map_err-ok (status_from c.unknown_enum_value_text)
        (sign_attestation c height timestamp payload signer) h s run in
    let (signature, made, holds) =
      sign_attestation-signed c height timestamp payload signer h s signed in
    record { signature = signature; made = made; holds = ap (λ x. some (attestation_of c x)) holds }

-- A signature that was made in a part of a run was made in the run.
module _ (c : Crates) (signer : Signer c) (height : ℕ) (timestamp : Option ℕ)
    (payload : AttestationPayload) (h first second : List Happening) (joined : h ≡ first ++ second)
    (a : Option Attestation) where
  pub IsSigned-first :
      IsSigned c signer height timestamp payload first a
      → IsSigned c signer height timestamp payload h a
  IsSigned-first s = record {
    signature = s.signature;
    made =
        RunsIn-first (signer.sign (tagged_signing_input c payload)) (ok s.signature) h first second
          joined s.made;
    holds = s.holds;
  }

  pub IsSigned-second :
      IsSigned c signer height timestamp payload second a
      → IsSigned c signer height timestamp payload h a
  IsSigned-second s = record {
    signature = s.signature;
    made =
        RunsIn-second (signer.sign (tagged_signing_input c payload)) (ok s.signature) h first second
          joined s.made;
    holds = s.holds;
  }
