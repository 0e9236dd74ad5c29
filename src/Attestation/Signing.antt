-- ===== src/Attestation/Signing.antt =====
-- What a signed attestation holds, and that no attestation of one kind is signed as another.
use ibc_attestor.Common.{
  ℕ, suc, ◌≡◌, ◌↔◌, refl, sym, ap, Option, List, ok, arith, length, ok_injective, map_err-eq-ok,
  map_err,
}
use ibc_attestor.Attestation.{
  AttestationType, AttestationPayload, state, packet, as_byte, SignedAttestation,
  tagged_signing_input, sign_attestation,
}
use ibc_attestor.Crates.{Crates, HashLaws, SignatureLaws}
use ibc_attestor.Error.{local_error, signer_error, signer_error_text}
use ibc_attestor.Future.{return, fmap}
use ibc_attestor.Future.Errors.{Run-map_err-ok}
use ibc_attestor.Future.Runs.{Happening, Run, >>=-ok, RunsIn, RunsIn-first, RunsIn-all}
use ibc_attestor.Keys
use ibc_attestor.Keys.Recovery.{recover_address-sign}
use ibc_attestor.Signer.{Signer}
use ibc_attestor.Signer.Local
use ibc_attestor.Signer.Local.{LocalSigner, local_signer}

as_byte_injective : (a b : AttestationType) → as_byte a ≡ as_byte b → a ≡ b
unfolding as_byte
as_byte_injective state state h = refl
as_byte_injective state packet h = absurd (omega arith)
as_byte_injective packet state h = absurd (omega arith)
as_byte_injective packet packet h = refl

-- The signed message is 33 bytes. Two payloads have the same one exactly if they are of the same
-- kind and their data have the same SHA-256 digest: a state attestation is never signed as a packet
-- attestation, whatever the data.
pub tagged_signing_input-domain :
    (c : Crates)
    → HashLaws c
    → (p q : AttestationPayload)
    → (length (tagged_signing_input c p) ≡ 33)
      × ((tagged_signing_input c p ≡ tagged_signing_input c q)
          ↔ ((p.attestation_type ≡ q.attestation_type) × (c.sha256 p.bytes ≡ c.sha256 q.bytes)))
unfolding tagged_signing_input
tagged_signing_input-domain c laws p q = (
  ap suc (laws.length-sha256 p.bytes),
  (
    λ same. (as_byte_injective p.attestation_type q.attestation_type (cc), cc),
    λ (kind, digest). rw kind (rw digest refl),
  ),
)

-- A signature over the tagged message of the payload, and the payload's data unchanged.
pub sign_attestation-signed :
    (c : Crates) (height : ℕ) (timestamp : Option ℕ) (payload : AttestationPayload)
    (signer : Signer c) (h : List Happening) (a : SignedAttestation)
    → Run (sign_attestation c height timestamp payload signer) h (ok a)
    → (s : c.Signature) × RunsIn (signer.sign (tagged_signing_input c payload)) (ok s) h
      × (a ≡ record {
        height = height;
        timestamp = timestamp;
        attested_data = payload.bytes;
        signature = c.as_bytes s;
      })
unfolding sign_attestation
sign_attestation-signed c height timestamp payload signer h a run =
    let s =
      >>=-ok
        (fmap (map_err λ e. signer_error (signer_error_text e))
          (signer.sign (tagged_signing_input c payload)))
        (λ s. return (record {
          height = height;
          timestamp = timestamp;
          attested_data = payload.bytes;
          signature = c.as_bytes s;
        }))
        h a run in
    let signed =
      Run-map_err-ok (λ e. signer_error (signer_error_text e))
        (signer.sign (tagged_signing_input c payload)) s.first s.value s.before in
    let made =
      RunsIn-first (signer.sign (tagged_signing_input c payload)) (ok s.value) h s.first s.second
        s.joined
        (RunsIn-all (signer.sign (tagged_signing_input c payload)) (ok s.value) s.first signed) in
    (s.value, made, sym (ok_injective s.after.1))

-- An attestation signed with a local key holds the payload's data unchanged, its signature has 65
-- bytes, and from the tagged message of the payload it recovers to the address of the key.
pub sign_attestation-recovers :
    (c : Crates)
    → SignatureLaws c
    → (height : ℕ) (timestamp : Option ℕ) (payload : AttestationPayload) (key : LocalSigner c)
      (h : List Happening) (a : SignedAttestation)
    → Run (sign_attestation c height timestamp payload (local_signer c key)) h (ok a)
    → (a.attested_data ≡ payload.bytes)
      × (length a.signature ≡ 65)
      × (Keys.recover_address c (tagged_signing_input c payload) a.signature
          ≡ ok (c.address key.inner))
unfolding Local.sign
sign_attestation-recovers c laws height timestamp payload key h a run =
    let (s, (k, (e, signed), w), holds) =
      sign_attestation-signed c height timestamp payload (local_signer c key) h a run in
    let made =
      map_err-eq-ok local_error (Keys.sign c key.inner (tagged_signing_input c payload)) s signed in
    (
      ap (λ x. x.attested_data) holds,
      rw holds (laws.length-as_bytes s),
      rw holds (recover_address-sign c laws key.inner (tagged_signing_input c payload) s made),
    )
