-- ===== src/Keys.antt =====
-- libs/ethereum/keys/src: signing and recovery over the SHA-256 digest of a message. An
-- `anyhow::Error` is its text.
pub mod Recovery
pub mod Keystore
use ibc_attestor.Common.{String, Result, ok, err, Bytes, map_err, and_then}
use ibc_attestor.Crates.{Crates}

module _ (c : Crates) where
  -- signature.rs, for a local key as the `SignerSync`
  unfoldable pub sign : c.PrivateKeySigner → Bytes → Result String c.Signature
  sign signer message = let hash = c.sha256 message in c.sign_hash_sync signer hash

  -- recover.rs
  unfoldable pub recover_address_from_prehash : Bytes → Bytes → Result String Bytes
  recover_address_from_prehash prehash signature_65 =
      and_then
        (map_err (λ _. "invalid signature length/format") (c.signature_try_from signature_65))
        (λ sig.
          map_err (λ _. "signature recovery failed") (c.recover_address_from_prehash sig prehash))

  unfoldable pub recover_address : Bytes → Bytes → Result String Bytes
  unfolding recover_address_from_prehash
  recover_address message signature_65 =
      let prehash = c.sha256 message in recover_address_from_prehash prehash signature_65
