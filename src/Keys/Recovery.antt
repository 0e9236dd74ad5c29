-- ===== src/Keys/Recovery.antt =====
-- A signed message recovers to the signer's address.
use ibc_attestor.Common.{◌≡◌, ok, Bytes}
use ibc_attestor.Crates.{Crates, SignatureLaws}
use ibc_attestor.Keys.{sign, recover_address}

-- The bytes of a signature that `sign` made with a key, with the same message, recover to the key's
-- address.
pub recover_address-sign :
    (c : Crates)
    → SignatureLaws c
    → (key : c.PrivateKeySigner) (message : Bytes) (s : c.Signature) → sign c key message ≡ ok s
    → recover_address c message (c.as_bytes s) ≡ ok (c.address key)
unfolding sign recover_address
recover_address-sign c laws key message s signed =
    rw (laws.signature_try_from-as_bytes s, laws.recover-sign key (c.sha256 message) s signed)
