-- ===== src/Signer/Dispatch.antt =====
-- The signer chosen at start: `SignerEnum` of apps/ibc-attestor/src/signer/mod.rs.
pub mod Counts
pub mod Emitted
use ibc_attestor.Common.{String, Result, Bytes, is_ok, if◌then◌else◌}
use ibc_attestor.Crates.{Crates}
use ibc_attestor.Error.{SignerError}
use ibc_attestor.Future.{Future, ready, emits, bind}
use ibc_attestor.Signer.{Signer}
use ibc_attestor.Signer.Local.{LocalSigner, local_signer}
use ibc_attestor.Signer.Remote.{RemoteSigner, remote_signer}
use ibc_attestor.World.{signer_sign_result}

pub data SignerEnum (c : Crates) : Type 0 where
  local : LocalSigner c → SignerEnum c
  remote : RemoteSigner → SignerEnum c

module _ (c : Crates) where
  abbrev pub signer_name : SignerEnum c → String
  signer_name (local s) = "local"
  signer_name (remote s) = "remote"

  -- The implementation that a call is passed to.
  abbrev pub inner : SignerEnum c → Signer c
  inner (local s) = local_signer c s
  inner (remote s) = remote_signer c s

  -- `metrics::inc_signer_sign` on the outcome.
  abbrev pub counted : Result SignerError c.Signature → Future (Result SignerError c.Signature)
  counted result = emits (signer_sign_result (if is_ok result then "ok" else "err")) (ready result)

  unfoldable pub sign : SignerEnum c → Bytes → Future (Result SignerError c.Signature)
  sign self message = bind ((inner self).sign message) counted

  -- `impl Signer for SignerEnum`
  abbrev pub signer_enum : SignerEnum c → Signer c
  signer_enum self = record { sign = sign self }
