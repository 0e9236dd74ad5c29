-- ===== src/Signer.antt =====
-- `trait Signer` of apps/ibc-attestor/src/signer/mod.rs.
pub mod Local
pub mod Remote
pub mod Dispatch
use ibc_attestor.Common.{Result, Bytes}
use ibc_attestor.Crates.{Crates}
use ibc_attestor.Error.{SignerError}
use ibc_attestor.Future.{Future}

pub record Signer (c : Crates) : Type 0 where
  pub sign : Bytes → Future (Result SignerError c.Signature)
