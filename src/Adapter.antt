-- ===== src/Adapter.antt =====
-- `trait AttestationAdapter` of apps/ibc-attestor/src/adapter/mod.rs.
pub mod Retry
pub mod Evm
pub mod Solana
pub mod Cosmos
pub mod Dispatch
use ibc_attestor.Common.{ℕ, String, Option, Result, Bytes}
use ibc_attestor.Error.{AttestationAdapterError}
use ibc_attestor.Future.{Future}

-- The `CommitmentType` of proto/ibc_attestor/ibc_attestor.proto.
pub data CommitmentType : Type 0 where
  packet ack receipt : CommitmentType

pub record AttestationAdapter : Type 0 where
  pub get_last_height_at_configured_finality : Future (Result AttestationAdapterError ℕ)
  pub get_block_timestamp : ℕ → Future (Result AttestationAdapterError ℕ)
  -- client id, height, sequence, commitment path, kind
  pub get_commitment :
      String
      → ℕ
      → ℕ
      → Bytes
      → CommitmentType
      → Future (Result AttestationAdapterError (Option Bytes))
