-- ===== src/Adapter/Evm.antt =====
-- apps/ibc-attestor/src/adapter/evm.rs
pub mod Answers
use ibc_attestor.Common.{
  ℕ, ◌-◌, String, Option, none, some, Result, ok, Bytes, map_err, ok_or, is_zero, if◌then◌else◌,
}
use ibc_attestor.Adapter.{CommitmentType, AttestationAdapter}
use ibc_attestor.Adapter.Retry.{with_retry_backoff}
use ibc_attestor.Crates.{Crates}
use ibc_attestor.Error.{AttestationAdapterError, block_not_finalized, retrieval_error}
use ibc_attestor.Future.{Future, ready, ask, fmap, ◌>>=◌, return}
use ibc_attestor.World.{
  Block, BlockId, latest, finalized, number, evm_get_block, evm_get_commitment,
}

pub record EvmAdapterConfig : Type 0 where
  pub url : String
  pub router_address : Bytes
  pub finality_offset : Option ℕ

-- The client and the router are those of the configuration's URL and router address.
pub record EvmAdapter : Type 0 where
  pub config : EvmAdapterConfig

-- `EvmAdapterBuilder::build`, which cannot fail.
unfoldable pub build : EvmAdapterConfig → Result AttestationAdapterError EvmAdapter
build config = ok (record { config = config })

abbrev pub adapter_name : String
adapter_name = "evm"

-- The block to ask for, by whether an offset is configured.
abbrev pub finality_block : Option ℕ → BlockId
finality_block (some offset) = latest
finality_block none = finalized

-- `saturating_sub` of unsigned integers is `-` here.
abbrev pub finalized_height : Option ℕ → Block → ℕ
finalized_height none block = block.number
finalized_height (some offset) block = block.number - offset

-- Zero bytes stand for a commitment that is not there.
abbrev pub commitment_of : Bytes → Option Bytes
commitment_of commitment = if is_zero commitment then none else some commitment

module _ (c : Crates) (self : EvmAdapter) where
  unfoldable pub get_last_height_at_configured_finality : Future (Result AttestationAdapterError ℕ)
  get_last_height_at_configured_finality = do
    block ← with_retry_backoff c "evm.get_last_height.get_block" (
        fmap (map_err retrieval_error)
          (ask (evm_get_block self.config.url (finality_block self.config.finality_offset))))
    block ← ready (ok_or block_not_finalized block)
    return (finalized_height self.config.finality_offset block)

  unfoldable pub get_block_timestamp : ℕ → Future (Result AttestationAdapterError ℕ)
  get_block_timestamp height = do
    block ←
        with_retry_backoff c "evm.get_block_timestamp.get_block"
          (fmap (map_err retrieval_error) (ask (evm_get_block self.config.url (number height))))
    block ← ready (ok_or block_not_finalized block)
    return block.timestamp

  unfoldable pub get_commitment :
      String
      → ℕ
      → ℕ
      → Bytes
      → CommitmentType
      → Future (Result AttestationAdapterError (Option Bytes))
  get_commitment client_id height sequence commitment_path commitment_type = do
    let hashed_path = c.keccak256 commitment_path
    commitment ← with_retry_backoff c "evm.get_commitment.get_commitment" (
        fmap (map_err retrieval_error) (
          ask (
            evm_get_commitment self.config.url self.config.router_address hashed_path
              (number height))))
    return (commitment_of commitment)

  -- `impl AttestationAdapter for EvmAdapter`
  abbrev pub evm_adapter : AttestationAdapter
  evm_adapter = record {
    get_last_height_at_configured_finality = get_last_height_at_configured_finality;
    get_block_timestamp = get_block_timestamp;
    get_commitment = get_commitment;
  }
