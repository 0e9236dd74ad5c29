-- ===== src/Adapter/Dispatch.antt =====
-- The adapter chosen at start: `AdapterEnum` of apps/ibc-attestor/src/adapter/mod.rs.
pub mod Gauge
pub mod Emitted
use ibc_attestor.Common.{ℕ, ◌-◌, ◌^◌, String, Result, ok, err, min}
use ibc_attestor.Common.Int.{pos}
use ibc_attestor.Adapter.{AttestationAdapter}
use ibc_attestor.Adapter.Cosmos
use ibc_attestor.Adapter.Cosmos.{CosmosAdapter, cosmos_adapter}
use ibc_attestor.Adapter.Evm
use ibc_attestor.Adapter.Evm.{EvmAdapter, evm_adapter}
use ibc_attestor.Adapter.Solana
use ibc_attestor.Adapter.Solana.{SolanaAdapter, solana_adapter}
use ibc_attestor.Crates.{Crates}
use ibc_attestor.Error.{AttestationAdapterError}
use ibc_attestor.Future.{Future, ready, emits, bind}
use ibc_attestor.World.{finalized_height}

pub data AdapterEnum : Type 0 where
  evm : EvmAdapter → AdapterEnum
  solana : SolanaAdapter → AdapterEnum
  cosmos : CosmosAdapter → AdapterEnum

abbrev pub adapter_name : AdapterEnum → String
adapter_name (evm a) = Evm.adapter_name
adapter_name (solana a) = Solana.adapter_name
adapter_name (cosmos a) = Cosmos.adapter_name

-- `i64::MAX`
abbrev pub i64_max : ℕ
i64_max = 2 ^ 63 - 1

-- `metrics::set_adapter_finalized_height` on a height that was read, which caps it.
abbrev pub gauge_height :
    Result AttestationAdapterError ℕ → Future (Result AttestationAdapterError ℕ)
gauge_height (ok height) = emits (finalized_height (pos (min height i64_max))) (ready (ok height))
gauge_height (err e) = ready (err e)

module _ (c : Crates) where
  -- The implementation that a call is passed to.
  abbrev pub inner : AdapterEnum → AttestationAdapter
  inner (evm a) = evm_adapter c a
  inner (solana a) = solana_adapter c a
  inner (cosmos a) = cosmos_adapter c a

  unfoldable pub get_last_height_at_configured_finality :
      AdapterEnum → Future (Result AttestationAdapterError ℕ)
  get_last_height_at_configured_finality self =
      bind (inner self).get_last_height_at_configured_finality gauge_height

  -- `impl AttestationAdapter for AdapterEnum`
  abbrev pub adapter_enum : AdapterEnum → AttestationAdapter
  adapter_enum self = record {
    get_last_height_at_configured_finality = get_last_height_at_configured_finality self;
    get_block_timestamp = (inner self).get_block_timestamp;
    get_commitment = (inner self).get_commitment;
  }
