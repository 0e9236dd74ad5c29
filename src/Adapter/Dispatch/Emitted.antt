-- ===== src/Adapter/Dispatch/Emitted.antt =====
-- The adapters count no request.
use ibc_attestor.Common.{ℕ, refl, String, Option, none, some, ok, err, Bytes, ok_or}
use ibc_attestor.Adapter.{CommitmentType, packet, ack, receipt, AttestationAdapter}
use ibc_attestor.Adapter.Cosmos as CosmosAdapters
use ibc_attestor.Adapter.Evm as EvmAdapters
use ibc_attestor.Adapter.Solana as SolanaAdapters
use ibc_attestor.Adapter.Dispatch.{
  AdapterEnum, evm, solana, cosmos, inner, adapter_enum, gauge_height,
  get_last_height_at_configured_finality,
}
use ibc_attestor.Adapter.Retry.{with_retry_backoff}
use ibc_attestor.Adapter.Retry.Emitted.{with_retry_backoff-quiet}
use ibc_attestor.Crates.{Crates, RetryLaws}
use ibc_attestor.Adapter.Retry.Attempts.{AdapterResult}
use ibc_attestor.Adapter.Cosmos.{CosmosAdapter}
use ibc_attestor.World.{Request, Answer, Block}
use ibc_attestor.Error.{AttestationAdapterError, invalid_height}
use ibc_attestor.Future.{Future, ready, ask, fmap, ◌>>=◌, return}
use ibc_attestor.Future.Emitted.{no_request, CountsNoRequest, Emits-bind, Emits->>=}

module _ (c : Crates) (laws : RetryLaws c) where
  -- A retried question, and what follows it.
  abbrev asks :
      {A : Type 0}
      → String
      → (q : Request) → (Answer q → AdapterResult A)
      → Future (AdapterResult A)
  asks operation q convert = with_retry_backoff c operation (fmap convert (ask q))

  asked-quiet :
      {A B : Type 0} (operation : String) (q : Request) (convert : Answer q → AdapterResult A)
      (later : A → Future (AdapterResult B))
      → ((a : A) → CountsNoRequest (later a))
      → CountsNoRequest (asks operation q convert >>= later)
  asked-quiet operation q convert later quiet =
      Emits->>= no_request (asks operation q convert) later
        (with_retry_backoff-quiet c laws operation (fmap convert (ask q)) (λ x. tt)) quiet

  block-quiet :
      {A : Type 0} (o : Option Block) (g : Block → A)
      → CountsNoRequest (
          ready (ok_or AttestationAdapterError.block_not_finalized o) >>= λ block. return (g block))
  block-quiet none g = tt
  block-quiet (some block) g = tt

  height-quiet :
      (a : AdapterEnum) → CountsNoRequest (inner c a).get_last_height_at_configured_finality
  unfolding EvmAdapters.get_last_height_at_configured_finality
      SolanaAdapters.get_last_height_at_configured_finality
      CosmosAdapters.get_last_height_at_configured_finality
  height-quiet (evm a) =
      asked-quiet _ _ _ _
        (λ o. block-quiet o (EvmAdapters.finalized_height a.config.finality_offset))
  height-quiet (solana a) = with_retry_backoff-quiet c laws _ _ (λ x. tt)
  height-quiet (cosmos a) = asked-quiet _ _ _ _ (λ block. tt)

  time-quiet :
      (a : AdapterEnum) (height : ℕ) → CountsNoRequest ((inner c a).get_block_timestamp height)
  unfolding EvmAdapters.get_block_timestamp SolanaAdapters.get_block_timestamp
      CosmosAdapters.get_block_timestamp
  time-quiet (evm a) height = asked-quiet _ _ _ _ (λ o. block-quiet o (λ block. block.timestamp))
  time-quiet (solana a) height = asked-quiet _ _ _ _ (λ t. tt)
  time-quiet (cosmos a) height =
      Emits->>= no_request (ready (ok_or invalid_height (c.height_try_from height))) _ tt
        (λ accepted. asked-quiet _ _ _ _ (λ block. tt))

  fetch-quiet :
      (a : CosmosAdapter) (kind : CommitmentType) (client_id : String) (height sequence : ℕ)
      → CountsNoRequest (CosmosAdapters.fetch_commitment c a kind client_id height sequence)
  unfolding CosmosAdapters.fetch_commitment
  fetch-quiet a packet client_id height sequence = asked-quiet _ _ _ _ (λ b. tt)
  fetch-quiet a ack client_id height sequence = asked-quiet _ _ _ _ (λ b. tt)
  fetch-quiet a receipt client_id height sequence = asked-quiet _ _ _ _ (λ b. tt)

  commitment-quiet :
      (a : AdapterEnum) (client_id : String) (height sequence : ℕ) (path : Bytes)
      (kind : CommitmentType)
      → CountsNoRequest ((inner c a).get_commitment client_id height sequence path kind)
  unfolding EvmAdapters.get_commitment SolanaAdapters.get_commitment CosmosAdapters.get_commitment
  commitment-quiet (evm a) client_id height sequence path kind = asked-quiet _ _ _ _ (λ v. tt)
  commitment-quiet (solana a) client_id height sequence path kind = asked-quiet _ _ _ _ (λ v. tt)
  commitment-quiet (cosmos a) client_id height sequence path kind =
      Emits->>= no_request (CosmosAdapters.fetch_commitment c a kind client_id height sequence) _
        (fetch-quiet a kind client_id height sequence) (λ v. tt)

  gauge-quiet : (r : AdapterResult ℕ) → CountsNoRequest (gauge_height r)
  gauge-quiet (ok height) = (refl, tt)
  gauge-quiet (err e) = tt

-- An adapter whose operations count no request to the service.
pub record QuietAdapter (adapter : AttestationAdapter) : Type 0 where
  pub height : CountsNoRequest adapter.get_last_height_at_configured_finality
  pub time : (height : ℕ) → CountsNoRequest (adapter.get_block_timestamp height)
  pub commitment :
      (client_id : String) (height sequence : ℕ) (path : Bytes) (kind : CommitmentType)
      → CountsNoRequest (adapter.get_commitment client_id height sequence path kind)

pub adapter_enum-QuietAdapter :
    (c : Crates) → RetryLaws c → (a : AdapterEnum) → QuietAdapter (adapter_enum c a)
unfolding get_last_height_at_configured_finality
adapter_enum-QuietAdapter c laws a = record {
  height =
      Emits-bind no_request (inner c a).get_last_height_at_configured_finality gauge_height
        (height-quiet c laws a) (gauge-quiet c laws);
  time = time-quiet c laws a;
  commitment = commitment-quiet c laws a;
}
