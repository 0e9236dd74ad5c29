-- ===== src/Adapter/Cosmos.antt =====
-- apps/ibc-attestor/src/adapter/cosmos.rs
pub mod Answers
use ibc_attestor.Common.{
  ℕ, false, String, ◌<>◌, Option, none, some, Result, ok, err, Bool, true, Bytes, map_err, map_ok,
  ok_or, is_empty, array32, if◌then◌else◌,
}
use ibc_attestor.Common.Int.{u64_try_from}
use ibc_attestor.Common.Text.{decimal, out_of_range}
use ibc_attestor.Adapter.{CommitmentType, packet, ack, receipt, AttestationAdapter}
use ibc_attestor.Adapter.Retry.{with_retry_backoff}
use ibc_attestor.Crates.{Crates}
use ibc_attestor.Error.{
  AttestationAdapterError, config_error, invalid_height, retrieval_error, commitment_error,
}
use ibc_attestor.Future.{Future, ready, ask, fmap, ◌>>=◌, return}
use ibc_attestor.World.{
  cosmos_latest_commit, cosmos_commit, cosmos_packet_commitment, cosmos_packet_acknowledgement,
  cosmos_packet_receipt,
}

pub record CosmosAdapterConfig : Type 0 where
  pub url : String

pub record CosmosAdapter : Type 0 where
  pub client : String

abbrev pub adapter_name : String
adapter_name = "cosmos"

-- An answer with no bytes means that there is no commitment.
abbrev pub non_empty : Bytes → Option Bytes
non_empty b = if is_empty b then none else some b

-- A packet that was received has no receipt to be absent.
unfoldable pub receipt_of : ℕ → Bool → Result AttestationAdapterError (Option Bytes)
unfolding decimal
receipt_of sequence true = err (
    commitment_error
      ("Packet seq=" <> (decimal sequence <> " was already received, cannot timeout")))
receipt_of sequence false = ok none

-- The end of `get_commitment`.
abbrev pub commitment_of : Option Bytes → Result AttestationAdapterError (Option Bytes)
commitment_of none = ok none
commitment_of (some commitment) =
    map_ok some (ok_or (commitment_error "Commitment length mismatch") (array32 commitment))

-- `CosmosAdapterBuilder::build`
unfoldable pub build : Crates → CosmosAdapterConfig → Result AttestationAdapterError CosmosAdapter
build c config =
    map_ok (λ client. record { client = client })
      (map_err (λ e. config_error ("Cosmos client couldn't be initialized: " <> e))
        (c.http_client_new config.url))

module _ (c : Crates) (self : CosmosAdapter) where
  unfoldable pub get_packet_commitment :
      String → ℕ → ℕ → Future (Result AttestationAdapterError (Option Bytes))
  get_packet_commitment client_id height sequence = do
    commitment ← with_retry_backoff c "cosmos.get_packet_commitment.v2_packet_commitment" (
        fmap (map_err retrieval_error)
          (ask (cosmos_packet_commitment self.client client_id sequence height false)))
    return (non_empty commitment)

  unfoldable pub get_ack_commitment :
      String → ℕ → ℕ → Future (Result AttestationAdapterError (Option Bytes))
  get_ack_commitment client_id height sequence = do
    acknowledgement ← with_retry_backoff c "cosmos.get_ack_commitment.v2_packet_acknowledgement" (
        fmap (map_err retrieval_error)
          (ask (cosmos_packet_acknowledgement self.client client_id sequence height)))
    return (non_empty acknowledgement)

  unfoldable pub get_receipt_commitment :
      String → ℕ → ℕ → Future (Result AttestationAdapterError (Option Bytes))
  get_receipt_commitment client_id height sequence = do
    received ← with_retry_backoff c "cosmos.get_receipt_commitment.v2_packet_receipt" (
        fmap (map_err retrieval_error)
          (ask (cosmos_packet_receipt self.client client_id sequence height)))
    ready (receipt_of sequence received)

  unfoldable pub get_last_height_at_configured_finality : Future (Result AttestationAdapterError ℕ)
  get_last_height_at_configured_finality = do
    block ←
        with_retry_backoff c "cosmos.get_last_height.latest_commit"
          (fmap (map_err retrieval_error) (ask (cosmos_latest_commit self.client)))
    return block.height

  unfoldable pub get_block_timestamp : ℕ → Future (Result AttestationAdapterError ℕ)
  get_block_timestamp height = do
    height ← ready (ok_or invalid_height (c.height_try_from height))
    block ←
        with_retry_backoff c "cosmos.get_block_timestamp.commit"
          (fmap (map_err retrieval_error) (ask (cosmos_commit self.client height)))
    ready (ok_or (retrieval_error out_of_range) (u64_try_from block.unix_timestamp))

  -- The question that belongs to the kind of commitment.
  unfoldable pub fetch_commitment :
      CommitmentType → String → ℕ → ℕ → Future (Result AttestationAdapterError (Option Bytes))
  unfolding get_packet_commitment get_ack_commitment get_receipt_commitment
  fetch_commitment packet client_id height sequence =
      get_packet_commitment client_id height sequence
  fetch_commitment ack client_id height sequence = get_ack_commitment client_id height sequence
  fetch_commitment receipt client_id height sequence =
      get_receipt_commitment client_id height sequence

  unfoldable pub get_commitment :
      String
      → ℕ
      → ℕ
      → Bytes
      → CommitmentType
      → Future (Result AttestationAdapterError (Option Bytes))
  unfolding fetch_commitment
  get_commitment client_id height sequence commitment_path commitment_type = do
    commitment ← fetch_commitment commitment_type client_id height sequence
    ready (commitment_of commitment)

  -- `impl AttestationAdapter for CosmosAdapter`
  abbrev pub cosmos_adapter : AttestationAdapter
  cosmos_adapter = record {
    get_last_height_at_configured_finality = get_last_height_at_configured_finality;
    get_block_timestamp = get_block_timestamp;
    get_commitment = get_commitment;
  }
