-- ===== src/Adapter/Solana.antt =====
-- apps/ibc-attestor/src/adapter/solana.rs
pub mod Answers
use ibc_attestor.Common.{
  ℕ, ◌+◌, String, ◌<>◌, Option, none, some, Result, ok, err, Bytes, map_err, map_ok, ok_or, ltb,
  length, drop, array32, if◌then◌else◌,
}
use ibc_attestor.Common.Int.{u64_try_from}
use ibc_attestor.Common.Text.{decimal, out_of_range}
use ibc_attestor.Adapter.{CommitmentType, packet, ack, receipt, AttestationAdapter}
use ibc_attestor.Adapter.Retry.{with_retry_backoff}
use ibc_attestor.Crates.{Crates}
use ibc_attestor.Error.{AttestationAdapterError, config_error, retrieval_error, commitment_error}
use ibc_attestor.Future.{Future, ready, ask, fmap, ◌>>=◌}
use ibc_attestor.World.{Account, solana_get_slot, solana_get_block_time, solana_get_account}

abbrev pub anchor_discriminator_len : ℕ
anchor_discriminator_len = 8

abbrev pub commitment_len : ℕ
commitment_len = 32

pub record SolanaAdapterConfig : Type 0 where
  pub url : String
  pub router_program_id : String

-- The client is the URL that it was made of.
pub record SolanaAdapter : Type 0 where
  pub client : String
  pub router_program_id : Bytes

abbrev pub adapter_name : String
adapter_name = "solana"

-- The bytes of an account that are no commitment account's: too short for a discriminator and a
-- commitment.
abbrev pub short_account_text : ℕ → String
unfolding decimal
short_account_text len =
    "Invalid commitment account data length: got "
    <> (decimal len <> " bytes, expected at least 40")

-- The commitment in an account's bytes.
unfoldable pub parse_commitment : Bytes → Result AttestationAdapterError Bytes
parse_commitment account =
    if ltb (length account) (anchor_discriminator_len + commitment_len)
    then err (retrieval_error (short_account_text (length account)))
    else ok_or (commitment_error "Commitment length mismatch")
        (array32 (drop anchor_discriminator_len account))

-- What the answer for the account leads to.
abbrev pub commitment_of : Option Account → Result AttestationAdapterError (Option Bytes)
commitment_of none = ok none
commitment_of (some account) = map_ok some (parse_commitment account.bytes)

module _ (c : Crates) where
  -- `SolanaAdapterBuilder::build`
  unfoldable pub build : SolanaAdapterConfig → Result AttestationAdapterError SolanaAdapter
  build config =
      map_ok (λ program. record { client = config.url; router_program_id = program })
        (map_err
          (λ e.
            config_error
              ("Invalid router program ID " <> (config.router_program_id <> (": " <> e))))
          (c.pubkey_from_str config.router_program_id))

  -- The account that holds a commitment, and its bump.
  abbrev pub commitment_pda : CommitmentType → String → ℕ → Bytes → Bytes × ℕ
  commitment_pda packet client_id sequence program =
      c.packet_commitment_pda client_id sequence program
  commitment_pda ack client_id sequence program = c.packet_ack_pda client_id sequence program
  commitment_pda receipt client_id sequence program =
      c.packet_receipt_pda client_id sequence program

module _ (c : Crates) (self : SolanaAdapter) where
  unfoldable pub get_last_height_at_configured_finality : Future (Result AttestationAdapterError ℕ)
  get_last_height_at_configured_finality =
      with_retry_backoff c "solana.get_last_height.get_slot_with_commitment"
        (fmap (map_err retrieval_error) (ask (solana_get_slot self.client)))

  unfoldable pub get_block_timestamp : ℕ → Future (Result AttestationAdapterError ℕ)
  get_block_timestamp slot = do
    block_time ←
        with_retry_backoff c "solana.get_block_timestamp.get_block_time"
          (fmap (map_err retrieval_error) (ask (solana_get_block_time self.client slot)))
    ready (ok_or (retrieval_error out_of_range) (u64_try_from block_time))

  -- The slot is only named in the error text: the account is read at the latest finalized slot.
  unfoldable pub get_commitment :
      String
      → ℕ
      → ℕ
      → Bytes
      → CommitmentType
      → Future (Result AttestationAdapterError (Option Bytes))
  unfolding decimal
  get_commitment client_id slot sequence commitment_path commitment_type = do
    let key = (commitment_pda c commitment_type client_id sequence self.router_program_id).0
    account ← with_retry_backoff c "solana.get_commitment.get_account_with_commitment" (
        fmap
          (map_err λ e. retrieval_error (
            "Failed to get commitment account for client_id="
            <> (client_id
                <> (", sequence="
                    <> (decimal sequence <> (", slot=" <> (decimal slot <> (": " <> e))))))))
          (ask (solana_get_account self.client key)))
    ready (commitment_of account)

  -- `impl AttestationAdapter for SolanaAdapter`
  abbrev pub solana_adapter : AttestationAdapter
  solana_adapter = record {
    get_last_height_at_configured_finality = get_last_height_at_configured_finality;
    get_block_timestamp = get_block_timestamp;
    get_commitment = get_commitment;
  }
