-- ===== src/Tests/Chains.antt =====
-- The adapters of the three chains, and the retries.
use ibc_attestor.Common.{
  ℕ, ◌≤◌, ◌≡◌, none, some, List, [], ◌∷◌, ◌++◌, ok, err, Option, Result, ◌⊎◌, map_err, Bytes,
  replicate,
}
use ibc_attestor.Adapter.{packet, receipt}
use ibc_attestor.Adapter.Cosmos
use ibc_attestor.Adapter.Cosmos.{CosmosAdapter}
use ibc_attestor.Adapter.Cosmos.Answers.{
  Answered, ReadsCommit, cosmos_get_commitment-Answered, cosmos_get_block_timestamp-answered,
}
use ibc_attestor.Adapter.Evm
use ibc_attestor.Adapter.Evm.{EvmAdapter}
use ibc_attestor.Adapter.Evm.Answers.{
  ReadsHeight, ReadsCommitment, evm_get_commitment-answered, evm_get_last_height-answered,
}
use ibc_attestor.Adapter.Retry.{with_retry_backoff}
use ibc_attestor.Adapter.Retry.Attempts.{Attempts}
use ibc_attestor.Adapter.Retry.Policy.{pauses, given_up, with_retry_backoff-Attempts}
use ibc_attestor.Adapter.Solana
use ibc_attestor.Adapter.Solana.{
  SolanaAdapter, parse_commitment, short_account_text, commitment_pda,
}
use ibc_attestor.Adapter.Solana.Answers.{
  Parsed, account_for, ReadsAccount, ReadsTime, failed_text, parse_commitment_lem,
  solana_get_commitment-answered, solana_get_block_timestamp-answered,
}
use ibc_attestor.Error.{retrieval_error, invalid_height, AttestationAdapterError}
use ibc_attestor.Future.{Future, ask, fmap}
use ibc_attestor.Future.Runs.{Happening, run, run-Run}
use ibc_attestor.Tests.{crates, retry_laws, retry_if, delays_from}
use ibc_attestor.Tests.Outside.{chain}
use ibc_attestor.World.{Block, latest, evm_get_block}

-- An adapter with an offset of 10 blocks.
abbrev evm : EvmAdapter
evm = record {
  config = record { url = "http://evm"; router_address = 5 ∷ []; finality_offset = some 10 };
}

abbrev height_run : List Happening
height_run = (run chain 0 (Evm.get_last_height_at_configured_finality crates evm)).0

evm_get_last_height-answered_example : ReadsHeight "http://evm" (some 10) height_run (ok 90)
unfolding run Evm.get_last_height_at_configured_finality with_retry_backoff retry_if delays_from
evm_get_last_height-answered_example =
    evm_get_last_height-answered crates retry_laws evm height_run (ok 90)
      (run-Run chain 0 (Evm.get_last_height_at_configured_finality crates evm))

abbrev evm_run : List Happening
evm_run = (run chain 0 (Evm.get_commitment crates evm "c" 60 7 (1 ∷ []) packet)).0

evm_get_commitment-answered_example :
    ReadsCommitment "http://evm" (5 ∷ []) (replicate 32 1) 60 evm_run (ok (some (replicate 32 7)))
unfolding run Evm.get_commitment with_retry_backoff retry_if delays_from
evm_get_commitment-answered_example =
    evm_get_commitment-answered crates retry_laws evm evm_run "c" 60 7 (1 ∷ []) packet
      (ok (some (replicate 32 7)))
      (run-Run chain 0 (Evm.get_commitment crates evm "c" 60 7 (1 ∷ []) packet))

abbrev solana : SolanaAdapter
solana = record { client = "http://solana"; router_program_id = 9 ∷ [] }

abbrev long_account : Bytes
long_account = replicate 41 1

parse_commitment_lem_example : Parsed long_account (parse_commitment long_account)
parse_commitment_lem_example = parse_commitment_lem long_account

abbrev slot_run : List Happening
slot_run = (run chain 0 (Solana.get_last_height_at_configured_finality crates solana)).0

abbrev slot_time_run : List Happening
slot_time_run = (run chain 0 (Solana.get_block_timestamp crates solana 60)).0

solana_get_block_timestamp-answered_example :
    ReadsTime "http://solana" 60 slot_time_run (ok 1_700_000_000)
unfolding run Solana.get_block_timestamp with_retry_backoff retry_if delays_from
solana_get_block_timestamp-answered_example =
    solana_get_block_timestamp-answered crates retry_laws solana slot_time_run 60 (ok 1_700_000_000)
      (run-Run chain 0 (Solana.get_block_timestamp crates solana 60))

abbrev account_run : List Happening
account_run = (run chain 0 (Solana.get_commitment crates solana "c" 60 7 (1 ∷ []) packet)).0

solana_get_commitment-answered_example :
    ReadsAccount "http://solana"
      (account_for crates packet "c" 7 (9 ∷ []))
      (failed_text "c" 7 60)
      account_run
      (ok (some (replicate 32 7)))
unfolding run Solana.get_commitment with_retry_backoff retry_if delays_from Solana.parse_commitment
solana_get_commitment-answered_example =
    solana_get_commitment-answered crates retry_laws solana account_run "c" 60 7 (1 ∷ []) packet
      (ok (some (replicate 32 7)))
      (run-Run chain 0 (Solana.get_commitment crates solana "c" 60 7 (1 ∷ []) packet))

abbrev cosmos : CosmosAdapter
cosmos = record { client = "http://cosmos" }

abbrev commit_run : List Happening
commit_run = (run chain 0 (Cosmos.get_last_height_at_configured_finality crates cosmos)).0

abbrev receipt_run : List Happening
receipt_run = (run chain 0 (Cosmos.get_commitment crates cosmos "c" 60 7 (1 ∷ []) receipt)).0

cosmos_get_commitment-Answered_example : Answered cosmos receipt "c" 60 7 (ok none) receipt_run
unfolding run Cosmos.get_commitment Cosmos.fetch_commitment Cosmos.get_receipt_commitment
    Cosmos.receipt_of with_retry_backoff retry_if delays_from
cosmos_get_commitment-Answered_example =
    cosmos_get_commitment-Answered crates retry_laws cosmos receipt_run "c" 60 7 (1 ∷ []) receipt
      (ok none) (run-Run chain 0 (Cosmos.get_commitment crates cosmos "c" 60 7 (1 ∷ []) receipt))

-- A request that fails at its first attempt.
abbrev request : Future (Result AttestationAdapterError (Option Block))
request = fmap (map_err retrieval_error) (ask (evm_get_block "http://evm" latest))

abbrev found : Block
found = record { number = 100; timestamp = 1_700_000_000 }

abbrev outcome : Result AttestationAdapterError (Option Block)
outcome = ok (some found)

abbrev retry_run : List Happening
retry_run = (run chain 0 (with_retry_backoff crates "get_block" request)).0

with_retry_backoff-Attempts_example :
    (n : ℕ) × (h' : List Happening) × Attempts request pauses n h' outcome
    × (1 ≤ n)
    × (n ≤ 3)
    × (retry_run ≡ h' ++ given_up "get_block" n outcome)
unfolding run with_retry_backoff retry_if delays_from
with_retry_backoff-Attempts_example =
    with_retry_backoff-Attempts crates retry_laws "get_block" request retry_run (ok (some found))
      (run-Run chain 0 (with_retry_backoff crates "get_block" request))

abbrev commit_time_run : List Happening
commit_time_run = (run chain 0 (Cosmos.get_block_timestamp crates cosmos 60)).0

abbrev time_result : Result AttestationAdapterError ℕ
time_result = ok 1_700_000_000

cosmos_get_block_timestamp-answered_example :
    ((crates.height_try_from 60 ≡ none)
      × (commit_time_run ≡ [])
      × (time_result ≡ err invalid_height))
    ⊎ ((accepted : ℕ) × (crates.height_try_from 60 ≡ some accepted)
        × ReadsCommit "http://cosmos" accepted commit_time_run time_result)
unfolding run Cosmos.get_block_timestamp with_retry_backoff retry_if delays_from
cosmos_get_block_timestamp-answered_example =
    cosmos_get_block_timestamp-answered crates retry_laws cosmos commit_time_run 60
      (ok 1_700_000_000) (run-Run chain 0 (Cosmos.get_block_timestamp crates cosmos 60))
