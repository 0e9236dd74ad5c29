-- ===== src/Tests/Outside.antt =====
-- What the outside answers in the tests.
use ibc_attestor.Common.{◌*◌, ◌==◌, if◌then◌else◌, false, [], ◌∷◌, some, ok, err, replicate, ◌++◌}
use ibc_attestor.Common.Int.{pos}
use ibc_attestor.Future.Runs.{Oracle}
use ibc_attestor.World.{
  evm_get_block, evm_get_commitment, solana_get_slot, solana_get_block_time, solana_get_account,
  cosmos_latest_commit, cosmos_commit, cosmos_packet_commitment, cosmos_packet_acknowledgement,
  cosmos_packet_receipt, signer_connect, tcp_connect, read_to_string, signer_get_wallet,
  signer_sign, sleep, now, Wallet, recoverable_signature,
}

-- The one wallet of the remote signer.
abbrev pub wallet : Wallet
wallet = record {
  id = "wallet-1";
  name = "attestor";
  tags = [];
  pubkey = 4 ∷ [];
  address_bytes = 42 ∷ [];
  formatted_address = "0x2a";
}

-- The first answer for an EVM block is a failure, which is retried. Block 100 is the finalized one.
-- The packet with the sequence 7 is committed on every chain, and none is received or acknowledged.
abbrev pub chain : Oracle
chain (evm_get_block url id) n =
    if n == 0 then err "timeout" else ok (some (record { number = 100; timestamp = 1_700_000_000 }))
chain (evm_get_commitment url router path id) n = ok (replicate 32 7)
chain (solana_get_slot url) n = ok 300
chain (solana_get_block_time url slot) n = ok (pos 1_700_000_000)
chain (solana_get_account url key) n =
    ok (some (record { bytes = replicate 8 1 ++ replicate 32 7 }))
chain (cosmos_latest_commit url) n =
    ok (record { height = 100; unix_timestamp = pos 1_700_000_000 })
chain (cosmos_commit url height) n =
    ok (record { height = height; unix_timestamp = pos 1_700_000_000 })
chain (cosmos_packet_commitment url client sequence height prove) n = ok (replicate 32 7)
chain (cosmos_packet_acknowledgement url client sequence height) n = ok []
chain (cosmos_packet_receipt url client sequence height) n = ok false
chain (signer_connect url seconds) n = ok tt
chain (tcp_connect addr) n = if n == 0 then err "refused" else ok tt
chain (read_to_string path) n = ok "token"
chain (signer_get_wallet client id kind) n = ok (some wallet)
chain (signer_sign client request) n =
    ok (some (recoverable_signature (replicate 32 42) (replicate 32 0) (27 ∷ [])))
chain (sleep ms) n = tt
chain now n = 1000 * n
