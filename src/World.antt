-- ===== src/World.antt =====
-- What the service asks of the outside, and what comes back: the chain clients that the adapters
-- call (apps/ibc-attestor/src/adapter), the remote signer (proto/signer/signerservice.proto,
-- apps/ibc-attestor/src/signer/remote.rs) and the timer of the retries. The other side of a request
-- is not modelled: any answer of the request's type may come, at any time. An error is the text
-- that `to_string` gives of it.
use ibc_attestor.Common.{ℕ, String, Bool, Option, List, Result, Bytes}
use ibc_attestor.Common.Int.{ℤ}

-- `alloy::eips::BlockId`, as far as the EVM adapter builds it.
pub data BlockId : Type 0 where
  latest finalized : BlockId
  number : ℕ → BlockId

-- The header fields that the EVM adapter reads.
pub record Block : Type 0 where
  pub number : ℕ
  pub timestamp : ℕ

-- The header fields that the Cosmos adapter reads of a commit.
pub record Commit : Type 0 where
  pub height : ℕ
  pub unix_timestamp : ℤ

-- A Solana account, of which the adapter reads the bytes.
pub record Account : Type 0 where
  pub bytes : Bytes

-- Messages of proto/signer/signerservice.proto.
pub data PubKeyType : Type 0 where
  raw cosmos ethereum solana : PubKeyType

pub record Wallet : Type 0 where
  pub id : String
  pub name : String
  pub tags : List String
  pub pubkey : Bytes
  pub address_bytes : Bytes
  pub formatted_address : String

pub data SignPayload : Type 0 where
  evm_transaction : String → Bytes → SignPayload
  cosmos_transaction : Bytes → SignPayload
  raw_message : Bytes → SignPayload
  solana_transaction : String → SignPayload
  recoverable_message : Bytes → SignPayload

pub record SignRequest : Type 0 where
  pub wallet_id : String
  pub payload : Option SignPayload

pub data SignSignature : Type 0 where
  evm_signature : Bytes → Bytes → Bytes → SignSignature
  cosmos_signature : Bytes → SignSignature
  raw_signature : Bytes → SignSignature
  solana_signature : Bytes → SignSignature
  recoverable_signature : Bytes → Bytes → Bytes → SignSignature

-- A connection to the remote signer: its endpoint, and the header that its interceptor attaches.
pub record SignerClient : Type 0 where
  pub endpoint : String
  pub bearer_header : Option String

-- A call whose answer is awaited. A chain client's requests name its endpoint first.
pub data Request : Type 0 where
  evm_get_block : String → BlockId → Request
  -- endpoint, router address, hashed path, block
  evm_get_commitment : String → Bytes → Bytes → BlockId → Request
  solana_get_slot : String → Request
  solana_get_block_time : String → ℕ → Request
  solana_get_account : String → Bytes → Request
  cosmos_latest_commit : String → Request
  cosmos_commit : String → ℕ → Request
  -- endpoint, client id, sequence, height; the first also whether a proof is wanted
  cosmos_packet_commitment : String → String → ℕ → ℕ → Bool → Request
  cosmos_packet_acknowledgement : String → String → ℕ → ℕ → Request
  cosmos_packet_receipt : String → String → ℕ → ℕ → Request
  -- endpoint, and the seconds that each request over the connection may take
  signer_connect : String → ℕ → Request
  -- a TCP connection to an address, which is dropped at once
  tcp_connect : String → Request
  read_to_string : String → Request
  signer_get_wallet : SignerClient → String → PubKeyType → Request
  signer_sign : SignerClient → SignRequest → Request
  -- a pause, in milliseconds
  sleep : ℕ → Request
  -- the clock, in nanoseconds
  now : Request

abbrev pub Answer : Request → Type 0
Answer (evm_get_block url id) = Result String (Option Block)
Answer (evm_get_commitment url router path id) = Result String Bytes
Answer (solana_get_slot url) = Result String ℕ
Answer (solana_get_block_time url slot) = Result String ℤ
Answer (solana_get_account url key) = Result String (Option Account)
Answer (cosmos_latest_commit url) = Result String Commit
Answer (cosmos_commit url height) = Result String Commit
Answer (cosmos_packet_commitment url client sequence height prove) = Result String Bytes
Answer (cosmos_packet_acknowledgement url client sequence height) = Result String Bytes
Answer (cosmos_packet_receipt url client sequence height) = Result String Bool
Answer (signer_connect url seconds) = Result String (Unit {0})
Answer (tcp_connect addr) = Result String (Unit {0})
Answer (read_to_string path) = Result String String
Answer (signer_get_wallet client id kind) = Result String (Option Wallet)
Answer (signer_sign client request) = Result String (Option SignSignature)
Answer (sleep ms) = Unit {0}
Answer now = ℕ

-- The calls of apps/ibc-attestor/src/metrics.rs that record something.
pub data Metric : Type 0 where
  -- method, code, and the time taken
  rpc_request : String → List ℕ → ℕ → Metric
  height_lag : ℤ → Metric
  height_rejection : Metric
  commitment_failure : String → Metric
  retry_failure : String → Metric
  finalized_height : ℤ → Metric
  signer_sign_result : String → Metric
