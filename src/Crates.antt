-- ===== src/Crates.antt =====
-- The third-party crates that the service calls, as a parameter of the model: `Crates` holds the
-- functions, and the records after it hold what the code relies on, each as the crate documents it.
-- Shapes of foreign types that the source builds or takes apart are records here.
use ibc_attestor.Common.{
  ℕ, ◌^◌, ◌*◌, ◌≡◌, Bool, String, Option, some, List, [], ◌∷◌, Result, ok, err, Bytes, min, All,
  All₂, if◌then◌else◌, length,
}
use ibc_attestor.Common.Int.{ℤ}
use ibc_attestor.Error.{Code}
use ibc_attestor.Future.{Future, ready, awaits, bind}
use ibc_attestor.Future.Among.{RunsAmong}
use ibc_attestor.Future.Emitted.{Emits}
use ibc_attestor.Future.Runs.{Happening, Run, Returns}
use ibc_attestor.World.{Metric, sleep}

-- `IICS26RouterMsgs::Payload` and `IICS26RouterMsgs::Packet` of ibc_eureka_solidity_types.
pub record Payload : Type 0 where
  pub source_port : String
  pub dest_port : String
  pub version : String
  pub encoding : String
  pub value : Bytes

pub record Packet : Type 0 where
  pub sequence : ℕ
  pub source_client : String
  pub dest_client : String
  pub timeout_timestamp : ℕ
  pub payloads : List Payload

-- `IAttestationMsgs` of the same crate.
pub record StateAttestation : Type 0 where
  pub height : ℕ
  pub timestamp : ℕ

pub record PacketCompact : Type 0 where
  pub path : Bytes
  pub commitment : Bytes

pub record PacketAttestation : Type 0 where
  pub height : ℕ
  pub packets : List PacketCompact

pub record Crates : Type 1 where
  -- sha2 and alloy_primitives
  pub sha256 : Bytes → Bytes
  pub keccak256 : Bytes → Bytes
  pub hex_encode : Bytes → String
  -- ibc_eureka_solidity_types: the packet's paths and commitment, and the ABI encodings; the error
  -- of a decoding is its text
  pub commitment_path : Packet → Bytes
  pub ack_commitment_path : Packet → Bytes
  pub receipt_commitment_path : Packet → Bytes
  pub packet_commitment : Packet → Bytes
  pub abi_decode : Bytes → Result String Packet
  pub abi_encode_state : StateAttestation → Bytes
  pub abi_encode_packets : PacketAttestation → Bytes
  -- prost: the text of an `UnknownEnumValue`
  pub unknown_enum_value_text : ℤ → String
  -- tonic: the name of a code in `{:?}`, as bytes
  pub code_debug : Code → List ℕ
  -- solana_ibc_types and solana_sdk: derived account and bump, from client, sequence and program
  pub packet_commitment_pda : String → ℕ → Bytes → Bytes × ℕ
  pub packet_ack_pda : String → ℕ → Bytes → Bytes × ℕ
  pub packet_receipt_pda : String → ℕ → Bytes → Bytes × ℕ
  pub pubkey_from_str : String → Result String Bytes
  -- tendermint: `Height::try_from` of a u64, and `HttpClient::new`, whose client is its URL here
  pub height_try_from : ℕ → Option ℕ
  pub http_client_new : String → Result String String
  -- alloy: 65-byte signatures, local keys and the recovery of an address
  pub Signature : Type 0
  pub as_bytes : Signature → Bytes
  pub signature_try_from : Bytes → Result String Signature
  pub PrivateKeySigner : Type 0
  pub address : PrivateKeySigner → Bytes
  pub sign_hash_sync : PrivateKeySigner → Bytes → Result String Signature
  pub recover_address_from_prehash : Signature → Bytes → Result String Bytes
  -- a key made of the randomness, a key's bytes, and the keystore of a key's bytes under a password,
  -- made with more randomness, with its id; what is decrypted is the contents at a path, if any
  pub random_key : ℕ → PrivateKeySigner
  pub credential_bytes : PrivateKeySigner → Bytes
  pub encrypt_keystore : ℕ → Bytes → String → Bytes × String
  pub decrypt_keystore : Option Bytes → String → Result String PrivateKeySigner
  -- tonic: an endpoint from a URL, and a header value from a text
  pub endpoint_from_shared : String → Result String String
  pub metadata_value : String → Result String String
  -- tokio_retry: the delays in milliseconds of
  -- `ExponentialBackoff::from_millis(base).factor(factor).max_delay(most).take(count)`, and
  -- `RetryIf::spawn` on delays, an action, a condition and the state that the action changes
  pub exponential_backoff : ℕ → ℕ → ℕ → ℕ → List ℕ
  pub retry_if :
      {S E A : Type 0}
      → List ℕ
      → (S → Future (S × Result E A))
      → (E → Bool)
      → S
      → Future (S × Result E A)
  -- futures: `FuturesOrdered` collected into a vector
  pub collect_ordered : {A : Type 0} → List (Future A) → Future (List A)

-- After an attempt: `RetryIf` gives up on a value, on an error that the condition refuses, and when
-- no delay is left; else it sleeps through the next delay and goes on.
abbrev pub retry_next :
    {S E A : Type 0}
    → List ℕ
    → (E → Bool)
    → (List ℕ → S → Future (S × Result E A))
    → S × Result E A
    → Future (S × Result E A)
retry_next delays cond again (s, ok a) = ready (s, ok a)
retry_next [] cond again (s, err e) = ready (s, err e)
retry_next (d ∷ delays) cond again (s, err e) =
    if cond e then awaits (sleep d) (λ _. again delays s) else ready (s, err e)

-- What tokio_retry documents. `RetryIf` runs the action, and runs it again after each delay of the
-- strategy while it fails with an error that the condition accepts. Of the delays of an
-- `ExponentialBackoff`: "the resulting duration is calculated by taking the base to the n-th power,
-- where n denotes the number of past attempts", times the factor, and at most `max_delay`.
pub record RetryLaws (c : Crates) : Type 1 where
  pub retry_if-step :
      {S E A : Type 0} (delays : List ℕ) (action : S → Future (S × Result E A)) (cond : E → Bool)
      (s : S)
      → c.retry_if delays action cond s
        ≡ bind (action s) (retry_next delays cond (λ ds. c.retry_if ds action cond))
  pub two_delays :
      (base factor most : ℕ)
      → c.exponential_backoff base factor most 2
        ≡ min (base * factor) most ∷ min (base ^ 2 * factor) most ∷ []

-- futures documents that `FuturesOrdered` polls the futures, and yields their values in the order of
-- the futures: each is one with which its future has ended, in a run whose happenings are, in their
-- order, among those of the whole; and any values that the futures may end with may come out. It does
-- nothing else: no metric is recorded but by one of the futures.
pub record CollectLaws (c : Crates) : Type 1 where
  pub collect_ordered-RunsAmong :
      {A : Type 0} (ts : List (Future A)) (h : List Happening) (l : List A)
      → Run (c.collect_ordered ts) h l
      → All₂ (RunsAmong h) ts l
  pub Returns-collect_ordered :
      {A : Type 0} (ts : List (Future A)) (l : List A)
      → All₂ Returns ts l
      → Returns (c.collect_ordered ts) l
  pub collect_ordered-Emits :
      {A : Type 0} (p : Metric → Bool) (ts : List (Future A))
      → All (Emits p) ts
      → Emits p (c.collect_ordered ts)

-- SHA-256 digests have 32 bytes.
pub record HashLaws (c : Crates) : Type 0 where
  pub length-sha256 : (b : Bytes) → length (c.sha256 b) ≡ 32

-- A signature is 65 bytes, and a signature made by a key recovers to the key's address.
pub record SignatureLaws (c : Crates) : Type 0 where
  pub length-as_bytes : (s : c.Signature) → length (c.as_bytes s) ≡ 65
  pub signature_try_from-as_bytes : (s : c.Signature) → c.signature_try_from (c.as_bytes s) ≡ ok s
  pub recover-sign :
      (k : c.PrivateKeySigner) (hash : Bytes) (s : c.Signature)
      → c.sign_hash_sync k hash ≡ ok s
      → c.recover_address_from_prehash s hash ≡ ok (c.address k)

-- A keystore decrypts, under its password, to the key that was encrypted.
pub record KeystoreLaws (c : Crates) : Type 0 where
  pub decrypt-encrypt :
      (k : c.PrivateKeySigner) (entropy : ℕ) (password : String)
      → c.decrypt_keystore
          (some (c.encrypt_keystore entropy (c.credential_bytes k) password).0)
          password
        ≡ ok k
