-- ===== src/Adapter/Evm/Answers.antt =====
-- Which answers of the EVM client the adapter's results come from, errors included.
use ibc_attestor.Common.{
  ℕ, ◌-◌, ◌≡◌, ◌⊎◌, inl, inr, refl, true, false, String, Option, none, some, List, Result, ok, err,
  Bytes, is_zero, map_err, map_ok, ok_or, and_then, Bool-cases,
}
use ibc_attestor.Adapter.{CommitmentType}
use ibc_attestor.Adapter.Evm.{
  EvmAdapter, finality_block, finalized_height, commitment_of,
  get_last_height_at_configured_finality, get_block_timestamp, get_commitment,
}
use ibc_attestor.Adapter.Retry.{with_retry_backoff}
use ibc_attestor.Adapter.Retry.Attempts.{AdapterResult}
use ibc_attestor.Adapter.Retry.Policy.{retried-answer}
use ibc_attestor.Crates.{Crates, RetryLaws}
use ibc_attestor.Error.{AttestationAdapterError, retrieval_error}
use ibc_attestor.Future.{ask, fmap, ready, return, ◌>>=◌}
use ibc_attestor.Future.Runs.{Happening, answered, Run, Occurs}
use ibc_attestor.World.{
  Block, BlockId, latest, finalized, number, evm_get_block, evm_get_commitment,
}

-- A result that is read off a block: off one that the client returned; else it is the client's
-- error, or `BlockNotFinalized` where the client returned that there is no block.
abbrev pub ReadsBlock :
    {A : Type 0} → String → BlockId → (Block → A) → List Happening → AdapterResult A → Type 0
ReadsBlock url id g h (ok a) =
    (block : Block) × Occurs (answered (evm_get_block url id) (ok (some block))) h × (a ≡ g block)
ReadsBlock url id g h (err e) =
    ((reason : String) × Occurs (answered (evm_get_block url id) (err reason)) h
      × (e ≡ retrieval_error reason))
    ⊎ (Occurs (answered (evm_get_block url id) (ok none)) h
        × (e ≡ AttestationAdapterError.block_not_finalized))

-- A result that is a height: with no offset, the number of the finalized block that the client
-- returned; with an offset, that of the latest one less the offset, and 0 where the chain is shorter
-- than it.
abbrev pub ReadsHeight : String → Option ℕ → List Happening → AdapterResult ℕ → Type 0
ReadsHeight url none h r = ReadsBlock url finalized (λ block. block.number) h r
ReadsHeight url (some offset) h r = ReadsBlock url latest (λ block. block.number - offset) h r

-- What was answered in some happenings was in others that have them all.
pub ReadsHeight-mono :
    (url : String) (offset : Option ℕ) (height : ℕ) (k h : List Happening)
    → ((e : Happening) → Occurs e k → Occurs e h)
    → ReadsHeight url offset k (ok height)
    → ReadsHeight url offset h (ok height)
ReadsHeight-mono url none height k h f (block, occurs, e) = (block, f _ occurs, e)
ReadsHeight-mono url (some offset) height k h f (block, occurs, e) = (block, f _ occurs, e)

-- The block that the code asks for, and the height that it makes of it.
finality_block-ReadsHeight :
    (url : String) (offset : Option ℕ) (h : List Happening) (r : AdapterResult ℕ)
    → ReadsBlock url (finality_block offset) (finalized_height offset) h r
    → ReadsHeight url offset h r
finality_block-ReadsHeight url none h r read = read
finality_block-ReadsHeight url (some offset) h r read = read

-- A result that is a commitment: the bytes that the contract answered, which are not zero; none, for
-- zero bytes; or the client's error.
abbrev pub ReadsCommitment :
    String → Bytes → Bytes → ℕ → List Happening → AdapterResult (Option Bytes) → Type 0
ReadsCommitment url router hashed_path height h (ok (some b)) =
    Occurs (answered (evm_get_commitment url router hashed_path (number height)) (ok b)) h
    × (is_zero b ≡ false)
ReadsCommitment url router hashed_path height h (ok none) =
    (b : Bytes) × Occurs
      (answered (evm_get_commitment url router hashed_path (number height)) (ok b)) h
    × (is_zero b ≡ true)
ReadsCommitment url router hashed_path height h (err e) =
    (reason : String) × Occurs
      (answered (evm_get_commitment url router hashed_path (number height)) (err reason)) h
    × (e ≡ retrieval_error reason)

-- What was answered in some happenings was in others that have them all.
pub ReadsCommitment-mono :
    (url : String) (router hashed_path : Bytes) (height : ℕ) (r : AdapterResult (Option Bytes))
    (k h : List Happening)
    → ((e : Happening) → Occurs e k → Occurs e h)
    → ReadsCommitment url router hashed_path height k r
    → ReadsCommitment url router hashed_path height h r
ReadsCommitment-mono url router hashed_path height (ok (some b)) k h f (occurs, other) =
    (f _ occurs, other)
ReadsCommitment-mono url router hashed_path height (ok none) k h f (b, occurs, zero) =
    (b, f _ occurs, zero)
ReadsCommitment-mono url router hashed_path height (err e) k h f (reason, occurs, p) =
    (reason, f _ occurs, p)

-- What is made of the client's answer.
block_value : {A : Type 0} → (Block → A) → Option Block → AdapterResult A
block_value g o = map_ok g (ok_or AttestationAdapterError.block_not_finalized o)

block_value-returned :
    {A : Type 0} (g : Block → A) (o : Option Block) (k : List Happening) (v : AdapterResult A)
    → Run
        (ready (ok_or AttestationAdapterError.block_not_finalized o) >>= λ block. return (g block))
        k
        v
    → block_value g o ≡ v
unfolding block_value
block_value-returned g none k v (e, p) = p
block_value-returned g (some block) k v (e, p) = p

block_value-ReadsBlock :
    {A : Type 0} (url : String) (id : BlockId) (g : Block → A) (h : List Happening)
    (x : Result String (Option Block))
    → Occurs (answered (evm_get_block url id) x) h
    → ReadsBlock url id g h (and_then (map_err retrieval_error x) (block_value g))
unfolding block_value
block_value-ReadsBlock url id g h (ok (some block)) occurs = (block, occurs, refl)
block_value-ReadsBlock url id g h (ok none) occurs = inr (occurs, refl)
block_value-ReadsBlock url id g h (err reason) occurs = inl (reason, occurs, refl)

commitment_of-ReadsCommitment :
    (url : String) (router hashed_path : Bytes) (height : ℕ) (h : List Happening)
    (x : Result String Bytes)
    → Occurs (answered (evm_get_commitment url router hashed_path (number height)) x) h
    → ReadsCommitment url router hashed_path height h
        (and_then (map_err retrieval_error x) (λ v. ok (commitment_of v)))
commitment_of-ReadsCommitment url router hashed_path height h (ok b) occurs =
    elim (Bool-cases (is_zero b)) [
      | inl zero ↦ rw zero (b, occurs, zero)
      | inr other ↦ rw other (occurs, other)
    ]
commitment_of-ReadsCommitment url router hashed_path height h (err reason) occurs =
    (reason, occurs, refl)

module _ (c : Crates) (laws : RetryLaws c) (self : EvmAdapter) (h : List Happening) where
  -- A retried question for a block, and what is read off it.
  block_read :
      {A : Type 0} (operation : String) (id : BlockId) (g : Block → A) (r : AdapterResult A)
      → Run
          (with_retry_backoff c operation
              (fmap (map_err retrieval_error) (ask (evm_get_block self.config.url id)))
            >>= λ o. ready (ok_or AttestationAdapterError.block_not_finalized o) >>= λ block.
                return (g block))
          h
          r
      → ReadsBlock self.config.url id g h r
  block_read operation id g r run =
      let (x, occurs, e) =
        retried-answer c laws operation (evm_get_block self.config.url id) (map_err retrieval_error)
          (λ o. ready (ok_or AttestationAdapterError.block_not_finalized o) >>= λ block.
            return (g block))
          (block_value g) (block_value-returned g) h r run in
      rw e at (block_value-ReadsBlock self.config.url id g h x occurs)

  -- The height that the adapter calls finalized is read off a block that the client returned: of
  -- the latest block, less the offset and at least 0, where an offset is configured, and else of
  -- the finalized block. Otherwise the result is the client's error, or `BlockNotFinalized` where the
  -- client returned that there is no such block.
  pub evm_get_last_height-answered :
      (r : AdapterResult ℕ)
      → Run (get_last_height_at_configured_finality c self) h r
      → ReadsHeight self.config.url self.config.finality_offset h r
  unfolding get_last_height_at_configured_finality
  evm_get_last_height-answered r run =
      let offset = self.config.finality_offset in
      finality_block-ReadsHeight self.config.url offset h r (
        block_read "evm.get_last_height.get_block" (finality_block offset) (finalized_height offset)
          r run)

  -- The timestamp is that of the block which the client returned for the height. Otherwise the
  -- result is the client's error, or `BlockNotFinalized` where the client returned that there is no
  -- such block.
  pub evm_get_block_timestamp-answered :
      (height : ℕ) (r : AdapterResult ℕ)
      → Run (get_block_timestamp c self height) h r
      → ReadsBlock self.config.url (number height) (λ block. block.timestamp) h r
  unfolding get_block_timestamp
  evm_get_block_timestamp-answered height r run =
      block_read "evm.get_block_timestamp.get_block" (number height) (λ block. block.timestamp) r
        run

  -- A commitment is what the router contract answered for the hashed path at the requested height,
  -- and is not zero. There is none only if the answer was zero bytes, and an error is the client's.
  pub evm_get_commitment-answered :
      (client_id : String) (height sequence : ℕ) (path : Bytes) (kind : CommitmentType)
      (r : AdapterResult (Option Bytes))
      → Run (get_commitment c self client_id height sequence path kind) h r
      → ReadsCommitment self.config.url self.config.router_address (c.keccak256 path) height h r
  unfolding get_commitment
  evm_get_commitment-answered client_id height sequence path kind r run =
      let url = self.config.url in
      let router = self.config.router_address in
      let (x, occurs, e) =
        retried-answer c laws "evm.get_commitment.get_commitment"
          (evm_get_commitment url router (c.keccak256 path) (number height))
          (map_err retrieval_error) (λ v. return (commitment_of v)) (λ v. ok (commitment_of v))
          (λ v k o (i, p). p) h r run in
      rw e at (commitment_of-ReadsCommitment url router (c.keccak256 path) height h x occurs)
