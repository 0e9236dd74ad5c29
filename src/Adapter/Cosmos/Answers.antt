-- ===== src/Adapter/Cosmos/Answers.antt =====
-- Which answers of the Cosmos client the adapter's results come from, errors included.
use native.Mathlib.Decide.{ℕ_discrete}
use ibc_attestor.Common.{
  ℕ, ◌≡◌, ◌≢◌, ◌⊎◌, inl, inr, refl, sym, ◌∙◌, ◌++◌, String, ◌<>◌, Option, none, some, List, Result,
  ok, err, Bool, true, false, Bytes, arith, map_err, map_ok, ok_or, and_then, length, [], ◌∷◌,
  array32,
}
use ibc_attestor.Adapter.{CommitmentType, packet, ack, receipt}
use ibc_attestor.Adapter.Retry.Attempts.{AdapterResult}
use ibc_attestor.Adapter.Retry.Policy.{retried-answer}
use ibc_attestor.Adapter.Cosmos.{
  CosmosAdapter, commitment_of, non_empty, receipt_of, fetch_commitment,
  get_last_height_at_configured_finality, get_commitment, get_block_timestamp,
}
use ibc_attestor.Crates.{Crates, RetryLaws}
use ibc_attestor.Common.Int.{ℤ, pos, negsuc, u64_try_from}
use ibc_attestor.Common.Text.{decimal, out_of_range}
use ibc_attestor.Adapter.Retry.{with_retry_backoff}
use ibc_attestor.Future.{Future, ask, fmap, ◌>>=◌, ready, return}
use ibc_attestor.Future.Steps.{>>=-ready}
use ibc_attestor.World.{
  Request, Answer, cosmos_commit, Commit, cosmos_latest_commit, cosmos_packet_commitment,
  cosmos_packet_acknowledgement, cosmos_packet_receipt,
}
use ibc_attestor.Error.{invalid_height, retrieval_error, commitment_error}
use ibc_attestor.Future.Runs.{Happening, answered, Run, Occurs, Occurs-append}

-- A result that is a commitment in the bytes that came for a question: 32 bytes; none, for no bytes;
-- the client's error; or the error for any other number of bytes.
abbrev pub ReadsBytes :
    (q : Request)
    → (Result String Bytes → Answer q)
    → List Happening
    → AdapterResult (Option Bytes)
    → Type 0
ReadsBytes q a h (ok (some b)) = Occurs (answered q (a (ok b))) h × (length b ≡ 32)
ReadsBytes q a h (ok none) = Occurs (answered q (a (ok []))) h
ReadsBytes q a h (err e) =
    ((reason : String) × Occurs (answered q (a (err reason))) h × (e ≡ retrieval_error reason))
    ⊎ ((b : Bytes) × Occurs (answered q (a (ok b))) h
        × (b ≢ [])
        × (length b ≢ 32)
        × (e ≡ commitment_error "Commitment length mismatch"))

-- The text for a packet that was received.
abbrev pub received_text : ℕ → String
unfolding decimal
received_text sequence =
    "Packet seq=" <> (decimal sequence <> " was already received, cannot timeout")

-- A result for a receipt is that there is none, if the packet was not received; or an error, of the
-- client or for a packet that was.
abbrev pub ReadsReceipt :
    String → String → ℕ → ℕ → List Happening → AdapterResult (Option Bytes) → Type 0
ReadsReceipt client client_id sequence height h (ok (some b)) = ⊥
ReadsReceipt client client_id sequence height h (ok none) =
    Occurs (answered (cosmos_packet_receipt client client_id sequence height) (ok false)) h
ReadsReceipt client client_id sequence height h (err e) =
    ((reason : String) × Occurs
        (answered (cosmos_packet_receipt client client_id sequence height) (err reason)) h
      × (e ≡ retrieval_error reason))
    ⊎ (Occurs (answered (cosmos_packet_receipt client client_id sequence height) (ok true)) h
        × (e ≡ commitment_error (received_text sequence)))

-- The result for each kind of commitment.
abbrev pub Answered :
    CosmosAdapter
    → CommitmentType
    → String
    → ℕ
    → ℕ
    → AdapterResult (Option Bytes)
    → List Happening
    → Type 0
Answered self packet client_id height sequence r h =
    ReadsBytes (cosmos_packet_commitment self.client client_id sequence height false) (λ x. x) h r
Answered self ack client_id height sequence r h =
    ReadsBytes (cosmos_packet_acknowledgement self.client client_id sequence height) (λ x. x) h r
Answered self receipt client_id height sequence r h =
    ReadsReceipt self.client client_id sequence height h r

-- A result that is the time of a commit: the one that the client returned, if it is not negative;
-- or an error, of the client or for a negative time.
abbrev pub ReadsCommit : String → ℕ → List Happening → AdapterResult ℕ → Type 0
ReadsCommit client accepted h (ok timestamp) =
    (block : Commit) × Occurs (answered (cosmos_commit client accepted) (ok block)) h
    × (block.unix_timestamp ≡ pos timestamp)
ReadsCommit client accepted h (err e) =
    ((reason : String) × Occurs (answered (cosmos_commit client accepted) (err reason)) h
      × (e ≡ retrieval_error reason))
    ⊎ ((block : Commit) × (n : ℕ) × Occurs (answered (cosmos_commit client accepted) (ok block)) h
        × (block.unix_timestamp ≡ negsuc n)
        × (e ≡ retrieval_error out_of_range))

-- The last step of `get_commitment`, on the bytes that were fetched.
array32-of_32 : (b : Bytes) → length b ≡ 32 → array32 b ≡ some b
array32-of_32 b h = ground arith

array32-of_other : (b : Bytes) → length b ≢ 32 → array32 b ≡ none
array32-of_other b h = ground arith

fetched-ReadsBytes :
    (q : Request) (a : Result String Bytes → Answer q) (h : List Happening) (b : Bytes)
    → Occurs (answered q (a (ok b))) h
    → ReadsBytes q a h (commitment_of (non_empty b))
fetched-ReadsBytes q a h [] occurs = occurs
fetched-ReadsBytes q a h (x ∷ b) occurs = elim (ℕ_discrete (length (x ∷ b)) 32) [
  | yes long ↦ rw (array32-of_32 (x ∷ b) long) (occurs, long)
  | no other ↦ rw (array32-of_other (x ∷ b) other) (inr (x ∷ b, occurs, (λ p. cc), other, refl))
]

fetched-ReadsReceipt :
    (client client_id : String) (sequence height : ℕ) (h : List Happening) (received : Bool)
    → Occurs (answered (cosmos_packet_receipt client client_id sequence height) (ok received)) h
    → ReadsReceipt client client_id sequence height h
        (and_then (receipt_of sequence received) commitment_of)
unfolding receipt_of
fetched-ReadsReceipt client client_id sequence height h true occurs = inr (occurs, refl)
fetched-ReadsReceipt client client_id sequence height h false occurs = occurs

answer-ReadsBytes :
    (q : Request) (a : Result String Bytes → Answer q) (h : List Happening)
    (x : Result String Bytes)
    → Occurs (answered q (a x)) h
    → ReadsBytes q a h
        (and_then (and_then (map_err retrieval_error x) (λ b. ok (non_empty b))) commitment_of)
answer-ReadsBytes q a h (ok b) occurs = fetched-ReadsBytes q a h b occurs
answer-ReadsBytes q a h (err reason) occurs = inl (reason, occurs, refl)

answer-ReadsReceipt :
    (client client_id : String) (sequence height : ℕ) (h : List Happening) (x : Result String Bool)
    → Occurs (answered (cosmos_packet_receipt client client_id sequence height) x) h
    → ReadsReceipt client client_id sequence height h
        (and_then (and_then (map_err retrieval_error x) (receipt_of sequence)) commitment_of)
answer-ReadsReceipt client client_id sequence height h (ok received) occurs =
    fetched-ReadsReceipt client client_id sequence height h received occurs
answer-ReadsReceipt client client_id sequence height h (err reason) occurs =
    inl (reason, occurs, refl)

commit-ReadsCommit :
    (client : String) (accepted : ℕ) (h : List Happening) (block : Commit) (t : ℤ)
    → block.unix_timestamp ≡ t
    → Occurs (answered (cosmos_commit client accepted) (ok block)) h
    → ReadsCommit client accepted h (ok_or (retrieval_error out_of_range) (u64_try_from t))
commit-ReadsCommit client accepted h block (pos t) at_time occurs = (block, occurs, at_time)
commit-ReadsCommit client accepted h block (negsuc n) at_time occurs =
    inr (block, n, occurs, at_time, refl)

time-ReadsCommit :
    (client : String) (accepted : ℕ) (h : List Happening) (x : Result String Commit)
    → Occurs (answered (cosmos_commit client accepted) x) h
    → ReadsCommit client accepted h (
        and_then
          (map_err retrieval_error x)
          (λ block. ok_or (retrieval_error out_of_range) (u64_try_from block.unix_timestamp)))
time-ReadsCommit client accepted h (ok block) occurs =
    commit-ReadsCommit client accepted h block block.unix_timestamp refl occurs
time-ReadsCommit client accepted h (err reason) occurs = inl (reason, occurs, refl)

height_of :
    (x : Result String Commit)
    → map_ok (λ block. block.height) (map_err retrieval_error x)
      ≡ and_then (map_err retrieval_error x) (λ block. ok block.height)
height_of (ok block) = refl
height_of (err reason) = refl

Option-cases : {A : Type 0} (o : Option A) → (o ≡ none) ⊎ ((a : A) × (o ≡ some a))
Option-cases none = inl refl
Option-cases (some a) = inr (a, refl)

-- What was answered in some happenings was in others that have them all.
ReadsBytes-mono :
    (q : Request) (a : Result String Bytes → Answer q) (k h : List Happening)
    (r : AdapterResult (Option Bytes))
    → ((e : Happening) → Occurs e k → Occurs e h)
    → ReadsBytes q a k r
    → ReadsBytes q a h r
ReadsBytes-mono q a k h (ok (some b)) f (occurs, long) = (f _ occurs, long)
ReadsBytes-mono q a k h (ok none) f occurs = f _ occurs
ReadsBytes-mono q a k h (err e) f (inl (reason, occurs, p)) = inl (reason, f _ occurs, p)
ReadsBytes-mono q a k h (err e) f (inr (b, occurs, some_bytes, other, p)) =
    inr (b, f _ occurs, some_bytes, other, p)

pub Answered-mono :
    (self : CosmosAdapter) (kind : CommitmentType) (client_id : String) (height sequence : ℕ)
    (r : AdapterResult (Option Bytes)) (k h : List Happening)
    → ((e : Happening) → Occurs e k → Occurs e h)
    → Answered self kind client_id height sequence r k
    → Answered self kind client_id height sequence r h
Answered-mono self packet client_id height sequence r k h f a =
    ReadsBytes-mono (cosmos_packet_commitment self.client client_id sequence height false) (λ x. x)
      k h r f a
Answered-mono self ack client_id height sequence r k h f a =
    ReadsBytes-mono (cosmos_packet_acknowledgement self.client client_id sequence height) (λ x. x) k
      h r f a
Answered-mono self receipt client_id height sequence (ok (some b)) k h f a = absurd a
Answered-mono self receipt client_id height sequence (ok none) k h f occurs =
    f (answered (cosmos_packet_receipt self.client client_id sequence height) (ok false)) occurs
Answered-mono self receipt client_id height sequence (err e) k h f (inl (reason, occurs, p)) =
    inl (reason, f _ occurs, p)
Answered-mono self receipt client_id height sequence (err e) k h f (inr (occurs, p)) =
    inr (f _ occurs, p)

module _ (c : Crates) (laws : RetryLaws c) (self : CosmosAdapter) (h : List Happening) where
  -- The question for a kind of commitment, and the last step on what it fetched.
  fetch_commitment-Answered :
      (kind : CommitmentType) (client_id : String) (height sequence : ℕ)
      (v : AdapterResult (Option Bytes))
      → Run (fetch_commitment c self kind client_id height sequence) h v
      → Answered self kind client_id height sequence (and_then v commitment_of) h
  unfolding fetch_commitment
  fetch_commitment-Answered packet client_id height sequence v run =
      let q = cosmos_packet_commitment self.client client_id sequence height false in
      let (x, occurs, e) =
        retried-answer c laws "cosmos.get_packet_commitment.v2_packet_commitment" q
          (map_err retrieval_error) (λ b. return (non_empty b)) (λ b. ok (non_empty b))
          (λ b k o (i, p). p) h v run in
      rw e at (answer-ReadsBytes q (λ x. x) h x occurs)
  fetch_commitment-Answered ack client_id height sequence v run =
      let q = cosmos_packet_acknowledgement self.client client_id sequence height in
      let (x, occurs, e) =
        retried-answer c laws "cosmos.get_ack_commitment.v2_packet_acknowledgement" q
          (map_err retrieval_error) (λ b. return (non_empty b)) (λ b. ok (non_empty b))
          (λ b k o (i, p). p) h v run in
      rw e at (answer-ReadsBytes q (λ x. x) h x occurs)
  fetch_commitment-Answered receipt client_id height sequence v run =
      let (x, occurs, e) =
        retried-answer c laws "cosmos.get_receipt_commitment.v2_packet_receipt"
          (cosmos_packet_receipt self.client client_id sequence height) (map_err retrieval_error)
          (λ b. ready (receipt_of sequence b)) (receipt_of sequence) (λ b k o (i, p). p) h v run in
      rw e at (answer-ReadsReceipt self.client client_id sequence height h x occurs)

  -- What follows the conversion of the height.
  abbrev timed : ℕ → Future (AdapterResult ℕ)
  timed accepted =
      with_retry_backoff c "cosmos.get_block_timestamp.commit"
        (fmap (map_err retrieval_error) (ask (cosmos_commit self.client accepted)))
      >>= λ block. ready (ok_or (retrieval_error out_of_range) (u64_try_from block.unix_timestamp))

  timed-ReadsCommit :
      (accepted : ℕ) (r : AdapterResult ℕ)
      → Run (timed accepted) h r
      → ReadsCommit self.client accepted h r
  timed-ReadsCommit accepted r run =
      let time : Commit → AdapterResult ℕ =
        λ block. ok_or (retrieval_error out_of_range) (u64_try_from block.unix_timestamp) in
      let (x, occurs, e) =
        retried-answer c laws "cosmos.get_block_timestamp.commit"
          (cosmos_commit self.client accepted) (map_err retrieval_error)
          (λ block. ready (time block)) time (λ block k v (i, p). p) h r run in
      rw e at (time-ReadsCommit self.client accepted h x occurs)

  -- The height is that of the latest commit which the client returned, and an error is the client's.
  pub cosmos_get_last_height-answered :
      (r : AdapterResult ℕ)
      → Run (get_last_height_at_configured_finality c self) h r
      → (x : Result String Commit) × Occurs (answered (cosmos_latest_commit self.client) x) h
        × (map_ok (λ block. block.height) (map_err retrieval_error x) ≡ r)
  unfolding get_last_height_at_configured_finality
  cosmos_get_last_height-answered r run =
      let (x, occurs, e) =
        retried-answer c laws "cosmos.get_last_height.latest_commit"
          (cosmos_latest_commit self.client) (map_err retrieval_error)
          (λ block. return block.height) (λ block. ok block.height) (λ block k v (i, p). p) h r
          run in
      (x, occurs, height_of x ∙ e)

  -- The timestamp is that of the commit which the client returned for the height, as the client
  -- accepts it, and is not negative. An error is `InvalidHeight` exactly for a height that the client does not accept, and else the client's, or a
  -- `RetrievalError` for a negative time.
  pub cosmos_get_block_timestamp-answered :
      (height : ℕ) (r : AdapterResult ℕ)
      → Run (get_block_timestamp c self height) h r
      → ((c.height_try_from height ≡ none) × (h ≡ []) × (r ≡ err invalid_height))
        ⊎ ((accepted : ℕ) × (c.height_try_from height ≡ some accepted)
            × ReadsCommit self.client accepted h r)
  unfolding get_block_timestamp
  cosmos_get_block_timestamp-answered height r run =
      elim (Option-cases (c.height_try_from height)) [
        | inl refused ↦ let (e, p) = rw refused at run in inl (refused, e, sym p)
        | inr (accepted, valid) ↦
            inr (accepted, valid, timed-ReadsCommit accepted r (rw valid at run))
      ]

-- A commitment of the Cosmos adapter is what the client answered for the client id, the sequence and
-- the requested height: 32 bytes, or none for an answer with no bytes. A receipt is never there: there
-- is none if the client answered that the packet was not received. An error is the client's, or one
-- for an answer of another length, or one for a receipt of a packet that was received.
pub cosmos_get_commitment-Answered :
    (c : Crates)
    → RetryLaws c
    → (self : CosmosAdapter) (h : List Happening) (client_id : String) (height sequence : ℕ)
      (path : Bytes) (kind : CommitmentType) (r : AdapterResult (Option Bytes))
    → Run (get_commitment c self client_id height sequence path kind) h r
    → Answered self kind client_id height sequence r h
unfolding get_commitment
cosmos_get_commitment-Answered c laws self h client_id height sequence path kind r run =
    let (v, first, second, fetched, joined, e) =
      >>=-ready (fetch_commitment c self kind client_id height sequence) commitment_of h r run in
    rw joined (
      Answered-mono self kind client_id height sequence r first (first ++ second)
        (λ e o. Occurs-append e first second o)
        (rw e at
          (fetch_commitment-Answered c laws self first kind client_id height sequence v fetched)))
