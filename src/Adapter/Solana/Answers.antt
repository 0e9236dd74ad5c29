-- ===== src/Adapter/Solana/Answers.antt =====
-- Which commitments the Solana adapter reads out of an account, and which answers its results come
-- from, errors included.
use native.Mathlib.Decide.{dec_lt}
use ibc_attestor.Common.{
  ℕ, ◌<◌, ◌≡◌, ◌⊎◌, inl, inr, refl, String, ◌<>◌, Option, none, some, List, Result, ok, err, Bytes,
  arith, map_err, map_ok, ok_or, and_then, length, drop, length-drop,
}
use ibc_attestor.Common.Int.{ℤ, pos, negsuc, u64_try_from}
use ibc_attestor.Common.Text.{decimal, out_of_range}
use ibc_attestor.Adapter.{CommitmentType, packet, ack, receipt}
use ibc_attestor.Adapter.Retry.Attempts.{AdapterResult}
use ibc_attestor.Adapter.Retry.Policy.{retried-answer, with_retry_backoff-ask}
use ibc_attestor.Adapter.Solana.{
  SolanaAdapter, commitment_pda, commitment_of, parse_commitment, short_account_text,
  get_last_height_at_configured_finality, get_block_timestamp, get_commitment,
}
use ibc_attestor.Crates.{Crates, RetryLaws}
use ibc_attestor.Error.{retrieval_error, commitment_error}
use ibc_attestor.Future.{ready}
use ibc_attestor.Future.Runs.{Happening, answered, Run, Occurs}
use ibc_attestor.World.{Account, solana_get_slot, solana_get_block_time, solana_get_account}

-- The bytes of an account, the commitment in them or the error for them: 40 bytes are 8 of a
-- discriminator and then the commitment; fewer are a `RetrievalError`; more, which the length test
-- lets through, are a `CommitmentError`.
abbrev pub Parsed : Bytes → AdapterResult Bytes → Type 0
Parsed account (ok commitment) = (length account ≡ 40) × (commitment ≡ drop 8 account)
Parsed account (err e) =
    ((length account < 40) × (e ≡ retrieval_error (short_account_text (length account))))
    ⊎ ((40 < length account) × (e ≡ commitment_error "Commitment length mismatch"))

parse_commitment-of_40 :
    (account : Bytes) → length account ≡ 40 → parse_commitment account ≡ ok (drop 8 account)
unfolding parse_commitment
parse_commitment-of_40 account h = ground (arith, length-drop 8 account)

parse_commitment-of_less :
    (account : Bytes)
    → length account < 40
    → parse_commitment account ≡ err (retrieval_error (short_account_text (length account)))
unfolding parse_commitment
parse_commitment-of_less account h = ground (arith, length-drop 8 account)

parse_commitment-of_more :
    (account : Bytes)
    → 40 < length account
    → parse_commitment account ≡ err (commitment_error "Commitment length mismatch")
unfolding parse_commitment
parse_commitment-of_more account h = ground (arith, length-drop 8 account)

-- Whatever the bytes of an account, parsing them gives the commitment in them or the error for them:
-- a commitment exactly if they are 40, and then it is what follows the 8 bytes of the discriminator;
-- a `RetrievalError` that names their number if they are fewer, and a `CommitmentError` if they are
-- more.
pub parse_commitment_lem : (account : Bytes) → Parsed account (parse_commitment account)
parse_commitment_lem account = elim (dec_lt (length account) 40) [
  | yes few ↦ rw (parse_commitment-of_less account few) (inl (few, refl))
  | no many ↦ elim (dec_lt 40 (length account)) [
    | yes more ↦ rw (parse_commitment-of_more account more) (inr (more, refl))
    | no fits ↦
        let long : length account ≡ 40 = omega arith in
        rw (parse_commitment-of_40 account long) (long, refl)
  ]
]

-- A result that is a commitment in an account: in the one that the client returned for the key;
-- none, where there is no account; the client's error; or the error for the account's bytes.
abbrev pub ReadsAccount :
    String → Bytes → (String → String) → List Happening → AdapterResult (Option Bytes) → Type 0
ReadsAccount client key failed h (ok (some b)) =
    (a : Account) × Occurs (answered (solana_get_account client key) (ok (some a))) h
    × Parsed a.bytes (ok b)
ReadsAccount client key failed h (ok none) =
    Occurs (answered (solana_get_account client key) (ok none)) h
ReadsAccount client key failed h (err e) =
    ((reason : String) × Occurs (answered (solana_get_account client key) (err reason)) h
      × (e ≡ retrieval_error (failed reason)))
    ⊎ ((a : Account) × Occurs (answered (solana_get_account client key) (ok (some a))) h
        × Parsed a.bytes (err e))

-- A result that is the time of a slot: the block time that the client returned, if it is not
-- negative; or an error, of the client or for a negative time.
abbrev pub ReadsTime : String → ℕ → List Happening → AdapterResult ℕ → Type 0
ReadsTime client slot h (ok timestamp) =
    Occurs (answered (solana_get_block_time client slot) (ok (pos timestamp))) h
ReadsTime client slot h (err e) =
    ((reason : String) × Occurs (answered (solana_get_block_time client slot) (err reason)) h
      × (e ≡ retrieval_error reason))
    ⊎ ((n : ℕ) × Occurs (answered (solana_get_block_time client slot) (ok (negsuc n))) h
        × (e ≡ retrieval_error out_of_range))

-- What was answered in some happenings was in others that have them all.
pub ReadsAccount-mono :
    (client : String) (key : Bytes) (failed : String → String) (r : AdapterResult (Option Bytes))
    (k h : List Happening)
    → ((e : Happening) → Occurs e k → Occurs e h)
    → ReadsAccount client key failed k r
    → ReadsAccount client key failed h r
ReadsAccount-mono client key failed (ok (some b)) k h f (a, occurs, parsed) =
    (a, f _ occurs, parsed)
ReadsAccount-mono client key failed (ok none) k h f occurs = f _ occurs
ReadsAccount-mono client key failed (err e) k h f (inl (reason, occurs, p)) =
    inl (reason, f _ occurs, p)
ReadsAccount-mono client key failed (err e) k h f (inr (a, occurs, parsed)) =
    inr (a, f _ occurs, parsed)

account-ReadsAccount :
    (client : String) (key : Bytes) (failed : String → String) (h : List Happening) (a : Account)
    → Occurs (answered (solana_get_account client key) (ok (some a))) h
    → (v : AdapterResult Bytes) → Parsed a.bytes v
    → ReadsAccount client key failed h (map_ok some v)
account-ReadsAccount client key failed h a occurs (ok b) parsed = (a, occurs, parsed)
account-ReadsAccount client key failed h a occurs (err e) parsed = inr (a, occurs, parsed)

commitment_of-ReadsAccount :
    (client : String) (key : Bytes) (failed : String → String) (h : List Happening)
    (x : Result String (Option Account))
    → Occurs (answered (solana_get_account client key) x) h
    → ReadsAccount client key failed h
        (and_then (map_err (λ e. retrieval_error (failed e)) x) commitment_of)
commitment_of-ReadsAccount client key failed h (ok (some a)) occurs =
    account-ReadsAccount client key failed h a occurs (parse_commitment a.bytes)
      (parse_commitment_lem a.bytes)
commitment_of-ReadsAccount client key failed h (ok none) occurs = occurs
commitment_of-ReadsAccount client key failed h (err reason) occurs = inl (reason, occurs, refl)

u64_try_from-ReadsTime :
    (client : String) (slot : ℕ) (h : List Happening) (x : Result String ℤ)
    → Occurs (answered (solana_get_block_time client slot) x) h
    → ReadsTime client slot h (
        and_then
          (map_err retrieval_error x)
          (λ t. ok_or (retrieval_error out_of_range) (u64_try_from t)))
u64_try_from-ReadsTime client slot h (ok (pos t)) occurs = occurs
u64_try_from-ReadsTime client slot h (ok (negsuc n)) occurs = inr (n, occurs, refl)
u64_try_from-ReadsTime client slot h (err reason) occurs = inl (reason, occurs, refl)

-- The account that the router program has for a kind of commitment of a packet: each kind has its own.
abbrev pub account_for : Crates → CommitmentType → String → ℕ → Bytes → Bytes
account_for c packet client_id sequence program =
    (c.packet_commitment_pda client_id sequence program).0
account_for c ack client_id sequence program = (c.packet_ack_pda client_id sequence program).0
account_for c receipt client_id sequence program =
    (c.packet_receipt_pda client_id sequence program).0

commitment_pda-account_for :
    (c : Crates) (kind : CommitmentType) (client_id : String) (sequence : ℕ) (program : Bytes)
    → (commitment_pda c kind client_id sequence program).0
      ≡ account_for c kind client_id sequence program
commitment_pda-account_for c packet client_id sequence program = refl
commitment_pda-account_for c ack client_id sequence program = refl
commitment_pda-account_for c receipt client_id sequence program = refl

-- The text of a failed call for an account.
abbrev pub failed_text : String → ℕ → ℕ → String → String
unfolding decimal
failed_text client_id sequence slot e =
    "Failed to get commitment account for client_id="
    <> (client_id
        <> (", sequence=" <> (decimal sequence <> (", slot=" <> (decimal slot <> (": " <> e))))))

module _ (c : Crates) (laws : RetryLaws c) (self : SolanaAdapter) (h : List Happening) where
  -- A commitment is read out of the account that the client returned at its latest finalized slot:
  -- the commitment, acknowledgement or receipt account, by the kind, of the client id and the
  -- sequence under the router program. The requested slot, which only an error's text names, and the
  -- path do not matter. The commitment is what follows the discriminator in an account of 40 bytes.
  -- There is none only if there is no account. An error is the client's, or that for the bytes of the
  -- account.
  pub solana_get_commitment-answered :
      (client_id : String) (slot sequence : ℕ) (path : Bytes) (kind : CommitmentType)
      (r : AdapterResult (Option Bytes))
      → Run (get_commitment c self client_id slot sequence path kind) h r
      → ReadsAccount self.client
          (account_for c kind client_id sequence self.router_program_id)
          (failed_text client_id sequence slot)
          h
          r
  unfolding get_commitment
  solana_get_commitment-answered client_id slot sequence path kind r run =
      let key = (commitment_pda c kind client_id sequence self.router_program_id).0 in
      let failed = failed_text client_id sequence slot in
      let (x, occurs, e) =
        retried-answer c laws "solana.get_commitment.get_account_with_commitment"
          (solana_get_account self.client key) (map_err λ e. retrieval_error (failed e))
          (λ account. ready (commitment_of account)) commitment_of (λ a k v (i, p). p) h r run in
      let read = rw e at (commitment_of-ReadsAccount self.client key failed h x occurs) in
      let same = commitment_pda-account_for c kind client_id sequence self.router_program_id in
      rw same at read

  -- The height is the slot that the client returned as its latest finalized one, and an error is
  -- the client's.
  pub solana_get_last_height-answered :
      (r : AdapterResult ℕ)
      → Run (get_last_height_at_configured_finality c self) h r
      → (x : Result String ℕ) × Occurs (answered (solana_get_slot self.client) x) h
        × (map_err retrieval_error x ≡ r)
  unfolding get_last_height_at_configured_finality
  solana_get_last_height-answered r run =
      with_retry_backoff-ask c laws "solana.get_last_height.get_slot_with_commitment"
        (solana_get_slot self.client) (map_err retrieval_error) h r run

  -- The timestamp is the block time that the client returned for the slot, which is not negative. An
  -- error is the client's, or a `RetrievalError` for a negative time.
  pub solana_get_block_timestamp-answered :
      (slot : ℕ) (r : AdapterResult ℕ)
      → Run (get_block_timestamp c self slot) h r
      → ReadsTime self.client slot h r
  unfolding get_block_timestamp
  solana_get_block_timestamp-answered slot r run =
      let (x, occurs, e) =
        retried-answer c laws "solana.get_block_timestamp.get_block_time"
          (solana_get_block_time self.client slot) (map_err retrieval_error)
          (λ t. ready (ok_or (retrieval_error out_of_range) (u64_try_from t)))
          (λ t. ok_or (retrieval_error out_of_range) (u64_try_from t)) (λ t k v (i, p). p) h r
          run in
      rw e at (u64_try_from-ReadsTime self.client slot h x occurs)
