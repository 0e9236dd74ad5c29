-- ===== src/Adapter/Retry.antt =====
-- apps/ibc-attestor/src/adapter/retry.rs: an adapter's request, repeated while it fails with a
-- `RetrievalError`.
pub mod Attempts
pub mod Policy
pub mod Emitted
use ibc_attestor.Common.{
  ℕ, suc, ◌+◌, ◌-◌, ◌%◌, Bool, true, false, String, Result, ok, err, leb, if◌then◌else◌,
}
use ibc_attestor.Crates.{Crates}
use ibc_attestor.Error.{AttestationAdapterError, retrieval_error}
use ibc_attestor.Future.{Future, ready, emits, bind, fmap}
use ibc_attestor.World.{retry_failure}

abbrev pub max_attempts : ℕ
max_attempts = 3

-- Milliseconds; the source gives the second one as a duration of 2 s.
abbrev pub initial_backoff : ℕ
initial_backoff = 200

abbrev pub max_backoff : ℕ
max_backoff = 2000

-- The condition of the retries.
abbrev pub is_retrieval_error : AttestationAdapterError → Bool
is_retrieval_error (retrieval_error s) = true
is_retrieval_error _ = false

-- The closure: `fetch_add` on an `AtomicU8`, and the request.
abbrev pub attempt :
    {A : Type 0}
    → Future (Result AttestationAdapterError A)
    → ℕ
    → Future (ℕ × Result AttestationAdapterError A)
attempt request attempts = fmap (λ r. ((attempts + 1) % 256, r)) request

-- What follows the last attempt.
abbrev pub finish :
    {A : Type 0}
    → String
    → ℕ × Result AttestationAdapterError A
    → Future (Result AttestationAdapterError A)
finish operation (attempts, ok a) = ready (ok a)
finish operation (attempts, err e) =
    if leb max_attempts attempts
    then emits (retry_failure operation) (ready (err e))
    else ready (err e)

module _ (c : Crates) where
  unfoldable pub with_retry_backoff :
      {A : Type 0}
      → String
      → Future (Result AttestationAdapterError A)
      → Future (Result AttestationAdapterError A)
  with_retry_backoff operation request =
      bind
        (c.retry_if (c.exponential_backoff initial_backoff 2 max_backoff (max_attempts - 1))
          (attempt request) is_retrieval_error 0)
        (finish operation)
