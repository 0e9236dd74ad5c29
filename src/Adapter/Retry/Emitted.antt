-- ===== src/Adapter/Retry/Emitted.antt =====
-- A repeated request counts no request to the service.
use ibc_attestor.Common.{
  ℕ, ◌+◌, ◌%◌, ◌-◌, ◌≡◌, refl, String, List, [], ◌∷◌, Result, ok, err, leb, Bool-cases, inl, inr,
}
use ibc_attestor.Adapter.Retry.{
  attempt, finish, is_retrieval_error, initial_backoff, max_backoff, max_attempts,
  with_retry_backoff,
}
use ibc_attestor.Crates.{Crates, RetryLaws, retry_next}
use ibc_attestor.Error.{AttestationAdapterError}
use ibc_attestor.Future.{Future}
use ibc_attestor.Future.Emitted.{no_request, CountsNoRequest, Emits-bind, Emits-fmap}

module _ (c : Crates) (laws : RetryLaws c) where
  retry_next-quiet :
      {A : Type 0} (request : Future (Result AttestationAdapterError A)) (delays : List ℕ)
      (v : ℕ × Result AttestationAdapterError A)
      → ((d : ℕ) (ds : List ℕ) (s : ℕ)
          → delays ≡ d ∷ ds
          → CountsNoRequest (c.retry_if ds (attempt request) is_retrieval_error s))
      → CountsNoRequest (
          retry_next delays is_retrieval_error
            (λ ds. c.retry_if ds (attempt request) is_retrieval_error)
            v)
  retry_next-quiet request delays (s, ok a) again = tt
  retry_next-quiet request [] (s, err e) again = tt
  retry_next-quiet request (d ∷ ds) (s, err e) again = elim (Bool-cases (is_retrieval_error e)) [
    | inl transient ↦ rw transient (λ x. again d ds s refl)
    | inr final ↦ rw final tt
  ]

  retried-quiet :
      {A : Type 0} (request : Future (Result AttestationAdapterError A))
      → CountsNoRequest request
      → (delays : List ℕ) (s : ℕ)
      → CountsNoRequest (c.retry_if delays (attempt request) is_retrieval_error s)
  retried-quiet request quiet [] s =
      rw (laws.retry_if-step [] (attempt request) is_retrieval_error s) (
        Emits-bind no_request (attempt request s) _
          (Emits-fmap no_request (λ r. ((s + 1) % 256, r)) request quiet)
          (λ v. retry_next-quiet request [] v (λ d ds t e. cc)))
  retried-quiet request quiet (d ∷ delays) s =
      rw (laws.retry_if-step (d ∷ delays) (attempt request) is_retrieval_error s) (
        Emits-bind no_request (attempt request s) _
          (Emits-fmap no_request (λ r. ((s + 1) % 256, r)) request quiet)
          (λ v. retry_next-quiet request (d ∷ delays) v (λ d' ds t e.
            let same : delays ≡ ds = cc in rw same at (retried-quiet request quiet delays t))))

  finish-quiet :
      {A : Type 0} (operation : String) (v : ℕ × Result AttestationAdapterError A)
      → CountsNoRequest (finish operation v)
  finish-quiet operation (n, ok a) = tt
  finish-quiet operation (n, err e) = elim (Bool-cases (leb max_attempts n)) [
    | inl spent ↦ rw spent (refl, tt)
    | inr left ↦ rw left tt
  ]

  pub with_retry_backoff-quiet :
      {A : Type 0} (operation : String) (request : Future (Result AttestationAdapterError A))
      → CountsNoRequest request
      → CountsNoRequest (with_retry_backoff c operation request)
  unfolding with_retry_backoff
  with_retry_backoff-quiet operation request quiet =
      Emits-bind no_request
        (c.retry_if (c.exponential_backoff initial_backoff 2 max_backoff (max_attempts - 1))
          (attempt request) is_retrieval_error 0)
        (finish operation)
        (retried-quiet request quiet
          (c.exponential_backoff initial_backoff 2 max_backoff (max_attempts - 1)) 0)
        (finish-quiet operation)
