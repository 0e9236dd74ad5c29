-- ===== src/Adapter/Retry/Attempts.antt =====
-- The attempts that a repeated request makes, as a relation, and the runs of the retries.
use mathlib.Core.List.{append-nil}
use ibc_attestor.Common.{
  ℕ, suc, ◌+◌, ◌<◌, ◌%◌, ◌≡◌, refl, ap, ◌⊎◌, inl, inr, Bool, true, false, String, List, [], ◌∷◌,
  ◌++◌, Result, ok, err, arith, Bool-cases, length,
}
use ibc_attestor.Adapter.Retry.{attempt, is_retrieval_error}
use ibc_attestor.Crates.{Crates, RetryLaws, retry_next}
use ibc_attestor.Error.{AttestationAdapterError, retrieval_error}
use ibc_attestor.Future.{Future, ready, awaits}
use ibc_attestor.Future.Runs.{Happening, answered, Run, Run-bind, Run-fmap}
use ibc_attestor.World.{sleep}

abbrev pub AdapterResult : Type 0 → Type 0
AdapterResult A = Result AttestationAdapterError A

-- Whether the retries go on after a result, while delays are left.
abbrev pub is_transient : {A : Type 0} → AdapterResult A → Bool
is_transient (ok a) = false
is_transient (err e) = is_retrieval_error e

-- `Attempts request delays n h r`: with the happenings `h` the request ran `n` times and ended with
-- `r`. Each run but the last failed with a `RetrievalError`, and was followed by the next delay.
abbrev pub Attempts :
    {A : Type 0} → Future (AdapterResult A) → List ℕ → ℕ → List Happening → AdapterResult A → Type 0
Attempts request [] n h r = (n ≡ 1) × Run request h r
Attempts request (d ∷ delays) n h r =
    ((n ≡ 1) × Run request h r × (is_transient r ≡ false))
    ⊎ ((reason : String) × (m : ℕ) × (h₁ : List Happening) × (h₂ : List Happening) × (n ≡ suc m)
        × (h ≡ h₁ ++ (answered (sleep d) tt ∷ h₂))
        × Run request h₁ (err (retrieval_error reason))
        × Attempts request delays m h₂ r)

retrieval_of_test :
    (e : AttestationAdapterError)
    → is_retrieval_error e ≡ true
    → (reason : String) × (e ≡ retrieval_error reason)
retrieval_of_test (retrieval_error s) h = (s, refl)
retrieval_of_test _ h = cc

module _ (c : Crates) (laws : RetryLaws c) {A : Type 0} (request : Future (AdapterResult A)) where
  abbrev pub retried : List ℕ → ℕ → Future (ℕ × AdapterResult A)
  retried delays s = c.retry_if delays (attempt request) is_retrieval_error s

  -- What a run of the retries is: its attempts, which are counted from `s`.
  abbrev pub Counted : List ℕ → ℕ → List Happening → ℕ × AdapterResult A → Type 0
  Counted delays s h v = (n : ℕ) × Attempts request delays n h v.1 × (v.0 ≡ s + n)

  retry_next-Counted :
      (d : ℕ) (delays : List ℕ) (s : ℕ)
      → s + length delays < 254
      → ((h : List Happening) (v : ℕ × AdapterResult A)
          → Run (retried delays (s + 1)) h v
          → Counted delays (s + 1) h v)
      → (h₁ h₂ : List Happening) (r : AdapterResult A) (v : ℕ × AdapterResult A) → Run request h₁ r
      → Run (retry_next (d ∷ delays) is_retrieval_error retried ((s + 1) % 256, r)) h₂ v
      → Counted (d ∷ delays) s (h₁ ++ h₂) v
  retry_next-Counted d delays s small later h₁ h₂ (ok a) v p (e, q) =
      rw (← q) (rw e (1, inl (refl, rw append-nil p, refl), omega arith))
  retry_next-Counted d delays s small later h₁ h₂ (err e) v p q =
      elim (Bool-cases (is_retrieval_error e)) [
        | inl again ↦ resume again (rw again at q)
        | inr over ↦ stop over (rw over at q)
      ]
    where
      resume :
          is_retrieval_error e ≡ true
          → Run (awaits (sleep d) (λ _. retried delays ((s + 1) % 256))) h₂ v
          → Counted (d ∷ delays) s (h₁ ++ h₂) v
      resume again (x, l, j, g) =
          let wrap : (s + 1) % 256 ≡ s + 1 = omega arith in
          let (m, attempts, count) = later l v (rw wrap at g) in
          let (reason, failed) = retrieval_of_test e again in
          let joined = ap (λ k. h₁ ++ k) j in
          (suc m, inr (reason, m, h₁, l, refl, joined, rw failed at p, attempts), omega arith)

      stop :
          is_retrieval_error e ≡ false
          → Run (ready ((s + 1) % 256, err e)) h₂ v
          → Counted (d ∷ delays) s (h₁ ++ h₂) v
      stop over (j, g) = rw (← g) (rw j (1, inl (refl, rw append-nil p, over), omega arith))

  retry_last-Counted :
      (s : ℕ)
      → s < 254
      → (h₁ h₂ : List Happening) (r : AdapterResult A) (v : ℕ × AdapterResult A) → Run request h₁ r
      → Run (retry_next [] is_retrieval_error retried ((s + 1) % 256, r)) h₂ v
      → Counted [] s (h₁ ++ h₂) v
  retry_last-Counted s small h₁ h₂ (ok a) v p (e, q) =
      rw (← q) (rw e (1, (refl, rw append-nil p), omega arith))
  retry_last-Counted s small h₁ h₂ (err f) v p (e, q) =
      rw (← q) (rw e (1, (refl, rw append-nil p), omega arith))

  -- The first attempt of a run, and what follows it.
  first_attempt :
      (delays : List ℕ) (s : ℕ) (h : List Happening) (v : ℕ × AdapterResult A)
      → Run (retried delays s) h v
      → (h₁ : List Happening) × (h₂ : List Happening) × (r : AdapterResult A) × (h ≡ h₁ ++ h₂)
        × Run request h₁ r
        × Run (retry_next delays is_retrieval_error retried ((s + 1) % 256, r)) h₂ v
  first_attempt delays s h v p =
      let step = laws.retry_if-step delays (attempt request) is_retrieval_error s in
      let split =
        Run-bind (attempt request s) (retry_next delays is_retrieval_error retried) h v
          (rw step at p) in
      let (r, before, same) =
        Run-fmap (λ r. ((s + 1) % 256, r)) request split.first split.value split.before in
      (split.first, split.second, r, split.joined, before, rw (← same) at split.after)

  pub retried-Counted :
      (delays : List ℕ) (s : ℕ)
      → s + length delays < 254
      → (h : List Happening) (v : ℕ × AdapterResult A) → Run (retried delays s) h v
      → Counted delays s h v
  retried-Counted [] s small h v p =
      let (h₁, h₂, r, joined, before, after) = first_attempt [] s h v p in
      rw joined (retry_last-Counted s (omega arith) h₁ h₂ r v before after)
  retried-Counted (d ∷ delays) s small h v p =
      let (h₁, h₂, r, joined, before, after) = first_attempt (d ∷ delays) s h v p in
      rw joined (
        retry_next-Counted d delays s (omega arith) (retried-Counted delays (s + 1) (omega arith))
          h₁ h₂ r v before after)
