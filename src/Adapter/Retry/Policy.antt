-- ===== src/Adapter/Retry/Policy.antt =====
-- What a run of `with_retry_backoff` is.
use mathlib.Core.List.{append_assoc}
use ibc_attestor.Common.{
  ℕ, ◌+◌, ◌-◌, ◌≤◌, ◌≡◌, sym, ap, ◌∙◌, inl, inr, and_then, String, List, [], ◌∷◌, ◌++◌, ok, err,
  arith, leb, Bool-cases, length, if◌then◌else◌,
}
use ibc_attestor.Adapter.Retry.{
  attempt, finish, is_retrieval_error, initial_backoff, max_backoff, max_attempts,
  with_retry_backoff,
}
use ibc_attestor.Adapter.Retry.Attempts.{AdapterResult, Attempts, retried-Counted}
use ibc_attestor.Crates.{Crates, RetryLaws}
use ibc_attestor.Future.{Future, ask, fmap, ◌>>=◌}
use ibc_attestor.Future.Runs.{
  Happening, answered, emitted, Run, Run-bind, Within, Within-refl, Within-append, Occurs,
  Occurs-Within, >>=-ok, >>=-cases,
}
use ibc_attestor.World.{Request, Answer, sleep, retry_failure}

-- The pauses between three attempts, in milliseconds.
abbrev pub pauses : List ℕ
pauses = 400 ∷ 2000 ∷ []

-- The metric at the end, after `n` attempts that ended with a result.
abbrev pub given_up : {A : Type 0} → String → ℕ → AdapterResult A → List Happening
given_up operation n (ok a) = []
given_up operation n (err e) = if leb 3 n then emitted (retry_failure operation) ∷ [] else []

Attempts-Within :
    {A : Type 0} (request : Future (AdapterResult A)) (delays : List ℕ) (n : ℕ) (h : List Happening)
    (r : AdapterResult A)
    → Attempts request delays n h r
    → (k : List Happening) × Within k h × Run request k r
Attempts-Within request [] n h r (e, p) = (h, Within-refl h, p)
Attempts-Within request (d ∷ delays) n h r (inl (e, p, q)) = (h, Within-refl h, p)
Attempts-Within request (d ∷ delays) n h r (inr (s, m, h₁, h₂, e, j, p, q)) =
    let (k, (l₁, l₂, i), g) = Attempts-Within request delays m h₂ r q in
    (k, (h₁ ++ (answered (sleep d) tt ∷ l₁), l₂, rw j (rw i (simp append_assoc))), g)

Attempts-bounds :
    {A : Type 0} (request : Future (AdapterResult A)) (delays : List ℕ) (n : ℕ) (h : List Happening)
    (r : AdapterResult A)
    → Attempts request delays n h r
    → (1 ≤ n) × (n ≤ length delays + 1)
Attempts-bounds request [] n h r (e, p) = omega arith
Attempts-bounds request (d ∷ delays) n h r (inl (e, p, q)) = omega arith
Attempts-bounds request (d ∷ delays) n h r (inr (s, m, h₁, h₂, e, j, p, q)) =
    omega (arith, Attempts-bounds request delays m h₂ r q)

module _ {A : Type 0} (operation : String) (n : ℕ) where
  finish-given_up :
      (r r' : AdapterResult A) (h : List Happening)
      → Run (finish operation (n, r)) h r'
      → (r ≡ r') × (h ≡ given_up operation n r')
  finish-given_up (ok a) r' h (e, p) = (p, rw (← p) e)
  finish-given_up (err f) r' h p = elim (Bool-cases (leb 3 n)) [
    | inl last ↦ let (l, j, (e, q)) = rw (last, finish) at p in (q, rw (← q) (rw last (rw e at j)))
    | inr early ↦ let (e, q) = rw (early, finish) at p in (q, rw (← q) (rw early e))
  ]

module _ (c : Crates) (laws : RetryLaws c) {A : Type 0} (operation : String)
    (request : Future (AdapterResult A)) (h : List Happening) (r : AdapterResult A)
    (run : Run (with_retry_backoff c operation request) h r) where
  -- A run of `with_retry_backoff` makes one to three attempts. It pauses for 400 ms after the
  -- first and for 2000 ms after the second, goes on only after a `RetrievalError`, and ends with
  -- the result of the last attempt. The retry failure is counted exactly if that is an error
  -- and the attempt is the third.
  pub with_retry_backoff-Attempts :
      (n : ℕ) × (h' : List Happening) × Attempts request pauses n h' r
      × (1 ≤ n)
      × (n ≤ 3)
      × (h ≡ h' ++ given_up operation n r)
  unfolding with_retry_backoff
  with_retry_backoff-Attempts =
      let split =
        Run-bind
          (c.retry_if (c.exponential_backoff initial_backoff 2 max_backoff (max_attempts - 1))
            (attempt request) is_retrieval_error 0)
          (finish operation) h r run in
      let delays = laws.two_delays initial_backoff 2 max_backoff in
      let (n, attempts, counted) =
        retried-Counted c laws request pauses 0 (omega arith) split.first split.value
          (rw delays at split.before) in
      let same : split.value ≡ (n, split.value.1) =
        ap (λ (k : ℕ). (k, split.value.1)) (counted ∙ omega arith) in
      let (e, j) =
        finish-given_up operation n split.value.1 r split.second (rw same at split.after) in
      let (low, high) = Attempts-bounds request pauses n split.first split.value.1 attempts in
      (n, split.first, rw e at attempts, low, high, split.joined ∙ ap (λ k. split.first ++ k) j)

  -- Its result is that of an attempt.
  pub with_retry_backoff-Within : (k : List Happening) × Within k h × Run request k r
  with_retry_backoff-Within =
      let (n, h', attempts, low, high, j) = with_retry_backoff-Attempts in
      let (k, within, last) = Attempts-Within request pauses n h' r attempts in
      (k, rw j (Within-append k h' [] (given_up operation n r) within), last)

-- An adapter's request is one question, whose answer is converted: the result is an answer's.
pub with_retry_backoff-ask :
    (c : Crates)
    → RetryLaws c
    → {A : Type 0} (operation : String) (q : Request) (convert : Answer q → AdapterResult A)
      (h : List Happening) (r : AdapterResult A)
    → Run (with_retry_backoff c operation (fmap convert (ask q))) h r
    → (x : Answer q) × Occurs (answered q x) h × (convert x ≡ r)
with_retry_backoff-ask c laws operation q convert h r run =
    let (k, within, (x, l, j, (e, p))) =
      with_retry_backoff-Within c laws operation (fmap convert (ask q)) h r run in
    (x, Occurs-Within (answered q x) k h ([], l, j) within, p)

-- A request that succeeds in the end, with what follows it: the answer occurs in the run.
pub retried-ok :
    (c : Crates)
    → RetryLaws c
    → {A B : Type 0} (operation : String) (q : Request) (convert : Answer q → AdapterResult A)
      (later : A → Future (AdapterResult B)) (h : List Happening) (b : B)
    → Run (with_retry_backoff c operation (fmap convert (ask q)) >>= later) h (ok b)
    → (a : A) × (x : Answer q) × (h₂ : List Happening) × Occurs (answered q x) h
      × (convert x ≡ ok a)
      × Run (later a) h₂ (ok b)
retried-ok c laws operation q convert later h b run =
    let s = >>=-ok (with_retry_backoff c operation (fmap convert (ask q))) later h b run in
    let (x, (h₁, h₂, j), e) =
      with_retry_backoff-ask c laws operation q convert s.first (ok s.value) s.before in
    (s.value, x, s.second, (h₁, h₂ ++ s.second, rw s.joined (rw j (simp append_assoc))), e, s.after)

-- A request and what is made of its answer, whatever that is: the result is that of an answer which
-- came in the run.
pub retried-answer :
    (c : Crates)
    → RetryLaws c
    → {A B : Type 0} (operation : String) (q : Request) (convert : Answer q → AdapterResult A)
      (later : A → Future (AdapterResult B)) (g : A → AdapterResult B)
    → ((a : A) (k : List Happening) (v : AdapterResult B) → Run (later a) k v → g a ≡ v)
    → (h : List Happening) (r : AdapterResult B)
    → Run (with_retry_backoff c operation (fmap convert (ask q)) >>= later) h r
    → (x : Answer q) × Occurs (answered q x) h × (and_then (convert x) g ≡ r)
retried-answer c laws operation q convert later g pure h r run =
    let asked = with_retry_backoff c operation (fmap convert (ask q)) in
    elim (>>=-cases asked later h r run) [
      | inl (e, (k, failed, w), refused) ↦
          let (x, occurs, p) = with_retry_backoff-ask c laws operation q convert k (err e) failed in
          (x, Occurs-Within (answered q x) k h occurs w, rw p (sym refused))
      | inr s ↦
          let (x, (h₁, h₂, j), p) =
            with_retry_backoff-ask c laws operation q convert s.first (ok s.value) s.before in
          (
            x,
            (h₁, h₂ ++ s.second, rw s.joined (rw j (simp append_assoc))),
            rw p (pure s.value s.second r s.after),
          )
    ]
