-- ===== src/Future/Steps.antt =====
-- The steps of a chain that succeeds.
use ibc_attestor.Common.{
  ◌≡◌, refl, sym, ◌⊎◌, inl, inr, List, [], ◌∷◌, ◌++◌, Result, ok, err, and_then as result_then,
}
use ibc_attestor.Future.{Future, ready, ask, fmap, and_then, ◌>>=◌}
use ibc_attestor.Future.Runs.{Happening, answered, Run, Run-bind}
use ibc_attestor.World.{Request, Answer}

module _ {E A B : Type 0} (later : A → Future (Result E B)) (b : B) where
  -- What follows `?` on a value.
  pub and_then-ok :
      (h : List Happening) (r : Result E A)
      → Run (and_then later r) h (ok b)
      → (a : A) × (r ≡ ok a) × Run (later a) h (ok b)
  and_then-ok h (ok a) run = (a, refl, run)
  and_then-ok h (err e) (_, p) = cc

  -- A question first, whose answer is converted.
  pub asked-ok :
      (h : List Happening) (q : Request) (convert : Answer q → Result E A)
      → Run (fmap convert (ask q) >>= later) h (ok b)
      → (a : A) × (x : Answer q) × (k : List Happening) × (h ≡ answered q x ∷ k)
        × (convert x ≡ ok a)
        × Run (later a) k (ok b)
  asked-ok h q convert (x, k, e, run) =
      let (a, same, rest) = and_then-ok k (convert x) run in (a, x, k, e, same, rest)

-- A chain whose last part is a value: the result is a function of the first part's.
module _ {E A B : Type 0} (t : Future (Result E A)) (g : A → Result E B) where
  then_value :
      (v : Result E A) (k : List Happening) (r : Result E B)
      → Run (and_then (λ a. ready (g a)) v) k r
      → result_then v g ≡ r
  then_value (ok a) k r (e, p) = p
  then_value (err e) k r (i, p) = p

  pub >>=-ready :
      (h : List Happening) (r : Result E B)
      → Run (t >>= λ a. ready (g a)) h r
      → (v : Result E A) × (first : List Happening) × (second : List Happening) × Run t first v
        × (h ≡ first ++ second)
        × (result_then v g ≡ r)
  >>=-ready h r run =
      let s = Run-bind t (and_then (λ a. ready (g a))) h r run in
      (s.value, s.first, s.second, s.before, s.joined, then_value s.value s.second r s.after)

-- A value first: the chain ends with its error at once, or goes on.
pub ready-cases :
    {E A B : Type 0} (x : Result E A) (f : A → Future (Result E B)) (h : List Happening)
    (r : Result E B)
    → Run (ready x >>= f) h r
    → ((e : E) × (x ≡ err e) × (h ≡ []) × (r ≡ err e)) ⊎ ((a : A) × (x ≡ ok a) × Run (f a) h r)
ready-cases (ok a) f h r run = inr (a, refl, run)
ready-cases (err e) f h r (i, p) = inl (e, refl, i, sym p)
