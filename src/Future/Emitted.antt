-- ===== src/Future/Emitted.antt =====
-- Which metrics a future may record, whatever is answered.
use ibc_attestor.Common.{◌≡◌, true, false, Bool, List, [], ◌∷◌, Result, ok, err, All}
use ibc_attestor.Future.{Future, ready, awaits, emits, bind, fmap, and_then, ◌>>=◌}
use ibc_attestor.Future.Runs.{Happening, answered, emitted, Run}
use ibc_attestor.World.{Answer, Metric, rpc_request}

-- Every metric that the future may record passes the test.
abbrev pub Emits : (Metric → Bool) → {A : Type 0} → Future A → Type 0
Emits p (ready a) = Unit {0}
Emits p (awaits r k) = (x : Answer r) → Emits p (k x)
Emits p (emits m t) = (p m ≡ true) × Emits p t

-- The metrics among what happens.
abbrev pub metrics_of : List Happening → List Metric
metrics_of [] = []
metrics_of (answered r x ∷ h) = metrics_of h
metrics_of (emitted m ∷ h) = m ∷ metrics_of h

module _ (p : Metric → Bool) where
  pub Emits-bind :
      {A B : Type 0} (t : Future A) (f : A → Future B)
      → Emits p t
      → ((a : A) → Emits p (f a))
      → Emits p (bind t f)
  Emits-bind (ready a) f s later = later a
  Emits-bind (awaits r k) f s later = λ x. Emits-bind (k x) f (s x) later
  Emits-bind (emits m t) f (here, s) later = (here, Emits-bind t f s later)

  pub Emits-fmap : {A B : Type 0} (g : A → B) (t : Future A) → Emits p t → Emits p (fmap g t)
  Emits-fmap g t s = Emits-bind t (λ a. ready (g a)) s (λ a. tt)

  Emits-and_then :
      {E A B : Type 0} (f : A → Future (Result E B)) (r : Result E A)
      → ((a : A) → Emits p (f a))
      → Emits p (and_then f r)
  Emits-and_then f (ok a) later = later a
  Emits-and_then f (err e) later = tt

  pub Emits->>= :
      {E A B : Type 0} (t : Future (Result E A)) (f : A → Future (Result E B))
      → Emits p t
      → ((a : A) → Emits p (f a))
      → Emits p (t >>= f)
  Emits->>= t f s later = Emits-bind t (and_then f) s (λ r. Emits-and_then f r later)

  pub Emits-Run :
      {A : Type 0} (t : Future A) (h : List Happening) (a : A)
      → Emits p t
      → Run t h a
      → All (λ m. p m ≡ true) (metrics_of h)
  Emits-Run (ready b) h a s (e, q) = rw e tt
  Emits-Run (awaits r k) h a s (x, l, e, run) = rw e (Emits-Run (k x) l a (s x) run)
  Emits-Run (emits m t) h a (here, s) (l, e, run) = rw e (here, Emits-Run t l a s run)

-- A metric that does not count a request, and a future that records only such.
abbrev pub no_request : Metric → Bool
no_request (rpc_request method code elapsed) = false
no_request _ = true

abbrev pub CountsNoRequest : {A : Type 0} → Future A → Type 0
CountsNoRequest t = Emits no_request t
