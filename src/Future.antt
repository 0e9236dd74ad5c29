-- ===== src/Future.antt =====
-- Asynchronous code as a value: a future of Rust awaits answers from outside and records metrics
-- until it is ready. What it does between two awaits is not interrupted. `>>=` is the chain of
-- `.await?` in a function that returns a `Result`.
pub mod Runs
pub mod Among
pub mod Emitted
pub mod Collect
pub mod Errors
pub mod Steps
use ibc_attestor.Common.{Result, ok, err}
use ibc_attestor.World.{Request, Answer, Metric}

pub data Future (A : Type 0) : Type 0 where
  ready : A → Future A
  awaits : (r : Request) → (Answer r → Future A) → Future A
  emits : Metric → Future A → Future A

abbrev pub bind : {A B : Type 0} → Future A → (A → Future B) → Future B
bind (ready a) f = f a
bind (awaits r k) f = awaits r (λ x. bind (k x) f)
bind (emits m t) f = emits m (bind t f)

-- One request, awaited.
abbrev pub ask : (r : Request) → Future (Answer r)
ask r = awaits r (λ x. ready x)

-- The rest of a function after `?`.
abbrev pub and_then :
    {E A B : Type 0} → (A → Future (Result E B)) → Result E A → Future (Result E B)
and_then f (ok a) = f a
and_then f (err e) = ready (err e)

infixl 5 ◌>>=◌ ◌>>◌
abbrev pub ◌>>=◌ :
    {E A B : Type 0} → Future (Result E A) → (A → Future (Result E B)) → Future (Result E B)
t >>= f = bind t (and_then f)

abbrev pub ◌>>◌ :
    {E B : Type 0} → Future (Result E (Unit {0})) → Future (Result E B) → Future (Result E B)
t >> u = t >>= λ _. u

abbrev pub return : {E A : Type 0} → A → Future (Result E A)
return a = ready (ok a)

abbrev pub fail : {E A : Type 0} → E → Future (Result E A)
fail e = ready (err e)

-- A metric recorded on the way.
abbrev pub report : {E : Type 0} → Metric → Future (Result E (Unit {0}))
report m = emits m (ready (ok tt))

-- A function of the awaited value, as in `.await.map_err(f)`.
abbrev pub fmap : {A B : Type 0} → (A → B) → Future A → Future B
fmap g t = bind t (λ a. ready (g a))
