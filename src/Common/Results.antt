-- ===== src/Common/Results.antt =====
-- Rust's `Result`, with its error type first so that a `Result E` is a monad.
use mathlib.Core.Path.{◌≡◌, refl, ap}
use mathlib.Core.Logic.{◌⊎◌, inl, inr}
use mathlib.Core.Bool.{Bool, true, false}
use mathlib.Core.Option.{Option, none, some}
use mathlib.Core.List.{List, [], ◌∷◌}

pub data Result {ℓ κ} (E : Type ℓ) (A : Type κ) : Type (ℓ ⊔ κ) where
  ok : A → Result E A
  err : E → Result E A

module _ {ℓ κ} {E : Type ℓ} {A : Type κ} where
  abbrev pub is_ok : Result E A → Bool
  is_ok (ok a) = true
  is_ok (err e) = false

  abbrev pub map_err {μ} : {F : Type μ} → (E → F) → Result E A → Result F A
  map_err f (ok a) = ok a
  map_err f (err e) = err (f e)

  abbrev pub map_ok {μ} : {B : Type μ} → (A → B) → Result E A → Result E B
  map_ok f (ok a) = ok (f a)
  map_ok f (err e) = err e

  -- `Option::ok_or`
  abbrev pub ok_or : E → Option A → Result E A
  ok_or e none = err e
  ok_or e (some a) = ok a

  -- `Result::and_then`
  abbrev pub and_then {μ} : {B : Type μ} → Result E A → (A → Result E B) → Result E B
  and_then (ok a) f = f a
  and_then (err e) f = err e

  pub ok_injective : {a b : A} → ◌≡◌ {A = Result E A} (ok a) (ok b) → a ≡ b
  ok_injective h = cc

  pub err_injective : {e f : E} → ◌≡◌ {A = Result E A} (err e) (err f) → e ≡ f
  err_injective h = cc

  pub map_err-eq-ok {μ} :
      {F : Type μ} (f : E → F) (r : Result E A) (a : A) → map_err f r ≡ ok a → r ≡ ok a
  map_err-eq-ok f (ok b) a h = cc
  map_err-eq-ok f (err e) a h = cc

  pub map_err-eq-err {μ} :
      {F : Type μ} (f : E → F) (r : Result E A) (e : F)
      → map_err f r ≡ err e
      → (d : E) × (r ≡ err d) × (f d ≡ e)
  map_err-eq-err f (ok a) e h = cc
  map_err-eq-err f (err d) e h = (d, refl, cc)

  pub map_ok-eq-ok {μ} :
      {B : Type μ} (f : A → B) (r : Result E A) (b : B)
      → map_ok f r ≡ ok b
      → (a : A) × (r ≡ ok a) × (f a ≡ b)
  map_ok-eq-ok f (ok a) b h = (a, refl, cc)
  map_ok-eq-ok f (err e) b h = cc

  pub map_ok-eq-err {μ} :
      {B : Type μ} (f : A → B) (r : Result E A) (e : E) → map_ok f r ≡ err e → r ≡ err e
  map_ok-eq-err f (ok a) e h = cc
  map_ok-eq-err f (err d) e h = cc

  pub and_then-eq-ok {μ} :
      {B : Type μ} (r : Result E A) (f : A → Result E B) (b : B)
      → and_then r f ≡ ok b
      → (a : A) × (r ≡ ok a) × (f a ≡ ok b)
  and_then-eq-ok (ok a) f b h = (a, refl, h)
  and_then-eq-ok (err e) f b h = cc

  pub and_then-eq-err {μ} :
      {B : Type μ} (r : Result E A) (f : A → Result E B) (e : E)
      → and_then r f ≡ err e
      → (r ≡ err e) ⊎ ((a : A) × (r ≡ ok a) × (f a ≡ err e))
  and_then-eq-err (ok a) f e h = inr (a, refl, h)
  and_then-eq-err (err d) f e h = let same : d ≡ e = cc in inl (ap (λ n. err n) same)

  pub ok_or-eq-ok : (e : E) (o : Option A) (a : A) → ok_or e o ≡ ok a → o ≡ some a
  ok_or-eq-ok e none a h = cc
  ok_or-eq-ok e (some b) a h = cc

  pub Result-cases : (r : Result E A) → ((e : E) × (r ≡ err e)) ⊎ ((a : A) × (r ≡ ok a))
  Result-cases (err e) = inl (e, refl)
  Result-cases (ok a) = inr (a, refl)

-- `iter.collect::<Result<Vec<_>, _>>()`: all the values, or the first error in the list's order.
abbrev pub collect {ℓ κ} : {E : Type ℓ} {A : Type κ} → List (Result E A) → Result E (List A)
collect [] = ok []
collect (ok a ∷ rs) = map_ok (λ xs. a ∷ xs) (collect rs)
collect (err e ∷ rs) = err e
