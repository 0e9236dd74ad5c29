-- ===== src/Common/Collected.antt =====
-- What `collect` makes of a list of results that are related one by one to another list.
use mathlib.Core.Path.{◌≡◌, refl, ap}
use mathlib.Core.List.{List, [], ◌∷◌, ◌++◌, map}
use ibc_attestor.Common.Lists.{All₂}
use ibc_attestor.Common.Results.{
  Result, ok, err, collect, map_ok, map_ok-eq-ok, map_ok-eq-err, err_injective,
}

module _ {P E A : Type 0} (R : P → Result E A → Type 0) where
  -- All results are values, each related to its element.
  pub collect-ok :
      (ps : List P) (rs : List (Result E A)) (l : List A)
      → All₂ R ps rs
      → collect rs ≡ ok l
      → All₂ (λ p a. R p (ok a)) ps l
  collect-ok [] [] [] related h = tt
  collect-ok [] [] (a ∷ l) related h = cc
  collect-ok (p ∷ ps) (err e ∷ rs) l related h = cc
  collect-ok (p ∷ ps) (ok a ∷ rs) l (here, related) h =
      let (k, rest, e) = map_ok-eq-ok (λ xs. a ∷ xs) (collect rs) l h in
      rw (← e) (here, collect-ok ps rs k related rest)
  collect-ok [] (r ∷ rs) l related h = absurd related
  collect-ok (p ∷ ps) [] l related h = absurd related

  -- The first result that is an error, after values only.
  pub record FirstError (ps : List P) (e : E) : Type 0 where
    pub before : List P
    pub failed : P
    pub after : List P
    pub values : List A
    pub split : ps ≡ before ++ (failed ∷ after)
    pub succeeded : All₂ (λ p a. R p (ok a)) before values
    pub refused : R failed (err e)

  pub collect-err :
      (ps : List P) (rs : List (Result E A)) (e : E)
      → All₂ R ps rs
      → collect rs ≡ err e
      → FirstError ps e
  collect-err [] [] e related h = cc
  collect-err (p ∷ ps) (err d ∷ rs) e (here, related) h = record {
    before = [];
    failed = p;
    after = ps;
    values = [];
    split = refl;
    succeeded = tt;
    refused = rw (err_injective h) at here;
  }
  collect-err (p ∷ ps) (ok a ∷ rs) e (here, related) h =
      let f = collect-err ps rs e related (map_ok-eq-err (λ xs. a ∷ xs) (collect rs) e h) in
      record {
        before = p ∷ f.before;
        failed = f.failed;
        after = f.after;
        values = a ∷ f.values;
        split = ap (λ l. p ∷ l) f.split;
        succeeded = (here, f.succeeded);
        refused = f.refused;
      }
  collect-err [] (r ∷ rs) e related h = absurd related
  collect-err (p ∷ ps) [] e related h = absurd related

-- A relation to the images of a list, as a relation to the list.
pub All₂-map :
    {P A B : Type 0} (f : P → A) (R : A → B → Type 0) (ps : List P) (bs : List B)
    → All₂ R (map f ps) bs
    → All₂ (λ p b. R (f p) b) ps bs
All₂-map f R [] [] h = tt
All₂-map f R (p ∷ ps) (b ∷ bs) (here, h) = (here, All₂-map f R ps bs h)
All₂-map f R [] (b ∷ bs) h = absurd h
All₂-map f R (p ∷ ps) [] h = absurd h

pub All₂-mono :
    {P A : Type 0} (R S : P → A → Type 0)
    → ((p : P) (a : A) → R p a → S p a)
    → (ps : List P) (l : List A) → All₂ R ps l
    → All₂ S ps l
All₂-mono R S f [] [] h = tt
All₂-mono R S f (p ∷ ps) (a ∷ l) (here, h) = (f p a here, All₂-mono R S f ps l h)
All₂-mono R S f [] (a ∷ l) h = absurd h
All₂-mono R S f (p ∷ ps) [] h = absurd h

pub collect-map : {E A : Type 0} (l : List A) → collect {E = E} (map ok l) ≡ ok l
collect-map [] = refl
collect-map (a ∷ l) = ap (map_ok (λ xs. a ∷ xs)) (collect-map l)

-- A relation between the images of two lists.
pub All₂-maps :
    {P A B C : Type 0} (f : P → B) (g : A → C) (R : B → C → Type 0) (ps : List P) (l : List A)
    → All₂ (λ p a. R (f p) (g a)) ps l
    → All₂ R (map f ps) (map g l)
All₂-maps f g R [] [] h = tt
All₂-maps f g R (p ∷ ps) (a ∷ l) (here, h) = (here, All₂-maps f g R ps l h)
All₂-maps f g R [] (a ∷ l) h = absurd h
All₂-maps f g R (p ∷ ps) [] h = absurd h

pub FirstError-mono :
    {P E A : Type 0} (R S : P → Result E A → Type 0)
    → ((p : P) (r : Result E A) → R p r → S p r)
    → (ps : List P) (e : E) → FirstError R ps e
    → FirstError S ps e
FirstError-mono R S f ps e g = record {
  before = g.before;
  failed = g.failed;
  after = g.after;
  values = g.values;
  split = g.split;
  succeeded =
      All₂-mono (λ p a. R p (ok a)) (λ p a. S p (ok a)) (λ p a. f p (ok a)) g.before g.values
        g.succeeded;
  refused = f g.failed (err e) g.refused;
}
