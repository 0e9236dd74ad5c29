-- ===== src/Future/Runs.antt =====
-- The runs of a future: what happens outside, in order, and what it ends with.
use mathlib.Core.List.{append-nil, append_assoc}
use ibc_attestor.Common.{
  ℕ, suc, ◌≡◌, refl, sym, ◌∙◌, ap, ◌⊎◌, inl, inr, List, [], ◌∷◌, ◌++◌, Result, ok, err,
  err_injective,
}
use ibc_attestor.World.{Request, Answer, Metric}
use ibc_attestor.Future.{Future, ready, awaits, emits, bind, ◌>>=◌, and_then, fmap}

pub data Happening : Type 0 where
  answered : (r : Request) → Answer r → Happening
  emitted : Metric → Happening

-- `Run t h a`: with the happenings `h` the future `t` ends with `a`.
abbrev pub Run : {A : Type 0} → Future A → List Happening → A → Type 0
Run (ready b) h a = (h ≡ []) × (b ≡ a)
Run (awaits r k) h a =
    (x : Answer r) × (h' : List Happening) × (h ≡ answered r x ∷ h') × Run (k x) h' a
Run (emits m t) h a = (h' : List Happening) × (h ≡ emitted m ∷ h') × Run t h' a

-- Some run of the future ends with the value.
abbrev pub Returns : {A : Type 0} → Future A → A → Type 0
Returns t a = (h : List Happening) × Run t h a

-- The happening is one of the list.
abbrev pub Occurs : Happening → List Happening → Type 0
Occurs e h = (h₁ : List Happening) × (h₂ : List Happening) × (h ≡ h₁ ++ (e ∷ h₂))

-- The happenings `k` follow one another somewhere in `h`.
abbrev pub Within : List Happening → List Happening → Type 0
Within k h = (h₁ : List Happening) × (h₂ : List Happening) × (h ≡ h₁ ++ (k ++ h₂))

pub Within-refl : (h : List Happening) → Within h h
Within-refl h = ([], [], rw append-nil)

pub Within-append :
    (k h before after : List Happening) → Within k h → Within k (before ++ (h ++ after))
Within-append k h before after (h₁, h₂, j) = (before ++ h₁, h₂ ++ after, rw j (simp append_assoc))

pub Within-second : (h first second : List Happening) → h ≡ first ++ second → Within second h
Within-second h first second joined = (first, [], rw append-nil joined)

pub Within-trans : (k l h : List Happening) → Within k l → Within l h → Within k h
Within-trans k l h (k₁, k₂, i) (h₁, h₂, j) = (h₁ ++ k₁, k₂ ++ h₂, rw j (rw i (simp append_assoc)))

-- A run of the future that ends with the value is a part of the happenings.
abbrev pub RunsIn : {A : Type 0} → Future A → A → List Happening → Type 0
RunsIn t a h = (k : List Happening) × Run t k a × Within k h

pub RunsIn-first :
    {A : Type 0} (t : Future A) (a : A) (h first second : List Happening)
    → h ≡ first ++ second
    → RunsIn t a first
    → RunsIn t a h
RunsIn-first t a h first second joined (k, run, w) =
    (k, run, rw joined (Within-append k first [] second w))

pub RunsIn-second :
    {A : Type 0} (t : Future A) (a : A) (h first second : List Happening)
    → h ≡ first ++ second
    → RunsIn t a second
    → RunsIn t a h
RunsIn-second t a h first second joined (k, run, (h₁, h₂, j)) =
    (k, run, (first ++ h₁, h₂, rw joined (rw j (simp append_assoc))))

pub RunsIn-all : {A : Type 0} (t : Future A) (a : A) (h : List Happening) → Run t h a → RunsIn t a h
RunsIn-all t a h run = (h, run, Within-refl h)

pub RunsIn-Within :
    {A : Type 0} (t : Future A) (a : A) (k h : List Happening)
    → Within k h
    → RunsIn t a k
    → RunsIn t a h
RunsIn-Within t a k h w (l, run, v) = (l, run, Within-trans l k h v w)

pub Occurs-append : (e : Happening) (h later : List Happening) → Occurs e h → Occurs e (h ++ later)
Occurs-append e h later (h₁, h₂, j) = (h₁, h₂ ++ later, rw j (simp append_assoc))

pub Occurs-Within : (e : Happening) (k h : List Happening) → Occurs e k → Within k h → Occurs e h
Occurs-Within e k h (k₁, k₂, i) (h₁, h₂, j) = (h₁ ++ k₁, k₂ ++ h₂, rw j (rw i (simp append_assoc)))

-- A run of `bind t f` is a run of `t` and then one of `f` at its value.
pub record Split {A B : Type 0} (t : Future A) (f : A → Future B) (h : List Happening) (b : B)
    : Type 0 where
  pub first : List Happening
  pub second : List Happening
  pub value : A
  pub joined : h ≡ first ++ second
  pub before : Run t first value
  pub after : Run (f value) second b

pub Run-bind :
    {A B : Type 0} (t : Future A) (f : A → Future B) (h : List Happening) (b : B)
    → Run (bind t f) h b
    → Split t f h b
Run-bind (ready a) f h b r = record {
  first = [];
  second = h;
  value = a;
  joined = refl;
  before = (refl, refl);
  after = r;
}
Run-bind (awaits q k) f h b (x, h', e, r) =
    let s = Run-bind (k x) f h' b r in
    record {
      first = answered q x ∷ s.first;
      second = s.second;
      value = s.value;
      joined = e ∙ ap (λ l. answered q x ∷ l) s.joined;
      before = (x, s.first, refl, s.before);
      after = s.after;
    }
Run-bind (emits m t) f h b (h', e, r) =
    let s = Run-bind t f h' b r in
    record {
      first = emitted m ∷ s.first;
      second = s.second;
      value = s.value;
      joined = e ∙ ap (λ l. emitted m ∷ l) s.joined;
      before = (s.first, refl, s.before);
      after = s.after;
    }

pub bind-Run :
    {A B : Type 0} (t : Future A) (f : A → Future B) (h h' : List Happening) (a : A) (b : B)
    → Run t h a
    → Run (f a) h' b
    → Run (bind t f) (h ++ h') b
bind-Run (ready c) f h h' a b (e, p) q = rw (e, p) q
bind-Run (awaits r k) f h h' a b (x, l, e, p) q =
    (x, l ++ h', ap (λ m. m ++ h') e, bind-Run (k x) f l h' a b p q)
bind-Run (emits m t) f h h' a b (l, e, p) q =
    (l ++ h', ap (λ k. k ++ h') e, bind-Run t f l h' a b p q)

-- A chain that succeeds has succeeded in each part.
pub record Succeeds {E A B : Type 0} (t : Future (Result E A)) (f : A → Future (Result E B))
    (h : List Happening) (b : B) : Type 0 where
  pub first : List Happening
  pub second : List Happening
  pub value : A
  pub joined : h ≡ first ++ second
  pub before : Run t first (ok value)
  pub after : Run (f value) second (ok b)

-- A chain that fails has failed in its first part, or after it.
pub record FailsLater {E A B : Type 0} (t : Future (Result E A)) (f : A → Future (Result E B))
    (h : List Happening) (e : E) : Type 0 where
  pub first : List Happening
  pub second : List Happening
  pub value : A
  pub joined : h ≡ first ++ second
  pub before : Run t first (ok value)
  pub after : Run (f value) second (err e)

module _ {E A B : Type 0} (t : Future (Result E A)) (f : A → Future (Result E B)) where
  Succeeds-of_split :
      (h l k : List Happening) (r : Result E A) (b : B)
      → h ≡ l ++ k
      → Run t l r
      → Run (and_then f r) k (ok b)
      → Succeeds t f h b
  Succeeds-of_split h l k (ok a) b j p q = record {
    first = l;
    second = k;
    value = a;
    joined = j;
    before = p;
    after = q;
  }
  Succeeds-of_split h l k (err e) b j p (_, q) = cc

  pub >>=-ok : (h : List Happening) (b : B) → Run (t >>= f) h (ok b) → Succeeds t f h b
  >>=-ok h b r =
      let s = Run-bind t (and_then f) h (ok b) r in
      Succeeds-of_split h s.first s.second s.value b s.joined s.before s.after

  Fails-of_split :
      (h l k : List Happening) (r : Result E A) (e : E)
      → h ≡ l ++ k
      → Run t l r
      → Run (and_then f r) k (err e)
      → Returns t (err e) ⊎ FailsLater t f h e
  Fails-of_split h l k (ok a) e j p q =
      inr (record { first = l; second = k; value = a; joined = j; before = p; after = q })
  Fails-of_split h l k (err e') e j p (_, q) = inl (l, rw (err_injective q) at p)

  pub >>=-err :
      (h : List Happening) (e : E)
      → Run (t >>= f) h (err e)
      → Returns t (err e) ⊎ FailsLater t f h e
  >>=-err h e r =
      let s = Run-bind t (and_then f) h (err e) r in
      Fails-of_split h s.first s.second s.value e s.joined s.before s.after

-- A chain that goes on after its first part, whatever it ends with.
pub record GoesOn {E A B : Type 0} (t : Future (Result E A)) (f : A → Future (Result E B))
    (h : List Happening) (r : Result E B) : Type 0 where
  pub first : List Happening
  pub second : List Happening
  pub value : A
  pub joined : h ≡ first ++ second
  pub before : Run t first (ok value)
  pub after : Run (f value) second r

module _ {E A B : Type 0} (t : Future (Result E A)) (f : A → Future (Result E B))
    (h : List Happening) (r : Result E B) where
  GoesOn-of_split :
      (l k : List Happening) (v : Result E A)
      → h ≡ l ++ k
      → Run t l v
      → Run (and_then f v) k r
      → ((e : E) × RunsIn t (err e) h × (r ≡ err e)) ⊎ GoesOn t f h r
  GoesOn-of_split l k (ok a) j p q =
      inr (record { first = l; second = k; value = a; joined = j; before = p; after = q })
  GoesOn-of_split l k (err e) j p (_, q) = inl (e, (l, p, ([], k, j)), sym q)

  pub >>=-cases : Run (t >>= f) h r → ((e : E) × RunsIn t (err e) h × (r ≡ err e)) ⊎ GoesOn t f h r
  >>=-cases run =
      let s = Run-bind t (and_then f) h r run in
      GoesOn-of_split s.first s.second s.value s.joined s.before s.after

-- The value under a function comes from a run with the same happenings.
pub Run-fmap :
    {A B : Type 0} (g : A → B) (t : Future A) (h : List Happening) (b : B)
    → Run (fmap g t) h b
    → (a : A) × Run t h a × (g a ≡ b)
Run-fmap g (ready a) h b (e, p) = (a, (e, refl), p)
Run-fmap g (awaits r k) h b (x, l, e, p) =
    let (a, q, j) = Run-fmap g (k x) l b p in (a, (x, l, e, q), j)
Run-fmap g (emits m t) h b (l, e, p) = let (a, q, j) = Run-fmap g t l b p in (a, (l, e, q), j)

-- The environment as a function of the request and of the number of answers that came before.
abbrev pub Oracle : Type 0
Oracle = (r : Request) → ℕ → Answer r

-- Every future ends, whatever the environment answers: `run` gives the value and the happenings.
unfoldable pub run : {A : Type 0} → Oracle → ℕ → Future A → List Happening × A
run o n (ready a) = ([], a)
run o n (awaits r k) = let x = o r n in let (h, a) = run o (suc n) (k x) in (answered r x ∷ h, a)
run o n (emits m t) = let (h, a) = run o n t in (emitted m ∷ h, a)

pub run-Run : {A : Type 0} (o : Oracle) (n : ℕ) (t : Future A) → Run t (run o n t).0 (run o n t).1
unfolding run
run-Run o n (ready a) = (refl, refl)
run-Run o n (awaits r k) = (o r n, _, refl, run-Run o (suc n) (k (o r n)))
run-Run o n (emits m t) = (_, refl, run-Run o n t)

-- What a future may end with, under a function and in a chain.
pub fmap-Returns :
    {A B : Type 0} (g : A → B) (t : Future A) (a : A) → Returns t a → Returns (fmap g t) (g a)
fmap-Returns g t a (h, p) = (h ++ [], bind-Run t (λ x. ready (g x)) h [] a (g a) p (refl, refl))

pub >>=-Returns :
    {E A B : Type 0} (t : Future (Result E A)) (f : A → Future (Result E B)) (a : A)
    (r : Result E B)
    → Returns t (ok a)
    → Returns (f a) r
    → Returns (t >>= f) r
>>=-Returns t f a r (h, p) (k, q) = (h ++ k, bind-Run t (and_then f) h k (ok a) r p q)
