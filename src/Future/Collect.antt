-- ===== src/Future/Collect.antt =====
-- What `futures.collect::<Vec<_>>().await` on a `FuturesOrdered` may do: the futures advance in
-- turns, in an order that the environment chooses, and their values come out in the futures' order.
use ibc_attestor.Common.{ℕ, zero, suc, ◌≡◌, refl, List, [], ◌∷◌, ◌++◌, Bool, All, All₂}
use ibc_attestor.Future.{Future, ready, awaits, emits, bind, fmap}
use ibc_attestor.Future.Among.{
  Sub, Sub-refl, Sub-trans, Sub-append_left, Sub-append_right, RunsAmong, RunsAmong-Sub,
}
use ibc_attestor.Future.Emitted.{Emits, Emits-bind, Emits-fmap}
use ibc_attestor.World.{Metric}
use ibc_attestor.Future.Runs.{
  Happening, answered, emitted, Run, Returns, Run-bind, bind-Run, Run-fmap, fmap-Returns,
}

-- One turn of the future at a position: it goes on past its next await, or its next metric.
-- `later` receives the futures as they stand afterwards.
abbrev turn : {A B : Type 0} → ℕ → List (Future A) → (List (Future A) → Future B) → Future B
turn i [] later = later []
turn zero (ready a ∷ ts) later = later (ready a ∷ ts)
turn zero (awaits r k ∷ ts) later = awaits r (λ x. later (k x ∷ ts))
turn zero (emits m t ∷ ts) later = emits m (later (t ∷ ts))
turn (suc i) (t ∷ ts) later = turn i ts (λ us. later (t ∷ us))

-- What is left when the chosen turns are over, one future after the other.
in_order : {A : Type 0} → List (Future A) → Future (List A)
in_order [] = ready []
in_order (t ∷ ts) = bind t λ a. fmap (λ l. a ∷ l) (in_order ts)

-- `turns` holds the positions of the futures that advance, in the order of their turns.
unfoldable pub collect_ordered : List ℕ → {A : Type 0} → List (Future A) → Future (List A)
unfolding in_order
collect_ordered [] ts = in_order ts
collect_ordered (i ∷ turns) ts = turn i ts (collect_ordered turns)

-- A run of `u` among the happenings `k` is the end of one of `t` among `h`.
Extends : {A : Type 0} → List Happening → List Happening → Future A → Future A → Type 0
Extends {A} k h t u = (a : A) → RunsAmong k u a → RunsAmong h t a

abbrev AllExtend :
    {A : Type 0} → List Happening → List Happening → List (Future A) → List (Future A) → Type 0
AllExtend k h = All₂ (Extends k h)

Extends-Sub : {A : Type 0} (k h : List Happening) (t : Future A) → Sub k h → Extends k h t t
unfolding Extends
Extends-Sub k h t s a p = RunsAmong-Sub t a k h s p

AllExtend-Sub :
    {A : Type 0} (k h : List Happening) (ts : List (Future A)) → Sub k h → AllExtend k h ts ts
AllExtend-Sub k h [] s = tt
AllExtend-Sub k h (t ∷ ts) s = (Extends-Sub k h t s, AllExtend-Sub k h ts s)

-- A future that goes on past what happens first.
extended :
    {A : Type 0} (t u : Future A) (e : Happening) (h k : List Happening)
    → h ≡ e ∷ k
    → ((g : List Happening) (a : A) → Run u g a → Run t (e ∷ g) a)
    → Extends k h t u
unfolding Extends
extended t u e h k j step a (g, run, s) = (e ∷ g, step g a run, ([], k, j, s))

turn-AllExtend :
    {A B : Type 0} (i : ℕ) (ts : List (Future A)) (later : List (Future A) → Future B)
    (h : List Happening) (b : B)
    → Run (turn i ts later) h b
    → (us : List (Future A)) × (k : List Happening) × Sub k h
      × AllExtend k h ts us
      × Run (later us) k b
turn-AllExtend zero [] later h b p = ([], h, Sub-refl h, tt, p)
turn-AllExtend (suc i) [] later h b p = ([], h, Sub-refl h, tt, p)
turn-AllExtend zero (ready a ∷ ts) later h b p =
    (ready a ∷ ts, h, Sub-refl h, AllExtend-Sub h h (ready a ∷ ts) (Sub-refl h), p)
turn-AllExtend zero (awaits r f ∷ ts) later h b (x, l, e, p) =
    let s : Sub l h = rw e (Sub-append_right l l (answered r x ∷ []) (Sub-refl l)) in
    (
      f x ∷ ts,
      l,
      s,
      (
        extended (awaits r f) (f x) (answered r x) h l e (λ g a q. (x, g, refl, q)),
        AllExtend-Sub l h ts s,
      ),
      p,
    )
turn-AllExtend zero (emits m t ∷ ts) later h b (l, e, p) =
    let s : Sub l h = rw e (Sub-append_right l l (emitted m ∷ []) (Sub-refl l)) in
    (
      t ∷ ts,
      l,
      s,
      (extended (emits m t) t (emitted m) h l e (λ g a q. (g, refl, q)), AllExtend-Sub l h ts s),
      p,
    )
turn-AllExtend (suc i) (t ∷ ts) later h b p =
    let (us, k, s, q, r) = turn-AllExtend i ts (λ us. later (t ∷ us)) h b p in
    (t ∷ us, k, s, (Extends-Sub k h t s, q), r)

AllExtend-RunsAmong :
    {A : Type 0} (k h : List Happening) (ts us : List (Future A)) (l : List A)
    → AllExtend k h ts us
    → All₂ (RunsAmong k) us l
    → All₂ (RunsAmong h) ts l
unfolding Extends
AllExtend-RunsAmong k h [] [] [] p q = tt
AllExtend-RunsAmong k h (t ∷ ts) (u ∷ us) (a ∷ l) (p, ps) (q, qs) =
    (p a q, AllExtend-RunsAmong k h ts us l ps qs)
AllExtend-RunsAmong k h [] (u ∷ us) l p q = absurd p
AllExtend-RunsAmong k h (t ∷ ts) [] l p q = absurd p
AllExtend-RunsAmong k h [] [] (a ∷ l) p q = absurd q
AllExtend-RunsAmong k h (t ∷ ts) (u ∷ us) [] p q = absurd q

in_order-RunsAmong :
    {A : Type 0} (ts : List (Future A)) (g h : List Happening) (l : List A)
    → Sub g h
    → Run (in_order ts) g l
    → All₂ (RunsAmong h) ts l
unfolding in_order
in_order-RunsAmong [] g h [] s p = tt
in_order-RunsAmong [] g h (a ∷ l) s (e, p) = cc
in_order-RunsAmong (t ∷ ts) g h l sub p =
    let s = Run-bind t (λ a. fmap (λ k. a ∷ k) (in_order ts)) g l p in
    let (k, q, e) = Run-fmap (λ k. s.value ∷ k) (in_order ts) s.second l s.after in
    let whole : Sub (s.first ++ s.second) h = rw s.joined at sub in
    let first =
      Sub-trans s.first (s.first ++ s.second) h
        (Sub-append_left s.first s.first s.second (Sub-refl s.first)) whole in
    let second =
      Sub-trans s.second (s.first ++ s.second) h
        (Sub-append_right s.second s.second s.first (Sub-refl s.second)) whole in
    rw (← e) ((s.first, s.before, first), in_order-RunsAmong ts s.second h k second q)

-- Whatever the turns, each value is one with which the future in its place has ended, in a run whose
-- happenings are among those of the whole.
pub collect_ordered-RunsAmong :
    (turns : List ℕ) {A : Type 0} (ts : List (Future A)) (h : List Happening) (l : List A)
    → Run (collect_ordered turns ts) h l
    → All₂ (RunsAmong h) ts l
unfolding collect_ordered
collect_ordered-RunsAmong [] ts h l p = in_order-RunsAmong ts h h l (Sub-refl h) p
collect_ordered-RunsAmong (i ∷ turns) ts h l p =
    let (us, k, s, q, r) = turn-AllExtend i ts (collect_ordered turns) h l p in
    AllExtend-RunsAmong k h ts us l q (collect_ordered-RunsAmong turns us k l r)

in_order-granted :
    {A : Type 0} (ts : List (Future A)) (l : List A) → All₂ Returns ts l → Returns (in_order ts) l
unfolding in_order
in_order-granted [] [] p = ([], (refl, refl))
in_order-granted (t ∷ ts) (a ∷ l) ((h, p), ps) =
    let (k, q) = fmap-Returns (λ r. a ∷ r) (in_order ts) l (in_order-granted ts l ps) in
    (h ++ k, bind-Run t (λ x. fmap (λ r. x ∷ r) (in_order ts)) h k a (a ∷ l) p q)
in_order-granted [] (a ∷ l) p = absurd p
in_order-granted (t ∷ ts) [] p = absurd p

-- Without turns, any values that the futures may end with may come out.
pub Returns-collect_ordered :
    {A : Type 0} (ts : List (Future A)) (l : List A)
    → All₂ Returns ts l
    → Returns (collect_ordered [] ts) l
unfolding collect_ordered
Returns-collect_ordered ts l p = in_order-granted ts l p

in_order-Emits :
    {A : Type 0} (p : Metric → Bool) (ts : List (Future A))
    → All (Emits p) ts
    → Emits p (in_order ts)
unfolding in_order
in_order-Emits p [] s = tt
in_order-Emits p (t ∷ ts) (here, s) =
    Emits-bind p t (λ a. fmap (λ l. a ∷ l) (in_order ts)) here
      (λ a. Emits-fmap p (λ l. a ∷ l) (in_order ts) (in_order-Emits p ts s))

turn-Emits :
    {A B : Type 0} (p : Metric → Bool) (i : ℕ) (ts : List (Future A))
    (later : List (Future A) → Future B)
    → All (Emits p) ts
    → ((us : List (Future A)) → All (Emits p) us → Emits p (later us))
    → Emits p (turn i ts later)
turn-Emits p zero [] later s go = go [] tt
turn-Emits p (suc i) [] later s go = go [] tt
turn-Emits p zero (ready a ∷ ts) later s go = go (ready a ∷ ts) s
turn-Emits p zero (awaits r k ∷ ts) later (here, s) go = λ x. go (k x ∷ ts) (here x, s)
turn-Emits p zero (emits m t ∷ ts) later ((passes, here), s) go = (passes, go (t ∷ ts) (here, s))
turn-Emits p (suc i) (t ∷ ts) later (here, s) go =
    turn-Emits p i ts (λ us. later (t ∷ us)) s (λ us v. go (t ∷ us) (here, v))

-- Whatever the turns, no metric is recorded but by one of the futures.
pub collect_ordered-Emits :
    (turns : List ℕ) {A : Type 0} (p : Metric → Bool) (ts : List (Future A))
    → All (Emits p) ts
    → Emits p (collect_ordered turns ts)
unfolding collect_ordered
collect_ordered-Emits [] p ts s = in_order-Emits p ts s
collect_ordered-Emits (i ∷ turns) p ts s =
    turn-Emits p i ts (collect_ordered turns) s (λ us v. collect_ordered-Emits turns p us v)
