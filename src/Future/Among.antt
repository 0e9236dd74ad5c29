-- ===== src/Future/Among.antt =====
-- Runs whose happenings are among those of another, interleaved with it.
use ibc_attestor.Common.{◌≡◌, refl, List, [], ◌∷◌, ◌++◌}
use mathlib.Core.List.{append_assoc}
use ibc_attestor.Future.{Future}
use ibc_attestor.Future.Runs.{Happening, Run, RunsIn, Occurs, Within}

-- The happenings `k` are some of `h`, in the same order.
abbrev pub Sub : List Happening → List Happening → Type 0
Sub [] h = Unit {0}
Sub (e ∷ k) h = (h₁ : List Happening) × (h₂ : List Happening) × (h ≡ h₁ ++ (e ∷ h₂)) × Sub k h₂

pub Sub-append_right : (k h before : List Happening) → Sub k h → Sub k (before ++ h)
Sub-append_right [] h before s = tt
Sub-append_right (e ∷ k) h before (h₁, h₂, j, s) = (before ++ h₁, h₂, rw j (simp append_assoc), s)

pub Sub-append_left : (k h after : List Happening) → Sub k h → Sub k (h ++ after)
Sub-append_left [] h after s = tt
Sub-append_left (e ∷ k) h after (h₁, h₂, j, s) =
    (h₁, h₂ ++ after, rw j (simp append_assoc), Sub-append_left k h₂ after s)

pub Sub-refl : (h : List Happening) → Sub h h
Sub-refl [] = tt
Sub-refl (e ∷ h) = ([], h, refl, Sub-refl h)

-- Where the head of a part lies.
Sub-split :
    (before rest l : List Happening) (e : Happening)
    → Sub (before ++ (e ∷ rest)) l
    → Sub (e ∷ rest) l
Sub-split [] rest l e s = s
Sub-split (x ∷ before) rest l e (l₁, l₂, j, s) =
    let (m₁, m₂, i, t) = Sub-split before rest l₂ e s in
    (l₁ ++ (x ∷ m₁), m₂, rw j (rw i (simp append_assoc)), t)

pub Sub-trans : (k h l : List Happening) → Sub k h → Sub h l → Sub k l
Sub-trans [] h l s t = tt
Sub-trans (e ∷ k) h l (h₁, h₂, j, s) t =
    let (l₁, l₂, i, u) = Sub-split h₁ h₂ l e (rw j at t) in (l₁, l₂, i, Sub-trans k h₂ l₂ s u)

-- A run of the future that ends with the value, whose happenings are some of `h`, in the same order.
abbrev pub RunsAmong : {A : Type 0} → List Happening → Future A → A → Type 0
RunsAmong h t a = (k : List Happening) × Run t k a × Sub k h

pub Sub-Within : (k h : List Happening) → Within k h → Sub k h
Sub-Within k h (h₁, h₂, j) =
    rw j (Sub-append_right k (k ++ h₂) h₁ (Sub-append_left k k h₂ (Sub-refl k)))

pub RunsAmong-of_part :
    {A : Type 0} (t : Future A) (a : A) (h : List Happening) → RunsIn t a h → RunsAmong h t a
RunsAmong-of_part t a h (k, run, w) = (k, run, Sub-Within k h w)

pub RunsAmong-Sub :
    {A : Type 0} (t : Future A) (a : A) (k h : List Happening)
    → Sub k h
    → RunsAmong k t a
    → RunsAmong h t a
RunsAmong-Sub t a k h s (l, run, u) = (l, run, Sub-trans l k h u s)

pub Occurs-Sub : (e : Happening) (k h : List Happening) → Occurs e k → Sub k h → Occurs e h
Occurs-Sub e k h (k₁, k₂, j) s =
    let (h₁, h₂, i, rest) = Sub-split k₁ k₂ h e (rw j at s) in (h₁, h₂, i)
