-- ===== src/Metrics/Labels.antt =====
-- No two names have the same label.
use ibc_attestor.Common.{
  ℕ, zero, suc, ◌+◌, ◌-◌, ◌≤◌, ◌≡◌, refl, ap, ◌⊎◌, inl, inr, Bool, true, false, List, [], ◌∷◌, ◌==◌,
  arith, if◌then◌else◌, All,
}
use ibc_attestor.Metrics.{is_ascii_uppercase, snake_from, pascal_to_snake}

-- Letters, and the names that `{:?}` gives of the variants of an enum.
abbrev pub IsUpper : ℕ → Type 0
IsUpper b = (65 ≤ b) × (b ≤ 90)

abbrev pub IsLetter : ℕ → Type 0
IsLetter b = IsUpper b ⊎ ((97 ≤ b) × (b ≤ 122))

abbrev pub IsPascal : List ℕ → Type 0
IsPascal [] = Unit {0}
IsPascal (b ∷ s) = IsUpper b × All IsLetter s

-- The way back, which is not in the program: the byte after an underscore becomes a capital.
abbrev pub words_of : Bool → List ℕ → List ℕ
words_of capital [] = []
words_of capital (b ∷ s) =
    let rest = words_of (b == 95) s in
    if b == 95 then rest else (if capital then b - 32 else b) ∷ rest

abbrev pub snake_to_pascal : List ℕ → List ℕ
snake_to_pascal s = words_of true s

upper_true : (b : ℕ) → IsUpper b → is_ascii_uppercase b ≡ true
upper_true b (low, high) = ground arith

upper_false : (b : ℕ) → 97 ≤ b → is_ascii_uppercase b ≡ false
upper_false b low = ground arith

ne_underscore : (b : ℕ) → 97 ≤ b → (b == 95) ≡ false
ne_underscore b low = ground arith

words_of-snake_from :
    (i : ℕ) (s : List ℕ) → All IsLetter s → words_of false (snake_from (suc i) s) ≡ s
unfolding snake_from
words_of-snake_from i [] letters = refl
words_of-snake_from i (b ∷ s) (inl (low, high), letters) =
    rw
      (
        upper_true b (low, high),
        ne_underscore (b + 32) (omega arith),
        words_of-snake_from (suc i) s letters,
      )
      (ap (λ x. x ∷ s) (omega arith))
words_of-snake_from i (b ∷ s) (inr (low, high), letters) =
    rw (upper_false b low, ne_underscore b low, words_of-snake_from (suc i) s letters) refl

-- The label of a name of an enum's variant, such as a status code's, determines the name: from the
-- label of a name that begins with a capital and has letters only, the name can be read back.
pub snake_to_pascal-pascal_to_snake :
    (s : List ℕ) → IsPascal s → snake_to_pascal (pascal_to_snake s) ≡ s
unfolding pascal_to_snake snake_from
snake_to_pascal-pascal_to_snake [] pascal = refl
snake_to_pascal-pascal_to_snake (b ∷ s) ((low, high), letters) =
    rw
      (
        upper_true b (low, high),
        ne_underscore (b + 32) (omega arith),
        words_of-snake_from zero s letters,
      )
      (ap (λ x. x ∷ s) (omega arith))
