-- ===== src/Rpc/Attestor/Heights.antt =====
-- Which heights the service attests to.
use ibc_attestor.Common.{
  ℕ, suc, ◌+◌, ◌-◌, ◌∙◌, ◌≤◌, ◌<◌, ◌≡◌, sym, ◌⊎◌, inl, inr, List, [], ◌∷◌, ◌++◌, Result, ok, err,
  arith, min, map_err, ltb, ltb→lt, ltb→le, Bool-cases,
}
use native.Mathlib.Decide.{dec_lt}
use ibc_attestor.Common.Int.{ℤ, pos, negsuc, sub_ℕ}
use ibc_attestor.Adapter.{AttestationAdapter}
use ibc_attestor.Error.{AttestorError, AttestationAdapterError, adapter_error}
use ibc_attestor.Future.{fmap}
use ibc_attestor.Future.Errors.{Run-map_err-ok, Run-map_err-err}
use ibc_attestor.Future.Runs.{Happening, emitted, Run, >>=-cases, RunsIn, RunsIn-first, RunsIn-all}
use ibc_attestor.Rpc.Attestor.{lag, compare_height, validate_height}
use ibc_attestor.World.{height_lag, height_rejection}

-- The largest height that an `i64` holds.
abbrev pub largest : ℕ
largest = 9_223_372_036_854_775_807

-- The lag of a requested height behind the finalized one, each capped at the largest `i64`: how much
-- the finalized one is beyond it, or the negated number by which it is beyond the finalized one.
abbrev pub IsLag : ℕ → ℕ → ℤ → Type 0
IsLag finalized height (pos n) = min finalized largest ≡ min height largest + n
IsLag finalized height (negsuc n) = min finalized largest + suc n ≡ min height largest

-- The subtraction of capped heights never saturates.
lag_lem :
    (finalized height : ℕ)
    → lag finalized height ≡ sub_ℕ (min finalized largest) (min height largest)
unfolding lag
lag_lem finalized height = ground arith

sub_ℕ-cases :
    (a b : ℕ) → ((b ≤ a) × (sub_ℕ a b ≡ pos (a - b))) ⊎ ((a < b) × (sub_ℕ a b ≡ negsuc (b - a - 1)))
sub_ℕ-cases a b = elim (dec_lt a b) [
  | yes below ↦ inr (below, ground arith)
  | no above ↦ inl (omega arith, ground arith)
]

lag-IsLag : (finalized height : ℕ) → IsLag finalized height (lag finalized height)
lag-IsLag finalized height =
    let a = min finalized largest in
    let b = min height largest in
    let same = lag_lem finalized height in
    elim (sub_ℕ-cases a b) [
      | inl (within, e) ↦ rw (same ∙ e) (omega arith)
      | inr (beyond, e) ↦ rw (same ∙ e) (omega arith)
    ]

-- How the comparison with the finalized height ends, where `k` happened before it.
abbrev pub Compared :
    ℕ → ℕ → List Happening → List Happening → Result AttestorError (Unit {0}) → Type 0
Compared height finalized k h r =
    ((lag : ℤ) × IsLag finalized height lag
      × (height ≤ finalized)
      × (r ≡ ok tt)
      × (h ≡ k ++ (emitted (height_lag lag) ∷ [])))
    ⊎ ((lag : ℤ) × IsLag finalized height lag
        × (finalized < height)
        × (r ≡ err AttestorError.block_not_finalized)
        × (h ≡ k ++ (emitted (height_lag lag) ∷ emitted height_rejection ∷ [])))

compare_height-Compared :
    (height finalized : ℕ) (k l h : List Happening) (r : Result AttestorError (Unit {0}))
    → h ≡ k ++ l
    → Run (compare_height height finalized) l r
    → Compared height finalized k h r
unfolding compare_height
compare_height-Compared height finalized k l h r joined (m, j, run) =
    elim (Bool-cases (ltb finalized height)) [
      | inl beyond ↦
          let (n, i, (e, p)) = rw beyond at run in
          inr (
            lag finalized height,
            lag-IsLag finalized height,
            ltb→lt finalized height beyond,
            sym p,
            rw joined (rw j (rw i (rw e))),
          )
      | inr within ↦
          let (e, p) = rw within at run in
          inl (
            lag finalized height,
            lag-IsLag finalized height,
            ltb→le finalized height within,
            sym p,
            rw joined (rw j (rw e)),
          )
    ]

-- How a validation of a height may end.
abbrev pub Validated :
    AttestationAdapter → ℕ → List Happening → Result AttestorError (Unit {0}) → Type 0
Validated adapter height h r =
    ((e : AttestationAdapterError) × RunsIn adapter.get_last_height_at_configured_finality (err e) h
      × (r ≡ err (adapter_error e)))
    ⊎ ((finalized : ℕ) × (k : List Happening) × Run adapter.get_last_height_at_configured_finality k
          (ok finalized)
        × Compared height finalized k h r)

-- A validation of a height fails with the adapter's error, or else compares the height with the
-- finalized one that the adapter returned: it passes exactly if the height is not beyond it, and
-- observes the lag, which is the finalized height less the requested one, each capped at the
-- largest `i64`, and negative where the requested one is beyond. A height beyond it is `BlockNotFinalized`, and is counted as a rejection.
pub validate_height-Validated :
    (adapter : AttestationAdapter) (height : ℕ) (h : List Happening)
    (r : Result AttestorError (Unit {0}))
    → Run (validate_height adapter height) h r
    → Validated adapter height h r
unfolding validate_height
validate_height-Validated adapter height h r run =
    let asked = adapter.get_last_height_at_configured_finality in
    elim (>>=-cases (fmap (map_err adapter_error) asked) (compare_height height) h r run) [
      | inl (e, (k, failed, w), refused) ↦
          let (d, p, same) = Run-map_err-err adapter_error asked k e failed in
          inl (d, (k, p, w), rw same refused)
      | inr s ↦ inr (
        s.value,
        s.first,
        Run-map_err-ok adapter_error asked s.first s.value s.before,
        compare_height-Compared height s.value s.first s.second h r s.joined s.after,
      )
    ]

-- A validation that passes: the adapter returned a finalized height, and the height is not beyond.
pub validate_height-passed :
    (adapter : AttestationAdapter) (height : ℕ) (h : List Happening)
    → Run (validate_height adapter height) h (ok tt)
    → (finalized : ℕ) × RunsIn adapter.get_last_height_at_configured_finality (ok finalized) h
      × (height ≤ finalized)
validate_height-passed adapter height h run =
    elim (validate_height-Validated adapter height h (ok tt) run) [
      | inl (e, p, refused) ↦ cc
      | inr (finalized, k, p, inl (lag, lagging, within, passed, j)) ↦ (
        finalized,
        RunsIn-first _ (ok finalized) h k _ j (RunsIn-all _ (ok finalized) k p),
        within,
      )
      | inr (finalized, k, p, inr (lag, lagging, beyond, refused, j)) ↦ cc
    ]
