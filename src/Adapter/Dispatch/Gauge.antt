-- ===== src/Adapter/Dispatch/Gauge.antt =====
-- Which heights the gauge shows.
use ibc_attestor.Common.{ℕ, ◌≡◌, ◌∙◌, ap, List, [], ◌∷◌, ◌++◌, Result, ok, err, min}
use ibc_attestor.Common.Int.{pos}
use ibc_attestor.Adapter.Dispatch.{
  AdapterEnum, inner, gauge_height, i64_max, get_last_height_at_configured_finality,
}
use ibc_attestor.Crates.{Crates}
use ibc_attestor.Error.{AttestationAdapterError}
use ibc_attestor.Future.Runs.{Happening, emitted, Run, Run-bind}
use ibc_attestor.World.{finalized_height}

-- What the gauge receives for a result.
abbrev pub gauged : Result AttestationAdapterError ℕ → List Happening
gauged (ok height) = emitted (finalized_height (pos (min height i64_max))) ∷ []
gauged (err e) = []

gauge_height-gauged :
    (v r : Result AttestationAdapterError ℕ) (h : List Happening)
    → Run (gauge_height v) h r
    → (v ≡ r) × (h ≡ gauged v)
gauge_height-gauged (ok height) r h (l, e, (f, same)) = (same, rw f at e)
gauge_height-gauged (err e) r h (f, same) = (same, f)

-- The chosen adapter's height is passed on unchanged, and so is its error. The gauge receives the
-- height, capped at `i64::MAX`, exactly where there is one, after all that the adapter did.
pub adapter_enum_height-gauged :
    (c : Crates) (self : AdapterEnum) (h : List Happening) (r : Result AttestationAdapterError ℕ)
    → Run (get_last_height_at_configured_finality c self) h r
    → (k : List Happening) × Run (inner c self).get_last_height_at_configured_finality k r
      × (h ≡ k ++ gauged r)
unfolding get_last_height_at_configured_finality
adapter_enum_height-gauged c self h r run =
    let s = Run-bind (inner c self).get_last_height_at_configured_finality gauge_height h r run in
    let (same, e) = gauge_height-gauged s.value r s.second s.after in
    (s.first, rw same at s.before, s.joined ∙ ap (λ l. s.first ++ l) (rw same at e))
