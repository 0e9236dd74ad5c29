-- ===== src/Future/Errors.antt =====
-- Runs of a future whose error is converted on the way, as `?` and `map_err` do.
use ibc_attestor.Common.{◌≡◌, List, Result, ok, err, map_err, map_err-eq-ok, map_err-eq-err}
use ibc_attestor.Future.{Future, fmap}
use ibc_attestor.Future.Runs.{Happening, Run, Run-fmap}

module _ {E F A : Type 0} (f : E → F) (t : Future (Result E A)) (h : List Happening) where
  pub Run-map_err-ok : (a : A) → Run (fmap (map_err f) t) h (ok a) → Run t h (ok a)
  Run-map_err-ok a run =
      let (r, p, e) = Run-fmap (map_err f) t h (ok a) run in rw (map_err-eq-ok f r a e) at p

  pub Run-map_err-err :
      (e : F) → Run (fmap (map_err f) t) h (err e) → (d : E) × Run t h (err d) × (f d ≡ e)
  Run-map_err-err e run =
      let (r, p, q) = Run-fmap (map_err f) t h (err e) run in
      let (d, same, i) = map_err-eq-err f r e q in (d, rw same at p, i)
