-- ===== src/Metrics/Tracking.antt =====
-- What the tracking of a request adds to it.
use ibc_attestor.Common.{ℕ, ◌-◌, ◌≡◌, refl, sym, ap, String, List, [], ◌∷◌, ◌++◌, Result, ok, err}
use ibc_attestor.Crates.{Crates}
use ibc_attestor.Error.{Code, Status}
use ibc_attestor.Future.{Future, awaits, emits, ready}
use ibc_attestor.Future.Runs.{Happening, answered, emitted, Run, Run-bind}
use ibc_attestor.Metrics.{pascal_to_snake, code_of, code_label, track_rpc}
use ibc_attestor.World.{now, rpc_request}

-- The label that a result is to be counted under: the name of its code in snake case, which is `Ok`
-- for an answer, and for a refusal that of its status.
abbrev pub result_label : Crates → {A : Type 0} → Result Status A → List ℕ
result_label c (ok a) = pascal_to_snake (c.code_debug Code.ok)
result_label c (err status) = pascal_to_snake (c.code_debug status.code)

code_label-result_label :
    (c : Crates) {A : Type 0} (r : Result Status A) → code_label c (code_of r) ≡ result_label c r
code_label-result_label c (ok a) = refl
code_label-result_label c (err status) = refl

-- A tracked run of a request: two readings of the clock around a run of the request itself, and its
-- metric.
pub record Tracked (c : Crates) {A : Type 0} (method : String) (fut : Future (Result Status A))
    (h : List Happening) (r : Result Status A) : Type 0 where
  pub start : ℕ
  pub end : ℕ
  pub inside : List Happening
  pub run : Run fut inside r
  pub around :
      h
      ≡ answered now start
        ∷ (inside
            ++ (answered now end
                ∷ emitted (rpc_request method (result_label c r) (end - start))
                ∷ []))

-- A tracked request ends with its own result, and the metric after it has the method, the label of
-- the result's code, which is `Ok` for an answer, and the time between the two readings, which is
-- also what is returned.
pub track_rpc-Tracked :
    (c : Crates) {A : Type 0} (method : String) (fut : Future (Result Status A))
    (h : List Happening) (r : Result Status A) (elapsed : ℕ)
    → Run (track_rpc c method fut) h (r, elapsed)
    → (t : Tracked c method fut h r) × (elapsed ≡ t.end - t.start)
unfolding track_rpc
track_rpc-Tracked c {A} method fut h r elapsed (start, k, e, run) =
    let after : Result Status A → Future (Result Status A × ℕ) = λ result. awaits now λ end.
      emits (rpc_request method (code_label c (code_of result)) (end - start))
        (ready (result, end - start)) in
    let s = Run-bind fut after k (r, elapsed) run in
    let (end, l, i, (m, j, (last, same))) = s.after in
    let value : s.value ≡ r = ap (λ x. x.0) same in
    (
      record {
        start = start;
        end = end;
        inside = s.first;
        run = rw value at s.before;
        around =
            rw e
              (rw s.joined (rw i (rw j (rw last (rw (value, code_label-result_label c r) refl)))));
      },
      ap (λ x. x.1) (sym same),
    )
