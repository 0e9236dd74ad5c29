-- ===== src/Tests/Requests.antt =====
-- Tracked requests and their labels.
use ibc_attestor.Common.{ℕ, ◌≡◌, refl, List, [], ◌∷◌, arith, inl, inr, Result, ok}
use ibc_attestor.Adapter.Dispatch
use ibc_attestor.Adapter.Evm
use ibc_attestor.Adapter.Retry.{with_retry_backoff}
use ibc_attestor.Error.{Status}
use ibc_attestor.Future.{Future}
use ibc_attestor.Future.Runs.{Happening, run, run-Run}
use ibc_attestor.Metrics.{pascal_to_snake, track_rpc}
use ibc_attestor.Metrics.Labels.{IsPascal, snake_to_pascal, snake_to_pascal-pascal_to_snake}
use ibc_attestor.Metrics.Tracking.{Tracked}
use ibc_attestor.Rpc.{LatestHeightResponse}
use ibc_attestor.Rpc.Attestor
use ibc_attestor.Rpc.Middleware
use ibc_attestor.Rpc.Middleware.{LoggingMiddleware}
use ibc_attestor.Rpc.Middleware.Passed.{latest, middleware-Tracked}
use ibc_attestor.Tests.{crates, retry_if, delays_from}
use ibc_attestor.Tests.Attesting.{service}
use ibc_attestor.Tests.Outside.{chain}

-- "NotFound"
abbrev name : List ℕ
name = 78 ∷ 111 ∷ 116 ∷ 70 ∷ 111 ∷ 117 ∷ 110 ∷ 100 ∷ []

-- "not_found"
abbrev label : List ℕ
label = 110 ∷ 111 ∷ 116 ∷ 95 ∷ 102 ∷ 111 ∷ 117 ∷ 110 ∷ 100 ∷ []

pascal_to_snake_run : pascal_to_snake name ≡ label
unfolding pascal_to_snake
pascal_to_snake_run = refl

name-IsPascal : IsPascal name
name-IsPascal = (
  (omega arith, omega arith),
  (
    inr (omega arith, omega arith),
    (
      inr (omega arith, omega arith),
      (
        inl (omega arith, omega arith),
        (
          inr (omega arith, omega arith),
          (
            inr (omega arith, omega arith),
            (inr (omega arith, omega arith), (inr (omega arith, omega arith), tt)),
          ),
        ),
      ),
    ),
  ),
)

snake_to_pascal-pascal_to_snake_example : snake_to_pascal (pascal_to_snake name) ≡ name
snake_to_pascal-pascal_to_snake_example = snake_to_pascal-pascal_to_snake name name-IsPascal

abbrev request : Future (Result Status LatestHeightResponse)
request = Attestor.latest_height crates service

abbrev answer : Result Status LatestHeightResponse
answer = ok (record { height = 100 })

abbrev middleware : LoggingMiddleware crates
middleware = record { inner = service }

abbrev tracked_run : List Happening
tracked_run = (run chain 0 (Middleware.latest_height crates middleware)).0

middleware-Tracked_example : Tracked crates "latest_height" request tracked_run answer
unfolding run Middleware.latest_height track_rpc Attestor.latest_height
    Dispatch.get_last_height_at_configured_finality Evm.get_last_height_at_configured_finality
    with_retry_backoff retry_if delays_from
middleware-Tracked_example =
    middleware-Tracked crates middleware latest tracked_run answer
      (run-Run chain 0 (Middleware.latest_height crates middleware))
