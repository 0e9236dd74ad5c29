-- ===== src/Metrics.antt =====
-- The request metrics of apps/ibc-attestor/src/metrics.rs. A text is the list of its bytes.
pub mod Labels
pub mod Tracking
pub mod Registry
use ibc_attestor.Common.{
  ℕ, zero, suc, ◌+◌, ◌-◌, Bool, false, String, List, [], ◌∷◌, ◌++◌, Result, ok, err, leb, ◌&&◌,
  ◌==◌, if◌then◌else◌,
}
use ibc_attestor.Crates.{Crates}
use ibc_attestor.Error.{Code, Status}
use ibc_attestor.Future.{Future, ready, awaits, emits, bind, ask}
use ibc_attestor.World.{now, rpc_request}

abbrev pub is_ascii_uppercase : ℕ → Bool
is_ascii_uppercase b = if leb 65 b then leb b 90 else false

abbrev pub to_ascii_lowercase : ℕ → ℕ
to_ascii_lowercase b = if is_ascii_uppercase b then b + 32 else b

-- The loop of `pascal_to_snake`, from the byte at position `i` on.
unfoldable pub snake_from : ℕ → List ℕ → List ℕ
snake_from i [] = []
snake_from zero (b ∷ s) = to_ascii_lowercase b ∷ snake_from 1 s
snake_from (suc i) (b ∷ s) =
    let rest = snake_from (suc (suc i)) s in
    if is_ascii_uppercase b then 95 ∷ to_ascii_lowercase b ∷ rest else to_ascii_lowercase b ∷ rest

unfoldable pub pascal_to_snake : List ℕ → List ℕ
unfolding snake_from
pascal_to_snake s = snake_from 0 s

-- The code that a result is counted under.
abbrev pub code_of : {A : Type 0} → Result Status A → Code
code_of (ok a) = Code.ok
code_of (err status) = status.code

module _ (c : Crates) where
  abbrev pub code_label : Code → List ℕ
  code_label code = pascal_to_snake (c.code_debug code)

  -- The time that passes between the two readings of the clock.
  unfoldable pub track_rpc :
      {A : Type 0} → String → Future (Result Status A) → Future (Result Status A × ℕ)
  track_rpc method fut = awaits now λ start. bind fut λ result. awaits now λ end.
      let elapsed = end - start in
      emits (rpc_request method (code_label (code_of result)) elapsed) (ready (result, elapsed))
