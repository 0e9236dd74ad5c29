-- ===== src/Tests/Health.antt =====
-- Requests to the health server.
use text.Mathlib.Text.{◌==◌}
use ibc_attestor.Common.{String, Bool, true, false, Option, none, some, List, if◌then◌else◌}
use ibc_attestor.Future.{Future, ready, bind, fmap}
use ibc_attestor.Future.Runs.{Happening, run}
use ibc_attestor.Rpc.Health.{Reply, status, service_unavailable_503, Warp, routes}
use ibc_attestor.Tests.Counting.{toy}
use ibc_attestor.Tests.Outside.{chain}

-- A request is its route here, and a filter what it makes of a request.
abbrev tests : Bool → Future (Option (Unit {0}))
tests b = ready (if b then some tt else none)

abbrev has_route : String → Option String → Bool
has_route s none = false
has_route s (some t) = t == s

abbrev warp : Warp
warp = record {
  HttpRequest = Option String;
  route = λ r. r;
  Filter = λ A. Option String → Future (Option A);
  get = λ r. tests true;
  path = λ s r. tests (has_route s r);
  path_end = λ r. tests true;
  and = λ t u r. bind (t r) (λ o. elim o [ none ↦ ready none | some a ↦ u r ]);
  map = λ t g r. bind (t r) (λ o. elim o [ none ↦ ready none | some a ↦ ready (some (g a)) ]);
  then =
      λ t g r. bind (t r) (λ o. elim o [ none ↦ ready none | some a ↦ fmap (λ b. some b) (g a) ]);
  or = λ t u r. bind (t r) (λ o. elim o [ none ↦ u r | some a ↦ ready (some a) ]);
  filter = λ t r. t r;
}

-- The gRPC server does not accept the connection.
abbrev request : Option String
request = some "healthz"

abbrev health_run : List Happening
health_run = (run chain 0 (warp.filter (routes warp toy none "127.0.0.1:9000") request)).0

abbrev unavailable : Option Reply
unavailable = some (status service_unavailable_503)
