-- ===== src/Rpc/Health/Routes.antt =====
-- What the health server answers.
use ibc_attestor.Common.{String, ◌≡◌, ◌≢◌, ◌⊎◌, Option, none, some, List, [], ◌∷◌, ok, err}
use ibc_attestor.Future.Runs.{Happening, answered}
use ibc_attestor.Metrics.Registry.{Prometheus, Metrics, encode_text}
use ibc_attestor.Rpc.Health.{
  Reply, status, with_header, ok_200, service_unavailable_503, Warp, WarpLaws,
}
use ibc_attestor.World.{tcp_connect}

-- The answer to a health check: 200 where the gRPC server accepted the connection, and else 503.
abbrev pub Checked : String → List Happening → Option Reply → Type 0
Checked grpc_addr h reply =
    ((h ≡ answered (tcp_connect grpc_addr) (ok tt) ∷ []) × (reply ≡ some (status ok_200)))
    ⊎ ((reason : String) × (h ≡ answered (tcp_connect grpc_addr) (err reason) ∷ [])
        × (reply ≡ some (status service_unavailable_503)))

-- How a request to the health server ends. A GET of `/healthz` alone makes a connection to the gRPC
-- server, and has the status for it; one of `/metrics` has the text of the metrics; any other request
-- is rejected. The last two ask nothing.
abbrev pub Answers :
    (x : Prometheus)
    → Option (Metrics x)
    → String
    → Option String
    → List Happening
    → Option Reply
    → Type 0
Answers x metrics grpc_addr route h reply =
    ((route ≡ some "healthz") × Checked grpc_addr h reply)
    ⊎ (((route ≡ some "metrics")
          × (h ≡ [])
          × (reply
              ≡ some
                  (with_header (encode_text x metrics) "content-type" "text/plain; version=0.0.4")))
        ⊎ ((route ≢ some "healthz") × (route ≢ some "metrics") × (h ≡ []) × (reply ≡ none)))

-- The two routes differ, and whether a request has a route can be told.
abbrev healthz_segment : String
healthz_segment = "healthz"

abbrev metrics_segment : String
metrics_segment = "metrics"

module _ (w : Warp) (laws : WarpLaws w) (x : Prometheus) (metrics : Option (Metrics x))
    (grpc_addr : String) (request : w.HttpRequest) (h : List Happening) (reply : Option Reply) where
  -- What the routes make of a request, by what each of the two first tests makes of it.
  abbrev tested : String → w.Filter (Unit {0})
  tested s = w.and (w.and w.get (w.path s)) w.path_end
