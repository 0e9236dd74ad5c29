-- ===== src/Rpc/Health.antt =====
-- The health server of apps/ibc-attestor/src/rpc/health.rs: its filters and what they answer. The
-- server that runs them, and its shutdown, are of the warp crate.
pub mod Routes
use ibc_attestor.Common.{String, ◌≡◌, ◌≢◌, Option, none, some, Result, ok, err, Bytes}
use ibc_attestor.Future.{Future, ready, ask, bind, fmap}
use ibc_attestor.Metrics.Registry.{Prometheus, Metrics, encode_text}
use ibc_attestor.World.{tcp_connect}

-- `StatusCode::OK` and `StatusCode::SERVICE_UNAVAILABLE`
pub data StatusCode : Type 0 where
  ok_200 service_unavailable_503 : StatusCode

-- The match on what the connection gave.
abbrev pub status_of : Result String (Unit {0}) → StatusCode
status_of (ok u) = ok_200
status_of (err e) = service_unavailable_503

unfoldable pub check_grpc : String → Future StatusCode
check_grpc grpc_addr = fmap status_of (ask (tcp_connect grpc_addr))

-- What is handed to warp as a reply: a status, or a body with one header.
pub data Reply : Type 0 where
  status : StatusCode → Reply
  with_header : Bytes → String → String → Reply

abbrev pub content_type : String
content_type = "text/plain; version=0.0.4"

-- The warp crate: filters that extract a value from a request or reject it, their combinators, and
-- what a filter makes of a request, `none` for a rejection. `route` is the one segment of the path of a
-- GET request whose path has one, and `none` for any other request.
pub record Warp : Type 1 where
  pub HttpRequest : Type 0
  pub route : HttpRequest → Option String
  pub Filter : Type 0 → Type 0
  pub get : Filter (Unit {0})
  pub path : String → Filter (Unit {0})
  pub path_end : Filter (Unit {0})
  pub and : Filter (Unit {0}) → Filter (Unit {0}) → Filter (Unit {0})
  pub map : {A B : Type 0} → Filter A → (A → B) → Filter B
  pub then : {A B : Type 0} → Filter A → (A → Future B) → Filter B
  pub or : {A : Type 0} → Filter A → Filter A → Filter A
  pub filter : {A : Type 0} → Filter A → HttpRequest → Future (Option A)

-- What the crate documents of them.
pub record WarpLaws (w : Warp) : Type 1 where
  pub get_path-matched :
      (s : String) (r : w.HttpRequest)
      → w.route r ≡ some s
      → w.filter (w.and (w.and w.get (w.path s)) w.path_end) r ≡ ready (some tt)
  pub get_path-rejected :
      (s : String) (r : w.HttpRequest)
      → w.route r ≢ some s
      → w.filter (w.and (w.and w.get (w.path s)) w.path_end) r ≡ ready none
  pub filter-map :
      {A B : Type 0} (t : w.Filter A) (g : A → B) (r : w.HttpRequest)
      → w.filter (w.map t g) r
        ≡ bind (w.filter t r) (λ o. elim o [ none ↦ ready none | some a ↦ ready (some (g a)) ])
  pub filter-then :
      {A B : Type 0} (t : w.Filter A) (g : A → Future B) (r : w.HttpRequest)
      → w.filter (w.then t g) r
        ≡ bind
            (w.filter t r)
            (λ o. elim o [ none ↦ ready none | some a ↦ fmap (λ b. some b) (g a) ])
  pub filter-or :
      {A : Type 0} (t u : w.Filter A) (r : w.HttpRequest)
      → w.filter (w.or t u) r
        ≡ bind (w.filter t r) (λ o. elim o [ none ↦ w.filter u r | some a ↦ ready (some a) ])

module _ (w : Warp) where
  unfoldable pub make_healthz_filter : String → w.Filter StatusCode
  make_healthz_filter grpc_addr =
      w.then (w.map (w.and (w.and w.get (w.path "healthz")) w.path_end) (λ u. grpc_addr)) check_grpc

  -- The metrics are those of the time of the request.
  unfoldable pub make_metrics_filter : (x : Prometheus) → Option (Metrics x) → w.Filter Reply
  make_metrics_filter x metrics =
      w.map (w.and (w.and w.get (w.path "metrics")) w.path_end)
        (λ u. with_header (encode_text x metrics) "content-type" content_type)

  -- The routes of `start`.
  unfoldable pub routes : (x : Prometheus) → Option (Metrics x) → String → w.Filter Reply
  unfolding make_healthz_filter make_metrics_filter
  routes x metrics grpc_addr =
      w.or (w.map (make_healthz_filter grpc_addr) status) (make_metrics_filter x metrics)
