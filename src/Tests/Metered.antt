-- ===== src/Tests/Metered.antt =====
-- A refused call, and the registry after it.
use ibc_attestor.Common.{suc, ◌≡◌, some, err, List, [], ◌∷◌, Result, if◌then◌else◌}
use ibc_attestor.Common.Text.{codes}
use ibc_attestor.Adapter.Dispatch
use ibc_attestor.Adapter.Evm
use ibc_attestor.Adapter.Retry.{with_retry_backoff}
use ibc_attestor.Error.{AttestorError, Status}
use ibc_attestor.Future.Emitted.{metrics_of}
use ibc_attestor.Future.Runs.{Happening, run, run-Run}
use ibc_attestor.Metrics.{track_rpc}
use ibc_attestor.Metrics.Tracking.{result_label}
use ibc_attestor.Metrics.Registry.{Metrics, Labels, eq_labels, new}
use ibc_attestor.Rpc.{StateAttestationRequest, StateAttestationResponse}
use ibc_attestor.Rpc.Attestor
use ibc_attestor.Rpc.Attestor.Refused.{status_of}
use ibc_attestor.Rpc.Middleware
use ibc_attestor.Rpc.Middleware.{LoggingMiddleware}
use ibc_attestor.Rpc.Middleware.Passed.{state}
use ibc_attestor.Servers.{logging_service}
use ibc_attestor.Servers.Counted.{record_all, handle-counted}
use ibc_attestor.Tests.{crates, retry_laws, collect_laws, retry_if, delays_from}
use ibc_attestor.Tests.Counting.{toy, toy_laws}
use ibc_attestor.Tests.Outside.{chain}
use ibc_attestor.Tests.Serving.{loaded}

-- A height that is one beyond the finalized one.
abbrev request : StateAttestationRequest
request = record { height = 101 }

abbrev middleware : LoggingMiddleware crates
middleware = logging_service toy crates loaded

abbrev refused : Result Status StateAttestationResponse
refused = err (status_of crates AttestorError.block_not_finalized)

abbrev call_run : List Happening
call_run = (run chain 0 (Middleware.state_attestation crates middleware request)).0

abbrev before : Metrics toy
before = new toy "evm" "local"

-- The label values of the refused call.
abbrev labels : Labels
labels = codes "state_attestation" ∷ result_label crates refused ∷ []

handle-counted_example :
    (after : Metrics toy) × (record_all toy (metrics_of call_run) (some before) ≡ some after)
    × (after.rpc_requests_total labels ≡ (
        if eq_labels labels labels
        then suc (before.rpc_requests_total labels)
        else before.rpc_requests_total labels))
    × (after.rpc_request_duration_seconds labels ≡ (
        if eq_labels (codes "state_attestation" ∷ []) labels
        then suc (before.rpc_request_duration_seconds labels)
        else before.rpc_request_duration_seconds labels))
unfolding run Middleware.state_attestation track_rpc Attestor.state_attestation
    Attestor.validate_height Dispatch.get_last_height_at_configured_finality
    Evm.get_last_height_at_configured_finality with_retry_backoff retry_if delays_from
handle-counted_example =
    handle-counted crates retry_laws collect_laws toy loaded toy_laws (state request) call_run
      refused (run-Run chain 0 (Middleware.state_attestation crates middleware request)) before
      labels
