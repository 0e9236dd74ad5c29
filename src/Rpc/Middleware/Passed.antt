-- ===== src/Rpc/Middleware/Passed.antt =====
-- The middleware changes no answer, and counts each request.
use ibc_attestor.Common.{String, Result, List}
use ibc_attestor.Crates.{Crates}
use ibc_attestor.Error.{Status}
use ibc_attestor.Future.{Future, fmap}
use ibc_attestor.Future.Runs.{Happening, Run, Run-fmap}
use ibc_attestor.Metrics.{track_rpc}
use ibc_attestor.Metrics.Tracking.{Tracked, track_rpc-Tracked}
use ibc_attestor.Rpc.{
  LatestHeightResponse, StateAttestationRequest, StateAttestationResponse, PacketAttestationRequest,
  PacketAttestationResponse,
}
use ibc_attestor.Rpc.Attestor
use ibc_attestor.Rpc.Attestor.{AttestorService}
use ibc_attestor.Rpc.Middleware.{
  LoggingMiddleware, latest_height, state_attestation, packet_attestation,
}

-- A call of one of the three methods of the service, with its request.
pub data Call : Type 0 where
  latest : Call
  state : StateAttestationRequest → Call
  packets : PacketAttestationRequest → Call

abbrev pub Response : Call → Type 0
Response latest = LatestHeightResponse
Response (state request) = StateAttestationResponse
Response (packets request) = PacketAttestationResponse

-- The name that a call is counted under.
abbrev pub method : Call → String
method latest = "latest_height"
method (state request) = "state_attestation"
method (packets request) = "packet_attestation"

-- A call as the service answers it, and as the middleware does.
abbrev pub serve :
    (c : Crates) → AttestorService c → (call : Call) → Future (Result Status (Response call))
serve c service latest = Attestor.latest_height c service
serve c service (state request) = Attestor.state_attestation c service request
serve c service (packets request) = Attestor.packet_attestation c service request

abbrev pub handle :
    (c : Crates) → LoggingMiddleware c → (call : Call) → Future (Result Status (Response call))
handle c middleware latest = latest_height c middleware
handle c middleware (state request) = state_attestation c middleware request
handle c middleware (packets request) = packet_attestation c middleware request

passed-Tracked :
    (c : Crates) {A : Type 0} (name : String) (fut : Future (Result Status A)) (h : List Happening)
    (r : Result Status A)
    → Run (fmap (λ (result, elapsed). result) (track_rpc c name fut)) h r
    → Tracked c name fut h r
passed-Tracked c name fut h r run =
    let ((result, elapsed), tracked, same) =
      Run-fmap (λ (result, elapsed). result) (track_rpc c name fut) h r run in
    let (t, e) = track_rpc-Tracked c name fut h result elapsed tracked in rw same at t

-- Each call of the middleware ends with the result that the service itself ended with, in a run of
-- the service's own call, and is counted once around that, under its method and the code of that
-- result, with the time between a reading of the clock before it and one after it.
pub middleware-Tracked :
    (c : Crates) (self : LoggingMiddleware c) (call : Call) (h : List Happening)
    (r : Result Status (Response call))
    → Run (handle c self call) h r
    → Tracked c (method call) (serve c self.inner call) h r
unfolding latest_height state_attestation packet_attestation
middleware-Tracked c self latest h r run =
    passed-Tracked c "latest_height" (Attestor.latest_height c self.inner) h r run
middleware-Tracked c self (state request) h r run =
    passed-Tracked c "state_attestation" (Attestor.state_attestation c self.inner request) h r run
middleware-Tracked c self (packets request) h r run =
    passed-Tracked c "packet_attestation" (Attestor.packet_attestation c self.inner request) h r run
