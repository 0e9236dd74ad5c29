-- ===== src/Rpc/Middleware.antt =====
-- `LoggingMiddleware` of apps/ibc-attestor/src/rpc/middleware.rs, without its log lines.
pub mod Passed
use ibc_attestor.Common.{String, Result, List, ◌≡◌, refl}
use ibc_attestor.Crates.{Crates}
use ibc_attestor.Error.{Status}
use ibc_attestor.Future.{Future, fmap}
use ibc_attestor.Metrics.{track_rpc}
use ibc_attestor.Rpc.{
  LatestHeightResponse, StateAttestationRequest, StateAttestationResponse, PacketAttestationRequest,
  PacketAttestationResponse,
}
use ibc_attestor.Rpc.Attestor
use ibc_attestor.Rpc.Attestor.{AttestorService}

pub record LoggingMiddleware (c : Crates) : Type 0 where
  pub inner : AttestorService c

-- `LoggingMiddleware::new`
abbrev pub new : (c : Crates) → AttestorService c → LoggingMiddleware c
new c inner = record { inner = inner }

module _ (c : Crates) (self : LoggingMiddleware c) where
  unfoldable pub latest_height : Future (Result Status LatestHeightResponse)
  latest_height =
      fmap (λ (result, elapsed). result)
        (track_rpc c "latest_height" (Attestor.latest_height c self.inner))

  unfoldable pub state_attestation :
      StateAttestationRequest → Future (Result Status StateAttestationResponse)
  state_attestation request =
      fmap (λ (result, elapsed). result)
        (track_rpc c "state_attestation" (Attestor.state_attestation c self.inner request))

  unfoldable pub packet_attestation :
      PacketAttestationRequest → Future (Result Status PacketAttestationResponse)
  packet_attestation request =
      fmap (λ (result, elapsed). result)
        (track_rpc c "packet_attestation" (Attestor.packet_attestation c self.inner request))
