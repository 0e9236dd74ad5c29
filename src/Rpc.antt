-- ===== src/Rpc.antt =====
-- The messages of proto/ibc_attestor, which the service of apps/ibc-attestor/src/rpc answers.
pub mod Attestor
pub mod Middleware
pub mod Health
pub mod Interceptor
use ibc_attestor.Common.{ℕ, zero, suc, String, Option, List, Result, ok, err, Bytes}
use ibc_attestor.Common.Int.{ℤ, pos, negsuc}
use ibc_attestor.Adapter.{CommitmentType, packet, ack, receipt}

pub record Attestation : Type 0 where
  pub height : ℕ
  pub timestamp : Option ℕ
  pub attested_data : Bytes
  pub signature : Bytes

pub record LatestHeightResponse : Type 0 where
  pub height : ℕ

pub record StateAttestationRequest : Type 0 where
  pub height : ℕ

pub record StateAttestationResponse : Type 0 where
  pub attestation : Option Attestation

-- The commitment type is the number that came over the wire.
pub record PacketAttestationRequest : Type 0 where
  pub packets : List Bytes
  pub height : ℕ
  pub commitment_type : ℤ

pub record PacketAttestationResponse : Type 0 where
  pub attestation : Option Attestation

-- `CommitmentType::try_from`, with the numbers of the proto file.
unfoldable pub commitment_type_try_from : ℤ → Result ℤ CommitmentType
commitment_type_try_from (pos zero) = ok packet
commitment_type_try_from (pos (suc zero)) = ok ack
commitment_type_try_from (pos (suc (suc zero))) = ok receipt
commitment_type_try_from value = err value
