-- ===== src/Servers/Proved.antt =====
-- What the service of a configuration attests of packets, down to the answers of the chain.
use ibc_attestor.Common.{ℕ, ◌≤◌, ◌≡◌, Option, none, List, ok, Bytes, All₂}
use ibc_attestor.Adapter.{CommitmentType}
use ibc_attestor.Adapter.Cosmos.Answers.{Answered, Answered-mono, cosmos_get_commitment-Answered}
use ibc_attestor.Adapter.Dispatch.{AdapterEnum, adapter_enum, evm, solana, cosmos}
use ibc_attestor.Adapter.Evm.Answers.{
  ReadsCommitment, ReadsCommitment-mono, evm_get_commitment-answered,
}
use ibc_attestor.Adapter.Retry.Attempts.{AdapterResult}
use ibc_attestor.Adapter.Solana.Answers.{
  account_for, ReadsAccount, ReadsAccount-mono, failed_text, solana_get_commitment-answered,
}
use ibc_attestor.Attestation.{AttestationType, new}
use ibc_attestor.Common.Int.{pos}
use ibc_attestor.Config.{RuntimeConfig}
use ibc_attestor.Crates.{Crates, RetryLaws, Packet, PacketCompact, PacketAttestation}
use ibc_attestor.Future.Among.{RunsAmong, Occurs-Sub}
use ibc_attestor.Future.Runs.{Happening}
use ibc_attestor.Packets.{Packets, try_from_abi_encoded}
use ibc_attestor.Rpc.{Attestation, PacketAttestationRequest}
use ibc_attestor.Rpc.Attestor.Commitments.{path_of, client_of, lookup, Proves}
use ibc_attestor.Rpc.Attestor.Requests.{kind_number}
use ibc_attestor.Rpc.Attestor.Signed.{IsSigned}
use ibc_attestor.Servers.Served.{ChainAt}
use ibc_attestor.Signer.Dispatch.{signer_enum}

module _ (c : Crates) where
  -- What the chain's client answered for a kind of commitment of a packet, where the adapter's result
  -- is `r`: on an EVM chain for the hashed path at the height, on Solana for the account of the client
  -- and the sequence, on a Cosmos chain for the client, the sequence and the height.
  abbrev pub ChainCommitment :
      AdapterEnum
      → ℕ
      → CommitmentType
      → Packet
      → AdapterResult (Option Bytes)
      → List Happening
      → Type 0
  ChainCommitment (evm a) height kind p r h =
      ReadsCommitment a.config.url a.config.router_address (c.keccak256 (path_of c kind p)) height h
        r
  ChainCommitment (solana a) height kind p r h =
      ReadsAccount a.client (account_for c kind (client_of c kind p) p.sequence a.router_program_id)
        (failed_text (client_of c kind p) p.sequence height) h r
  ChainCommitment (cosmos a) height kind p r h =
      Answered a kind (client_of c kind p) height p.sequence r h

  -- Every result of the configured adapter is read out of the chain's answer.
  pub lookup-ChainCommitment :
      RetryLaws c
      → (a : AdapterEnum) (height : ℕ) (kind : CommitmentType) (p : Packet)
        (r : AdapterResult (Option Bytes)) (h : List Happening)
      → RunsAmong h (lookup c (adapter_enum c a) height kind p) r
      → ChainCommitment a height kind p r h
  lookup-ChainCommitment laws (evm a) height kind p r h (k, run, s) =
      ReadsCommitment-mono a.config.url a.config.router_address (c.keccak256 (path_of c kind p))
        height r k h (λ e o. Occurs-Sub e k h o s)
        (evm_get_commitment-answered c laws a k (client_of c kind p) height p.sequence
          (path_of c kind p) kind r run)
  lookup-ChainCommitment laws (solana a) height kind p r h (k, run, s) =
      ReadsAccount-mono a.client
        (account_for c kind (client_of c kind p) p.sequence a.router_program_id)
        (failed_text (client_of c kind p) p.sequence height) r k h (λ e o. Occurs-Sub e k h o s)
        (solana_get_commitment-answered c laws a k (client_of c kind p) height p.sequence
          (path_of c kind p) kind r run)
  lookup-ChainCommitment laws (cosmos a) height kind p r h (k, run, s) =
      Answered-mono a kind (client_of c kind p) height p.sequence r k h
        (λ e o. Occurs-Sub e k h o s)
        (cosmos_get_commitment-Answered c laws a k (client_of c kind p) height p.sequence
          (path_of c kind p) kind r run)

  -- An entry for a packet, with a commitment that the chain's answer proves.
  abbrev pub Entry :
      AdapterEnum → ℕ → CommitmentType → List Happening → Packet → PacketCompact → Type 0
  Entry a height kind h p compact =
      (found : Option Bytes) × ChainCommitment a height kind p (ok found) h
      × (compact.path ≡ c.keccak256 (path_of c kind p))
      × Proves c kind p found compact.commitment

  -- What the answer to a packet request attests to.
  pub record ProvesPackets (loaded : RuntimeConfig c) (request : PacketAttestationRequest)
      (h : List Happening) (a : Option Attestation) : Type 0 where
    pub packets : Packets
    pub kind : CommitmentType
    pub finalized : ℕ
    pub unsigned : PacketAttestation
    pub decoded : try_from_abi_encoded c request.packets ≡ ok packets
    pub asked : request.commitment_type ≡ pos (kind_number kind)
    pub finality : ChainAt loaded.adapter finalized h
    pub within : request.height ≤ finalized
    pub height : unsigned.height ≡ request.height
    pub entries : All₂ (Entry loaded.adapter request.height kind h) packets.packets unsigned.packets
    pub signed :
        IsSigned c
          (signer_enum c loaded.signer)
          request.height
          none
          (new (c.abi_encode_packets unsigned) AttestationType.packet)
          h
          a
