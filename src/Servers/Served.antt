-- ===== src/Servers/Served.antt =====
-- What the service of a configuration attests, down to the answers of the chain.
use ibc_attestor.Common.{
  ℕ, ◌≤◌, ◌≡◌, sym, inl, inr, some, List, [], ok, map_err-eq-ok, map_ok-eq-ok, map_err,
}
use ibc_attestor.Error.{retrieval_error}
use ibc_attestor.Common.Int.{pos}
use ibc_attestor.Adapter.Cosmos.Answers.{
  cosmos_get_last_height-answered, cosmos_get_block_timestamp-answered,
}
use ibc_attestor.Adapter.Dispatch.{AdapterEnum, inner, adapter_enum, evm, solana, cosmos}
use ibc_attestor.Adapter.Dispatch.Gauge.{adapter_enum_height-gauged, gauged}
use ibc_attestor.Adapter.Evm.Answers.{
  ReadsHeight, ReadsHeight-mono, evm_get_last_height-answered, evm_get_block_timestamp-answered,
}
use ibc_attestor.Adapter.Solana.Answers.{
  solana_get_last_height-answered, solana_get_block_timestamp-answered,
}
use ibc_attestor.Attestation.{AttestationType, new}
use ibc_attestor.Config.{RuntimeConfig}
use ibc_attestor.Crates.{Crates, RetryLaws}
use ibc_attestor.Future.Runs.{Happening, answered, Run, RunsIn, Occurs, Within, Occurs-Within}
use ibc_attestor.Metrics.Registry.{Prometheus}
use ibc_attestor.Rpc.{StateAttestationRequest, StateAttestationResponse}
use ibc_attestor.Rpc.Attestor.{state_attestation}
use ibc_attestor.Rpc.Attestor.Requests.{state_attestation-attested}
use ibc_attestor.Rpc.Attestor.Signed.{IsSigned}
use ibc_attestor.Servers.{service_of}
use ibc_attestor.Signer.Dispatch.{signer_enum}
use ibc_attestor.World.{
  Block, Commit, number, evm_get_block, solana_get_slot, solana_get_block_time,
  cosmos_latest_commit, cosmos_commit,
}

-- The chain's client answered, in the run, with a block, slot or commit that makes the height a
-- finalized one: on an EVM chain the finalized block, which is at the height, or, where an offset is
-- configured, the latest block, which is the offset beyond it; the finalized slot of Solana; and
-- the latest commit of a Cosmos chain.
abbrev pub ChainAt : AdapterEnum → ℕ → List Happening → Type 0
ChainAt (evm a) height h = ReadsHeight a.config.url a.config.finality_offset h (ok height)
ChainAt (solana a) height h = Occurs (answered (solana_get_slot a.client) (ok height)) h
ChainAt (cosmos a) height h =
    (block : Commit) × Occurs (answered (cosmos_latest_commit a.client) (ok block)) h
    × (height ≡ block.height)

-- The chain's client answered, in the run, with the time of the height.
abbrev pub ChainTime : Crates → AdapterEnum → ℕ → ℕ → List Happening → Type 0
ChainTime c (evm a) height timestamp h =
    (block : Block) × Occurs
      (answered (evm_get_block a.config.url (number height)) (ok (some block))) h
    × (timestamp ≡ block.timestamp)
ChainTime c (solana a) height timestamp h =
    Occurs (answered (solana_get_block_time a.client height) (ok (pos timestamp))) h
ChainTime c (cosmos a) height timestamp h =
    (accepted : ℕ) × (block : Commit) × (c.height_try_from height ≡ some accepted)
    × Occurs (answered (cosmos_commit a.client accepted) (ok block)) h
    × (block.unix_timestamp ≡ pos timestamp)

ChainAt-Within :
    (a : AdapterEnum) (height : ℕ) (k h : List Happening)
    → Within k h
    → ChainAt a height k
    → ChainAt a height h
ChainAt-Within (evm a) height k h w read =
    ReadsHeight-mono a.config.url a.config.finality_offset height k h
      (λ e o. Occurs-Within e k h o w) read
ChainAt-Within (solana a) height k h w o = Occurs-Within _ k h o w
ChainAt-Within (cosmos a) height k h w (block, o, e) = (block, Occurs-Within _ k h o w, e)

ChainTime-Within :
    (c : Crates) (a : AdapterEnum) (height timestamp : ℕ) (k h : List Happening)
    → Within k h
    → ChainTime c a height timestamp k
    → ChainTime c a height timestamp h
ChainTime-Within c (evm a) height timestamp k h w (block, o, e) =
    (block, Occurs-Within _ k h o w, e)
ChainTime-Within c (solana a) height timestamp k h w o = Occurs-Within _ k h o w
ChainTime-Within c (cosmos a) height timestamp k h w (accepted, block, valid, o, e) =
    (accepted, block, valid, Occurs-Within _ k h o w, e)

module _ (c : Crates) (laws : RetryLaws c) where
  inner-ChainAt :
      (a : AdapterEnum) (height : ℕ) (k : List Happening)
      → Run (inner c a).get_last_height_at_configured_finality k (ok height)
      → ChainAt a height k
  inner-ChainAt (evm a) height k run = evm_get_last_height-answered c laws a k (ok height) run
  inner-ChainAt (solana a) height k run =
      let (x, occurs, e) = solana_get_last_height-answered c laws a k (ok height) run in
      rw (map_err-eq-ok retrieval_error x height e) at occurs
  inner-ChainAt (cosmos a) height k run =
      let (x, occurs, e) = cosmos_get_last_height-answered c laws a k (ok height) run in
      let (block, p, same) =
        map_ok-eq-ok (λ (b : Commit). b.height) (map_err retrieval_error x) height e in
      (block, rw (map_err-eq-ok retrieval_error x block p) at occurs, sym same)

  inner-ChainTime :
      (a : AdapterEnum) (height timestamp : ℕ) (k : List Happening)
      → Run ((inner c a).get_block_timestamp height) k (ok timestamp)
      → ChainTime c a height timestamp k
  inner-ChainTime (evm a) height timestamp k run =
      evm_get_block_timestamp-answered c laws a k height (ok timestamp) run
  inner-ChainTime (solana a) height timestamp k run =
      solana_get_block_timestamp-answered c laws a k height (ok timestamp) run
  inner-ChainTime (cosmos a) height timestamp k run =
      elim (cosmos_get_block_timestamp-answered c laws a k height (ok timestamp) run) [
        | inl (refused, e, p) ↦ cc
        | inr (accepted, valid, (block, occurs, e)) ↦ (accepted, block, valid, occurs, e)
      ]

  -- A run of the configured adapter, as a part of a run.
  pub RunsIn-ChainAt :
      (a : AdapterEnum) (height : ℕ) (h : List Happening)
      → RunsIn (adapter_enum c a).get_last_height_at_configured_finality (ok height) h
      → ChainAt a height h
  RunsIn-ChainAt a height h (k, run, w) =
      let (k', read, joined) = adapter_enum_height-gauged c a k (ok height) run in
      let first : Within k' k = ([], gauged (ok height), joined) in
      ChainAt-Within a height k h w
        (ChainAt-Within a height k' k first (inner-ChainAt a height k' read))

  -- An answered state request of the service that the server command sets up for a configuration:
  -- the height is not beyond a height that the chain's client has answered with, in the run of this
  -- very request: on an EVM chain that of its finalized block or, where an offset is configured, that
  -- of its latest block less the offset; on Solana its finalized slot; on a Cosmos chain that of its
  -- latest commit. The client has also answered with the timestamp of the requested height, and in
  -- the same run the configured signer has signed the ABI encoding of the two, tagged as a state
  -- attestation.
  pub service_of-attested :
      (x : Prometheus) (loaded : RuntimeConfig c) (h : List Happening)
      (request : StateAttestationRequest) (response : StateAttestationResponse)
      → Run (state_attestation c (service_of x c loaded) request) h (ok response)
      → (finalized : ℕ) × (timestamp : ℕ) × ChainAt loaded.adapter finalized h
        × (request.height ≤ finalized)
        × ChainTime c loaded.adapter request.height timestamp h
        × IsSigned c
            (signer_enum c loaded.signer)
            request.height
            (some timestamp)
            (new
              (c.abi_encode_state (record { height = request.height; timestamp = timestamp }))
              AttestationType.state)
            h
            response.attestation
  service_of-attested x loaded h request response run =
      let s = state_attestation-attested c (service_of x c loaded) h request response run in
      let (l, timed, v) = s.time in
      let time = inner-ChainTime loaded.adapter request.height s.timestamp l timed in
      (
        s.finalized,
        s.timestamp,
        RunsIn-ChainAt loaded.adapter s.finalized h s.finality,
        s.within,
        ChainTime-Within c loaded.adapter request.height s.timestamp l h v time,
        s.signed,
      )
