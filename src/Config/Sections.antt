-- ===== src/Config/Sections.antt =====
-- Adapter and signer sections that are refused.
use ibc_attestor.Common.{
  ◌≡◌, ◌⊎◌, String, inl, inr, Result, ok, err, map_ok, map_err, and_then, map_ok-eq-err,
  map_err-eq-ok, map_err-eq-err, and_then-eq-err,
}
use ibc_attestor.Adapter.Cosmos
use ibc_attestor.Adapter.Cosmos.{CosmosAdapterConfig}
use ibc_attestor.Adapter.Dispatch.{AdapterEnum}
use ibc_attestor.Adapter.Evm
use ibc_attestor.Adapter.Evm.{EvmAdapterConfig}
use ibc_attestor.Adapter.Solana
use ibc_attestor.Adapter.Solana.{SolanaAdapterConfig}
use ibc_attestor.Config.{
  ChainType, SignerType, Toml, ConfigError, build_adapter, build_signer, toml, adapter, signer, evm,
  solana, cosmos, local, remote,
}
use ibc_attestor.Crates.{Crates}
use ibc_attestor.Error.{AttestationAdapterError, SignerError}
use ibc_attestor.Process.{Process}
use ibc_attestor.Signer.Dispatch.{SignerEnum}
use ibc_attestor.Signer.Local
use ibc_attestor.Signer.Local.{LocalSignerConfig}
use ibc_attestor.Signer.Remote
use ibc_attestor.Signer.Remote.{RemoteSignerConfig}

module _ (t : Toml) (c : Crates) where
  -- The section does not have the configuration of the chosen type.
  abbrev pub AdapterUnparsed : ChainType → t.Value → String → Type 0
  AdapterUnparsed evm value e = t.into_evm value ≡ err e
  AdapterUnparsed solana value e = t.into_solana value ≡ err e
  AdapterUnparsed cosmos value e = t.into_cosmos value ≡ err e

  abbrev pub SignerUnparsed : SignerType → t.Value → String → Type 0
  SignerUnparsed local value e = t.into_local value ≡ err e
  SignerUnparsed remote value e = t.into_remote value ≡ err e

  -- It has, but what it configures cannot be built.
  abbrev pub AdapterUnbuilt : ChainType → t.Value → AttestationAdapterError → Type 0
  AdapterUnbuilt evm value e =
      (config : EvmAdapterConfig) × (t.into_evm value ≡ ok config) × (Evm.build config ≡ err e)
  AdapterUnbuilt solana value e =
      (config : SolanaAdapterConfig) × (t.into_solana value ≡ ok config)
      × (Solana.build c config ≡ err e)
  AdapterUnbuilt cosmos value e =
      (config : CosmosAdapterConfig) × (t.into_cosmos value ≡ ok config)
      × (Cosmos.build c config ≡ err e)

  abbrev pub SignerUnbuilt : SignerType → t.Value → Process → SignerError → Type 0
  SignerUnbuilt local value p e =
      (config : LocalSignerConfig) × (t.into_local value ≡ ok config)
      × (Local.build c p config ≡ err e)
  SignerUnbuilt remote value p e =
      (config : RemoteSignerConfig) × (t.into_remote value ≡ ok config)
      × (Remote.build config ≡ err e)

  -- A section that is not parsed, or not built.
  section_err :
      {C A B : Type 0} {E : Type 0} (parsed : Result String C) (build : C → Result E A)
      (f : E → ConfigError) (g : A → B) (e : ConfigError)
      → and_then (map_err toml parsed) (λ config. map_err f (map_ok g (build config))) ≡ err e
      → ((d : String) × (parsed ≡ err d) × (toml d ≡ e))
        ⊎ ((d : E) × ((config : C) × (parsed ≡ ok config) × (build config ≡ err d)) × (f d ≡ e))
  section_err parsed build f g e h = elim (and_then-eq-err (map_err toml parsed) _ e h) [
    | inl unparsed ↦ inl (map_err-eq-err toml parsed e unparsed)
    | inr (config, found, rest) ↦
        let (d, unbuilt, same) = map_err-eq-err f (map_ok g (build config)) e rest in
        inr (
          d,
          (
            config,
            map_err-eq-ok toml parsed config found,
            map_ok-eq-err g (build config) d unbuilt,
          ),
          same,
        )
  ]

  pub build_adapter_err :
      (chain_type : ChainType) (value : t.Value) (e : ConfigError)
      → build_adapter t c chain_type value ≡ err e
      → ((d : String) × AdapterUnparsed chain_type value d × (toml d ≡ e))
        ⊎ ((d : AttestationAdapterError) × AdapterUnbuilt chain_type value d × (adapter d ≡ e))
  unfolding build_adapter
  build_adapter_err evm value e h =
      section_err (t.into_evm value) Evm.build adapter AdapterEnum.evm e h
  build_adapter_err solana value e h =
      section_err (t.into_solana value) (Solana.build c) adapter AdapterEnum.solana e h
  build_adapter_err cosmos value e h =
      section_err (t.into_cosmos value) (Cosmos.build c) adapter AdapterEnum.cosmos e h

  pub build_signer_err :
      (signer_type : SignerType) (value : t.Value) (p : Process) (e : ConfigError)
      → build_signer t c signer_type value p ≡ err e
      → ((d : String) × SignerUnparsed signer_type value d × (toml d ≡ e))
        ⊎ ((d : SignerError) × SignerUnbuilt signer_type value p d × (signer d ≡ e))
  unfolding build_signer
  build_signer_err local value p e h =
      section_err (t.into_local value) (Local.build c p) signer SignerEnum.local e h
  build_signer_err remote value p e h =
      section_err (t.into_remote value) Remote.build signer SignerEnum.remote e h
