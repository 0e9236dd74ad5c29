-- ===== src/Config/Loaded.antt =====
-- Configurations that load.
use ibc_attestor.Common.{
  ◌≡◌, refl, sym, ◌∙◌, ap, ◌↔◌, String, true, Bool-cases, inl, inr, Option, none, some, Result, ok,
  Bytes, ok_injective, map_ok, map_err, and_then, map_ok-eq-ok, map_err-eq-ok, and_then-eq-ok,
}
use ibc_attestor.Common.Double.{is_finite, in_unit_range}
use ibc_attestor.Common.Text.{codes}
use ibc_attestor.Adapter.Cosmos
use ibc_attestor.Adapter.Cosmos.{CosmosAdapter, CosmosAdapterConfig}
use ibc_attestor.Adapter.Dispatch.{AdapterEnum}
use ibc_attestor.Adapter.Evm
use ibc_attestor.Adapter.Evm.{EvmAdapter, EvmAdapterConfig}
use ibc_attestor.Adapter.Solana
use ibc_attestor.Adapter.Solana.{SolanaAdapter, SolanaAdapterConfig}
use ibc_attestor.Config.{
  ChainType, SignerType, TracingConfig, RawConfig, Toml, ConfigError, read_to_string, RuntimeConfig,
  validate, validate_optional, build_adapter, build_signer, from_file, toml, adapter, signer, evm,
  solana, cosmos, local, remote, io,
}
use ibc_attestor.Crates.{Crates}
use ibc_attestor.Process.{Process}
use ibc_attestor.Signer.Dispatch.{SignerEnum}
use ibc_attestor.Signer.Local
use ibc_attestor.Signer.Local.{LocalSigner, LocalSignerConfig}
use ibc_attestor.Signer.Remote
use ibc_attestor.Signer.Remote.{RemoteSigner, RemoteSignerConfig}

-- The sampling rate is a number from 0 to 1.
abbrev pub IsRate : TracingConfig → Type 0
IsRate config = (is_finite config.sample_rate ≡ true) × (in_unit_range config.sample_rate ≡ true)

-- A tracing section that is absent, or has a rate.
abbrev pub IsTracing : Option TracingConfig → Type 0
IsTracing none = Unit {0}
IsTracing (some config) = IsRate config

module _ (t : Toml) (c : Crates) where
  -- The adapter is one of the chosen type, built of the section that has its configuration.
  abbrev pub AdapterOf : ChainType → t.Value → AdapterEnum → Type 0
  AdapterOf evm value a =
      (config : EvmAdapterConfig) × (built : EvmAdapter) × (t.into_evm value ≡ ok config)
      × (Evm.build config ≡ ok built)
      × (a ≡ AdapterEnum.evm built)
  AdapterOf solana value a =
      (config : SolanaAdapterConfig) × (built : SolanaAdapter) × (t.into_solana value ≡ ok config)
      × (Solana.build c config ≡ ok built)
      × (a ≡ AdapterEnum.solana built)
  AdapterOf cosmos value a =
      (config : CosmosAdapterConfig) × (built : CosmosAdapter) × (t.into_cosmos value ≡ ok config)
      × (Cosmos.build c config ≡ ok built)
      × (a ≡ AdapterEnum.cosmos built)

  -- The signer is one of the chosen type, built of its section.
  abbrev pub SignerOf : SignerType → t.Value → Process → SignerEnum c → Type 0
  SignerOf local value p s =
      (config : LocalSignerConfig) × (built : LocalSigner c) × (t.into_local value ≡ ok config)
      × (Local.build c p config ≡ ok built)
      × (s ≡ SignerEnum.local built)
  SignerOf remote value p s =
      (config : RemoteSignerConfig) × (built : RemoteSigner) × (t.into_remote value ≡ ok config)
      × (Remote.build config ≡ ok built)
      × (s ≡ SignerEnum.remote built)

  -- A file that is read, whose parts all are valid, and what is built of them.
  pub record Loaded (path : String) (chain_type : ChainType) (signer_type : SignerType)
      (p : Process) (config : RuntimeConfig c) : Type 0 where
    pub contents : Bytes
    pub raw : RawConfig t.Value
    pub file : read_to_string (codes path) p.disk ≡ ok contents
    pub parsed : t.from_str contents ≡ ok raw
    pub server : config.server ≡ raw.server
    pub adapter : AdapterOf chain_type raw.adapter config.adapter
    pub signer : SignerOf signer_type raw.signer p config.signer
    pub tracing : config.tracing ≡ raw.tracing
    pub rate : IsTracing raw.tracing

  -- A section that is parsed, and then built.
  section_ok :
      {C A B : Type 0} {E : Type 0} (parsed : Result String C) (build : C → Result E A)
      (f : E → ConfigError) (g : A → B) (b : B)
      → and_then (map_err toml parsed) (λ config. map_err f (map_ok g (build config))) ≡ ok b
      → (config : C) × (a : A) × (parsed ≡ ok config) × (build config ≡ ok a) × (b ≡ g a)
  section_ok parsed build f g b h =
      let (config, found, rest) = and_then-eq-ok (map_err toml parsed) _ b h in
      let (a, built, same) = map_ok-eq-ok g (build config) b (map_err-eq-ok f _ b rest) in
      (config, a, map_err-eq-ok toml parsed config found, built, sym same)

  ok_section :
      {C A B : Type 0} {E : Type 0} (parsed : Result String C) (build : C → Result E A)
      (f : E → ConfigError) (g : A → B) (b : B) (config : C) (a : A)
      → parsed ≡ ok config
      → build config ≡ ok a
      → b ≡ g a
      → and_then (map_err toml parsed) (λ config. map_err f (map_ok g (build config))) ≡ ok b
  ok_section parsed build f g b config a found built same = rw (found, built, same) refl

  pub build_adapter_ok :
      (chain_type : ChainType) (value : t.Value) (a : AdapterEnum)
      → (build_adapter t c chain_type value ≡ ok a) ↔ AdapterOf chain_type value a
  unfolding build_adapter
  build_adapter_ok evm value a = (
    section_ok (t.into_evm value) Evm.build adapter AdapterEnum.evm a,
    λ (config, built, found, h, same).
        ok_section (t.into_evm value) Evm.build adapter AdapterEnum.evm a config built found h same,
  )
  build_adapter_ok solana value a = (
    section_ok (t.into_solana value) (Solana.build c) adapter AdapterEnum.solana a,
    λ (config, built, found, h, same).
        ok_section (t.into_solana value) (Solana.build c) adapter AdapterEnum.solana a config built
          found h same,
  )
  build_adapter_ok cosmos value a = (
    section_ok (t.into_cosmos value) (Cosmos.build c) adapter AdapterEnum.cosmos a,
    λ (config, built, found, h, same).
        ok_section (t.into_cosmos value) (Cosmos.build c) adapter AdapterEnum.cosmos a config built
          found h same,
  )

  pub build_signer_ok :
      (signer_type : SignerType) (value : t.Value) (p : Process) (s : SignerEnum c)
      → (build_signer t c signer_type value p ≡ ok s) ↔ SignerOf signer_type value p s
  unfolding build_signer
  build_signer_ok local value p s = (
    section_ok (t.into_local value) (Local.build c p) signer SignerEnum.local s,
    λ (config, built, found, h, same).
        ok_section (t.into_local value) (Local.build c p) signer SignerEnum.local s config built
          found h same,
  )
  build_signer_ok remote value p s = (
    section_ok (t.into_remote value) Remote.build signer SignerEnum.remote s,
    λ (config, built, found, h, same).
        ok_section (t.into_remote value) Remote.build signer SignerEnum.remote s config built found
          h same,
  )

  IsRate-validate : (config : TracingConfig) → IsRate config → validate t config ≡ ok config
  unfolding validate
  IsRate-validate config (a_number, in_range) = rw (a_number, in_range) refl

  validate-IsRate :
      (config checked : TracingConfig)
      → validate t config ≡ ok checked
      → (checked ≡ config) × IsRate config
  unfolding validate
  validate-IsRate config checked h = elim (Bool-cases (is_finite config.sample_rate)) [
    | inr not_finite ↦ let e = rw not_finite at h in cc
    | inl a_number ↦ elim (Bool-cases (in_unit_range config.sample_rate)) [
      | inr outside ↦ let e = rw (a_number, outside) at h in cc
      | inl inside ↦
          let e = rw (a_number, inside) at h in (sym (ok_injective e), (a_number, inside))
    ]
  ]

  validate_optional_ok :
      (section checked : Option TracingConfig)
      → (validate_optional t section ≡ ok checked) ↔ ((checked ≡ section) × IsTracing section)
  validate_optional_ok none checked =
      (λ h. (sym (ok_injective h), tt), λ (same, u). ap ok (sym same))
  validate_optional_ok (some config) checked = (
    λ h.
        let (config', valid, same) = map_ok-eq-ok some (validate t config) checked h in
        let (kept, rate) = validate-IsRate config config' valid in (sym same ∙ ap some kept, rate),
    λ (same, rate). rw (IsRate-validate config rate, same) refl,
  )

  pub from_file-Loaded :
      (path : String) (chain_type : ChainType) (signer_type : SignerType) (p : Process)
      (config : RuntimeConfig c)
      → (from_file t c path chain_type signer_type p ≡ ok config)
        ↔ Loaded path chain_type signer_type p config
  unfolding from_file
  from_file-Loaded path chain_type signer_type p config = (
    λ h.
        let (contents, read, h₁) =
          and_then-eq-ok (map_err (io path) (read_to_string (codes path) p.disk)) _ config h in
        let (raw, parsed, h₂) = and_then-eq-ok (map_err toml (t.from_str contents)) _ config h₁ in
        let (a, a_built, h₃) =
          and_then-eq-ok (build_adapter t c chain_type raw.adapter) _ config h₂ in
        let (s, s_built, h₄) =
          and_then-eq-ok (build_signer t c signer_type raw.signer p) _ config h₃ in
        let (tracing, checked, h₅) = and_then-eq-ok (validate_optional t raw.tracing) _ config h₄ in
        let (kept, rate) = (validate_optional_ok raw.tracing tracing).0 checked in
        let same = ok_injective h₅ in
        record {
          contents = contents;
          raw = raw;
          file = map_err-eq-ok (io path) (read_to_string (codes path) p.disk) contents read;
          parsed = map_err-eq-ok toml (t.from_str contents) raw parsed;
          server = ap (λ k. k.server) (sym same);
          adapter =
              (build_adapter_ok chain_type raw.adapter config.adapter).0
                (a_built ∙ ap (λ k. ok k.adapter) same);
          signer =
              (build_signer_ok signer_type raw.signer p config.signer).0
                (s_built ∙ ap (λ k. ok k.signer) same);
          tracing = ap (λ k. k.tracing) (sym same) ∙ kept;
          rate = rate;
        },
    λ l.
        let a_built = (build_adapter_ok chain_type l.raw.adapter config.adapter).1 l.adapter in
        let s_built = (build_signer_ok signer_type l.raw.signer p config.signer).1 l.signer in
        let checked = (validate_optional_ok l.raw.tracing config.tracing).1 (l.tracing, l.rate) in
        let server : ok (record config { server = l.raw.server }) ≡ ok config =
          ap (λ v. ok (record config { server = v })) (sym l.server) in
        rw (l.file, l.parsed, a_built, s_built, checked) server,
  )
