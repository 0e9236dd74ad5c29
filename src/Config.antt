-- ===== src/Config.antt =====
-- apps/ibc-attestor/src/config.rs, and the arguments of the server command, of
-- apps/ibc-attestor/src/bin/ibc_attestor/cli.rs. Addresses and URLs are their texts.
pub mod Loaded
pub mod Sections
pub mod Refused
use ibc_attestor.Common.{
  ℕ, String, ◌<>◌, Bool, true, false, ◌&&◌, ◌||◌, not, Option, none, some, List, [], ◌∷◌, Result,
  ok, err, Bytes, map_ok, map_err, and_then, leb, ltb, ◌==◌, if◌then◌else◌,
}
use ibc_attestor.Common.Double.{F64, is_finite, in_unit_range}
use ibc_attestor.Common.Text.{codes}
use ibc_attestor.Adapter.Cosmos
use ibc_attestor.Adapter.Cosmos.{CosmosAdapterConfig}
use ibc_attestor.Adapter.Dispatch.{AdapterEnum}
use ibc_attestor.Adapter.Evm
use ibc_attestor.Adapter.Evm.{EvmAdapterConfig}
use ibc_attestor.Adapter.Solana
use ibc_attestor.Adapter.Solana.{SolanaAdapterConfig}
use ibc_attestor.Crates.{Crates}
use ibc_attestor.Error.{AttestationAdapterError, SignerError, adapter_error_text, signer_error_text}
use ibc_attestor.Process.{Disk, Process}
use ibc_attestor.Signer.Dispatch.{SignerEnum}
use ibc_attestor.Signer.Local
use ibc_attestor.Signer.Local.{LocalSignerConfig}
use ibc_attestor.Signer.Remote
use ibc_attestor.Signer.Remote.{RemoteSignerConfig}

pub data ChainType : Type 0 where
  evm solana cosmos : ChainType

pub data SignerType : Type 0 where
  local remote : SignerType

pub record ServerConfig : Type 0 where
  pub listen_addr : String
  pub health_addr : String

pub record TracingConfig : Type 0 where
  pub otlp_endpoint : String
  pub service_name : String
  pub sample_rate : F64

-- `Value` is `toml::Value`.
pub record RawConfig (Value : Type 0) : Type 0 where
  pub server : ServerConfig
  pub adapter : Value
  pub signer : Value
  pub tracing : Option TracingConfig

-- The toml crate with the code that serde derives: a file's contents as the raw configuration, and a
-- section as a configuration of each kind. An error is its text; `display` is that of an `f64`.
pub record Toml : Type 1 where
  pub Value : Type 0
  pub from_str : Bytes → Result String (RawConfig Value)
  pub into_evm : Value → Result String EvmAdapterConfig
  pub into_solana : Value → Result String SolanaAdapterConfig
  pub into_cosmos : Value → Result String CosmosAdapterConfig
  pub into_local : Value → Result String LocalSignerConfig
  pub into_remote : Value → Result String RemoteSignerConfig
  pub display : F64 → String

pub data ConfigError : Type 0 where
  -- the path, and the error
  io : String → String → ConfigError
  toml : String → ConfigError
  invalid_tracing_config : String → ConfigError
  adapter : AttestationAdapterError → ConfigError
  signer : SignerError → ConfigError

unfoldable pub config_error_text : ConfigError → String
unfolding adapter_error_text signer_error_text
config_error_text (io path e) = "I/O error reading `" <> (path <> ("`: " <> e))
config_error_text (toml e) = "invalid TOML in config: " <> e
config_error_text (invalid_tracing_config e) = "invalid tracing config: " <> e
config_error_text (adapter e) = adapter_error_text e
config_error_text (signer e) = signer_error_text e

-- The ranges of the bytes that follow a first byte of a character in UTF-8.
abbrev pub utf8_rest : ℕ → Option (List (ℕ × ℕ))
utf8_rest b =
    if ltb b 128
    then some []
    else if leb 194 b && leb b 223
    then some ((128, 191) ∷ [])
    else if leb 224 b && leb b 239
    then some ((if b == 224 then 160 else 128, if b == 237 then 159 else 191) ∷ (128, 191) ∷ [])
    else if leb 240 b && leb b 244
    then some (
        (if b == 240 then 144 else 128, if b == 244 then 143 else 191)
        ∷ (128, 191)
        ∷ (128, 191)
        ∷ [])
    else none

unfoldable pub utf8_from : List (ℕ × ℕ) → Bytes → Bool
utf8_from [] [] = true
utf8_from (r ∷ rs) [] = false
utf8_from ((low, high) ∷ rs) (b ∷ s) = (leb low b && leb b high) && utf8_from rs s
utf8_from [] (b ∷ s) = elim (utf8_rest b) [ none ↦ false | some rs ↦ utf8_from rs s ]

-- `fs::read_to_string`
unfoldable pub read_to_string : Bytes → Disk → Result String Bytes
unfolding utf8_from
read_to_string path d =
    if d.is_dir path then err "Is a directory (os error 21)" else elim (d.file path) [
      | none ↦ err "No such file or directory (os error 2)"
      | some b ↦ if utf8_from [] b then ok b else err "stream did not contain valid UTF-8"
    ]

pub record RuntimeConfig (c : Crates) : Type 0 where
  pub server : ServerConfig
  pub adapter : AdapterEnum
  pub signer : SignerEnum c
  pub tracing : Option TracingConfig

infixl 5 ◌>>=◌
-- `?`
abbrev pub ◌>>=◌ : {E A B : Type 0} → Result E A → (A → Result E B) → Result E B
r >>= f = and_then r f

module _ (t : Toml) where
  -- `TracingConfig::validate`
  unfoldable pub validate : TracingConfig → Result ConfigError TracingConfig
  validate self =
      if not (is_finite self.sample_rate) || not (in_unit_range self.sample_rate)
      then err (
          invalid_tracing_config (
            "`tracing.sample_rate` must be a finite value in [0.0, 1.0], got "
            <> t.display self.sample_rate))
      else ok self

  -- `raw.tracing.map(TracingConfig::validate).transpose()`
  abbrev pub validate_optional : Option TracingConfig → Result ConfigError (Option TracingConfig)
  validate_optional none = ok none
  validate_optional (some config) = map_ok some (validate config)

  module _ (c : Crates) where
    -- The match on the chain type.
    unfoldable pub build_adapter : ChainType → t.Value → Result ConfigError AdapterEnum
    unfolding Evm.build Solana.build Cosmos.build
    build_adapter evm value = do
      config ← map_err toml (t.into_evm value)
      map_err adapter (map_ok AdapterEnum.evm (Evm.build config))
    build_adapter solana value = do
      config ← map_err toml (t.into_solana value)
      map_err adapter (map_ok AdapterEnum.solana (Solana.build c config))
    build_adapter cosmos value = do
      config ← map_err toml (t.into_cosmos value)
      map_err adapter (map_ok AdapterEnum.cosmos (Cosmos.build c config))

    -- The match on the signer type.
    unfoldable pub build_signer : SignerType → t.Value → Process → Result ConfigError (SignerEnum c)
    unfolding Local.build Remote.build
    build_signer local value p = do
      config ← map_err toml (t.into_local value)
      map_err signer (map_ok SignerEnum.local (Local.build c p config))
    build_signer remote value p = do
      config ← map_err toml (t.into_remote value)
      map_err signer (map_ok SignerEnum.remote (Remote.build config))

    unfoldable pub from_file :
        String → ChainType → SignerType → Process → Result ConfigError (RuntimeConfig c)
    unfolding read_to_string build_adapter build_signer validate
    from_file path chain_type signer_type p = do
      contents ← map_err (io path) (read_to_string (codes path) p.disk)
      raw ← map_err toml (t.from_str contents)
      built_adapter ← build_adapter chain_type raw.adapter
      built_signer ← build_signer signer_type raw.signer p
      tracing ← validate_optional raw.tracing
      ok (record {
        server = raw.server;
        adapter = built_adapter;
        signer = built_signer;
        tracing = tracing;
      })
