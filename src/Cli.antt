-- ===== src/Cli.antt =====
-- apps/ibc-attestor/src/bin/ibc_attestor/cli.rs: the command line, after it is parsed.
use ibc_attestor.Common.{String}
use ibc_attestor.Commands.{KeyCommands}
use ibc_attestor.Config
use ibc_attestor.Config.{from_file, Toml, ConfigError, RuntimeConfig}
use ibc_attestor.Common.{Result}
use ibc_attestor.Crates.{Crates}
use ibc_attestor.Process.{Process}

pub data ChainType : Type 0 where
  evm solana cosmos : ChainType

-- `From<ChainType> for config::ChainType`
unfoldable pub into_chain_type : ChainType → Config.ChainType
into_chain_type evm = Config.evm
into_chain_type solana = Config.solana
into_chain_type cosmos = Config.cosmos

pub data SignerType : Type 0 where
  local remote : SignerType

-- `From<SignerType> for config::SignerType`
unfoldable pub into_signer_type : SignerType → Config.SignerType
into_signer_type local = Config.local
into_signer_type remote = Config.remote

-- `server::Args`
pub record Args : Type 0 where
  pub config : String
  pub chain_type : ChainType
  pub signer_type : SignerType

pub data Commands : Type 0 where
  server : Args → Commands
  key : KeyCommands → Commands

pub record AttestorCli : Type 0 where
  pub command : Commands

-- The call of `RuntimeConfig::from_file` for the server command.
abbrev pub load_config : Toml → (c : Crates) → Args → Process → Result ConfigError (RuntimeConfig c)
load_config t c args p =
    from_file t c args.config (into_chain_type args.chain_type) (into_signer_type args.signer_type)
      p
