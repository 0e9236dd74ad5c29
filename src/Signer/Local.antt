-- ===== src/Signer/Local.antt =====
-- apps/ibc-attestor/src/signer/local.rs
pub mod Paths
use ibc_attestor.Common.{ok, ok_or, map_ok, and_then, if◌then◌else◌, Result, Bytes, map_err}
use ibc_attestor.Crates.{Crates}
use ibc_attestor.Error.{config_error, SignerError, local_error}
use ibc_attestor.Future.{Future, ready}
use ibc_attestor.Keys
use ibc_attestor.Keys.Keystore.{read_from_keystore}
use ibc_attestor.Process.{FilePath, Disk, Process, join, starts_with_home, replace_tilde, home_of}
use ibc_attestor.Common.Text.{codes}
use ibc_attestor.Signer.{Signer}

pub record LocalSigner (c : Crates) : Type 0 where
  pub inner : c.PrivateKeySigner

-- DEFAULT_KEYSTORE_NAME
abbrev pub default_keystore_name : FilePath
default_keystore_name = codes "ibc-attestor-keystore"

pub record LocalSignerConfig : Type 0 where
  pub keystore_path : FilePath

-- The default name is appended to a directory, as the path is configured.
abbrev pub path_with_file : Disk → FilePath → FilePath
path_with_file d path = if d.is_dir path then join path default_keystore_name else path

-- Every tilde of a path below the home directory becomes the home directory. `to_string_lossy` is
-- left out: it changes no path that is UTF-8, as a path of a TOML file is.
abbrev pub with_expanded_home : Process → FilePath → Result SignerError FilePath
with_expanded_home p path =
    if starts_with_home path
    then map_ok (λ home. replace_tilde home path)
        (ok_or (config_error "unable to determine home directory from environment") (home_of p))
    else ok path

unfoldable pub build :
    (c : Crates) → Process → LocalSignerConfig → Result SignerError (LocalSigner c)
unfolding read_from_keystore
build c p config =
    and_then (with_expanded_home p (path_with_file p.disk config.keystore_path)) λ path.
      map_ok (λ signer. record { inner = signer })
        (map_err config_error (read_from_keystore c path p.disk))

module _ (c : Crates) (self : LocalSigner c) where
  unfoldable pub sign : Bytes → Future (Result SignerError c.Signature)
  sign message = ready (map_err local_error (Keys.sign c self.inner message))

  -- `impl Signer for LocalSigner`
  abbrev pub local_signer : Signer c
  local_signer = record { sign = sign }
