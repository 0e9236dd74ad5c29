-- ===== src/Keys/Keystore.antt =====
-- libs/ethereum/keys/src/signer_local.rs: keys in encrypted files, under the empty password.
use ibc_attestor.Common.{ℕ, String, ◌<>◌, Result, Bytes}
use ibc_attestor.Crates.{Crates}
use ibc_attestor.Process.{FilePath, Disk, Action, ◌>>◌, join, println, write_file}

-- A file written in a directory.
abbrev pub store : FilePath → FilePath → Bytes → Action (Unit {0})
store dir path contents p =
    let (d, r) = write_file dir path contents p.disk in (record p { disk = d }, r)

module _ (c : Crates) where
  unfoldable pub read_from_keystore : FilePath → Disk → Result String c.PrivateKeySigner
  read_from_keystore path d = c.decrypt_keystore (d.file path) ""

  -- The last argument is the randomness.
  unfoldable pub write_to_keystore :
      FilePath → FilePath → c.PrivateKeySigner → ℕ → Action (Unit {0})
  unfolding write_file
  write_to_keystore folder name signer entropy = do
    let key = c.credential_bytes signer
    let encrypted = c.encrypt_keystore entropy key ""
    store folder (join folder name) encrypted.0
    println ("id: " <> encrypted.1)
