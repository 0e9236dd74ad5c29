-- ===== src/Commands.antt =====
-- The key commands of apps/ibc-attestor/src/bin/ibc_attestor: the arguments of cli.rs, and what
-- main.rs does with them. `anyhow` errors are their texts.
pub mod Kept
pub mod Generated
pub mod Shown
use ibc_attestor.Common.{
  ℕ, String, ◌<>◌, Bool, true, false, Option, none, some, Result, ok, err, ok_or, Bytes,
  if◌then◌else◌,
}
use ibc_attestor.Common.Text.{codes}
use ibc_attestor.Crates.{Crates}
use ibc_attestor.Keys.Keystore.{read_from_keystore, write_to_keystore}
use ibc_attestor.Process.{
  FilePath, Process, Action, ◌>>=◌, ◌>>◌, pure, reads, print, println, join, exists, create_dir_all,
  home_of,
}
use ibc_attestor.Signer.Local.{default_keystore_name}

pub record GenerateArgs : Type 0 where
  pub keystore : Option FilePath

pub record ShowArgs : Type 0 where
  pub show_private : Bool
  pub show_public : Bool
  pub keystore : Option FilePath

pub data KeyCommands : Type 0 where
  generate : GenerateArgs → KeyCommands
  show : ShowArgs → KeyCommands

unfoldable pub default_attestor_dir : Process → Result String FilePath
default_attestor_dir p = elim (home_of p) [
  | some home ↦ ok (join home (codes ".ibc-attestor"))
  | none ↦ err "unable to determine home directory from environment"
]

-- The directory that is given, or the default one.
abbrev pub attestor_dir : Option FilePath → Action FilePath
attestor_dir (some path) = pure path
attestor_dir none = reads default_attestor_dir

-- `if !attestor_dir.exists() { fs::create_dir_all(&attestor_dir)?; }`
abbrev pub ensure_dir : FilePath → Action (Unit {0})
ensure_dir dir p = if exists p.disk dir then (p, ok tt) else create_dir_all dir p

-- The error's text of a call, with a context before it.
abbrev pub in_context :
    {A : Type 0} → String → Process × Result String A → Process × Result String A
in_context context (p, ok a) = (p, ok a)
in_context context (p, err e) = (p, err (context <> e))

abbrev pub with_context : {A : Type 0} → String → Action A → Action A
with_context context m p = in_context context (m p)

-- `debug_path` is the text of a path in `{:?}`.
-- `if keystore_path.exists() { return Err(..) }`
abbrev pub refuse_existing : (FilePath → String) → FilePath → Action (Unit {0})
refuse_existing debug_path path p =
    if exists p.disk path
    then (p, err ("key pair already found at " <> (debug_path path <> "; aborting")))
    else (p, ok tt)

module _ (c : Crates) (debug_path : FilePath → String) where
  -- The numbers are the randomness of the key, and that of its encryption.
  unfoldable pub generate_key : GenerateArgs → ℕ → ℕ → Action (Unit {0})
  generate_key args seed entropy = do
    dir ← attestor_dir args.keystore
    let keystore_path = join dir default_keystore_name
    ensure_dir dir
    refuse_existing debug_path keystore_path
    let signer = c.random_key seed
    with_context "unable to generate key "
        (write_to_keystore c dir default_keystore_name signer entropy)
    println ("key successfully saved to " <> debug_path keystore_path)

  -- Whether the private key was printed.
  abbrev pub show_private_key : Bool → FilePath → Action Bool
  show_private_key false path = pure false
  show_private_key true path = do
    signer ← reads (λ p. read_from_keystore c path p.disk)
    print (c.hex_encode (c.credential_bytes signer))
    pure true

  abbrev pub show_public_key : Bool → FilePath → Action (Unit {0})
  show_public_key false path = pure tt
  show_public_key true path = do
    signer ← reads (λ p. read_from_keystore c path p.disk)
    print (c.hex_encode (c.address signer))

  unfoldable pub show_key : ShowArgs → Action (Unit {0})
  show_key args = do
    dir ← attestor_dir args.keystore
    let keystore_path = join dir default_keystore_name
    printed_any ← show_private_key args.show_private keystore_path
    (if printed_any then println "\n" else pure tt)
    show_public_key args.show_public keystore_path

  -- The branch of `main` for the key commands.
  unfoldable pub run_key : KeyCommands → ℕ → ℕ → Action (Unit {0})
  unfolding generate_key show_key
  run_key (generate args) seed entropy = generate_key args seed entropy
  run_key (show args) seed entropy = show_key args
