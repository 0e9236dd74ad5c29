-- ===== src/Tests/Commands.antt =====
-- Keys that are generated, shown and signed with.
use ibc_attestor.Common.{
  ◌≡◌, refl, true, ◌||◌, String, Option, none, some, [], ◌∷◌, ◌++◌, ok, ◌≢◌, ◌↔◌, All, eq_bytes,
  if◌then◌else◌,
}
use ibc_attestor.Common.Text.{codes}
use ibc_attestor.Commands.{GenerateArgs, default_attestor_dir, generate_key, show_key}
use ibc_attestor.Commands.Shown.{shown, show_key-generate_key, build-generate_key}
use ibc_attestor.Keys.Keystore.{write_to_keystore}
use ibc_attestor.Process.{
  FilePath, Process, create_dirs, create_dir_all, write_file, slash, replace_tilde, tilde,
}
use ibc_attestor.Signer.Local
use ibc_attestor.Signer.Local.{default_keystore_name}
use ibc_attestor.Signer.Local.Paths.{build-paths, loaded}
use ibc_attestor.Tests.{crates, keystore_laws}

abbrev home : FilePath
home = codes "/h"

abbrev home_var : String → Option FilePath
home_var name = if eq_bytes (codes name) (codes "HOME") then some home else none

-- An empty home directory.
abbrev start : Process
start = record {
  disk = record {
    is_dir = λ q. eq_bytes q (codes "/") || eq_bytes q home;
    file = λ q. none;
    refuses = λ q. none;
  };
  env_var = home_var;
  stdout = [];
}

abbrev args : GenerateArgs
args = record { keystore = none }

abbrev dir : FilePath
dir = codes "/h/.ibc-attestor"

abbrev debug_path : FilePath → String
debug_path path = "the path"

-- The key 42 is generated.
abbrev generated : Process
generated = (generate_key crates debug_path args 42 5 start).0

generates : generate_key crates debug_path args 42 5 start ≡ (generated, ok tt)
unfolding generate_key default_attestor_dir create_dir_all create_dirs write_to_keystore write_file
generates = refl

show_key-generate_key_example :
    show_key crates debug_path
      (record { show_private = true; show_public = true; keystore = none })
      generated
    ≡ (record generated { stdout = generated.stdout ++ shown crates true true 42 }, ok tt)
show_key-generate_key_example =
    show_key-generate_key crates debug_path keystore_laws args 42 5 start generated true true
      generates

build-generate_key_example :
    Local.build crates generated (record { keystore_path = dir }) ≡ ok (record { inner = 42 })
unfolding default_attestor_dir
build-generate_key_example =
    build-generate_key crates debug_path keystore_laws args 42 5 start generated dir generates refl
      refl

-- A path below the home directory, with a further tilde.
abbrev backup : FilePath
backup = codes "~/key~"

build-paths_example :
    (Local.build crates start (record { keystore_path = backup })
      ≡ loaded crates start backup (home ++ (slash ∷ replace_tilde home (codes "key~"))))
    × ((replace_tilde home (codes "key~") ≡ codes "key~") ↔ All (λ b. b ≢ tilde) (codes "key~"))
build-paths_example = build-paths crates start backup (codes "h") (codes "key~") refl refl
