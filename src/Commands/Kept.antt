-- ===== src/Commands/Kept.antt =====
-- No command overwrites a file.
use ibc_attestor.Common.{
  ℕ, ◌≡◌, refl, ap, String, ◌<>◌, Bool-cases, Option, none, some, Result-cases, ok, err, ◌⊎◌, inl,
  inr, Bytes,
}
use ibc_attestor.Common.Text.{codes}
use ibc_attestor.Crates.{Crates}
use ibc_attestor.Commands.{
  GenerateArgs, default_attestor_dir, attestor_dir, ensure_dir, with_context, refuse_existing,
  generate_key,
}
use ibc_attestor.Keys.Keystore.{write_to_keystore}
use ibc_attestor.Process.{FilePath, Process, Action, ◌>>◌, println, join, exists}
use ibc_attestor.Process.Actions.{rest}
use ibc_attestor.Process.Files.{exists-file, create_dir_all-file}
use ibc_attestor.Signer.Local.{default_keystore_name}

-- The directory is found, or not, without a change of the process.
pub attestor_dir-cases :
    (keystore : Option FilePath) (p : Process)
    → ((dir : FilePath) × (attestor_dir keystore p ≡ (p, ok dir)))
      ⊎ ((e : String) × (attestor_dir keystore p ≡ (p, err e)))
attestor_dir-cases none p = elim (Result-cases (default_attestor_dir p)) [
  | inl (e, h) ↦ inr (e, ap (λ r. (p, r)) h)
  | inr (dir, h) ↦ inl (dir, ap (λ r. (p, r)) h)
]
attestor_dir-cases (some path) p = inl (path, refl)

-- The home directory of a process.
abbrev pub IsHome : Process → FilePath → Type 0
IsHome p home =
    (p.env_var "HOME" ≡ some home)
    ⊎ ((p.env_var "HOME" ≡ none) × (p.env_var "USERPROFILE" ≡ some home))

-- The directory that a key command works in: the one that is given, or that of the attestor in the home
-- directory.
abbrev pub WorksIn : Option FilePath → Process → FilePath → Type 0
WorksIn (some path) p dir = dir ≡ path
WorksIn none p dir = (home : FilePath) × IsHome p home × (dir ≡ join home (codes ".ibc-attestor"))

pub ensure_dir-file : (dir : FilePath) (p : Process) → (ensure_dir dir p).0.disk.file ≡ p.disk.file
ensure_dir-file dir p = elim (Bool-cases (exists p.disk dir)) [
  | inl there ↦ rw there refl
  | inr absent ↦ rw absent (create_dir_all-file dir p)
]

module _ (c : Crates) (debug_path : FilePath → String) (seed entropy : ℕ) where
  abbrev pub encrypted : c.PrivateKeySigner → Bytes × String
  encrypted k = c.encrypt_keystore entropy (c.credential_bytes k) ""

  -- What follows the refusal of a path that exists.
  pub refused-absent :
      (path : FilePath) (p p₁ : Process)
      → refuse_existing debug_path path p ≡ (p₁, ok tt)
      → (p₁ ≡ p) × (p.disk.file path ≡ none)
  refused-absent path p p₁ h = elim (Bool-cases (exists p.disk path)) [
    | inl there ↦ let e = rw there at h in cc
    | inr absent ↦ let e = rw absent at h in (cc, exists-file p.disk path absent)
  ]

  -- What `generate` does in a directory.
  abbrev pub save : FilePath → Action (Unit {0})
  save dir =
      with_context "unable to generate key "
        (write_to_keystore c dir default_keystore_name (c.random_key seed) entropy)
      >> println ("key successfully saved to " <> debug_path (join dir default_keystore_name))

  abbrev pub in_dir : FilePath → Action (Unit {0})
  in_dir dir =
      ensure_dir dir >> (refuse_existing debug_path (join dir default_keystore_name) >> save dir)

  pub generate_key-in_dir :
      (args : GenerateArgs) (p : Process) (dir : FilePath)
      → attestor_dir args.keystore p ≡ (p, ok dir)
      → generate_key c debug_path args seed entropy p ≡ in_dir dir p
  unfolding generate_key
  generate_key-in_dir args p dir found = ap (rest in_dir) found

  pub generate_key-no_dir :
      (args : GenerateArgs) (p : Process) (e : String)
      → attestor_dir args.keystore p ≡ (p, err e)
      → generate_key c debug_path args seed entropy p ≡ (p, err e)
  unfolding generate_key
  generate_key-no_dir args p e failed = ap (rest in_dir) failed
