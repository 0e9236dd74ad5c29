-- ===== src/Signer/Local/Paths.antt =====
-- Which file a local signer reads its key from.
use ibc_attestor.Common.{
  ◌≡◌, ◌≢◌, ◌↔◌, refl, ap, Bool-cases, inl, inr, some, [], ◌∷◌, ◌++◌, Result, ok, All, map_ok,
  map_err, and_then, arith, ◌==◌,
}
use ibc_attestor.Crates.{Crates}
use ibc_attestor.Error.{SignerError, config_error}
use ibc_attestor.Keys.Keystore.{read_from_keystore}
use ibc_attestor.Process.{FilePath, Process, replace_tilde, home_of, slash, tilde}
use ibc_attestor.Signer.Local.{LocalSigner, path_with_file, with_expanded_home, build}

-- A path without a tilde stays as it is.
replace_tilde-none :
    (home path : FilePath) → All (λ b. b ≢ tilde) path → replace_tilde home path ≡ path
replace_tilde-none home [] h = refl
replace_tilde-none home (b ∷ path) (other, h) =
    let same = replace_tilde-none home path h in ground arith

-- An absolute home directory does not begin with a tilde.
replace_tilde-same :
    (h path : FilePath) → replace_tilde (slash ∷ h) path ≡ path → All (λ b. b ≢ tilde) path
replace_tilde-same h [] e = tt
replace_tilde-same h (b ∷ path) e = elim (Bool-cases (b == tilde)) [
  | inl here ↦ let e' = rw here at e in let head : slash ≡ b = cc in ground arith
  | inr other ↦
      let e' = rw other at e in
      let tail : replace_tilde (slash ∷ h) path ≡ path = cc in
      (ground arith, replace_tilde-same h path tail)
]

module _ (c : Crates) (p : Process) (path : FilePath) where
  -- The signer with the key that is read at a path.
  abbrev pub loaded : FilePath → Result SignerError (LocalSigner c)
  loaded at_path =
      map_ok (λ signer. record { inner = signer })
        (map_err config_error (read_from_keystore c at_path p.disk))

  -- The path with the default name, where a directory is configured.
  abbrev pub full : FilePath
  full = path_with_file p.disk path

  -- A local signer whose path, with the default name after a directory as it is written, begins with
  -- the home directory's tilde, reads below the home directory, an absolute path: at the rest of the
  -- path, with the home directory in place of each further tilde. So it is the rest as it is just
  -- where there is no further tilde.
  pub build-paths :
      (h rest : FilePath)
      → full ≡ tilde ∷ slash ∷ rest
      → home_of p ≡ some (slash ∷ h)
      → (build c p (record { keystore_path = path })
          ≡ loaded ((slash ∷ h) ++ (slash ∷ replace_tilde (slash ∷ h) rest)))
        × ((replace_tilde (slash ∷ h) rest ≡ rest) ↔ All (λ b. b ≢ tilde) rest)
  unfolding build
  build-paths h rest begins found =
      let home = slash ∷ h in
      let expanded : with_expanded_home p full ≡ ok (home ++ (slash ∷ replace_tilde home rest)) =
        rw (begins, found) refl in
      (
        ap (λ r. and_then r loaded) expanded,
        (replace_tilde-same h rest, replace_tilde-none home rest),
      )
