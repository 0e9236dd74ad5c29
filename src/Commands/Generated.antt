-- ===== src/Commands/Generated.antt =====
-- What a successful `generate` leaves behind.
use ibc_attestor.Common.{
  ℕ, ◌≡◌, refl, sym, ◌∙◌, ap, String, ◌<>◌, true, Bool-cases, none, some, Result, ok, err, inl, inr,
  Bytes, eq_bytes_refl,
}
use ibc_attestor.Crates.{Crates}
use ibc_attestor.Commands.{
  GenerateArgs, attestor_dir, ensure_dir, in_context, with_context, refuse_existing, generate_key,
}
use ibc_attestor.Commands.Kept.{
  encrypted, save, in_dir, attestor_dir-cases, ensure_dir-file, refused-absent, generate_key-in_dir,
  generate_key-no_dir,
}
use ibc_attestor.Keys.Keystore.{store, write_to_keystore}
use ibc_attestor.Process.{FilePath, Process, println, join, exists, create_dir_all, ◌>>◌, add_file}
use ibc_attestor.Process.Actions.{>>=-ok}
use ibc_attestor.Process.Files.{write_file-cases}
use ibc_attestor.Signer.Local.{default_keystore_name}

ensure_dir-env_var : (dir : FilePath) (p : Process) → (ensure_dir dir p).0.env_var ≡ p.env_var
unfolding create_dir_all
ensure_dir-env_var dir p = elim (Bool-cases (exists p.disk dir)) [
  | inl there ↦ rw there refl
  | inr absent ↦ rw absent refl
]

in_context-ok :
    {A : Type 0} (context : String) (v : Process × Result String A) (p : Process) (a : A)
    → in_context context v ≡ (p, ok a)
    → v ≡ (p, ok a)
in_context-ok context (q, ok b) p a h = h
in_context-ok context (q, err e) p a h = cc

-- A file that was stored.
store-ok :
    (dir path : FilePath) (b : Bytes) (p p' : Process)
    → store dir path b p ≡ (p', ok tt)
    → (p.disk.is_dir dir ≡ true) × (record p { disk = add_file path b p.disk } ≡ p')
store-ok dir path b p p' h = elim (write_file-cases dir path b p.disk) [
  | inl (there, written) ↦ let e = rw written at h in (there, ap (λ v. v.0) e)
  | inr (e, failed) ↦ let e = rw failed at h in cc
]

-- What a successful `generate` leaves: the keystore, where no file was, holds the new key, in a
-- directory that is there.
pub record Generated (c : Crates) (args : GenerateArgs) (seed entropy : ℕ) (p p' : Process)
    : Type 0 where
  pub dir : FilePath
  pub chosen : attestor_dir args.keystore p ≡ (p, ok dir)
  pub fresh : p.disk.file (join dir default_keystore_name) ≡ none
  pub is_dir : p'.disk.is_dir dir ≡ true
  pub contents :
      p'.disk.file (join dir default_keystore_name)
      ≡ some (c.encrypt_keystore entropy (c.credential_bytes (c.random_key seed)) "").0
  pub env_var : p'.env_var ≡ p.env_var

module _ (c : Crates) (debug_path : FilePath → String) (seed entropy : ℕ) where
  -- The keystore that was written.
  saved :
      (dir : FilePath) (p p' : Process)
      → save c debug_path seed entropy dir p ≡ (p', ok tt)
      → (p.disk.is_dir dir ≡ true)
        × (p'.disk
            ≡ add_file
                (join dir default_keystore_name)
                (encrypted c debug_path seed entropy (c.random_key seed)).0
                p.disk)
        × (p'.env_var ≡ p.env_var)
  unfolding write_to_keystore
  saved dir p p' h =
      let path = join dir default_keystore_name in
      let key = c.random_key seed in
      let contents = encrypted c debug_path seed entropy key in
      let write = write_to_keystore c dir default_keystore_name key entropy in
      let (p₁, u, wrote, printed) =
        >>=-ok (λ _. println ("key successfully saved to " <> debug_path path))
          (with_context "unable to generate key " write) p p' tt h in
      let (p₂, v, stored, named) =
        >>=-ok (λ _. println ("id: " <> contents.1)) (store dir path contents.0) p p₁ u
          (in_context-ok "unable to generate key " (write p) p₁ u wrote) in
      let (there, e) = store-ok dir path contents.0 p p₂ stored in
      (
        there,
        sym (ap (λ v. v.0.disk) printed)
            ∙ sym (ap (λ v. v.0.disk) named)
            ∙ sym (ap (λ q. q.disk) e),
        sym (ap (λ v. v.0.env_var) printed)
            ∙ sym (ap (λ v. v.0.env_var) named)
            ∙ sym (ap (λ q. q.env_var) e),
      )

  in_dir-Generated :
      (args : GenerateArgs) (dir : FilePath) (p p' : Process)
      → attestor_dir args.keystore p ≡ (p, ok dir)
      → in_dir c debug_path seed entropy dir p ≡ (p', ok tt)
      → Generated c args seed entropy p p'
  in_dir-Generated args dir p p' chosen h =
      let path = join dir default_keystore_name in
      let (p₁, u, made, h₁) =
        >>=-ok (λ _. refuse_existing debug_path path >> save c debug_path seed entropy dir)
          (ensure_dir dir) p p' tt h in
      let (p₂, v, passed, h₂) =
        >>=-ok (λ _. save c debug_path seed entropy dir) (refuse_existing debug_path path) p₁ p' tt
          h₁ in
      let (same, absent) = refused-absent c debug_path seed entropy path p₁ p₂ passed in
      let (there, disk, env) = saved dir p₂ p' h₂ in
      let file = sym (ap (λ v. v.0.disk.file) made) ∙ ensure_dir-file dir p in
      let vars = sym (ap (λ v. v.0.env_var) made) ∙ ensure_dir-env_var dir p in
      record {
        dir = dir;
        chosen = chosen;
        fresh = sym (ap (λ f. f path) file) ∙ absent;
        is_dir = rw disk there;
        contents = rw disk (rw (eq_bytes_refl path) refl);
        env_var = env ∙ ap (λ q. q.env_var) same ∙ vars;
      }

  -- A `generate` that succeeds found no file at the keystore's path, in the directory that is given
  -- or the default one, and leaves there the encrypted new key.
  pub generate_key-Generated :
      (args : GenerateArgs) (p p' : Process)
      → generate_key c debug_path args seed entropy p ≡ (p', ok tt)
      → Generated c args seed entropy p p'
  generate_key-Generated args p p' h = elim (attestor_dir-cases args.keystore p) [
    | inl (dir, chosen) ↦
        in_dir-Generated args dir p p' chosen
          (rw (generate_key-in_dir c debug_path seed entropy args p dir chosen) at h)
    | inr (e, failed) ↦
        let same = rw (generate_key-no_dir c debug_path seed entropy args p e failed) at h in cc
  ]
