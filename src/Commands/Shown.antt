-- ===== src/Commands/Shown.antt =====
-- A generated key is the one that `show` prints, and the one that a local signer in the same directory
-- signs with.
use mathlib.Core.List.{append_assoc, append-nil}
use ibc_attestor.Common.{
  ℕ, ◌≡◌, refl, sym, ◌∙◌, ap, String, Bool, true, false, Option, none, some, List, [], ◌∷◌, ◌++◌,
  Result, ok, map_ok, map_err, and_then, ok_injective, arith, if◌then◌else◌,
}
use ibc_attestor.Crates.{Crates, KeystoreLaws}
use ibc_attestor.Commands.{
  GenerateArgs, ShowArgs, default_attestor_dir, attestor_dir, show_private_key, show_public_key,
  show_key, generate_key,
}
use ibc_attestor.Commands.Generated.{generate_key-Generated}
use ibc_attestor.Error.{SignerError, config_error}
use ibc_attestor.Keys.Keystore.{read_from_keystore}
use ibc_attestor.Process.{
  FilePath, Process, Action, ◌>>=◌, ◌>>◌, pure, print, println, join, starts_with_home,
}
use ibc_attestor.Process.Actions.{rest}
use ibc_attestor.Signer.Local.{
  LocalSigner, default_keystore_name, path_with_file, with_expanded_home, build,
}

attestor_dir-env_var :
    (keystore : Option FilePath) (p p' : Process) (dir : FilePath)
    → p'.env_var ≡ p.env_var
    → attestor_dir keystore p ≡ (p, ok dir)
    → attestor_dir keystore p' ≡ (p', ok dir)
unfolding default_attestor_dir
attestor_dir-env_var none p p' dir e h = ap (λ r. (p', r)) (rw e (ap (λ v. v.1) h))
attestor_dir-env_var (some path) p p' dir e h = ap (λ r. (p', r)) (ap (λ v. v.1) h)

module _ (c : Crates) where
  -- What is printed of a key.
  abbrev pub shown : Bool → Bool → c.PrivateKeySigner → List String
  shown false false k = []
  shown false true k = c.hex_encode (c.address k) ∷ []
  shown true false k = c.hex_encode (c.credential_bytes k) ∷ "\n\n" ∷ []
  shown true true k = c.hex_encode (c.credential_bytes k) ∷ "\n\n" ∷ c.hex_encode (c.address k) ∷ []

  module _ (debug_path : FilePath → String) where
    -- What `show` does in a directory.
    abbrev show_in : Bool → Bool → FilePath → Action (Unit {0})
    show_in private_too public_too dir =
        show_private_key c debug_path private_too (join dir default_keystore_name)
        >>= λ printed_any.
            (if printed_any then println "\n" else pure tt)
            >> show_public_key c debug_path public_too (join dir default_keystore_name)

    show_private_key_lem :
        (path : FilePath) (k : c.PrivateKeySigner) (p : Process)
        → read_from_keystore c path p.disk ≡ ok k
        → show_private_key c debug_path true path p
          ≡ (record p { stdout = p.stdout ++ (c.hex_encode (c.credential_bytes k) ∷ []) }, ok true)
    show_private_key_lem path k p h =
        ap
          (λ r.
            rest (λ signer. print (c.hex_encode (c.credential_bytes signer)) >> pure true) (p, r))
          h

    show_public_key_lem :
        (path : FilePath) (k : c.PrivateKeySigner) (p : Process)
        → read_from_keystore c path p.disk ≡ ok k
        → show_public_key c debug_path true path p
          ≡ (record p { stdout = p.stdout ++ (c.hex_encode (c.address k) ∷ []) }, ok tt)
    show_public_key_lem path k p h =
        ap (λ r. rest (λ signer. print (c.hex_encode (c.address signer))) (p, r)) h

    -- A process that has printed.
    abbrev printed : Process → List String → Process × Result String (Unit {0})
    printed p l = (record p { stdout = l }, ok tt)

    -- What follows the private key.
    abbrev then_public : Bool → FilePath → Bool → Action (Unit {0})
    then_public public_too path printed_any =
        (if printed_any then println "\n" else pure tt)
        >> show_public_key c debug_path public_too path

    show_in_lem :
        (private_too public_too : Bool) (dir : FilePath) (k : c.PrivateKeySigner) (p : Process)
        → read_from_keystore c (join dir default_keystore_name) p.disk ≡ ok k
        → show_in private_too public_too dir p
          ≡ printed p (p.stdout ++ shown private_too public_too k)
    show_in_lem false false dir k p h = ap (printed p) (sym (append-nil p.stdout))
    show_in_lem false true dir k p h = show_public_key_lem (join dir default_keystore_name) k p h
    show_in_lem true false dir k p h =
        let path = join dir default_keystore_name in
        ap (rest (then_public false path)) (show_private_key_lem path k p h)
        ∙ ap (printed p) (append_assoc p.stdout _ _)
    show_in_lem true true dir k p h =
        let path = join dir default_keystore_name in
        ap (rest (then_public true path)) (show_private_key_lem path k p h)
        ∙ show_public_key_lem path k
            (record p {
              stdout = (p.stdout ++ (c.hex_encode (c.credential_bytes k) ∷ [])) ++ ("\n\n" ∷ []);
            })
            h
        ∙ ap (printed p) (simp append_assoc)

    show_key_lem :
        (args : ShowArgs) (dir : FilePath) (k : c.PrivateKeySigner) (p : Process)
        → attestor_dir args.keystore p ≡ (p, ok dir)
        → read_from_keystore c (join dir default_keystore_name) p.disk ≡ ok k
        → show_key c debug_path args p
          ≡ (record p { stdout = p.stdout ++ shown args.show_private args.show_public k }, ok tt)
    unfolding show_key
    show_key_lem args dir k p found h =
        ap (rest (show_in args.show_private args.show_public)) found
        ∙ show_in_lem args.show_private args.show_public dir k p h

    -- After a `generate` that succeeded, `show` for the same directory succeeds, changes nothing but
    -- the output, and prints just what its flags ask for of the key that was generated.
    pub show_key-generate_key :
        KeystoreLaws c
        → (args : GenerateArgs) (seed entropy : ℕ) (p p' : Process) (private_too public_too : Bool)
        → generate_key c debug_path args seed entropy p ≡ (p', ok tt)
        → show_key c debug_path
            (record {
              show_private = private_too;
              show_public = public_too;
              keystore = args.keystore;
            })
            p'
          ≡ (
            record p' { stdout = p'.stdout ++ shown private_too public_too (c.random_key seed) },
            ok tt,
          )
    unfolding read_from_keystore
    show_key-generate_key laws args seed entropy p p' private_too public_too h =
        let g = generate_key-Generated c debug_path seed entropy args p p' h in
        show_key_lem _ g.dir (c.random_key seed) p'
          (attestor_dir-env_var args.keystore p p' g.dir g.env_var g.chosen)
          (ap (λ f. c.decrypt_keystore f "") g.contents
            ∙ laws.decrypt-encrypt (c.random_key seed) entropy "")

-- A path that does not begin with the home directory's tilde does not after a join.
starts_with_home-join :
    (dir : FilePath)
    → starts_with_home dir ≡ false
    → starts_with_home (join dir default_keystore_name) ≡ false
starts_with_home-join [] h = refl
starts_with_home-join (b ∷ []) h = ground arith
starts_with_home-join (b ∷ d ∷ p) h = ground arith

-- The signer at a path.
abbrev load : (c : Crates) → Process → FilePath → Result SignerError (LocalSigner c)
load c p path =
    map_ok (λ signer. record { inner = signer })
      (map_err config_error (read_from_keystore c path p.disk))

-- After a `generate` that succeeded, a local signer that is configured with the directory in which the
-- key was saved is built, and signs with that key. The directory is one whose path does not begin
-- with a tilde.
pub build-generate_key :
    (c : Crates) (debug_path : FilePath → String)
    → KeystoreLaws c
    → (args : GenerateArgs) (seed entropy : ℕ) (p p' : Process) (dir : FilePath)
    → generate_key c debug_path args seed entropy p ≡ (p', ok tt)
    → attestor_dir args.keystore p ≡ (p, ok dir)
    → starts_with_home dir ≡ false
    → build c p' (record { keystore_path = dir }) ≡ ok (record { inner = c.random_key seed })
unfolding build read_from_keystore
build-generate_key c debug_path laws args seed entropy p p' dir h chosen plain =
    let g = generate_key-Generated c debug_path seed entropy args p p' h in
    let same : g.dir ≡ dir = ok_injective (sym (ap (λ v. v.1) g.chosen) ∙ ap (λ v. v.1) chosen) in
    let is_dir : p'.disk.is_dir dir ≡ true = rw same at g.is_dir in
    let key = c.random_key seed in
    let read : read_from_keystore c (join g.dir default_keystore_name) p'.disk ≡ ok key =
      ap (λ f. c.decrypt_keystore f "") g.contents ∙ laws.decrypt-encrypt key entropy "" in
    let path : with_expanded_home p' (path_with_file p'.disk dir)
        ≡ ok (join dir default_keystore_name) =
      rw (is_dir, starts_with_home-join dir plain) refl in
    ap (λ r. and_then r (load c p')) path
    ∙ ap (λ r. map_ok (λ signer. record { inner = signer }) (map_err config_error r))
        (rw same at read)
