-- ===== src/Signer/Remote/Parts.antt =====
-- The parts of a signature: its bytes, its parsing and the header of the connection.
use ibc_attestor.Common.{
  ◌≡◌, ◌==◌, refl, sym, String, ◌<>◌, Option, none, some, List, [], ◌++◌, ok, Bytes, map_err,
  map_err-eq-ok, map_ok, map_ok-eq-ok, length, arith, ok_injective, Bool-cases, inl, inr,
}
use ibc_attestor.Common.Text.{trim, is_empty_text}
use ibc_attestor.Crates.{Crates}
use ibc_attestor.Error.{config_error, invalid_signature}
use ibc_attestor.Future.{ready}
use ibc_attestor.Future.Runs.{Happening, answered, Run, Occurs, Occurs-Within, Within, Run-fmap}
use ibc_attestor.Future.Steps.{asked-ok}
use ibc_attestor.Signer.Remote.{
  recoverable_bytes, bearer_value, load_bearer_header, optional_header, parse_signature,
}
use ibc_attestor.World.{
  SignSignature, evm_signature, cosmos_signature, raw_signature, solana_signature,
  recoverable_signature, read_to_string,
}

pub recoverable_bytes-cases :
    (signature : SignSignature) (b : Bytes)
    → recoverable_bytes signature ≡ ok b
    → (r : Bytes) × (s : Bytes) × (v : Bytes) × (signature ≡ recoverable_signature r s v)
      × (b ≡ r ++ (s ++ v))
recoverable_bytes-cases (recoverable_signature r s v) b h = (r, s, v, refl, sym (ok_injective h))
recoverable_bytes-cases (evm_signature r s v) b h = cc
recoverable_bytes-cases (cosmos_signature s) b h = cc
recoverable_bytes-cases (raw_signature s) b h = cc
recoverable_bytes-cases (solana_signature s) b h = cc

module _ (c : Crates) where
  pub parse_signature-cases :
      (b : Bytes) (s : c.Signature)
      → parse_signature c b ≡ ok s
      → (length b ≡ 65) × (c.signature_try_from b ≡ ok s)
  unfolding parse_signature
  parse_signature-cases b s h = elim (Bool-cases (length b == 65)) [
    | inl long ↦
        (ground arith, map_err-eq-ok invalid_signature (c.signature_try_from b) s (rw long at h))
    | inr other ↦ let e = rw other at h in cc
  ]

  bearer_value-cases :
      (path token value : String)
      → bearer_value c path token ≡ ok value
      → c.metadata_value ("Bearer " <> trim token) ≡ ok value
  unfolding bearer_value
  bearer_value-cases path token value h = elim (Bool-cases (is_empty_text (trim token))) [
    | inl empty ↦ let e = rw empty at h in cc
    | inr full ↦ map_err-eq-ok _ _ value (rw full at h)
  ]

  -- The header of a connection: none where no token file is configured, and else made of the file's
  -- text as it was read for this connection.
  abbrev pub HasHeader : Option String → Option String → List Happening → Type 0
  HasHeader none header h = header ≡ none
  HasHeader (some path) header h =
      (token : String) × (value : String) × Occurs (answered (read_to_string path) (ok token)) h
      × (c.metadata_value ("Bearer " <> trim token) ≡ ok value)
      × (header ≡ some value)

  pub optional_header-HasHeader :
      (path header : Option String) (h : List Happening)
      → Run (optional_header c path) h (ok header)
      → HasHeader path header h
  unfolding optional_header load_bearer_header
  optional_header-HasHeader none header h (e, p) = sym (ok_injective p)
  optional_header-HasHeader (some path) header h run =
      let (r, loaded, same) =
        Run-fmap (map_ok some) (load_bearer_header c path) h (ok header) run in
      let (value, read, there) = map_ok-eq-ok some r header same in
      let (token, x, k, joined, answer, (e, parsed)) =
        asked-ok (λ token. ready (bearer_value c path token)) value h (read_to_string path)
          (map_err λ e. config_error ("read service account token at " <> (path <> (": " <> e))))
          (rw read at loaded) in
      (
        token,
        value,
        ([], k, rw joined (rw (map_err-eq-ok _ x token answer) refl)),
        bearer_value-cases path token value parsed,
        sym there,
      )

pub HasHeader-Within :
    (c : Crates) (path header : Option String) (k h : List Happening)
    → HasHeader c path header k
    → Within k h
    → HasHeader c path header h
HasHeader-Within c none header k h p within = p
HasHeader-Within c (some path) header k h (token, value, read, valid, e) within =
    (token, value, Occurs-Within _ k h read within, valid, e)
