-- ===== src/Signer/Remote.antt =====
-- apps/ibc-attestor/src/signer/remote.rs
pub mod Parts
pub mod Answers
use ibc_attestor.Common.{
  ℕ, String, ◌<>◌, ◌==◌, Option, none, some, Result, ok, err, Bytes, ◌++◌, map_err, map_ok, ok_or,
  length, if◌then◌else◌,
}
use ibc_attestor.Common.Text.{decimal, trim, is_empty_text}
use ibc_attestor.Crates.{Crates}
use ibc_attestor.Error.{
  SignerError, config_error, connection_error, remote_error, invalid_signature,
}
use ibc_attestor.Future.{Future, ready, ask, fmap, ◌>>=◌, return}
use ibc_attestor.Signer.{Signer}
use ibc_attestor.World.{
  ethereum, SignerClient, SignSignature, recoverable_signature, recoverable_message, read_to_string,
  signer_connect, signer_get_wallet, signer_sign,
}

pub record RemoteSigner : Type 0 where
  pub endpoint : String
  pub wallet_id : String
  pub service_account_token_path : Option String

pub record RemoteSignerConfig : Type 0 where
  pub endpoint : String
  pub wallet_id : String
  pub service_account_token_path : Option String

-- `RemoteSigner::new`
abbrev pub new : String → String → Option String → RemoteSigner
new endpoint wallet_id service_account_token_path = record {
  endpoint = endpoint;
  wallet_id = wallet_id;
  service_account_token_path = service_account_token_path;
}

-- `RemoteSigner::build`, which cannot fail.
unfoldable pub build : RemoteSignerConfig → Result SignerError RemoteSigner
build config = ok (new config.endpoint config.wallet_id config.service_account_token_path)

-- The seconds that each request over the connection may take.
abbrev pub timeout : ℕ
timeout = 30

-- The bytes of the one kind of signature that is asked for.
abbrev pub recoverable_bytes : SignSignature → Result SignerError Bytes
recoverable_bytes (recoverable_signature r s v) = ok (r ++ (s ++ v))
recoverable_bytes _ = err (invalid_signature "expected resoverable signature")

module _ (c : Crates) where
  -- The header value for the text of a token file.
  unfoldable pub bearer_value : String → String → Result SignerError String
  unfolding trim
  bearer_value path token =
      let trimmed = trim token in
      if is_empty_text trimmed
      then err (config_error ("service account token file at " <> (path <> " is empty")))
      else map_err (λ e. config_error ("invalid token bytes: " <> e))
          (c.metadata_value ("Bearer " <> trimmed))

  unfoldable pub load_bearer_header : String → Future (Result SignerError String)
  load_bearer_header path = do
    token ←
        fmap (map_err λ e. config_error ("read service account token at " <> (path <> (": " <> e))))
          (ask (read_to_string path))
    ready (bearer_value path token)

  -- The header, where a token file is configured.
  unfoldable pub optional_header : Option String → Future (Result SignerError (Option String))
  optional_header none = return none
  optional_header (some path) = fmap (map_ok some) (load_bearer_header path)

  -- The test of the length, and the conversion of the bytes.
  unfoldable pub parse_signature : Bytes → Result SignerError c.Signature
  unfolding decimal
  parse_signature bytes =
      if length bytes == 65
      then map_err invalid_signature (c.signature_try_from bytes)
      else err (invalid_signature ("expected 65 bytes, got " <> decimal (length bytes)))

module _ (c : Crates) (self : RemoteSigner) where
  unfoldable pub create_client : Future (Result SignerError SignerClient)
  create_client = do
    endpoint ← ready (map_err connection_error (c.endpoint_from_shared self.endpoint))
    connected ← fmap (map_err connection_error) (ask (signer_connect endpoint timeout))
    bearer_header ← optional_header c self.service_account_token_path
    return (record { endpoint = endpoint; bearer_header = bearer_header })

  unfoldable pub sign : Bytes → Future (Result SignerError c.Signature)
  sign message = do
    client ← create_client
    answer ← fmap (map_err remote_error) (ask (signer_get_wallet client self.wallet_id ethereum))
    wallet ← ready (ok_or (remote_error "wallet not found") answer)
    response ← fmap (map_err remote_error) (
        ask (
          signer_sign client
            (record { wallet_id = wallet.id; payload = some (recoverable_message message) })))
    signature ← ready (ok_or (remote_error "no signature in response") response)
    bytes ← ready (recoverable_bytes signature)
    ready (parse_signature c bytes)

  -- `impl Signer for RemoteSigner`
  abbrev pub remote_signer : Signer c
  remote_signer = record { sign = sign }
