-- ===== src/Signer/Dispatch/Emitted.antt =====
-- The signers count no request to the service.
use ibc_attestor.Common.{refl, Option, none, some, Bytes, map_err, map_ok, ok_or, String}
use ibc_attestor.Crates.{Crates}
use ibc_attestor.Error.{connection_error, remote_error}
use ibc_attestor.Future.{ready, ask, fmap, ◌>>=◌}
use ibc_attestor.Future.Emitted.{no_request, CountsNoRequest, Emits-bind, Emits-fmap, Emits->>=}
use ibc_attestor.Signer.{Signer}
use ibc_attestor.Signer.Dispatch.{SignerEnum, local, remote, inner, counted, sign, signer_enum}
use ibc_attestor.Signer.Local
use ibc_attestor.Signer.Remote
use ibc_attestor.Signer.Remote.{RemoteSigner}
use ibc_attestor.Signer.Remote.Answers.{parse, sign_with, find_wallet, sign_request}
use ibc_attestor.World.{
  SignerClient, Wallet, ethereum, signer_connect, signer_get_wallet, signer_sign,
}

module _ (c : Crates) where
  header-quiet : (path : Option String) → CountsNoRequest (Remote.optional_header c path)
  unfolding Remote.optional_header Remote.load_bearer_header
  header-quiet none = tt
  header-quiet (some path) =
      Emits-fmap no_request (map_ok some) (Remote.load_bearer_header c path) (λ x.
        Emits->>= no_request (ready (map_err _ x))
          (λ token. ready (Remote.bearer_value c path token)) tt (λ token. tt))

  create_client-quiet : (s : RemoteSigner) → CountsNoRequest (Remote.create_client c s)
  unfolding Remote.create_client
  create_client-quiet s =
      Emits->>= no_request (ready (map_err connection_error (c.endpoint_from_shared s.endpoint))) _
        tt
        λ endpoint.
          Emits->>= no_request
            (fmap (map_err connection_error) (ask (signer_connect endpoint Remote.timeout))) _
            (λ x. tt)
            λ connected.
              Emits->>= no_request (Remote.optional_header c s.service_account_token_path) _
                (header-quiet s.service_account_token_path) (λ header. tt)

  -- What follows the wallet, and what follows the connection.
  sign_with-quiet :
      (s : RemoteSigner) (client : SignerClient) (wallet : Wallet) (message : Bytes)
      → CountsNoRequest (sign_with c s client message wallet)
  sign_with-quiet s client wallet message =
      Emits->>= no_request
        (fmap (map_err remote_error) (ask (signer_sign client (sign_request wallet message))))
        (parse c s) (λ x. tt)
        λ response.
          Emits->>= no_request (ready (ok_or (remote_error "no signature in response") response))
            (λ signature. ready (Remote.recoverable_bytes signature) >>= λ bytes.
              ready (Remote.parse_signature c bytes))
            tt
            λ signature.
              Emits->>= no_request (ready (Remote.recoverable_bytes signature))
                (λ bytes. ready (Remote.parse_signature c bytes)) tt (λ bytes. tt)

  find_wallet-quiet :
      (s : RemoteSigner) (client : SignerClient) (message : Bytes)
      → CountsNoRequest (find_wallet c s client message)
  find_wallet-quiet s client message =
      Emits->>= no_request
        (fmap (map_err remote_error) (ask (signer_get_wallet client s.wallet_id ethereum))) _
        (λ x. tt)
        λ answer.
          Emits->>= no_request (ready (ok_or (remote_error "wallet not found") answer))
            (sign_with c s client message) tt (λ wallet. sign_with-quiet s client wallet message)

  signed-quiet : (s : SignerEnum c) (message : Bytes) → CountsNoRequest ((inner c s).sign message)
  unfolding Local.sign Remote.sign
  signed-quiet (local s) message = tt
  signed-quiet (remote s) message =
      Emits->>= no_request (Remote.create_client c s) (λ client. find_wallet c s client message)
        (create_client-quiet s) (λ client. find_wallet-quiet s client message)

  -- A signer that counts no request to the service.
  abbrev pub QuietSigner : Signer c → Type 0
  QuietSigner signer = (message : Bytes) → CountsNoRequest (signer.sign message)

  pub signer_enum-QuietSigner : (s : SignerEnum c) → QuietSigner (signer_enum c s)
  unfolding sign
  signer_enum-QuietSigner s message =
      Emits-bind no_request ((inner c s).sign message) (counted c) (signed-quiet s message)
        (λ r. (refl, tt))
