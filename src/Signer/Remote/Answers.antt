-- ===== src/Signer/Remote/Answers.antt =====
-- What a signature of the remote signer comes from.
use mathlib.Core.List.{append_assoc}
use ibc_attestor.Common.{
  ◌≡◌, refl, ap, ◌∙◌, String, Option, some, List, [], ◌∷◌, ◌++◌, Result, ok, Bytes, map_err,
  map_err-eq-ok, ok_or, ok_or-eq-ok, length, ok_injective,
}
use ibc_attestor.Crates.{Crates}
use ibc_attestor.Error.{SignerError, connection_error, remote_error}
use ibc_attestor.Future.{Future, ◌>>=◌, fmap, ask, return, ready}
use ibc_attestor.Future.Runs.{Happening, answered, Run, Occurs, Occurs-append, >>=-ok}
use ibc_attestor.Future.Steps.{and_then-ok, asked-ok}
use ibc_attestor.Signer.Remote.{
  RemoteSigner, timeout, recoverable_bytes, optional_header, parse_signature, create_client, sign,
}
use ibc_attestor.World.{
  ethereum, SignerClient, Wallet, SignRequest, SignSignature, recoverable_signature,
  recoverable_message, signer_connect, signer_get_wallet, signer_sign,
}
use ibc_attestor.Signer.Remote.Parts.{
  recoverable_bytes-cases, parse_signature-cases, HasHeader, HasHeader-Within,
  optional_header-HasHeader,
}

-- The request to sign a message with a wallet.
abbrev pub sign_request : Wallet → Bytes → SignRequest
sign_request wallet message = record {
  wallet_id = wallet.id;
  payload = some (recoverable_message message);
}

-- What a signature over a message comes from: the connection, the wallet and the signature that the
-- remote service answered, in a run with the happenings `h`.
pub record SignedRemotely (c : Crates) (self : RemoteSigner) (message : Bytes) (h : List Happening)
    (signature : c.Signature) : Type 0 where
  pub client : SignerClient
  pub wallet : Wallet
  pub r : Bytes
  pub s : Bytes
  pub v : Bytes
  pub endpoint : c.endpoint_from_shared self.endpoint ≡ ok client.endpoint
  pub connected : Occurs (answered (signer_connect client.endpoint 30) (ok tt)) h
  pub header : HasHeader c self.service_account_token_path client.bearer_header h
  pub found :
      Occurs (answered (signer_get_wallet client self.wallet_id ethereum) (ok (some wallet))) h
  pub signed :
      Occurs
        (answered
          (signer_sign client (sign_request wallet message))
          (ok (some (recoverable_signature r s v))))
        h
  pub long : length (r ++ (s ++ v)) ≡ 65
  pub parsed : c.signature_try_from (r ++ (s ++ v)) ≡ ok signature

-- The happening at the head of the second part of a run.
occurs_after :
    (before k h rest : List Happening) (e : Happening) → h ≡ before ++ k → k ≡ e ∷ rest → Occurs e h
occurs_after before k h rest e joined head = (before, rest, joined ∙ ap (λ l. before ++ l) head)

module _ (c : Crates) (self : RemoteSigner) where
  -- The rest of `create_client` after each of its steps.
  abbrev client_with : String → Option String → Future (Result SignerError SignerClient)
  client_with endpoint header = return (record { endpoint = endpoint; bearer_header = header })

  abbrev attach : String → Future (Result SignerError SignerClient)
  attach endpoint =
      optional_header c self.service_account_token_path >>= λ header. client_with endpoint header

  abbrev connect : String → Future (Result SignerError SignerClient)
  connect endpoint =
      fmap (map_err connection_error) (ask (signer_connect endpoint timeout)) >>= λ _.
      attach endpoint

  -- The rest of `sign` after each of its steps.
  abbrev pub parse : Option SignSignature → Future (Result SignerError c.Signature)
  parse response = ready (ok_or (remote_error "no signature in response") response) >>= λ signature.
      ready (recoverable_bytes signature) >>= λ bytes. ready (parse_signature c bytes)

  abbrev pub sign_with : SignerClient → Bytes → Wallet → Future (Result SignerError c.Signature)
  sign_with client message wallet =
      fmap (map_err remote_error) (ask (signer_sign client (sign_request wallet message)))
      >>= λ response. parse response

  abbrev pub find_wallet : SignerClient → Bytes → Future (Result SignerError c.Signature)
  find_wallet client message =
      fmap (map_err remote_error) (ask (signer_get_wallet client self.wallet_id ethereum))
      >>= λ answer. ready (ok_or (remote_error "wallet not found") answer) >>= λ wallet.
          sign_with client message wallet

  create_client-cases :
      (h : List Happening) (client : SignerClient)
      → Run (create_client c self) h (ok client)
      → (c.endpoint_from_shared self.endpoint ≡ ok client.endpoint)
        × Occurs (answered (signer_connect client.endpoint 30) (ok tt)) h
        × HasHeader c self.service_account_token_path client.bearer_header h
  unfolding create_client
  create_client-cases h client run =
      let (endpoint, valid, run₁) =
        and_then-ok (λ endpoint. connect endpoint) client h
          (map_err connection_error (c.endpoint_from_shared self.endpoint)) run in
      let (u, x, k, joined, answer, run₂) =
        asked-ok (λ _. attach endpoint) client h (signer_connect endpoint timeout)
          (map_err connection_error) run₁ in
      let t =
        >>=-ok (optional_header c self.service_account_token_path)
          (λ header. client_with endpoint header) k client run₂ in
      let same = ok_injective t.after.1 in
      let header =
        optional_header-HasHeader c self.service_account_token_path t.value t.first t.before in
      let answered_ok = map_err-eq-ok connection_error x u answer in
      let later = joined ∙ ap (λ l. answered (signer_connect endpoint timeout) x ∷ l) t.joined in
      rw (← same) (
        map_err-eq-ok connection_error (c.endpoint_from_shared self.endpoint) endpoint valid,
        rw answered_ok at
            (occurs_after [] h h k (answered (signer_connect endpoint timeout) x) refl joined),
        HasHeader-Within c self.service_account_token_path t.value t.first h header
            (answered (signer_connect endpoint timeout) x ∷ [], t.second, later),
      )

  parse-cases :
      (response : Option SignSignature) (h : List Happening) (signature : c.Signature)
      → Run (parse response) h (ok signature)
      → (r : Bytes) × (s : Bytes) × (v : Bytes) × (response ≡ some (recoverable_signature r s v))
        × (length (r ++ (s ++ v)) ≡ 65)
        × (c.signature_try_from (r ++ (s ++ v)) ≡ ok signature)
  parse-cases response h signature run =
      let (given, there, run₁) =
        and_then-ok
          (λ given. ready (recoverable_bytes given) >>= λ bytes. ready (parse_signature c bytes))
          signature h (ok_or (remote_error "no signature in response") response) run in
      let (bytes, taken, (e, p)) =
        and_then-ok (λ bytes. ready (parse_signature c bytes)) signature h (recoverable_bytes given)
          run₁ in
      let (r, s, v, kind, value) = recoverable_bytes-cases given bytes taken in
      let (long, parsed) = parse_signature-cases c bytes signature p in
      (
        r,
        s,
        v,
        ok_or-eq-ok _ response given there ∙ ap some kind,
        rw value at long,
        rw value at parsed,
      )

  -- A signature of the remote signer over a message: its service was reached at the configured
  -- endpoint, with the token that was read for this connection where a token file is configured; it
  -- answered with a wallet for the configured id, and to the request to sign just this message with
  -- that wallet it answered with a recoverable signature of 65 bytes, which is the one returned.
  pub remote_sign-SignedRemotely :
      (message : Bytes) (h : List Happening) (signature : c.Signature)
      → Run (sign c self message) h (ok signature)
      → SignedRemotely c self message h signature
  unfolding sign
  remote_sign-SignedRemotely message h signature run =
      let t =
        >>=-ok (create_client c self) (λ client. find_wallet client message) h signature run in
      let client = t.value in
      let (valid, connected, header) = create_client-cases t.first client t.before in
      let asks = signer_get_wallet client self.wallet_id ethereum in
      let (answer, x, k, j₁, e₁, run₁) =
        asked-ok
          (λ answer. ready (ok_or (remote_error "wallet not found") answer) >>= λ wallet.
            sign_with client message wallet)
          signature t.second asks (map_err remote_error) t.after in
      let (wallet, there, run₂) =
        and_then-ok (λ wallet. sign_with client message wallet) signature k
          (ok_or (remote_error "wallet not found") answer) run₁ in
      let signs = signer_sign client (sign_request wallet message) in
      let (response, y, l, j₂, e₂, run₃) =
        asked-ok (λ response. parse response) signature k signs (map_err remote_error) run₂ in
      let (r, s, v, given, long, parsed) = parse-cases response l signature run₃ in
      let found =
        map_err-eq-ok remote_error x answer e₁ ∙ ap ok (ok_or-eq-ok _ answer wallet there) in
      let signed = map_err-eq-ok remote_error y response e₂ ∙ ap ok given in
      record {
        client = client;
        wallet = wallet;
        r = r;
        s = s;
        v = v;
        endpoint = valid;
        connected = rw t.joined (Occurs-append _ t.first t.second connected);
        header =
            HasHeader-Within c self.service_account_token_path client.bearer_header t.first h header
              ([], t.second, t.joined);
        found = rw found at (occurs_after t.first t.second h k (answered asks x) t.joined j₁);
        signed = rw signed at (
            occurs_after (t.first ++ (answered asks x ∷ [])) k h l (answered signs y)
              (rw t.joined (rw j₁ (simp append_assoc))) j₂);
        long = long;
        parsed = parsed;
      }
