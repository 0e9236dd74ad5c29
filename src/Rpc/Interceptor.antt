-- ===== src/Rpc/Interceptor.antt =====
-- The interceptors of requests: of the service, in apps/ibc-attestor/src/rpc/interceptor.rs, and of the
-- remote signer's client, in apps/ibc-attestor/src/signer/remote.rs. The context of a span is left out.
use ibc_attestor.Common.{String, Option, none, some, List, map, Result, ok}
use ibc_attestor.Error.{Status}
use ibc_attestor.World.{SignerClient}

-- A key of a request's metadata, by the kind of its values.
pub data KeyRef : Type 0 where
  ascii binary : String → KeyRef

-- tonic's metadata of a request: the value for a key, the text of a value if it has one, the keys, and
-- the insertion of a value under a key.
pub record Metadata : Type 1 where
  pub MetadataMap : Type 0
  pub MetadataValue : Type 0
  pub get : MetadataMap → String → Option MetadataValue
  pub to_str : MetadataValue → Option String
  pub keys : MetadataMap → List KeyRef
  pub insert : String → String → MetadataMap → MetadataMap

module _ (m : Metadata) where
  -- `Extractor for MetadataExtractor`
  abbrev and_then_text : Option m.MetadataValue → Option String
  and_then_text none = none
  and_then_text (some v) = m.to_str v

  unfoldable pub get : m.MetadataMap → String → Option String
  get self key = and_then_text (m.get self key)

  abbrev pub key_text : KeyRef → String
  key_text (ascii key) = key
  key_text (binary key) = key

  unfoldable pub keys : m.MetadataMap → List String
  keys self = map key_text (m.keys self)

  -- A request is its metadata here: the context that is extracted goes to the span.
  unfoldable pub tracing_interceptor : m.MetadataMap → Result Status m.MetadataMap
  tracing_interceptor request = ok request

  -- `AuthInterceptor::call`, with the header of the client's connection.
  abbrev insert_header : Option String → m.MetadataMap → m.MetadataMap
  insert_header none request = request
  insert_header (some header) request = m.insert "authorization" header request

  unfoldable pub call : SignerClient → m.MetadataMap → Result Status m.MetadataMap
  call self request = ok (insert_header self.bearer_header request)
