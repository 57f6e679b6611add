-- ===== src/Json/Client.antt =====
-- jsonrpc/client.go: the client codec.
pub mod Headers
pub mod Ending
pub mod Advancing
pub mod Settling
use birpc.Base.{ℕ, Option, none, some, List, [], ◌∷◌, ◌++◌, nat_Eq}
use birpc.Base.Text.{Text, codes}
use birpc.Base.Dict.{Dict, put, delete}
use birpc.Json.{
  Decoded, decoded, undecodable, Any, no_value, text_value, other_value, ClientRequest,
  ClientResponse, zero_client_response, Json,
}
use birpc.ClientCodec.{ClientCodec}
use birpc.Wire.{Request, Response, Value, nil_value, Err, eof, plain_error}

pub record JsonClient : Type 0 where
  pub incoming : List (Decoded ClientResponse)
  pub sent : List ClientRequest
  pub resp : ClientResponse
  pub pending : Dict ℕ Text

-- NewClientCodec
unfoldable pub new_client_codec : List (Decoded ClientResponse) → JsonClient
new_client_codec incoming = record {
  incoming = incoming;
  sent = [];
  resp = zero_client_response;
  pending = [];
}

-- The error text of a message, or an error for a message with neither a result nor an error text.
-- `%v` of the value is left out of the error's text.
unfoldable pub error_of : Option Text → Any → Text × Option Err
error_of (some t) no_value = ([], none)
error_of result (text_value []) = (codes "unspecified error", none)
error_of result (text_value (c ∷ s)) = (c ∷ s, none)
error_of result (other_value n) = ([], some (plain_error (codes "invalid error")))
error_of none no_value = ([], some (plain_error (codes "invalid error")))

unfoldable pub read_response_header : JsonClient → Response → JsonClient × Response × Option Err
unfolding error_of
read_response_header c r = elim c.incoming [
  | [] ↦ (record c { resp = zero_client_response }, r, some eof)
  | d ∷ rest ↦ elim d [
    | undecodable e ↦ (record c { incoming = rest; resp = zero_client_response }, r, some e)
    | decoded m ↦
        let (text, e) = error_of m.result m.error in
        (
          record c { incoming = rest; resp = m; pending = delete m.id c.pending },
          record r { seq = m.id; error = text },
          e,
        )
  ]
]

module _ (json : Json) where
  unfoldable pub write_request : JsonClient → Request → Value → JsonClient × Option Err
  write_request c r param =
      let m : ClientRequest = record { method = r.service_method; params = param; id = r.seq } in
      let c' : JsonClient = record c { pending = put r.seq r.service_method c.pending } in
      elim (json.encode_request m) [
        | none ↦ (record c' { sent = m ∷ c.sent }, none)
        | some e ↦ (c', some e)
      ]

  -- ReadResponseBody; `none` is the panic of a nil `Result`
  unfoldable pub read_response_body : JsonClient → Value → Option (Value × Option Err)
  read_response_body c nil_value = some (nil_value, none)
  read_response_body c x = elim c.resp.result [ none ↦ none | some t ↦ some (json.unmarshal t x) ]

  -- The codec as a client uses it. `shut` says what the connection still brings after its Close,
  -- and the error of that.
  abbrev pub json_client_codec :
      (List (Decoded ClientResponse) → List (Decoded ClientResponse) × Option Err)
      → ClientCodec JsonClient
  json_client_codec shut = record {
    write_request = write_request;
    read_response_header = read_response_header;
    read_response_body =
        λ c x. elim (read_response_body c x) [ none ↦ none | some (v, e) ↦ some (c, v, e) ];
    close = λ c. let (rest, e) = shut c.incoming in (record c { incoming = rest }, e);
  }
