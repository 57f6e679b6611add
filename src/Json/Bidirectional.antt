-- ===== src/Json/Bidirectional.antt =====
-- jsonrpc/birpc_codec.go: the codec of a connection that carries requests both ways.
pub mod Routing
use birpc.Base.{ℕ, ◌+◌, Option, none, some, List, [], ◌∷◌, ◌++◌, nat_Eq}
use birpc.Base.Text.{Text, codes}
use birpc.Base.Dict.{Dict, get, put, delete}
use birpc.Json.{
  Decoded, decoded, undecodable, Any, no_value, ServerRequest, zero_server_request, ServerResponse,
  ClientRequest, ClientResponse, zero_client_response, Json,
}
use birpc.Json.Server.{id_or_null, response_of}
use birpc.Json.Client.{error_of}
use birpc.Wire.{Request, Response, Value, nil_value, Err, eof, err_missing_params, plain_error, u64}

-- serverRequest and clientResponse combined
pub record Message : Type 0 where
  pub method : Text
  pub params : Option Text
  pub id : Option Text
  pub result : Option Text
  pub error : Any

pub record JsonCodec : Type 0 where
  pub incoming : List (Decoded Message)
  pub sent_responses : List ServerResponse
  pub sent_requests : List ClientRequest
  pub server_request : ServerRequest
  pub client_response : ClientResponse
  pub pending : Dict ℕ (Option Text)
  pub seq : ℕ

-- NewJSONBirpcCodec
unfoldable pub new_json_birpc_codec : List (Decoded Message) → JsonCodec
new_json_birpc_codec incoming = record {
  incoming = incoming;
  sent_responses = [];
  sent_requests = [];
  server_request = zero_server_request;
  client_response = zero_client_response;
  pending = [];
  seq = 0;
}

-- What ReadHeader returns: the two headers and an error or none.
pub record Headers : Type 0 where
  pub req : Request
  pub resp : Response
  pub error : Option Err

-- a request: it gets a number if it has an id, and none if it is a notification
unfoldable pub take_request : JsonCodec → Message → Request → JsonCodec × Request
take_request c m req = elim m.id [
  | none ↦ (
    record c { server_request = record { method = m.method; params = m.params; id = none } },
    record req { service_method = m.method },
  )
  | some id ↦ (
    record c {
      server_request = record { method = m.method; params = m.params; id = none };
      seq = u64 (c.seq + 1);
      pending = put (u64 (c.seq + 1)) (some id) c.pending;
    },
    record req { service_method = m.method; seq = u64 (c.seq + 1) },
  )
]

-- What Unmarshal makes of an id: a number, or an error.
pub record IdReader : Type 0 where
  pub read_id : Text → ℕ × Option Err

-- a response; `none` is the panic of a message without an id, or with the id null
unfoldable pub take_reply :
    IdReader → JsonCodec → Message → Response → Option (JsonCodec × Response × Option Err)
unfolding error_of
take_reply ids c m resp = elim m.id [
  | none ↦ none
  | some id ↦
      let (n, e) = ids.read_id id in
      elim e [
        | some x ↦ some (c, resp, some x)
        | none ↦
            let (text, e') = error_of m.result m.error in
            some (
              record c { client_response = record { id = n; result = m.result; error = m.error } },
              record resp { seq = n; error = text },
              e',
            )
      ]
]

-- a message by its method
unfoldable pub take_message :
    IdReader → Text → JsonCodec → Message → Request → Response → Option (JsonCodec × Headers)
unfolding take_request take_reply
take_message ids [] c m req resp = elim (take_reply ids c m resp) [
  | none ↦ none
  | some (c', resp', e) ↦ some (c', record { req = req; resp = resp'; error = e })
]
take_message ids (x ∷ s) c m req resp =
    let (c', req') = take_request c m req in
    some (c', record { req = req'; resp = resp; error = none })

-- ReadHeader; `none` is a panic
unfoldable pub read_header :
    IdReader → JsonCodec → Request → Response → Option (JsonCodec × Headers)
unfolding take_message
read_header ids c req resp = elim c.incoming [
  | [] ↦ some (c, record { req = req; resp = resp; error = some eof })
  | d ∷ rest ↦ elim d [
    | undecodable e ↦
        some (record c { incoming = rest }, record { req = req; resp = resp; error = some e })
    | decoded m ↦ take_message ids m.method (record c { incoming = rest }) m req resp
  ]
]

module _ (json : Json) where
  -- ReadRequestBody
  unfoldable pub read_request_body : JsonCodec → Value → Value × Option Err
  read_request_body c nil_value = (nil_value, none)
  read_request_body c x = elim c.server_request.params [
    | none ↦ (x, some err_missing_params)
    | some t ↦ json.unmarshal_params t x
  ]

  -- ReadResponseBody; `none` is the panic of a nil `Result`
  unfoldable pub read_response_body : JsonCodec → Value → Option (Value × Option Err)
  read_response_body c nil_value = some (nil_value, none)
  read_response_body c x = elim c.client_response.result [
    | none ↦ none
    | some t ↦ some (json.unmarshal t x)
  ]

  unfoldable pub write_request : JsonCodec → Request → Value → JsonCodec × Option Err
  write_request c r param =
      let m : ClientRequest = record { method = r.service_method; params = param; id = r.seq } in
      elim (json.encode_request m) [
        | none ↦ (record c { sent_requests = m ∷ c.sent_requests }, none)
        | some e ↦ (c, some e)
      ]

  unfoldable pub write_response : JsonCodec → Response → Value → JsonCodec × Option Err
  write_response c r x = elim (get r.seq c.pending) [
    | none ↦ (c, some (plain_error (codes "invalid sequence number in response")))
    | some b ↦
        let m : ServerResponse = response_of json b r.error x in
        let c' : JsonCodec = record c { pending = delete r.seq c.pending } in
        elim (json.encode_response m) [
          | none ↦ (record c' { sent_responses = m ∷ c.sent_responses }, none)
          | some e ↦ (c', some e)
        ]
  ]

-- Close; `shut` says what the connection still brings after it, and its error
unfoldable pub close :
    (List (Decoded Message) → List (Decoded Message) × Option Err)
    → JsonCodec
    → JsonCodec × Option Err
close shut c = let (rest, e) = shut c.incoming in (record c { incoming = rest }, e)
