-- ===== src/Examples/Codecs.antt =====
-- jsonrpc: two requests on one connection, and messages that go nowhere.
use birpc.Base.{◌≡◌, ◌≢◌, ◌↔◌, refl, none, some, [], ◌∷◌, arith, inl}
use birpc.Base.Dict.{get}
use birpc.Base.Text.{codes}
use birpc.Examples.Data.{json}
use birpc.Json.{decoded, ServerRequest, ClientResponse, no_value}
use birpc.Json.Server.{new_server_codec, read_request_header, write_response}
use birpc.Json.Server.Echo.{reads_header, writes, run, response_echoes_id}
use birpc.Json.Client.{new_client_codec, read_response_header, read_response_body, error_of}
use birpc.Json.Client.Headers.{body_after_header}
use birpc.Json.Bidirectional.{
  Message, new_json_birpc_codec, IdReader, read_header, JsonCodec, Headers,
}
use birpc.Json.Bidirectional.Routing.{read_header_panics, request_answered_by_id}
use birpc.Json.Bidirectional
use birpc.Wire.{Response, plain, plain_error, zero_request, zero_response, nil_value}

abbrev first_request : ServerRequest
first_request = record { method = codes "A.B"; params = some (codes "[1]"); id = some (codes "7") }

abbrev next_request : ServerRequest
next_request = record { method = codes "A.C"; params = none; id = none }

abbrev first_response : Response
first_response = record { seq = 1; error = []; next = none }

abbrev next_response : Response
next_response = record { seq = 2; error = codes "no"; next = none }

response_echoes_id_example :
    let c = new_server_codec (decoded first_request ∷ decoded next_request ∷ []) in
    let c₁ =
      run json
        (read_request_header c zero_request).0
        (reads_header ∷ writes next_response nil_value ∷ []) in
    let (c₂, e) = write_response json c₁ first_response (plain 3) in
    (e ≡ none)
    × (c₂.sent ≡ record { id = codes "7"; result = plain 3; error = none } ∷ c₁.sent)
    × (write_response json c₂ first_response (plain 4)
        ≡ (c₂, some (plain_error (codes "invalid sequence number in response"))))
unfolding new_server_codec read_request_header
response_echoes_id_example =
    response_echoes_id json (new_server_codec (decoded first_request ∷ decoded next_request ∷ []))
      first_request (decoded next_request ∷ []) (reads_header ∷ writes next_response nil_value ∷ [])
      first_response (plain 3) (plain 4) refl (omega arith) refl (ground arith, tt) refl

abbrev reply : ClientResponse
reply = record { id = 4; result = some (codes "12"); error = no_value }

body_after_header_example :
    read_response_body json
      (read_response_header (new_client_codec (decoded reply ∷ [])) zero_response).0
      (plain 1)
    ≢ none
unfolding new_client_codec read_response_header error_of
body_after_header_example =
    body_after_header json (new_client_codec (decoded reply ∷ []))
      (read_response_header (new_client_codec (decoded reply ∷ [])) zero_response).0 zero_response
      (record { seq = 4; error = []; next = none }) (plain 1) refl (inl refl)

abbrev bare_message : Message
bare_message = record {
  method = [];
  params = none;
  id = none;
  result = some (codes "1");
  error = no_value;
}

abbrev ids : IdReader
ids = record { read_id = λ t. (1, none) }

read_header_panics_example :
    (read_header ids (new_json_birpc_codec (decoded bare_message ∷ [])) zero_request zero_response
      ≡ none)
    ↔ ((bare_message.method ≡ []) × (bare_message.id ≡ none))
unfolding new_json_birpc_codec
read_header_panics_example =
    read_header_panics ids (new_json_birpc_codec (decoded bare_message ∷ [])) bare_message []
      zero_request zero_response refl

abbrev call_message : Message
call_message = record {
  method = b'A' ∷ codes ".B";
  params = none;
  id = some (codes "7");
  result = none;
  error = no_value;
}

request_answered_by_id_example :
    let c = new_json_birpc_codec (decoded call_message ∷ []) in
    (c' : JsonCodec) × (h : Headers) × (read_header ids c zero_request zero_response ≡ some (c', h))
    × (h.req.service_method ≡ codes "A.B")
    × ((Bidirectional.write_response json c'
          (record { seq = h.req.seq; error = []; next = none })
          (plain 3)).0.sent_responses
        ≡ record { id = codes "7"; result = plain 3; error = none } ∷ [])
unfolding new_json_birpc_codec get
request_answered_by_id_example =
    request_answered_by_id json ids (new_json_birpc_codec (decoded call_message ∷ [])) call_message
      [] b'A' (codes ".B") [] (plain 3) refl refl refl (λ r. refl)
