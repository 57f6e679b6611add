-- ===== src/Json/Server.antt =====
-- jsonrpc/server.go: the server codec. It numbers the requests, and keeps their ids for the
-- responses. The mutex makes the reading of a header and the look-up of an id one step each.
pub mod Echo
use birpc.Base.{ℕ, ◌+◌, Option, none, some, List, [], ◌∷◌, ◌++◌, Bool, nat_Eq}
use birpc.Base.Text.{Text, codes}
use birpc.Base.Dict.{Dict, get, put, delete}
use birpc.Codec.{ServerCodec}
use birpc.Json.{
  Decoded, decoded, undecodable, ServerRequest, zero_server_request, ServerResponse, null_text,
  Json,
}
use birpc.Wire.{Request, Response, Value, nil_value, Err, eof, err_missing_params, plain_error, u64}

-- `incoming` is what the decoder will yield, `sent` what was encoded, newest first.
pub record JsonServer : Type 0 where
  pub incoming : List (Decoded ServerRequest)
  pub sent : List ServerResponse
  pub req : ServerRequest
  pub seq : ℕ
  pub pending : Dict ℕ (Option Text)
  pub closed : ℕ

-- NewServerCodec
unfoldable pub new_server_codec : List (Decoded ServerRequest) → JsonServer
new_server_codec incoming = record {
  incoming = incoming;
  sent = [];
  req = zero_server_request;
  seq = 0;
  pending = [];
  closed = 0;
}

-- the rest of ReadRequestHeader after a message was decoded
abbrev pub number_request : JsonServer → ServerRequest → Request → JsonServer × Request
number_request c q r = (
  record c {
    req = record q { id = none };
    seq = u64 (c.seq + 1);
    pending = put (u64 (c.seq + 1)) q.id c.pending;
  },
  record r { service_method = q.method; seq = u64 (c.seq + 1) },
)

unfoldable pub read_request_header : JsonServer → Request → JsonServer × Request × Option Err
read_request_header c r = elim c.incoming [
  | [] ↦ (record c { req = zero_server_request }, r, some eof)
  | d ∷ rest ↦ elim d [
    | undecodable e ↦ (record c { incoming = rest; req = zero_server_request }, r, some e)
    | decoded q ↦ let (c', r') = number_request (record c { incoming = rest }) q r in (c', r', none)
  ]
]

module _ (json : Json) where
  unfoldable pub read_params : Option Text → Value → Value × Option Err
  read_params none x = (x, some err_missing_params)
  read_params (some t) x = json.unmarshal_params t x

  -- ReadRequestBody; `nil_value` discards the body
  unfoldable pub read_request_body : JsonServer → Value → JsonServer × Value × Option Err
  unfolding read_params
  read_request_body c nil_value = (c, nil_value, none)
  read_request_body c x = let (v, e) = read_params c.req.params x in (c, v, e)

  -- the id that a response carries
  abbrev pub id_or_null : Option Text → Text
  id_or_null none = null_text
  id_or_null (some b) = b

  abbrev pub response_of : Option Text → Text → Value → ServerResponse
  response_of b [] x = record { id = id_or_null b; result = x; error = none }
  response_of b (e ∷ s) x = record { id = id_or_null b; result = nil_value; error = some (e ∷ s) }

  -- Encode: a message is written, or refused with an error
  abbrev pub emit : JsonServer → ServerResponse → JsonServer × Option Err
  emit c m = elim (json.encode_response m) [
    | none ↦ (record c { sent = m ∷ c.sent }, none)
    | some e ↦ (c, some e)
  ]

  unfoldable pub write_response : JsonServer → Response → Value → JsonServer × Option Err
  write_response c r x = elim (get r.seq c.pending) [
    | none ↦ (c, some (plain_error (codes "invalid sequence number in response")))
    | some b ↦ emit (record c { pending = delete r.seq c.pending }) (response_of b r.error x)
  ]

  -- the codec as the server uses it
  abbrev pub json_server_codec : ServerCodec JsonServer
  json_server_codec = record {
    read_request_header = read_request_header;
    read_request_body = read_request_body;
    write_response = write_response;
    close = λ c. (record c { closed = c.closed + 1 }, none);
  }
