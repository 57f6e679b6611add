-- ===== src/Json/Encoding.antt =====
-- jsonrpc: what the other end of a connection makes of a message. Package encoding/json writes the
-- text of a message and reads it again into the other end's struct; both are given by its
-- documentation, for messages that Encode takes.
use birpc.Base.{ℕ, ◌<◌, ◌^◌, ◌≡◌, ◌≢◌, none, some, true}
use birpc.Base.Text.{Text, is_ascii}
use birpc.Json.{
  Json, ClientRequest, ClientResponse, ServerRequest, ServerResponse, no_value, text_value,
  null_text,
}
use birpc.Wire.{Value}

-- `number_text` is the text of a uint64, `params_text` of an array of one with the value in it, and
-- `result_text` of the value; `request_of` and `response_of` are what Decode makes of the text of a
-- message. A text that is not ASCII may not be valid UTF-8, and then comes out another. A null
-- leaves a field nil.
pub record Encoding (json : Json) : Type 0 where
  pub number_text : ℕ → Text
  pub params_text : Value → Text
  pub result_text : Value → Text
  pub request_of : ClientRequest → ServerRequest
  pub response_of : ServerResponse → ClientResponse
  pub request_of-method :
      (m : ClientRequest)
      → json.encode_request m ≡ none
      → is_ascii m.method ≡ true
      → (request_of m).method ≡ m.method
  pub request_of-params :
      (m : ClientRequest)
      → json.encode_request m ≡ none
      → (request_of m).params ≡ some (params_text m.params)
  pub request_of-id :
      (m : ClientRequest)
      → json.encode_request m ≡ none
      → (request_of m).id ≡ some (number_text m.id)
  pub response_of-id :
      (m : ServerResponse) (n : ℕ)
      → json.encode_response m ≡ none
      → n < 2 ^ 64
      → m.id ≡ number_text n
      → (response_of m).id ≡ n
  pub response_of-result :
      (m : ServerResponse)
      → json.encode_response m ≡ none
      → result_text m.result ≢ null_text
      → (response_of m).result ≡ some (result_text m.result)
  pub response_of-no_error :
      (m : ServerResponse)
      → json.encode_response m ≡ none
      → m.error ≡ none
      → (response_of m).error ≡ no_value
  pub response_of-error :
      (m : ServerResponse) (t : Text)
      → json.encode_response m ≡ none
      → is_ascii t ≡ true
      → m.error ≡ some t
      → (response_of m).error ≡ text_value t
