-- ===== src/Json.antt =====
-- jsonrpc: what its codecs share. Package encoding/json is taken as given: a connection brings the
-- messages that Decode makes of its text, or the error that Decode ends with, and takes the ones
-- that Encode is given; a RawMessage is its text; `Unmarshal` is a parameter.
pub mod Server
pub mod Client
pub mod Bidirectional
pub mod Encoding
pub mod Arrivals
pub mod Requests
pub mod Calls
use birpc.Base.{ℕ, Option, none, some, List, [], ◌∷◌}
use birpc.Base.Text.{Text, codes}
use birpc.Wire.{Value, Err}

-- the result of one call of Decode
pub data Decoded (A : Type 0) : Type 0 where
  decoded : A → Decoded A
  undecodable : Err → Decoded A

-- a JSON value in a field of type `any`: nil for null and for none, a string, or another
pub data Any : Type 0 where
  no_value : Any
  text_value : Text → Any
  other_value : ℕ → Any

pub record ServerRequest : Type 0 where
  pub method : Text
  pub params : Option Text
  pub id : Option Text

abbrev pub zero_server_request : ServerRequest
zero_server_request = record { method = []; params = none; id = none }

pub record ServerResponse : Type 0 where
  pub id : Text
  pub result : Value
  pub error : Option Text

pub record ClientRequest : Type 0 where
  pub method : Text
  pub params : Value
  pub id : ℕ

pub record ClientResponse : Type 0 where
  pub id : ℕ
  pub result : Option Text
  pub error : Any

abbrev pub zero_client_response : ClientResponse
zero_client_response = record { id = 0; result = none; error = no_value }

abbrev pub null_text : Text
null_text = codes "null"

-- What the codecs use of encoding/json besides the decoder: Unmarshal of a text into a value, and
-- into an array of one with a value in it; and the error of Encode for a message that it cannot write.
pub record Json : Type 0 where
  pub unmarshal : Text → Value → Value × Option Err
  pub unmarshal_params : Text → Value → Value × Option Err
  pub encode_response : ServerResponse → Option Err
  pub encode_request : ClientRequest → Option Err
