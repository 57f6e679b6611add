-- ===== src/Codec.antt =====
-- server.go, client.go, birpc_codec.go, basic_server.go: the codec interfaces. The server and the
-- client are written against these records; the codecs of the repository fill them. A codec's
-- operation takes its state and returns the new one, with an error or none.
use birpc.Base.{Option}
use birpc.Wire.{Request, Response, Value, Err}

-- ServerCodec. The body of a request is read into a value, `nil_value` to discard it.
pub record ServerCodec (C : Type 0) : Type 0 where
  pub read_request_header : C → Request → C × Request × Option Err
  pub read_request_body : C → Value → C × Value × Option Err
  pub write_response : C → Response → Value → C × Option Err
  pub close : C → C × Option Err
