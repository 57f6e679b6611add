-- ===== src/Gob.antt =====
-- codec.go, birpc_codec.go: the codecs over encoding/gob. The encoder with its buffered writer, the
-- decoder and the connection are one parameter of the model, the record `GobIo`.
pub mod Closing
pub mod Bidirectional
pub mod Routing
use birpc.Base.{ℕ, ◌+◌, Option, none, some, List, [], ◌∷◌, Bool, true, false, if◌then◌else◌}
use birpc.Base.Text.{Text}
use birpc.ClientCodec.{ClientCodec}
use birpc.Codec.{ServerCodec}
use birpc.Wire.{Request, Response, Value, Err}

-- the type `message` of birpc_codec.go
pub record Message : Type 0 where
  pub seq : ℕ
  pub service_method : Text
  pub error : Text

-- What is encoded: a header or a body.
pub data Encoded : Type 0 where
  request_header : Request → Encoded
  response_header : Response → Encoded
  body : Value → Encoded

-- Each decoder gives the value that its target has after the call.
pub record GobIo (W : Type 0) : Type 0 where
  pub encode : W → Encoded → W × Option Err
  pub flush : W → W × Option Err
  pub decode_request : W → Request → W × Request × Option Err
  pub decode_response : W → Response → W × Response × Option Err
  pub decode_message : W → W × Message × Option Err
  pub decode_body : W → Value → W × Value × Option Err
  pub close : W → W × Option Err

-- gobServerCodec; `closes` counts the calls of the connection's Close, which the code does not.
pub record GobServer (W : Type 0) : Type 0 where
  pub io : W
  pub closed : Bool
  pub closes : ℕ

abbrev pub new_gob_server : {W : Type 0} → W → GobServer W
new_gob_server w = record { io = w; closed = false; closes = 0 }

module _ {W : Type 0} (gob : GobIo W) where
  unfoldable pub close_server : GobServer W → GobServer W × Option Err
  close_server c =
      if c.closed
      then (c, none)
      else let (w, e) = gob.close c.io in
        (record { io = w; closed = true; closes = c.closes + 1 }, e)

  unfoldable pub read_request_header : GobServer W → Request → GobServer W × Request × Option Err
  read_request_header c r =
      let (w, r', e) = gob.decode_request c.io r in (record c { io = w }, r', e)

  unfoldable pub read_request_body : GobServer W → Value → GobServer W × Value × Option Err
  read_request_body c x = let (w, v, e) = gob.decode_body c.io x in (record c { io = w }, v, e)

  -- what WriteResponse does with an error of Encode
  unfoldable pub encode_failed : GobServer W → Err → GobServer W × Option Err
  unfolding close_server
  encode_failed c x =
      let (w, e) = gob.flush c.io in
      let c' : GobServer W = record c { io = w } in
      elim e [ none ↦ ((close_server c').0, some x) | some y ↦ (c', some x) ]

  -- the end of WriteResponse, from the encoding of the body
  unfoldable pub write_body : GobServer W → Value → GobServer W × Option Err
  unfolding encode_failed
  write_body c x =
      let (w, e) = gob.encode c.io (body x) in
      let c' : GobServer W = record c { io = w } in
      elim e [
        | some y ↦ encode_failed c' y
        | none ↦ let (w', f) = gob.flush w in (record c' { io = w' }, f)
      ]

  unfoldable pub write_response : GobServer W → Response → Value → GobServer W × Option Err
  unfolding encode_failed write_body
  write_response c r x =
      let (w, e) = gob.encode c.io (response_header r) in
      let c' : GobServer W = record c { io = w } in
      elim e [ some y ↦ encode_failed c' y | none ↦ write_body c' x ]

  -- the codec as the server uses it
  abbrev pub gob_server_codec : ServerCodec (GobServer W)
  gob_server_codec = record {
    read_request_header = read_request_header;
    read_request_body = read_request_body;
    write_response = write_response;
    close = close_server;
  }

  -- WriteRequest, of gobClientCodec and of gobCodec
  unfoldable pub write_request : W → Request → Value → W × Option Err
  write_request w r x =
      let (w₁, e₁) = gob.encode w (request_header r) in
      let (w₂, e₂) = gob.encode w₁ (body x) in
      elim e₁ [
        | some y ↦ (w₁, some y)
        | none ↦ elim e₂ [ some y ↦ (w₂, some y) | none ↦ gob.flush w₂ ]
      ]

  -- gobClientCodec as a client uses it
  abbrev pub gob_client_codec : ClientCodec W
  gob_client_codec = record {
    write_request = write_request;
    read_response_header = gob.decode_response;
    read_response_body = λ w x. some (gob.decode_body w x);
    close = gob.close;
  }

  -- gobCodec.ReadHeader: a message with a method is a request
  abbrev pub fill : Message → Text → Request → Response → Request × Response
  fill m [] req resp = (req, record resp { seq = m.seq; error = m.error })
  fill m (x ∷ s) req resp = (record req { seq = m.seq; service_method = x ∷ s }, resp)

  unfoldable pub read_header : W → Request → Response → W × Request × Response × Option Err
  read_header w req resp =
      let (w', m, e) = gob.decode_message w in
      elim e [
        | some x ↦ (w', req, resp, some x)
        | none ↦ let (req', resp') = fill m m.service_method req resp in (w', req', resp', none)
      ]
