-- ===== src/Gob/Bidirectional.antt =====
-- birpc_codec.go: the gob codec of a connection that carries requests both ways. Unlike the server
-- codec it does not remember that it was closed.
use birpc.Base.{Option, none, some}
use birpc.Birpc.{BirpcCodec}
use birpc.Gob.{GobIo, body, response_header, write_request, read_header}
use birpc.Wire.{Response, Value, Err}

module _ {W : Type 0} (gob : GobIo W) where
  -- what WriteResponse does with an error of Encode
  unfoldable pub failed : W → Err → W × Option Err
  failed w x =
      let (w', e) = gob.flush w in
      elim e [ none ↦ ((gob.close w').0, some x) | some y ↦ (w', some x) ]

  unfoldable pub write_reply : W → Value → W × Option Err
  unfolding failed
  write_reply w x =
      let (w', e) = gob.encode w (body x) in elim e [ some y ↦ failed w' y | none ↦ gob.flush w' ]

  unfoldable pub write_response : W → Response → Value → W × Option Err
  unfolding failed write_reply
  write_response w r x =
      let (w', e) = gob.encode w (response_header r) in
      elim e [ some y ↦ failed w' y | none ↦ write_reply w' x ]

  abbrev pub gob_birpc_codec : BirpcCodec W
  gob_birpc_codec = record {
    read_header = read_header gob;
    read_request_body = gob.decode_body;
    read_response_body = gob.decode_body;
    write_request = write_request gob;
    write_response = write_response;
    close = gob.close;
  }
