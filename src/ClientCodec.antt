-- ===== src/ClientCodec.antt =====
-- client.go: the interface ClientCodec, and a client over a codec. Its steps are those of the loop of
-- input, of the write of a request, of the end of input, and of its callers, in any order.
pub mod Links
use birpc.Base.{ℕ, Option, none, some, List, [], ◌∷◌, Bool, true, false, if◌then◌else◌, nat_Eq}
use birpc.Client.{
  Client, Input, reading, handling, failing, stopped, take_response, handle, send_end, close,
  body_target, Channel, new_client,
}
use birpc.Client.Moves.{
  Event, goes, sends, wrote, hears, hears_error, handles, terminates, abandons, closes,
}
use birpc.Client.Moves
use birpc.Wire.{Request, Response, Value, Err, zero_response}

-- ClientCodec. `none` is a panic of ReadResponseBody.
pub record ClientCodec (C : Type 0) : Type 0 where
  pub write_request : C → Request → Value → C × Option Err
  pub read_response_header : C → Response → C × Response × Option Err
  pub read_response_body : C → Value → Option (C × Value × Option Err)
  pub close : C → C × Option Err

-- Client: a codec and basicClient. `in_close` says that a Close has marked the client and has not yet
-- closed the codec. After `crashed`, a panic of the codec, there is no process.
pub record Link (C : Type 0) : Type 0 where
  pub codec : C
  pub client : Client
  pub in_close : Bool
  pub crashed : Bool

-- NewClientWithCodec, with the `go client.input()`
unfoldable pub new_client_with_codec : {C : Type 0} → C → (ℕ → Channel) → Link C
unfolding new_client
new_client_with_codec c channels = record {
  codec = c;
  client = new_client channels;
  in_close = false;
  crashed = false;
}

-- input reads a header, or the body of the response it took; the write of the request that is being
-- sent; the end of the pending calls; the rest of a Close; a step of a caller
pub data Op : Type 0 where
  headers bodies writes ends_pending shuts : Op
  acts : Event → Op

module _ {C : Type 0} (codec : ClientCodec C) where
  unfoldable pub on_headers : Input → Link C → Link C
  on_headers reading s =
      let (k, r, e) = codec.read_response_header s.codec zero_response in
      elim e [
        | some x ↦ record s { codec = k; client = record s.client { input = failing x } }
        | none ↦ record s { codec = k; client = take_response r s.client }
      ]
  on_headers (handling o r) s = s
  on_headers (failing e) s = s
  on_headers stopped s = s

  unfoldable pub on_bodies : Input → Link C → Link C
  on_bodies reading s = s
  on_bodies (handling o r) s =
      elim (codec.read_response_body s.codec (body_target s.client o r.error)) [
        | none ↦ record s { crashed = true }
        | some (k, v, e) ↦ record s { codec = k; client = handle o r e v s.client }
      ]
  on_bodies (failing e) s = s
  on_bodies stopped s = s

  -- WriteRequest, with the rest of send
  unfoldable pub on_writes : Option ℕ → Link C → Link C
  on_writes none s = s
  on_writes (some p) s =
      let (k, e) = codec.write_request s.codec s.client.request (s.client.calls p).args in
      record s { codec = k; client = send_end p e s.client }

  unfoldable pub on_ends_pending : Link C → Link C
  on_ends_pending s = record s { client = Moves.step s.client terminates }

  -- Close, which marks the client under the mutex
  unfoldable pub on_closes : Client × Option Err → Link C → Link C
  on_closes (c, some e) s = record s { client = c }
  on_closes (c, none) s = record s { client = c; in_close = true }

  -- the rest of Close, outside of the mutex
  unfoldable pub on_shuts : Bool → Link C → Link C
  on_shuts true s = record s { codec = (codec.close s.codec).0; in_close = false }
  on_shuts false s = s

  -- a step of a caller, or of the goroutine that sends for it; the other events are input's own
  unfoldable pub on_acts : Event → Link C → Link C
  unfolding on_closes
  on_acts (goes m args reply ch) s = record s {
    client = Moves.step s.client (goes m args reply ch);
  }
  on_acts (sends p) s = record s { client = Moves.step s.client (sends p) }
  on_acts (abandons p) s = record s { client = Moves.step s.client (abandons p) }
  on_acts closes s = on_closes (close s.client) s
  on_acts (wrote e) s = s
  on_acts (hears r) s = s
  on_acts (hears_error e) s = s
  on_acts (handles e v) s = s
  on_acts terminates s = s

  -- An operation that cannot happen in a state changes nothing.
  unfoldable pub perform : Link C → Op → Link C
  unfolding on_headers on_bodies on_writes on_ends_pending on_shuts on_acts
  perform s headers = on_headers s.client.input s
  perform s bodies = on_bodies s.client.input s
  perform s writes = on_writes s.client.sending s
  perform s ends_pending = on_ends_pending s
  perform s shuts = on_shuts s.in_close s
  perform s (acts e) = on_acts e s

  unfoldable pub step : Link C → Op → Link C
  unfolding perform
  step s o = if s.crashed then s else perform s o

  unfoldable pub run : Link C → List Op → Link C
  run s [] = s
  run s (o ∷ os) = run (step s o) os
