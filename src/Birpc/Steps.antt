-- ===== src/Birpc/Steps.antt =====
-- birpc_client.go: the life of a connection. The steps are those of the loop of input, of its end, of
-- the goroutines of the calls that it started, and of the callers on its other side, in any order.
use birpc.Base.{ℕ, ◌+◌, Option, none, some, List, [], ◌∷◌, Bool, true, false, if◌then◌else◌}
use birpc.Birpc.{BirpcCodec, BirpcClient, write_half, input_header, read_response}
use birpc.Client.{Client, Input, reading, handling, failing, stopped, close, send_end}
use birpc.Client.Moves.{
  Event, goes, sends, wrote, hears, hears_error, handles, terminates, abandons, closes,
}
use birpc.Client.Moves
use birpc.Context.{fire}
use birpc.Server.{Task}
use birpc.Server.Steps.{Serving}
use birpc.Server.Steps
use birpc.Wire.{Err}

-- Where the goroutine of input is: in its loop; past the end of the pending calls, in wg.Wait; past
-- the close of `disconnect`; or gone. The flag is its variable `closing`.
pub data Stage : Type 0 where
  looping : Stage
  waiting : Bool → Stage
  notified : Bool → Stage
  ended : Bool → Stage

-- `scope` is the cancel function of input's context. `in_close` says that a Close has marked the client
-- and has not yet closed the codec, and `crashed` that a method has panicked. The two counts, of the
-- closings of the channel `disconnect`, and of the codec by input, Close and ServeCodec, are kept by
-- no code; a codec that closes itself, as the gob codec does on a failed write, is not counted.
pub record Session (C : Type 0) : Type 0 where
  pub link : BirpcClient C
  pub scope : ℕ
  pub stage : Stage
  pub in_close : Bool
  pub crashed : Bool
  pub disconnects : ℕ
  pub codec_closes : ℕ

abbrev pub new_session : {C : Type 0} → BirpcClient C × ℕ → Session C
new_session (b, cancel) = record {
  link = b;
  scope = cancel;
  stage = looping;
  in_close = false;
  crashed = false;
  disconnects = 0;
  codec_closes = 0;
}

-- input reads a header, or the body of the response it took; a call starts or ends; the write of the
-- request that is being sent; the end of the pending calls, of the wait, and of input; the end of a
-- Close; or a step of a caller.
pub data Op : Type 0 where
  headers bodies writes ends_pending joins finishes shuts : Op
  begins ends : ℕ → Op
  acts : Event → Op

-- The serving side, as ServeCodec has it. Its calls use neither the loop's variables nor the scope.
abbrev pub serving_of : {C : Type 0} → BirpcClient C → Serving C
serving_of b = record {
  conn = b.conn;
  tasks = b.tasks;
  scope = 0;
  reading = true;
  closed = false;
  crashed = false;
}

abbrev pub with_client : {C : Type 0} → Session C → Client → Session C
with_client s c = record s { link = record s.link { client = c } }

abbrev pub with_serving : {C : Type 0} → Session C → Serving C → Session C
with_serving s v = record s {
  link = record s.link { conn = v.conn; tasks = v.tasks };
  crashed = v.crashed;
}

module _ {C : Type 0} (codec : BirpcCodec C) where
  unfoldable pub on_headers : Input → Session C → Session C
  on_headers reading s = record s { link = input_header codec s.link }
  on_headers (handling o r) s = s
  on_headers (failing e) s = s
  on_headers stopped s = s

  unfoldable pub on_bodies : Input → Session C → Session C
  on_bodies reading s = s
  on_bodies (handling o r) s = record s { link = read_response codec s.link o r }
  on_bodies (failing e) s = s
  on_bodies stopped s = s

  -- WriteRequest, with the rest of send
  unfoldable pub on_writes : Option ℕ → Session C → Session C
  on_writes none s = s
  on_writes (some p) s =
      let c = s.link.client in
      let (k, e) = codec.write_request s.link.conn.codec c.request (c.calls p).args in
      record s {
        link = record s.link { conn = record s.link.conn { codec = k }; client = send_end p e c };
      }

  abbrev pub close_codec : Session C → Session C
  close_codec s = record s {
    link = record s.link {
      conn = record s.link.conn { codec = (codec.close s.link.conn.codec).0 };
    };
    codec_closes = s.codec_closes + 1;
  }

  -- Close up to its unlock: the client is marked, where it was not before
  unfoldable pub on_closes : Client × Option Err → Session C → Session C
  on_closes (c, some e) s = with_client s c
  on_closes (c, none) s = record (with_client s c) { in_close = true }

  -- the rest of Close, outside of the mutex
  unfoldable pub on_shuts : Bool → Session C → Session C
  on_shuts true s = close_codec (record s { in_close = false })
  on_shuts false s = s

  -- a step of a caller, or of the goroutine that sends for it; the other events are input's own
  unfoldable pub on_acts : Event → Session C → Session C
  unfolding on_closes
  on_acts (goes m args reply ch) s = with_client s (Moves.step s.link.client (goes m args reply ch))
  on_acts (sends p) s = with_client s (Moves.step s.link.client (sends p))
  on_acts (abandons p) s = with_client s (Moves.step s.link.client (abandons p))
  on_acts closes s = on_closes (close s.link.client) s
  on_acts (wrote e) s = s
  on_acts (hears r) s = s
  on_acts (hears_error e) s = s
  on_acts (handles e v) s = s
  on_acts terminates s = s

  -- the end of the pending calls, which reads `closing`; it needs `reqMutex`
  unfoldable pub on_ends_pending : Input → Option ℕ → Session C → Session C
  on_ends_pending (failing e) none s =
      record (with_client s (Moves.step s.link.client terminates)) {
        stage = waiting s.link.client.closing;
      }
  on_ends_pending (failing e) (some p) s = s
  on_ends_pending reading o s = s
  on_ends_pending (handling q r) o s = s
  on_ends_pending stopped o s = s

  -- wg.Wait returns when no call is left; then `disconnect` is closed
  unfoldable pub on_joins : Stage → List Task → Session C → Session C
  on_joins (waiting b) [] s = record s { stage = notified b; disconnects = s.disconnects + 1 }
  on_joins (waiting b) (t ∷ ts) s = s
  on_joins looping ts s = s
  on_joins (notified b) ts s = s
  on_joins (ended b) ts s = s

  -- the deferred cancel of input's context
  abbrev pub leave : Session C → Session C
  leave s = record s {
    link = record s.link { conn = record s.link.conn { clock = fire s.scope s.link.conn.clock } };
  }

  unfoldable pub on_finishes : Stage → Session C → Session C
  on_finishes (notified true) s = leave (record s { stage = ended true })
  on_finishes (notified false) s = leave (close_codec (record s { stage = ended false }))
  on_finishes (waiting b) s = s
  on_finishes looping s = s
  on_finishes (ended b) s = s

  -- An operation that cannot happen in a state changes nothing.
  unfoldable pub perform : Session C → Op → Session C
  unfolding on_headers on_bodies on_writes on_ends_pending on_joins on_finishes on_shuts on_acts
  perform s headers = on_headers s.link.client.input s
  perform s bodies = on_bodies s.link.client.input s
  perform s writes = on_writes s.link.client.sending s
  perform s (begins i) =
      with_serving s (Steps.step (write_half codec) (serving_of s.link) (Steps.begins i))
  perform s (ends i) =
      with_serving s (Steps.step (write_half codec) (serving_of s.link) (Steps.ends i))
  perform s ends_pending = on_ends_pending s.link.client.input s.link.client.sending s
  perform s joins = on_joins s.stage s.link.tasks s
  perform s finishes = on_finishes s.stage s
  perform s shuts = on_shuts s.in_close s
  perform s (acts e) = on_acts e s

  unfoldable pub step : Session C → Op → Session C
  unfolding perform
  step s o = if s.crashed then s else perform s o

  unfoldable pub run : Session C → List Op → Session C
  run s [] = s
  run s (o ∷ os) = run (step s o) os
