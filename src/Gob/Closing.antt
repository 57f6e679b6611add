-- ===== src/Gob/Closing.antt =====
-- codec.go: the gob server codec closes its connection once.
use birpc.Base.{◌≤◌, ◌≡◌, refl, List, [], ◌∷◌, arith, if◌then◌else◌}
use birpc.Wire.{Request, Response, Value, Err}
use birpc.Gob.{
  GobIo, GobServer, new_gob_server, close_server, read_request_header, read_request_body,
  write_response, write_body, encode_failed, body, response_header,
}

-- A call of a method of the codec.
pub data Op : Type 0 where
  reads_header : Request → Op
  reads_body : Value → Op
  writes : Response → Value → Op
  closes : Op

-- The connection was closed once if the codec is closed, and else not at all.
abbrev pub Counted : {W : Type 0} → GobServer W → Type 0
Counted c = c.closes ≡ (if c.closed then 1 else 0)

module _ {W : Type 0} (gob : GobIo W) where
  unfoldable pub step : GobServer W → Op → GobServer W
  step c (reads_header r) = (read_request_header gob c r).0
  step c (reads_body x) = (read_request_body gob c x).0
  step c (writes r x) = (write_response gob c r x).0
  step c closes = (close_server gob c).0

  unfoldable pub run : GobServer W → List Op → GobServer W
  run c [] = c
  run c (o ∷ os) = run (step c o) os

  close_server-Counted : (c : GobServer W) → Counted c → Counted (close_server gob c).0
  unfolding close_server
  close_server-Counted c h = ground (arith, h)

  encode_failed-Counted :
      (c : GobServer W) (x : Err) → Counted c → Counted (encode_failed gob c x).0
  unfolding encode_failed
  encode_failed-Counted c x h =
      ground (arith, h, close_server-Counted (record c { io = (gob.flush c.io).0 }) h)

  write_body-Counted : (c : GobServer W) (x : Value) → Counted c → Counted (write_body gob c x).0
  unfolding write_body
  write_body-Counted c x h =
      let w : W = (gob.encode c.io (body x)).0 in
      ground (arith, h, λ (y : Err). encode_failed-Counted (record c { io = w }) y h)

  write_response-Counted :
      (c : GobServer W) (r : Response) (x : Value)
      → Counted c
      → Counted (write_response gob c r x).0
  unfolding write_response
  write_response-Counted c r x h =
      let c' : GobServer W = record c { io = (gob.encode c.io (response_header r)).0 } in
      ground (arith, h, write_body-Counted c' x h, λ (y : Err). encode_failed-Counted c' y h)

  step-Counted : (c : GobServer W) (o : Op) → Counted c → Counted (step c o)
  unfolding step read_request_header read_request_body
  step-Counted c (reads_header r) h = h
  step-Counted c (reads_body x) h = h
  step-Counted c (writes r x) h = write_response-Counted c r x h
  step-Counted c closes h = close_server-Counted c h

  run-Counted : (c : GobServer W) (os : List Op) → Counted c → Counted (run c os)
  unfolding run
  run-Counted c [] h = h
  run-Counted c (o ∷ os) h = run-Counted (step c o) os (step-Counted c o h)

  -- Whatever is read and written, whatever fails, and however often Close is called, by the server
  -- or by WriteResponse itself, the connection's Close is called at most once, and it has been
  -- called exactly when the codec counts as closed.
  pub run_closes_once :
      (w : W) (os : List Op)
      → let c = run (new_gob_server w) os in
        (c.closes ≤ 1) × (c.closes ≡ (if c.closed then 1 else 0))
  run_closes_once w os =
      let counted = run-Counted (new_gob_server w) os refl in (ground (arith, counted), counted)
