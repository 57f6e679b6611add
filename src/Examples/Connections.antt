-- ===== src/Examples/Connections.antt =====
-- codec.go, birpc_client.go: a gob connection whose writes fail, and a bidirectional client.
use birpc.Base.{
  ◌+◌, if◌then◌else◌, ℕ, ◌≤◌, ◌≡◌, refl, none, some, List, [], ◌∷◌, arith, nat_eq, nat_Eq,
  if◌then◌else◌, length,
}
use birpc.Base.Text.{codes}
use birpc.Base.Dict.{get, put, delete}
use birpc.Base.{false}
use birpc.Birpc.{BirpcCodec, input_header, open_link, read_response, route}
use birpc.Birpc.Lifetime.{IsFresh, disconnect_settles, codec_closed}
use birpc.Birpc.Refinement.{run-client}
use birpc.Birpc.Steps.{
  Session, Op, headers, bodies, writes, ends_pending, joins, finishes, acts, new_session,
  on_headers, on_bodies, on_writes, on_acts, on_closes, on_ends_pending, on_joins, on_finishes,
  perform, step, run,
}
use birpc.BasicServer.{get_request, free_request}
use birpc.Client.{
  Channel, new_client, go, done, offer, send_begin, send_end, take_response, handle, finish_all,
  terminate, close, stopped,
}
use birpc.Client.Moves.{Event, goes, sends, closes}
use birpc.Client.Moves
use birpc.Context.{fire, with_cancel}
use birpc.Pending.{new_pending}
use birpc.Server.Accounts.{receipts, answers}
use birpc.Examples.Data.{arith_server}
use birpc.FreeList.{Request-Linked, empty, release, obtain}
use birpc.FreeList.Chain.{empty-Holds}
use birpc.Gob.{GobIo, new_gob_server}
use birpc.Gob.Closing.{run_closes_once}
use birpc.Gob.Closing
use birpc.Wire.{Response, plain, eof, io_error}

-- a connection on which nothing can be encoded
abbrev broken : GobIo ℕ
broken = record {
  encode = λ w m. (w, some (io_error 1 (codes "gob")));
  flush = λ w. (w, none);
  decode_request = λ w r. (w, r, none);
  decode_response = λ w r. (w, r, none);
  decode_message = λ w. (w, record { seq = 0; service_method = []; error = [] }, none);
  decode_body = λ w x. (w, x, none);
  close = λ w. (w, none);
}

abbrev reply : Response
reply = record { seq = 1; error = []; next = none }

abbrev failing_writes : List Closing.Op
failing_writes =
    Closing.writes reply (plain 1)
    ∷ Closing.writes reply (plain 2)
    ∷ Closing.closes
    ∷ Closing.closes
    ∷ []

run_closes_once_example :
    let c = Closing.run broken (new_gob_server 0) failing_writes in
    (c.closes ≤ 1) × (c.closes ≡ (if c.closed then 1 else 0))
run_closes_once_example = run_closes_once broken 0 failing_writes

-- a codec on which one response comes, for the number 1, and then the end
abbrev one_reply : BirpcCodec ℕ
one_reply = record {
  read_header =
      λ k req resp. if nat_eq k 0 then (1, req, reply, none) else (k, req, resp, some eof);
  read_request_body = λ k x. (k, x, none);
  read_response_body = λ k x. (k, plain 7, none);
  write_request = λ k r x. (k, none);
  write_response = λ k r x. (k, none);
  close = λ k. (k, none);
}

abbrev ten_each : ℕ → Channel
ten_each n = record { cap = 10; buffer = [] }

abbrev peer : Session ℕ
unfolding open_link with_cancel new_pending new_client
peer = new_session (open_link arith_server 0 ten_each 0 record { now = 0; next_id = 1; fired = [] })

abbrev one_call : List Op
one_call =
    acts (goes (codes "A.B") (plain 1) (plain 2) 0)
    ∷ acts (sends 0)
    ∷ writes
    ∷ headers
    ∷ bodies
    ∷ headers
    ∷ ends_pending
    ∷ joins
    ∷ finishes
    ∷ []

peer-IsFresh : IsFresh one_reply peer []
unfolding peer
peer-IsFresh = record {
  free = empty-Holds ⦃l = Request-Linked⦄;
  no_calls = refl;
  no_log = refl;
  in_loop = refl;
  unnoticed = refl;
  unclosed = refl;
  outside_close = refl;
  not_closing = refl;
}

run-client_example :
    (es : List Event) × (length es ≤ length one_call)
    × ((run one_reply peer one_call).link.client ≡ Moves.run (new_client ten_each) es)
unfolding new_client peer
run-client_example = run-client one_reply peer one_call

disconnect_settles_example :
    let s = run one_reply peer one_call in
    (s.disconnects ≡ 1)
    × (s.link.client.input ≡ stopped)
    × (s.link.tasks ≡ [])
    × (answers 1 s.link.conn.log ≡ receipts 1 s.link.conn.log)
unfolding run step perform on_headers on_bodies on_writes on_acts on_ends_pending on_joins
    on_finishes Moves.step input_header route read_response new_client go done offer send_begin
    send_end take_response handle terminate finish_all get put delete get_request free_request
    obtain release empty fire peer
disconnect_settles_example =
    disconnect_settles one_reply peer [] one_call 1 peer-IsFresh (omega arith)

-- a Close after the connection was lost, which has not closed the codec yet
abbrev late_close : List Op
late_close =
    headers ∷ headers ∷ bodies ∷ headers ∷ ends_pending ∷ joins ∷ finishes ∷ acts closes ∷ []

codec_closed_example :
    (run one_reply peer late_close).codec_closes
      + (if (run one_reply peer late_close).in_close then 1 else 0)
    ≡ 2
unfolding run step perform on_headers on_bodies on_writes on_acts on_closes on_ends_pending on_joins
    on_finishes Moves.step input_header route read_response new_client go done offer send_begin
    send_end take_response handle terminate finish_all get put delete get_request free_request
    obtain release empty fire peer close
codec_closed_example = codec_closed one_reply peer [] late_close false peer-IsFresh refl
