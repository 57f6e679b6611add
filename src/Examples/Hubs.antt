-- ===== src/Examples/Hubs.antt =====
-- birpc_server.go: a server with a list of handlers for its hub, and one connection that is lost.
use birpc.Base.{
  ℕ, ◌≤◌, ◌≡◌, refl, some, List, [], ◌∷◌, ◌+◌, ◌&&◌, false, arith, count, nat_eq, if◌then◌else◌,
  none, Option,
}
use birpc.BasicServer.{new_basic_server}
use birpc.Birpc.{BirpcCodec, input_header, open_link, route, read_request, read_argument}
use birpc.Birpc.Steps.{
  headers, ends_pending, joins, finishes, on_headers, on_ends_pending, on_joins, on_finishes, ended,
  new_session,
}
use birpc.Birpc.Steps
use birpc.BirpcServer.{
  Kind, client_connected, client_disconnected, same_kind, Hub, Served, Op, on_connect,
  on_disconnect, connects, acts, leaves, new_birpc_server, publish, serve_codec, on_acts, perform,
  step, run,
}
use birpc.BirpcServer.Histories.{tasks_of, shared_answered_once, requests_apart}
use birpc.Server.Pool.{pool}
use birpc.Server.{answer}
use birpc.Server.Accounts.{answers, receipts}
use birpc.FreeList.{release, empty}
use birpc.Base.Dict.{get, put}
use birpc.Service.{new_service, suitable_methods}
use birpc.Service.Types.{same_type, method_type}
use birpc.Base.{◌⊎◌}
use birpc.Base.Text.{split_last_dot, codes}
use birpc.BasicServer.{get_service, send_response, get_response}
use birpc.BirpcServer.Handlers.{connection_told, disconnection_told}
use birpc.BirpcServer.Notices.{told}
use birpc.Client.{Channel, new_client, terminate, finish_all}
use birpc.Client.Moves
use birpc.Context.{Clock, fire, with_cancel}
use birpc.Examples.Data.{program}
use birpc.FreeList.{obtain}
use birpc.BasicServer.{get_request}
use birpc.Wire.{eof}

-- the handlers, last registered first
abbrev handlers_of : Kind → List (Kind × ℕ) → List ℕ
handlers_of k [] = []
handlers_of k ((k', f) ∷ h) = if same_kind k k' then f ∷ handlers_of k h else handlers_of k h

handlers_of-subscribe :
    (k k' : Kind) (f g : ℕ) (h : List (Kind × ℕ))
    → count f (handlers_of k ((k', g) ∷ h))
      ≡ (if same_kind k k' && nat_eq f g then 1 else 0) + count f (handlers_of k h)
handlers_of-subscribe k k' f g h = ground arith

abbrev list_hub : Hub (List (Kind × ℕ))
list_hub = record {
  empty = [];
  subscribe = λ k f h. (k, f) ∷ h;
  publish = handlers_of;
  publish-empty = λ k. refl;
  publish-subscribe = handlers_of-subscribe;
}

-- a codec on which nothing ever comes
abbrev silent : BirpcCodec ℕ
silent = record {
  read_header = λ k req resp. (k, req, resp, some eof);
  read_request_body = λ k x. (k, x, none);
  read_response_body = λ k x. (k, x, none);
  write_request = λ k r x. (k, none);
  write_response = λ k r x. (k, none);
  close = λ k. (k + 1, none);
}

abbrev no_channels : ℕ → Channel
no_channels n = record { cap = 0; buffer = [] }

abbrev start_clock : Clock
start_clock = record { now = 0; next_id = 1; fired = [] }

abbrev registrations : List (Op ℕ)
registrations = on_connect 5 ∷ on_disconnect 6 ∷ on_connect 5 ∷ []

abbrev until_lost : List (Op ℕ)
until_lost =
    on_connect 5
    ∷ on_disconnect 6
    ∷ connects 0 no_channels start_clock
    ∷ acts 0 headers
    ∷ acts 0 ends_pending
    ∷ acts 0 joins
    ∷ acts 0 finishes
    ∷ []

connection_told_example :
    let w = run silent list_hub (new_birpc_server silent list_hub program) registrations in
    told client_connected 5 w.next
      (run silent list_hub w (connects 0 no_channels start_clock ∷ on_connect 5 ∷ [])).started
    ≡ 2
unfolding run step perform new_birpc_server
connection_told_example =
    connection_told silent list_hub program registrations (on_connect 5 ∷ []) 0 no_channels
      start_clock 5 refl

abbrev or_new : Option (Served ℕ) → Served ℕ
or_new (some v) = v
or_new none = record {
  session = new_session (open_link (new_basic_server program) 0 no_channels 0 start_clock);
  left = false;
}

abbrev lost : Served ℕ
lost = or_new ((run silent list_hub (new_birpc_server silent list_hub program) until_lost).served 0)

disconnection_told_example :
    let w = run silent list_hub (new_birpc_server silent list_hub program) until_lost in
    told client_disconnected 6 0 (run silent list_hub w (leaves 0 ∷ leaves 0 ∷ [])).started ≡ 1
unfolding run step perform new_birpc_server serve_codec on_acts publish Steps.step Steps.perform
    input_header on_headers on_ends_pending on_joins on_finishes Moves.step terminate finish_all
    open_link new_client with_cancel get_request obtain new_basic_server fire
disconnection_told_example =
    disconnection_told silent list_hub program until_lost (leaves 0 ∷ []) 0 6 lost false refl refl
      refl refl

-- a codec on which one request comes, with the number 7 and a method without a service
abbrev one_request : BirpcCodec ℕ
one_request = record {
  read_header = λ k req resp.
      if nat_eq k 0
      then (1, record req { service_method = codes "Ping"; seq = 7 }, resp, none)
      else (k, req, resp, some eof);
  read_request_body = λ k x. (k, x, none);
  read_response_body = λ k x. (k, x, none);
  write_request = λ k r x. (k, none);
  write_response = λ k r x. (k, none);
  close = λ k. (k, none);
}

abbrev two_connections : List (Op ℕ)
two_connections =
    connects 0 no_channels start_clock
    ∷ connects 0 no_channels start_clock
    ∷ acts 1 headers
    ∷ acts 0 headers
    ∷ acts 1 headers
    ∷ acts 1 ends_pending
    ∷ acts 1 joins
    ∷ []

abbrev pinged : Served ℕ
pinged = or_new (
    (run one_request list_hub (new_birpc_server one_request list_hub program)
        two_connections).served
      1)

shared_answered_once_example :
    let log = pinged.session.link.conn.log in
    (answers 7 log ≤ receipts 7 log)
    × ((pinged.session.disconnects ≡ 0) ⊎ (answers 7 log ≡ receipts 7 log))
unfolding run step perform new_birpc_server serve_codec on_acts publish Steps.step Steps.perform
    input_header route read_request read_argument get_service split_last_dot answer send_response
    on_headers on_ends_pending on_joins Moves.step terminate finish_all open_link new_client
    with_cancel get_request get_response obtain release new_basic_server new_service
    suitable_methods same_type method_type put get empty
shared_answered_once_example =
    shared_answered_once one_request list_hub program two_connections 1 7 pinged refl

requests_apart_example :
    let w =
      run one_request list_hub (new_birpc_server one_request list_hub program) two_connections in
    count 0 (pool tasks_of w.served w.next) ≤ 1
requests_apart_example = requests_apart one_request list_hub program two_connections 0
