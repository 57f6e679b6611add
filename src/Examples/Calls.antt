-- ===== src/Examples/Calls.antt =====
-- client.go, server.go, jsonrpc: a call over JSON that returns, and one that fails.
use birpc.Base.{
  ℕ, ◌≡◌, refl, none, some, List, [], ◌∷◌, ◌++◌, Option, arith, count, nat_Eq, text_Eq,
}
use birpc.Base.Text.{codes, split_last_dot, is_ascii}
use birpc.Base.Dict.{get, put, delete}
use birpc.BasicServer.{get_service}
use birpc.Client.{Channel, new_client, go, send_begin, send_end}
use birpc.Client.Answers.{replied}
use birpc.Client.Moves.{goes, sends}
use birpc.Client.Moves
use birpc.ClientCodec.{
  Op, headers, bodies, writes, acts, on_writes, on_acts, perform, step, run, new_client_with_codec,
}
use birpc.Context.{background}
use birpc.Examples.Data.{args_type, int_type, arith_type}
use birpc.Examples.Decimals.{decimal_json, decimal_encoding}
use birpc.FreeList.{empty, Request-Linked, Response-Linked}
use birpc.Json.{Decoded, decoded, ClientResponse, ServerRequest, no_value, text_value}
use birpc.Json.Arrivals.{codec, client_after}
use birpc.Json.Calls.{json_call_returns, json_call_fails}
use birpc.Json.Client.{new_client_codec, write_request}
use birpc.Json.Server.{JsonServer, json_server_codec, response_of}
use birpc.Server.{Conn, serve_request}
use birpc.Service.{Service}
use birpc.Service.Types.{MethodType, user}
use birpc.Wire.{Value, plain, pointer_to, Err, message, plain_error, server_error}
use birpc.Context.{Context}

abbrev ten_each : ℕ → Channel
ten_each n = record { cap = 10; buffer = [] }

abbrev shut : List (Decoded ClientResponse) → List (Decoded ClientResponse) × Option Err
shut l = ([], none)

abbrev answering : Value → Context → Value → Value → Value × Option Err
answering rcvr ctx argv replyv = (plain 42, none)

abbrev refusing : Value → Context → Value → Value → Value × Option Err
refusing rcvr ctx argv replyv = (plain 42, some (plain_error (codes "no")))

abbrev answers_type : MethodType
answers_type = record { func = user answering; arg_type = args_type; reply_type = int_type }

abbrev refuses_type : MethodType
refuses_type = record { func = user refusing; arg_type = args_type; reply_type = int_type }

abbrev oracle : Service
oracle = record {
  name = codes "Oracle";
  rcvr = pointer_to (plain 0);
  typ = arith_type;
  methods = (codes "Ask", answers_type) ∷ (codes "Beg", refuses_type) ∷ [];
}

-- the server, with one message
abbrev oracle_conn : ServerRequest → Conn JsonServer
oracle_conn q = record {
  server = record {
    service_map = (codes "Oracle", oracle) ∷ [];
    free_req = empty;
    free_resp = empty;
  };
  codec = record {
    incoming = decoded q ∷ [];
    sent = [];
    req = record { method = []; params = none; id = none };
    seq = 0;
    pending = [];
    closed = 0;
  };
  pending = record { m = []; parent = background };
  clock = record { now = 0; next_id = 0; fired = [] };
  log = [];
}

abbrev ask : ServerRequest
ask = record { method = codes "Oracle.Ask"; params = some (codes "[12]"); id = some (codes "1") }

abbrev beg : ServerRequest
beg = record { method = codes "Oracle.Beg"; params = some (codes "[12]"); id = some (codes "1") }

-- the client, with the response that comes to it
abbrev asking : List Op
asking = acts (goes (codes "Oracle.Ask") (plain 12) (plain 2) 0) ∷ acts (sends 0) ∷ []

abbrev begging : List Op
begging = acts (goes (codes "Oracle.Beg") (plain 12) (plain 2) 0) ∷ acts (sends 0) ∷ []

abbrev answered : List (Decoded ClientResponse)
answered = decoded (record { id = 1; result = some (codes "42"); error = no_value }) ∷ []

abbrev refused : List (Decoded ClientResponse)
refused = decoded (record { id = 1; result = none; error = text_value (codes "no") }) ∷ []

json_call_returns_example :
    let u = client_after decimal_json shut answered ten_each asking in
    let u' = client_after decimal_json shut answered ten_each (asking ++ writes ∷ []) in
    let w = step (codec decimal_json shut) (step (codec decimal_json shut) u' headers) bodies in
    ((step (codec decimal_json shut) u writes).codec.sent
      ≡ record { method = codes "Oracle.Ask"; params = plain 12; id = 1 } ∷ [])
    × ((c' : Conn JsonServer) × (serve_request (json_server_codec decimal_json) (oracle_conn ask)
          ≡ some (c', none))
        × (c'.codec.sent ≡ record { id = codes "1"; result = plain 42; error = none } ∷ []))
    × (w.client.calls 0 ≡ replied (u'.client.calls 0) (plain 42))
    × (count 0 w.client.signals ≡ 1)
unfolding run step perform on_acts on_writes new_client_with_codec new_client_codec new_client go
    send_begin send_end get put delete Moves.step write_request get_service split_last_dot is_ascii
json_call_returns_example =
    json_call_returns decimal_json decimal_encoding shut answered ten_each asking [] 0
      (oracle_conn ask) [] oracle answers_type answering (plain 12) (plain 42) (plain 42) []
      (omega arith) refl refl (λ q. refl) (λ q. refl) refl refl refl refl refl refl (ground arith)
      refl refl refl refl (ground arith) refl

json_call_fails_example :
    let u = client_after decimal_json shut refused ten_each begging in
    let u' = client_after decimal_json shut refused ten_each (begging ++ writes ∷ []) in
    let w = step (codec decimal_json shut) (step (codec decimal_json shut) u' headers) bodies in
    ((c' : Conn JsonServer) × (serve_request (json_server_codec decimal_json) (oracle_conn beg)
        ≡ some (c', none))
      × (c'.codec.sent ≡ response_of decimal_json (some (codes "1")) (codes "no") (plain 42) ∷ []))
    × (w.client.calls 0 ≡ record (u'.client.calls 0) { error = some (server_error (codes "no")) })
    × (count 0 w.client.signals ≡ 1)
unfolding run step perform on_acts on_writes new_client_with_codec new_client_codec new_client go
    send_begin send_end get put delete Moves.step write_request get_service split_last_dot is_ascii
    message
json_call_fails_example =
    json_call_fails decimal_json decimal_encoding shut refused ten_each begging [] 0
      (oracle_conn beg) [] oracle refuses_type refusing (plain 12) (plain 42)
      (plain_error (codes "no")) b'n' (codes "o") [] (omega arith) refl (λ q. refl) (λ q. refl) refl
      refl refl refl refl refl refl refl refl refl refl refl
