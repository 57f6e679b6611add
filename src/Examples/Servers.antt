-- ===== src/Examples/Servers.antt =====
-- server.go, basic_server.go: a connection with one request, and the registry.
use birpc.Base.{◌≤◌, ◌≡◌, ◌↔◌, ◌++◌, refl, none, some, [], ◌∷◌, true, false, text_Eq, count}
use birpc.Base.Text.{Text, codes, dot, no_dot, split_last_dot}
use birpc.Base.Dict.{get}
use birpc.BasicServer.{
  BasicServer, register_as, unregister_name, get_service, send_response, to_service, service_value,
}
use birpc.BasicServer.Registry.{unregister_name-register_as}
use birpc.BasicServer.Dispatch.{get_service_iff}
use birpc.Context.{background}
use birpc.Examples.Data.{program, json, arith_server, empty_server, arith_service, add_type}
use birpc.FreeList.{Request-Linked, Response-Linked}
use birpc.FreeList.Ownership.{Op, obtains, releases, start, run-held_once}
use birpc.FreeList.Ownership
use birpc.Json.{decoded, ServerRequest}
use birpc.Json.Server.{JsonServer, json_server_codec}
use birpc.Server.{serve_request, Conn}
use birpc.Server.Replies.{send_response-codec}
use birpc.Server.Single.{json_call_answered}
use birpc.Server.Steps.{Serving}
use birpc.Service.{ok}
use birpc.Wire.{Request, plain, empty_struct}

abbrev add_request : ServerRequest
add_request = record {
  method = codes "Arith.Add";
  params = some (codes "[1]");
  id = some (codes "1");
}

abbrev codec_state : JsonServer
codec_state = record {
  incoming = decoded add_request ∷ [];
  sent = [];
  req = record { method = []; params = none; id = none };
  seq = 0;
  pending = [];
  closed = 0;
}

abbrev serving : Serving JsonServer
serving = record {
  conn = record {
    server = arith_server;
    codec = codec_state;
    pending = record { m = []; parent = background };
    clock = record { now = 0; next_id = 0; fired = [] };
    log = [];
  };
  tasks = [];
  scope = 0;
  reading = true;
  closed = false;
  crashed = false;
}

run-held_once_example :
    count 1
      (Ownership.run
        (start {A = Request})
        (obtains ∷ obtains ∷ releases 0 ∷ releases 1 ∷ releases 1 ∷ obtains ∷ obtains ∷ [])).held
    ≤ 1
run-held_once_example =
    run-held_once Request
      (obtains ∷ obtains ∷ releases 0 ∷ releases 1 ∷ releases 1 ∷ obtains ∷ obtains ∷ []) 1

send_response-codec_example :
    (send_response (json_server_codec json) arith_server codec_state 0 (plain 7) (codes "bad")).1
    ≡ ((json_server_codec json).write_response codec_state
        (record { seq = (arith_server.free_req.cells 0).seq; error = codes "bad"; next = none })
        empty_struct).0
send_response-codec_example =
    send_response-codec (json_server_codec json) arith_server codec_state 0 (plain 7) (codes "bad")

get_service_iff_example :
    (get_service arith_server (codes "Arith.Add") ≡ ok (arith_service, add_type)) ↔ (
      (n m : Text) × (codes "Arith.Add" ≡ n ++ dot ∷ m)
      × (no_dot m ≡ true)
      × (get n arith_server.service_map ≡ some arith_service)
      × (get m arith_service.methods ≡ some add_type))
get_service_iff_example = get_service_iff arith_server (codes "Arith.Add") arith_service add_type

unregister_name-register_as_example :
    (server₁ : BasicServer) × (register_as program empty_server
        (service_value arith_service)
        []
        false
      ≡ some (server₁, none))
    × ((unregister_name server₁ (codes "Arith")).1 ≡ none)
    × (get (codes "Arith") (unregister_name server₁ (codes "Arith")).0.service_map ≡ none)
    × ((server₂ : BasicServer) × (register_as program
            (unregister_name server₁ (codes "Arith")).0
            (service_value arith_service)
            []
            false
          ≡ some (server₂, none)))
unfolding to_service get
unregister_name-register_as_example =
    unregister_name-register_as program empty_server (service_value arith_service) [] false
      arith_service (codes "Arith") refl refl

json_call_answered_example :
    (c' : Conn JsonServer) × (serve_request (json_server_codec json) serving.conn ≡ some (c', none))
    × (c'.codec.sent ≡ record { id = codes "1"; result = plain 7; error = none } ∷ [])
unfolding get_service split_last_dot get
json_call_answered_example =
    json_call_answered json serving.conn add_request [] arith_service add_type
      (λ rcvr ctx argv replyv. (plain 7, none)) (codes "[1]") (plain 5) refl refl refl refl refl
      (λ m. refl)
