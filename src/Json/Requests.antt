-- ===== src/Json/Requests.antt =====
-- server.go, service.go, jsonrpc/server.go: the request of a client's call, served.
use birpc.Base.{◌+◌, ◌≡◌, refl, ap, ◌∙◌, Option, none, some, List, ◌∷◌, true, nat_Eq}
use birpc.Base.Text.{is_ascii}
use birpc.BasicServer.{get_service}
use birpc.Context.{Context}
use birpc.Json.{Json, Decoded, decoded, ClientRequest, ServerRequest, ServerResponse}
use birpc.Json.Encoding.{Encoding}
use birpc.Json.Server.{JsonServer, json_server_codec, response_of}
use birpc.Pending.{start}
use birpc.Server.{Conn, final_argv, prepared, serve_request, error_message}
use birpc.Server.Single.{json_call_answered}
use birpc.Service.{Service, ok, get_argv, get_replyv}
use birpc.Service.Types.{MethodType, user}
use birpc.Wire.{Value, Err, u64}

-- what a method makes of an argument that was read, in a new context
abbrev pub method_result :
    Conn JsonServer
    → Service
    → MethodType
    → (Value → Context → Value → Value → Value × Option Err)
    → Value
    → Value × Option Err
method_result c svc t f v =
    f svc.rcvr (start c.pending (u64 (c.codec.seq + 1)) c.clock).0
      (prepared svc (final_argv (get_argv t).1 v)) (get_replyv t)

module _ (json : Json) (enc : Encoding json) where
  pub request_served :
      (m : ClientRequest) (c : Conn JsonServer) (more : List (Decoded ServerRequest))
      (svc : Service) (t : MethodType) (f : Value → Context → Value → Value → Value × Option Err)
      (v reply : Value) (e : Option Err)
      → ((q : ClientRequest) → json.encode_request q ≡ none)
      → ((q : ServerResponse) → json.encode_response q ≡ none)
      → is_ascii m.method ≡ true
      → c.codec.incoming ≡ decoded (enc.request_of m) ∷ more
      → get_service c.server m.method ≡ ok (svc, t)
      → t.func ≡ user f
      → json.unmarshal_params (enc.params_text m.params) (get_argv t).0 ≡ (v, none)
      → method_result c svc t f v ≡ (reply, e)
      → (c' : Conn JsonServer) × (serve_request (json_server_codec json) c ≡ some (c', none))
        × (c'.codec.sent
            ≡ response_of json
                (some (enc.number_text m.id))
                (error_message (json_server_codec json) e)
                reply
              ∷ c.codec.sent)
  request_served m c more svc t f v reply e er es plain_method i g fn u res =
      let named = enc.request_of-method m (er m) plain_method in
      let (c', served, sent) =
        json_call_answered json c (enc.request_of m) more svc t f (enc.params_text m.params) v i
          (ap (get_service c.server) named ∙ g) fn (enc.request_of-params m (er m)) u es in
      (c', served, sent ∙ rw (res, enc.request_of-id m (er m)) refl)
