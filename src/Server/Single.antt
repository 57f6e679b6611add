-- ===== src/Server/Single.antt =====
-- server.go, service.go, jsonrpc/server.go: one request over JSON, from its message to its response.
use birpc.Base.{
  ℕ, ◌+◌, ◌≡◌, refl, ap, ◌∙◌, Option, none, some, List, [], ◌∷◌, arith, nat_Eq, nat_eq_refl,
  Bool-cases, Option-cases, inl, inr,
}
use birpc.Base.Text.{Text, split_last_dot}
use birpc.Base.Dict.{get, put, get-put}
use birpc.BasicServer.{BasicServer, get_request, get_service, response_body}
use birpc.Context.{Context}
use birpc.FreeList.{obtain, Request-Linked}
use birpc.Json.{Json, decoded, Decoded, ServerRequest, ServerResponse}
use birpc.Json.Server.{
  JsonServer, json_server_codec, read_request_header, read_request_body, read_params,
  write_response, response_of, number_request,
}
use birpc.Pending.{start}
use birpc.Server.{
  Conn, Task, accepts, read_header, read_body, read_rest, read_request, final_argv, prepared,
  answer, call, begin_call, end_call, serve_request, error_message, seq_of, note_received,
}
use birpc.Server.Replies.{send_response-codec}
use birpc.Service.{Service, Returned, ok, get_argv, get_replyv, invoke}
use birpc.Service.Types.{MethodType, user, is_pointer}
use birpc.Wire.{Request, Value, Err, u64, zero_request}
use birpc.FreeList.Ownership.{obtain-zeroed}

-- The registry alone says which method serves a text.
pub get_service_agrees :
    (s s' : BasicServer) (sm : Text)
    → s'.service_map ≡ s.service_map
    → get_service s' sm ≡ get_service s sm
unfolding get_service
get_service_agrees s s' sm h = elim (Option-cases (split_last_dot sm)) [
  | inl k ↦ rw (k, get_service) refl
  | inr ((n, m), k) ↦ rw (k, get_service) (rw h refl)
]

module _ (json : Json) where
  -- An argument is read into a pointer, so that its body is not discarded.
  argument_read :
      (c : JsonServer) (t : MethodType) (text : Text)
      → c.req.params ≡ some text
      → ((read_request_body json c (get_argv t).0).0 ≡ c)
        × ((read_request_body json c (get_argv t).0).1
            ≡ (json.unmarshal_params text (get_argv t).0).0)
        × ((read_request_body json c (get_argv t).0).2
            ≡ (json.unmarshal_params text (get_argv t).0).1)
  unfolding get_argv read_request_body read_params
  argument_read c t text p = elim (Bool-cases (is_pointer t.arg_type)) [
    | inl e ↦ (rw e refl, rw e (rw p refl), rw e (rw p refl))
    | inr e ↦ (rw e refl, rw e (rw p refl), rw e (rw p refl))
  ]

  -- the codec once a message was read
  abbrev after_header : JsonServer → ServerRequest → List (Decoded ServerRequest) → JsonServer
  after_header c q rest = (number_request (record c { incoming = rest }) q zero_request).0

  header_read :
      (c : Conn JsonServer) (q : ServerRequest) (rest : List (Decoded ServerRequest))
      → c.codec.incoming ≡ decoded q ∷ rest
      → let codec = json_server_codec json in
        ((read_header codec c).2 ≡ none)
        × ((read_header codec c).0.codec ≡ after_header c.codec q rest)
        × ((read_header codec c).0.server.service_map ≡ c.server.service_map)
        × ((read_header codec c).0.pending ≡ c.pending)
        × ((read_header codec c).0.clock ≡ c.clock)
        × ((read_header codec c).0.server.free_req.cells (read_header codec c).1
            ≡ record { service_method = q.method; seq = u64 (c.codec.seq + 1); next = none })
  unfolding read_header get_request read_request_header
  header_read c q rest i =
      let clean = obtain-zeroed c.server.free_req (obtain c.server.free_req).0 in
      let same = nat_eq_refl (obtain c.server.free_req).0 in
      (rw i refl, rw i refl, refl, refl, refl, ground (arith, i, clean, same))

  -- the connection when readRequest returns, and the call that it returns
  abbrev accepted : Conn JsonServer → Conn JsonServer
  accepted c =
      let (c', req, e) = read_header (json_server_codec json) c in
      note_received (json_server_codec json) c' req

  abbrev task_of : Conn JsonServer → Service → MethodType → Value → Task
  task_of c svc t v = record {
    svc = svc;
    mtype = t;
    req = (read_header (json_server_codec json) c).1;
    argv = final_argv (get_argv t).1 v;
    replyv = get_replyv t;
    ctx = none;
  }

  request_accepted :
      (c : Conn JsonServer) (q : ServerRequest) (rest : List (Decoded ServerRequest))
      (svc : Service) (t : MethodType) (text : Text) (v : Value)
      → c.codec.incoming ≡ decoded q ∷ rest
      → get_service c.server q.method ≡ ok (svc, t)
      → q.params ≡ some text
      → json.unmarshal_params text (get_argv t).0 ≡ (v, none)
      → read_request (json_server_codec json) c ≡ (accepted c, accepts (task_of c svc t v))
  unfolding read_request read_rest read_body
  request_accepted c q rest svc t text v i g p u =
      let codec = json_server_codec json in
      let c' : Conn JsonServer = (read_header codec c).0 in
      let req : ℕ = (read_header codec c).1 in
      let h = header_read c q rest i in
      let found : get_service c'.server (c'.server.free_req.cells req).service_method
          ≡ ok (svc, t) =
        ap (λ (r : Request). get_service c'.server r.service_method) h.5
        ∙ get_service_agrees c.server c'.server q.method h.2
        ∙ g in
      let argument = argument_read (accepted c).codec t text (rw h.1 p) in
      rw (h.0, read_request)
        (rw (found, read_rest)
          (rw (argument.2 ∙ ap (λ (x : Value × Option Err). x.1) u, read_body)
            (rw argument.0 (rw (argument.1 ∙ ap (λ (x : Value × Option Err). x.0) u) refl))))

  response_once :
      (b : Option Text) (reply : Value) (errmsg : Text)
      → response_of json b errmsg (response_body reply errmsg) ≡ response_of json b errmsg reply
  response_once b reply [] = refl
  response_once b reply (x ∷ s) = refl

  -- the response to a call, from the numbers and ids that its connection has
  answer_sent :
      (c : Conn JsonServer) (req : ℕ) (reply : Value) (errmsg : Text) (b : Option Text)
      → get (seq_of c req) c.codec.pending ≡ some b
      → ((m : ServerResponse) → json.encode_response m ≡ none)
      → (answer (json_server_codec json) c req reply errmsg).codec.sent
        ≡ response_of json b errmsg (response_body reply errmsg) ∷ c.codec.sent
  unfolding answer write_response
  answer_sent c req reply errmsg b g enc = ground (
    arith,
    send_response-codec (json_server_codec json) c.server c.codec req reply errmsg,
    g,
    response_once b reply errmsg,
    enc (response_of json b errmsg (response_body reply errmsg)),
  )

  -- what a method of the program leaves behind
  abbrev returned :
      Conn JsonServer → Task → (Value → Context → Value → Value → Value × Option Err) → Returned
  returned c t f =
      let (c₁, t₁) = begin_call (json_server_codec json) c t in
      let (reply, e) =
        f t.svc.rcvr (start c.pending (seq_of c t.req) c.clock).0 (prepared t.svc t.argv)
          t.replyv in
      record { pending = c₁.pending; clock = c₁.clock; reply = reply; error = e }

  call_user :
      (c : Conn JsonServer) (t : Task) (f : Value → Context → Value → Value → Value × Option Err)
      → t.mtype.func ≡ user f
      → let (c₁, t₁) = begin_call (json_server_codec json) c t in
        call (json_server_codec json) c t
        ≡ some (end_call (json_server_codec json) c₁ t₁ (returned c t f))
  unfolding call begin_call invoke
  call_user c t f h = rw (h, invoke) refl

  call_sent :
      (c : Conn JsonServer) (t : Task) (f : Value → Context → Value → Value → Value × Option Err)
      (b : Option Text)
      → get (seq_of c t.req) c.codec.pending ≡ some b
      → ((m : ServerResponse) → json.encode_response m ≡ none)
      → let (c₁, t₁) = begin_call (json_server_codec json) c t in
        let r = returned c t f in
        (end_call (json_server_codec json) c₁ t₁ r).codec.sent
        ≡ response_of json b (error_message (json_server_codec json) r.error) r.reply ∷ c.codec.sent
  unfolding end_call begin_call
  call_sent c t f b g enc =
      let r = returned c t f in
      let e = error_message (json_server_codec json) r.error in
      answer_sent (record c { pending = r.pending; clock = r.clock }) t.req r.reply e b g enc
      ∙ ap (λ m. m ∷ c.codec.sent) (response_once b r.reply e)

  serve_accepts :
      (c c' c'' : Conn JsonServer) (t : Task)
      → read_request (json_server_codec json) c ≡ (c', accepts t)
      → call (json_server_codec json) c' t ≡ some c''
      → serve_request (json_server_codec json) c ≡ some (c'', none)
  unfolding serve_request
  serve_accepts c c' c'' t h k = ground (arith, h, k)

  -- A JSON request for a method of the program, whose service is registered and whose parameters
  -- are there and can be read, is served: the method runs on them in a new context, and one
  -- response is sent, with the id of the request and the method's error text, or else its reply.
  -- Encode must not fail.
  pub json_call_answered :
      (c : Conn JsonServer) (q : ServerRequest) (rest : List (Decoded ServerRequest))
      (svc : Service) (t : MethodType) (f : Value → Context → Value → Value → Value × Option Err)
      (text : Text) (v : Value)
      → c.codec.incoming ≡ decoded q ∷ rest
      → get_service c.server q.method ≡ ok (svc, t)
      → t.func ≡ user f
      → q.params ≡ some text
      → json.unmarshal_params text (get_argv t).0 ≡ (v, none)
      → ((m : ServerResponse) → json.encode_response m ≡ none)
      → let ctx = (start c.pending (u64 (c.codec.seq + 1)) c.clock).0 in
        let (reply, e) =
          f svc.rcvr ctx (prepared svc (final_argv (get_argv t).1 v)) (get_replyv t) in
        (c' : Conn JsonServer) × (serve_request (json_server_codec json) c ≡ some (c', none))
        × (c'.codec.sent
            ≡ response_of json q.id (error_message (json_server_codec json) e) reply ∷ c.codec.sent)
  unfolding read_header get_request obtain get_replyv get_argv start
  json_call_answered c q rest svc t f text v i g fn p u enc =
      let codec = json_server_codec json in
      let h = header_read c q rest i in
      let task = task_of c svc t v in
      let (c₁, t₁) = begin_call codec (accepted c) task in
      let n : ℕ = u64 (c.codec.seq + 1) in
      let number = ap (λ (r : Request). get r.seq (accepted c).codec.pending) h.5 in
      let entry = ap (λ (k : JsonServer). get n k.pending) h.1 in
      let stored : get n (put n q.id c.codec.pending) ≡ some q.id =
        ground (arith, get-put n n q.id c.codec.pending) in
      let r = returned (accepted c) task f in
      let response : ServerResponse = response_of json q.id (error_message codec r.error) r.reply in
      (
        end_call codec c₁ t₁ (returned (accepted c) task f),
        serve_accepts c (accepted c) _ task (request_accepted c q rest svc t text v i g p u)
            (call_user (accepted c) task f fn),
        call_sent (accepted c) task f q.id (number ∙ entry ∙ stored) enc
            ∙ ap (λ (k : JsonServer). response ∷ k.sent) h.1,
      )
