-- ===== src/Json/Calls.antt =====
-- client.go, server.go, service.go, jsonrpc: a call over JSON, from the client's codec through the
-- server and back.
use birpc.Base.{
  ℕ, ◌<◌, ◌^◌, ◌≡◌, ◌≢◌, refl, sym, ap, ◌∙◌, Option, none, some, List, [], ◌∷◌, ◌++◌, true, false,
  arith, nat_Eq, count, length, length-append,
}
use birpc.Base.Text.{Text, is_ascii}
use birpc.Base.Dict.{get}
use birpc.BasicServer.{get_service}
use birpc.Client.{Client, Channel, reading, new_client}
use birpc.Client.Answers.{replied}
use birpc.Client.Runs.{reached, run-seq-le, new_client-seq}
use birpc.ClientCodec.{Op, headers, bodies, writes, step}
use birpc.Context.{Context}
use birpc.Json.{
  Json, Decoded, decoded, ClientRequest, ClientResponse, ServerRequest, ServerResponse, null_text,
}
use birpc.Json.Arrivals.{
  call_request, codec, client_after, client_reached, writes-sent, reply_arrives, error_arrives,
}
use birpc.Json.Encoding.{Encoding}
use birpc.Json.Requests.{method_result, request_served}
use birpc.Json.Server.{JsonServer, json_server_codec, response_of}
use birpc.Server.{Conn, serve_request}
use birpc.Service.{Service, ok, get_argv}
use birpc.Service.Types.{MethodType, user}
use birpc.Wire.{Value, nil_value, Err, server_error, message}

module _ (json : Json) (enc : Encoding json) where
  module _ (shut : List (Decoded ClientResponse) → List (Decoded ClientResponse) × Option Err)
      (incoming : List (Decoded ClientResponse)) (channels : ℕ → Channel) where
    -- the client after some of its steps, and before them
    abbrev at : List Op → Client
    at os = (client_after json shut incoming channels os).client

    number_small :
        (os : List Op) (p : ℕ)
        → length os < 2 ^ 64
        → (at os).sending ≡ some p
        → ((at os).calls p).seq < 2 ^ 64
    number_small os p small s =
        let (es, few, same) = client_reached json shut incoming channels os small in
        let zero = new_client-seq channels in
        let inv = reached channels es few in
        let sending = sym (ap (λ c. c.sending) same) ∙ s in
        let bound = run-seq-le (new_client channels) es (omega (arith, zero)) in
        let out = (inv.writes p sending).0 in
        let number = inv.numbered p (rw out refl) in
        let there = ap (λ c. (c.calls p).seq) same in omega (arith, zero, bound, number, there)

    request_written :
        (os : List Op) (p : ℕ)
        → length os < 2 ^ 64
        → (client_after json shut incoming channels os).crashed ≡ false
        → (at os).sending ≡ some p
        → ((q : ClientRequest) → json.encode_request q ≡ none)
        → (step (codec json shut) (client_after json shut incoming channels os) writes).codec.sent
          ≡ call_request (at os) p ∷ (client_after json shut incoming channels os).codec.sent
    request_written os p small up s er =
        let (es, few, same) = client_reached json shut incoming channels os small in
        writes-sent json shut (client_after json shut incoming channels os) p
          (rw same (reached channels es few)) up s (er (call_request (at os) p))

    -- A call over JSON, in a run of fewer than 2^64 steps of a client that does not panic, where Encode
    -- never fails and the name of the method is ASCII. When the client writes the call, its message is
    -- sent. When that comes to a server at which the method is a program's, and its parameters can be
    -- read, the server serves it and sends one response. When that comes to the client, at the read of
    -- a header, while the call is pending, and the method returned no error and a reply whose text is
    -- not null, and that text can be read into the call's reply, which is not nil, then after two
    -- steps of input the call has the reply that was read, and has been signalled once.
    pub json_call_returns :
        (os os' : List Op) (p : ℕ) (c : Conn JsonServer) (more : List (Decoded ServerRequest))
        (svc : Service) (t : MethodType) (f : Value → Context → Value → Value → Value × Option Err)
        (v reply got : Value) (rest : List (Decoded ClientResponse))
        → length (os ++ writes ∷ os') < 2 ^ 64
        → (client_after json shut incoming channels os).crashed ≡ false
        → (at os).sending ≡ some p
        → ((q : ClientRequest) → json.encode_request q ≡ none)
        → ((q : ServerResponse) → json.encode_response q ≡ none)
        → is_ascii ((at os).calls p).service_method ≡ true
        → c.codec.incoming ≡ decoded (enc.request_of (call_request (at os) p)) ∷ more
        → get_service c.server ((at os).calls p).service_method ≡ ok (svc, t)
        → t.func ≡ user f
        → json.unmarshal_params (enc.params_text ((at os).calls p).args) (get_argv t).0 ≡ (v, none)
        → method_result c svc t f v ≡ (reply, none)
        → enc.result_text reply ≢ null_text
        → (client_after json shut incoming channels (os ++ writes ∷ os')).crashed ≡ false
        → (at (os ++ writes ∷ os')).input ≡ reading
        → (client_after json shut incoming channels (os ++ writes ∷ os')).codec.incoming
          ≡ decoded (
              enc.response_of
                (response_of json (some (enc.number_text ((at os).calls p).seq)) [] reply))
            ∷ rest
        → get ((at os).calls p).seq (at (os ++ writes ∷ os')).pending ≡ some p
        → ((at (os ++ writes ∷ os')).calls p).reply ≢ nil_value
        → json.unmarshal (enc.result_text reply) ((at (os ++ writes ∷ os')).calls p).reply
          ≡ (got, none)
        → let u = client_after json shut incoming channels os in
          let u' = client_after json shut incoming channels (os ++ writes ∷ os') in
          let w = step (codec json shut) (step (codec json shut) u' headers) bodies in
          ((step (codec json shut) u writes).codec.sent ≡ call_request u.client p ∷ u.codec.sent)
          × ((c' : Conn JsonServer) × (serve_request (json_server_codec json) c ≡ some (c', none))
              × (c'.codec.sent
                  ≡ response_of json (some (enc.number_text (u.client.calls p).seq)) [] reply
                    ∷ c.codec.sent))
          × (w.client.calls p ≡ replied (u'.client.calls p) got)
          × (count p w.client.signals ≡ 1)
    json_call_returns os os' p c more svc t f v reply got rest small up s er es plain_method i g fn
          un res full up' here inc pend live got_it =
        let before : length os < 2 ^ 64 = ground (arith, length-append os (writes ∷ os'), small) in
        let n : ℕ = ((at os).calls p).seq in
        let answer = response_of json (some (enc.number_text n)) [] reply in
        let same_number : (enc.response_of answer).id ≡ n =
          enc.response_of-id answer n (es answer) (number_small os p before s) refl in
        let arrived =
          reply_arrives json shut incoming channels (os ++ writes ∷ os') (enc.response_of answer)
            rest (enc.result_text reply) p got small up' here inc
            (enc.response_of-result answer (es answer) full)
            (enc.response_of-no_error answer (es answer) refl) (rw same_number pend) live got_it in
        (
          request_written os p before up s er,
          request_served json enc (call_request (at os) p) c more svc t f v reply none er es
              plain_method i g fn un res,
          arrived.0,
          arrived.1,
        )

    -- A call over JSON whose method fails, in a run of fewer than 2^64 steps of a client that does not
    -- panic, where Encode never fails and the name of the method and the error's text are ASCII. When
    -- the message of the call that is being sent comes to a server at which the method is a program's,
    -- and its parameters can be read, the server serves it and sends one response. When that comes to
    -- the client, at the read of a header, after the call's message was written and while the call is
    -- pending, and the method returned an error with a text, then after two steps of input the call
    -- has that text as a ServerError, whatever the method left in its reply, keeps its own reply, and
    -- has been signalled once.
    pub json_call_fails :
        (os os' : List Op) (p : ℕ) (c : Conn JsonServer) (more : List (Decoded ServerRequest))
        (svc : Service) (t : MethodType) (f : Value → Context → Value → Value → Value × Option Err)
        (v reply : Value) (e : Err) (x : ℕ) (text : Text) (rest : List (Decoded ClientResponse))
        → length (os ++ writes ∷ os') < 2 ^ 64
        → (at os).sending ≡ some p
        → ((q : ClientRequest) → json.encode_request q ≡ none)
        → ((q : ServerResponse) → json.encode_response q ≡ none)
        → is_ascii ((at os).calls p).service_method ≡ true
        → c.codec.incoming ≡ decoded (enc.request_of (call_request (at os) p)) ∷ more
        → get_service c.server ((at os).calls p).service_method ≡ ok (svc, t)
        → t.func ≡ user f
        → json.unmarshal_params (enc.params_text ((at os).calls p).args) (get_argv t).0 ≡ (v, none)
        → method_result c svc t f v ≡ (reply, some e)
        → message e ≡ x ∷ text
        → is_ascii (x ∷ text) ≡ true
        → (client_after json shut incoming channels (os ++ writes ∷ os')).crashed ≡ false
        → (at (os ++ writes ∷ os')).input ≡ reading
        → (client_after json shut incoming channels (os ++ writes ∷ os')).codec.incoming
          ≡ decoded (
              enc.response_of
                (response_of json (some (enc.number_text ((at os).calls p).seq)) (x ∷ text) reply))
            ∷ rest
        → get ((at os).calls p).seq (at (os ++ writes ∷ os')).pending ≡ some p
        → let u = client_after json shut incoming channels os in
          let u' = client_after json shut incoming channels (os ++ writes ∷ os') in
          let w = step (codec json shut) (step (codec json shut) u' headers) bodies in
          ((c' : Conn JsonServer) × (serve_request (json_server_codec json) c ≡ some (c', none))
            × (c'.codec.sent
                ≡ response_of json (some (enc.number_text (u.client.calls p).seq)) (x ∷ text) reply
                  ∷ c.codec.sent))
          × (w.client.calls p
              ≡ record (u'.client.calls p) { error = some (server_error (x ∷ text)) })
          × (count p w.client.signals ≡ 1)
    json_call_fails os os' p c more svc t f v reply e x text rest small s er es plain_method i g fn
          un res told plain_text up' here inc pend =
        let before : length os < 2 ^ 64 = ground (arith, length-append os (writes ∷ os'), small) in
        let n : ℕ = ((at os).calls p).seq in
        let id : Option Text = some (enc.number_text n) in
        let answer = response_of json id (x ∷ text) reply in
        let same_number : (enc.response_of answer).id ≡ n =
          enc.response_of-id answer n (es answer) (number_small os p before s) refl in
        let (c', served, sent) =
          request_served json enc (call_request (at os) p) c more svc t f v reply (some e) er es
            plain_method i g fn un res in
        let arrived =
          error_arrives json shut incoming channels (os ++ writes ∷ os') (enc.response_of answer)
            rest x text p small up' here inc
            (enc.response_of-error answer (x ∷ text) (es answer) plain_text refl)
            (rw same_number pend) in
        (
          (c', served, sent ∙ ap (λ d. response_of json id d reply ∷ c.codec.sent) told),
          arrived.0,
          arrived.1,
        )
