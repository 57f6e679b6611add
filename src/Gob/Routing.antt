-- ===== src/Gob/Routing.antt =====
-- birpc_codec.go, birpc_client.go: where a header goes that the other end of a connection wrote.
use birpc.Base.{ℕ, ◌≡◌, refl, ap, ◌∙◌, none, some, [], ◌∷◌, arith, nat_Eq, nat_eq_refl}
use birpc.Base.Text.{Text}
use birpc.Base.Dict.{get, delete, get-delete}
use birpc.BasicServer.{get_service, get_request}
use birpc.Birpc.{
  BirpcClient, input_header, route, dispatch, read_request, read_argument, read_response,
}
use birpc.Birpc.Rounds.{header_read, routed, input_header-routed, argument_read, read_argument-read}
use birpc.Client.{Client, handling, take_response, handle, done}
use birpc.Client.Answers.{replied}
use birpc.FreeList.{Request-Linked}
use birpc.Gob.{Message, Encoded, request_header, response_header, GobIo, read_header}
use birpc.Gob.Bidirectional.{gob_birpc_codec}
use birpc.Server.{Conn, Task, accepts, final_argv, seq_of, received}
use birpc.Server.Single.{get_service_agrees}
use birpc.Service.{Service, ok, get_argv, get_replyv}
use birpc.Service.Types.{MethodType}
use birpc.Wire.{Request, Response, Value, zero_request, zero_response}

-- The other end of a connection: `brings` says which value comes next on it. Package gob matches
-- the fields of a struct by name, and leaves out those that the receiver has not.
pub record Peer {W : Type 0} (gob : GobIo W) : Type 1 where
  pub brings : W → Encoded → Type 0
  pub request_decoded :
      (w : W) (r : Request)
      → brings w (request_header r)
      → ((gob.decode_message w).1
          ≡ record { seq = r.seq; service_method = r.service_method; error = [] })
        × ((gob.decode_message w).2 ≡ none)
  pub response_decoded :
      (w : W) (r : Response)
      → brings w (response_header r)
      → ((gob.decode_message w).1 ≡ record { seq = r.seq; service_method = []; error = r.error })
        × ((gob.decode_message w).2 ≡ none)

abbrev pub bare_response : ℕ → Response
bare_response n = record { seq = n; error = []; next = none }

abbrev named_request : Text → ℕ → Request
named_request m n = record { service_method = m; seq = n; next = none }

module _ {W : Type 0} (gob : GobIo W) (peer : Peer gob) where
  -- A message without a method fills the response, one with a method the request.
  read_header-response :
      (w : W) (m : Message)
      → (gob.decode_message w).1 ≡ m
      → (gob.decode_message w).2 ≡ none
      → m.service_method ≡ []
      → read_header gob w zero_request zero_response ≡ (
        (gob.decode_message w).0,
        zero_request,
        record { seq = m.seq; error = m.error; next = none },
        none,
      )
  unfolding read_header
  read_header-response w m d e none_named = ground (arith, e, d, none_named)

  read_header-request :
      (w : W) (m : Message) (x : ℕ) (s : Text)
      → (gob.decode_message w).1 ≡ m
      → (gob.decode_message w).2 ≡ none
      → m.service_method ≡ x ∷ s
      → read_header gob w zero_request zero_response ≡ (
        (gob.decode_message w).0,
        record { seq = m.seq; service_method = x ∷ s; next = none },
        zero_response,
        none,
      )
  unfolding read_header
  read_header-request w m x s d e named = ground (arith, e, d, named)

  response_taken :
      (b : BirpcClient W) (m : Message)
      → (gob.decode_message b.conn.codec).1 ≡ m
      → (gob.decode_message b.conn.codec).2 ≡ none
      → m.service_method ≡ []
      → let b' = input_header (gob_birpc_codec gob) b in
        (b'.client ≡ take_response (record { seq = m.seq; error = m.error; next = none }) b.client)
        × (b'.tasks ≡ b.tasks)
        × (b'.conn.log ≡ b.conn.log)
        × (b'.conn.codec ≡ (gob.decode_message b.conn.codec).0)
  unfolding route
  response_taken b m d e none_named =
      let path =
        input_header-routed (gob_birpc_codec gob) b
        ∙ ap (routed (gob_birpc_codec gob) b)
            (read_header-response b.conn.codec m d e none_named) in
      (
        ap (λ c. c.client) path,
        ap (λ c. c.tasks) path,
        ap (λ c. c.conn.log) path,
        ap (λ c. c.conn.codec) path,
      )

  -- A request that the other end wrote, with the name of a registered method and a body that can be
  -- read, starts that method's call, under the number of the request, and leaves the calls of this
  -- end as they were.
  pub gob_request_started :
      (b : BirpcClient W) (r : Request) (x : ℕ) (s : Text) (svc : Service) (t : MethodType) (k : W)
      (v : Value)
      → peer.brings b.conn.codec (request_header r)
      → r.service_method ≡ x ∷ s
      → get_service b.conn.server (x ∷ s) ≡ ok (svc, t)
      → gob.decode_body (gob.decode_message b.conn.codec).0 (get_argv t).0 ≡ (k, v, none)
      → let b' = input_header (gob_birpc_codec gob) b in
        let req = (get_request b.conn.server).0 in
        (b'.tasks
          ≡ record {
            svc = svc;
            mtype = t;
            req = req;
            argv = final_argv (get_argv t).1 v;
            replyv = get_replyv t;
            ctx = none;
          }
            ∷ b.tasks)
        × (seq_of b'.conn req ≡ r.seq)
        × (b'.client ≡ b.client)
        × (b'.conn.log ≡ received r.seq ∷ b.conn.log)
  unfolding route read_request read_argument get_request
  gob_request_started b r x s svc t k v next named found body =
      let (d, e) = peer.request_decoded b.conn.codec r next in
      let codec = gob_birpc_codec gob in
      let path =
        input_header-routed codec b
        ∙ ap (routed codec b) (read_header-request b.conn.codec _ x s d e named) in
      let req : ℕ = (get_request b.conn.server).0 in
      let c =
        (header_read codec b (gob.decode_message b.conn.codec).0
          (named_request (x ∷ s) r.seq)).conn in
      let same = nat_eq_refl req in
      let named' : (c.server.free_req.cells req).service_method ≡ x ∷ s = ground (arith, same) in
      let numbered : seq_of c req ≡ r.seq = ground (arith, same) in
      let found' : get_service c.server (c.server.free_req.cells req).service_method ≡ ok (svc, t) =
        ap (get_service c.server) named'
        ∙ get_service_agrees b.conn.server c.server (x ∷ s) refl
        ∙ found in
      let c' : Conn W = record c { log = received (seq_of c req) ∷ b.conn.log } in
      let task : Task = record {
        svc = svc;
        mtype = t;
        req = req;
        argv = final_argv (get_argv t).1 v;
        replyv = get_replyv t;
        ctx = none;
      } in
      let started : read_request codec c' req ≡ (record c' { codec = k }, accepts task) =
        rw (found', read_request)
          (read_argument-read codec c' req svc t ∙ ap (argument_read codec c' req svc t) body) in
      let path' =
        path
        ∙ ap
            (dispatch codec (
              header_read codec b (gob.decode_message b.conn.codec).0
                (named_request (x ∷ s) r.seq)))
            started in
      (
        ap (λ d. d.tasks) path',
        ap (λ d. seq_of d.conn req) path' ∙ numbered,
        ap (λ d. d.client) path',
        ap (λ d. d.conn.log) path' ∙ ap (λ n. received n ∷ b.conn.log) numbered,
      )

  -- A request that the other end wrote without the name of a method is taken for the response with
  -- its number: where a call of this end waits under that number, and the body can be read into its
  -- reply, that call ends with it as its reply, its error left as it was, and no method is called.
  pub empty_method_misread :
      (b : BirpcClient W) (r : Request) (p : ℕ) (k : W) (v : Value)
      → peer.brings b.conn.codec (request_header r)
      → r.service_method ≡ []
      → get r.seq b.client.pending ≡ some p
      → gob.decode_body (gob.decode_message b.conn.codec).0 (b.client.calls p).reply ≡ (k, v, none)
      → let codec = gob_birpc_codec gob in
        let resp = bare_response r.seq in
        let b₁ = input_header codec b in
        let b₂ = read_response codec b₁ (some p) resp in
        (b₁.client.input ≡ handling (some p) resp)
        × (b₂.client.calls p ≡ replied (b.client.calls p) v)
        × (b₂.client.signals ≡ p ∷ b.client.signals)
        × (get r.seq b₂.client.pending ≡ none)
        × (b₂.tasks ≡ b.tasks)
        × (b₂.conn.log ≡ b.conn.log)
  unfolding read_response take_response handle done
  empty_method_misread b r p k v next unnamed g body =
      let (d, e) = peer.request_decoded b.conn.codec r next in
      let (client, tasks, log, codec) = response_taken b _ d e unnamed in
      let b₁ = input_header (gob_birpc_codec gob) b in
      let gone = get-delete r.seq r.seq b.client.pending in
      let c₁ : Client = record b.client {
        input = handling (some p) (bare_response r.seq);
        pending = delete r.seq b.client.pending;
      } in
      let heard : b₁.client ≡ c₁ = client ∙ ground (arith, g) in
      let read : gob.decode_body b₁.conn.codec (b₁.client.calls p).reply ≡ (k, v, none) =
        rw (codec, heard) body in
      let ended : (read_response (gob_birpc_codec gob) b₁ (some p) (bare_response r.seq)).client
          ≡ handle (some p) (bare_response r.seq) none v c₁ =
        rw (read, heard) refl in
      (
        ap (λ c. c.input) heard,
        ap (λ c. c.calls p) ended ∙ ground (arith, nat_eq_refl p),
        ap (λ c. c.signals) ended,
        ap (λ c. get r.seq c.pending) ended ∙ ground (arith, gone),
        tasks,
        log,
      )
