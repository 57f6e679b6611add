-- ===== src/Examples/Messages.antt =====
-- birpc_codec.go: two messages on a bidirectional connection, a request for a method and one without
-- a method.
use birpc.Base.{ℕ, ◌≡◌, refl, ap, Option, none, some, List, [], ◌∷◌, nat_Eq, text_Eq}
use birpc.Base.Text.{codes, split_last_dot}
use birpc.Base.Dict.{get}
use birpc.BasicServer.{get_service, get_request}
use birpc.Birpc.{BirpcClient, input_header, read_response}
use birpc.Client.{Channel, handling, new_client}
use birpc.Client.Answers.{replied}
use birpc.Context.{background}
use birpc.Examples.Data.{arith_server, arith_service, add_type}
use birpc.FreeList.{obtain, empty, Request-Linked}
use birpc.Gob.{Message, Encoded, request_header, response_header, body, GobIo}
use birpc.Gob.Bidirectional.{gob_birpc_codec}
use birpc.Gob.Routing.{Peer, bare_response, gob_request_started, empty_method_misread}
use birpc.Pending.{new_pending}
use birpc.Server.{received, seq_of}
use birpc.Service.{get_argv, get_replyv}
use birpc.Wire.{Request, Value, plain, Err, eof, plain_error}

abbrev no_message : Message
no_message = record { seq = 0; service_method = []; error = [] }

abbrev mistyped : Err
mistyped = plain_error (codes "gob: type mismatch")

-- the connection is the list of what is still to be read
abbrev decode_message : List Encoded → List Encoded × Message × Option Err
decode_message [] = ([], no_message, some eof)
decode_message (request_header r ∷ w) =
    (w, record { seq = r.seq; service_method = r.service_method; error = [] }, none)
decode_message (response_header r ∷ w) =
    (w, record { seq = r.seq; service_method = []; error = r.error }, none)
decode_message (body v ∷ w) = (w, no_message, some mistyped)

abbrev decode_body : List Encoded → Value → List Encoded × Value × Option Err
decode_body [] x = ([], x, some eof)
decode_body (body v ∷ w) x = (w, v, none)
decode_body (request_header r ∷ w) x = (w, x, some mistyped)
decode_body (response_header r ∷ w) x = (w, x, some mistyped)

abbrev list_gob : GobIo (List Encoded)
list_gob = record {
  encode = λ w m. (w, none);
  flush = λ w. (w, none);
  decode_request = λ w r. (w, r, some mistyped);
  decode_response = λ w r. (w, r, some mistyped);
  decode_message = decode_message;
  decode_body = decode_body;
  close = λ w. (w, none);
}

abbrev list_peer : Peer list_gob
list_peer = record {
  brings = λ w m. (rest : List Encoded) × (w ≡ m ∷ rest);
  request_decoded =
      λ w r (rest, h). (ap (λ u. (decode_message u).1) h, ap (λ u. (decode_message u).2) h);
  response_decoded =
      λ w r (rest, h). (ap (λ u. (decode_message u).1) h, ap (λ u. (decode_message u).2) h);
}

abbrev ten_each : ℕ → Channel
ten_each n = record { cap = 10; buffer = [] }

abbrev add_header : Request
add_header = record { service_method = codes "Arith.Add"; seq = 4; next = none }

abbrev nameless : Request
nameless = record { service_method = []; seq = 1; next = none }

-- a connection that brings a message, with a call that waits for the response to the number 1
abbrev waiting_for_one : List Encoded → BirpcClient (List Encoded)
waiting_for_one w = record {
  conn = record {
    server = arith_server;
    codec = w;
    pending = new_pending background;
    clock = record { now = 0; next_id = 0; fired = [] };
    log = [];
  };
  tasks = [];
  client = record (new_client ten_each) { pending = (1, 0) ∷ [] };
}

gob_request_started_example :
    let b = waiting_for_one (request_header add_header ∷ body (plain 3) ∷ []) in
    let b' = input_header (gob_birpc_codec list_gob) b in
    (b'.tasks
      ≡ record {
        svc = arith_service;
        mtype = add_type;
        req = 0;
        argv = plain 3;
        replyv = get_replyv add_type;
        ctx = none;
      }
        ∷ [])
    × (seq_of b'.conn 0 ≡ 4)
    × (b'.client ≡ b.client)
    × (b'.conn.log ≡ received 4 ∷ [])
unfolding get_service split_last_dot get get_request obtain empty get_argv
gob_request_started_example =
    gob_request_started list_gob list_peer
      (waiting_for_one (request_header add_header ∷ body (plain 3) ∷ [])) add_header b'A'
      (codes "rith.Add") arith_service add_type [] (plain 3) (body (plain 3) ∷ [], refl) refl refl
      refl

empty_method_misread_example :
    let codec = gob_birpc_codec list_gob in
    let b = waiting_for_one (request_header nameless ∷ body (plain 3) ∷ []) in
    let b₁ = input_header codec b in
    let b₂ = read_response codec b₁ (some 0) (bare_response 1) in
    (b₁.client.input ≡ handling (some 0) (bare_response 1))
    × (b₂.client.calls 0 ≡ replied (b.client.calls 0) (plain 3))
    × (b₂.client.signals ≡ 0 ∷ [])
    × (get 1 b₂.client.pending ≡ none)
    × (b₂.tasks ≡ [])
    × (b₂.conn.log ≡ [])
unfolding get new_client
empty_method_misread_example =
    empty_method_misread list_gob list_peer
      (waiting_for_one (request_header nameless ∷ body (plain 3) ∷ [])) nameless 0 [] (plain 3)
      (body (plain 3) ∷ [], refl) refl refl refl
