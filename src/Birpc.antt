-- ===== src/Birpc.antt =====
-- birpc_client.go, birpc_codec.go: a connection whose ends are both client and server. Its state is
-- that of the serving side, with the calls it started, and that of the calling side.
pub mod Steps
pub mod Rounds
pub mod Refinement
pub mod Accounts
pub mod Staying
pub mod Endings
pub mod Ended
pub mod Lifetime
use birpc.Base.{ℕ, ◌++◌, Option, none, some, List, [], ◌∷◌, update, nat_Eq}
use birpc.Base.Text.{Text, codes}
use birpc.Base.Dict.{get}
use birpc.BasicServer.{BasicServer, get_request, free_request, get_service, new_basic_server}
use birpc.Client.{Client, Channel, new_client, failing, take_response, handle, body_target}
use birpc.Context.{Clock, background, with_cancel}
use birpc.Pending.{new_pending}
use birpc.Codec.{ServerCodec}
use birpc.Server.{Conn, Task, Read, stops, refuses, accepts, final_argv, answer, received, seq_of}
use birpc.Service.{Service, ok, err, get_argv, get_replyv}
use birpc.Service.Types.{Program, MethodType}
use birpc.Wire.{
  Request, Response, Value, nil_value, Err, plain_error, message, invalid_request, zero_response,
}

-- BirpcCodec
pub record BirpcCodec (C : Type 0) : Type 0 where
  pub read_header : C → Request → Response → C × Request × Response × Option Err
  pub read_request_body : C → Value → C × Value × Option Err
  pub read_response_body : C → Value → C × Value × Option Err
  pub write_request : C → Request → Value → C × Option Err
  pub write_response : C → Response → Value → C × Option Err
  pub close : C → C × Option Err

-- BirpcClient: basicServer with the codec and the calls in progress, and basicClient
pub record BirpcClient (C : Type 0) : Type 0 where
  pub conn : Conn C
  pub tasks : List Task
  pub client : Client

-- What input starts with: the connection's context, child of the background's, with the connection
-- itself, which has a number, as its client; and no calls. The number beside it is the context's
-- cancel function.
unfoldable pub open_link :
    {C : Type 0} → BasicServer → C → (ℕ → Channel) → ℕ → Clock → BirpcClient C × ℕ
unfolding with_cancel new_pending new_client
open_link server codec channels connection k =
    let (ctx, cancel, k') = with_cancel background k in
    (
      record {
        conn = record {
          server = server;
          codec = codec;
          pending = new_pending (record ctx { client = some connection });
          clock = k';
          log = [];
        };
        tasks = [];
        client = new_client channels;
      },
      cancel,
    )

-- NewBirpcClientWithCodec, with the `go c.input()`
unfoldable pub new_birpc_client :
    {C : Type 0} → Program → C → (ℕ → Channel) → ℕ → Clock → BirpcClient C × ℕ
unfolding open_link new_basic_server
new_birpc_client p codec channels connection k =
    open_link (new_basic_server p) codec channels connection k

module _ {C : Type 0} (codec : BirpcCodec C) where
  -- the interface writeServerCodec, which sendResponse takes, as a whole server codec: its reading
  -- half is of no use to sendResponse
  abbrev pub write_half : ServerCodec C
  write_half = record {
    read_request_header =
        λ k r. let (k', r', resp, e) = codec.read_header k r zero_response in (k', r', e);
    read_request_body = codec.read_request_body;
    write_response = codec.write_response;
    close = codec.close;
  }

  abbrev pub unknown_method : Text → Option Err → Err
  unknown_method m none = plain_error (codes "birpc: can't find method " ++ m)
  unknown_method m (some e) = e

  -- the rest of readRequest for a method that was found
  unfoldable pub read_argument : Conn C → ℕ → Service → MethodType → Conn C × Read
  read_argument c req svc mtype =
      let (target, is_value) = get_argv mtype in
      let (k, argv, e) = codec.read_request_body c.codec target in
      elim e [
        | some x ↦ (record c { codec = k }, refuses req x)
        | none ↦ (
          record c { codec = k },
          accepts (record {
            svc = svc;
            mtype = mtype;
            req = req;
            argv = final_argv is_value argv;
            replyv = get_replyv mtype;
            ctx = none;
          }),
        )
      ]

  -- readRequest
  unfoldable pub read_request : Conn C → ℕ → Conn C × Read
  unfolding read_argument
  read_request c req = elim (get_service c.server (c.server.free_req.cells req).service_method) [
    | err e ↦
        let (k, v, x) = codec.read_request_body c.codec nil_value in
        (
          record c { codec = k },
          refuses req (unknown_method (c.server.free_req.cells req).service_method x),
        )
    | ok (svc, mtype) ↦ read_argument c req svc mtype
  ]

  -- readResponse from its unlock on, with the loop's test of its error; `o` is the call it took
  unfoldable pub read_response : BirpcClient C → Option ℕ → Response → BirpcClient C
  read_response b o resp =
      let (k, v, e) = codec.read_response_body b.conn.codec (body_target b.client o resp.error) in
      record b { conn = record b.conn { codec = k }; client = handle o resp e v b.client }

  -- what the loop does with a request
  abbrev pub dispatch : BirpcClient C → Conn C × Read → BirpcClient C
  dispatch b (c, stops e) = record b { conn = c }
  dispatch b (c, refuses req e) = record b {
    conn = answer write_half c req invalid_request (message e);
  }
  dispatch b (c, accepts t) = record b { conn = c; tasks = t ∷ b.tasks }

  -- a message by its method; of a response, up to the unlock in readResponse
  unfoldable pub route : BirpcClient C → ℕ → Text → Response → BirpcClient C
  unfolding read_request
  route b req [] resp = record b {
    conn = record b.conn { server = free_request req b.conn.server };
    client = take_response resp b.client;
  }
  route b req (x ∷ s) resp =
      let c : Conn C = record b.conn { log = received (seq_of b.conn req) ∷ b.conn.log } in
      dispatch b (read_request c req)

  -- A round of the loop of input, up to that unlock for a response. A header that cannot be read
  -- ends the loop.
  unfoldable pub input_header : BirpcClient C → BirpcClient C
  unfolding route
  input_header b =
      let (req, s₁) = get_request b.conn.server in
      let (k, r, resp, e) = codec.read_header b.conn.codec (s₁.free_req.cells req) zero_response in
      let s₂ : BasicServer = record s₁ {
        free_req = record s₁.free_req { cells = update s₁.free_req.cells req r };
      } in
      let b' : BirpcClient C = record b { conn = record b.conn { server = s₂; codec = k } } in
      elim e [
        | some x ↦ record b' { client = record b.client { input = failing x } }
        | none ↦ route b' req r.service_method resp
      ]
