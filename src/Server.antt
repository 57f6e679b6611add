-- ===== src/Server.antt =====
-- service.go, server.go: a call on the server, and the serving of a connection. ServeCodec is the
-- reader loop and the goroutines of the calls that it starts; each is cut into steps at what the
-- others can see: the start of a call in the map of calls in progress, and its end, with the
-- response under the mutex `sending`. What a method of the program computes in between is its
-- function. `log` is a history of the connection that the code does not keep.
pub mod Steps
pub mod Accounts
pub mod Kept
pub mod Served
pub mod Replies
pub mod Single
pub mod Pool
pub mod Sharing
pub mod Hosts
use birpc.Base.{
  ℕ, ◌≡◌, ◌++◌, Option, none, some, List, [], ◌∷◌, Bool, true, false, if◌then◌else◌, update,
  text_Eq, ◌==◌, ◌&&◌, not,
}
use birpc.Base.Text.{Text, codes}
use birpc.Codec.{ServerCodec}
use birpc.Context.{Context, Clock}
use birpc.Pending.{Pending, start, cancel, set_pending}
use birpc.FreeList.{FreeList}
use birpc.Service.{Service, Result, ok, err, get_argv, get_replyv, invoke, Returned}
use birpc.Service.Types.{MethodType}
use birpc.BasicServer.{
  BasicServer, get_request, free_request, get_service, send_response, go_rpc_name,
}
use birpc.Wire.{
  Request, Value, Err, eof, unexpected_eof, plain_error, message, nil_value, pointer_to,
  invalid_request,
}

-- A call that the reader loop started: the variables of `service.call`. `ctx` is there once the
-- call has started its method.
pub record Task : Type 0 where
  pub svc : Service
  pub mtype : MethodType
  pub req : ℕ
  pub argv : Value
  pub replyv : Value
  pub ctx : Option Context

-- What happened to the request with a number: its header was read, or its response was written.
pub data Entry : Type 0 where
  received : ℕ → Entry
  answered : ℕ → Entry

-- A connection: the server, the codec's state, the calls in progress and their contexts.
pub record Conn (C : Type 0) : Type 0 where
  pub server : BasicServer
  pub codec : C
  pub pending : Pending
  pub clock : Clock
  pub log : List Entry

-- What readRequest returns: an error after which reading stops, one to answer, or a call to make.
pub data Read : Type 0 where
  stops : Err → Read
  refuses : (req : ℕ) → Err → Read
  accepts : Task → Read

abbrev pub deref : Value → Value
deref (pointer_to v) = v
deref v = v

-- the argument of a call, by whether its method takes a value or a pointer
abbrev pub final_argv : Bool → Value → Value
final_argv true v = deref v
final_argv false v = v

abbrev pub seq_of : {C : Type 0} → Conn C → ℕ → ℕ
seq_of c req = (c.server.free_req.cells req).seq

-- the error for a header that cannot be read
abbrev pub header_error : Err → Err
header_error eof = eof
header_error unexpected_eof = unexpected_eof
header_error e = plain_error (codes "rpc: server cannot decode request: " ++ message e)

-- the first argument of a call of the built-in service: SetPending
abbrev pub prepared : Service → Value → Value
prepared svc argv =
    if svc.name == go_rpc_name then elim (set_pending argv) [ some v ↦ v | none ↦ argv ] else argv

module _ {C : Type 0} (codec : ServerCodec C) where
  -- readRequestHeader: the number of the request object, and an error or none
  unfoldable pub read_header : Conn C → Conn C × ℕ × Option Err
  read_header c =
      let (req, s₁) = get_request c.server in
      let (k, r, e) = codec.read_request_header c.codec (s₁.free_req.cells req) in
      let s₂ : BasicServer = record s₁ {
        free_req = record s₁.free_req { cells = update s₁.free_req.cells req r };
      } in
      (record c { server = s₂; codec = k }, req, e)

  -- the rest of readRequest once the service and the method are known
  unfoldable pub read_body : Conn C → ℕ → Service → MethodType → Conn C × Read
  read_body c req svc mtype =
      let (target, is_value) = get_argv mtype in
      let (k, argv, e) = codec.read_request_body c.codec target in
      let c' : Conn C = record c { codec = k } in
      elim e [
        | some x ↦ (c', refuses req x)
        | none ↦ (
          c',
          accepts (record {
            svc = svc;
            mtype = mtype;
            req = req;
            argv = final_argv is_value argv;
            replyv = get_replyv mtype;
            ctx = none;
          }),
        )
      ]

  -- readRequest, after a header that was read
  unfoldable pub read_rest : Conn C → ℕ → Conn C × Read
  unfolding read_body
  read_rest c req = elim (get_service c.server (c.server.free_req.cells req).service_method) [
    | err e ↦
        let (k, v, ignored) = codec.read_request_body c.codec nil_value in
        (record c { codec = k }, refuses req e)
    | ok (svc, mtype) ↦ read_body c req svc mtype
  ]

  abbrev pub note_received : Conn C → ℕ → Conn C
  note_received c req = record c { log = received (seq_of c req) ∷ c.log }

  -- readRequest
  unfoldable pub read_request : Conn C → Conn C × Read
  unfolding read_header read_rest
  read_request c =
      let (c', req, e) = read_header c in
      elim e [ some x ↦ (c', stops (header_error x)) | none ↦ read_rest (note_received c' req) req ]

  -- sendResponse and freeRequest, which follow one another wherever a request is answered
  unfoldable pub answer : Conn C → ℕ → Value → Text → Conn C
  unfolding send_response free_request
  answer c req reply errmsg =
      let (s, k) = send_response codec c.server c.codec req reply errmsg in
      record c { server = free_request req s; codec = k; log = answered (seq_of c req) ∷ c.log }

  -- `service.call` up to its method: the context that it runs in
  unfoldable pub begin_call : Conn C → Task → Conn C × Task
  unfolding start
  begin_call c t =
      let (ctx, p, k) = start c.pending (seq_of c t.req) c.clock in
      (
        record c { pending = p; clock = k },
        record t { argv = prepared t.svc t.argv; ctx = some ctx },
      )

  -- what `errmsg` is made of: the error of the method, or nothing
  abbrev pub error_message : Option Err → Text
  error_message none = []
  error_message (some e) = message e

  -- `service.call` from its method on: the response, and the deferred Cancel
  unfoldable pub end_call : Conn C → Task → Returned → Conn C
  unfolding answer cancel
  end_call c t r =
      let c₁ : Conn C = record c { pending = r.pending; clock = r.clock } in
      let c₂ = answer c₁ t.req r.reply (error_message r.error) in
      let (p, k) = cancel c₂.pending (seq_of c t.req) c₂.clock in
      record c₂ { pending = p; clock = k }

  -- the whole of `service.call`; `none` if the method panics
  unfoldable pub call : Conn C → Task → Option (Conn C)
  unfolding begin_call end_call invoke
  call c t =
      let (c', t') = begin_call c t in
      elim t'.ctx [
        | none ↦ none
        | some ctx ↦
            elim (invoke t'.mtype.func t'.svc.rcvr ctx t'.argv t'.replyv c'.pending c'.clock) [
              | none ↦ none
              | some r ↦ some (end_call c' t' r)
            ]
      ]

  -- ServeRequestContext, on a connection whose `pending` is new
  unfoldable pub serve_request : Conn C → Option (Conn C × Option Err)
  unfolding read_request answer call
  serve_request c =
      let (c', r) = read_request c in
      elim r [
        | stops e ↦ some (c', some e)
        | refuses req e ↦ some (answer c' req invalid_request (message e), some e)
        | accepts t ↦ elim (call c' t) [ none ↦ none | some c'' ↦ some (c'', none) ]
      ]
