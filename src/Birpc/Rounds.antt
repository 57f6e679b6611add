-- ===== src/Birpc/Rounds.antt =====
-- birpc_client.go: a round of the loop of input, by what its codec reads.
use birpc.Base.{ℕ, update, ◌≡◌, refl, ap, Option, none, some, arith, nat_Eq, nat_eq_refl}
use birpc.BasicServer.{get_request}
use birpc.Birpc.{BirpcCodec, BirpcClient, input_header, route, read_argument}
use birpc.Client.{failing}
use birpc.FreeList.{obtain, Request-Linked}
use birpc.FreeList.Ownership.{obtain-zeroed}
use birpc.Server.{Conn, Read, refuses, accepts, final_argv}
use birpc.Service.{Service, get_argv, get_replyv}
use birpc.Service.Types.{MethodType}
use birpc.Wire.{Request, Response, Value, Err, zero_request, zero_response}

module _ {C : Type 0} (codec : BirpcCodec C) where
  -- the connection with what ReadHeader gives it, and the address of the header
  abbrev pub header_read : BirpcClient C → C → Request → BirpcClient C
  header_read b k r =
      let (req, s) = get_request b.conn.server in
      record b {
        conn = record b.conn {
          server = record s {
            free_req = record s.free_req { cells = update s.free_req.cells req r };
          };
          codec = k;
        };
      }

  abbrev pub routed : BirpcClient C → C × Request × Response × Option Err → BirpcClient C
  routed b (k, r, resp, none) =
      route codec (header_read b k r) (get_request b.conn.server).0 r.service_method resp
  routed b (k, r, resp, some x) = record (header_read b k r) {
    client = record b.client { input = failing x };
  }

  -- A round of the loop, by what ReadHeader makes of clean headers.
  pub input_header-routed :
      (b : BirpcClient C)
      → input_header codec b ≡ routed b (codec.read_header b.conn.codec zero_request zero_response)
  unfolding input_header get_request
  input_header-routed b =
      let clean = obtain-zeroed b.conn.server.free_req (obtain b.conn.server.free_req).0 in
      let same = nat_eq_refl (obtain b.conn.server.free_req).0 in
      let zeroed : (obtain b.conn.server.free_req).1.cells (obtain b.conn.server.free_req).0
          ≡ zero_request =
        ground (arith, clean, same) in
      ap (λ r. routed b (codec.read_header b.conn.codec r zero_response)) zeroed

  -- the rest of readRequest, by what ReadRequestBody makes of the argument
  abbrev pub argument_read :
      Conn C → ℕ → Service → MethodType → C × Value × Option Err → Conn C × Read
  argument_read c req svc t (k, v, none) = (
    record c { codec = k },
    accepts (record {
      svc = svc;
      mtype = t;
      req = req;
      argv = final_argv (get_argv t).1 v;
      replyv = get_replyv t;
      ctx = none;
    }),
  )
  argument_read c req svc t (k, v, some x) = (record c { codec = k }, refuses req x)

  pub read_argument-read :
      (c : Conn C) (req : ℕ) (svc : Service) (t : MethodType)
      → read_argument codec c req svc t
        ≡ argument_read c req svc t (codec.read_request_body c.codec (get_argv t).0)
  unfolding read_argument
  read_argument-read c req svc t = refl
