-- ===== src/BasicServer.antt =====
-- basic_server.go: the registry of services, the free lists, and the sending of a response. The
-- registry is a sync.Map, each call of which is one step.
pub mod Registry
pub mod Dispatch
pub mod Registration
use birpc.Base.{
  ℕ, ◌≡◌, ◌++◌, Option, none, some, List, [], ◌∷◌, Bool, true, false, if◌then◌else◌, update,
  text_Eq,
}
use birpc.Base.Text.{Text, codes, split_last_dot}
use birpc.Base.Dict.{Dict, get, put, delete}
use birpc.Codec.{ServerCodec}
use birpc.FreeList.{FreeList, empty, obtain, release, Request-Linked, Response-Linked}
use birpc.Service.{Service, Result, ok, err, new_service}
use birpc.Service.Types.{Program, MethodType}
use birpc.Wire.{
  Request, Response, Value, Err, plain_error, GoType, pointer_type, other_type, pointer_to, zero_of,
  invalid_request,
}

pub record BasicServer : Type 0 where
  pub service_map : Dict Text Service
  pub free_req : FreeList Request
  pub free_resp : FreeList Response

-- The argument of Register: a `*Service`, or any other receiver with its type.
pub data Registrant : Type 0 where
  service_value : Service → Registrant
  receiver : Value → GoType → Registrant

-- the service to store for an argument of register; `none` is a panic
unfoldable pub to_service : Program → Registrant → Text → Bool → Option (Result Service)
to_service p (service_value s) name use_name = some (ok s)
to_service p (receiver v typ) name use_name = new_service p v typ name use_name

-- LoadOrStore: a name that is taken keeps its service
unfoldable pub load_or_store : Service → BasicServer → BasicServer × Option Err
load_or_store srv server = elim (get srv.name server.service_map) [
  | some old ↦ (server, some (plain_error (codes "rpc: service already defined: " ++ srv.name)))
  | none ↦ (record server { service_map = put srv.name srv server.service_map }, none)
]

-- register; `none` is a panic
unfoldable pub register_as :
    Program → BasicServer → Registrant → Text → Bool → Option (BasicServer × Option Err)
unfolding to_service load_or_store
register_as p server rcvr name use_name = elim (to_service p rcvr name use_name) [
  | none ↦ none
  | some r ↦ elim r [ err e ↦ some (server, some e) | ok srv ↦ some (load_or_store srv server) ]
]

unfoldable pub register : Program → BasicServer → Registrant → Option (BasicServer × Option Err)
unfolding register_as
register p server rcvr = register_as p server rcvr [] false

unfoldable pub register_name :
    Program → BasicServer → Text → Registrant → Option (BasicServer × Option Err)
unfolding register_as
register_name p server name rcvr = register_as p server rcvr name true

unfoldable pub unregister_name : BasicServer → Text → BasicServer × Option Err
unregister_name server name = elim (get name server.service_map) [
  | none ↦ (server, some (plain_error (codes "rpc: service not defined: " ++ name)))
  | some old ↦ (record server { service_map = delete name server.service_map }, none)
]

-- Range, with a callback that has a state of its own; the order is that of the list, any order in Go.
unfoldable pub range_loop {ℓ} :
    {S : Type ℓ} → (Text → Service → S → S × Bool) → Dict Text Service → S → S
range_loop f [] s = s
range_loop f ((k, v) ∷ m) s =
    let (s', go_on) = f k v s in elim go_on [ true ↦ range_loop f m s' | false ↦ s' ]

unfoldable pub range {ℓ} : {S : Type ℓ} → BasicServer → (Text → Service → S → S × Bool) → S → S
unfolding range_loop
range server f s = range_loop f server.service_map s

abbrev pub go_rpc_name : Text
go_rpc_name = codes "_goRPC_"

-- `*svc.GoRPC`; 25 is the kind Struct
abbrev pub go_rpc_type : GoType
go_rpc_type =
    pointer_type [] []
      (other_type (codes "GoRPC") (codes "github.com/cgrates/birpc/internal/svc") 25)

abbrev pub blank_server : BasicServer
blank_server = record { service_map = []; free_req = empty; free_resp = empty }

-- a server after a registration, and whether that has panicked
abbrev pub registered : BasicServer → Option (BasicServer × Option Err) → BasicServer
registered server none = server
registered server (some (server', e)) = server'

abbrev pub has_panicked : Option (BasicServer × Option Err) → Bool
has_panicked none = true
has_panicked (some r) = false

-- newBasicServer
unfoldable pub new_basic_server : Program → BasicServer
unfolding register_name
new_basic_server p = registered blank_server (
    register_name p blank_server go_rpc_name
      (receiver (pointer_to (zero_of go_rpc_type)) go_rpc_type))

unfoldable pub get_request : BasicServer → ℕ × BasicServer
get_request server = let (p, f) = obtain server.free_req in (p, record server { free_req = f })

unfoldable pub free_request : ℕ → BasicServer → BasicServer
free_request req server = record server { free_req = release req server.free_req }

unfoldable pub get_response : BasicServer → ℕ × BasicServer
get_response server = let (p, f) = obtain server.free_resp in (p, record server { free_resp = f })

unfoldable pub free_response : ℕ → BasicServer → BasicServer
free_response resp server = record server { free_resp = release resp server.free_resp }

-- getService. On an error the callers use nothing else of the result.
unfoldable pub get_service : BasicServer → Text → Result (Service × MethodType)
get_service server service_method = elim (split_last_dot service_method) [
  | none ↦ err (plain_error (codes "rpc: service/method request ill-formed: " ++ service_method))
  | some (service_name, method_name) ↦ elim (get service_name server.service_map) [
    | none ↦ err (plain_error (codes "rpc: can't find service " ++ service_method))
    | some svc ↦ elim (get method_name svc.methods) [
      | none ↦ err (plain_error (codes "rpc: can't find method " ++ service_method))
      | some mtype ↦ ok (svc, mtype)
    ]
  ]
]

-- the header and the body that sendResponse writes
abbrev pub response_header : Response → ℕ → Text → Response
response_header resp seq [] = record resp { seq = seq }
response_header resp seq (c ∷ s) = record resp { seq = seq; error = c ∷ s }

abbrev pub response_body : Value → Text → Value
response_body reply [] = reply
response_body reply (c ∷ s) = invalid_request

-- sendResponse, which runs under the mutex `sending`. An error of the codec is only logged.
unfoldable pub send_response :
    {C : Type 0} → ServerCodec C → BasicServer → C → ℕ → Value → Text → BasicServer × C
unfolding get_response free_response
send_response codec server c req reply errmsg =
    let (resp, s₁) = get_response server in
    let header = response_header (s₁.free_resp.cells resp) (s₁.free_req.cells req).seq errmsg in
    let s₂ : BasicServer = record s₁ {
      free_resp = record s₁.free_resp { cells = update s₁.free_resp.cells resp header };
    } in
    let (c', e) = codec.write_response c header (response_body reply errmsg) in
    (free_response resp s₂, c')
