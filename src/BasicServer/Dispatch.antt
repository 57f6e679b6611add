-- ===== src/BasicServer/Dispatch.antt =====
-- basic_server.go: from the text of a request to the method that serves it.
use birpc.Base.{refl, ◌≡◌, ◌↔◌, ◌++◌, some, [], ◌∷◌, true, arith, text_Eq, Option-cases, inl, inr}
use birpc.Base.Text.{
  Text, codes, no_dot, dot, split_last_dot-append, split_last_dot, split_last_dot_parts,
}
use birpc.Base.Dict.{get, put, delete}
use birpc.Service.{build_service, Service, ok, suitable_methods, new_service, store}
use birpc.Service.Types.{
  Program, MethodType, GoMethod, go_rpc, type_of_ctx, type_of_error, method_type,
}
use birpc.Wire.{GoType, pointer_type, other_type, pointer_to, zero_of}
use birpc.BasicServer.{
  BasicServer, new_basic_server, register_name, register_as, to_service, load_or_store, get_service,
  go_rpc_name, go_rpc_type,
}

get_service_found :
    (server : BasicServer) (n m : Text) (svc : Service) (t : MethodType)
    → no_dot m ≡ true
    → get n server.service_map ≡ some svc
    → get m svc.methods ≡ some t
    → get_service server (n ++ dot ∷ m) ≡ ok (svc, t)
unfolding get_service
get_service_found server n m svc t d h g =
    rw (split_last_dot-append n m d, get_service) (rw (h) (rw g))

get_service_parts :
    (server : BasicServer) (sm : Text) (svc : Service) (t : MethodType)
    → get_service server sm ≡ ok (svc, t)
    → (n m : Text) × (sm ≡ n ++ dot ∷ m)
      × (no_dot m ≡ true)
      × (get n server.service_map ≡ some svc)
      × (get m svc.methods ≡ some t)
unfolding get_service
get_service_parts server sm svc t h = elim (Option-cases (split_last_dot sm)) [
  | inl e ↦ absurd (ground (arith, e))
  | inr ((n, m), e) ↦
      let parts = split_last_dot_parts sm n m e in
      (n, m, parts.0, parts.1, ground (arith, e), ground (arith, e))
]

-- A request is served by a method exactly when its text is the name of a registered service, a dot
-- and the name, without a dot, of a method of that service: names of services may hold dots.
pub get_service_iff :
    (server : BasicServer) (sm : Text) (svc : Service) (t : MethodType)
    → (get_service server sm ≡ ok (svc, t)) ↔ (
        (n m : Text) × (sm ≡ n ++ dot ∷ m)
        × (no_dot m ≡ true)
        × (get n server.service_map ≡ some svc)
        × (get m svc.methods ≡ some t))
get_service_iff server sm svc t = (
  get_service_parts server sm svc t,
  λ (n, m, e, d, h, g). rw e (get_service_found server n m svc t d h g),
)

-- `*svc.CancelArgs` and `*bool`; 1 is the kind Bool
abbrev pub cancel_args_type : GoType
cancel_args_type =
    pointer_type [] []
      (other_type (codes "CancelArgs") (codes "github.com/cgrates/birpc/internal/svc") 25)

-- the method Cancel of `*svc.GoRPC`, as reflection shows it
abbrev pub cancel_method : GoMethod
cancel_method = record {
  name = codes "Cancel";
  pkg_path = [];
  ins =
      go_rpc_type
      ∷ type_of_ctx
      ∷ cancel_args_type
      ∷ pointer_type [] [] (other_type (codes "bool") [] 1)
      ∷ [];
  outs = type_of_error ∷ [];
  func = go_rpc;
}

abbrev pub cancel_type : MethodType
cancel_type = record {
  func = go_rpc;
  arg_type = cancel_args_type;
  reply_type = pointer_type [] [] (other_type (codes "bool") [] 1);
}

abbrev pub go_rpc_service : Service
go_rpc_service = record {
  name = go_rpc_name;
  rcvr = pointer_to (zero_of go_rpc_type);
  typ = go_rpc_type;
  methods = (codes "Cancel", cancel_type) ∷ [];
}

cancel_method_kept :
    (p : Program) → p.is_upper b'C' ≡ true → method_type p cancel_method ≡ some cancel_type
unfolding method_type
cancel_method_kept p u = ground arith

go_rpc_methods :
    (p : Program)
    → p.method_set go_rpc_type ≡ cancel_method ∷ []
    → p.is_upper b'C' ≡ true
    → suitable_methods p go_rpc_type ≡ (codes "Cancel", cancel_type) ∷ []
unfolding suitable_methods put delete
go_rpc_methods p h u = rw (h, suitable_methods) (rw (cancel_method_kept p u, store))

go_rpc_created :
    (p : Program)
    → p.method_set go_rpc_type ≡ cancel_method ∷ []
    → p.is_upper b'C' ≡ true
    → new_service p (pointer_to (zero_of go_rpc_type)) go_rpc_type go_rpc_name true
      ≡ some (ok go_rpc_service)
unfolding new_service build_service
go_rpc_created p h u = rw (go_rpc_methods p h u, build_service)

-- A new server serves the request by which a client cancels a call, where reflection shows the
-- method Cancel of the built-in service and the Unicode tables have C as upper case.
pub new_basic_server_cancel :
    (p : Program)
    → p.method_set go_rpc_type ≡ cancel_method ∷ []
    → p.is_upper b'C' ≡ true
    → get_service (new_basic_server p) (codes "_goRPC_.Cancel") ≡ ok (go_rpc_service, cancel_type)
unfolding new_basic_server register_name register_as to_service load_or_store get_service
    split_last_dot get put delete
new_basic_server_cancel p h u =
    rw (go_rpc_created p h u, new_basic_server, register_name, register_as, to_service, get_service)
      refl
