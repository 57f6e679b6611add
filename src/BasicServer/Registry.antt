-- ===== src/BasicServer/Registry.antt =====
-- basic_server.go: the registry as a map from names to services.
use birpc.Base.{
  ◌≡◌, refl, none, some, Bool, true, Option-cases, inl, inr, arith, text_Eq, list_eq_iff,
}
use birpc.Base.Text.{Text}
use birpc.Base.Dict.{get, put, get-put, get-delete}
use birpc.FreeList.{empty, Request-Linked, Response-Linked}
use birpc.Service.{Service, ok, Result-cases}
use birpc.Service.Types.{Program}
use birpc.Wire.{pointer_to, zero_of}
use birpc.BasicServer.{
  BasicServer, Registrant, to_service, register_as, load_or_store, blank_server, registered,
  unregister_name, register_name, new_basic_server, receiver, go_rpc_type, go_rpc_name,
}

-- A service that is added under a free name and removed again leaves the registry as it was, and
-- can be added once more.
pub unregister_name-register_as :
    (p : Program) (server : BasicServer) (rcvr : Registrant) (name : Text) (use_name : Bool)
    (s : Service) (n : Text)
    → to_service p rcvr name use_name ≡ some (ok s)
    → get s.name server.service_map ≡ none
    → (server₁ : BasicServer) × (register_as p server rcvr name use_name ≡ some (server₁, none))
      × ((unregister_name server₁ s.name).1 ≡ none)
      × (get n (unregister_name server₁ s.name).0.service_map ≡ get n server.service_map)
      × ((server₂ : BasicServer) × (register_as p
              (unregister_name server₁ s.name).0
              rcvr
              name
              use_name
            ≡ some (server₂, none)))
unfolding register_as load_or_store unregister_name
unregister_name-register_as p server rcvr name use_name s n h free =
    let server₁ : BasicServer = record server { service_map = put s.name s server.service_map } in
    let server' : BasicServer = (unregister_name server₁ s.name).0 in
    let stored = get-put s.name s.name s server.service_map in
    let reflexive = (list_eq_iff s.name s.name).1 refl in
    let gone = λ (q : Text). get-delete s.name q (put s.name s server.service_map) in
    (
      server₁,
      ground (arith, h, free),
      ground (arith, stored, reflexive),
      ground (
        arith,
        free,
        stored,
        reflexive,
        gone n,
        get-put s.name n s server.service_map,
        list_eq_iff s.name n,
      ),
      (
        record server' { service_map = put s.name s server'.service_map },
        ground (arith, h, free, stored, reflexive, gone s.name),
      ),
    )

-- A change of the registry leaves the free lists alone.
pub unregister_name-free_req :
    (server : BasicServer) (name : Text)
    → (unregister_name server name).0.free_req ≡ server.free_req
unfolding unregister_name
unregister_name-free_req server name = ground arith

load_or_store-free_req :
    (s : Service) (server : BasicServer) → (load_or_store s server).0.free_req ≡ server.free_req
unfolding load_or_store
load_or_store-free_req s server = ground arith

pub registered-free_req :
    (p : Program) (server : BasicServer) (rcvr : Registrant) (name : Text) (use_name : Bool)
    → (registered server (register_as p server rcvr name use_name)).free_req ≡ server.free_req
unfolding register_as
registered-free_req p server rcvr name use_name =
    elim (Option-cases (to_service p rcvr name use_name)) [
      | inl k ↦ ground (arith, k)
      | inr (r, k) ↦ elim (Result-cases r) [
        | inl (x, q) ↦ ground (arith, k, q)
        | inr (s, q) ↦ ground (arith, k, q, load_or_store-free_req s server)
      ]
    ]

pub new_basic_server-free_req : (p : Program) → (new_basic_server p).free_req ≡ empty
unfolding new_basic_server register_name
new_basic_server-free_req p =
    registered-free_req p blank_server (receiver (pointer_to (zero_of go_rpc_type)) go_rpc_type)
      go_rpc_name true
