-- ===== src/BasicServer/Registration.antt =====
-- basic_server.go, service.go: from a receiver that is registered to the requests that its methods
-- serve.
use mathlib.Core.List.{Memᴰ}
use birpc.Base.{
  ◌≡◌, ◌↔◌, ◌++◌, none, some, Option-cases, ◌∷◌, Bool, true, inl, inr, refl, sym, ap, ◌∙◌, arith,
  text_Eq, list_eq_iff,
}
use birpc.Base.Text.{Text, dot, no_dot, split_last_dot, split_last_dot-append}
use birpc.Base.Dict.{get, get-put}
use birpc.Service.{Service, Result-cases, ok, suitable_methods}
use birpc.Service.Types.{Program, GoMethod, MethodType}
use birpc.Service.Suitable.{IsSuitable, get-suitable_methods}
use birpc.Service.Creation.{service_name, new_service_iff}
use birpc.Wire.{GoType, Value}
use birpc.BasicServer.{
  BasicServer, Registrant, receiver, to_service, load_or_store, register_as, get_service,
}
use birpc.BasicServer.Dispatch.{get_service_iff}

load_or_store-stores :
    (s : Service) (server server' : BasicServer)
    → load_or_store s server ≡ (server', none)
    → get s.name server'.service_map ≡ some s
unfolding load_or_store
load_or_store-stores s server server' h = elim (Option-cases (get s.name server.service_map)) [
  | inl free ↦ ground (
    arith,
    free,
    h,
    get-put s.name s.name s server.service_map,
    (list_eq_iff s.name s.name).1 refl,
  )
  | inr (old, e) ↦ absurd (ground (arith, e, h))
]

-- the service that a registration without an error has stored
register_as-stores :
    (p : Program) (server server' : BasicServer) (rcvr : Registrant) (name : Text) (use_name : Bool)
    → register_as p server rcvr name use_name ≡ some (server', none)
    → (s : Service) × (to_service p rcvr name use_name ≡ some (ok s))
      × (get s.name server'.service_map ≡ some s)
unfolding register_as
register_as-stores p server server' rcvr name use_name h =
    elim (Option-cases (to_service p rcvr name use_name)) [
      | inl k ↦ absurd (ground (arith, k, h))
      | inr (r, k) ↦ elim (Result-cases r) [
        | inl (e, q) ↦ absurd (ground (arith, k, q, h))
        | inr (s, q) ↦
            (s, k ∙ ap some q, load_or_store-stores s server server' (ground (arith, k, q, h)))
      ]
    ]

same_split :
    (a b c d : Text)
    → no_dot b ≡ true
    → no_dot d ≡ true
    → a ++ dot ∷ b ≡ c ++ dot ∷ d
    → (a ≡ c) × (b ≡ d)
same_split a b c d hb hd e =
    let both : some (a, b) ≡ some (c, d) =
      sym (split_last_dot-append a b hb) ∙ ap split_last_dot e ∙ split_last_dot-append c d hd in
    ground (arith, both)

module _ (p : Program) (server server' : BasicServer) (v : Value) (typ : GoType) (name : Text)
    (use_name : Bool)
    (registers : register_as p server (receiver v typ) name use_name ≡ some (server', none)) where
  abbrev named : Text
  named = service_name typ name use_name

  abbrev made : Service
  made = record { name = named; rcvr = v; typ = typ; methods = suitable_methods p typ }

  made_stored : get named server'.service_map ≡ some made
  unfolding to_service
  made_stored =
      let (s, h, g) =
        register_as-stores p server server' (receiver v typ) name use_name registers in
      let same = ((new_service_iff p v typ name use_name s).0 h).1 in
      rw (← same) (rw (← ap (λ (x : Service). x.name) same) g)

  -- After a receiver is registered without an error, under its type's name or a given one, a request
  -- for a method of that service is served exactly by the methods of the receiver's type that have
  -- that name and meet the criteria, on that receiver, where no two methods of the type share a name.
  pub register_serves :
      (m : Text) (svc : Service) (t : MethodType)
      → no_dot m ≡ true
      → ((a b : GoMethod)
          → Memᴰ a (p.method_set typ)
          → Memᴰ b (p.method_set typ)
          → a.name ≡ b.name
          → a ≡ b)
      → (get_service server' (service_name typ name use_name ++ dot ∷ m) ≡ ok (svc, t)) ↔ (
          (svc ≡ record {
            name = service_name typ name use_name;
            rcvr = v;
            typ = typ;
            methods = suitable_methods p typ;
          })
          × ((x : GoMethod) × Memᴰ x (p.method_set typ) × (x.name ≡ m) × IsSuitable p x t))
  register_serves m svc t undotted distinct = (
    λ h.
        let (a, b, e, d, found, method) = (get_service_iff server' (named ++ dot ∷ m) svc t).0 h in
        let parts = same_split named m a b undotted d e in
        let same : svc ≡ made = ground (arith, made_stored, parts.0, found) in
        (
          same,
          (get-suitable_methods p typ m t distinct).0
              (rw (← ap (λ (x : Service). x.methods) same) (rw parts.1 method)),
        ),
    λ (same, x). (get_service_iff server' (named ++ dot ∷ m) svc t).1 (
      named,
      m,
      refl,
      undotted,
      rw same made_stored,
      rw same ((get-suitable_methods p typ m t distinct).1 x),
    ),
  )
