-- ===== src/Service/Creation.antt =====
-- service.go: which receivers make a service, and what renaming does to its methods.
use birpc.Base.{
  Option-cases, ◌∙◌, ◌≡◌, ◌↔◌, ◌⊎◌, inl, inr, refl, ap, Option, none, some, List, [], ◌∷◌, Bool,
  true, false, arith, text_Eq, list_eq_iff, if◌then◌else◌,
}
use birpc.Base.Text.{Text}
use birpc.Base.Dict.{Dict, get, put, get-put, IsMap, put-IsMap}
use birpc.Wire.{GoType, Value}
use birpc.Service.Types.{Program, GoMethod, method_type, MethodType, name_of, indirect, is_exported}
use birpc.Service.{
  Service, Result-cases, ok, is_empty, store, suitable_loop, suitable_methods, receiver_panics,
  build_service, new_service, rename_loop, update_method_name, new_service_with_methods_rename,
}

abbrev pub service_name : GoType → Text → Bool → Text
service_name typ name use_name = if use_name then name else name_of (indirect typ)

-- The conditions for a receiver to be made a service.
pub record IsAcceptable (p : Program) (rcvr : Value) (typ : GoType) (name : Text) (use_name : Bool)
    : Type 0 where
  pub present : receiver_panics rcvr use_name ≡ false
  pub named : is_empty (service_name typ name use_name) ≡ false
  pub visible : (use_name ≡ true) ⊎ (is_exported p (service_name typ name use_name) ≡ true)
  pub callable : is_empty (suitable_methods p typ) ≡ false

-- A receiver is accepted exactly when it is no nil pointer whose type is to give the name, has a name,
-- exported unless it was given, and a suitable method; the service then has that name, the receiver
-- and its suitable methods.
pub new_service_iff :
    (p : Program) (rcvr : Value) (typ : GoType) (name : Text) (use_name : Bool) (s : Service)
    → (new_service p rcvr typ name use_name ≡ some (ok s)) ↔ (
        IsAcceptable p rcvr typ name use_name
        × (s ≡ record {
          name = service_name typ name use_name;
          rcvr = rcvr;
          typ = typ;
          methods = suitable_methods p typ;
        }))
unfolding new_service build_service
new_service_iff p rcvr typ name use_name s =
    (λ h. (ground arith, ground arith), λ (a, e). ground arith)

abbrev or_else {ℓ} : {A : Type ℓ} → Option A → Option A → Option A
or_else none o = o
or_else (some a) o = some a

store-IsMap :
    (name : Text) (o : Option MethodType) (acc : Dict Text MethodType)
    → IsMap acc
    → IsMap (store name o acc)
unfolding store
store-IsMap name none acc m = m
store-IsMap name (some t) acc m = put-IsMap name t acc m

suitable_loop-IsMap :
    (p : Program) (ms : List GoMethod) (acc : Dict Text MethodType)
    → IsMap acc
    → IsMap (suitable_loop p ms acc)
unfolding suitable_loop
suitable_loop-IsMap p [] acc m = m
suitable_loop-IsMap p (x ∷ ms) acc m =
    suitable_loop-IsMap p ms (store x.name (method_type p x) acc)
      (store-IsMap x.name (method_type p x) acc m)

suitable_methods-IsMap : (p : Program) (typ : GoType) → IsMap (suitable_methods p typ)
unfolding suitable_methods
suitable_methods-IsMap p typ = suitable_loop-IsMap p (p.method_set typ) [] tt

or_else-none {ℓ} : {A : Type ℓ} (o : Option A) → or_else o none ≡ o
or_else-none none = refl
or_else-none (some a) = refl

module _ (f : Text → Text) (injective : (a b : Text) → f a ≡ f b → a ≡ b) where
  get-rename_loop :
      (old acc : Dict Text MethodType) (k : Text)
      → IsMap old
      → get (f k) (rename_loop f old acc) ≡ or_else (get k old) (get (f k) acc)
  unfolding rename_loop get
  get-rename_loop [] acc k m = refl
  get-rename_loop ((j, v) ∷ old) acc k m = rw (get-rename_loop old (put (f j) v acc) k m.1) (
      ground (
        arith,
        get-put (f j) (f k) v acc,
        list_eq_iff j k,
        list_eq_iff (f j) (f k),
        m.0,
        injective j k,
      ))

  get-update_method_name :
      (s : Service) (k : Text)
      → IsMap s.methods
      → get (f k) (update_method_name f s).methods ≡ get k s.methods
  unfolding update_method_name
  get-update_method_name s k m =
      rw (get-rename_loop s.methods [] k m) (unfold get in or_else-none (get k s.methods))

  -- Where a renaming keeps names apart, the new service has under the new name of any name what
  -- suitableMethods found under that name: it gives every method its new name and loses none.
  pub new_service_with_methods_rename_lem :
      (p : Program) (rcvr : Value) (typ : GoType) (name : Text) (use_name : Bool) (s : Service)
      (k : Text)
      → new_service_with_methods_rename p rcvr typ name use_name f ≡ some (ok s)
      → get (f k) s.methods ≡ get k (suitable_methods p typ)
  unfolding new_service_with_methods_rename
  new_service_with_methods_rename_lem p rcvr typ name use_name s k h =
      elim (Option-cases (new_service p rcvr typ name use_name)) [
        | inl g ↦ absurd (ground (arith, g, h))
        | inr (o, g) ↦ elim (Result-cases o) [
          | inl (e, q) ↦ absurd (ground (arith, g, h, q))
          | inr (r, q) ↦
              let methods : r.methods ≡ suitable_methods p typ =
                ap (λ (x : Service). x.methods)
                  ((new_service_iff p rcvr typ name use_name r).0 (g ∙ ap some q)).1 in
              let found = get-update_method_name r k (rw methods (suitable_methods-IsMap p typ)) in
              ground (arith, g, q, h, found, methods)
        ]
      ]
