-- ===== src/Service.antt =====
-- service.go: services, the methods of a type that can be called from afar, and a call of one.
-- What package reflect and the Unicode tables say of the program is the record `Program`.
pub mod Types
pub mod Visible
pub mod Suitable
pub mod Creation
use birpc.Base.{
  refl, ◌⊎◌, inl, inr, ℕ, ◌≡◌, ◌++◌, Option, none, some, List, [], ◌∷◌, Bool, true, false, not,
  ◌&&◌, ◌==◌, text_Eq, if◌then◌else◌,
}
use birpc.Base.Text.{Text, codes, split_last_dot}
use birpc.Base.Dict.{Dict, get, put}
use birpc.Context.{Context, Clock}
use birpc.Pending.{Pending, go_rpc_cancel}
use birpc.Wire.{
  pointer_type, map_type, slice_type, other_type, GoType, Value, Err, plain_error, nil_value,
  zero_of, empty_map, empty_slice, pointer_to,
}
use Types.{
  Func, user, go_rpc, GoMethod, Program, MethodType, name_of, indirect, pointer_to_type, is_pointer,
  elem, is_exported, method_type,
}

-- `f` of Go: a result and an error
pub data Result {ℓ} (A : Type ℓ) : Type ℓ where
  ok : A → Result A
  err : Err → Result A

pub Result-cases {ℓ} :
    {A : Type ℓ} (r : Result A) → ((e : Err) × (r ≡ err e)) ⊎ ((a : A) × (r ≡ ok a))
Result-cases (ok a) = inr (a, refl)
Result-cases (err e) = inl (e, refl)

pub err≢ok {ℓ} : {A : Type ℓ} (e : Err) (a : A) → err e ≡ ok a → ⊥
err≢ok e a h = cc

-- `rcvr` and `typ` describe the receiver; `methods` are the registered methods by name.
pub record Service : Type 0 where
  pub name : Text
  pub rcvr : Value
  pub typ : GoType
  pub methods : Dict Text MethodType

-- The assignment that ends the loop's body, for a method that was not skipped.
unfoldable pub store : Text → Option MethodType → Dict Text MethodType → Dict Text MethodType
store name none acc = acc
store name (some t) acc = put name t acc

-- The loop of suitableMethods over the method set, into the map `acc`.
unfoldable pub suitable_loop : Program → List GoMethod → Dict Text MethodType → Dict Text MethodType
unfolding store
suitable_loop p [] acc = acc
suitable_loop p (m ∷ ms) acc = suitable_loop p ms (store m.name (method_type p m) acc)

unfoldable pub suitable_methods : Program → GoType → Dict Text MethodType
unfolding suitable_loop
suitable_methods p typ = suitable_loop p (p.method_set typ) []

abbrev pub is_empty {ℓ} : {A : Type ℓ} → List A → Bool
is_empty [] = true
is_empty (x ∷ xs) = false

-- the error for a type without suitable methods
unfoldable pub no_methods : Program → Text → GoType → Err
no_methods p sname typ =
    if is_empty (suitable_methods p (pointer_to_type typ))
    then plain_error (
        codes "rpc.Register: type " ++ (sname ++ codes " has no exported methods of suitable type"))
    else plain_error (
        codes "rpc.Register: type "
        ++ (sname
            ++ codes
                " has no exported methods of suitable type (hint: pass a pointer to value of that type)"))

-- What package reflect panics on in NewService: no receiver at all, which has no type, and, where the
-- name is that of the receiver's type, a nil pointer, which leads to nothing.
abbrev pub receiver_panics : Value → Bool → Bool
receiver_panics nil_value use_name = true
receiver_panics (zero_of (pointer_type n p t)) use_name = not use_name
receiver_panics v use_name = false

-- NewService after that, for a receiver `rcvr` of type `typ`
unfoldable pub build_service : Program → Value → GoType → Text → Bool → Result Service
build_service p rcvr typ name use_name =
    let sname = if use_name then name else name_of (indirect typ) in
    let methods = suitable_methods p typ in
    if is_empty sname
    then err (plain_error (codes "rpc.Register: no service name for type " ++ p.type_string typ))
    else if not use_name && not (is_exported p sname)
    then err (plain_error (codes "rpc.Register: type " ++ (sname ++ codes " is not exported")))
    else if is_empty methods
    then err (no_methods p sname typ)
    else ok (record { name = sname; rcvr = rcvr; typ = typ; methods = methods })

-- NewService; `none` is a panic
unfoldable pub new_service : Program → Value → GoType → Text → Bool → Option (Result Service)
unfolding build_service
new_service p rcvr typ name use_name =
    if receiver_panics rcvr use_name then none else some (build_service p rcvr typ name use_name)

-- The loop of updateMethodName. Go visits the entries of a map in any order; `old` is that order.
unfoldable pub rename_loop :
    (Text → Text) → Dict Text MethodType → Dict Text MethodType → Dict Text MethodType
rename_loop f [] acc = acc
rename_loop f ((k, v) ∷ old) acc = rename_loop f old (put (f k) v acc)

unfoldable pub update_method_name : (Text → Text) → Service → Service
unfolding rename_loop
update_method_name f s = record s { methods = rename_loop f s.methods [] }

unfoldable pub new_service_with_methods_rename :
    Program → Value → GoType → Text → Bool → (Text → Text) → Option (Result Service)
new_service_with_methods_rename p rcvr typ name use_name f =
    elim (new_service p rcvr typ name use_name) [
      | none ↦ none
      | some r ↦ elim r [ err e ↦ some (err e) | ok s ↦ some (ok (update_method_name f s)) ]
    ]

-- What a method leaves behind: the calls in progress, the reply and its error.
pub record Returned : Type 0 where
  pub pending : Pending
  pub clock : Clock
  pub reply : Value
  pub error : Option Err

-- `function.Call`; `none` is a panic. A method of the program cannot reach the calls in progress.
unfoldable pub invoke : Func → Value → Context → Value → Value → Pending → Clock → Option Returned
invoke (user f) rcvr ctx argv replyv s k =
    let (reply, error) = f rcvr ctx argv replyv in
    some (record { pending = s; clock = k; reply = reply; error = error })
invoke go_rpc rcvr ctx argv replyv s k = elim (go_rpc_cancel s k argv) [
  | none ↦ none
  | some (s', k') ↦ some (record { pending = s'; clock = k'; reply = replyv; error = none })
]

-- The method Call of a service: a refusal, or the method to run.
unfoldable pub find_method : Service → Text → Result MethodType
find_method s service_method = elim (split_last_dot service_method) [
  | none ↦ err (plain_error (codes "rpc: service/method request ill-formed: " ++ service_method))
  | some (service_name, method_name) ↦
      if not (s.name == service_name)
      then err (plain_error (codes "rpc: can't find service " ++ service_method))
      else elim (get method_name s.methods) [
        | none ↦ err (plain_error (codes "rpc: can't find method " ++ service_method))
        | some t ↦ ok t
      ]
]

-- The method Call of a service: a direct call, in the caller's own state.
unfoldable pub call_direct :
    Service → Context → Text → Value → Value → Pending → Clock → Option Returned
unfolding find_method invoke
call_direct s ctx service_method args rply p k = elim (find_method s service_method) [
  | err e ↦ some (record { pending = p; clock = k; reply = rply; error = some e })
  | ok t ↦ invoke t.func s.rcvr ctx args rply p k
]

-- getArgv: the new argument, a pointer, and whether it is to be dereferenced for the call
unfoldable pub get_argv : MethodType → Value × Bool
get_argv t =
    if is_pointer t.arg_type
    then (pointer_to (zero_of (elem t.arg_type)), false)
    else (pointer_to (zero_of t.arg_type), true)

-- the value that a new reply points to
abbrev pub reply_content : GoType → Value
reply_content (map_type n p key item) = empty_map
reply_content (slice_type n p item) = empty_slice
reply_content (pointer_type n p t) = zero_of (pointer_type n p t)
reply_content (other_type n p k) = zero_of (other_type n p k)

-- getReplyv: a pointer to an empty map or slice rather than a nil one
unfoldable pub get_replyv : MethodType → Value
get_replyv t = pointer_to (reply_content (elem t.reply_type))
