-- ===== src/Service/Types.antt =====
-- service.go: the tests that suitableMethods makes of a method's type.
use birpc.Base.{
  list_eq, list_eq_iff, list_eq_refl, nat_eq, arith, ℕ, ◌≡◌, Option, none, some, List, [], ◌∷◌,
  Bool, true, false, not, ◌&&◌, ◌||◌, if◌then◌else◌,
}
use birpc.Base.Text.{Text, codes}
use birpc.Context.{Context}
use birpc.Wire.{pointer_type, map_type, slice_type, other_type, GoType, Value, Err}

-- The code of a method: one of the program's, from receiver, context, argument and new reply to the
-- reply and the error; or the method Cancel of the built-in service.
pub data Func : Type 0 where
  user : (Value → Context → Value → Value → Value × Option Err) → Func
  go_rpc : Func

-- `reflect.Method`
pub record GoMethod : Type 0 where
  pub name : Text
  pub pkg_path : Text
  pub ins : List GoType
  pub outs : List GoType
  pub func : Func

-- What reflection and the Unicode tables say of the program: the method set of a type in the order
-- of `Method(i)`, the text of a type, and which code points are upper-case letters.
pub record Program : Type 0 where
  pub method_set : GoType → List GoMethod
  pub type_string : GoType → Text
  pub is_upper : ℕ → Bool

pub record MethodType : Type 0 where
  pub func : Func
  pub arg_type : GoType
  pub reply_type : GoType

abbrev pub name_of : GoType → Text
name_of (pointer_type n p t) = n
name_of (map_type n p key item) = n
name_of (slice_type n p t) = n
name_of (other_type n p k) = n

abbrev pub pkg_of : GoType → Text
pkg_of (pointer_type n p t) = p
pkg_of (map_type n p key item) = p
pkg_of (slice_type n p t) = p
pkg_of (other_type n p k) = p

-- `Kind() == reflect.Pointer`
abbrev pub is_pointer : GoType → Bool
is_pointer (pointer_type n p t) = true
is_pointer (map_type n p key item) = false
is_pointer (slice_type n p t) = false
is_pointer (other_type n p k) = false

-- `Elem()` of a pointer type; of another type it is asked for nowhere, and is the type itself here
abbrev pub elem : GoType → GoType
elem (pointer_type n p t) = t
elem t = t

-- the type of `reflect.Indirect`
abbrev pub indirect : GoType → GoType
indirect (pointer_type n p t) = t
indirect t = t

-- `reflect.PointerTo`
abbrev pub pointer_to_type : GoType → GoType
pointer_to_type t = pointer_type [] [] t

-- `reflect.TypeFor[error]()` and `reflect.TypeFor[*context.Context]()`; the numbers 20 and 25 are
-- the kinds Interface and Struct.
abbrev pub type_of_error : GoType
type_of_error = other_type (codes "error") [] 20

abbrev pub type_of_ctx : GoType
type_of_ctx =
    pointer_type [] [] (other_type (codes "Context") (codes "github.com/cgrates/birpc/context") 25)

-- `token.IsExported`
abbrev pub is_exported : Program → Text → Bool
is_exported p [] = false
is_exported p (c ∷ s) = p.is_upper c

abbrev pub is_blank : Text → Bool
is_blank [] = true
is_blank (c ∷ s) = false

-- the loop of isExportedOrBuiltinType, through the pointers, and the test after it
unfoldable pub is_exported_or_builtin_type : Program → GoType → Bool
is_exported_or_builtin_type p (pointer_type n k t) = is_exported_or_builtin_type p t
is_exported_or_builtin_type p (map_type n k key item) = is_exported p n || is_blank k
is_exported_or_builtin_type p (slice_type n k t) = is_exported p n || is_blank k
is_exported_or_builtin_type p (other_type n k b) = is_exported p n || is_blank k

-- `==` on types: a type is its name, its package and what it is made of.
unfoldable pub same_type : GoType → GoType → Bool
same_type (pointer_type a b t) (pointer_type c d u) = list_eq a c && list_eq b d && same_type t u
same_type (map_type a b t v) (map_type c d u w) =
    list_eq a c && list_eq b d && same_type t u && same_type v w
same_type (slice_type a b t) (slice_type c d u) = list_eq a c && list_eq b d && same_type t u
same_type (other_type a b k) (other_type c d j) = list_eq a c && list_eq b d && nat_eq k j
same_type _ _ = false

pub same_type_sound : (t u : GoType) → same_type t u ≡ true → t ≡ u
unfolding same_type
same_type_sound (pointer_type a b t) (pointer_type c d u) h =
    ground (arith, list_eq_iff a c, list_eq_iff b d, same_type_sound t u)
same_type_sound (map_type a b t v) (map_type c d u w) h =
    ground (arith, list_eq_iff a c, list_eq_iff b d, same_type_sound t u, same_type_sound v w)
same_type_sound (slice_type a b t) (slice_type c d u) h =
    ground (arith, list_eq_iff a c, list_eq_iff b d, same_type_sound t u)
same_type_sound (other_type a b k) (other_type c d j) h =
    ground (arith, list_eq_iff a c, list_eq_iff b d)
same_type_sound _ _ h = cc

pub same_type_refl : (t : GoType) → same_type t t ≡ true
unfolding same_type
same_type_refl (pointer_type a b t) =
    ground (arith, list_eq_refl a, list_eq_refl b, same_type_refl t)
same_type_refl (map_type a b t v) =
    ground (arith, list_eq_refl a, list_eq_refl b, same_type_refl t, same_type_refl v)
same_type_refl (slice_type a b t) = ground (arith, list_eq_refl a, list_eq_refl b, same_type_refl t)
same_type_refl (other_type a b k) = ground (arith, list_eq_refl a, list_eq_refl b)

-- The tests on the results, the last of the loop's body.
unfoldable pub check_outs : GoMethod → GoType → GoType → List GoType → Option MethodType
unfolding same_type
check_outs m arg reply (out ∷ []) =
    if same_type out type_of_error
    then some (record { func = m.func; arg_type = arg; reply_type = reply })
    else none
check_outs m arg reply _ = none

-- The tests on the parameters: receiver, context, argument and reply.
unfoldable pub check_ins : Program → GoMethod → List GoType → Option MethodType
unfolding is_exported_or_builtin_type same_type check_outs
check_ins p m (rcvr ∷ ctx ∷ arg ∷ reply ∷ []) =
    if not (same_type ctx type_of_ctx)
    then none
    else if not (is_exported_or_builtin_type p arg)
    then none
    else if not (is_pointer reply)
    then none
    else if not (is_exported_or_builtin_type p reply)
    then none
    else check_outs m arg reply m.outs
check_ins p m _ = none

-- The body of the loop of suitableMethods: what is stored for a method, `none` where it is skipped.
-- The log lines that `reportErr` asks for are left out.
unfoldable pub method_type : Program → GoMethod → Option MethodType
unfolding check_ins
method_type p m = if not (is_blank m.pkg_path) then none else check_ins p m m.ins
