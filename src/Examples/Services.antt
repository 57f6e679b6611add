-- ===== src/Examples/Services.antt =====
-- service.go: the service Arith, and the methods it offers.
use mathlib.Core.List.{Memᴰ}
use birpc.Base.{◌≡◌, ◌↔◌, some, [], false, refl, arith, text_Eq}
use birpc.Base.Text.{codes, no_dot}
use birpc.Base.Dict.{get, put}
use birpc.BasicServer.{
  BasicServer, registered, register, register_as, to_service, load_or_store, receiver, get_service,
}
use birpc.BasicServer.Registration.{register_serves}
use birpc.Wire.{Value, pointer_to, plain}
use birpc.Examples.Data.{empty_server, arith_service, program, add_type, add_method, arith_type}
use birpc.Service.{suitable_methods, ok, new_service, build_service}
use birpc.Service.Suitable.{IsSuitable, method_type_iff, get-suitable_methods}
use birpc.Service.Types.{GoMethod, same_type, method_type}

method_type_iff_example :
    (method_type program add_method ≡ some add_type) ↔ IsSuitable program add_method add_type
method_type_iff_example = method_type_iff program add_method add_type

-- The method set of Arith has a method once under its name.
named_once :
    (a b : GoMethod)
    → Memᴰ a (program.method_set arith_type)
    → Memᴰ b (program.method_set arith_type)
    → a.name ≡ b.name
    → a ≡ b
unfolding same_type
named_once a b (Memᴰ.head h) (Memᴰ.head k) e = cc
named_once a b (Memᴰ.head h) (Memᴰ.tail (Memᴰ.head k)) e = ground (arith, h, k, e)
named_once a b (Memᴰ.tail (Memᴰ.head h)) (Memᴰ.head k) e = ground (arith, h, k, e)
named_once a b (Memᴰ.tail (Memᴰ.head h)) (Memᴰ.tail (Memᴰ.head k)) e = cc
named_once a b (Memᴰ.head h) (Memᴰ.tail (Memᴰ.tail x)) e = elim x [ ]
named_once a b (Memᴰ.tail (Memᴰ.head h)) (Memᴰ.tail (Memᴰ.tail x)) e = elim x [ ]
named_once a b (Memᴰ.tail (Memᴰ.tail x)) _ e = elim x [ ]

get-suitable_methods_example :
    (get (codes "Add") (suitable_methods program arith_type) ≡ some add_type) ↔ (
      (m : GoMethod) × Memᴰ m (program.method_set arith_type)
      × (m.name ≡ codes "Add")
      × IsSuitable program m add_type)
get-suitable_methods_example =
    get-suitable_methods program arith_type (codes "Add") add_type named_once

abbrev arith_value : Value
arith_value = pointer_to (plain 0)

abbrev registered_server : BasicServer
registered_server =
    registered empty_server (register program empty_server (receiver arith_value arith_type))

register_serves_example :
    (get_service registered_server (codes "Arith.Add") ≡ ok (arith_service, add_type)) ↔ (
      (arith_service ≡ record {
        name = codes "Arith";
        rcvr = arith_value;
        typ = arith_type;
        methods = suitable_methods program arith_type;
      })
      × ((x : GoMethod) × Memᴰ x (program.method_set arith_type)
          × (x.name ≡ codes "Add")
          × IsSuitable program x add_type))
unfolding register register_as to_service new_service load_or_store build_service suitable_methods
    get put same_type method_type no_dot
register_serves_example =
    register_serves program empty_server registered_server arith_value arith_type [] false refl
      (codes "Add") arith_service add_type refl named_once
