-- ===== src/Service/Suitable.antt =====
-- service.go: which methods suitableMethods finds, against the criteria that server.go documents for
-- a method; that its receiver's type is exported is for NewService.
use mathlib.Core.List.{Memᴰ}
use mathlib.Core.Path.{subst}
use birpc.Base.{
  ◌≡◌, ◌↔◌, ◌⊎◌, inl, inr, refl, sym, ap, ◌∙◌, Option, none, some, List, [], ◌∷◌, true, arith,
  text_Eq, list_eq_iff, Bool-cases, ◌==◌,
}
use birpc.Base.Text.{Text}
use birpc.Base.Dict.{Dict, get, get-put}
use birpc.Wire.{GoType}
use birpc.Service.Types.{
  GoMethod, Program, MethodType, is_pointer, is_exported_or_builtin_type, type_of_ctx,
  type_of_error, same_type_sound, same_type_refl, check_outs, check_ins, method_type,
}
use birpc.Service.Visible.{IsVisible, visible-IsVisible, visible_of_IsVisible}
use birpc.Service.{store, suitable_loop, suitable_methods}

-- The criteria for a method: exported, a context and two visible types of which the second is a
-- pointer, and an error as the only result.
pub record IsSuitable (p : Program) (m : GoMethod) (t : MethodType) : Type 0 where
  pub exported : m.pkg_path ≡ []
  pub rcvr : GoType
  pub params : m.ins ≡ rcvr ∷ type_of_ctx ∷ t.arg_type ∷ t.reply_type ∷ []
  pub arg_visible : IsVisible p t.arg_type
  pub reply_pointer : is_pointer t.reply_type ≡ true
  pub reply_visible : IsVisible p t.reply_type
  pub results : m.outs ≡ type_of_error ∷ []
  pub same_func : t.func ≡ m.func

check_outs_lem :
    (m : GoMethod) (arg reply : GoType) (outs : List GoType) (t : MethodType)
    → check_outs m arg reply outs ≡ some t
    → (outs ≡ type_of_error ∷ []) × (t.func ≡ m.func) × (t.arg_type ≡ arg) × (t.reply_type ≡ reply)
unfolding check_outs
check_outs_lem m arg reply [] t h = cc
check_outs_lem m arg reply (o ∷ []) t h = ground (arith, same_type_sound o type_of_error)
check_outs_lem m arg reply (o ∷ q ∷ r) t h = cc

-- The tests after the one on the package path, on four parameter types.
record Passes (p : Program) (m : GoMethod) (ctx arg reply : GoType) (t : MethodType) : Type 0 where
  ctx_type : ctx ≡ type_of_ctx
  arg_type : t.arg_type ≡ arg
  reply_type : t.reply_type ≡ reply
  arg_visible : is_exported_or_builtin_type p arg ≡ true
  reply_pointer : is_pointer reply ≡ true
  reply_visible : is_exported_or_builtin_type p reply ≡ true
  results : m.outs ≡ type_of_error ∷ []
  same_func : t.func ≡ m.func

check_ins_four :
    (p : Program) (m : GoMethod) (rcvr ctx arg reply : GoType) (t : MethodType)
    → check_ins p m (rcvr ∷ ctx ∷ arg ∷ reply ∷ []) ≡ some t
    → Passes p m ctx arg reply t
unfolding check_ins
check_ins_four p m rcvr ctx arg reply t h =
    ground (arith, same_type_sound ctx type_of_ctx, check_outs_lem m arg reply m.outs t)

check_ins-IsSuitable :
    (p : Program) (m : GoMethod) (ins : List GoType) (t : MethodType)
    → m.pkg_path ≡ []
    → m.ins ≡ ins
    → check_ins p m ins ≡ some t
    → IsSuitable p m t
unfolding check_ins
check_ins-IsSuitable p m [] t x e h = cc
check_ins-IsSuitable p m (a ∷ []) t x e h = cc
check_ins-IsSuitable p m (a ∷ b ∷ []) t x e h = cc
check_ins-IsSuitable p m (a ∷ b ∷ c ∷ []) t x e h = cc
check_ins-IsSuitable p m (a ∷ b ∷ c ∷ d ∷ f ∷ r) t x e h = cc
check_ins-IsSuitable p m (a ∷ b ∷ c ∷ d ∷ []) t x e h = record {
  exported = x;
  rcvr = a;
  params = rw (q.arg_type, q.reply_type, ← q.ctx_type) e;
  arg_visible = visible-IsVisible p t.arg_type (rw q.arg_type q.arg_visible);
  reply_pointer = rw q.reply_type q.reply_pointer;
  reply_visible = visible-IsVisible p t.reply_type (rw q.reply_type q.reply_visible);
  results = q.results;
  same_func = q.same_func;
}
  where
    q : Passes p m b c d t
    q = check_ins_four p m a b c d t h

method_type-IsSuitable :
    (p : Program) (m : GoMethod) (t : MethodType) → method_type p m ≡ some t → IsSuitable p m t
unfolding method_type
method_type-IsSuitable p m t h = check_ins-IsSuitable p m m.ins t (ground arith) refl (ground arith)

method_type_of_IsSuitable :
    (p : Program) (m : GoMethod) (t : MethodType) → IsSuitable p m t → method_type p m ≡ some t
unfolding method_type check_ins check_outs
method_type_of_IsSuitable p m t v =
    rw (v.exported, v.params, v.results)
      (ground (
        arith,
        same_type_refl type_of_ctx,
        same_type_refl type_of_error,
        visible_of_IsVisible p t.arg_type v.arg_visible,
        v.reply_pointer,
        visible_of_IsVisible p t.reply_type v.reply_visible,
        v.same_func,
      ))

-- A method is kept exactly when it is exported and has four parameters, the receiver, a context, and
-- two whose types are exported or builtin, the last a pointer, and an error as its only result; it is
-- kept with its own code and types.
pub method_type_iff :
    (p : Program) (m : GoMethod) (t : MethodType) → (method_type p m ≡ some t) ↔ IsSuitable p m t
method_type_iff p m t = (method_type-IsSuitable p m t, method_type_of_IsSuitable p m t)

get-store :
    (n name : Text) (o : Option MethodType) (acc : Dict Text MethodType) (t : MethodType)
    → get n (store name o acc) ≡ some t
    → (get n acc ≡ some t) ⊎ ((name ≡ n) × (o ≡ some t))
unfolding store
get-store n name none acc t h = inl h
get-store n name (some u) acc t h = ground (arith, get-put name n u acc, list_eq_iff name n)

get-suitable_loop :
    (p : Program) (n : Text) (ms : List GoMethod) (acc : Dict Text MethodType) (t : MethodType)
    → get n (suitable_loop p ms acc) ≡ some t
    → (get n acc ≡ some t) ⊎ ((m : GoMethod) × Memᴰ m ms × (m.name ≡ n) × IsSuitable p m t)
unfolding suitable_loop
get-suitable_loop p n [] acc t h = inl h
get-suitable_loop p n (m ∷ ms) acc t h =
    elim (get-suitable_loop p n ms (store m.name (method_type p m) acc) t h) [
      | inr (q, mem, e, s) ↦ inr (q, Memᴰ.tail mem, e, s)
      | inl g ↦ elim (get-store n m.name (method_type p m) acc t g) [
        | inl old ↦ inl old
        | inr (e, k) ↦ inr (m, Memᴰ.head refl, e, method_type-IsSuitable p m t k)
      ]
    ]

store_keeps :
    (n name : Text) (o : Option MethodType) (acc : Dict Text MethodType) (t : MethodType)
    → get n acc ≡ some t
    → (name ≡ n → o ≡ some t)
    → get n (store name o acc) ≡ some t
unfolding store
store_keeps n name none acc t g h = g
store_keeps n name (some u) acc t g h = elim (Bool-cases (name == n)) [
  | inl e ↦ let same : some u ≡ some t = h ((list_eq_iff name n).0 e) in rw (get-put, e) same
  | inr e ↦ rw (get-put, e) g
]

loop_keeps :
    (p : Program) (n : Text) (ms : List GoMethod) (acc : Dict Text MethodType) (t : MethodType)
    → get n acc ≡ some t
    → ((m : GoMethod) → Memᴰ m ms → m.name ≡ n → method_type p m ≡ some t)
    → get n (suitable_loop p ms acc) ≡ some t
unfolding suitable_loop
loop_keeps p n [] acc t g h = g
loop_keeps p n (m ∷ ms) acc t g h =
    loop_keeps p n ms (store m.name (method_type p m) acc) t
      (store_keeps n m.name (method_type p m) acc t g (h m (Memᴰ.head refl)))
      (λ q mem e. h q (Memᴰ.tail mem) e)

store_sets :
    (n name : Text) (o : Option MethodType) (acc : Dict Text MethodType) (t : MethodType)
    → name ≡ n
    → o ≡ some t
    → get n (store name o acc) ≡ some t
unfolding store
store_sets n name none acc t e h = cc
store_sets n name (some u) acc t e h = ground (arith, get-put name n u acc, list_eq_iff name n)

loop_finds :
    (p : Program) (n : Text) (ms : List GoMethod) (acc : Dict Text MethodType) (t : MethodType)
    (m : GoMethod)
    → Memᴰ m ms
    → m.name ≡ n
    → ((q : GoMethod) → Memᴰ q ms → q.name ≡ n → method_type p q ≡ some t)
    → get n (suitable_loop p ms acc) ≡ some t
unfolding suitable_loop
loop_finds p n [] acc t m mem e h = elim mem [ ]
loop_finds p n (x ∷ ms) acc t m (Memᴰ.head eq) e h =
    let named : x.name ≡ n = ap (λ (q : GoMethod). q.name) (sym eq) ∙ e in
    loop_keeps p n ms (store x.name (method_type p x) acc) t
      (store_sets n x.name (method_type p x) acc t named (h x (Memᴰ.head refl) named))
      (λ q mem k. h q (Memᴰ.tail mem) k)
loop_finds p n (x ∷ ms) acc t m (Memᴰ.tail mem) e h =
    loop_finds p n ms (store x.name (method_type p x) acc) t m mem e (λ q k j. h q (Memᴰ.tail k) j)

empty_get : (n : Text) (t : MethodType) → get {V = MethodType} n [] ≡ some t → ⊥
unfolding get
empty_get n t h = cc

-- The methods of a type that can be called from afar: every entry of the map comes from a method of
-- the type with that name which meets the criteria, and every such method has its entry, where no
-- two methods of the type share a name.
pub get-suitable_methods :
    (p : Program) (typ : GoType) (n : Text) (t : MethodType)
    → ((a b : GoMethod)
        → Memᴰ a (p.method_set typ)
        → Memᴰ b (p.method_set typ)
        → a.name ≡ b.name
        → a ≡ b)
    → (get n (suitable_methods p typ) ≡ some t)
      ↔ ((m : GoMethod) × Memᴰ m (p.method_set typ) × (m.name ≡ n) × IsSuitable p m t)
unfolding suitable_methods
get-suitable_methods p typ n t distinct = (
  λ h. from (get-suitable_loop p n (p.method_set typ) [] t h),
  λ (m, mem, e, s). loop_finds p n (p.method_set typ) [] t m mem e (λ q k j.
      subst (λ x. method_type p x ≡ some t) (distinct m q mem k (e ∙ sym j))
        (method_type_of_IsSuitable p m t s)),
)
  where
    from :
        (get n [] ≡ some t)
          ⊎ ((m : GoMethod) × Memᴰ m (p.method_set typ) × (m.name ≡ n) × IsSuitable p m t)
        → (m : GoMethod) × Memᴰ m (p.method_set typ) × (m.name ≡ n) × IsSuitable p m t
    from (inl h) = absurd (empty_get n t h)
    from (inr x) = x
