-- ===== src/Service/Visible.antt =====
-- service.go: isExportedOrBuiltinType, against what it is to find.
use birpc.Base.{
  ℕ, ◌||◌, false, List-cases, ◌≡◌, inl, inr, refl, [], ◌∷◌, true, arith, text_Eq, Bool-cases,
}
use birpc.Base.Text.{Text}
use birpc.Wire.{GoType, pointer_type, map_type, slice_type, other_type}
use birpc.Service.Types.{
  Program, is_pointer, is_exported_or_builtin_type, name_of, pkg_of, is_exported, is_blank,
}

-- An exported or builtin type: what its pointers lead to has a name that begins with an upper-case
-- letter, or belongs to no package.
pub data IsVisible (p : Program) : GoType → Type 0 where
  through : (n k : Text) (t : GoType) → IsVisible p t → IsVisible p (pointer_type n k t)
  exported :
      (t : GoType) (c : ℕ) (s : Text)
      → is_pointer t ≡ false
      → name_of t ≡ c ∷ s
      → p.is_upper c ≡ true
      → IsVisible p t
  builtin : (t : GoType) → is_pointer t ≡ false → pkg_of t ≡ [] → IsVisible p t

IsVisible-named :
    (p : Program) (t : GoType)
    → is_pointer t ≡ false
    → (is_exported p (name_of t) || is_blank (pkg_of t)) ≡ true
    → IsVisible p t
IsVisible-named p t flat h = elim (List-cases (name_of t)) [
  | inl e ↦ builtin t flat (ground (arith, e, h))
  | inr (c, s, e) ↦ elim (Bool-cases (p.is_upper c)) [
    | inl up ↦ exported t c s flat e up
    | inr low ↦ builtin t flat (ground (arith, e, low, h))
  ]
]

pub visible-IsVisible :
    (p : Program) (t : GoType) → is_exported_or_builtin_type p t ≡ true → IsVisible p t
unfolding is_exported_or_builtin_type
visible-IsVisible p (pointer_type n k t) h = through n k t (visible-IsVisible p t h)
visible-IsVisible p (map_type n k key item) h = IsVisible-named p (map_type n k key item) refl h
visible-IsVisible p (slice_type n k t) h = IsVisible-named p (slice_type n k t) refl h
visible-IsVisible p (other_type n k x) h = IsVisible-named p (other_type n k x) refl h

visible_flat :
    (p : Program) (t : GoType)
    → is_pointer t ≡ false
    → is_exported_or_builtin_type p t ≡ (is_exported p (name_of t) || is_blank (pkg_of t))
unfolding is_exported_or_builtin_type
visible_flat p (pointer_type n k t) h = cc
visible_flat p (map_type n k key item) h = refl
visible_flat p (slice_type n k t) h = refl
visible_flat p (other_type n k x) h = refl

pub visible_of_IsVisible :
    (p : Program) (t : GoType) → IsVisible p t → is_exported_or_builtin_type p t ≡ true
unfolding is_exported_or_builtin_type
visible_of_IsVisible p (pointer_type n k t) (through _ _ _ v) = visible_of_IsVisible p t v
visible_of_IsVisible p t (exported _ c s flat e up) = ground (arith, visible_flat p t flat, e, up)
visible_of_IsVisible p t (builtin _ flat e) = ground (arith, visible_flat p t flat, e)
