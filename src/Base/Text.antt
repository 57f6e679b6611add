-- ===== src/Base/Text.antt =====
-- Go strings as lists of code points, and the two functions of package strings that the code uses.
use Prim.Native.Nat.{ℕ}
use Prim.Native.Char.{code}
use Prim.Native.String.{String}
use mathlib.Core.Path.{◌≡◌, refl}
use mathlib.Core.Bool.{Bool, true, false}
use mathlib.Core.Option.{Option, none, some}
use mathlib.Core.List.{List, [], ◌∷◌, ◌++◌}
use native.Mathlib.Omega.{arith}
use mathlib.Core.Logic.{inl, inr}
use birpc.Base.Tests.{Option-cases, nat_eq, ltb, if◌then◌else◌}

abbrev pub Text : Type 0
Text = List ℕ

abbrev pub codes : String → Text
codes String.[] = []
codes (String.◌∷◌ c s) = code c ∷ codes s

abbrev pub dot : ℕ
dot = b'.'

-- a text of ASCII characters
unfoldable pub is_ascii : Text → Bool
is_ascii [] = true
is_ascii (c ∷ s) = if ltb c 128 then is_ascii s else false

-- The parts of a text before and after its last dot: `s[:i]` and `s[i+1:]` at
-- `i = strings.LastIndex(s, ".")`, or `none` where that is negative.
unfoldable pub split_last_dot : Text → Option (Text × Text)
split_last_dot [] = none
split_last_dot (c ∷ s) = elim (split_last_dot s) [
  | some (before, after) ↦ some (c ∷ before, after)
  | none ↦ if nat_eq c dot then some ([], s) else none
]

-- A text with no dot.
unfoldable pub no_dot : Text → Bool
no_dot [] = true
no_dot (c ∷ s) = if nat_eq c dot then false else no_dot s

pub split_last_dot-eq_none : (s : Text) → no_dot s ≡ true → split_last_dot s ≡ none
unfolding split_last_dot no_dot
split_last_dot-eq_none [] h = refl
split_last_dot-eq_none (c ∷ s) h = ground (arith, split_last_dot-eq_none s)

-- Joining with a dot is undone by the split, whatever dots the first part holds.
pub split_last_dot-append :
    (before after : Text)
    → no_dot after ≡ true
    → split_last_dot (before ++ dot ∷ after) ≡ some (before, after)
unfolding split_last_dot
split_last_dot-append [] after h = ground (arith, split_last_dot-eq_none after h)
split_last_dot-append (c ∷ before) after h = ground (arith, split_last_dot-append before after h)

pub no_dot_of_split : (s : Text) → split_last_dot s ≡ none → no_dot s ≡ true
unfolding split_last_dot no_dot
no_dot_of_split [] h = refl
no_dot_of_split (c ∷ s) h = ground (arith, no_dot_of_split s)

-- The parts of a split make the text again, and the second has no dot.
pub split_last_dot_parts :
    (s before after : Text)
    → split_last_dot s ≡ some (before, after)
    → (s ≡ before ++ dot ∷ after) × (no_dot after ≡ true)
unfolding split_last_dot no_dot
split_last_dot_parts [] before after h = cc
split_last_dot_parts (c ∷ s) before after h = elim (Option-cases (split_last_dot s)) [
  | inl e ↦ let none_left = no_dot_of_split s e in ground (arith, e, none_left)
  | inr ((b, a), e) ↦ ground (arith, e, split_last_dot_parts s b a e)
]
