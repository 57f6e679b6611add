-- ===== src/Client/Following.antt =====
-- client.go: steps of another goroutine's making that are steps of a Client.
use birpc.Base.{◌≤◌, ◌≡◌, refl, List, [], ◌∷◌, ◌++◌, arith, length}
use birpc.Client.{Client}
use birpc.Client.Moves.{Event}
use birpc.Client.Moves

-- `d` is what a Client makes of `c` in one step, or in none.
abbrev pub Makes : Client → Client → Type 0
Makes c d = (es : List Event) × (length es ≤ 1) × (d ≡ Moves.run c es)

pub idle : (c : Client) → Makes c c
unfolding Moves.run
idle c = ([], omega arith, refl)

pub one : (c d : Client) (e : Event) → d ≡ Moves.step c e → Makes c d
unfolding Moves.run
one c d e h = (e ∷ [], omega arith, h)

pub run-append :
    (c : Client) (es fs : List Event) → Moves.run c (es ++ fs) ≡ Moves.run (Moves.run c es) fs
unfolding Moves.run
run-append c [] fs = refl
run-append c (e ∷ es) fs = run-append (Moves.step c e) es fs
