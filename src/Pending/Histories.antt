-- ===== src/Pending/Histories.antt =====
-- internal/svc/svc.go: sequences of Start and Cancel on one connection.
use birpc.Base.{
  ℕ, ◌+◌, ◌≡◌, refl, none, some, List, [], ◌∷◌, Bool, true, false, arith, nat_eq, nat_Eq,
  if◌then◌else◌,
}
use birpc.Base.Dict.{get, put, get-put, get-delete}
use birpc.Context.{Clock, is_done, fire}
use birpc.Context.Laws.{Below-mono, is_done-fire_above, is_done-next_id}
use birpc.Pending.{Pending, start, cancel}
use birpc.Pending.Laws.{Inv, start-Inv, cancel-Inv}

pub data Op : Type 0 where
  starts : ℕ → Op
  cancels : ℕ → Op

unfoldable pub step : Pending × Clock → Op → Pending × Clock
step (s, k) (starts seq) = let (ctx, s', k') = start s seq k in (s', k')
step (s, k) (cancels seq) = cancel s seq k

unfoldable pub run : Pending × Clock → List Op → Pending × Clock
run p [] = p
run p (o ∷ os) = run (step p o) os

-- Whether the last operation on a number is a start, if there is one; else what it was before.
unfoldable pub in_progress : Bool → ℕ → List Op → Bool
in_progress b seq [] = b
in_progress b seq (starts a ∷ os) = in_progress (if nat_eq a seq then true else b) seq os
in_progress b seq (cancels a ∷ os) = in_progress (if nat_eq a seq then false else b) seq os

abbrev pub has : ℕ → Pending → Bool
has seq s = elim (get seq s.m) [ none ↦ false | some id ↦ true ]

has-start :
    (s : Pending) (a seq : ℕ) (k : Clock)
    → has seq (start s a k).1 ≡ (if nat_eq a seq then true else has seq s)
unfolding start
has-start s a seq k = ground (arith, get-put a seq k.next_id s.m)

has-cancel :
    (s : Pending) (a seq : ℕ) (k : Clock)
    → has seq (cancel s a k).0 ≡ (if nat_eq a seq then false else has seq s)
unfolding cancel
has-cancel s a seq k = ground (arith, get-delete a seq s.m)

-- After any history the map holds exactly the numbers whose last operation was a start, and those
-- that it held before and that had none.
pub has-run :
    (s : Pending) (k : Clock) (os : List Op) (seq : ℕ)
    → has seq (run (s, k) os).0 ≡ in_progress (has seq s) seq os
unfolding run step in_progress
has-run s k [] seq = refl
has-run s k (starts a ∷ os) seq =
    rw (← has-start s a seq k) (has-run (start s a k).1 (start s a k).2 os seq)
has-run s k (cancels a ∷ os) seq =
    rw (← has-cancel s a seq k) (has-run (cancel s a k).0 (cancel s a k).1 os seq)

-- Every history keeps the cancel functions of the calls in progress distinct and uncalled.
pub run-Inv :
    (s : Pending) (k : Clock) (os : List Op) → Inv s k → Inv (run (s, k) os).0 (run (s, k) os).1
unfolding run step
run-Inv s k [] v = v
run-Inv s k (starts a ∷ os) v = run-Inv (start s a k).1 (start s a k).2 os (start-Inv s a k v)
run-Inv s k (cancels a ∷ os) v = run-Inv (cancel s a k).0 (cancel s a k).1 os (cancel-Inv s a k v)

-- Where the cancel functions in the map are different ones and none was called: if a number is
-- started twice, the next Cancel for it ends the second call and not the first, and leaves no
-- entry by which either could be cancelled.
pub restart_orphans :
    (s : Pending) (seq : ℕ) (k : Clock)
    → Inv s k
    → let (first, s₁, k₁) = start s seq k in
      let (second, s₂, k₂) = start s₁ seq k₁ in
      let (s₃, k₃) = cancel s₂ seq k₂ in
      (is_done k₃ first.std ≡ is_done k s.parent.std)
      × (is_done k₃ second.std ≡ true)
      × (get seq s₃.m ≡ none)
unfolding start cancel is_done fire
restart_orphans s seq k v =
    let n : ℕ = k.next_id + 1 in
    let k₂ : Clock = record k { next_id = n + 1 } in
    let above =
      is_done-fire_above n k₂ s.parent.std (Below-mono s.parent.std (omega arith) v.rooted) in
    let same = is_done-next_id (n + 1) k s.parent.std in
    let entry = get-put seq seq n (put seq k.next_id s.m) in
    (
      ground (arith, entry, v.past k.next_id, above, same),
      ground (arith, entry),
      ground (arith, entry, get-delete seq seq (put seq n (put seq k.next_id s.m))),
    )
