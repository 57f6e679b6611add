-- ===== src/Examples/Contexts.antt =====
-- context/context.go, internal/svc/svc.go: two calls in progress on a connection, one cancelled.
use birpc.Base.{ℕ, ◌≡◌, refl, none, [], ◌∷◌, true, false, arith, nat_Eq}
use birpc.Base.Dict.{get, put, delete}
use birpc.Context.{Context, Clock, is_done, background, with_cancel, cancel_node}
use birpc.Pending.{Pending, start, cancel}
use birpc.Pending.Laws.{Inv, cancel_scope}
use birpc.Pending.Histories.{starts, step, run, restart_orphans, run-Inv}

abbrev clock : Clock
clock = record { now = 5; next_id = 0; fired = [] }

abbrev later : Clock
later = record { now = 9; next_id = 3; fired = 0 ∷ [] }

abbrev calls : Pending
calls = record { m = []; parent = background }

calls-Inv : Inv calls clock
unfolding get
calls-Inv = record {
  rooted = tt;
  above = λ s i h. cc;
  known = λ s i h. cc;
  live = λ s i h. cc;
  apart = λ a b i h g. cc;
  past = λ i h. refl;
}

abbrev one_call : Pending
one_call = record { m = (1, 0) ∷ []; parent = background }

abbrev two_calls : Pending
two_calls = record { m = (2, 1) ∷ (1, 0) ∷ []; parent = background }

abbrev busy : Clock
busy = record { now = 5; next_id = 2; fired = [] }

two_calls-Inv : Inv two_calls busy
unfolding run step start with_cancel put delete
two_calls-Inv = run-Inv calls clock (starts 1 ∷ starts 2 ∷ []) calls-Inv

abbrev ctx : ℕ → Context
ctx id = record { std = cancel_node id background.std; client = none }

cancel_scope_example :
    (is_done (cancel two_calls 1 busy).1 (ctx 0).std ≡ true)
    × (is_done (cancel two_calls 1 busy).1 (ctx 1).std ≡ is_done busy (ctx 1).std)
    × (get 1 (cancel two_calls 1 busy).0.m ≡ none)
    × (get 2 (cancel two_calls 1 busy).0.m ≡ get 2 two_calls.m)
unfolding get
cancel_scope_example =
    cancel_scope two_calls 1 2 (ctx 0) (ctx 1) busy two_calls-Inv
      (record { id = 0; entry = refl; made = refl }) (record { id = 1; entry = refl; made = refl })
      (ground arith)

restart_orphans_example :
    let (first, s₁, k₁) = start two_calls 0 busy in
    let (second, s₂, k₂) = start s₁ 0 k₁ in
    let (s₃, k₃) = cancel s₂ 0 k₂ in
    (is_done k₃ first.std ≡ false) × (is_done k₃ second.std ≡ true) × (get 0 s₃.m ≡ none)
unfolding is_done
restart_orphans_example = restart_orphans two_calls 0 busy two_calls-Inv
