-- ===== src/Pending.antt =====
-- internal/svc/svc.go: the calls that a connection has in progress, by sequence number, and the
-- built-in service that cancels them. A method of Pending runs under its mutex, so each is one step;
-- the cancel function that Cancel calls after the unlock touches no field of Pending.
pub mod Laws
pub mod Histories
use birpc.Base.{ℕ, ◌≡◌, Option, none, some, List, [], ◌∷◌, Bool, true, false, nat_Eq}
use birpc.Base.Dict.{Dict, get, put, delete}
use birpc.Context.{Context, Clock, with_cancel, fire}
use birpc.Wire.{Value, cancel_args}

pub record Pending : Type 0 where
  pub m : Dict ℕ ℕ  -- seq -> cancel
  pub parent : Context

unfoldable pub new_pending : Context → Pending
new_pending parent = record { m = []; parent = parent }

unfoldable pub start : Pending → ℕ → Clock → Context × Pending × Clock
unfolding with_cancel
start s seq k =
    let (ctx, cancel, k') = with_cancel s.parent k in (ctx, record s { m = put seq cancel s.m }, k')

unfoldable pub cancel : Pending → ℕ → Clock → Pending × Clock
unfolding fire
cancel s seq k = elim (get seq s.m) [
  | none ↦ (s, k)
  | some id ↦ (record s { m = delete seq s.m }, fire id k)
]

-- SetPending, on the argument of a call; `none` for an argument that is no `*CancelArgs`.
unfoldable pub set_pending : Value → Option Value
set_pending (cancel_args seq linked) = some (cancel_args seq true)
set_pending _ = none

-- GoRPC.Cancel; `none` is the panic of a call through a nil `pending`, and of an argument of
-- another type, with which package reflect does not call a method.
unfoldable pub go_rpc_cancel : Pending → Clock → Value → Option (Pending × Clock)
go_rpc_cancel s k (cancel_args seq true) = some (cancel s seq k)
go_rpc_cancel s k _ = none
