-- ===== src/BirpcServer/Histories.antt =====
-- birpc_server.go: the requests of all connections over every history of a server.
use birpc.Base.{
  update, ℕ, suc, ◌+◌, ◌≤◌, ◌≡◌, ◌⊎◌, refl, ◌∙◌, inl, inr, Option, none, some, List, [], ◌∷◌, Bool,
  true, false, arith, count, if◌then◌else◌,
}
use mathlib.Core.Path.{subst}
use birpc.BasicServer.{BasicServer}
use birpc.Server.{Entry, Task}
use birpc.Birpc.{BirpcCodec, open_link}
use birpc.Birpc.Accounts.{Ok, perform-Ok}
use birpc.Birpc.Steps.{Session, Stage, looping, waiting, notified, ended, new_session}
use birpc.Birpc.Steps
use birpc.BirpcServer.{
  Hub, Served, BirpcServer, Op, on_connect, on_disconnect, connects, acts, leaves, registers,
  unregisters, new_birpc_server, publish, serve_codec, on_acts, return_codec, on_leaves, perform,
  step, run, share,
}
use birpc.Client.{Channel}
use birpc.Context.{Clock}
use birpc.FreeList.{Request-Linked}
use birpc.FreeList.Chain.{empty-Holds}
use birpc.Server.Accounts.{receipts, answers}
use birpc.Service.Types.{Program}
use birpc.BasicServer.Registry.{
  registered-free_req, unregister_name-free_req, new_basic_server-free_req,
}
use birpc.Birpc.Endings.{notices}
use birpc.BirpcServer.Partings.{history-IsKept}
use birpc.Server.Pool.{pool, others}
use birpc.Server.Sharing.{Shared, apart, whole, open-Shared, rebase-Shared}

notices_cases : (g : Stage) → (notices g ≡ 0) ⊎ (notices g ≡ 1)
notices_cases looping = inl refl
notices_cases (waiting b) = inl refl
notices_cases (notified b) = inr refl
notices_cases (ended b) = inr refl

abbrev pub tasks_of : {C : Type 0} → Served C → List Task
tasks_of v = v.session.link.tasks

abbrev log_of : {C : Type 0} → Served C → List Entry
log_of v = v.session.link.conn.log

module _ {C H : Type 0} (codec : BirpcCodec C) (hub : Hub H) where
  abbrev IsShared : BirpcServer C H → Type 0
  IsShared w = Shared tasks_of log_of w.basic w.served w.next

  -- the view of a connection, and back from it after a step that left the others' requests alone
  view :
      (w : BirpcServer C H) (i : ℕ) (v : Served C)
      → IsShared w
      → w.served i ≡ some v
      → Ok codec
          (others tasks_of w.served i w.next)
          (λ q. (w.basic.free_req.cells q).seq)
          (share w.basic v.session).link
  view w i v s e = (
    s.free,
    record {
      owned = apart tasks_of log_of w.basic w.served w.next i v s e;
      balanced = s.balanced i v e;
      framed = λ q h. refl;
    },
  )

  back :
      (b : BasicServer) (w : BirpcServer C H) (i : ℕ) (v u : Served C)
      → IsShared w
      → w.served i ≡ some v
      → Ok codec
          (others tasks_of w.served i w.next)
          (λ q. (w.basic.free_req.cells q).seq)
          (share b u.session).link
      → Shared tasks_of log_of b (update w.served i (some u)) w.next
  back b w i v u s e (free, a) =
      whole tasks_of log_of w.basic b w.served w.next i v u s e free a.owned a.balanced a.framed

  on_acts-Shared :
      (o : Option (Served C)) (i : ℕ) (op : Steps.Op) (w : BirpcServer C H)
      → w.served i ≡ o
      → IsShared w
      → IsShared (on_acts codec hub o i op w)
  unfolding on_acts Steps.step
  on_acts-Shared none i op w e s = s
  on_acts-Shared (some v) i op w e s =
      back _ w i v _ s e (stepped (share w.basic v.session).crashed)
    where
      here :
          Ok codec
            (others tasks_of w.served i w.next)
            (λ q. (w.basic.free_req.cells q).seq)
            (share w.basic v.session).link
      here = view w i v s e

      stepped :
          (b : Bool)
          → Ok codec
              (others tasks_of w.served i w.next)
              (λ q. (w.basic.free_req.cells q).seq)
              (if b
                then share w.basic v.session
                else Steps.perform codec (share w.basic v.session) op).link
      stepped true = here
      stepped false = perform-Ok codec _ _ (share w.basic v.session) op here

  return_codec-Shared :
      (i : ℕ) (v : Served C) (g : Stage) (w : BirpcServer C H)
      → w.served i ≡ some v
      → IsShared w
      → IsShared (return_codec codec hub i v.session g w)
  unfolding return_codec publish
  return_codec-Shared i v (ended b) w e s =
      let (free, a) = view w i v s e in
      back w.basic w i v _ s e
        (free, record { owned = a.owned; balanced = a.balanced; framed = a.framed })
  return_codec-Shared i v looping w e s = s
  return_codec-Shared i v (waiting b) w e s = s
  return_codec-Shared i v (notified b) w e s = s

  on_leaves-Shared :
      (o : Option (Served C)) (i : ℕ) (w : BirpcServer C H)
      → w.served i ≡ o
      → IsShared w
      → IsShared (on_leaves codec hub o i w)
  unfolding on_leaves
  on_leaves-Shared none i w e s = s
  on_leaves-Shared (some v) i w e s = split v.left
    where
      split :
          (b : Bool)
          → IsShared (if b then w else return_codec codec hub i v.session v.session.stage w)
      split true = s
      split false = return_codec-Shared i v v.session.stage w e s

  serve_codec-Shared :
      (c : C) (ch : ℕ → Channel) (clock : Clock) (w : BirpcServer C H)
      → IsShared w
      → IsShared (serve_codec codec hub c ch clock w)
  unfolding serve_codec publish open_link
  serve_codec-Shared c ch clock w s =
      let suc_next : suc w.next ≡ w.next + 1 = omega arith in
      subst (Shared tasks_of log_of w.basic _) suc_next
        (open-Shared tasks_of log_of w.basic w.served w.next _ refl refl s)

  perform-Shared : (w : BirpcServer C H) (o : Op C) → IsShared w → IsShared (perform codec hub w o)
  unfolding perform
  perform-Shared w (on_connect f) s = s
  perform-Shared w (on_disconnect f) s = s
  perform-Shared w (connects c ch clock) s = serve_codec-Shared c ch clock w s
  perform-Shared w (acts i o) s = on_acts-Shared (w.served i) i o w refl s
  perform-Shared w (leaves i) s = on_leaves-Shared (w.served i) i w refl s
  perform-Shared w (registers p rcvr name use_name) s =
      rebase-Shared tasks_of log_of w.basic _ w.served w.next
        (registered-free_req p w.basic rcvr name use_name) s
  perform-Shared w (unregisters name) s =
      rebase-Shared tasks_of log_of w.basic _ w.served w.next
        (unregister_name-free_req w.basic name) s

  run-Shared : (w : BirpcServer C H) (os : List (Op C)) → IsShared w → IsShared (run codec hub w os)
  unfolding run step
  run-Shared w [] s = s
  run-Shared w (o ∷ os) s = run-Shared (step codec hub w o) os (split w.crashed)
    where
      split : (b : Bool) → IsShared (if b then w else perform codec hub w o)
      split true = s
      split false = perform-Shared w o s

  new-Shared : (p : Program) → IsShared (new_birpc_server codec hub p)
  unfolding new_birpc_server
  new-Shared p = record {
    fresh = λ i h. refl;
    free = [];
    owned =
        rw (new_basic_server-free_req p)
          (record { listed = empty-Holds; apart = λ q. omega arith; known = λ q h. refl });
    balanced = λ i v h. absurd (cc);
  }

  -- For every history of a new server and any of its connections, all of which share its free list
  -- of requests: whatever the others do in between, no more responses are sent on it with a number
  -- than requests were read on it with that number, and once its channel of DisconnectNotify is
  -- closed, exactly as many.
  pub shared_answered_once :
      (p : Program) (os : List (Op C)) (i n : ℕ) (v : Served C)
      → (run codec hub (new_birpc_server codec hub p) os).served i ≡ some v
      → let log = v.session.link.conn.log in
        (answers n log ≤ receipts n log)
        × ((v.session.disconnects ≡ 0) ⊎ (answers n log ≡ receipts n log))
  shared_answered_once p os i n v e =
      let w = run codec hub (new_birpc_server codec hub p) os in
      let balance =
        (run-Shared (new_birpc_server codec hub p) os (new-Shared p)).balanced i v e n in
      let settled = (history-IsKept codec hub p os i v e).settled in
      (
        omega (arith, balance),
        elim (notices_cases v.session.stage) [
          | inl h ↦ inl (settled.noticed ∙ h)
          | inr h ↦ inr (ground (arith, balance, settled.alone h))
        ],
      )

  -- For every history of a new server: no request object is held by two calls, be they of one of
  -- its connections or of two.
  pub requests_apart :
      (p : Program) (os : List (Op C)) (q : ℕ)
      → let w = run codec hub (new_birpc_server codec hub p) os in
        count q (pool tasks_of w.served w.next) ≤ 1
  requests_apart p os q =
      let s = run-Shared (new_birpc_server codec hub p) os (new-Shared p) in
      omega (arith, s.owned.apart q)
