-- ===== src/Server/Hosts/Histories.antt =====
-- server.go: the requests of all connections over every history of a server.
use birpc.Base.{
  Option, ℕ, suc, ◌+◌, ◌≤◌, ◌≡◌, ◌⊎◌, refl, inl, inr, Option, none, some, List, [], ◌∷◌, Bool, true,
  false, arith, Bool-cases, if◌then◌else◌,
}
use mathlib.Core.Path.{subst}
use birpc.BasicServer.Registry.{
  registered-free_req, unregister_name-free_req, new_basic_server-free_req,
}
use birpc.Codec.{ServerCodec}
use birpc.Context.{Clock}
use birpc.FreeList.Chain.{empty-Holds}
use birpc.Server.{Entry, Task}
use birpc.Server.Accounts.{receipts, answers}
use birpc.Server.Pool.{others}
use birpc.Server.Served.{Good, Quiet, step-Good}
use birpc.Server.Sharing.{Shared, update_all, apart, whole, open-Shared, rebase-Shared}
use birpc.Server.Steps.{Serving, Event}
use birpc.Server.Steps
use birpc.FreeList.{Request-Linked}
use birpc.Server.Hosts.{
  Server, Op, registers, unregisters, connects, acts, share, new_server, start_serving, serve_codec,
  on_acts, perform, step, run,
}
use birpc.Service.Types.{Program}

abbrev pub tasks_of : {C : Type 0} → Serving C → List Task
tasks_of s = s.tasks

abbrev log_of : {C : Type 0} → Serving C → List Entry
log_of s = s.conn.log

module _ {C : Type 0} (codec : ServerCodec C) where
  -- the requests of the connections, and that each closes its codec last
  record Kept (w : Server C) : Type 0 where
    shared : Shared tasks_of log_of w.basic w.served w.next
    quiet : (i : ℕ) (v : Serving C) → w.served i ≡ some v → Quiet v

  on_acts-Kept :
      (o : Option (Serving C)) (i : ℕ) (e : Event) (w : Server C)
      → w.served i ≡ o
      → Kept w
      → Kept (on_acts codec o i e w)
  unfolding on_acts
  on_acts-Kept none i e w h k = k
  on_acts-Kept (some v) i e w h k =
      let held : List ℕ = others tasks_of w.served i w.next in
      let ms : ℕ → ℕ = λ q. (w.basic.free_req.cells q).seq in
      let good : Good codec held ms (share w.basic v) = record {
        accounts = (
          k.shared.free,
          record {
            owned = apart tasks_of log_of w.basic w.served w.next i v k.shared h;
            balanced = k.shared.balanced i v h;
            framed = λ q z. refl;
          },
        );
        quiet = k.quiet i v h;
      } in
      let after = step-Good codec held ms (share w.basic v) e good in
      let (free, a) = after.accounts in
      let s : Serving C = Steps.step codec (share w.basic v) e in
      record {
        shared =
            whole tasks_of log_of w.basic s.conn.server w.served w.next i v s k.shared h free
              a.owned a.balanced a.framed;
        quiet = update_all Quiet w.served i s after.quiet k.quiet;
      }

  serve_codec-Kept : (c : C) (clock : Clock) (w : Server C) → Kept w → Kept (serve_codec c clock w)
  unfolding serve_codec start_serving
  serve_codec-Kept c clock w k =
      let s : Serving C = start_serving w.basic c clock in
      let suc_next : suc w.next ≡ w.next + 1 = omega arith in
      record {
        shared =
            subst (Shared tasks_of log_of w.basic _) suc_next
              (open-Shared tasks_of log_of w.basic w.served w.next s refl refl k.shared);
        quiet = update_all Quiet w.served w.next s (λ h. cc) k.quiet;
      }

  perform-Kept : (w : Server C) (o : Op C) → Kept w → Kept (perform codec w o)
  unfolding perform
  perform-Kept w (registers p rcvr name use_name) k = record {
    shared =
        rebase-Shared tasks_of log_of w.basic _ w.served w.next
          (registered-free_req p w.basic rcvr name use_name) k.shared;
    quiet = k.quiet;
  }
  perform-Kept w (unregisters name) k = record {
    shared =
        rebase-Shared tasks_of log_of w.basic _ w.served w.next
          (unregister_name-free_req w.basic name) k.shared;
    quiet = k.quiet;
  }
  perform-Kept w (connects c clock) k = serve_codec-Kept c clock w k
  perform-Kept w (acts i e) k = on_acts-Kept (w.served i) i e w refl k

  run-Kept : (w : Server C) (os : List (Op C)) → Kept w → Kept (run codec w os)
  unfolding run step
  run-Kept w [] k = k
  run-Kept w (o ∷ os) k = run-Kept (step codec w o) os (split w.crashed)
    where
      split : (b : Bool) → Kept (if b then w else perform codec w o)
      split true = k
      split false = perform-Kept w o k

  new-Kept : (p : Program) → Kept (new_server p)
  unfolding new_server
  new-Kept p = record {
    shared = record {
      fresh = λ i h. refl;
      free = [];
      owned =
          rw (new_basic_server-free_req p)
            (record { listed = empty-Holds; apart = λ q. omega arith; known = λ q h. refl });
      balanced = λ i v h. absurd (cc);
    };
    quiet = λ i v h. absurd (cc);
  }

  -- For every history of a new server and any of its connections, all of which share its free list
  -- of requests, with any codec and any methods: whatever the others do in between, no more
  -- responses are sent on it with a number than request headers were read on it with that number,
  -- and once ServeCodec has closed its codec, exactly as many.
  pub server_answered_once :
      (p : Program) (os : List (Op C)) (i n : ℕ) (v : Serving C)
      → (run codec (new_server p) os).served i ≡ some v
      → (answers n v.conn.log ≤ receipts n v.conn.log)
        × ((v.closed ≡ false) ⊎ (answers n v.conn.log ≡ receipts n v.conn.log))
  server_answered_once p os i n v e =
      let k = run-Kept (new_server p) os (new-Kept p) in
      let balance = k.shared.balanced i v e n in
      let quiet = k.quiet i v e in
      (
        omega (arith, balance),
        elim (Bool-cases v.closed) [
          | inr open_still ↦ inl open_still
          | inl shut ↦ inr (ground (arith, balance, (quiet shut).0))
        ],
      )
