-- ===== src/Server/Sharing.antt =====
-- server.go, birpc_server.go: the connections of a server share its requests, and each has an account.
use birpc.Base.{
  ℕ, suc, ◌+◌, ◌≤◌, ◌<◌, ◌≡◌, ◌⊎◌, sym, ◌∙◌, ap, inl, inr, Option, none, some, List, [], ◌++◌, true,
  false, arith, count, count-append, nat_eq, nat_eq_cases, update, if◌then◌else◌, nat_eq_refl,
}
use mathlib.Core.Path.{subst}
use birpc.BasicServer.{BasicServer}
use birpc.Server.Pool.{
  held_of, pool, others, pool-others, others-update, pool-update, held_of-le-others, seqs-agree,
}
use birpc.FreeList.{Request-Linked}
use birpc.FreeList.Ownership
use birpc.FreeList.Ownership.{Inv-held}
use birpc.Server.{Entry, Task}
use birpc.Server.Accounts.{reqs, seqs, receipts, answers}

-- What holds of the connections holds of them when one is replaced.
pub update_all :
    {V : Type 0} (P : V → Type 0) (served : ℕ → Option V) (i : ℕ) (u : V)
    → P u
    → ((j : ℕ) (x : V) → served j ≡ some x → P x)
    → (j : ℕ) (x : V) → update served i (some u) j ≡ some x
    → P x
update_all P served i u here there j x h = elim (nat_eq_cases i j) [
  | inl k ↦
      let at_i : nat_eq i j ≡ true = ap (nat_eq i) (sym k) ∙ nat_eq_refl i in
      let same : some u ≡ some x = sym (ap (λ t. if t then some u else served j) at_i) ∙ h in
      subst P (cc) here
  | inr k ↦ there j x (sym (ap (λ t. if t then some u else served j) k) ∙ h)
]

module _ {V : Type 0} (tasks : V → List Task) (log_of : V → List Entry) where
  -- The requests that were read on a connection are those answered and those in its calls.
  abbrev pub Balanced : BasicServer → V → Type 0
  Balanced b v =
      (n : ℕ)
      → receipts n (log_of v)
        ≡ answers n (log_of v) + count n (seqs b.free_req.cells (reqs (tasks v)))

  -- The connections below `next` are all there are; they hold their requests apart, from one
  -- another and from the free list; and the account of each is in balance.
  pub record Shared (b : BasicServer) (served : ℕ → Option V) (next : ℕ) : Type 0 where
    pub fresh : (i : ℕ) → next ≤ i → served i ≡ none
    pub free : List ℕ
    pub owned : Ownership.Inv (record { free = b.free_req; held = pool tasks served next }) free
    pub balanced : (i : ℕ) (v : V) → served i ≡ some v → Balanced b v

  some_inj : {v u : V} → some v ≡ some u → v ≡ u
  some_inj h = cc

  known :
      (b : BasicServer) (served : ℕ → Option V) (next i : ℕ) (v : V)
      → Shared b served next
      → served i ≡ some v
      → i < next
  known b served next i v s e = ground (arith, s.fresh i, e)

  -- One connection's view: the others hold what they hold.
  pub apart :
      (b : BasicServer) (served : ℕ → Option V) (next i : ℕ) (v : V)
      → (s : Shared b served next) → served i ≡ some v
      → Ownership.Inv
          (record { free = b.free_req; held = reqs (tasks v) ++ others tasks served i next })
          s.free
  apart b served next i v s e =
      let mine : held_of tasks (served i) ≡ reqs (tasks v) = ap (held_of tasks) e in
      Inv-held b.free_req (pool tasks served next) (reqs (tasks v) ++ others tasks served i next)
        s.free
        (λ q. omega (
          arith,
          pool-others tasks served i next q (known b served next i v s e),
          ap (count q) mine,
          count-append q (reqs (tasks v)) (others tasks served i next),
        ))
        s.owned

  -- Back from that view, after a step that left the others' requests alone.
  pub whole :
      (b b' : BasicServer) (served : ℕ → Option V) (next i : ℕ) (v u : V)
      → Shared b served next
      → served i ≡ some v
      → (free : List ℕ)
      → Ownership.Inv
          (record { free = b'.free_req; held = reqs (tasks u) ++ others tasks served i next })
          free
      → Balanced b' u
      → ((q : ℕ)
          → 0 < count q (others tasks served i next)
          → (b'.free_req.cells q).seq ≡ (b.free_req.cells q).seq)
      → Shared b' (update served i (some u)) next
  whole b b' served next i v u s e free owned settled framed = record {
    fresh = λ j h. ground (arith, s.fresh j h, known b served next i v s e);
    free = free;
    owned =
        Inv-held b'.free_req (reqs (tasks u) ++ others tasks served i next)
          (pool tasks (update served i (some u)) next) free
          (λ q. omega (
            arith,
            pool-others tasks (update served i (some u)) i next q (known b served next i v s e),
            ap (λ t. count q (held_of tasks (if t then some u else served i))) (nat_eq_refl i),
            ap (count q) (others-update tasks served i next (some u)),
            count-append q (reqs (tasks u)) (others tasks served i next),
          ))
          owned;
    balanced = λ j x h. balanced j x h (nat_eq_cases i j);
  }
    where
      -- another connection's requests kept their numbers
      others_agree :
          (j : ℕ) (x : V)
          → nat_eq i j ≡ false
          → served j ≡ some x
          → seqs b'.free_req.cells (reqs (tasks x)) ≡ seqs b.free_req.cells (reqs (tasks x))
      others_agree j x apart h =
          seqs-agree b.free_req.cells b'.free_req.cells (reqs (tasks x)) (λ q k. framed q (
            omega (
              arith,
              k,
              held_of-le-others tasks served i j next q (known b served next j x s h) apart,
              ap (λ o. count q (held_of tasks o)) h,
            )))

      balanced :
          (j : ℕ) (x : V)
          → update served i (some u) j ≡ some x
          → (i ≡ j) ⊎ (nat_eq i j ≡ false)
          → Balanced b' x
      balanced j x h (inl k) =
          let here : nat_eq i j ≡ true = ap (nat_eq i) (sym k) ∙ nat_eq_refl i in
          let same : u ≡ x = some_inj (sym (ap (λ t. if t then some u else served j) here) ∙ h) in
          subst (Balanced b') same settled
      balanced j x h (inr k) =
          let there : served j ≡ some x = sym (ap (λ t. if t then some u else served j) k) ∙ h in
          λ n.
            s.balanced j x there n
            ∙ ap (λ l. answers n (log_of x) + count n l) (sym (others_agree j x k there))

  pub open-Shared :
      (b : BasicServer) (served : ℕ → Option V) (next : ℕ) (u : V)
      → (tasks u) ≡ []
      → log_of u ≡ []
      → Shared b served next
      → Shared b (update served next (some u)) (suc next)
  open-Shared b served next u no_tasks no_log s = record {
    fresh = λ j h. ground (arith, s.fresh j);
    free = s.free;
    owned =
        Inv-held b.free_req (pool tasks served next)
          (pool tasks (update served next (some u)) (suc next)) s.free (λ q. same q) s.owned;
    balanced = update_all (Balanced b) served next u empty_handed s.balanced;
  }
    where
      same :
          (q : ℕ)
          → count q (pool tasks (update served next (some u)) (suc next))
            ≤ count q (pool tasks served next)
      same q = omega (
        arith,
        count-append q (held_of tasks (update served next (some u) next))
            (pool tasks (update served next (some u)) next),
        ap (λ t. count q (held_of tasks (if t then some u else served next))) (nat_eq_refl next),
        ap (λ t. count q (reqs t)) no_tasks,
        ap (count q) (pool-update tasks served next next (some u) (omega arith)),
      )

      empty_handed : Balanced b u
      empty_handed n = ground (
        arith,
        ap (receipts n) no_log,
        ap (answers n) no_log,
        ap (λ t. count n (seqs b.free_req.cells (reqs t))) no_tasks,
      )

  -- What a change of the registry leaves as it was.
  pub rebase-Shared :
      (b b' : BasicServer) (served : ℕ → Option V) (next : ℕ)
      → b'.free_req ≡ b.free_req
      → Shared b served next
      → Shared b' served next
  rebase-Shared b b' served next e s = record {
    fresh = s.fresh;
    free = s.free;
    owned = rw e s.owned;
    balanced = λ i v h. rw e (s.balanced i v h);
  }
