-- ===== src/Server/Served.antt =====
-- server.go: the account of requests and responses over every schedule of ServeCodec.
use birpc.Base.{
  ℕ, ◌≤◌, ◌≡◌, refl, sym, ◌∙◌, some, List, [], ◌∷◌, Bool, true, false, arith, if◌then◌else◌,
  Option-cases, Bool-cases, inl, inr, ◌&&◌, not, ◌⊎◌,
}
use birpc.Codec.{ServerCodec}
use birpc.FreeList.{Request-Linked}
use birpc.FreeList.Chain.{Holds}
use birpc.Server.{Conn, Task, Read, stops, refuses, accepts, read_request}
use birpc.Server.Accounts.{receipts, answers}
use birpc.Server.Kept.{Ok, read-Ok, on_begin-Ok, on_end-Ok}
use birpc.Server.Steps.{
  Serving, Event, reads, begins, ends, closes, pick, on_read, on_begin, on_end, step, run, no_tasks,
}

still_reading : (a b : Bool) → (a && not b) ≡ true → a ≡ false → ⊥
still_reading a b h e = ground (arith, h, e)

module _ {C : Type 0} where
  -- The codec is closed only when no call is left, and nothing happens after that.
  abbrev pub Quiet : Serving C → Type 0
  Quiet s = s.closed ≡ true → (s.tasks ≡ []) × (s.reading ≡ false)

module _ {C : Type 0} (codec : ServerCodec C) (fs : List ℕ) (ms : ℕ → ℕ) where
  pub record Good (s : Serving C) : Type 0 where
    pub accounts : Ok codec fs ms s
    pub quiet : Quiet s

  on_read-closed : (s : Serving C) (r : Conn C × Read) → (on_read codec s r).closed ≡ s.closed
  unfolding on_read
  on_read-closed s (c, stops e) = refl
  on_read-closed s (c, refuses req e) = refl
  on_read-closed s (c, accepts t) = refl

  on_begin-closed :
      (s : Serving C) (t : Task) (ts : List Task) → (on_begin codec s t ts).closed ≡ s.closed
  unfolding on_begin
  on_begin-closed s t ts = ground arith

  on_end-closed :
      (s : Serving C) (t : Task) (ts : List Task) → (on_end codec s t ts).closed ≡ s.closed
  unfolding on_end
  on_end-closed s t ts = ground arith

  picked_open :
      (s u : Serving C) (i : ℕ) (t : Task) (ts : List Task)
      → pick i s.tasks ≡ some (t, ts)
      → u.closed ≡ s.closed
      → Quiet s
      → Quiet u
  picked_open s u i t ts p e q c = absurd (ground (arith, p, q (sym e ∙ c)))

  if-Good : (b : Bool) (s u : Serving C) → Good s → Good u → Good (if b then s else u)
  if-Good true s u g h = g
  if-Good false s u g h = h

  pub step-Good : (s : Serving C) (e : Event) → Good s → Good (step codec s e)
  unfolding step
  step-Good s reads g = elim (Bool-cases (s.reading && not s.crashed)) [
    | inr e ↦ rw (e, step) g
    | inl e ↦
        rw (e, step)
          (record {
            accounts = unfold read_request in read-Ok codec fs ms s g.accounts;
            quiet = λ c.
                absurd
                  (still_reading s.reading s.crashed e (g.quiet (sym (on_read-closed s _) ∙ c)).1);
          })
  ]
  step-Good s (begins i) g = if-Good s.crashed s _ g (elim (Option-cases (pick i s.tasks)) [
    | inl p ↦ rw p g
    | inr ((t, ts), p) ↦ rw p (record {
      accounts = unfold on_begin in on_begin-Ok codec fs ms s i t ts p g.accounts;
      quiet = picked_open s (on_begin codec s t ts) i t ts p (on_begin-closed s t ts) g.quiet;
    })
  ])
  step-Good s (ends i) g = if-Good s.crashed s _ g (elim (Option-cases (pick i s.tasks)) [
    | inl p ↦ rw p g
    | inr ((t, ts), p) ↦ rw p (record {
      accounts = unfold on_end in on_end-Ok codec fs ms s i t ts p g.accounts;
      quiet = picked_open s (on_end codec s t ts) i t ts p (on_end-closed s t ts) g.quiet;
    })
  ])
  step-Good s closes g =
      elim (Bool-cases (not s.reading && (not s.crashed && (not s.closed && no_tasks s.tasks)))) [
        | inr e ↦ rw (e, step) g
        | inl e ↦
            rw (e, step)
              (record {
                accounts = (
                  g.accounts.0,
                  record {
                    owned = g.accounts.1.owned;
                    balanced = g.accounts.1.balanced;
                    framed = g.accounts.1.framed;
                  },
                );
                quiet = λ c. ground (arith, e);
              })
      ]

  run-Good : (s : Serving C) (es : List Event) → Good s → Good (run codec s es)
  unfolding run
  run-Good s [] g = g
  run-Good s (e ∷ es) g = run-Good (step codec s e) es (step-Good s e g)

module _ {C : Type 0} (codec : ServerCodec C) where
  -- A connection that is about to be served: its server's free list is in order (as a new one is,
  -- and as every history of a server leaves it), and no request has been read.
  pub record IsFresh (s : Serving C) (ps : List ℕ) : Type 0 where
    pub free : Holds s.conn.server.free_req ps
    pub no_calls : s.tasks ≡ []
    pub no_log : s.conn.log ≡ []
    pub opened : s.closed ≡ false

  IsFresh-Good : (s : Serving C) (ps : List ℕ) → IsFresh s ps → Good codec [] (λ _. 0) s
  IsFresh-Good s ps f = record {
    accounts = (
      ps,
      record {
        owned = rw f.no_calls (record {
          listed = f.free;
          apart = λ q. omega (arith, f.free.once q);
          known = λ q h. refl;
        });
        balanced = λ n. rw (f.no_calls, f.no_log) refl;
        framed = λ q h. absurd (omega arith);
      },
    );
    quiet = λ c. absurd (ground (arith, f.opened, c));
  }

  -- On a connection that starts with no calls, an empty history and a free list in order: over
  -- every schedule of the reader loop and its calls, with any codec and any methods, for each
  -- number no more responses are sent than request headers were read with it, and once the codec
  -- is closed exactly as many.
  pub run_answered_once :
      (s : Serving C) (ps : List ℕ) (es : List Event) (n : ℕ)
      → IsFresh s ps
      → let s' = run codec s es in
        (answers n s'.conn.log ≤ receipts n s'.conn.log)
        × ((s'.closed ≡ false) ⊎ (answers n s'.conn.log ≡ receipts n s'.conn.log))
  run_answered_once s ps es n f =
      let g = run-Good codec [] (λ _. 0) s es (IsFresh-Good s ps f) in
      let balance = g.accounts.1.balanced n in
      (
        omega (arith, balance),
        elim (Bool-cases (run codec s es).closed) [
          | inr open_still ↦ inl open_still
          | inl shut ↦ inr (ground (arith, balance, (g.quiet shut).0))
        ],
      )
