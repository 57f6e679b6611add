-- ===== src/Server/Kept.antt =====
-- server.go: each step of ServeCodec keeps the account of requests and responses.
use birpc.Base.{
  ℕ, ◌<◌, ◌++◌, count-append, ◌≤◌, ◌≡◌, refl, some, List, ◌∷◌, arith, count, Option-cases, inl, inr,
}
use birpc.Codec.{ServerCodec}
use birpc.FreeList.{Request-Linked}
use birpc.FreeList.Chain.{rest}
use birpc.FreeList.Ownership.{Inv-held}
use birpc.Service.{Returned, invoke}
use birpc.Wire.{message, invalid_request}
use birpc.Server.{
  Conn, Task, Read, seq_of, read_header, read_request, begin_call, end_call, note_received,
  error_message,
}
use birpc.Server.Accounts.{
  reqs, seqs, Accounts, Rest, is_refused, is_accepted, read_rest-Rest, read_header-owned,
  read_header-balanced, read_header-framed, answer-Accounts, pick-reqs, pick-seqs,
}
use birpc.Server.Steps.{Serving, pick, on_read, on_begin, on_end}

-- The account of a connection whose server is shared: others hold the objects `fs`, which have the
-- numbers `ms`.
module _ {C : Type 0} (codec : ServerCodec C) (fs : List ℕ) (ms : ℕ → ℕ) where
  abbrev pub Ok : Serving C → Type 0
  Ok s = (ps : List ℕ) × Accounts fs ms s.conn (reqs s.tasks) ps

  -- With the header noted, its object held and its number counted, whatever comes of it balances.
  pub on_read-Ok :
      (s : Serving C) (c : Conn C) (req : ℕ) (ps : List ℕ) (r : Conn C × Read)
      → Accounts fs ms c (req ∷ reqs s.tasks) ps
      → Rest codec c req r
      → Ok (on_read codec s r)
  unfolding on_read
  on_read-Ok s c req ps r a (is_refused k e) = (
    req ∷ ps,
    answer-Accounts codec fs ms (record c { codec = k }) (req ∷ reqs s.tasks) (reqs s.tasks) ps req
        invalid_request (message e) (λ q. omega arith) (λ n. refl)
        (record { owned = a.owned; balanced = a.balanced; framed = a.framed }),
  )
  on_read-Ok s c req ps r a (is_accepted k t e) =
      (ps, record { owned = rw e a.owned; balanced = rw e a.balanced; framed = a.framed })

  pub read-Ok : (s : Serving C) → Ok s → Ok (on_read codec s (read_request codec s.conn))
  unfolding read_request on_read
  read-Ok s (ps, a) =
      let c₁ : Conn C = (read_header codec s.conn).0 in
      let req : ℕ = (read_header codec s.conn).1 in
      let owned = read_header-owned codec fs ms s.conn (reqs s.tasks) ps a in
      let framed = λ (q : ℕ) (h : 0 < count q fs).
        read_header-framed codec fs ms s.conn (reqs s.tasks) ps q h a in
      let balanced = λ (n : ℕ). read_header-balanced codec fs ms s.conn (reqs s.tasks) ps n a in
      elim (Option-cases (read_header codec s.conn).2) [
        | inl e ↦
            rw (e, read_request)
              (on_read-Ok s (note_received codec c₁ req) req (rest ps) _
                (record {
                  owned = owned;
                  balanced = λ n. ground (arith, balanced n);
                  framed = framed;
                })
                (read_rest-Rest codec (note_received codec c₁ req) req))
        | inr (x, e) ↦
            rw (e, read_request)
              (
                rest ps,
                record {
                  owned =
                      Inv-held c₁.server.free_req (req ∷ (reqs s.tasks ++ fs)) (reqs s.tasks ++ fs)
                        (rest ps) (λ q. ground arith) owned;
                  balanced = balanced;
                  framed = framed;
                },
              )
      ]

  -- The rest of a call changes neither what is held nor the log.
  begin_call_keeps :
      (c : Conn C) (t : Task)
      → ((begin_call codec c t).0.server ≡ c.server)
        × ((begin_call codec c t).0.log ≡ c.log)
        × ((begin_call codec c t).1.req ≡ t.req)
  unfolding begin_call
  begin_call_keeps c t = (refl, refl, refl)

  pub on_begin-Ok :
      (s : Serving C) (i : ℕ) (t : Task) (ts : List Task)
      → pick i s.tasks ≡ some (t, ts)
      → Ok s
      → Ok (on_begin codec s t ts)
  unfolding on_begin begin_call
  on_begin-Ok s i t ts h (ps, a) = elim (Option-cases t.ctx) [
    | inr (ctx, e) ↦ rw (e, on_begin) (ps, a)
    | inl e ↦
        rw (e, on_begin)
          (
            ps,
            record {
              owned =
                  Inv-held s.conn.server.free_req (reqs s.tasks ++ fs) (t.req ∷ (reqs ts ++ fs)) ps
                    (λ q. ground (
                      arith,
                      pick-reqs i s.tasks ts t q h,
                      count-append q (reqs s.tasks) fs,
                      count-append q (reqs ts) fs,
                    ))
                    a.owned;
              framed = a.framed;
              balanced = λ n.
                  ground (
                    arith,
                    a.balanced n,
                    pick-seqs s.conn.server.free_req.cells i s.tasks ts t n h,
                  );
            },
          )
  ]

  end_call-Accounts :
      (c : Conn C) (t : Task) (r : Returned) (hs gs ps : List ℕ)
      → ((q : ℕ) → count q (t.req ∷ gs) ≤ count q hs)
      → ((n : ℕ)
          → count n (seq_of c t.req ∷ seqs c.server.free_req.cells gs)
            ≡ count n (seqs c.server.free_req.cells hs))
      → Accounts fs ms c hs ps
      → Accounts fs ms (end_call codec c t r) gs (t.req ∷ ps)
  unfolding end_call
  end_call-Accounts c t r hs gs ps held out a =
      let c₁ : Conn C = record c { pending = r.pending; clock = r.clock } in
      let after =
        answer-Accounts codec fs ms c₁ hs gs ps t.req r.reply (error_message codec r.error) held out
          (record { owned = a.owned; balanced = a.balanced; framed = a.framed }) in
      record { owned = after.owned; balanced = after.balanced; framed = after.framed }

  pub on_end-Ok :
      (s : Serving C) (i : ℕ) (t : Task) (ts : List Task)
      → pick i s.tasks ≡ some (t, ts)
      → Ok s
      → Ok (on_end codec s t ts)
  unfolding on_end
  on_end-Ok s i t ts h (ps, a) = elim (Option-cases t.ctx) [
    | inl e ↦ rw (e, on_end) (ps, a)
    | inr (ctx, e) ↦
        elim (Option-cases
          (invoke t.mtype.func t.svc.rcvr ctx t.argv t.replyv s.conn.pending s.conn.clock)) [
            | inl p ↦
                rw (e, on_end)
                  (rw p (ps, record { owned = a.owned; balanced = a.balanced; framed = a.framed }))
            | inr (r, p) ↦
                rw (e, on_end)
                  (rw p (
                    t.req ∷ ps,
                    end_call-Accounts s.conn t r (reqs s.tasks) (reqs ts) ps
                        (λ q. omega (arith, pick-reqs i s.tasks ts t q h))
                        (λ n. pick-seqs s.conn.server.free_req.cells i s.tasks ts t n h) a,
                  ))
          ]
  ]
