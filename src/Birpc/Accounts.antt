-- ===== src/Birpc/Accounts.antt =====
-- birpc_client.go: each step of a connection, and the account of requests and responses.
use birpc.Base.{
  Bool, true, false, ℕ, ◌+◌, ◌<◌, ◌++◌, ◌∙◌, ◌≡◌, refl, sym, Option, none, some, List, [], ◌∷◌,
  true, false, arith, count, update, Option-cases, inl, inr,
}
use mathlib.Core.Path.{subst}
use birpc.Base.Text.{Text}
use birpc.BasicServer.{BasicServer, get_request, get_service, free_request}
use birpc.Birpc.{
  BirpcCodec, BirpcClient, write_half, read_argument, read_request, read_response, dispatch, route,
  input_header,
}
use birpc.Birpc.Steps.{
  Stage, looping, waiting, notified, ended, Session, Op, headers, bodies, writes, ends_pending,
  joins, finishes, begins, ends, shuts, acts, on_shuts, serving_of, on_headers, on_bodies,
  on_writes, on_closes, on_acts, on_ends_pending, on_joins, on_finishes, perform,
}
use birpc.Client.{Client, Input, reading, handling, failing, stopped, close}
use birpc.Client.Moves.{
  Event, goes, sends, wrote, hears, hears_error, handles, terminates, abandons, closes,
}
use birpc.FreeList.{Request-Linked}
use birpc.FreeList.Chain.{rest}
use birpc.FreeList.Ownership.{Inv-held, release-Inv}
use birpc.FreeList.Ownership
use birpc.Server.{Conn, Task, Read, seq_of, read_header, received}
use birpc.Server.Accounts.{
  Accounts, Rest, is_refused, is_accepted, reqs, seqs, seqs-release, read_header-owned,
  read_header-balanced, read_header-framed, release-seq,
}
use birpc.Server.Kept
use birpc.Server.Accounts
use birpc.Server.Kept.{on_read-Ok, on_begin-Ok, on_end-Ok}
use birpc.Server.Steps.{Serving, on_read, on_begin, on_end, pick}
use birpc.Server.Steps
use birpc.Service.{Service, Result-cases, get_argv}
use birpc.Service.Types.{MethodType}
use birpc.Wire.{Response, Err, zero_response}

module _ {C : Type 0} (codec : BirpcCodec C) where
  argument-Rest :
      (c : Conn C) (req : ℕ) (svc : Service) (mtype : MethodType)
      → Rest (write_half codec) c req (read_argument codec c req svc mtype)
  unfolding read_argument
  argument-Rest c req svc mtype =
      elim (Option-cases (codec.read_request_body c.codec (get_argv mtype).0).2) [
        | inl e ↦ rw (e, read_argument) (is_accepted _ _ refl)
        | inr (x, e) ↦ rw (e, read_argument) (is_refused _ x)
      ]

  read_request-Rest :
      (c : Conn C) (req : ℕ) → Rest (write_half codec) c req (read_request codec c req)
  unfolding read_request
  read_request-Rest c req =
      elim (Result-cases (get_service c.server (c.server.free_req.cells req).service_method)) [
        | inl (e, g) ↦ rw (g, read_request) (is_refused _ _)
        | inr ((svc, mtype), g) ↦
            rw (g, read_request) (unfold read_argument in argument-Rest c req svc mtype)
      ]

  -- What the loop does with a request is what ServeCodec does with one that it could read.
  dispatch-on_read :
      (b : BirpcClient C) (c : Conn C) (req : ℕ) (r : Conn C × Read)
      → Rest (write_half codec) c req r
      → serving_of (dispatch codec b r) ≡ on_read (write_half codec) (serving_of b) r
  unfolding on_read
  dispatch-on_read b c req r (is_refused k e) = refl
  dispatch-on_read b c req r (is_accepted k t e) = refl

-- The account of a connection whose server is shared: others hold the objects `fs`, which have the
-- numbers `ms`.
module _ {C : Type 0} (codec : BirpcCodec C) (fs : List ℕ) (ms : ℕ → ℕ) where
  abbrev pub Ok : BirpcClient C → Type 0
  Ok b = Kept.Ok (write_half codec) fs ms (serving_of b)

  -- the numbers of the others' objects
  abbrev Framed : Conn C → Type 0
  Framed c = (q : ℕ) → 0 < count q fs → (c.server.free_req.cells q).seq ≡ ms q

  -- A response takes its request object back to the free list.
  free-Ok :
      (b : BirpcClient C) (ps : List ℕ) (req : ℕ)
      → Ownership.Inv
          (record { free = b.conn.server.free_req; held = req ∷ (reqs b.tasks ++ fs) })
          ps
      → ((n : ℕ)
          → Accounts.receipts n b.conn.log
            ≡ Accounts.answers n b.conn.log
              + count n (seqs b.conn.server.free_req.cells (reqs b.tasks)))
      → Framed b.conn
      → Ok (record b { conn = record b.conn { server = free_request req b.conn.server } })
  unfolding free_request
  free-Ok b ps req owned balanced framed = (
    req ∷ ps,
    record {
      owned =
          release-Inv b.conn.server.free_req (req ∷ (reqs b.tasks ++ fs)) (reqs b.tasks ++ fs) ps
            req (λ q. omega arith) owned;
      balanced =
          λ n. ground (arith, balanced n, seqs-release b.conn.server.free_req req (reqs b.tasks));
      framed = λ q h. release-seq b.conn.server.free_req req q ∙ framed q h;
    },
  )

  -- A message whose header was read, with its object held and nothing else changed.
  route-Ok :
      (b : BirpcClient C) (ps : List ℕ) (req : ℕ) (m : Text) (resp : Response)
      → Ownership.Inv
          (record { free = b.conn.server.free_req; held = req ∷ (reqs b.tasks ++ fs) })
          ps
      → ((n : ℕ)
          → Accounts.receipts n b.conn.log
            ≡ Accounts.answers n b.conn.log
              + count n (seqs b.conn.server.free_req.cells (reqs b.tasks)))
      → Framed b.conn
      → Ok (route codec b req m resp)
  unfolding route
  route-Ok b ps req [] resp owned balanced framed = free-Ok b ps req owned balanced framed
  route-Ok b ps req (x ∷ s) resp owned balanced framed =
      let c : Conn C = record b.conn { log = received (seq_of b.conn req) ∷ b.conn.log } in
      let known = read_request-Rest codec c req in
      subst (Kept.Ok (write_half codec) fs ms)
        (sym (dispatch-on_read codec b c req (read_request codec c req) known))
        (on_read-Ok (write_half codec) fs ms (serving_of b) c req ps _
          (record { owned = owned; balanced = λ n. ground (arith, balanced n); framed = framed })
          known)

  input_header-Ok : (b : BirpcClient C) → Ok b → Ok (input_header codec b)
  unfolding input_header read_header
  input_header-Ok b (ps, a) =
      let (req, s₁) = get_request b.conn.server in
      let (k, r, resp, e) = codec.read_header b.conn.codec (s₁.free_req.cells req) zero_response in
      let s₂ : BasicServer = record s₁ {
        free_req = record s₁.free_req { cells = update s₁.free_req.cells req r };
      } in
      let c : Conn C = record b.conn { server = s₂; codec = k } in
      let owned = read_header-owned (write_half codec) fs ms b.conn (reqs b.tasks) ps a in
      let framed = λ (q : ℕ) (h : 0 < count q fs).
        read_header-framed (write_half codec) fs ms b.conn (reqs b.tasks) ps q h a in
      let balanced =
        λ (n : ℕ). read_header-balanced (write_half codec) fs ms b.conn (reqs b.tasks) ps n a in
      elim (Option-cases e) [
        | inl p ↦
            rw (p, input_header)
              (route-Ok (record b { conn = c }) (rest ps) req r.service_method resp owned balanced
                framed)
        | inr (x, p) ↦
            rw (p, input_header)
              (
                rest ps,
                record {
                  owned =
                      Inv-held s₂.free_req (req ∷ (reqs b.tasks ++ fs)) (reqs b.tasks ++ fs)
                        (rest ps) (λ q. ground arith) owned;
                  balanced = balanced;
                  framed = framed;
                },
              )
      ]

  -- Other codec, pending calls or clock, the same accounts.
  same-Ok :
      (c c' : Conn C) (ts : List Task)
      → c'.server.free_req ≡ c.server.free_req
      → c'.log ≡ c.log
      → (ps : List ℕ) × Accounts fs ms c (reqs ts) ps
      → (ps : List ℕ) × Accounts fs ms c' (reqs ts) ps
  same-Ok c c' ts f l (ps, a) = (
    ps,
    record {
      owned = rw f a.owned;
      balanced = λ n. ground (arith, f, l, a.balanced n);
      framed = λ q h. rw f (a.framed q h);
    },
  )

  on_headers-Ok : (i : Input) (s : Session C) → Ok s.link → Ok (on_headers codec i s).link
  unfolding on_headers
  on_headers-Ok reading s h = input_header-Ok s.link h
  on_headers-Ok (handling o r) s h = h
  on_headers-Ok (failing e) s h = h
  on_headers-Ok stopped s h = h

  on_bodies-Ok : (i : Input) (s : Session C) → Ok s.link → Ok (on_bodies codec i s).link
  unfolding on_bodies read_response
  on_bodies-Ok reading s h = h
  on_bodies-Ok (handling o r) s h = same-Ok s.link.conn _ s.link.tasks refl refl h
  on_bodies-Ok (failing e) s h = h
  on_bodies-Ok stopped s h = h

  on_writes-Ok : (o : Option ℕ) (s : Session C) → Ok s.link → Ok (on_writes codec o s).link
  unfolding on_writes
  on_writes-Ok none s h = h
  on_writes-Ok (some p) s h = same-Ok s.link.conn _ s.link.tasks refl refl h

  on_closes-Ok :
      (c : Client) (e : Option Err) (s : Session C) → Ok s.link → Ok (on_closes codec (c, e) s).link
  unfolding on_closes
  on_closes-Ok c none s h = same-Ok s.link.conn _ s.link.tasks refl refl h
  on_closes-Ok c (some e) s h = same-Ok s.link.conn _ s.link.tasks refl refl h

  on_shuts-Ok : (b : Bool) (s : Session C) → Ok s.link → Ok (on_shuts codec b s).link
  unfolding on_shuts
  on_shuts-Ok true s h = same-Ok s.link.conn _ s.link.tasks refl refl h
  on_shuts-Ok false s h = h

  on_acts-Ok : (e : Event) (s : Session C) → Ok s.link → Ok (on_acts codec e s).link
  unfolding on_acts
  on_acts-Ok (goes m args reply ch) s h = same-Ok s.link.conn _ s.link.tasks refl refl h
  on_acts-Ok (sends p) s h = same-Ok s.link.conn _ s.link.tasks refl refl h
  on_acts-Ok (abandons p) s h = same-Ok s.link.conn _ s.link.tasks refl refl h
  on_acts-Ok closes s h = let (c, e) = close s.link.client in on_closes-Ok c e s h
  on_acts-Ok (wrote e) s h = h
  on_acts-Ok (hears r) s h = h
  on_acts-Ok (hears_error e) s h = h
  on_acts-Ok (handles e v) s h = h
  on_acts-Ok terminates s h = h

  on_ends_pending-Ok :
      (i : Input) (o : Option ℕ) (s : Session C) → Ok s.link → Ok (on_ends_pending codec i o s).link
  unfolding on_ends_pending
  on_ends_pending-Ok (failing e) none s h = same-Ok s.link.conn _ s.link.tasks refl refl h
  on_ends_pending-Ok (failing e) (some p) s h = h
  on_ends_pending-Ok reading o s h = h
  on_ends_pending-Ok (handling q r) o s h = h
  on_ends_pending-Ok stopped o s h = h

  on_joins-Ok :
      (g : Stage) (ts : List Task) (s : Session C) → Ok s.link → Ok (on_joins codec g ts s).link
  unfolding on_joins
  on_joins-Ok (waiting b) [] s h = h
  on_joins-Ok (waiting b) (t ∷ ts) s h = h
  on_joins-Ok looping ts s h = h
  on_joins-Ok (notified b) ts s h = h
  on_joins-Ok (ended b) ts s h = h

  on_finishes-Ok : (g : Stage) (s : Session C) → Ok s.link → Ok (on_finishes codec g s).link
  unfolding on_finishes
  on_finishes-Ok (notified true) s h = same-Ok s.link.conn _ s.link.tasks refl refl h
  on_finishes-Ok (notified false) s h = same-Ok s.link.conn _ s.link.tasks refl refl h
  on_finishes-Ok (waiting b) s h = h
  on_finishes-Ok looping s h = h
  on_finishes-Ok (ended b) s h = h

  begins-Ok :
      (b : BirpcClient C) (i : ℕ)
      → Ok b
      → Kept.Ok
          (write_half codec)
          fs
          ms
          (Steps.step (write_half codec) (serving_of b) (Steps.begins i))
  unfolding Steps.step
  begins-Ok b i h = elim (Option-cases (pick i b.tasks)) [
    | inl p ↦ rw (p, Steps.step) h
    | inr ((t, ts), p) ↦
        rw (p, Steps.step)
          (unfold on_begin in on_begin-Ok (write_half codec) fs ms (serving_of b) i t ts p h)
  ]

  ends-Ok :
      (b : BirpcClient C) (i : ℕ)
      → Ok b
      → Kept.Ok
          (write_half codec)
          fs
          ms
          (Steps.step (write_half codec) (serving_of b) (Steps.ends i))
  unfolding Steps.step
  ends-Ok b i h = elim (Option-cases (pick i b.tasks)) [
    | inl p ↦ rw (p, Steps.step) h
    | inr ((t, ts), p) ↦
        rw (p, Steps.step)
          (unfold on_end in on_end-Ok (write_half codec) fs ms (serving_of b) i t ts p h)
  ]

  pub perform-Ok : (s : Session C) (o : Op) → Ok s.link → Ok (perform codec s o).link
  unfolding perform
  perform-Ok s headers h = on_headers-Ok s.link.client.input s h
  perform-Ok s bodies h = on_bodies-Ok s.link.client.input s h
  perform-Ok s writes h = on_writes-Ok s.link.client.sending s h
  perform-Ok s (begins i) h = begins-Ok s.link i h
  perform-Ok s (ends i) h = ends-Ok s.link i h
  perform-Ok s ends_pending h = on_ends_pending-Ok s.link.client.input s.link.client.sending s h
  perform-Ok s joins h = on_joins-Ok s.stage s.link.tasks s h
  perform-Ok s finishes h = on_finishes-Ok s.stage s h
  perform-Ok s shuts h = on_shuts-Ok s.in_close s h
  perform-Ok s (acts e) h = on_acts-Ok e s h
