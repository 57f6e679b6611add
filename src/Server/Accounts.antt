-- ===== src/Server/Accounts.antt =====
-- server.go: every request whose header was read gets one response with its number.
use birpc.Base.{
  ℕ, zero, suc, ◌+◌, ◌≤◌, ◌<◌, ◌≡◌, refl, ◌∙◌, ◌++◌, count-append, some, List, [], ◌∷◌, arith,
  update, count, nat_eq, if◌then◌else◌, Option-cases, inl, inr,
}
use birpc.Codec.{ServerCodec}
use birpc.FreeList.{FreeList, obtain, release, Request-Linked}
use birpc.FreeList.Chain.{rest}
use birpc.FreeList.Ownership.{Shared, Inv-held, write-Inv, release-Inv, obtain-Inv, obtain-zeroed}
use birpc.FreeList.Ownership
use birpc.Service.{Result-cases, Service, get_argv}
use birpc.Service.Types.{MethodType}
use birpc.Wire.{Request, Value, Err}
use birpc.BasicServer.{get_service, get_request}
use birpc.Server.{
  Conn, Task, Entry, received, answered, Read, refuses, accepts, seq_of, read_header, read_body,
  read_rest, answer,
}
use birpc.Server.Steps.{pick}

abbrev pub receipts : ℕ → List Entry → ℕ
receipts n [] = 0
receipts n (received m ∷ l) = if nat_eq n m then suc (receipts n l) else receipts n l
receipts n (answered m ∷ l) = receipts n l

abbrev pub answers : ℕ → List Entry → ℕ
answers n [] = 0
answers n (received m ∷ l) = answers n l
answers n (answered m ∷ l) = if nat_eq n m then suc (answers n l) else answers n l

-- the request objects that the calls hold, and the numbers in them
abbrev pub reqs : List Task → List ℕ
reqs [] = []
reqs (t ∷ ts) = t.req ∷ reqs ts

abbrev pub seqs : (ℕ → Request) → List ℕ → List ℕ
seqs cells [] = []
seqs cells (p ∷ ps) = (cells p).seq ∷ seqs cells ps

-- The objects `hs` of the calls in progress are held by them alone, and for each number the headers
-- read are the responses written and the calls in progress. The server is shared: other connections
-- hold the objects `fs`, which have the numbers `ms`.
pub record Accounts {C : Type 0} (fs : List ℕ) (ms : ℕ → ℕ) (c : Conn C) (hs ps : List ℕ)
    : Type 0 where
  pub owned : Ownership.Inv (record { free = c.server.free_req; held = hs ++ fs }) ps
  pub balanced :
      (n : ℕ) → receipts n c.log ≡ answers n c.log + count n (seqs c.server.free_req.cells hs)
  pub framed : (q : ℕ) → 0 < count q fs → (c.server.free_req.cells q).seq ≡ ms q

seqs-update :
    (cells : ℕ → Request) (p : ℕ) (r : Request) (hs : List ℕ)
    → count p hs ≡ 0
    → seqs (update cells p r) hs ≡ seqs cells hs
seqs-update cells p r [] e = refl
seqs-update cells p r (h ∷ hs) e = ground (arith, seqs-update cells p r hs)

pub seqs-release :
    (f : FreeList Request) (p : ℕ) (hs : List ℕ) → seqs (release p f).cells hs ≡ seqs f.cells hs
unfolding release
seqs-release f p [] = refl
seqs-release f p (h ∷ hs) = ground (arith, seqs-release f p hs)

pub release-seq : (f : FreeList Request) (p q : ℕ) → ((release p f).cells q).seq ≡ (f.cells q).seq
unfolding release
release-seq f p q = ground arith

seqs-obtain :
    (f : FreeList Request) (r : Request) (hs : List ℕ)
    → count (obtain f).0 hs ≡ 0
    → seqs (update (obtain f).1.cells (obtain f).0 r) hs ≡ seqs f.cells hs
seqs-obtain f r [] e = refl
seqs-obtain f r (h ∷ hs) e = ground (arith, obtain-zeroed f h, seqs-obtain f r hs)

-- Taking the task at a place out of the list changes no tally.
pub pick-reqs :
    (i : ℕ) (ts us : List Task) (t : Task) (q : ℕ)
    → pick i ts ≡ some (t, us)
    → count q (t.req ∷ reqs us) ≡ count q (reqs ts)
pick-reqs i [] us t q h = cc
pick-reqs zero (x ∷ ts) us t q h = ground arith
pick-reqs (suc i) (x ∷ ts) us t q h = elim (Option-cases (pick i ts)) [
  | inl e ↦ absurd (ground (arith, e))
  | inr ((u, vs), e) ↦ ground (arith, e, pick-reqs i ts vs u q e)
]

pub pick-seqs :
    (cells : ℕ → Request) (i : ℕ) (ts us : List Task) (t : Task) (n : ℕ)
    → pick i ts ≡ some (t, us)
    → count n ((cells t.req).seq ∷ seqs cells (reqs us)) ≡ count n (seqs cells (reqs ts))
pick-seqs cells i [] us t n h = cc
pick-seqs cells zero (x ∷ ts) us t n h = ground arith
pick-seqs cells (suc i) (x ∷ ts) us t n h = elim (Option-cases (pick i ts)) [
  | inl e ↦ absurd (ground (arith, e))
  | inr ((u, vs), e) ↦ ground (arith, e, pick-seqs cells i ts vs u n e)
]

module _ {C : Type 0} (codec : ServerCodec C) where
  answer_server :
      (c : Conn C) (req : ℕ) (reply : Value) (errmsg : List ℕ)
      → (answer codec c req reply errmsg).server.free_req ≡ release req c.server.free_req
  unfolding answer
  answer_server c req reply errmsg = refl

  answer_log :
      (c : Conn C) (req : ℕ) (reply : Value) (errmsg : List ℕ)
      → (answer codec c req reply errmsg).log ≡ answered (seq_of c req) ∷ c.log
  unfolding answer
  answer_log c req reply errmsg = refl

  -- What a read that got past the header leaves behind: the codec has moved on, and the request's
  -- object goes to a refusal or to a call that has not started.
  pub data Rest (c : Conn C) (req : ℕ) : Conn C × Read → Type 0 where
    is_refused : (k : C) (e : Err) → Rest c req (record c { codec = k }, refuses req e)
    is_accepted : (k : C) (t : Task) → t.req ≡ req → Rest c req (record c { codec = k }, accepts t)

  body-Rest :
      (c : Conn C) (req : ℕ) (svc : Service) (mtype : MethodType)
      → Rest c req (read_body codec c req svc mtype)
  unfolding read_body
  body-Rest c req svc mtype =
      elim (Option-cases (codec.read_request_body c.codec (get_argv mtype).0).2) [
        | inl e ↦ rw (e, read_body) (is_accepted _ _ refl)
        | inr (x, e) ↦ rw (e, read_body) (is_refused _ x)
      ]

  pub read_rest-Rest : (c : Conn C) (req : ℕ) → Rest c req (read_rest codec c req)
  unfolding read_rest
  read_rest-Rest c req =
      elim (Result-cases (get_service c.server (c.server.free_req.cells req).service_method)) [
        | inl (e, g) ↦ rw (g, read_rest) (is_refused _ e)
        | inr ((svc, mtype), g) ↦ rw (g, read_rest) (unfold read_body in body-Rest c req svc mtype)
      ]

module _ {C : Type 0} (codec : ServerCodec C) (fs : List ℕ) (ms : ℕ → ℕ) where
  -- Answering a request moves its number from the calls to the responses and frees its object.
  pub answer-Accounts :
      (c : Conn C) (hs gs ps : List ℕ) (req : ℕ) (reply : Value) (errmsg : List ℕ)
      → ((q : ℕ) → count q (req ∷ gs) ≤ count q hs)
      → ((n : ℕ)
          → count n (seq_of c req ∷ seqs c.server.free_req.cells gs)
            ≡ count n (seqs c.server.free_req.cells hs))
      → Accounts fs ms c hs ps
      → Accounts fs ms (answer codec c req reply errmsg) gs (req ∷ ps)
  answer-Accounts c hs gs ps req reply errmsg held out a = record {
    owned = rw (answer_server codec c req reply errmsg) (
        release-Inv c.server.free_req (hs ++ fs) (gs ++ fs) ps req
          (λ q. ground (arith, held q, count-append q hs fs, count-append q gs fs)) a.owned);
    balanced = λ n. ground (
      arith,
      answer_server codec c req reply errmsg,
      answer_log codec c req reply errmsg,
      seqs-release c.server.free_req req gs,
      out n,
      a.balanced n,
    );
    framed = λ q h.
        rw (answer_server codec c req reply errmsg)
          (release-seq c.server.free_req req q ∙ a.framed q h);
  }

  -- After a header was read, its object is held, and nothing else has changed hands.
  pub read_header-owned :
      (c : Conn C) (hs ps : List ℕ)
      → Accounts fs ms c hs ps
      → let (c', req, e) = read_header codec c in
        Ownership.Inv (record { free = c'.server.free_req; held = req ∷ (hs ++ fs) }) (rest ps)
  unfolding read_header get_request Ownership.step
  read_header-owned c hs ps a =
      let (req, f) = obtain c.server.free_req in
      let r : Request = (codec.read_request_header c.codec (f.cells req)).1 in
      write-Inv f (req ∷ (hs ++ fs)) (rest ps) req r (ground arith) (
        unfold Ownership.step in
        obtain-Inv (record { free = c.server.free_req; held = hs ++ fs }) ps a.owned)

  pub read_header-balanced :
      (c : Conn C) (hs ps : List ℕ) (n : ℕ)
      → Accounts fs ms c hs ps
      → let (c', req, e) = read_header codec c in
        receipts n c'.log ≡ answers n c'.log + count n (seqs c'.server.free_req.cells hs)
  unfolding read_header get_request
  read_header-balanced c hs ps n a =
      let (req, f) = obtain c.server.free_req in
      let r : Request = (codec.read_request_header c.codec (f.cells req)).1 in
      let away = (read_header-owned c hs ps a).apart req in
      ground (arith, a.balanced n, seqs-obtain c.server.free_req r hs, away, count-append req hs fs)

  pub read_header-framed :
      (c : Conn C) (hs ps : List ℕ) (q : ℕ)
      → 0 < count q fs
      → Accounts fs ms c hs ps
      → let (c', req, e) = read_header codec c in (c'.server.free_req.cells q).seq ≡ ms q
  unfolding read_header get_request
  read_header-framed c hs ps q h a =
      let (req, f) = obtain c.server.free_req in
      let away = (read_header-owned c hs ps a).apart req in
      ground (arith, a.framed q h, obtain-zeroed c.server.free_req q, away, count-append req hs fs)
