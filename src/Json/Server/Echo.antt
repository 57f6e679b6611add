-- ===== src/Json/Server/Echo.antt =====
-- jsonrpc/server.go: every response carries the id of its own request, in whatever order responses
-- are written.
use birpc.Base.{
  ℕ, ◌+◌, ◌^◌, ◌≤◌, ◌<◌, ◌≡◌, ◌≢◌, refl, Option, none, some, List, [], ◌∷◌, arith, nat_Eq, length,
}
use birpc.Base.Text.{Text, codes}
use birpc.Base.Dict.{get, get-put, get-delete}
use birpc.Json.{Decoded, decoded, undecodable, ServerRequest, Json}
use birpc.Json.Server.{
  JsonServer, read_request_header, read_request_body, write_response, response_of,
}
use birpc.Wire.{Response, Value, plain_error, zero_request, u64}

-- The server reads a header or a body, or writes a response.
pub data Op : Type 0 where
  reads_header : Op
  reads_body : Value → Op
  writes : Response → Value → Op

-- no response for the number
abbrev pub Spares : ℕ → List Op → Type 0
Spares n [] = Unit {0}
Spares n (reads_header ∷ os) = Spares n os
Spares n (reads_body x ∷ os) = Spares n os
Spares n (writes r x ∷ os) = (r.seq ≢ n) × Spares n os

-- Numbers in the map have been given out.
abbrev pub Known : JsonServer → Type 0
Known c = (n : ℕ) (b : Option Text) → get n c.pending ≡ some b → (0 < n) × (n ≤ c.seq)

header_keeps :
    (c : JsonServer) (incoming : List (Decoded ServerRequest)) (n : ℕ) (b : Option Text)
    → c.incoming ≡ incoming
    → c.seq + 1 < 2 ^ 64
    → n ≤ c.seq
    → get n c.pending ≡ some b
    → (get n (read_request_header c zero_request).0.pending ≡ some b)
      × (n ≤ (read_request_header c zero_request).0.seq)
unfolding read_request_header
header_keeps c [] n b i h le g = ground (arith, i, g)
header_keeps c (undecodable e ∷ rest) n b i h le g = ground (arith, i, g)
header_keeps c (decoded q ∷ rest) n b i h le g =
    ground (arith, i, g, get-put (u64 (c.seq + 1)) n q.id c.pending)

module _ (json : Json) where
  unfoldable pub step : JsonServer → Op → JsonServer
  step c reads_header = (read_request_header c zero_request).0
  step c (reads_body x) = (read_request_body json c x).0
  step c (writes r x) = (write_response json c r x).0

  unfoldable pub run : JsonServer → List Op → JsonServer
  run c [] = c
  run c (o ∷ os) = run (step c o) os

  body_keeps : (c : JsonServer) (x : Value) → (read_request_body json c x).0 ≡ c
  unfolding read_request_body
  body_keeps c x = ground arith

  step-seq-le : (c : JsonServer) (o : Op) → c.seq + 1 < 2 ^ 64 → (step c o).seq ≤ c.seq + 1
  unfolding step read_request_header write_response
  step-seq-le c reads_header h = ground arith
  step-seq-le c (reads_body x) h = ground (arith, body_keeps c x)
  step-seq-le c (writes r x) h = ground arith

  -- Neither a new number nor a response for another number touches the id under a number.
  step_keeps :
      (c : JsonServer) (o : Op) (n : ℕ) (b : Option Text)
      → c.seq + 1 < 2 ^ 64
      → n ≤ c.seq
      → Spares n (o ∷ [])
      → get n c.pending ≡ some b
      → (get n (step c o).pending ≡ some b) × (n ≤ (step c o).seq)
  unfolding step read_request_header write_response
  step_keeps c reads_header n b h le s g = header_keeps c c.incoming n b refl h le g
  step_keeps c (reads_body x) n b h le s g = ground (arith, body_keeps c x)
  step_keeps c (writes r x) n b h le s g = ground (arith, get-delete r.seq n c.pending, s.0)

  Spares-head : (n : ℕ) (o : Op) (os : List Op) → Spares n (o ∷ os) → Spares n (o ∷ [])
  Spares-head n reads_header os s = tt
  Spares-head n (reads_body x) os s = tt
  Spares-head n (writes r x) os s = (s.0, tt)

  Spares-tail : (n : ℕ) (o : Op) (os : List Op) → Spares n (o ∷ os) → Spares n os
  Spares-tail n reads_header os s = s
  Spares-tail n (reads_body x) os s = s
  Spares-tail n (writes r x) os s = s.1

  run_keeps :
      (c : JsonServer) (os : List Op) (n : ℕ) (b : Option Text)
      → c.seq + length os < 2 ^ 64
      → n ≤ c.seq
      → Spares n os
      → get n c.pending ≡ some b
      → get n (run c os).pending ≡ some b
  unfolding run
  run_keeps c [] n b h le s g = g
  run_keeps c (o ∷ os) n b h le s g =
      let small : c.seq + 1 < 2 ^ 64 = omega arith in
      let grown = step-seq-le c o small in
      let (kept, le') = step_keeps c o n b small le (Spares-head n o os s) g in
      run_keeps (step c o) os n b (omega (arith, grown)) le' (Spares-tail n o os s) kept

  -- A request that is read gets a number; whatever is read and answered after it, other requests
  -- only, the response to that number carries the id of that request, null if it had none, and a
  -- second response to it is refused and sends nothing. The numbers must not run out of 64 bits,
  -- and Encode must take the response.
  pub response_echoes_id :
      (c : JsonServer) (q : ServerRequest) (rest : List (Decoded ServerRequest)) (os : List Op)
      (r : Response) (x y : Value)
      → c.incoming ≡ decoded q ∷ rest
      → c.seq + 1 + length os < 2 ^ 64
      → r.seq ≡ (read_request_header c zero_request).1.seq
      → Spares r.seq os
      → json.encode_response (response_of json q.id r.error x) ≡ none
      → let c₁ = run (read_request_header c zero_request).0 os in
        let (c₂, e) = write_response json c₁ r x in
        (e ≡ none)
        × (c₂.sent ≡ response_of json q.id r.error x ∷ c₁.sent)
        × (write_response json c₂ r y
            ≡ (c₂, some (plain_error (codes "invalid sequence number in response"))))
  unfolding read_request_header write_response
  response_echoes_id c q rest os r x y i small e s enc =
      let n : ℕ = u64 (c.seq + 1) in
      let next : n ≡ c.seq + 1 = omega arith in
      let c₀ : JsonServer = (read_request_header c zero_request).0 in
      let stored : get r.seq c₀.pending ≡ some q.id =
        ground (arith, i, e, get-put n n q.id c.pending) in
      let grown : c₀.seq ≡ c.seq + 1 = ground (arith, i, next) in
      let number : r.seq ≡ c.seq + 1 = ground (arith, i, e, next) in
      let kept =
        run_keeps c₀ os r.seq q.id (omega (arith, grown)) (omega (arith, grown, number)) s stored in
      let gone = get-delete r.seq r.seq (run c₀ os).pending in
      (ground (arith, kept, enc), ground (arith, kept, enc), ground (arith, kept, enc, gone))
