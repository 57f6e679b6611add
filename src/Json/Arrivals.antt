-- ===== src/Json/Arrivals.antt =====
-- client.go, jsonrpc/client.go: a request that the client's codec writes, and a response that it reads.
use birpc.Base.{
  ℕ, ◌<◌, ◌^◌, ◌≡◌, ◌≢◌, refl, ap, ◌∙◌, Option, none, some, List, [], ◌∷◌, false, arith,
  nat_eq_refl, nat_Eq, count, length,
}
use birpc.Base.Text.{Text}
use birpc.Base.Dict.{get, delete}
use birpc.Client.{Client, Channel, reading, handling, new_client, take_response, body_target}
use birpc.Client.Answers.{replied, reply_delivered, error_delivered}
use birpc.Client.Invariant.{Inv}
use birpc.Client.Moves.{Event, hears, handles}
use birpc.Client.Moves
use birpc.ClientCodec.{
  ClientCodec, Link, Op, headers, bodies, writes, on_headers, on_bodies, on_writes, perform, step,
  run, new_client_with_codec,
}
use birpc.ClientCodec.Links.{run-link}
use birpc.Json.{Json, Decoded, decoded, ClientRequest, ClientResponse, no_value, text_value}
use birpc.Json.Client.{
  JsonClient, json_client_codec, new_client_codec, read_response_header, read_response_body,
  write_request, error_of,
}
use birpc.Wire.{Response, Value, nil_value, Err, server_error}

-- the message of a call
abbrev pub call_request : Client → ℕ → ClientRequest
call_request c p = record {
  method = (c.calls p).service_method;
  params = (c.calls p).args;
  id = (c.calls p).seq;
}

module _ (json : Json)
    (shut : List (Decoded ClientResponse) → List (Decoded ClientResponse) × Option Err) where
  abbrev pub codec : ClientCodec JsonClient
  codec = json_client_codec json shut

  -- The write of a call puts its message on the connection.
  pub writes-sent :
      (u : Link JsonClient) (p : ℕ)
      → Inv u.client
      → u.crashed ≡ false
      → u.client.sending ≡ some p
      → json.encode_request (call_request u.client p) ≡ none
      → (step codec u writes).codec.sent ≡ call_request u.client p ∷ u.codec.sent
  unfolding step perform on_writes write_request
  writes-sent u p v up s enc =
      let same = v.writes p s in rw (up, s, same.1, same.2) (rw (enc, write_request) refl)

  headers-client :
      (u : Link JsonClient) (m : ClientResponse) (rest : List (Decoded ClientResponse)) (t : Text)
      → u.crashed ≡ false
      → u.client.input ≡ reading
      → u.codec.incoming ≡ decoded m ∷ rest
      → error_of m.result m.error ≡ (t, none)
      → let u' = step codec u headers in
        (u'.crashed ≡ false)
        × (u'.client ≡ Moves.step u.client (hears (record { seq = m.id; error = t; next = none })))
        × (u'.codec.resp ≡ m)
  unfolding step perform on_headers read_response_header Moves.step
  headers-client u m rest t up i inc e =
      (ground (arith, up, i, inc, e), ground (arith, up, i, inc, e), ground (arith, up, i, inc, e))

  error_of-text :
      (o : Option Text) (x : ℕ) (t : Text) → error_of o (text_value (x ∷ t)) ≡ (x ∷ t, none)
  unfolding error_of
  error_of-text none x t = refl
  error_of-text (some y) x t = refl

  bodies-client :
      (u : Link JsonClient) (r : Response) (o : Option ℕ) (v : Value)
      → u.crashed ≡ false
      → u.client.input ≡ handling o r
      → read_response_body json u.codec (body_target u.client o r.error) ≡ some (v, none)
      → (step codec u bodies).client ≡ Moves.step u.client (handles none v)
  unfolding step perform on_bodies Moves.step
  bodies-client u r o v up i b = ground (arith, up, i, b)

  body_read :
      (c : JsonClient) (t : Text) (x : Value)
      → c.resp.result ≡ some t
      → x ≢ nil_value
      → read_response_body json c x ≡ some (json.unmarshal t x)
  unfolding read_response_body
  body_read c t nil_value h live = absurd (live refl)
  body_read c t x h live = rw h refl

  -- The two steps of input on a response that is for a pending call, and whose body can be read.
  response_steps :
      (u : Link JsonClient) (m : ClientResponse) (rest : List (Decoded ClientResponse)) (t : Text)
      (p : ℕ) (v : Value)
      → u.crashed ≡ false
      → u.client.input ≡ reading
      → u.codec.incoming ≡ decoded m ∷ rest
      → error_of m.result m.error ≡ (t, none)
      → get m.id u.client.pending ≡ some p
      → ((c : JsonClient)
          → c.resp ≡ m
          → read_response_body json c (body_target u.client (some p) t) ≡ some (v, none))
      → (step codec (step codec u headers) bodies).client
        ≡ Moves.step
            (Moves.step u.client (hears (record { seq = m.id; error = t; next = none })))
            (handles none v)
  unfolding Moves.step take_response
  response_steps u m rest t p v up i inc e g body =
      let r : Response = record { seq = m.id; error = t; next = none } in
      let (alive, client, resp) = headers-client u m rest t up i inc e in
      let heard : Moves.step u.client (hears r) ≡ record u.client {
        input = handling (some p) r;
        pending = delete m.id u.client.pending;
      } =
        ground (arith, i, g) in
      let same = client ∙ heard in
      bodies-client (step codec u headers) r (some p) v alive (ap (λ c. c.input) same) (
        ap (λ c. read_response_body json (step codec u headers).codec (body_target c (some p) t))
          same
        ∙ body (step codec u headers).codec resp)
      ∙ ap (λ c. Moves.step c (handles none v)) client

  -- the client after a run of its steps over a connection that brings `incoming`
  abbrev pub client_after :
      List (Decoded ClientResponse) → (ℕ → Channel) → List Op → Link JsonClient
  client_after incoming channels os =
      run codec (new_client_with_codec (new_client_codec incoming) channels) os

  -- its Client made as few steps
  pub client_reached :
      (incoming : List (Decoded ClientResponse)) (channels : ℕ → Channel) (os : List Op)
      → length os < 2 ^ 64
      → (es : List Event) × (length es < 2 ^ 64)
        × ((client_after incoming channels os).client ≡ Moves.run (new_client channels) es)
  unfolding new_client_with_codec
  client_reached incoming channels os small =
      let (es, few, same) =
        run-link codec (new_client_with_codec (new_client_codec incoming) channels) os in
      (es, omega (arith, few), same)

  pub reply_arrives :
      (incoming : List (Decoded ClientResponse)) (channels : ℕ → Channel) (os : List Op)
      (m : ClientResponse) (rest : List (Decoded ClientResponse)) (t : Text) (p : ℕ) (got : Value)
      → length os < 2 ^ 64
      → (client_after incoming channels os).crashed ≡ false
      → (client_after incoming channels os).client.input ≡ reading
      → (client_after incoming channels os).codec.incoming ≡ decoded m ∷ rest
      → m.result ≡ some t
      → m.error ≡ no_value
      → get m.id (client_after incoming channels os).client.pending ≡ some p
      → ((client_after incoming channels os).client.calls p).reply ≢ nil_value
      → json.unmarshal t ((client_after incoming channels os).client.calls p).reply ≡ (got, none)
      → let u = client_after incoming channels os in
        let w = (step codec (step codec u headers) bodies).client in
        (w.calls p ≡ replied (u.client.calls p) got) × (count p w.signals ≡ 1)
  unfolding error_of
  reply_arrives incoming channels os m rest t p got small up i inc res err g live un =
      let u = client_after incoming channels os in
      let (es, few, same) = client_reached incoming channels os small in
      let moved = response_steps u m rest [] p got up i inc (rw (res, err) refl) g (λ c h.
        body_read c t (u.client.calls p).reply (ap (λ (k : ClientResponse). k.result) h ∙ res) live
        ∙ ap some un) in
      let r : Response = record { seq = m.id; error = []; next = none } in
      let d = reply_delivered channels es r got p p few (rw⁻¹ same i) (rw⁻¹ same g) refl in
      let to = moved ∙ ap (λ c. Moves.step (Moves.step c (hears r)) (handles none got)) same in
      let self = nat_eq_refl p in
      (
        ap (λ c. c.calls p) to ∙ d.1 ∙ rw (self, same) refl,
        ap (λ c. count p c.signals) to ∙ ground (arith, d.3, d.2, self),
      )

  pub error_arrives :
      (incoming : List (Decoded ClientResponse)) (channels : ℕ → Channel) (os : List Op)
      (m : ClientResponse) (rest : List (Decoded ClientResponse)) (x : ℕ) (text : Text) (p : ℕ)
      → length os < 2 ^ 64
      → (client_after incoming channels os).crashed ≡ false
      → (client_after incoming channels os).client.input ≡ reading
      → (client_after incoming channels os).codec.incoming ≡ decoded m ∷ rest
      → m.error ≡ text_value (x ∷ text)
      → get m.id (client_after incoming channels os).client.pending ≡ some p
      → let u = client_after incoming channels os in
        let w = (step codec (step codec u headers) bodies).client in
        (w.calls p ≡ record (u.client.calls p) { error = some (server_error (x ∷ text)) })
        × (count p w.signals ≡ 1)
  unfolding read_response_body
  error_arrives incoming channels os m rest x text p small up i inc err g =
      let u = client_after incoming channels os in
      let (es, few, same) = client_reached incoming channels os small in
      let moved =
        response_steps u m rest (x ∷ text) p nil_value up i inc
          (ap (error_of m.result) err ∙ error_of-text m.result x text) g (λ c h. refl) in
      let r : Response = record { seq = m.id; error = x ∷ text; next = none } in
      let d =
        error_delivered channels es r nil_value p p x text few (rw⁻¹ same i) (rw⁻¹ same g) refl in
      let to =
        moved ∙ ap (λ c. Moves.step (Moves.step c (hears r)) (handles none nil_value)) same in
      let self = nat_eq_refl p in
      (
        ap (λ c. c.calls p) to ∙ d.1 ∙ rw (self, same) refl,
        ap (λ c. count p c.signals) to ∙ ground (arith, d.3, d.2, self),
      )
