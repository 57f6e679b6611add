-- ===== src/Json/Client/Advancing.antt =====
-- client.go over jsonrpc/client.go: every step of a client, by its turn.
use birpc.Base.{
  ℕ, ◌≤◌, ◌≡◌, inl, inr, refl, ap, Option, none, some, List, [], ◌∷◌, Bool, true, false, arith,
  length, if◌then◌else◌, Option-cases, Bool-cases, nat_Eq,
}
use birpc.Base.Text.{Text}
use birpc.Client.{
  Client, Input, reading, handling, failing, stopped, close, body_target, take_response,
}
use birpc.Client.Closing.{goes-Keeps, sends-Keeps, abandons-Keeps, send_end-Keeps}
use birpc.Client.Ending.{terminate-stops}
use birpc.Client.Moves.{
  Event, goes, sends, wrote, hears, hears_error, handles, terminates, abandons, closes,
}
use birpc.Client.Moves
use birpc.ClientCodec.{
  ClientCodec, Link, Op, headers, bodies, writes, ends_pending, acts, on_headers, on_bodies,
  on_writes, on_ends_pending, on_closes, on_shuts, shuts, on_acts, perform,
}
use birpc.Json.{Decoded, ClientResponse, Json}
use birpc.Json.Client.{
  JsonClient, json_client_codec, read_response_header, read_response_body, write_request,
}
use birpc.Json.Client.Headers.{header_result}
use birpc.Wire.{Request, Response, Value, Err, nil_value, zero_response}
use birpc.Json.Client.Ending.{
  is_over, next_turn, turn, Ready, Advances, Apart, idle, kept, unmoved, Apart-Advances,
  handle-next, over-Advances, not_reading, is_reading_flag, header_consumes,
}

module _ (json : Json)
    (shut : List (Decoded ClientResponse) → List (Decoded ClientResponse) × Option Err) where
  abbrev codec : ClientCodec JsonClient
  codec = json_client_codec json shut

  headers-Advances :
      (s : Link JsonClient)
      → s.client.input ≡ reading
      → s.crashed ≡ false
      → Advances false 1 s (on_headers codec reading s)
  unfolding on_headers take_response
  headers-Advances s i h =
      let (k, r, e) = read_response_header s.codec zero_response in
      elim (Option-cases e) [
        | inr (x, p) ↦ record {
          ready = record {
            sound = ground (arith, p, h);
            sync = inl (ground (arith, p));
            body = λ o r' q z. absurd (ground (arith, p, q));
          };
          last = λ z. absurd (ground (arith, i, z));
          less = inl (ground (arith, p));
        }
        | inl p ↦
            let same : read_response_header s.codec zero_response ≡ (k, r, none) =
              ap (λ x. (k, r, x)) p in
            record {
              ready = record {
                sound = ground (arith, p, h);
                sync = inr (ground (arith, p));
                body = λ o r' q z.
                    let (t, f) =
                      header_result s.codec k zero_response r s.codec.incoming refl same
                        (ground (arith, p, q, z)) in
                    (t, ground (arith, p, f));
              };
              last = λ z. absurd (ground (arith, i, z));
              less = inr (
                  ground (
                    arith,
                    p,
                    header_consumes s.codec k zero_response r s.codec.incoming refl same,
                  ));
            }
      ]

  body_sound :
      (c : JsonClient) (x : Value) (t : Text)
      → c.resp.result ≡ some t
      → (v : Value) × (e : Option Err) × (read_response_body json c x ≡ some (v, e))
  unfolding read_response_body
  body_sound c x t h = elim (Option-cases (read_response_body json c x)) [
    | inl p ↦ absurd (ground (arith, p, h))
    | inr ((v, e), p) ↦ (v, e, p)
  ]

  target_sound :
      (c : JsonClient) (d : Client) (o : Option ℕ) (error : Text)
      → (error ≡ [] → (t : Text) × (c.resp.result ≡ some t))
      → (v : Value) × (e : Option Err) × (read_response_body json c (body_target d o error)
          ≡ some (v, e))
  unfolding read_response_body
  target_sound c d none error h = (nil_value, none, refl)
  target_sound c d (some p) (x ∷ s) h = (nil_value, none, refl)
  target_sound c d (some p) [] h = let (t, f) = h refl in body_sound c (d.calls p).reply t f

  write_request-apart :
      (c : JsonClient) (r : Request) (x : Value)
      → ((write_request json c r x).0.resp ≡ c.resp)
        × (length (write_request json c r x).0.incoming ≤ length c.incoming)
  unfolding write_request
  write_request-apart c r x = (ground arith, ground arith)

  bodies-Advances :
      (s : Link JsonClient) (o : Option ℕ) (r : Response)
      → s.client.input ≡ handling o r
      → Ready false s
      → Advances true 0 s (on_bodies codec (handling o r) s)
  unfolding on_bodies
  bodies-Advances s o r i v =
      let (x, e, p) = target_sound s.codec s.client o r.error (v.body o r i) in
      let (e', q) = handle-next o r e x s.client in
      elim (Option-cases e') [
        | inl n ↦ record {
          ready = record {
            sound = ground (arith, p, v.sound);
            sync = inr (ground (arith, p, q, n));
            body = λ o r' z w. absurd (ground (arith, p, q, n, z));
          };
          last = λ z. absurd (ground (arith, i, z));
          less = inr (ground (arith, p));
        }
        | inr (y, n) ↦ record {
          ready = record {
            sound = ground (arith, p, v.sound);
            sync = inl (ground (arith, p, q, n));
            body = λ o r' z w. absurd (ground (arith, p, q, n, z));
          };
          last = λ z. absurd (ground (arith, i, z));
          less = inl (ground (arith, p, q, n));
        }
      ]

  acts-Apart : (e : Event) (s : Link JsonClient) → Apart s (on_acts codec e s)
  unfolding on_acts on_closes close
  acts-Apart (goes m args reply ch) s = kept s _ (goes-Keeps m args reply ch s.client)
  acts-Apart (sends p) s = kept s _ (sends-Keeps p s.client)
  acts-Apart (abandons p) s = kept s _ (abandons-Keeps p s.client)
  acts-Apart closes s = elim (Bool-cases s.client.closing) [
    | inl c ↦ record {
      crashed = ground (arith, c);
      input = ground (arith, c);
      resp = ground (arith, c);
      fewer = ground (arith, c);
    }
    | inr c ↦ record {
      crashed = ground (arith, c);
      input = ground (arith, c);
      resp = ground (arith, c);
      fewer = ground (arith, c);
    }
  ]
  acts-Apart (wrote e) s = idle s
  acts-Apart (hears r) s = idle s
  acts-Apart (hears_error e) s = idle s
  acts-Apart (handles e v) s = idle s
  acts-Apart terminates s = idle s

  shuts-Apart :
      (b : Bool) (s : Link JsonClient)
      → ((l : List (Decoded ClientResponse)) → length (shut l).0 ≤ length l)
      → Apart s (on_shuts codec b s)
  unfolding on_shuts
  shuts-Apart true s h = record {
    crashed = refl;
    input = refl;
    resp = refl;
    fewer = h s.codec.incoming;
  }
  shuts-Apart false s h = idle s

  writes-Apart : (o : Option ℕ) (s : Link JsonClient) → Apart s (on_writes codec o s)
  unfolding on_writes
  writes-Apart none s = idle s
  writes-Apart (some p) s =
      let (same, few) = write_request-apart s.codec s.client.request (s.client.calls p).args in
      let k = send_end-Keeps p _ s.client in
      record { crashed = refl; input = k.input; resp = same; fewer = few }

  headers-step :
      (i : Input) (b : Bool) (s : Link JsonClient)
      → s.client.input ≡ i
      → Ready b s
      → Advances false (if b then 1 else 0) s (on_headers codec i s)
  headers-step reading b s h v = rw (is_reading_flag b s h v) (headers-Advances s h v.sound)
  headers-step (handling o r) b s h v =
      let e = not_reading b s o r h v in
      unfold on_headers in rw e (Apart-Advances false s s (rw (← e) v) (idle s))
  headers-step (failing e) b s h v =
      unfold on_headers in over-Advances _ _ s s (ap is_over h) v.sound
  headers-step stopped b s h v = unfold on_headers in over-Advances _ _ s s (ap is_over h) v.sound

  bodies-step :
      (i : Input) (b : Bool) (s : Link JsonClient)
      → s.client.input ≡ i
      → Ready b s
      → Advances true 0 s (on_bodies codec i s)
  bodies-step reading b s h v =
      let e = is_reading_flag b s h v in
      unfold on_bodies in Apart-Advances true s s (rw (← e) v) (idle s)
  bodies-step (handling o r) b s h v = bodies-Advances s o r h (rw (← not_reading b s o r h v) v)
  bodies-step (failing e) b s h v = unfold on_bodies in over-Advances _ _ s s (ap is_over h) v.sound
  bodies-step stopped b s h v = unfold on_bodies in over-Advances _ _ s s (ap is_over h) v.sound

  ends_pending-step :
      (i : Input) (o : Option ℕ) (b : Bool) (s : Link JsonClient)
      → s.client.input ≡ i
      → s.client.sending ≡ o
      → Ready b s
      → Advances b 0 s (on_ends_pending codec s)
  unfolding on_ends_pending Moves.step
  ends_pending-step (failing e) none b s h k v =
      over-Advances _ _ s _ (ground (arith, h, k, terminate-stops e s.client)) v.sound
  ends_pending-step (failing e) (some p) b s h k v =
      over-Advances _ _ s _ (ground (arith, h, k)) v.sound
  ends_pending-step reading o b s h k v = Apart-Advances b s _ v (unmoved s _ (ground (arith, h)))
  ends_pending-step (handling q r) o b s h k v =
      Apart-Advances b s _ v (unmoved s _ (ground (arith, h)))
  ends_pending-step stopped o b s h k v = over-Advances _ _ s _ (ground (arith, h)) v.sound

  pub perform-Advances :
      (o : Op) (b : Bool) (s : Link JsonClient)
      → ((l : List (Decoded ClientResponse)) → length (shut l).0 ≤ length l)
      → Ready b s
      → Advances (next_turn o b) (turn o b) s (perform codec s o)
  unfolding perform
  perform-Advances headers b s h v = headers-step s.client.input b s refl v
  perform-Advances bodies b s h v = bodies-step s.client.input b s refl v
  perform-Advances writes b s h v = Apart-Advances b s _ v (writes-Apart s.client.sending s)
  perform-Advances ends_pending b s h v =
      ends_pending-step s.client.input s.client.sending b s refl refl v
  perform-Advances shuts b s h v = Apart-Advances b s _ v (shuts-Apart s.in_close s h)
  perform-Advances (acts e) b s h v = Apart-Advances b s _ v (acts-Apart e s)
