-- ===== src/Client/Answers.antt =====
-- client.go, basic_client.go: what becomes of one response, and of one call that is given up.
use birpc.Base.{
  ℕ, ◌+◌, ◌^◌, ◌<◌, ◌≡◌, ◌≢◌, Option, none, some, List, [], ◌∷◌, false, arith, count, nat_eq,
  nat_Eq, if◌then◌else◌, length,
}
use birpc.Base.Text.{Text, codes}
use birpc.Base.Dict.{get, get-delete}
use birpc.Wire.{Response, Value, Err, server_error, cancel_args}
use birpc.Client.{
  Client, Channel, Call, fresh, sent, left, reading, new_client, done, go, take_response, handle,
  next_input, body_error, forget, tell_server, abandon,
}
use birpc.Client.Runs.{reached}
use birpc.Client.Moves.{Event, hears, handles, abandons, step, run}

-- what a response without an error text makes of its call
abbrev pub replied : Call → Value → Call
replied call v = record call { reply = v }

-- After a run of fewer than 2^64 steps that leaves input at the read of a header: a response that
-- carries the number of a pending call and no error text, and whose body can be read, gives that
-- call its reply, signals it, for the first time, takes it out of the map, touches no other call,
-- and input reads on.
pub reply_delivered :
    (channels : ℕ → Channel) (es : List Event) (r : Response) (v : Value) (p q : ℕ)
    → length es < 2 ^ 64
    → (run (new_client channels) es).input ≡ reading
    → get r.seq (run (new_client channels) es).pending ≡ some p
    → r.error ≡ []
    → let c = run (new_client channels) es in
      let c' = step (step c (hears r)) (handles none v) in
      ((c.calls p).seq ≡ r.seq)
      × (c'.calls q ≡ (if nat_eq p q then replied (c.calls p) v else c.calls q))
      × (count p c.signals ≡ 0)
      × (count q c'.signals ≡ count q c.signals + (if nat_eq p q then 1 else 0))
      × (get r.seq c'.pending ≡ none)
      × (c'.input ≡ reading)
unfolding step take_response handle done
reply_delivered channels es r v p q small h g e =
    let c : Client = run (new_client channels) es in
    let inv = reached channels es small in
    let gone = get-delete r.seq r.seq c.pending in
    (
      inv.keyed r.seq p g,
      ground (arith, h, g, e),
      ground (arith, h, g, inv.keyed r.seq p, inv.upper p),
      ground (arith, h, g, e),
      ground (arith, h, g, e, gone),
      ground (arith, h, g, e),
    )

-- After a run of fewer than 2^64 steps that leaves input at the read of a header: a response that
-- carries the number of a pending call and an error text, and whose body can be discarded, ends
-- that call with the text as a ServerError, keeps its reply, signals it, for the first time, and no
-- other, takes it out of the map, where it stood under its own number, changes no other call, and
-- input reads on.
pub error_delivered :
    (channels : ℕ → Channel) (es : List Event) (r : Response) (v : Value) (p q x : ℕ) (text : Text)
    → length es < 2 ^ 64
    → (run (new_client channels) es).input ≡ reading
    → get r.seq (run (new_client channels) es).pending ≡ some p
    → r.error ≡ x ∷ text
    → let c = run (new_client channels) es in
      let c' = step (step c (hears r)) (handles none v) in
      ((c.calls p).seq ≡ r.seq)
      × (c'.calls q ≡ (
          if nat_eq p q
          then record (c.calls p) { error = some (server_error (x ∷ text)) }
          else c.calls q))
      × (count p c.signals ≡ 0)
      × (count q c'.signals ≡ count q c.signals + (if nat_eq p q then 1 else 0))
      × (get r.seq c'.pending ≡ none)
      × (c'.input ≡ reading)
unfolding step take_response handle done
error_delivered channels es r v p q x text small h g e =
    let c : Client = run (new_client channels) es in
    let inv = reached channels es small in
    let gone = get-delete r.seq r.seq c.pending in
    (
      inv.keyed r.seq p g,
      ground (arith, h, g, e),
      ground (arith, h, g, e, inv.keyed r.seq p, inv.upper p),
      ground (arith, h, g, e),
      ground (arith, h, g, e, gone),
      ground (arith, h, g, e),
    )

-- Where input is at the read of a header: a response for a number that no call waits under changes
-- no call and signals none, and input reads on unless its body cannot be read.
pub stray_response :
    (c : Client) (r : Response) (e : Option Err) (v : Value)
    → c.input ≡ reading
    → get r.seq c.pending ≡ none
    → let c' = step (step c (hears r)) (handles e v) in
      (c'.calls ≡ c.calls) × (c'.signals ≡ c.signals) × (c'.input ≡ next_input (body_error e))
unfolding step take_response handle
stray_response c r e v h g = (ground (arith, h, g), ground (arith, h, g), ground (arith, h, g))

-- After a run of fewer than 2^64 steps: a call whose send has returned, given up while its number
-- is pending, on a channel with a buffer, leaves the map unsignalled, and a new call, not sent
-- yet, asks the server to cancel exactly its number, on the same channel.
pub abandon_tells :
    (channels : ℕ → Channel) (es : List Event) (p q : ℕ)
    → length es < 2 ^ 64
    → (run (new_client channels) es).phase p ≡ sent
    → get ((run (new_client channels) es).calls p).seq (run (new_client channels) es).pending
      ≡ some q
    → ((run (new_client channels) es).channels ((run (new_client channels) es).calls p).done).cap
      ≢ 0
    → let c = run (new_client channels) es in
      let c' = step c (abandons p) in
      (get (c.calls p).seq c'.pending ≡ none)
      × (c'.signals ≡ c.signals)
      × (c'.phase p ≡ left)
      × (c'.phase c.next_call ≡ fresh)
      × ((c'.calls c.next_call).service_method ≡ codes "_goRPC_.Cancel")
      × ((c'.calls c.next_call).args ≡ cancel_args (c.calls p).seq false)
      × ((c'.calls c.next_call).done ≡ (c.calls p).done)
unfolding step abandon forget tell_server go
abandon_tells channels es p q small h g room =
    let c : Client = run (new_client channels) es in
    let inv = reached channels es small in
    let pos = inv.ranged (c.calls p).seq q g in
    let old = inv.unborn p in
    let gone = get-delete (c.calls p).seq (c.calls p).seq c.pending in
    (
      ground (arith, h, g, room, pos, gone),
      ground (arith, h, g, room, pos),
      ground (arith, h, g, room, pos, old),
      ground (arith, h, g, room, pos, old),
      ground (arith, h, g, room, pos, old),
      ground (arith, h, g, room, pos, old),
      ground (arith, h, g, room, pos, old),
    )
