-- ===== src/Client/Delivery.antt =====
-- client.go, basic_client.go: what a run brings the channels of the callers.
use birpc.Base.{
  ℕ, ◌+◌, ◌^◌, ◌≤◌, ◌<◌, ◌≡◌, ◌⊎◌, refl, ap, inl, inr, Option, none, some, List, [], ◌∷◌, Bool,
  true, false, arith, count, length, nat_Eq, nat_eq_cases, if◌then◌else◌,
}
use birpc.Client.{
  Client, Channel, Phase, absent, fresh, writing, sent, left, Input, reading, handling, failing,
  stopped, new_client, close,
}
use birpc.Client.Invariant.{Inv, new_client-Inv}
use birpc.Client.Moves.{
  Event, goes, sends, wrote, hears, hears_error, handles, terminates, abandons, closes, on_sends,
  on_wrote, on_hears, on_hears_error, on_handles, on_terminates, on_abandons, step, run,
}
use birpc.Client.Runs.{step-Inv, step-seq-le, new_client-seq}
use birpc.Wire.{Err, err_shutdown}
use birpc.Client.Channels.{Held}
use birpc.Client.Holding.{
  same-Held, send_begin-Held, send_end-Held, take_response-Held, terminate-Held, handle-Held,
  unborn_silent, made-Held, abandon-Held,
}

module _ (channels : ℕ → Channel) where
  close-Held : (c : Client) → Held channels c → Held channels (close c).0
  unfolding close
  close-Held c v = split c.closing
    where
      closed : Bool → Client × Option Err
      closed b = if b then (c, some err_shutdown) else (record c { closing = true }, none)

      split : (b : Bool) → Held channels (closed b).0
      split true = v
      split false = same-Held channels c _ refl refl refl v

  step-Held : (c : Client) (e : Event) → Inv c → Held channels c → Held channels (step c e)
  unfolding step
  step-Held c (goes m args reply ch) i v =
      made-Held channels m args reply ch c (unborn_silent channels c i) v
  step-Held c (sends p) i v = split (c.phase p) c.sending
    where
      split : (ph : Phase) (o : Option ℕ) → Held channels (on_sends ph o p c)
      split fresh none = send_begin-Held channels p c v
      split fresh (some q) = v
      split absent o = v
      split writing o = v
      split sent o = v
      split left o = v
  step-Held c (wrote e) i v = split c.sending
    where
      split : (o : Option ℕ) → Held channels (on_wrote o e c)
      split none = v
      split (some p) = send_end-Held channels p e c v
  step-Held c (hears r) i v = split c.input
    where
      split : (j : Input) → Held channels (on_hears j r c)
      split reading = take_response-Held channels r c v
      split (handling o s) = v
      split (failing e) = v
      split stopped = v
  step-Held c (hears_error e) i v = split c.input
    where
      split : (j : Input) → Held channels (on_hears_error j e c)
      split reading = same-Held channels c _ refl refl refl v
      split (handling o s) = v
      split (failing x) = v
      split stopped = v
  step-Held c (handles e x) i v = split c.input
    where
      split : (j : Input) → Held channels (on_handles j e x c)
      split reading = v
      split (handling o r) = handle-Held channels o r e x c v
      split (failing y) = v
      split stopped = v
  step-Held c terminates i v = split c.input c.sending
    where
      split : (j : Input) (o : Option ℕ) → Held channels (on_terminates j o c)
      split (failing e) none = terminate-Held channels e c v
      split (failing e) (some p) = v
      split reading o = v
      split (handling q r) o = v
      split stopped o = v
  step-Held c (abandons p) i v = split (c.phase p)
    where
      split : (ph : Phase) → Held channels (on_abandons ph p c)
      split sent = abandon-Held channels p c (unborn_silent channels c i) v
      split absent = v
      split fresh = v
      split writing = v
      split left = v
  step-Held c closes i v = close-Held c v

  run-Held :
      (c : Client) (es : List Event)
      → c.seq + length es < 2 ^ 64
      → Inv c
      → Held channels c
      → Held channels (run c es)
  unfolding run
  run-Held c [] small i v = v
  run-Held c (e ∷ es) small i v =
      let here : c.seq + 1 < 2 ^ 64 = omega arith in
      let grown = step-seq-le c e here in
      run-Held (step c e) es (omega (arith, grown)) (step-Inv c e here i) (step-Held c e i v)

new_client-Held :
    (channels : ℕ → Channel)
    → ((n : ℕ) → (channels n).buffer ≡ [])
    → Held channels (new_client channels)
unfolding new_client
new_client-Held channels empty = record {
  caps = λ n. refl;
  within = λ n. omega (arith, ap (λ b. length b) (empty n));
  only = λ n p. omega (arith, ap (λ b. count p b) (empty n));
  heard = λ n p z h. ap (λ b. count p b) (empty n);
}

-- In a run of fewer than 2^64 steps on channels that are empty at first and from which nothing is
-- taken: a call's channel is never given more calls than its capacity, and unless it is full, the
-- call is in it as often as it was signalled.
pub signals_received :
    (channels : ℕ → Channel) (es : List Event) (p : ℕ)
    → ((n : ℕ) → (channels n).buffer ≡ [])
    → length es < 2 ^ 64
    → let c = run (new_client channels) es in
      let n = (c.calls p).done in
      (length (c.channels n).buffer ≤ (channels n).cap)
      × ((length (c.channels n).buffer ≡ (channels n).cap)
          ⊎ (count p (c.channels n).buffer ≡ count p c.signals))
signals_received channels es p empty small =
    let c = run (new_client channels) es in
    let n = (c.calls p).done in
    let v =
      run-Held channels (new_client channels) es (omega (arith, new_client-seq channels))
        (new_client-Inv channels) (new_client-Held channels empty) in
    (v.within n, room_or_full _ _ (v.within n) (v.heard n p refl))
  where
    room_or_full : {P : Type 0} (a b : ℕ) → a ≤ b → (a < b → P) → (a ≡ b) ⊎ P
    room_or_full a b h f = elim (nat_eq_cases a b) [
      | inl e ↦ inl e
      | inr e ↦ inr (f (ground (arith, e, h)))
    ]
