-- ===== src/Client/Runs.antt =====
-- client.go, basic_client.go: what every run of the client gives its callers.
use birpc.Base.{
  ℕ, ◌+◌, ◌^◌, ◌≤◌, ◌<◌, ◌≡◌, ◌≢◌, refl, Option, none, some, List, [], ◌∷◌, true, arith, count,
  nat_Eq, Option-cases, inl, inr, length,
}
use birpc.Base.Text.{Text}
use birpc.Wire.{Response, Value, Err}
use birpc.Client.{
  done, send_begin, send_end, write_failed, take_response, handle, abandon, forget, tell_server,
  close, Client, Channel, Phase, absent, fresh, writing, sent, left, Input, reading, handling,
  failing, stopped, new_client, go, made,
}
use birpc.Client.Invariant.{is_out, Inv, new_client-Inv}
use birpc.Client.Sending.{go-Inv, send_begin-Inv, send_end-Inv}
use birpc.Client.Receiving.{take_response-Inv, handle-Inv, fail-Inv, close-Inv}
use birpc.Client.Ending.{terminate-Inv, terminate-seq, terminate-stops, abandon-Inv}
use birpc.Client.Moves.{
  Event, goes, sends, wrote, hears, hears_error, handles, terminates, abandons, closes, on_sends,
  on_wrote, on_hears, on_hears_error, on_handles, on_terminates, on_abandons, step, run,
}

on_sends-Inv :
    (ph : Phase) (o : Option ℕ) (p : ℕ) (c : Client)
    → c.phase p ≡ ph
    → c.seq + 1 < 2 ^ 64
    → Inv c
    → Inv (on_sends ph o p c)
on_sends-Inv fresh none p c h small v = send_begin-Inv p c small h v
on_sends-Inv fresh (some q) p c h small v = v
on_sends-Inv absent o p c h small v = v
on_sends-Inv writing o p c h small v = v
on_sends-Inv sent o p c h small v = v
on_sends-Inv left o p c h small v = v

on_wrote-Inv :
    (o : Option ℕ) (e : Option Err) (c : Client) → c.sending ≡ o → Inv c → Inv (on_wrote o e c)
on_wrote-Inv none e c h v = v
on_wrote-Inv (some p) e c h v = send_end-Inv p e c h v

on_hears-Inv : (i : Input) (r : Response) (c : Client) → c.input ≡ i → Inv c → Inv (on_hears i r c)
on_hears-Inv reading r c h v = take_response-Inv r c h v
on_hears-Inv (handling o s) r c h v = v
on_hears-Inv (failing e) r c h v = v
on_hears-Inv stopped r c h v = v

on_hears_error-Inv :
    (i : Input) (e : Err) (c : Client) → c.input ≡ i → Inv c → Inv (on_hears_error i e c)
on_hears_error-Inv reading e c h v = fail-Inv e c h v
on_hears_error-Inv (handling o s) e c h v = v
on_hears_error-Inv (failing x) e c h v = v
on_hears_error-Inv stopped e c h v = v

on_handles-Inv :
    (i : Input) (e : Option Err) (x : Value) (c : Client)
    → c.input ≡ i
    → Inv c
    → Inv (on_handles i e x c)
on_handles-Inv reading e x c h v = v
on_handles-Inv (handling o r) e x c h v = handle-Inv o r e x c h v
on_handles-Inv (failing y) e x c h v = v
on_handles-Inv stopped e x c h v = v

on_terminates-Inv :
    (i : Input) (o : Option ℕ) (c : Client)
    → c.input ≡ i
    → c.sending ≡ o
    → Inv c
    → Inv (on_terminates i o c)
on_terminates-Inv (failing e) none c h k v = terminate-Inv e c h k v
on_terminates-Inv (failing e) (some p) c h k v = v
on_terminates-Inv reading o c h k v = v
on_terminates-Inv (handling q r) o c h k v = v
on_terminates-Inv stopped o c h k v = v

on_abandons-Inv :
    (ph : Phase) (p : ℕ) (c : Client) → c.phase p ≡ ph → Inv c → Inv (on_abandons ph p c)
on_abandons-Inv sent p c h v = abandon-Inv p c h v
on_abandons-Inv absent p c h v = v
on_abandons-Inv fresh p c h v = v
on_abandons-Inv writing p c h v = v
on_abandons-Inv left p c h v = v

made-Inv :
    (m : Text) (args reply : Value) (ch : ℕ) (c : Client)
    → Inv c
    → Inv (made (go m args reply ch c) c)
made-Inv m args reply ch c v = elim (Option-cases (go m args reply ch c)) [
  | inl e ↦ rw e v
  | inr (d, e) ↦ rw e (go-Inv m args reply ch c d e v)
]

pub step-Inv : (c : Client) (e : Event) → c.seq + 1 < 2 ^ 64 → Inv c → Inv (step c e)
unfolding step
step-Inv c (goes m args reply ch) small v = made-Inv m args reply ch c v
step-Inv c (sends p) small v = on_sends-Inv (c.phase p) c.sending p c refl small v
step-Inv c (wrote e) small v = on_wrote-Inv c.sending e c refl v
step-Inv c (hears r) small v = on_hears-Inv c.input r c refl v
step-Inv c (hears_error e) small v = on_hears_error-Inv c.input e c refl v
step-Inv c (handles e x) small v = on_handles-Inv c.input e x c refl v
step-Inv c terminates small v = on_terminates-Inv c.input c.sending c refl refl v
step-Inv c (abandons p) small v = on_abandons-Inv (c.phase p) p c refl v
step-Inv c closes small v = close-Inv c v

on_terminates-seq : (i : Input) (o : Option ℕ) (c : Client) → (on_terminates i o c).seq ≡ c.seq
on_terminates-seq (failing e) none c = terminate-seq e c
on_terminates-seq (failing e) (some p) c = refl
on_terminates-seq reading o c = refl
on_terminates-seq (handling q r) o c = refl
on_terminates-seq stopped o c = refl

-- A step gives out one number at most.
pub step-seq-le : (c : Client) (e : Event) → c.seq + 1 < 2 ^ 64 → (step c e).seq ≤ c.seq + 1
unfolding step go send_begin done send_end write_failed take_response handle abandon forget
    tell_server close
step-seq-le c terminates small = omega (arith, on_terminates-seq c.input c.sending c)
step-seq-le c e small = ground arith

run-Inv : (c : Client) (es : List Event) → c.seq + length es < 2 ^ 64 → Inv c → Inv (run c es)
unfolding run
run-Inv c [] small v = v
run-Inv c (e ∷ es) small v =
    let here : c.seq + 1 < 2 ^ 64 = omega arith in
    let grown = step-seq-le c e here in
    run-Inv (step c e) es (omega (arith, grown)) (step-Inv c e here v)

-- As many numbers are given out as there are steps, at most.
pub run-seq-le :
    (c : Client) (es : List Event) → c.seq + length es < 2 ^ 64 → (run c es).seq ≤ c.seq + length es
unfolding run
run-seq-le c [] small = omega arith
run-seq-le c (e ∷ es) small =
    let grown = step-seq-le c e (omega arith) in
    let rest = run-seq-le (step c e) es (omega (arith, grown)) in omega (arith, grown, rest)

pub new_client-seq : (channels : ℕ → Channel) → (new_client channels).seq ≡ 0
unfolding new_client
new_client-seq channels = refl

pub reached :
    (channels : ℕ → Channel) (es : List Event)
    → length es < 2 ^ 64
    → Inv (run (new_client channels) es)
reached channels es small =
    run-Inv (new_client channels) es (omega (arith, new_client-seq channels))
      (new_client-Inv channels)

-- Every call is signalled at most once, whatever the callers, the connection and the scheduler do,
-- in a run of fewer than 2^64 steps.
pub signals_once :
    (channels : ℕ → Channel) (es : List Event) (p : ℕ)
    → length es < 2 ^ 64
    → count p (run (new_client channels) es).signals ≤ 1
signals_once channels es p small = let v = reached channels es small in ground (arith, v.upper p)

-- In a run of fewer than 2^64 steps: once input has ended, every call whose send has returned, and
-- whose Call did not give it up at the end of its context, has been signalled exactly once.
pub stopped_signals_all :
    (channels : ℕ → Channel) (es : List Event) (p : ℕ)
    → length es < 2 ^ 64
    → (run (new_client channels) es).input ≡ stopped
    → (run (new_client channels) es).phase p ≡ sent
    → count p (run (new_client channels) es).signals ≡ 1
stopped_signals_all channels es p small halt out =
    let v = reached channels es small in ground (arith, halt, out, v.upper p, v.lower p)

-- In a run of fewer than 2^64 steps: when input has failed and no write is going on, its last step
-- ends input, shuts the client down, and leaves every call whose send has returned, and that was
-- not given up, signalled exactly once.
pub terminates_settles :
    (channels : ℕ → Channel) (es : List Event) (e : Err) (p : ℕ)
    → length es + 1 < 2 ^ 64
    → (run (new_client channels) es).input ≡ failing e
    → (run (new_client channels) es).sending ≡ none
    → (run (new_client channels) es).phase p ≡ sent
    → let c' = step (run (new_client channels) es) terminates in
      (c'.input ≡ stopped) × (c'.shutdown ≡ true) × (count p c'.signals ≡ 1)
unfolding step
terminates_settles channels es e p small failed idle out =
    let c : Client = run (new_client channels) es in
    let v = terminate-Inv e c failed idle (reached channels es (omega arith)) in
    let ended = terminate-stops e c in
    (
      ground (arith, failed, idle, ended),
      ground (arith, failed, idle, ended),
      ground (arith, failed, idle, ended, out, v.upper p, v.lower p),
    )

-- In a run of fewer than 2^64 steps: two calls that are out, the first of them registered, have
-- different numbers.
pub numbers_distinct :
    (channels : ℕ → Channel) (es : List Event) (p q : ℕ)
    → length es < 2 ^ 64
    → is_out ((run (new_client channels) es).phase p) ≡ true
    → is_out ((run (new_client channels) es).phase q) ≡ true
    → 0 < ((run (new_client channels) es).calls p).seq
    → p ≢ q
    → ((run (new_client channels) es).calls p).seq ≢ ((run (new_client channels) es).calls q).seq
numbers_distinct channels es p q small a b pos apart same =
    apart ((reached channels es small).owned p q a b pos same)
