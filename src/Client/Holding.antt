-- ===== src/Client/Holding.antt =====
-- client.go, basic_client.go: what each operation brings the channels of the callers.
use birpc.Base.{
  ℕ, ◌≡◌, refl, ap, inl, inr, Option, none, some, [], ◌∷◌, Bool, true, false, arith, count, nat_eq,
  nat_Eq, nat_eq_cases, if◌then◌else◌, List-cases, Bool-cases, ltb, ◌||◌,
}
use birpc.Base.Dict.{Dict, get, delete}
use birpc.Base.Text.{Text}
use birpc.Client.{
  Client, Channel, Phase, sent, go, done, send_begin, send_end, write_failed, take_response, handle,
  finish_all, final_error, terminate, abandon, forget, tell_server, made, set_error, set_phase,
  next_input, body_error,
}
use birpc.Client.Invariant.{Inv}
use birpc.Wire.{Response, Value, Err, err_shutdown, canceled, server_error}
use birpc.Client.Channels.{Held, Alike-Held, done-Held, set_error-Alike}

module _ (channels : ℕ → Channel) where
  pub same-Held :
      (c d : Client)
      → d.channels ≡ c.channels
      → d.signals ≡ c.signals
      → d.calls ≡ c.calls
      → Held channels c
      → Held channels d
  same-Held c d h k l v =
      Alike-Held channels c d
        (record { channels = h; signals = k; done = λ q. ap (λ f. (f q).done) l }) v

  pub signal-Held :
      (p : ℕ) (e : Option Err) (c : Client)
      → Held channels c
      → Held channels (done p (set_error p e c))
  signal-Held p e c v = done-Held channels p _ (Alike-Held channels c _ (set_error-Alike p e c) v)

  pub phase-Held :
      (p : ℕ) (ph : Phase) (c : Client) → Held channels c → Held channels (set_phase p ph c)
  phase-Held p ph c v = same-Held c _ refl refl refl v

  pub if-Held :
      (b : Bool) (c d : Client)
      → Held channels c
      → Held channels d
      → Held channels (if b then c else d)
  if-Held true c d v w = v
  if-Held false c d v w = w

  pub send_begin-Held : (p : ℕ) (c : Client) → Held channels c → Held channels (send_begin p c)
  unfolding send_begin
  send_begin-Held p c v =
      if-Held (c.shutdown || c.closing) _ _
        (phase-Held p sent _ (signal-Held p (some err_shutdown) c v))
        (if-Held (ltb 0 (c.calls p).seq) _ _
          (phase-Held p sent _ (signal-Held p (some canceled) c v))
          (Alike-Held channels c _
            (record { channels = refl; signals = refl; done = λ q. ground arith }) v))

  pub write_failed-Held :
      (seq : ℕ) (e : Err) (c : Client) → Held channels c → Held channels (write_failed seq e c)
  unfolding write_failed
  write_failed-Held seq e c v = split (get seq c.pending)
    where
      split :
          (o : Option ℕ)
          → Held channels (elim o [
            | none ↦ c
            | some p ↦ done p (set_error p (some e) (record c { pending = delete seq c.pending }))
          ])
      split none = v
      split (some p) =
          let d : Client = record c { pending = delete seq c.pending } in
          signal-Held p (some e) d (same-Held c d refl refl refl v)

  pub send_end-Held :
      (p : ℕ) (e : Option Err) (c : Client) → Held channels c → Held channels (send_end p e c)
  unfolding send_end
  send_end-Held p none c v = same-Held c _ refl refl refl v
  send_end-Held p (some e) c v =
      write_failed-Held c.request.seq e _ (same-Held c _ refl refl refl v)

  pub take_response-Held :
      (r : Response) (c : Client) → Held channels c → Held channels (take_response r c)
  unfolding take_response
  take_response-Held r c v = same-Held c _ refl refl refl v

  pub finish_all-Held :
      (e : Err) (m : Dict ℕ ℕ) (c : Client) → Held channels c → Held channels (finish_all e m c)
  unfolding finish_all
  finish_all-Held e [] c v = v
  finish_all-Held e ((seq, p) ∷ m) c v =
      finish_all-Held e m (done p (set_error p (some e) c)) (signal-Held p (some e) c v)

  pub terminate-Held : (e : Err) (c : Client) → Held channels c → Held channels (terminate e c)
  unfolding terminate
  terminate-Held e c v =
      finish_all-Held (final_error c.closing e) c.pending _ (same-Held c _ refl refl refl v)

  pub handle-Held :
      (o : Option ℕ) (r : Response) (e : Option Err) (x : Value) (c : Client)
      → Held channels c
      → Held channels (handle o r e x c)
  unfolding handle
  handle-Held none r e x c v = same-Held c _ refl refl refl v
  handle-Held (some p) r e x c v = elim (List-cases r.error) [
    | inl h ↦ rw h (
        done-Held channels p _ (
          Alike-Held channels c _
            (record { channels = refl; signals = refl; done = λ q. ground arith }) v))
    | inr (y, t, h) ↦
        let d : Client = record c { input = next_input (body_error e) } in
        rw h (signal-Held p (some (server_error (y ∷ t))) d (same-Held c d refl refl refl v))
  ]

  -- a call that was never made has no signal and stands in no channel
  pub unborn_silent : (c : Client) → Inv c → count c.next_call c.signals ≡ 0
  unborn_silent c v = ground (arith, v.unborn c.next_call (omega arith), v.upper c.next_call)

  pub made-Held :
      (m : Text) (args reply : Value) (ch : ℕ) (c : Client)
      → count c.next_call c.signals ≡ 0
      → Held channels c
      → Held channels (made (go m args reply ch c) c)
  unfolding go
  made-Held m args reply ch c silent v = elim (Bool-cases (nat_eq (c.channels ch).cap 0)) [
    | inl b ↦ rw b v
    | inr b ↦ rw b (record {
      caps = v.caps;
      within = v.within;
      only = v.only;
      heard = λ n p z h. elim (nat_eq_cases c.next_call p) [
        | inl e ↦ ground (arith, v.only n p, silent, ap (λ q. count q c.signals) e)
        | inr e ↦ v.heard n p (ground (arith, e, z)) h
      ];
    })
  ]

  pub forget-Held : (p : ℕ) (c : Client) → Held channels c → Held channels (forget p c)
  unfolding forget
  forget-Held p c v =
      Alike-Held channels c _ (record { channels = refl; signals = refl; done = λ q. ground arith })
        v

  pub abandon-Held :
      (p : ℕ) (c : Client)
      → count c.next_call c.signals ≡ 0
      → Held channels c
      → Held channels (abandon p c)
  unfolding abandon tell_server
  abandon-Held p c silent v = split (get (c.calls p).seq c.pending)
    where
      split :
          (o : Option ℕ)
          → Held channels (tell_server o (c.calls p).seq (c.calls p).done (forget p c))
      split none = forget-Held p c v
      split (some q) = if-Held (nat_eq (c.calls p).seq 0) _ _ (forget-Held p c v) (
          made-Held _ _ _ (c.calls p).done (forget p c) (unfold forget in silent)
            (forget-Held p c v))
