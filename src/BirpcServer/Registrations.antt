-- ===== src/BirpcServer/Registrations.antt =====
-- birpc_server.go: which functions the event hub of a server has.
use birpc.Base.{
  ℕ, ◌+◌, ◌≡◌, refl, ap, Option, none, some, List, [], ◌∷◌, true, false, count, arith, Bool-cases,
  inl, inr,
}
use birpc.Birpc.{BirpcCodec}
use birpc.Birpc.Steps.{Session, Stage, looping, waiting, notified, ended}
use birpc.Birpc.Steps
use birpc.BirpcServer.{
  Kind, client_connected, client_disconnected, Hub, Served, BirpcServer, Op, on_connect,
  on_disconnect, connects, acts, leaves, registers, unregisters, publish, serve_codec, on_acts,
  return_codec, on_leaves, perform, step, run,
}
use birpc.BirpcServer.Notices.{registered}
use birpc.Client.{Channel}
use birpc.Context.{Clock}

module _ {C H : Type 0} (codec : BirpcCodec C) (hub : Hub H) where
  run-crashed : (w : BirpcServer C H) (os : List (Op C)) → w.crashed ≡ true → run codec hub w os ≡ w
  unfolding run step
  run-crashed w [] h = refl
  run-crashed w (o ∷ os) h = ground (arith, h, run-crashed w os h)

  serve_codec-hub :
      (c : C) (ch : ℕ → Channel) (clock : Clock) (w : BirpcServer C H)
      → (serve_codec codec hub c ch clock w).event_hub ≡ w.event_hub
  unfolding serve_codec publish
  serve_codec-hub c ch clock w = refl

  on_acts-hub :
      (o : Option (Served C)) (i : ℕ) (op : Steps.Op) (w : BirpcServer C H)
      → (on_acts codec hub o i op w).event_hub ≡ w.event_hub
  unfolding on_acts
  on_acts-hub none i op w = refl
  on_acts-hub (some v) i op w = refl

  return_codec-hub :
      (i : ℕ) (s : Session C) (g : Stage) (w : BirpcServer C H)
      → (return_codec codec hub i s g w).event_hub ≡ w.event_hub
  unfolding return_codec publish
  return_codec-hub i s (ended b) w = refl
  return_codec-hub i s looping w = refl
  return_codec-hub i s (waiting b) w = refl
  return_codec-hub i s (notified b) w = refl

  on_leaves-hub :
      (o : Option (Served C)) (i : ℕ) (w : BirpcServer C H)
      → (on_leaves codec hub o i w).event_hub ≡ w.event_hub
  unfolding on_leaves
  on_leaves-hub none i w = refl
  on_leaves-hub (some v) i w = ground (arith, return_codec-hub i v.session v.session.stage w)

  perform-registered :
      (k : Kind) (f : ℕ) (w : BirpcServer C H) (o : Op C)
      → count f (hub.publish k (perform codec hub w o).event_hub)
        ≡ registered k f (o ∷ []) + count f (hub.publish k w.event_hub)
  unfolding perform
  perform-registered k f w (on_connect g) =
      omega (arith, hub.publish-subscribe k client_connected f g w.event_hub)
  perform-registered k f w (on_disconnect g) =
      omega (arith, hub.publish-subscribe k client_disconnected f g w.event_hub)
  perform-registered k f w (connects c ch clock) =
      omega (arith, ap (λ h. count f (hub.publish k h)) (serve_codec-hub c ch clock w))
  perform-registered k f w (acts i op) =
      omega (arith, ap (λ h. count f (hub.publish k h)) (on_acts-hub (w.served i) i op w))
  perform-registered k f w (leaves i) =
      omega (arith, ap (λ h. count f (hub.publish k h)) (on_leaves-hub (w.served i) i w))
  perform-registered k f w (registers p rcvr name use_name) = omega arith
  perform-registered k f w (unregisters name) = omega arith

  registered-cons :
      (k : Kind) (f : ℕ) (o : Op C) (os : List (Op C))
      → registered k f (o ∷ os) ≡ registered k f (o ∷ []) + registered k f os
  registered-cons k f (on_connect g) os = omega arith
  registered-cons k f (on_disconnect g) os = omega arith
  registered-cons k f (connects c ch clock) os = omega arith
  registered-cons k f (acts i op) os = omega arith
  registered-cons k f (leaves i) os = omega arith
  registered-cons k f (registers p rcvr name use_name) os = omega arith
  registered-cons k f (unregisters name) os = omega arith

  pub run-registered :
      (k : Kind) (f : ℕ) (w : BirpcServer C H) (os : List (Op C))
      → (run codec hub w os).crashed ≡ false
      → count f (hub.publish k (run codec hub w os).event_hub)
        ≡ registered k f os + count f (hub.publish k w.event_hub)
  unfolding run step
  run-registered k f w [] h = omega arith
  run-registered k f w (o ∷ os) h = elim (Bool-cases w.crashed) [
    | inl c ↦ absurd (ground (arith, c, h, run-crashed w os c))
    | inr c ↦ ground (
      arith,
      c,
      h,
      registered-cons k f o os,
      perform-registered k f w o,
      run-registered k f (perform codec hub w o) os,
    )
  ]
