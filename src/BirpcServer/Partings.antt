-- ===== src/BirpcServer/Partings.antt =====
-- birpc_server.go: what has ended when a server tells of the end of a connection.
use birpc.Base.{
  ℕ, ◌≡◌, refl, sym, ◌∙◌, ap, Option, none, some, List, [], ◌∷◌, Bool, true, false, if◌then◌else◌,
  update, nat_eq, arith, Bool-cases, inl, inr,
}
use mathlib.Core.Path.{subst}
use birpc.BasicServer.{BasicServer}
use birpc.Birpc.{BirpcCodec, open_link}
use birpc.Birpc.Endings.{Settled, perform-Settled, is_ended}
use birpc.Birpc.Ended.{perform-ended}
use birpc.Birpc.Steps.{Session, Stage, looping, waiting, notified, ended, new_session}
use birpc.Birpc.Steps
use birpc.BirpcServer.{
  Hub, Served, BirpcServer, Op, on_connect, on_disconnect, connects, acts, leaves, registers,
  unregisters, new_birpc_server, publish, serve_codec, on_acts, return_codec, on_leaves, perform,
  step, run, share,
}
use birpc.Client.{Channel, new_client}
use birpc.Context.{Clock}
use birpc.Service.Types.{Program}

-- a connection that ends in order, and whose ServeCodec has returned only after input, and has closed
-- the codec by its defer
pub record IsKept {C : Type 0} (v : Served C) : Type 0 where
  pub settled : Settled (if v.left then 1 else 0) v.session
  pub after_input : v.left ≡ true → is_ended v.session.stage ≡ true

some_inj : {C : Type 0} {v u : Served C} → some v ≡ some u → v ≡ u
some_inj h = cc

module _ {C H : Type 0} (codec : BirpcCodec C) (hub : Hub H) where
  AreKept : (ℕ → Option (Served C)) → Type 0
  AreKept served = (i : ℕ) (v : Served C) → served i ≡ some v → IsKept v

  update-AreKept :
      (served : ℕ → Option (Served C)) (i : ℕ) (v : Served C)
      → IsKept v
      → AreKept served
      → AreKept (update served i (some v))
  unfolding AreKept
  update-AreKept served i v k a j u h = elim (Bool-cases (nat_eq i j)) [
    | inl e ↦ subst IsKept (some_inj (sym (ap (λ b. if b then some v else served j) e) ∙ h)) k
    | inr e ↦ a j u (sym (ap (λ b. if b then some v else served j) e) ∙ h)
  ]

  open-IsKept :
      (b : BasicServer) (c : C) (ch : ℕ → Channel) (n : ℕ) (clock : Clock)
      → IsKept (record { session = new_session (open_link b c ch n clock); left = false })
  unfolding open_link new_client
  open-IsKept b c ch n clock = record {
    settled = record {
      over = λ h. cc;
      alone = λ h. refl;
      noticed = refl;
      counted = omega arith;
      seen = λ h. cc;
      marked = λ h. cc;
    };
    after_input = λ h. cc;
  }

  share-Settled : (d : ℕ) (b : BasicServer) (s : Session C) → Settled d s → Settled d (share b s)
  share-Settled d b s v = record {
    over = v.over;
    alone = v.alone;
    noticed = v.noticed;
    counted = v.counted;
    seen = v.seen;
    marked = v.marked;
  }

  session-IsKept :
      (v : Served C) (b : BasicServer) (o : Steps.Op)
      → IsKept v
      → IsKept (record v { session = Steps.step codec (share b v.session) o })
  unfolding Steps.step
  session-IsKept v b o k = split (share b v.session).crashed
    where
      settled : Settled (if v.left then 1 else 0) (share b v.session)
      settled = share-Settled (if v.left then 1 else 0) b v.session k.settled

      split :
          (c : Bool)
          → let s = share b v.session in
            IsKept (record v { session = if c then s else Steps.perform codec s o })
      split true = record { settled = settled; after_input = k.after_input }
      split false = record {
        settled = perform-Settled codec (if v.left then 1 else 0) (share b v.session) o settled;
        after_input = λ h.
            perform-ended codec (if v.left then 1 else 0) (share b v.session) o settled
              (k.after_input h);
      }

  return_codec-AreKept :
      (i : ℕ) (v : Served C) (g : Stage) (w : BirpcServer C H)
      → v.session.stage ≡ g
      → v.left ≡ false
      → IsKept v
      → AreKept w.served
      → AreKept (return_codec codec hub i v.session g w).served
  unfolding return_codec publish
  return_codec-AreKept i v (ended b) w h l k a =
      update-AreKept w.served i _
        (record {
          settled = record {
            over = k.settled.over;
            alone = k.settled.alone;
            noticed = k.settled.noticed;
            counted = ground (arith, l, k.settled.counted);
            seen = k.settled.seen;
            marked = k.settled.marked;
          };
          after_input = λ e. ap is_ended h;
        })
        a
  return_codec-AreKept i v looping w h l k a = a
  return_codec-AreKept i v (waiting b) w h l k a = a
  return_codec-AreKept i v (notified b) w h l k a = a

  on_acts-AreKept :
      (o : Option (Served C)) (i : ℕ) (op : Steps.Op) (w : BirpcServer C H)
      → w.served i ≡ o
      → AreKept w.served
      → AreKept (on_acts codec hub o i op w).served
  unfolding on_acts AreKept
  on_acts-AreKept none i op w h a = a
  on_acts-AreKept (some v) i op w h a =
      update-AreKept w.served i _ (session-IsKept v w.basic op (a i v h)) a

  on_leaves-AreKept :
      (o : Option (Served C)) (i : ℕ) (w : BirpcServer C H)
      → w.served i ≡ o
      → AreKept w.served
      → AreKept (on_leaves codec hub o i w).served
  unfolding on_leaves AreKept
  on_leaves-AreKept none i w h a = a
  on_leaves-AreKept (some v) i w h a = elim (Bool-cases v.left) [
    | inl l ↦ rw l a
    | inr l ↦ rw l (return_codec-AreKept i v v.session.stage w refl l (a i v h) a)
  ]

  perform-AreKept :
      (w : BirpcServer C H) (o : Op C) → AreKept w.served → AreKept (perform codec hub w o).served
  unfolding perform serve_codec publish
  perform-AreKept w (on_connect f) a = a
  perform-AreKept w (on_disconnect f) a = a
  perform-AreKept w (connects c ch clock) a =
      update-AreKept w.served w.next _ (open-IsKept w.basic c ch w.next clock) a
  perform-AreKept w (acts i o) a = on_acts-AreKept (w.served i) i o w refl a
  perform-AreKept w (leaves i) a = on_leaves-AreKept (w.served i) i w refl a
  perform-AreKept w (registers p rcvr name use_name) a = a
  perform-AreKept w (unregisters name) a = a

  run-AreKept :
      (w : BirpcServer C H) (os : List (Op C))
      → AreKept w.served
      → AreKept (run codec hub w os).served
  unfolding run step
  run-AreKept w [] a = a
  run-AreKept w (o ∷ os) a = run-AreKept (step codec hub w o) os (split w.crashed)
    where
      split : (b : Bool) → AreKept (if b then w else perform codec hub w o).served
      split true = a
      split false = perform-AreKept w o a

  new-AreKept : (p : Program) → AreKept (new_birpc_server codec hub p).served
  unfolding new_birpc_server AreKept
  new-AreKept p i v h = cc

  pub history-IsKept :
      (p : Program) (os : List (Op C)) (i : ℕ) (v : Served C)
      → (run codec hub (new_birpc_server codec hub p) os).served i ≡ some v
      → IsKept v
  unfolding AreKept
  history-IsKept p os = run-AreKept (new_birpc_server codec hub p) os (new-AreKept p)
