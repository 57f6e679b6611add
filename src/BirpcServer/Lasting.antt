-- ===== src/BirpcServer/Lasting.antt =====
-- birpc_server.go: every step of a server, and what is started by it.
use birpc.Base.{
  ℕ, ◌≡◌, refl, sym, ◌∙◌, ap, Option, none, some, List, [], ◌∷◌, Bool, true, false, if◌then◌else◌,
  count, arith, Bool-cases, inl, inr,
}
use birpc.Birpc.{BirpcCodec}
use birpc.Birpc.Steps.{Stage, looping, waiting, notified, ended}
use birpc.Birpc.Steps
use birpc.Client.{Channel}
use birpc.Context.{Clock}
use birpc.BirpcServer.{
  client_connected, client_disconnected, same_kind, Hub, Served, BirpcServer, Op, on_connect,
  on_disconnect, connects, acts, leaves, registers, unregisters, serve_codec, on_acts, return_codec,
  on_leaves, perform, step, run,
}
use birpc.BirpcServer.Notices.{
  is_over, told-append, is_over-left, same_kind-over, is_over-gone, same_kind-left, Quiet,
  Quiet-inside, Lasts, lasts, chain, Moves-Quiet,
}

module _ {C H : Type 0} (codec : BirpcCodec C) (hub : Hub H) where
  serve_codec-Quiet :
      (c : C) (ch : ℕ → Channel) (clock : Clock) (w : BirpcServer C H)
      → Quiet w
      → Quiet (serve_codec codec hub c ch clock w) × Lasts w (serve_codec codec hub c ch clock w)
  unfolding serve_codec
  serve_codec-Quiet c ch clock w q =
      Moves-Quiet w _ w.next _
        (record {
          served = λ j. refl;
          inside = omega arith;
          grows = omega arith;
          news = λ k f.
              if same_kind k client_connected
              then count f (hub.publish client_connected w.event_hub)
              else 0;
          tells = λ k f j. ground (
            arith,
            told-append k client_connected f j w.next (hub.publish client_connected w.event_hub)
                w.started,
          );
          early = λ k f h. ground (arith, same_kind-over k _ h);
          late = λ k f h. absurd (ground (arith, q.fresh w.next, h));
          keeps = λ k h. absurd (ground (arith, q.fresh w.next, h));
        })
        q

  on_acts-Quiet :
      (o : Option (Served C)) (i : ℕ) (op : Steps.Op) (w : BirpcServer C H)
      → w.served i ≡ o
      → Quiet w
      → Quiet (on_acts codec hub o i op w) × Lasts w (on_acts codec hub o i op w)
  unfolding on_acts
  on_acts-Quiet none i op w e q = (q, lasts w)
  on_acts-Quiet (some v) i op w e q =
      Moves-Quiet w _ i _
        (record {
          served = λ j. refl;
          inside = Quiet-inside w q i v e;
          grows = omega arith;
          news = λ k f. 0;
          tells = λ k f j. ground arith;
          early = λ k f h. refl;
          late = λ k f h. refl;
          keeps = λ k h. is_over-left k _ v refl ∙ ap (is_over k) (sym e) ∙ h;
        })
        q

  on_leaves-Quiet :
      (o : Option (Served C)) (i : ℕ) (w : BirpcServer C H)
      → w.served i ≡ o
      → Quiet w
      → Quiet (on_leaves codec hub o i w) × Lasts w (on_leaves codec hub o i w)
  unfolding on_leaves return_codec
  on_leaves-Quiet none i w e q = (q, lasts w)
  on_leaves-Quiet (some v) i w e q = elim (Bool-cases v.left) [
    | inl l ↦ rw l (q, lasts w)
    | inr l ↦ rw l (returns v.session.stage l)
  ]
    where
      returns :
          (g : Stage)
          → v.left ≡ false
          → Quiet (return_codec codec hub i v.session g w)
            × Lasts w (return_codec codec hub i v.session g w)
      returns (ended b) l =
          Moves-Quiet w _ i _
            (record {
              served = λ j. refl;
              inside = Quiet-inside w q i v e;
              grows = omega arith;
              news = λ k f.
                  if same_kind k client_disconnected
                  then count f (hub.publish client_disconnected w.event_hub)
                  else 0;
              tells = λ k f j. ground (
                arith,
                told-append k client_disconnected f j i
                    (hub.publish client_disconnected w.event_hub) w.started,
              );
              early = λ k f h. absurd (ground (arith, is_over-gone k _ refl, h));
              late = λ k f h. ground (arith, same_kind-left k v l (ap (is_over k) (sym e) ∙ h));
              keeps = λ k h. is_over-gone k _ refl;
            })
            q
      returns looping l = (q, lasts w)
      returns (waiting b) l = (q, lasts w)
      returns (notified b) l = (q, lasts w)

  pub perform-Quiet :
      (w : BirpcServer C H) (o : Op C)
      → Quiet w
      → Quiet (perform codec hub w o) × Lasts w (perform codec hub w o)
  unfolding perform
  perform-Quiet w (on_connect f) q = (
    record { fresh = q.fresh; untold = q.untold },
    record { over = λ k i h. h; same = λ k f i h. refl },
  )
  perform-Quiet w (on_disconnect f) q = (
    record { fresh = q.fresh; untold = q.untold },
    record { over = λ k i h. h; same = λ k f i h. refl },
  )
  perform-Quiet w (connects c ch clock) q = serve_codec-Quiet c ch clock w q
  perform-Quiet w (acts i o) q = on_acts-Quiet (w.served i) i o w refl q
  perform-Quiet w (leaves i) q = on_leaves-Quiet (w.served i) i w refl q
  perform-Quiet w (registers p rcvr name use_name) q = (
    record { fresh = q.fresh; untold = q.untold },
    record { over = λ k i h. h; same = λ k f i h. refl },
  )
  perform-Quiet w (unregisters name) q = (
    record { fresh = q.fresh; untold = q.untold },
    record { over = λ k i h. h; same = λ k f i h. refl },
  )

  pub run-Quiet :
      (w : BirpcServer C H) (os : List (Op C))
      → Quiet w
      → Quiet (run codec hub w os) × Lasts w (run codec hub w os)
  unfolding run step
  run-Quiet w [] q = (q, lasts w)
  run-Quiet w (o ∷ os) q =
      let (q₁, l₁) = split w.crashed in
      let (q₂, l₂) = run-Quiet (step codec hub w o) os q₁ in (q₂, chain w _ _ l₁ l₂)
    where
      split : (b : Bool) → let u = if b then w else perform codec hub w o in Quiet u × Lasts w u
      split true = (q, lasts w)
      split false = perform-Quiet w o q
