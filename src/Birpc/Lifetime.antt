-- ===== src/Birpc/Lifetime.antt =====
-- birpc_client.go: what every run of a connection comes to.
use birpc.Base.{ℕ, ◌+◌, ◌≤◌, ◌<◌, ◌≡◌, refl, List, [], ◌∷◌, Bool, true, false, arith, if◌then◌else◌}
use birpc.Birpc.{BirpcCodec}
use birpc.Birpc.Accounts.{Ok, perform-Ok}
use birpc.Birpc.Endings.{Settled, notices, notices_past, perform-Settled}
use birpc.Birpc.Steps.{Stage, looping, ended, Session, Op, perform, step, run}
use birpc.Client.{stopped}
use birpc.FreeList.{Request-Linked}
use birpc.FreeList.Chain.{Holds}
use birpc.Server.Accounts.{receipts, answers}

module _ {C : Type 0} (codec : BirpcCodec C) where
  record Whole (s : Session C) : Type 0 where
    accounts : Ok codec [] (λ _. 0) s.link
    settled : Settled 0 s

  step-Whole : (s : Session C) (o : Op) → Whole s → Whole (step codec s o)
  unfolding step
  step-Whole s o w = split s.crashed
    where
      split : (b : Bool) → Whole (if b then s else perform codec s o)
      split true = w
      split false = record {
        accounts = perform-Ok codec [] (λ _. 0) s o w.accounts;
        settled = perform-Settled codec 0 s o w.settled;
      }

  run-Whole : (s : Session C) (os : List Op) → Whole s → Whole (run codec s os)
  unfolding run
  run-Whole s [] w = w
  run-Whole s (o ∷ os) w = run-Whole (step codec s o) os (step-Whole s o w)

  -- A connection that is about to be served: its server's free list is in order (as a new one is,
  -- and as every history of a server leaves it), and nothing has happened on it.
  pub record IsFresh (s : Session C) (ps : List ℕ) : Type 0 where
    pub free : Holds s.link.conn.server.free_req ps
    pub no_calls : s.link.tasks ≡ []
    pub no_log : s.link.conn.log ≡ []
    pub in_loop : s.stage ≡ looping
    pub unnoticed : s.disconnects ≡ 0
    pub unclosed : s.codec_closes ≡ 0
    pub outside_close : s.in_close ≡ false
    pub not_closing : s.link.client.closing ≡ false

  IsFresh-Whole : (s : Session C) (ps : List ℕ) → IsFresh s ps → Whole s
  IsFresh-Whole s ps f = record {
    accounts = (
      ps,
      record {
        owned = rw f.no_calls (record {
          listed = f.free;
          apart = λ q. omega (arith, f.free.once q);
          known = λ q h. refl;
        });
        balanced = λ n. rw (f.no_calls, f.no_log) refl;
        framed = λ q h. absurd (omega arith);
      },
    );
    settled = record {
      over = λ h. ground (arith, f.in_loop, h);
      alone = λ h. f.no_calls;
      noticed = ground (arith, f.in_loop, f.unnoticed);
      counted = ground (arith, f.in_loop, f.unclosed, f.outside_close, f.not_closing);
      marked = λ h. ground (arith, f.outside_close, h);
      seen = λ h. ground (arith, f.in_loop, h);
    };
  }

  -- On a fresh bidirectional connection: whatever its peer, its methods, its callers and its
  -- connection do, for each number no more responses are sent than requests were read with it.
  pub birpc_answered_once :
      (s : Session C) (ps : List ℕ) (os : List Op) (n : ℕ)
      → IsFresh s ps
      → answers n (run codec s os).link.conn.log ≤ receipts n (run codec s os).link.conn.log
  birpc_answered_once s ps os n f =
      let w = run-Whole s os (IsFresh-Whole s ps f) in omega (arith, w.accounts.1.balanced n)

  -- On a fresh bidirectional connection: the channel of DisconnectNotify is closed at most once,
  -- and when it is, input has ended its loop and the calls that it ended, no method of the server
  -- is running or waits to run, and every request that was read has had its one response.
  pub disconnect_settles :
      (s : Session C) (ps : List ℕ) (os : List Op) (n : ℕ)
      → IsFresh s ps
      → 0 < (run codec s os).disconnects
      → let s' = run codec s os in
        (s'.disconnects ≡ 1)
        × (s'.link.client.input ≡ stopped)
        × (s'.link.tasks ≡ [])
        × (answers n s'.link.conn.log ≡ receipts n s'.link.conn.log)
  disconnect_settles s ps os n f told =
      let w = run-Whole s os (IsFresh-Whole s ps f) in
      let v = w.settled in
      let once = notices_once (run codec s os).stage in
      let noticed : notices (run codec s os).stage ≡ 1 = omega (arith, v.noticed, once) in
      let alone = v.alone noticed in
      (
        omega (arith, v.noticed),
        v.over (notices_past (run codec s os).stage noticed),
        alone,
        ground (arith, alone, w.accounts.1.balanced n),
      )
    where
      notices_once : (g : Stage) → notices g ≤ 1
      notices_once g = ground arith

  -- On a fresh bidirectional connection whose input has returned, the closings of the codec by input
  -- and by Close, with that of a Close still to come to it, are: one if a Close had marked the client
  -- when the pending calls were ended, and input then closes nothing; else one by input, and a second
  -- one exactly if a Close marked it after that.
  pub codec_closed :
      (s : Session C) (ps : List ℕ) (os : List Op) (found_closing : Bool)
      → IsFresh s ps
      → (run codec s os).stage ≡ ended found_closing
      → (run codec s os).codec_closes + (if (run codec s os).in_close then 1 else 0)
        ≡ (if found_closing then 1 else 1 + (if (run codec s os).link.client.closing then 1 else 0))
  codec_closed s ps os b f h =
      let v = (run-Whole s os (IsFresh-Whole s ps f)).settled in
      ground (arith, h, v.counted, v.seen)
