-- ===== src/Server/Steps.antt =====
-- server.go: the steps of ServeCodec, in any order that the scheduler chooses.
use birpc.Base.{
  ℕ, zero, suc, Option, none, some, List, [], ◌∷◌, Bool, true, false, if◌then◌else◌, ◌&&◌, not,
}
use birpc.Codec.{ServerCodec}
use birpc.Context.{fire}
use birpc.Service.{invoke}
use birpc.Wire.{message, invalid_request}
use birpc.Server.{
  Conn, Task, Read, stops, refuses, accepts, read_request, answer, begin_call, end_call,
}

-- The variables of ServeCodec and of the calls that it started. `scope` is the cancel function of the
-- connection's context, and `crashed` says that a method has panicked, which ends the process.
pub record Serving (C : Type 0) : Type 0 where
  pub conn : Conn C
  pub tasks : List Task
  pub scope : ℕ
  pub reading : Bool
  pub closed : Bool
  pub crashed : Bool

-- One round of the reader loop; the start or the end of the call at a place in the list; and, when
-- the loop has ended and no call is left, the close of the codec, with the deferred end of the
-- connection's context.
pub data Event : Type 0 where
  reads : Event
  begins : ℕ → Event
  ends : ℕ → Event
  closes : Event

-- the task at a place, and the others
abbrev pub pick : ℕ → List Task → Option (Task × List Task)
pick i [] = none
pick zero (t ∷ ts) = some (t, ts)
pick (suc i) (t ∷ ts) = elim (pick i ts) [ none ↦ none | some (u, us) ↦ some (u, t ∷ us) ]

abbrev pub no_tasks : List Task → Bool
no_tasks [] = true
no_tasks (t ∷ ts) = false

module _ {C : Type 0} (codec : ServerCodec C) where
  -- what the loop does with a request that was read
  unfoldable pub on_read : Serving C → Conn C × Read → Serving C
  on_read s (c, stops e) = record s { conn = c; reading = false }
  on_read s (c, refuses req e) = record s { conn = answer codec c req invalid_request (message e) }
  on_read s (c, accepts t) = record s { conn = c; tasks = t ∷ s.tasks }

  unfoldable pub on_begin : Serving C → Task → List Task → Serving C
  on_begin s t ts = elim t.ctx [
    | some ctx ↦ s
    | none ↦ let (c, u) = begin_call codec s.conn t in record s { conn = c; tasks = u ∷ ts }
  ]

  unfoldable pub on_end : Serving C → Task → List Task → Serving C
  on_end s t ts = elim t.ctx [
    | none ↦ s
    | some ctx ↦
        elim (invoke t.mtype.func t.svc.rcvr ctx t.argv t.replyv s.conn.pending s.conn.clock) [
          | none ↦ record s { crashed = true }
          | some r ↦ record s { conn = end_call codec s.conn t r; tasks = ts }
        ]
  ]

  abbrev on_task :
      (Serving C → Task → List Task → Serving C) → Serving C → Option (Task × List Task) → Serving C
  on_task f s none = s
  on_task f s (some (t, ts)) = f s t ts

  -- An event that cannot happen in a state changes nothing.
  unfoldable pub step : Serving C → Event → Serving C
  unfolding on_read on_begin on_end
  step s reads = if s.reading && not s.crashed then on_read s (read_request codec s.conn) else s
  step s (begins i) = if s.crashed then s else on_task on_begin s (pick i s.tasks)
  step s (ends i) = if s.crashed then s else on_task on_end s (pick i s.tasks)
  step s closes =
      if not s.reading && (not s.crashed && (not s.closed && no_tasks s.tasks))
      then record s {
        conn = record s.conn {
          codec = (codec.close s.conn.codec).0;
          clock = fire s.scope s.conn.clock;
        };
        closed = true;
      }
      else s

  unfoldable pub run : Serving C → List Event → Serving C
  run s [] = s
  run s (e ∷ es) = run (step s e) es
