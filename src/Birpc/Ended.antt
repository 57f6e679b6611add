-- ===== src/Birpc/Ended.antt =====
-- birpc_client.go: a connection after the return of its input.
use birpc.Base.{Bool, false, ℕ, ◌≡◌, refl, ◌∙◌, ap, Option, none, some, List, true, arith}
use birpc.Birpc.{BirpcCodec}
use birpc.Birpc.Steps.{
  Stage, looping, waiting, notified, ended, Session, Op, headers, bodies, writes, ends_pending,
  joins, finishes, begins, ends, shuts, acts, on_closes, on_shuts, on_acts, on_ends_pending,
  on_joins, on_finishes, perform,
}
use birpc.Client.{Input, reading, handling, failing, stopped, close}
use birpc.Birpc.Staying.{on_headers-Stays, on_bodies-Stays, on_writes-Stays}
use birpc.Client.Moves.{
  Event, goes, sends, wrote, hears, hears_error, handles, terminates, abandons, closes,
}
use birpc.Server.{Task}
use birpc.Birpc.Endings.{Settled, is_ended, ended_past}

module _ {C : Type 0} (codec : BirpcCodec C) (d : ℕ) where
  on_ends_pending-ended :
      (i : Input) (o : Option ℕ) (s : Session C)
      → s.link.client.input ≡ i
      → Settled d s
      → is_ended s.stage ≡ true
      → is_ended (on_ends_pending codec i o s).stage ≡ true
  unfolding on_ends_pending
  on_ends_pending-ended (failing e) none s h v k =
      absurd (ground (arith, h, v.over (ended_past s.stage k)))
  on_ends_pending-ended (failing e) (some p) s h v k = k
  on_ends_pending-ended reading o s h v k = k
  on_ends_pending-ended (handling q r) o s h v k = k
  on_ends_pending-ended stopped o s h v k = k

  on_joins-ended :
      (g : Stage) (ts : List Task) (s : Session C)
      → s.stage ≡ g
      → is_ended g ≡ true
      → is_ended (on_joins codec g ts s).stage ≡ true
  unfolding on_joins
  on_joins-ended (ended b) ts s h k = ap is_ended h
  on_joins-ended looping ts s h k = cc
  on_joins-ended (waiting b) ts s h k = cc
  on_joins-ended (notified b) ts s h k = cc

  on_finishes-ended :
      (g : Stage) (s : Session C)
      → s.stage ≡ g
      → is_ended g ≡ true
      → is_ended (on_finishes codec g s).stage ≡ true
  unfolding on_finishes
  on_finishes-ended (ended b) s h k = ap is_ended h
  on_finishes-ended looping s h k = cc
  on_finishes-ended (waiting b) s h k = cc
  on_finishes-ended (notified b) s h k = cc

  on_acts-stage : (e : Event) (s : Session C) → (on_acts codec e s).stage ≡ s.stage
  unfolding on_acts on_closes close
  on_acts-stage closes s = ground arith
  on_acts-stage (goes m args reply ch) s = refl
  on_acts-stage (sends p) s = refl
  on_acts-stage (abandons p) s = refl
  on_acts-stage (wrote e) s = refl
  on_acts-stage (hears r) s = refl
  on_acts-stage (hears_error e) s = refl
  on_acts-stage (handles e x) s = refl
  on_acts-stage terminates s = refl

  on_shuts-stage : (b : Bool) (s : Session C) → (on_shuts codec b s).stage ≡ s.stage
  unfolding on_shuts
  on_shuts-stage true s = refl
  on_shuts-stage false s = refl

  pub perform-ended :
      (s : Session C) (o : Op)
      → Settled d s
      → is_ended s.stage ≡ true
      → is_ended (perform codec s o).stage ≡ true
  unfolding perform
  perform-ended s headers v k =
      ap is_ended (on_headers-Stays codec s.link.client.input s refl).stage ∙ k
  perform-ended s bodies v k =
      ap is_ended (on_bodies-Stays codec s.link.client.input s refl).stage ∙ k
  perform-ended s writes v k = ap is_ended (on_writes-Stays codec s.link.client.sending s).stage ∙ k
  perform-ended s (begins i) v k = k
  perform-ended s (ends i) v k = k
  perform-ended s ends_pending v k =
      on_ends_pending-ended s.link.client.input s.link.client.sending s refl v k
  perform-ended s joins v k = on_joins-ended s.stage s.link.tasks s refl k
  perform-ended s finishes v k = on_finishes-ended s.stage s refl k
  perform-ended s shuts v k = ap is_ended (on_shuts-stage s.in_close s) ∙ k
  perform-ended s (acts e) v k = ap is_ended (on_acts-stage e s) ∙ k
