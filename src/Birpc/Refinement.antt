-- ===== src/Birpc/Refinement.antt =====
-- birpc_client.go: the calling side of a connection, beside Client.
use birpc.Base.{
  Bool, true, false, ℕ, ◌^◌, ◌≤◌, ◌<◌, ◌≡◌, refl, Option, none, some, List, [], ◌∷◌, Bool, true,
  false, arith, ◌++◌, count, length, length-append, update, nat_Eq, inl, inr, Option-cases,
  if◌then◌else◌,
}
use birpc.Base.Text.{Text}
use birpc.BasicServer.{BasicServer, get_request}
use birpc.Birpc.{BirpcCodec, BirpcClient, read_response, dispatch, route, input_header}
use birpc.Birpc.Steps.{
  Stage, looping, waiting, notified, ended, Session, Op, headers, bodies, writes, ends_pending,
  joins, finishes, begins, ends, shuts, acts, on_shuts, on_headers, on_bodies, on_writes, on_closes,
  on_acts, on_ends_pending, on_joins, on_finishes, perform, step, run,
}
use birpc.Client.{
  Client, Channel, Input, reading, handling, failing, stopped, sent, new_client, close, body_target,
}
use birpc.Client.Moves.{
  Event, goes, sends, wrote, hears, hears_error, handles, terminates, abandons, closes,
}
use birpc.Client.Following.{Makes, idle, one, run-append}
use birpc.Client.Moves
use birpc.Client.Runs.{signals_once, stopped_signals_all}
use birpc.Server.{Conn, Read, Task, stops, refuses, accepts}
use birpc.Wire.{zero_response, Response, Err}

module _ {C : Type 0} (codec : BirpcCodec C) where
  dispatch-client :
      (b : BirpcClient C) (c : Conn C) (r : Read) → (dispatch codec b (c, r)).client ≡ b.client
  dispatch-client b c (stops e) = refl
  dispatch-client b c (refuses req e) = refl
  dispatch-client b c (accepts t) = refl

  route-client :
      (b : BirpcClient C) (req : ℕ) (m : Text) (resp : Response)
      → b.client.input ≡ reading
      → Makes b.client (route codec b req m resp).client
  unfolding route
  route-client b req [] resp h = one _ _ (hears resp) (unfold Moves.step in rw h refl)
  route-client b req (x ∷ s) resp h = ([], omega arith, unfold Moves.run in dispatch-client b _ _)

  input_header-client :
      (b : BirpcClient C) → b.client.input ≡ reading → Makes b.client (input_header codec b).client
  unfolding input_header
  input_header-client b h =
      let (req, s₁) = get_request b.conn.server in
      let (k, r, resp, e) = codec.read_header b.conn.codec (s₁.free_req.cells req) zero_response in
      let s₂ : BasicServer = record s₁ {
        free_req = record s₁.free_req { cells = update s₁.free_req.cells req r };
      } in
      let b' : BirpcClient C = record b { conn = record b.conn { server = s₂; codec = k } } in
      elim (Option-cases e) [
        | inr (x, p) ↦ one _ _ (hears_error x) (unfold Moves.step in ground (arith, p, h))
        | inl p ↦
            let (es, few, same) = route-client b' req r.service_method resp h in
            (es, few, ground (arith, p, same))
      ]

  on_headers-client :
      (i : Input) (s : Session C)
      → s.link.client.input ≡ i
      → Makes s.link.client (on_headers codec i s).link.client
  unfolding on_headers
  on_headers-client reading s h = input_header-client s.link h
  on_headers-client (handling o r) s h = idle _
  on_headers-client (failing e) s h = idle _
  on_headers-client stopped s h = idle _

  on_bodies-client :
      (i : Input) (s : Session C)
      → s.link.client.input ≡ i
      → Makes s.link.client (on_bodies codec i s).link.client
  unfolding on_bodies read_response
  on_bodies-client reading s h = idle _
  on_bodies-client (handling o r) s h =
      let target = body_target s.link.client o r.error in
      let (k, v, e) = codec.read_response_body s.link.conn.codec target in
      one _ _ (handles e v) (unfold Moves.step in rw h refl)
  on_bodies-client (failing e) s h = idle _
  on_bodies-client stopped s h = idle _

  on_writes-client :
      (o : Option ℕ) (s : Session C)
      → s.link.client.sending ≡ o
      → Makes s.link.client (on_writes codec o s).link.client
  unfolding on_writes
  on_writes-client none s h = idle _
  on_writes-client (some p) s h =
      let c = s.link.client in
      let (k, e) = codec.write_request s.link.conn.codec c.request (c.calls p).args in
      one _ _ (wrote e) (unfold Moves.step in rw h refl)

  on_closes-client :
      (c : Client) (e : Option Err) (s : Session C) → (on_closes codec (c, e) s).link.client ≡ c
  unfolding on_closes
  on_closes-client c none s = refl
  on_closes-client c (some e) s = refl

  on_shuts-client : (b : Bool) (s : Session C) → (on_shuts codec b s).link.client ≡ s.link.client
  unfolding on_shuts
  on_shuts-client true s = refl
  on_shuts-client false s = refl

  on_acts-client : (e : Event) (s : Session C) → Makes s.link.client (on_acts codec e s).link.client
  unfolding on_acts
  on_acts-client (goes m args reply ch) s = one _ _ (goes m args reply ch) refl
  on_acts-client (sends p) s = one _ _ (sends p) refl
  on_acts-client (abandons p) s = one _ _ (abandons p) refl
  on_acts-client closes s =
      let (c, e) = close s.link.client in
      one _ _ closes (unfold Moves.step in on_closes-client c e s)
  on_acts-client (wrote e) s = idle _
  on_acts-client (hears r) s = idle _
  on_acts-client (hears_error e) s = idle _
  on_acts-client (handles e v) s = idle _
  on_acts-client terminates s = idle _

  on_ends_pending-client :
      (i : Input) (o : Option ℕ) (s : Session C)
      → Makes s.link.client (on_ends_pending codec i o s).link.client
  unfolding on_ends_pending
  on_ends_pending-client (failing e) none s = one _ _ terminates refl
  on_ends_pending-client (failing e) (some p) s = idle _
  on_ends_pending-client reading o s = idle _
  on_ends_pending-client (handling q r) o s = idle _
  on_ends_pending-client stopped o s = idle _

  on_joins-client :
      (g : Stage) (ts : List Task) (s : Session C)
      → (on_joins codec g ts s).link.client ≡ s.link.client
  unfolding on_joins
  on_joins-client (waiting b) [] s = refl
  on_joins-client (waiting b) (t ∷ ts) s = refl
  on_joins-client looping ts s = refl
  on_joins-client (notified b) ts s = refl
  on_joins-client (ended b) ts s = refl

  on_finishes-client :
      (g : Stage) (s : Session C) → (on_finishes codec g s).link.client ≡ s.link.client
  unfolding on_finishes
  on_finishes-client (notified true) s = refl
  on_finishes-client (notified false) s = refl
  on_finishes-client (waiting b) s = refl
  on_finishes-client looping s = refl
  on_finishes-client (ended b) s = refl

  perform-client : (s : Session C) (o : Op) → Makes s.link.client (perform codec s o).link.client
  unfolding perform
  perform-client s headers = on_headers-client s.link.client.input s refl
  perform-client s bodies = on_bodies-client s.link.client.input s refl
  perform-client s writes = on_writes-client s.link.client.sending s refl
  perform-client s (begins i) = idle _
  perform-client s (ends i) = idle _
  perform-client s ends_pending = on_ends_pending-client s.link.client.input s.link.client.sending s
  perform-client s joins =
      ([], omega arith, unfold Moves.run in on_joins-client s.stage s.link.tasks s)
  perform-client s finishes = ([], omega arith, unfold Moves.run in on_finishes-client s.stage s)
  perform-client s shuts = ([], omega arith, unfold Moves.run in on_shuts-client s.in_close s)
  perform-client s (acts e) = on_acts-client e s

  pub step-client : (s : Session C) (o : Op) → Makes s.link.client (step codec s o).link.client
  unfolding step
  step-client s o = go s.crashed
    where
      go : (b : Bool) → Makes s.link.client (if b then s else perform codec s o).link.client
      go true = idle _
      go false = perform-client s o

  -- For its own calls a bidirectional client is a Client: whatever messages its input reads,
  -- requests, responses or none, whatever its methods, its callers and its connection do, its
  -- calling side makes steps that a Client makes, at most one for each of its own.
  pub run-client :
      (s : Session C) (os : List Op)
      → (es : List Event) × (length es ≤ length os)
        × ((run codec s os).link.client ≡ Moves.run s.link.client es)
  unfolding run
  run-client s [] = ([], omega arith, unfold Moves.run in refl)
  run-client s (o ∷ os) =
      let (es, few, same) = step-client s o in
      let (fs, more, rest) = run-client (step codec s o) os in
      (
        es ++ fs,
        ground (arith, length-append es fs),
        ground (arith, rest, same, run-append s.link.client es fs),
      )

  -- From a new client on, in fewer than 2^64 steps, every call of a bidirectional client is
  -- signalled at most once.
  pub bidirectional_signals_once :
      (s : Session C) (channels : ℕ → Channel) (os : List Op) (p : ℕ)
      → s.link.client ≡ new_client channels
      → length os < 2 ^ 64
      → count p (run codec s os).link.client.signals ≤ 1
  bidirectional_signals_once s channels os p start small =
      let (es, few, same) = run-client s os in
      ground (arith, same, start, signals_once channels es p (omega (arith, few)))

  -- From a new client on, in fewer than 2^64 steps: once input has ended, every call of a
  -- bidirectional client whose send has returned, and that was not given up at the end of its
  -- context, has been signalled exactly once.
  pub bidirectional_signals_all :
      (s : Session C) (channels : ℕ → Channel) (os : List Op) (p : ℕ)
      → s.link.client ≡ new_client channels
      → length os < 2 ^ 64
      → (run codec s os).link.client.input ≡ stopped
      → (run codec s os).link.client.phase p ≡ sent
      → count p (run codec s os).link.client.signals ≡ 1
  bidirectional_signals_all s channels os p start small halt out =
      let (es, few, same) = run-client s os in
      let there : (run codec s os).link.client ≡ Moves.run (new_client channels) es =
        rw (same, start) refl in
      rw there (
        stopped_signals_all channels es p (omega (arith, few)) (rw (← there) halt)
          (rw (← there) out))
