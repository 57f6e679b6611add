-- ===== src/ClientCodec/Links.antt =====
-- client.go: a client over a codec, beside Client.
use birpc.Base.{
  ℕ, ◌≤◌, ◌≡◌, refl, Option, none, some, List, [], ◌∷◌, Bool, true, false, arith, ◌++◌, length,
  length-append, nat_Eq, inl, inr, Option-cases, if◌then◌else◌,
}
use birpc.Client.{Client, Input, reading, handling, failing, stopped, close, body_target}
use birpc.Client.Following.{Makes, idle, one, run-append}
use birpc.Client.Moves.{
  Event, goes, sends, wrote, hears, hears_error, handles, terminates, abandons, closes,
}
use birpc.Client.Moves
use birpc.ClientCodec.{
  ClientCodec, Link, Op, headers, bodies, writes, ends_pending, acts, on_headers, on_bodies,
  on_writes, on_ends_pending, on_closes, on_shuts, shuts, on_acts, perform, step, run,
}
use birpc.Wire.{Err, zero_response}

module _ {C : Type 0} (codec : ClientCodec C) where
  on_headers-client :
      (i : Input) (s : Link C) → s.client.input ≡ i → Makes s.client (on_headers codec i s).client
  unfolding on_headers
  on_headers-client reading s h =
      let (k, r, e) = codec.read_response_header s.codec zero_response in
      elim (Option-cases e) [
        | inr (x, p) ↦ one _ _ (hears_error x) (unfold Moves.step in ground (arith, p, h))
        | inl p ↦ one _ _ (hears r) (unfold Moves.step in ground (arith, p, h))
      ]
  on_headers-client (handling o r) s h = idle _
  on_headers-client (failing e) s h = idle _
  on_headers-client stopped s h = idle _

  on_bodies-client :
      (i : Input) (s : Link C) → s.client.input ≡ i → Makes s.client (on_bodies codec i s).client
  unfolding on_bodies
  on_bodies-client reading s h = idle _
  on_bodies-client (handling o r) s h =
      elim (Option-cases (codec.read_response_body s.codec (body_target s.client o r.error))) [
        | inl p ↦ ([], omega arith, unfold Moves.run in ground (arith, p))
        | inr ((k, v, e), p) ↦ one _ _ (handles e v) (unfold Moves.step in ground (arith, p, h))
      ]
  on_bodies-client (failing e) s h = idle _
  on_bodies-client stopped s h = idle _

  on_writes-client :
      (o : Option ℕ) (s : Link C)
      → s.client.sending ≡ o
      → Makes s.client (on_writes codec o s).client
  unfolding on_writes
  on_writes-client none s h = idle _
  on_writes-client (some p) s h =
      let (k, e) = codec.write_request s.codec s.client.request (s.client.calls p).args in
      one _ _ (wrote e) (unfold Moves.step in rw h refl)

  on_closes-client :
      (c : Client) (e : Option Err) (s : Link C) → (on_closes codec (c, e) s).client ≡ c
  unfolding on_closes
  on_closes-client c none s = refl
  on_closes-client c (some e) s = refl

  on_shuts-client : (b : Bool) (s : Link C) → (on_shuts codec b s).client ≡ s.client
  unfolding on_shuts
  on_shuts-client true s = refl
  on_shuts-client false s = refl

  on_acts-client : (e : Event) (s : Link C) → Makes s.client (on_acts codec e s).client
  unfolding on_acts
  on_acts-client (goes m args reply ch) s = one _ _ (goes m args reply ch) refl
  on_acts-client (sends p) s = one _ _ (sends p) refl
  on_acts-client (abandons p) s = one _ _ (abandons p) refl
  on_acts-client closes s =
      let (c, e) = close s.client in one _ _ closes (unfold Moves.step in on_closes-client c e s)
  on_acts-client (wrote e) s = idle _
  on_acts-client (hears r) s = idle _
  on_acts-client (hears_error e) s = idle _
  on_acts-client (handles e v) s = idle _
  on_acts-client terminates s = idle _

  perform-client : (s : Link C) (o : Op) → Makes s.client (perform codec s o).client
  unfolding perform
  perform-client s headers = on_headers-client s.client.input s refl
  perform-client s bodies = on_bodies-client s.client.input s refl
  perform-client s writes = on_writes-client s.client.sending s refl
  perform-client s ends_pending = one _ _ terminates (unfold on_ends_pending in refl)
  perform-client s shuts = rw (on_shuts-client s.in_close s) (idle _)
  perform-client s (acts e) = on_acts-client e s

  step-client : (s : Link C) (o : Op) → Makes s.client (step codec s o).client
  unfolding step
  step-client s o = go s.crashed
    where
      go : (b : Bool) → Makes s.client (if b then s else perform codec s o).client
      go true = idle _
      go false = perform-client s o

  -- Whatever its codec answers, a client over a codec makes steps that a Client makes, at most one
  -- for each of its own.
  pub run-link :
      (s : Link C) (os : List Op)
      → (es : List Event) × (length es ≤ length os)
        × ((run codec s os).client ≡ Moves.run s.client es)
  unfolding run
  run-link s [] = ([], omega arith, unfold Moves.run in refl)
  run-link s (o ∷ os) =
      let (es, few, same) = step-client s o in
      let (fs, more, rest) = run-link (step codec s o) os in
      (
        es ++ fs,
        ground (arith, length-append es fs),
        ground (arith, rest, same, run-append s.client es fs),
      )
