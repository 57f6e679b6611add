-- ===== src/Json/Client/Settling.antt =====
-- client.go over jsonrpc/client.go: a client and the end of its connection.
use birpc.Base.{
  ℕ, ◌+◌, ◌^◌, ◌≤◌, ◌<◌, ◌≡◌, ◌⊎◌, inl, inr, refl, sym, ap, ◌∙◌, Option, none, List, [], ◌∷◌, Bool,
  true, false, arith, length, if◌then◌else◌, count,
}
use mathlib.Core.Path.{subst}
use birpc.Client.{Channel, Client, Input, reading, handling, failing, stopped, sent, new_client}
use birpc.Client.Moves
use birpc.Client.Moves.{Event, terminates}
use birpc.Client.Runs.{terminates_settles, stopped_signals_all}
use birpc.ClientCodec.{
  ClientCodec, Link, Op, ends_pending, on_ends_pending, perform, step, run, new_client_with_codec,
}
use birpc.ClientCodec.Links.{run-link}
use birpc.Json.{Decoded, ClientResponse, Json}
use birpc.Json.Client.{JsonClient, json_client_codec, new_client_codec}
use birpc.Json.Client.Ending.{is_over, next_turn, turn, turns, Ready, Advances, remaining}
use birpc.Json.Client.Advancing.{perform-Advances}
use birpc.Wire.{Err}

over_cases : (i : Input) → is_over i ≡ true → (i ≡ stopped) ⊎ ((e : Err) × (i ≡ failing e))
over_cases reading h = cc
over_cases (handling o r) h = cc
over_cases (failing e) h = inr (e, refl)
over_cases stopped h = inl refl

step_stopped : (c : Client) → c.input ≡ stopped → Moves.step c terminates ≡ c
unfolding Moves.step
step_stopped c h = ground (arith, h)

run_settles :
    (channels : ℕ → Channel) (es : List Event) (c : Client) (p : ℕ)
    → Moves.run (new_client channels) es ≡ c
    → length es + 1 < 2 ^ 64
    → is_over c.input ≡ true
    → c.sending ≡ none
    → c.phase p ≡ sent
    → count p (Moves.step c terminates).signals ≡ 1
run_settles channels es c p same small over idle out = elim (over_cases c.input over) [
  | inr (e, h) ↦
      let there =
        terminates_settles channels es e p small (rw same h) (rw same idle) (rw same out) in
      ap (λ d. count p (Moves.step d terminates).signals) (sym same) ∙ there.2
  | inl h ↦
      let there =
        stopped_signals_all channels es p (omega (arith, small)) (rw same h) (rw same out) in
      ap (λ d. count p d.signals) (step_stopped c h ∙ sym same) ∙ there
]

module _ (json : Json)
    (shut : List (Decoded ClientResponse) → List (Decoded ClientResponse) × Option Err) where
  step-Advances :
      (o : Op) (b : Bool) (s : Link JsonClient)
      → ((l : List (Decoded ClientResponse)) → length (shut l).0 ≤ length l)
      → Ready b s
      → Advances (next_turn o b) (turn o b) s (step (json_client_codec json shut) s o)
  unfolding step
  step-Advances o b s h v =
      subst (Advances (next_turn o b) (turn o b) s) first (perform-Advances json shut o b s h v)
    where
      codec : ClientCodec JsonClient
      codec = json_client_codec json shut

      first : perform codec s o ≡ (if s.crashed then s else perform codec s o)
      first = ap (λ c. if c then s else perform codec s o) (sym v.sound)

  run-ends :
      (b : Bool) (s : Link JsonClient) (os : List Op)
      → ((l : List (Decoded ClientResponse)) → length (shut l).0 ≤ length l)
      → Ready b s
      → (is_over s.client.input ≡ true) ⊎ (remaining s < turns b os)
      → let u = run (json_client_codec json shut) s os in
        (u.crashed ≡ false) × (is_over u.client.input ≡ true)
  unfolding run
  run-ends b s [] h v (inl e) = (v.sound, e)
  run-ends b s [] h v (inr e) = absurd (omega (arith, e))
  run-ends b s (o ∷ os) h v e =
      let a = step-Advances o b s h v in
      let u = step (json_client_codec json shut) s o in
      run-ends (next_turn o b) u os h a.ready (elim e [
        | inl k ↦ inl (a.last k)
        | inr k ↦ elim a.less [ inl k' ↦ inl k' | inr few ↦ inr (omega (arith, k, few)) ]
      ])

  new-Ready :
      (incoming : List (Decoded ClientResponse)) (channels : ℕ → Channel)
      → Ready true (new_client_with_codec (new_client_codec incoming) channels)
  unfolding new_client_with_codec new_client_codec new_client
  new-Ready incoming channels = record {
    sound = refl;
    sync = inr refl;
    body = λ o r h e. absurd (cc);
  }

  new-remaining :
      (incoming : List (Decoded ClientResponse)) (channels : ℕ → Channel)
      → remaining (new_client_with_codec (new_client_codec incoming) channels) ≡ length incoming
  unfolding new_client_with_codec new_client_codec
  new-remaining incoming channels = refl

  -- A new client on a JSON connection that brings `incoming` and then ends, or less when it is
  -- closed: in a run that gives input a header to read, and then a body, more often than there are
  -- messages, whatever its callers do in between, the codec does not panic and input leaves its
  -- loop.
  pub json_input_ends :
      (incoming : List (Decoded ClientResponse)) (channels : ℕ → Channel) (os : List Op)
      → ((l : List (Decoded ClientResponse)) → length (shut l).0 ≤ length l)
      → length incoming < turns true os
      → let s = new_client_with_codec (new_client_codec incoming) channels in
        let u = run (json_client_codec json shut) s os in
        (u.crashed ≡ false) × (is_over u.client.input ≡ true)
  json_input_ends incoming channels os h enough =
      run-ends true _ os h (new-Ready incoming channels)
        (inr (omega (arith, enough, new-remaining incoming channels)))

  new_client-client :
      (incoming : List (Decoded ClientResponse)) (channels : ℕ → Channel)
      → (new_client_with_codec (new_client_codec incoming) channels).client ≡ new_client channels
  unfolding new_client_with_codec
  new_client-client incoming channels = refl

  step_ends_pending :
      (u : Link JsonClient)
      → u.crashed ≡ false
      → (step (json_client_codec json shut) u ends_pending).client ≡ Moves.step u.client terminates
  unfolding step perform on_ends_pending
  step_ends_pending u h = ground (arith, h)

  -- A new client on a JSON connection that brings `incoming` and then ends, or less when it is
  -- closed, after fewer than 2^64 steps in which input had a header to read, and then a body, more
  -- often than there are messages: if no request is being written, then when input ends the pending
  -- calls, every call whose send has returned, and whose Call did not give it up, has been signalled
  -- exactly once.
  pub json_calls_settle :
      (incoming : List (Decoded ClientResponse)) (channels : ℕ → Channel) (os : List Op) (p : ℕ)
      → ((l : List (Decoded ClientResponse)) → length (shut l).0 ≤ length l)
      → length incoming < turns true os
      → length os + 1 < 2 ^ 64
      → let s = new_client_with_codec (new_client_codec incoming) channels in
        let u = run (json_client_codec json shut) s os in
        u.client.sending ≡ none
        → u.client.phase p ≡ sent
        → count p (step (json_client_codec json shut) u ends_pending).client.signals ≡ 1
  json_calls_settle incoming channels os p h enough small idle out =
      let s = new_client_with_codec (new_client_codec incoming) channels in
      let u = run (json_client_codec json shut) s os in
      let (es, few, same) = run-link (json_client_codec json shut) s os in
      let (sound, over) = json_input_ends incoming channels os h enough in
      ap (λ d. count p d.signals) (step_ends_pending u sound)
      ∙ run_settles channels es u.client p
          (ap (λ c. Moves.run c es) (sym (new_client-client incoming channels)) ∙ sym same)
          (omega (arith, few, small)) over idle out
