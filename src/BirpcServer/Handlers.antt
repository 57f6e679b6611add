-- ===== src/BirpcServer/Handlers.antt =====
-- birpc_server.go: the functions given to OnConnect and OnDisconnect, and what they can rely on.
use birpc.Base.{
  ℕ, ◌+◌, ◌≡◌, refl, ◌∙◌, ap, some, List, [], ◌∷◌, Bool, true, false, if◌then◌else◌, count, arith,
}
use mathlib.Core.Path.{subst}
use birpc.Birpc.{BirpcCodec}
use birpc.Birpc.Steps.{ended}
use birpc.BirpcServer.{
  Kind, client_connected, client_disconnected, Hub, Served, BirpcServer, Op, connects, leaves,
  new_birpc_server, serve_codec, return_codec, on_leaves, perform, step, run,
}
use birpc.BirpcServer.Notices.{told, registered, is_over, Quiet, publish-told}
use birpc.BirpcServer.Lasting.{run-Quiet, perform-Quiet}
use birpc.Client.{Channel}
use birpc.Context.{Clock}
use birpc.Service.Types.{Program}
use birpc.BirpcServer.Registrations.{run-registered}

module _ {C H : Type 0} (codec : BirpcCodec C) (hub : Hub H) where
  new-Quiet : (p : Program) → Quiet (new_birpc_server codec hub p)
  unfolding new_birpc_server
  new-Quiet p = record { fresh = λ i h. refl; untold = λ k f i h. refl }

  new-publish :
      (p : Program) (k : Kind) (f : ℕ)
      → count f (hub.publish k (new_birpc_server codec hub p).event_hub) ≡ 0
  unfolding new_birpc_server
  new-publish p k f = ap (count f) (hub.publish-empty k)

  serve_codec-told :
      (c : C) (ch : ℕ → Channel) (clock : Clock) (f : ℕ) (w : BirpcServer C H)
      → Quiet w
      → let u = serve_codec codec hub c ch clock w in
        (told client_connected f w.next u.started
          ≡ count f (hub.publish client_connected w.event_hub))
        × (is_over client_connected (u.served w.next) ≡ true)
  unfolding serve_codec
  serve_codec-told c ch clock f w q =
      let v : BirpcServer C H = record w {
        served = (serve_codec codec hub c ch clock w).served;
        next = w.next + 1;
      } in
      let none_yet : told client_connected f w.next w.started ≡ 0 =
        q.untold client_connected f w.next
          (ap (is_over client_connected) (q.fresh w.next (omega arith))) in
      (
        ground (
          arith,
          publish-told codec hub client_connected client_connected f w.next w.next v,
          none_yet,
        ),
        ground arith,
      )

  return_codec-told :
      (i f : ℕ) (v : Served C) (b : Bool) (w : BirpcServer C H)
      → Quiet w
      → w.served i ≡ some v
      → v.left ≡ false
      → let u = return_codec codec hub i v.session (ended b) w in
        (told client_disconnected f i u.started
          ≡ count f (hub.publish client_disconnected w.event_hub))
        × (is_over client_disconnected (u.served i) ≡ true)
  unfolding return_codec
  return_codec-told i f v b w q e l =
      let x : BirpcServer C H = record w {
        served = (return_codec codec hub i v.session (ended b) w).served;
      } in
      let none_yet : told client_disconnected f i w.started ≡ 0 =
        q.untold client_disconnected f i (ap (is_over client_disconnected) e ∙ l) in
      (
        ground (
          arith,
          publish-told codec hub client_disconnected client_disconnected f i i x,
          none_yet,
        ),
        ground arith,
      )

  -- what was started by then is all that is started
  stays_told :
      (k : Kind) (f i : ℕ) (w : BirpcServer C H) (os : List (Op C))
      → Quiet w
      → is_over k (w.served i) ≡ true
      → told k f i (run codec hub w os).started ≡ told k f i w.started
  stays_told k f i w os q h = (run-Quiet codec hub w os q).1.same k f i h

  pub history-Quiet :
      (p : Program) (os : List (Op C)) → Quiet (run codec hub (new_birpc_server codec hub p) os)
  history-Quiet p os = (run-Quiet codec hub _ os (new-Quiet p)).0

  -- For every history of a new server in which no method has panicked: the connection that it then
  -- begins to serve starts, for each function, as many goroutines as OnConnect had been called with
  -- it, whatever happens after.
  pub connection_told :
      (p : Program) (before after : List (Op C)) (c : C) (ch : ℕ → Channel) (clock : Clock) (f : ℕ)
      → (run codec hub (new_birpc_server codec hub p) before).crashed ≡ false
      → let w = run codec hub (new_birpc_server codec hub p) before in
        told client_connected f w.next (run codec hub w (connects c ch clock ∷ after)).started
        ≡ registered client_connected f before
  unfolding run step
  connection_told p before after c ch clock f h =
      let w₀ = new_birpc_server codec hub p in
      let w = run codec hub w₀ before in
      let q = history-Quiet p before in
      let first : step codec hub w (connects c ch clock)
          ≡ perform codec hub w (connects c ch clock) =
        ap (λ b. if b then w else perform codec hub w (connects c ch clock)) h in
      let q' = (perform-Quiet codec hub w (connects c ch clock) q).0 in
      let now = serve_codec-told c ch clock f w q in
      ap (λ u. told client_connected f w.next (run codec hub u after).started) first
      ∙ unfold perform in
        (stays_told client_connected f w.next _ after q' now.1
          ∙ now.0
          ∙ omega (
            arith,
            run-registered codec hub client_connected f w₀ before h,
            new-publish p client_connected f,
          ))

  returns :
      (w : BirpcServer C H) (i : ℕ) (v : Served C) (b : Bool)
      → w.crashed ≡ false
      → w.served i ≡ some v
      → v.session.stage ≡ ended b
      → v.left ≡ false
      → step codec hub w (leaves i) ≡ return_codec codec hub i v.session (ended b) w
  unfolding step perform on_leaves
  returns w i v b h e g l =
      ap (λ c. if c then w else on_leaves codec hub (w.served i) i w) h
      ∙ ap (λ o. on_leaves codec hub o i w) e
      ∙ ap (λ c. if c then w else return_codec codec hub i v.session v.session.stage w) l
      ∙ ap (λ x. return_codec codec hub i v.session x w) g

  -- For every history of a new server in which no method has panicked and after which the input of a
  -- connection has returned, ServeCodec not yet: when it returns, each function is started for the
  -- connection as many times as OnDisconnect had been called with it, and never again after.
  pub disconnection_told :
      (p : Program) (before after : List (Op C)) (i f : ℕ) (v : Served C) (b : Bool)
      → (run codec hub (new_birpc_server codec hub p) before).crashed ≡ false
      → (run codec hub (new_birpc_server codec hub p) before).served i ≡ some v
      → v.session.stage ≡ ended b
      → v.left ≡ false
      → let w = run codec hub (new_birpc_server codec hub p) before in
        told client_disconnected f i (run codec hub w (leaves i ∷ after)).started
        ≡ registered client_disconnected f before
  unfolding run
  disconnection_told p before after i f v b h e g l =
      let w₀ = new_birpc_server codec hub p in
      let w = run codec hub w₀ before in
      let q = history-Quiet p before in
      let u = return_codec codec hub i v.session (ended b) w in
      let first : step codec hub w (leaves i) ≡ u = returns w i v b h e g l in
      let q' = (run-Quiet codec hub w (leaves i ∷ []) q).0 in
      let now = return_codec-told i f v b w q e l in
      ap (λ u. told client_disconnected f i (run codec hub u after).started) first
      ∙ stays_told client_disconnected f i u after (subst Quiet first q') now.1
      ∙ now.0
      ∙ omega (
        arith,
        run-registered codec hub client_disconnected f w₀ before h,
        new-publish p client_disconnected f,
      )
