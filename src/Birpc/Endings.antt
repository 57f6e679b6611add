-- ===== src/Birpc/Endings.antt =====
-- birpc_client.go: the end of a connection: what is over when, and how often things are closed.
use birpc.Base.{
  ℕ, ◌+◌, ◌≡◌, refl, sym, ◌∙◌, ap, Option, none, some, List, [], ◌∷◌, Bool, true, false, arith,
  if◌then◌else◌, Bool-cases, inl, inr,
}
use mathlib.Core.Path.{subst}
use birpc.Birpc.{BirpcCodec}
use birpc.Birpc.Steps.{
  Stage, looping, waiting, notified, ended, Session, Op, headers, bodies, writes, ends_pending,
  joins, finishes, begins, ends, shuts, acts, on_closes, on_shuts, on_acts, on_ends_pending,
  on_joins, on_finishes, perform,
}
use birpc.Client.{Client, Input, reading, handling, failing, stopped, close, terminate}
use birpc.Client.Closing.{goes-Keeps, sends-Keeps, abandons-Keeps, terminate-closing}
use birpc.Birpc.Staying.{
  Stays, on_headers-Stays, on_bodies-Stays, Keeps-Stays, on_writes-Stays, begins-Stays, ends-Stays,
}
use birpc.Client.Ending.{terminate-stops}
use birpc.Client.Moves.{
  Event, goes, sends, wrote, hears, hears_error, handles, terminates, abandons, closes,
}
use birpc.Client.Moves
use birpc.Server.{Task}
use birpc.Wire.{Err, err_shutdown}

abbrev pub in_loop : Stage → Bool
in_loop looping = true
in_loop (waiting b) = false
in_loop (notified b) = false
in_loop (ended b) = false

-- whether `disconnect` is closed
abbrev pub notices : Stage → ℕ
notices looping = 0
notices (waiting b) = 0
notices (notified b) = 1
notices (ended b) = 1

-- whether input has returned
abbrev pub is_ended : Stage → Bool
is_ended looping = false
is_ended (waiting b) = false
is_ended (notified b) = false
is_ended (ended b) = true

pub ended_past : (g : Stage) → is_ended g ≡ true → in_loop g ≡ false
ended_past looping h = cc
ended_past (waiting b) h = refl
ended_past (notified b) h = refl
ended_past (ended b) h = refl

-- how often input itself has closed the codec
abbrev pub own_closes : Stage → ℕ
own_closes looping = 0
own_closes (waiting b) = 0
own_closes (notified b) = 0
own_closes (ended b) = if b then 0 else 1

abbrev pub closing_seen : Stage → Bool
closing_seen looping = false
closing_seen (waiting b) = b
closing_seen (notified b) = b
closing_seen (ended b) = b

pub notices_past : (g : Stage) → notices g ≡ 1 → in_loop g ≡ false
notices_past looping h = absurd (omega arith)
notices_past (waiting b) h = refl
notices_past (notified b) h = refl
notices_past (ended b) h = refl

in_loop_looping : (g : Stage) → in_loop g ≡ true → g ≡ looping
in_loop_looping looping h = refl
in_loop_looping (waiting b) h = cc
in_loop_looping (notified b) h = cc
in_loop_looping (ended b) h = cc

close_again : (c : Client) → c.closing ≡ true → close c ≡ (c, some err_shutdown)
unfolding close
close_again c h = ground (arith, h)

close_first : (c : Client) → c.closing ≡ false → close c ≡ (record c { closing = true }, none)
unfolding close
close_first c h = ground (arith, h)

terminates_lem :
    (e : Err) (c : Client)
    → c.input ≡ failing e
    → c.sending ≡ none
    → Moves.step c terminates ≡ terminate e c
unfolding Moves.step
terminates_lem e c h k = ground (arith, h, k)

-- `d` counts the closings of the codec by ServeCodec's defer.
module _ {C : Type 0} (d : ℕ) where
  pub record Settled (s : Session C) : Type 0 where
    pub over : in_loop s.stage ≡ false → s.link.client.input ≡ stopped
    pub alone : notices s.stage ≡ 1 → s.link.tasks ≡ []
    pub noticed : s.disconnects ≡ notices s.stage
    pub counted :
        s.codec_closes + (if s.in_close then 1 else 0)
        ≡ d + own_closes s.stage + (if s.link.client.closing then 1 else 0)
    pub marked : s.in_close ≡ true → s.link.client.closing ≡ true
    pub seen : closing_seen s.stage ≡ true → s.link.client.closing ≡ true

  Stays-Settled : (s u : Session C) → Stays s u → Settled s → Settled u
  Stays-Settled s u k v = record {
    over = λ h. k.input (v.over (ap in_loop (sym k.stage) ∙ h));
    alone = λ h.
        let h' : notices s.stage ≡ 1 = ap notices (sym k.stage) ∙ h in
        k.tasks (v.over (notices_past s.stage h')) (v.alone h');
    noticed = k.disconnects ∙ v.noticed ∙ ap notices (sym k.stage);
    counted = ground (arith, k.stage, k.codec_closes, k.in_close, k.closing, v.counted);
    marked = λ h. k.closing ∙ v.marked (sym k.in_close ∙ h);
    seen = λ h. k.closing ∙ v.seen (ap closing_seen (sym k.stage) ∙ h);
  }

module _ {C : Type 0} (codec : BirpcCodec C) (d : ℕ) where
  closes-Settled :
      (s : Session C) → Settled d s → Settled d (on_closes codec (close s.link.client) s)
  unfolding on_closes
  closes-Settled s v = elim (Bool-cases s.link.client.closing) [
    | inl e ↦ subst (λ x. Settled d (on_closes codec x s)) (sym (close_again s.link.client e)) v
    | inr e ↦
        subst (λ x. Settled d (on_closes codec x s)) (sym (close_first s.link.client e))
          (record {
            over = v.over;
            alone = v.alone;
            noticed = v.noticed;
            counted = ground (arith, e, v.counted, v.marked);
            seen = λ h. refl;
            marked = λ h. refl;
          })
  ]

  on_acts-Settled : (e : Event) (s : Session C) → Settled d s → Settled d (on_acts codec e s)
  unfolding on_acts
  on_acts-Settled (goes m args reply ch) s v =
      Stays-Settled d s _ (Keeps-Stays codec s _ _ (goes-Keeps m args reply ch s.link.client)) v
  on_acts-Settled (sends p) s v =
      Stays-Settled d s _ (Keeps-Stays codec s _ _ (sends-Keeps p s.link.client)) v
  on_acts-Settled (abandons p) s v =
      Stays-Settled d s _ (Keeps-Stays codec s _ _ (abandons-Keeps p s.link.client)) v
  on_acts-Settled closes s v = closes-Settled s v
  on_acts-Settled (wrote e) s v = v
  on_acts-Settled (hears r) s v = v
  on_acts-Settled (hears_error e) s v = v
  on_acts-Settled (handles e x) s v = v
  on_acts-Settled terminates s v = v

  on_ends_pending-Settled :
      (i : Input) (o : Option ℕ) (s : Session C)
      → s.link.client.input ≡ i
      → s.link.client.sending ≡ o
      → Settled d s
      → Settled d (on_ends_pending codec i o s)
  unfolding on_ends_pending
  on_ends_pending-Settled (failing e) none s h k v =
      let last = terminates_lem e s.link.client h k in
      let stops = terminate-stops e s.link.client in
      let closing = terminate-closing e s.link.client in
      let here : s.stage ≡ looping = in_loop_looping s.stage (elim (Bool-cases (in_loop s.stage)) [
        | inl b ↦ b
        | inr b ↦ absurd (ground (arith, h, v.over b))
      ]) in
      record {
        over = λ b. rw last stops.0;
        alone = λ b. absurd (omega arith);
        noticed = ground (arith, here, v.noticed);
        counted = ground (arith, here, v.counted, last, closing);
        seen = λ b. ground (arith, last, closing, b);
        marked = λ b. ground (arith, last, closing, v.marked b);
      }
  on_ends_pending-Settled (failing e) (some p) s h k v = v
  on_ends_pending-Settled reading o s h k v = v
  on_ends_pending-Settled (handling q r) o s h k v = v
  on_ends_pending-Settled stopped o s h k v = v

  on_joins-Settled :
      (g : Stage) (ts : List Task) (s : Session C)
      → s.stage ≡ g
      → s.link.tasks ≡ ts
      → Settled d s
      → Settled d (on_joins codec g ts s)
  unfolding on_joins
  on_joins-Settled (waiting b) [] s h k v = record {
    over = λ e. v.over (rw h refl);
    alone = λ e. k;
    noticed = ground (arith, h, v.noticed);
    counted = ground (arith, h, v.counted);
    seen = λ e. v.seen (rw h e);
    marked = v.marked;
  }
  on_joins-Settled (waiting b) (t ∷ ts) s h k v = v
  on_joins-Settled looping ts s h k v = v
  on_joins-Settled (notified b) ts s h k v = v
  on_joins-Settled (ended b) ts s h k v = v

  on_finishes-Settled :
      (g : Stage) (s : Session C) → s.stage ≡ g → Settled d s → Settled d (on_finishes codec g s)
  unfolding on_finishes
  on_finishes-Settled (notified true) s h v = record {
    over = λ e. v.over (rw h refl);
    alone = λ e. v.alone (rw h refl);
    noticed = ground (arith, h, v.noticed);
    counted = ground (arith, h, v.counted);
    seen = λ e. v.seen (rw h e);
    marked = v.marked;
  }
  on_finishes-Settled (notified false) s h v = record {
    over = λ e. v.over (rw h refl);
    alone = λ e. v.alone (rw h refl);
    noticed = ground (arith, h, v.noticed);
    counted = ground (arith, h, v.counted);
    seen = λ e. cc;
    marked = v.marked;
  }
  on_finishes-Settled (waiting b) s h v = v
  on_finishes-Settled looping s h v = v
  on_finishes-Settled (ended b) s h v = v

  on_shuts-Settled :
      (b : Bool) (s : Session C) → s.in_close ≡ b → Settled d s → Settled d (on_shuts codec b s)
  unfolding on_shuts
  on_shuts-Settled false s h v = v
  on_shuts-Settled true s h v = record {
    over = v.over;
    alone = v.alone;
    noticed = v.noticed;
    counted = ground (arith, h, v.counted);
    seen = v.seen;
    marked = λ e. cc;
  }

  pub perform-Settled : (s : Session C) (o : Op) → Settled d s → Settled d (perform codec s o)
  unfolding perform
  perform-Settled s headers v =
      Stays-Settled d s _ (on_headers-Stays codec s.link.client.input s refl) v
  perform-Settled s bodies v =
      Stays-Settled d s _ (on_bodies-Stays codec s.link.client.input s refl) v
  perform-Settled s writes v = Stays-Settled d s _ (on_writes-Stays codec s.link.client.sending s) v
  perform-Settled s (begins i) v = Stays-Settled d s _ (begins-Stays codec s i) v
  perform-Settled s (ends i) v = Stays-Settled d s _ (ends-Stays codec s i) v
  perform-Settled s ends_pending v =
      on_ends_pending-Settled s.link.client.input s.link.client.sending s refl refl v
  perform-Settled s joins v = on_joins-Settled s.stage s.link.tasks s refl refl v
  perform-Settled s finishes v = on_finishes-Settled s.stage s refl v
  perform-Settled s shuts v = on_shuts-Settled s.in_close s refl v
  perform-Settled s (acts e) v = on_acts-Settled e s v
