-- ===== src/Client/Channels.antt =====
-- client.go: what the channels of the callers hold, and what a signal puts there.
use birpc.Base.{
  ℕ, ◌+◌, ◌≤◌, ◌<◌, ◌≡◌, ◌⊎◌, refl, sym, ◌∙◌, ap, inl, inr, Option, [], ◌∷◌, false, arith, count,
  count-append, length, length-append, nat_eq, nat_Eq, nat_eq_cases, nat_eq_refl, if◌then◌else◌,
}
use birpc.Client.{Client, Channel, done, offer, set_error}
use birpc.Wire.{Err}

offer-cap : (p : ℕ) (ch : Channel) → (offer p ch).cap ≡ ch.cap
unfolding offer
offer-cap p ch = ground arith

offer-within :
    (p : ℕ) (ch : Channel) → length ch.buffer ≤ ch.cap → length (offer p ch).buffer ≤ ch.cap
unfolding offer
offer-within p ch h = ground (arith, length-append ch.buffer (p ∷ []))

offer-count :
    (p q : ℕ) (ch : Channel) → count q (offer p ch).buffer ≤ count q (p ∷ []) + count q ch.buffer
unfolding offer
offer-count p q ch = ground (arith, count-append q ch.buffer (p ∷ []))

offer-room :
    (p q : ℕ) (ch : Channel)
    → length (offer p ch).buffer < ch.cap
    → (length ch.buffer < ch.cap)
      × (count q (offer p ch).buffer ≡ count q (p ∷ []) + count q ch.buffer)
unfolding offer
offer-room p q ch h = (
  ground (arith, length-append ch.buffer (p ∷ [])),
  ground (arith, count-append q ch.buffer (p ∷ []), length-append ch.buffer (p ∷ [])),
)

-- No channel has more than it can hold, nor a call more often than it was signalled; and where a
-- channel has room left, it has its calls as often as they were signalled.
pub record Held (channels : ℕ → Channel) (c : Client) : Type 0 where
  pub caps : (n : ℕ) → (c.channels n).cap ≡ (channels n).cap
  pub within : (n : ℕ) → length (c.channels n).buffer ≤ (channels n).cap
  pub only : (n p : ℕ) → count p (c.channels n).buffer ≤ count p c.signals
  pub heard :
      (n p : ℕ)
      → (c.calls p).done ≡ n
      → length (c.channels n).buffer < (channels n).cap
      → count p (c.channels n).buffer ≡ count p c.signals

-- A change of neither the channels, the signals nor the channels of the calls.
pub record Alike (c d : Client) : Type 0 where
  pub channels : d.channels ≡ c.channels
  pub signals : d.signals ≡ c.signals
  pub done : (p : ℕ) → (d.calls p).done ≡ (c.calls p).done

pub Alike-Held :
    (channels : ℕ → Channel) (c d : Client) → Alike c d → Held channels c → Held channels d
Alike-Held channels c d k v = record {
  caps = λ n. rw k.channels (v.caps n);
  within = λ n. rw k.channels (v.within n);
  only = λ n p. rw (k.channels, k.signals) (v.only n p);
  heard = λ n p e h.
      rw (k.channels, k.signals) (v.heard n p (sym (k.done p) ∙ e) (rw (← k.channels) h));
}

done-here :
    (p n : ℕ) (c : Client) → (c.calls p).done ≡ n → (done p c).channels n ≡ offer p (c.channels n)
unfolding done
done-here p n c e =
    ap (λ m. if nat_eq m n then offer p (c.channels m) else c.channels n) e
    ∙ ap (λ b. if b then offer p (c.channels n) else c.channels n) (nat_eq_refl n)

done-there :
    (p n : ℕ) (c : Client)
    → nat_eq (c.calls p).done n ≡ false
    → (done p c).channels n ≡ c.channels n
unfolding done
done-there p n c e = ap (λ b. if b then offer p (c.channels (c.calls p).done) else c.channels n) e

done-signals :
    (p q : ℕ) (c : Client) → count q (done p c).signals ≡ count q (p ∷ []) + count q c.signals
unfolding done
done-signals p q c = ground arith

done-done : (p q : ℕ) (c : Client) → ((done p c).calls q).done ≡ (c.calls q).done
unfolding done
done-done p q c = refl

pub done-Held :
    (channels : ℕ → Channel) (p : ℕ) (c : Client) → Held channels c → Held channels (done p c)
done-Held channels p c v = record {
  caps = λ n. elim (nat_eq_cases (c.calls p).done n) [
    | inl e ↦ rw (done-here p n c e) (offer-cap p (c.channels n) ∙ v.caps n)
    | inr e ↦ rw (done-there p n c e) (v.caps n)
  ];
  within = λ n. elim (nat_eq_cases (c.calls p).done n) [
    | inl e ↦
        rw (done-here p n c e) (omega (arith, offer-within p (c.channels n), v.within n, v.caps n))
    | inr e ↦ rw (done-there p n c e) (v.within n)
  ];
  only = λ n q. elim (nat_eq_cases (c.calls p).done n) [
    | inl e ↦
        rw (done-here p n c e)
          (omega (arith, offer-count p q (c.channels n), v.only n q, done-signals p q c))
    | inr e ↦ rw (done-there p n c e) (omega (arith, v.only n q, done-signals p q c))
  ];
  heard = λ n q e h. heard n q (sym (done-done p q c) ∙ e) h (nat_eq_cases (c.calls p).done n);
}
  where
    heard :
        (n q : ℕ)
        → (c.calls q).done ≡ n
        → length ((done p c).channels n).buffer < (channels n).cap
        → ((c.calls p).done ≡ n) ⊎ (nat_eq (c.calls p).done n ≡ false)
        → count q ((done p c).channels n).buffer ≡ count q (done p c).signals
    heard n q e h (inl k) =
        let room =
          offer-room p q (c.channels n)
            (omega (arith, h, v.caps n, ap (λ x. length x.buffer) (done-here p n c k))) in
        let before = v.heard n q e (omega (arith, room.0, v.caps n)) in
        omega (
          arith,
          room.1,
          before,
          done-signals p q c,
          ap (λ x. count q x.buffer) (done-here p n c k),
        )
    heard n q e h (inr k) =
        let same = done-there p n c k in
        let before = v.heard n q e (omega (arith, h, ap (λ x. length x.buffer) same)) in
        let other : count q (p ∷ []) ≡ 0 = elim (nat_eq_cases q p) [
          | inl z ↦ absurd (ground (arith, k, e, ap (λ x. (c.calls x).done) z))
          | inr z ↦ ground (arith, z)
        ] in
        omega (arith, before, done-signals p q c, other, ap (λ x. count q x.buffer) same)

pub alike : (c : Client) → Alike c c
alike c = record { channels = refl; signals = refl; done = λ p. refl }

pub set_error-Alike : (p : ℕ) (e : Option Err) (c : Client) → Alike c (set_error p e c)
set_error-Alike p e c = record { channels = refl; signals = refl; done = λ q. ground arith }
