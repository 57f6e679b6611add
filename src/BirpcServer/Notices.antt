-- ===== src/BirpcServer/Notices.antt =====
-- birpc_server.go: what is started for a connection, and when.
use birpc.Base.{
  nat_eq_cases, ℕ, ◌+◌, ◌≤◌, ◌<◌, ◌≡◌, refl, sym, ◌∙◌, ap, Option, none, some, List, [], ◌∷◌, ◌++◌,
  Bool, true, false, ◌&&◌, if◌then◌else◌, update, nat_eq, count, map, arith, Bool-cases, inl, inr,
  nat_eq_refl, ◌⊎◌,
}
use birpc.Birpc.{BirpcCodec}
use birpc.BirpcServer.{
  Kind, client_connected, client_disconnected, same_kind, Hub, Start, Served, BirpcServer, Op,
  on_connect, on_disconnect, connects, acts, leaves, registers, unregisters, publish,
}

-- how often a handler was started for a connection by events of a kind
abbrev pub told : Kind → ℕ → ℕ → List Start → ℕ
told k f i [] = 0
told k f i (s ∷ ss) =
    (if same_kind k s.kind && (nat_eq f s.handler && nat_eq i s.connection) then 1 else 0)
    + told k f i ss

-- how often a function was registered for a kind of events
abbrev pub registered : {C : Type 0} → Kind → ℕ → List (Op C) → ℕ
registered k f [] = 0
registered k f (on_connect g ∷ os) =
    (if same_kind k client_connected && nat_eq f g then 1 else 0) + registered k f os
registered k f (on_disconnect g ∷ os) =
    (if same_kind k client_disconnected && nat_eq f g then 1 else 0) + registered k f os
registered k f (connects c ch clock ∷ os) = registered k f os
registered k f (acts i o ∷ os) = registered k f os
registered k f (leaves i ∷ os) = registered k f os
registered k f (registers p rcvr name use_name ∷ os) = registered k f os
registered k f (unregisters name ∷ os) = registered k f os

pub told-append :
    (k k' : Kind) (f i j : ℕ) (fs : List ℕ) (ss : List Start)
    → told k f i (map (λ g. record { kind = k'; handler = g; connection = j }) fs ++ ss)
      ≡ (if same_kind k k' && nat_eq i j then count f fs else 0) + told k f i ss
told-append k k' f i j [] ss = ground arith
told-append k k' f i j (g ∷ fs) ss = ground (arith, told-append k k' f i j fs ss)

-- whether the events of a kind are over for a connection
abbrev pub is_over : {C : Type 0} → Kind → Option (Served C) → Bool
is_over k none = false
is_over client_connected (some v) = true
is_over client_disconnected (some v) = v.left

pub is_over-left :
    {C : Type 0} (k : Kind) (v u : Served C)
    → v.left ≡ u.left
    → is_over k (some v) ≡ is_over k (some u)
is_over-left client_connected v u h = refl
is_over-left client_disconnected v u h = h

pub same_kind-over :
    {C : Type 0} (k : Kind) (v : Served C)
    → is_over k (some v) ≡ false
    → same_kind k client_connected ≡ false
same_kind-over client_connected v h = cc
same_kind-over client_disconnected v h = refl

pub is_over-gone :
    {C : Type 0} (k : Kind) (v : Served C) → v.left ≡ true → is_over k (some v) ≡ true
is_over-gone client_connected v h = refl
is_over-gone client_disconnected v h = h

pub same_kind-left :
    {C : Type 0} (k : Kind) (v : Served C)
    → v.left ≡ false
    → is_over k (some v) ≡ true
    → same_kind k client_disconnected ≡ false
same_kind-left client_connected v h e = refl
same_kind-left client_disconnected v h e = cc

module _ {C H : Type 0} (codec : BirpcCodec C) (hub : Hub H) where
  pub publish-told :
      (k k' : Kind) (f i j : ℕ) (w : BirpcServer C H)
      → told k f i (publish codec hub k' j w).started
        ≡ (if same_kind k k' && nat_eq i j then count f (hub.publish k' w.event_hub) else 0)
          + told k f i w.started
  unfolding publish
  publish-told k k' f i j w = told-append k k' f i j (hub.publish k' w.event_hub) w.started

module _ {C H : Type 0} where
  -- Connections have the numbers below `next`, and no event that is yet to come was published.
  pub record Quiet (w : BirpcServer C H) : Type 0 where
    pub fresh : (i : ℕ) → w.next ≤ i → w.served i ≡ none
    pub untold : (k : Kind) (f i : ℕ) → is_over k (w.served i) ≡ false → told k f i w.started ≡ 0

  pub Quiet-inside :
      (w : BirpcServer C H) → Quiet w → (i : ℕ) (v : Served C) → w.served i ≡ some v → i < w.next
  Quiet-inside w q i v e = ground (arith, q.fresh i, e)

  -- What a step does not take back: an event that is over for a connection stays so, and starts
  -- nothing more.
  pub record Lasts (w u : BirpcServer C H) : Type 0 where
    pub over : (k : Kind) (i : ℕ) → is_over k (w.served i) ≡ true → is_over k (u.served i) ≡ true
    pub same :
        (k : Kind) (f i : ℕ)
        → is_over k (w.served i) ≡ true
        → told k f i u.started ≡ told k f i w.started

  pub lasts : (w : BirpcServer C H) → Lasts w w
  lasts w = record { over = λ k i h. h; same = λ k f i h. refl }

  pub chain : (w u x : BirpcServer C H) → Lasts w u → Lasts u x → Lasts w x
  chain w u x a b = record {
    over = λ k i h. b.over k i (a.over k i h);
    same = λ k f i h. b.same k f i (a.over k i h) ∙ a.same k f i h;
  }

  -- A step that moves one connection, and starts `news k f` goroutines of a handler for it.
  pub record Moves (w u : BirpcServer C H) (i : ℕ) (v : Served C) : Type 0 where
    pub served : (j : ℕ) → u.served j ≡ update w.served i (some v) j
    pub inside : i < u.next
    pub grows : w.next ≤ u.next
    pub news : Kind → ℕ → ℕ
    pub tells :
        (k : Kind) (f j : ℕ)
        → told k f j u.started ≡ (if nat_eq i j then news k f else 0) + told k f j w.started
    pub early : (k : Kind) (f : ℕ) → is_over k (some v) ≡ false → news k f ≡ 0
    pub late : (k : Kind) (f : ℕ) → is_over k (w.served i) ≡ true → news k f ≡ 0
    pub keeps : (k : Kind) → is_over k (w.served i) ≡ true → is_over k (some v) ≡ true

  pub Moves-Quiet :
      (w u : BirpcServer C H) (i : ℕ) (v : Served C) → Moves w u i v → Quiet w → Quiet u × Lasts w u
  Moves-Quiet w u i v m q = (
    record {
      fresh = λ j h. ground (arith, m.served j, m.inside, m.grows, q.fresh j, h);
      untold = λ k f j h. untold k f j (nat_eq_cases i j) h;
    },
    record {
      over = λ k j h. over k j (nat_eq_cases i j) h;
      same = λ k f j h. same k f j (nat_eq_cases i j) h;
    },
  )
    where
      here : u.served i ≡ some v
      here = m.served i ∙ ap (λ b. if b then some v else w.served i) (nat_eq_refl i)

      elsewhere : (j : ℕ) → nat_eq i j ≡ false → u.served j ≡ w.served j
      elsewhere j e = m.served j ∙ ap (λ b. if b then some v else w.served j) e

      untold :
          (k : Kind) (f j : ℕ)
          → (i ≡ j) ⊎ (nat_eq i j ≡ false)
          → is_over k (u.served j) ≡ false
          → told k f j u.started ≡ 0
      untold k f j (inl e) h =
          let early = m.early k f (ap (is_over k) (sym here ∙ ap u.served e) ∙ h) in
          let before : is_over k (w.served j) ≡ false = elim (Bool-cases (is_over k (w.served j))) [
            | inl b ↦ absurd (
                ground (
                  arith,
                  m.keeps k (ap (λ x. is_over k (w.served x)) e ∙ b),
                  h,
                  ap (is_over k) (sym here ∙ ap u.served e),
                ))
            | inr b ↦ b
          ] in
          ground (arith, m.tells k f j, early, q.untold k f j before)
      untold k f j (inr e) h =
          ground
            (arith, e, m.tells k f j, q.untold k f j (ap (is_over k) (sym (elsewhere j e)) ∙ h))

      over :
          (k : Kind) (j : ℕ)
          → (i ≡ j) ⊎ (nat_eq i j ≡ false)
          → is_over k (w.served j) ≡ true
          → is_over k (u.served j) ≡ true
      over k j (inl e) h =
          ap (is_over k) (ap u.served (sym e) ∙ here)
          ∙ m.keeps k (ap (λ x. is_over k (w.served x)) e ∙ h)
      over k j (inr e) h = ap (is_over k) (elsewhere j e) ∙ h

      same :
          (k : Kind) (f j : ℕ)
          → (i ≡ j) ⊎ (nat_eq i j ≡ false)
          → is_over k (w.served j) ≡ true
          → told k f j u.started ≡ told k f j w.started
      same k f j (inl e) h =
          ground (arith, m.tells k f j, m.late k f (ap (λ x. is_over k (w.served x)) e ∙ h))
      same k f j (inr e) h = ground (arith, e, m.tells k f j)
