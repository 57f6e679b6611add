-- ===== src/Client/Invariant.antt =====
-- client.go, basic_client.go: the invariant of the client's goroutines.
use birpc.Base.{
  ℕ, ◌+◌, ◌≤◌, ◌<◌, ◌≡◌, refl, Option, none, some, Bool, true, false, arith, count, nat_eq, nat_Eq,
  if◌then◌else◌, Option-cases, inl, inr,
}
use birpc.Base.Dict.{get, IsMap}
use birpc.Client.{
  Client, Channel, Phase, absent, fresh, writing, sent, left, Input, reading, handling, failing,
  stopped, new_client,
}

-- A call that was sent, or is being sent, and whose Call has not given it up.
abbrev pub is_out : Phase → Bool
is_out absent = false
is_out fresh = false
is_out writing = true
is_out sent = true
is_out left = false

abbrev pub is_new : Phase → Bool
is_new absent = true
is_new fresh = true
is_new writing = false
is_new sent = false
is_new left = false

-- Whether a call stands in the map, under its own number; after the end of input the map is dead.
abbrev pub matches : Option ℕ → ℕ → ℕ
matches none p = 0
matches (some q) p = if nat_eq q p then 1 else 0

abbrev pub in_map : Client → Input → ℕ → ℕ
in_map c stopped p = 0
in_map c reading p = matches (get (c.calls p).seq c.pending) p
in_map c (handling o r) p = matches (get (c.calls p).seq c.pending) p
in_map c (failing e) p = matches (get (c.calls p).seq c.pending) p

-- Whether input holds the call.
abbrev pub in_hand : Input → ℕ → ℕ
in_hand reading p = 0
in_hand (handling o r) p = matches o p
in_hand (failing e) p = 0
in_hand stopped p = 0

-- How often a call is to be signalled or has been.
abbrev pub tally : Client → ℕ → ℕ
tally c p = in_map c c.input p + in_hand c.input p + count p c.signals

-- The bounds of the tally by phase: a call that is out is owed exactly one signal, one that is not
-- sent yet none, and one that was given up at most one.
abbrev pub least : Phase → ℕ
least ph = if is_out ph then 1 else 0

abbrev pub most : Phase → ℕ
most ph = if is_new ph then 0 else 1

pub record Inv (c : Client) : Type 0 where
  pub keyed : (s p : ℕ) → get s c.pending ≡ some p → (c.calls p).seq ≡ s
  pub listed : (s p : ℕ) → get s c.pending ≡ some p → is_out (c.phase p) ≡ true
  pub ranged : (s p : ℕ) → get s c.pending ≡ some p → (0 < s) × (s ≤ c.seq)
  pub distinct : IsMap c.pending
  pub numbered : (p : ℕ) → is_out (c.phase p) ≡ true → (c.calls p).seq ≤ c.seq
  pub owned :
      (p q : ℕ)
      → is_out (c.phase p) ≡ true
      → is_out (c.phase q) ≡ true
      → 0 < (c.calls p).seq
      → (c.calls p).seq ≡ (c.calls q).seq
      → p ≡ q
  pub young : (p : ℕ) → is_new (c.phase p) ≡ true → (c.calls p).seq ≡ 0
  pub unborn : (p : ℕ) → c.next_call ≤ p → c.phase p ≡ absent
  pub writes :
      (p : ℕ)
      → c.sending ≡ some p
      → (c.phase p ≡ writing)
        × (c.request.seq ≡ (c.calls p).seq)
        × (c.request.service_method ≡ (c.calls p).service_method)
  pub halted : c.input ≡ stopped → (c.shutdown ≡ true) × (c.sending ≡ none)
  pub lower : (p : ℕ) → least (c.phase p) ≤ tally c p
  pub upper : (p : ℕ) → tally c p ≤ most (c.phase p)

pub new_client-Inv : (channels : ℕ → Channel) → Inv (new_client channels)
unfolding new_client get
new_client-Inv channels = record {
  keyed = λ s p h. cc;
  listed = λ s p h. cc;
  ranged = λ s p h. cc;
  distinct = tt;
  numbered = λ p h. cc;
  owned = λ p q h k. cc;
  young = λ p h. refl;
  unborn = λ p h. refl;
  writes = λ p h. cc;
  halted = λ h. cc;
  lower = λ p. omega arith;
  upper = λ p. ground arith;
}

-- No call stands under the number 0, which a call has before it is sent.
pub no_zero : (c : Client) → Inv c → get 0 c.pending ≡ none
no_zero c v = elim (Option-cases (get 0 c.pending)) [
  | inl e ↦ e
  | inr (p, e) ↦ absurd (omega (arith, v.ranged 0 p e))
]

-- Nor under a number that was not given out yet.
pub no_later : (c : Client) (s : ℕ) → Inv c → c.seq < s → get s c.pending ≡ none
no_later c s v h = elim (Option-cases (get s c.pending)) [
  | inl e ↦ e
  | inr (p, e) ↦ absurd (omega (arith, v.ranged s p e))
]
