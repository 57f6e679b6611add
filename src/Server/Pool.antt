-- ===== src/Server/Pool.antt =====
-- server.go, birpc_server.go: the request objects that the connections of a server hold, each in its
-- calls.
use birpc.Base.{
  ℕ, zero, suc, ◌+◌, ◌≤◌, ◌<◌, ◌≡◌, refl, sym, ◌∙◌, ap, inl, inr, Option, none, some, List, [], ◌∷◌,
  ◌++◌, false, arith, count, count-append, nat_eq, nat_eq_cases, update, if◌then◌else◌,
}
use birpc.Server.{Task}
use birpc.Server.Accounts.{reqs, seqs}
use birpc.Wire.{Request}

module _ {V : Type 0} (tasks : V → List Task) where
  abbrev pub held_of : Option V → List ℕ
  held_of none = []
  held_of (some v) = reqs (tasks v)

  -- what the connections below a number hold, and what all of them but one do
  abbrev pub pool : (ℕ → Option V) → ℕ → List ℕ
  pool served zero = []
  pool served (suc n) = held_of (served n) ++ pool served n

  abbrev pub others : (ℕ → Option V) → ℕ → ℕ → List ℕ
  others served i zero = []
  others served i (suc n) = (if nat_eq i n then [] else held_of (served n)) ++ others served i n

  others-above :
      (served : ℕ → Option V) (i n q : ℕ)
      → n ≤ i
      → count q (others served i n) ≡ count q (pool served n)
  others-above served i zero q h = refl
  others-above served i (suc n) q h = ground (
    arith,
    others-above served i n q,
    count-append q (held_of (served n)) (others served i n),
    count-append q (held_of (served n)) (pool served n),
  )

  pub pool-others :
      (served : ℕ → Option V) (i n q : ℕ)
      → i < n
      → count q (pool served n) ≡ count q (held_of (served i)) + count q (others served i n)
  pool-others served i zero q h = absurd (omega arith)
  pool-others served i (suc n) q h = elim (nat_eq_cases i n) [
    | inl e ↦
        let at_i : count q (held_of (served i)) ≡ count q (held_of (served n)) =
          ap (λ m. count q (held_of (served m))) e in
        ground (
          arith,
          e,
          at_i,
          others-above served i n q,
          count-append q (held_of (served n)) (others served i n),
          count-append q (held_of (served n)) (pool served n),
        )
    | inr e ↦ ground (
      arith,
      e,
      pool-others served i n q,
      count-append q (held_of (served n)) (others served i n),
      count-append q (held_of (served n)) (pool served n),
    )
  ]

  pub others-update :
      (served : ℕ → Option V) (i n : ℕ) (v : Option V)
      → others (update served i v) i n ≡ others served i n
  others-update served i zero v = refl
  others-update served i (suc n) v = ground (arith, others-update served i n v)

  pub pool-update :
      (served : ℕ → Option V) (i n : ℕ) (v : Option V)
      → n ≤ i
      → pool (update served i v) n ≡ pool served n
  pool-update served i zero v h = refl
  pool-update served i (suc n) v h = ground (arith, pool-update served i n v)

  pub held_of-le-others :
      (served : ℕ → Option V) (i j n q : ℕ)
      → j < n
      → nat_eq i j ≡ false
      → count q (held_of (served j)) ≤ count q (others served i n)
  held_of-le-others served i j zero q h e = absurd (omega arith)
  held_of-le-others served i j (suc n) q h e = elim (nat_eq_cases j n) [
    | inl k ↦
        let at_j : count q (held_of (served j)) ≡ count q (held_of (served n)) =
          ap (λ m. count q (held_of (served m))) k in
        let apart : nat_eq i n ≡ false = ap (nat_eq i) (sym k) ∙ e in
        ground (
          arith,
          apart,
          at_j,
          count-append q (if nat_eq i n then [] else held_of (served n)) (others served i n),
        )
    | inr k ↦ ground (
      arith,
      k,
      held_of-le-others served i j n q,
      count-append q (if nat_eq i n then [] else held_of (served n)) (others served i n),
    )
  ]

pub seqs-agree :
    (cells cells' : ℕ → Request) (hs : List ℕ)
    → ((q : ℕ) → 0 < count q hs → (cells' q).seq ≡ (cells q).seq)
    → seqs cells' hs ≡ seqs cells hs
seqs-agree cells cells' [] h = refl
seqs-agree cells cells' (p ∷ hs) h =
    let here : (cells' p).seq ≡ (cells p).seq = h p (ground arith) in
    let later : seqs cells' hs ≡ seqs cells hs =
      seqs-agree cells cells' hs (λ q k. h q (ground arith)) in
    rw (here, later) refl
