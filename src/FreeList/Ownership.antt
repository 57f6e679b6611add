-- ===== src/FreeList/Ownership.antt =====
-- basic_server.go: who holds the objects of a free list while connections obtain and release them.
use birpc.Base.{
  update, ℕ, ◌+◌, ◌≤◌, ◌<◌, ◌≡◌, refl, List, [], ◌∷◌, count, arith, nat_eq, ltb, if◌then◌else◌, inl,
  inr, Bool-cases,
}
use birpc.FreeList.{Linked, FreeList, empty, obtain, release}
use birpc.FreeList.Chain.{Holds, Chain-update, rest, empty-Holds, obtain-Holds, release-Holds}

-- A goroutine asks for an object, or gives back one that it holds.
pub data Op : Type 0 where
  obtains : Op
  releases : ℕ → Op

abbrev drop_one : ℕ → List ℕ → List ℕ
drop_one p [] = []
drop_one p (q ∷ qs) = if nat_eq p q then qs else q ∷ drop_one p qs

count-drop_one :
    (p q : ℕ) (qs : List ℕ)
    → count q (drop_one p qs) + (if nat_eq q p then (if ltb 0 (count p qs) then 1 else 0) else 0)
      ≡ count q qs
count-drop_one p q [] = ground arith
count-drop_one p q (x ∷ qs) = ground (arith, count-drop_one p q qs)

-- A free list, and the addresses that goroutines hold. Nobody releases what is not held.
pub record Shared {ℓ} (A : Type ℓ) : Type ℓ where
  pub free : FreeList A
  pub held : List ℕ

module _ {ℓ} {A : Type ℓ} ⦃l : Linked A⦄ where
  unfoldable pub step : Shared A → Op → Shared A
  step s obtains = let (p, f) = obtain s.free in record { free = f; held = p ∷ s.held }
  step s (releases p) =
      if ltb 0 (count p s.held)
      then record { free = release p s.free; held = drop_one p s.held }
      else s

  unfoldable pub run : Shared A → List Op → Shared A
  run s [] = s
  run s (o ∷ os) = run (step s o) os

  pub record Inv (s : Shared A) (ps : List ℕ) : Type ℓ where
    pub listed : Holds s.free ps
    pub apart : (p : ℕ) → count p ps + count p s.held ≤ 1
    pub known : (p : ℕ) → s.free.used ≤ p → count p s.held ≡ 0

  obtain-apart :
      (s : Shared A) (ps : List ℕ)
      → Inv s ps
      → (q : ℕ) → count q (rest ps) + count q (step s obtains).held ≤ 1
  unfolding step obtain
  obtain-apart s [] v q = ground (arith, v.listed.chain, v.known q, v.apart q)
  obtain-apart s (p ∷ ps) v q = ground (arith, v.listed.chain, v.apart q)

  obtain-known :
      (s : Shared A) (ps : List ℕ)
      → Inv s ps
      → (q : ℕ) → (step s obtains).free.used ≤ q
      → count q (step s obtains).held ≡ 0
  unfolding step obtain
  obtain-known s [] v q h = ground (arith, v.listed.chain, v.known q)
  obtain-known s (p ∷ ps) v q h = ground (arith, v.listed.chain, v.known q, v.listed.allocated q)

  pub obtain-Inv : (s : Shared A) (ps : List ℕ) → Inv s ps → Inv (step s obtains) (rest ps)
  unfolding step
  obtain-Inv s ps v = record {
    listed = obtain-Holds s.free ps v.listed;
    apart = obtain-apart s ps v;
    known = obtain-known s ps v;
  }

  release-used : (p : ℕ) (f : FreeList A) → (release p f).used ≡ f.used
  unfolding release
  release-used p f = refl

  -- Fewer objects may be held, in another order.
  pub Inv-held :
      (f : FreeList A) (hs gs ps : List ℕ)
      → ((q : ℕ) → count q gs ≤ count q hs)
      → Inv (record { free = f; held = hs }) ps
      → Inv (record { free = f; held = gs }) ps
  Inv-held f hs gs ps less v = record {
    listed = v.listed;
    apart = λ q. omega (arith, less q, v.apart q);
    known = λ q k. omega (arith, less q, v.known q k);
  }

  -- A holder may write to its object.
  pub write-Inv :
      (f : FreeList A) (hs ps : List ℕ) (p : ℕ) (a : A)
      → 0 < count p hs
      → Inv (record { free = f; held = hs }) ps
      → Inv (record { free = record f { cells = update f.cells p a }; held = hs }) ps
  write-Inv f hs ps p a h v = record {
    listed = record {
      chain = Chain-update f.cells f.head ps p a (omega (arith, v.apart p)) v.listed.chain;
      once = v.listed.once;
      allocated = v.listed.allocated;
    };
    apart = v.apart;
    known = v.known;
  }

  pub release-Inv :
      (f : FreeList A) (hs gs ps : List ℕ) (p : ℕ)
      → ((q : ℕ) → count q (p ∷ gs) ≤ count q hs)
      → Inv (record { free = f; held = hs }) ps
      → Inv (record { free = release p f; held = gs }) (p ∷ ps)
  release-Inv f hs gs ps p less v = record {
    listed =
        release-Holds f ps p (ground (arith, less p, v.known p)) (ground (arith, less p, v.apart p))
          v.listed;
    apart = λ q. ground (arith, v.apart q, less q);
    known = λ q k. ground (arith, v.known q, less q, release-used p f);
  }

  step-Inv : (s : Shared A) (ps : List ℕ) (o : Op) → Inv s ps → (qs : List ℕ) × Inv (step s o) qs
  unfolding step
  step-Inv s ps obtains v = (rest ps, obtain-Inv s ps v)
  step-Inv s ps (releases p) v = elim (Bool-cases (ltb 0 (count p s.held))) [
    | inl e ↦ (
      p ∷ ps,
      rw (e, step)
          (release-Inv s.free s.held (drop_one p s.held) ps p
            (λ q. ground (arith, count-drop_one p q s.held)) v),
    )
    | inr e ↦ (ps, rw (e, step) v)
  ]

  run-Inv :
      (s : Shared A) (ps : List ℕ) (os : List Op) → Inv s ps → (qs : List ℕ) × Inv (run s os) qs
  unfolding run
  run-Inv s ps [] v = (ps, v)
  run-Inv s ps (o ∷ os) v = let (qs, w) = step-Inv s ps o v in run-Inv (step s o) qs os w

  abbrev pub start : Shared A
  start = record { free = empty; held = [] }

  start-Inv : Inv start []
  start-Inv = record { listed = empty-Holds; apart = λ p. omega arith; known = λ p h. refl }

  -- An object that is obtained is zeroed, and no other object is changed.
  pub obtain-zeroed :
      (f : FreeList A) (q : ℕ)
      → (obtain f).1.cells q ≡ (if nat_eq (obtain f).0 q then l.fresh else f.cells q)
  unfolding obtain
  obtain-zeroed f q = ground arith

-- Whatever sequence of getRequest and freeRequest calls goroutines make on a new server, each
-- releasing only what it holds, no object is ever held twice.
pub run-held_once {ℓ} :
    (A : Type ℓ) ⦃l : Linked A⦄ (os : List Op) (p : ℕ) → count p (run (start {A = A}) os).held ≤ 1
run-held_once A os p =
    let (qs, v) = run-Inv (start {A = A}) [] os start-Inv in omega (arith, v.apart p)
