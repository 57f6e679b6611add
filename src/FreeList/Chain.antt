-- ===== src/FreeList/Chain.antt =====
-- basic_server.go: the shape of a free list, and that obtaining and releasing keep it.
use birpc.Base.{ℕ, ◌≤◌, ◌<◌, ◌≡◌, refl, Option, none, some, List, [], ◌∷◌, update, count, arith}
use birpc.FreeList.{Linked, FreeList, empty, obtain, release}

-- What is left on the list after `obtain`.
abbrev pub rest : List ℕ → List ℕ
rest [] = []
rest (p ∷ ps) = ps

module _ {ℓ} {A : Type ℓ} ⦃l : Linked A⦄ where
  -- Following the links from `h` runs through the addresses `ps` and ends.
  abbrev pub Chain : (ℕ → A) → Option ℕ → List ℕ → Type 0
  Chain f h [] = h ≡ none
  Chain f h (p ∷ ps) = (h ≡ some p) × Chain f (l.link (f p)) ps

  -- The free objects, each once, all allocated.
  pub record Holds (f : FreeList A) (ps : List ℕ) : Type 0 where
    pub chain : Chain f.cells f.head ps
    pub once : (p : ℕ) → count p ps ≤ 1
    pub allocated : (p : ℕ) → f.used ≤ p → count p ps ≡ 0

  pub Chain-update :
      (f : ℕ → A) (h : Option ℕ) (ps : List ℕ) (p : ℕ) (a : A)
      → count p ps ≡ 0
      → Chain f h ps
      → Chain (update f p a) h ps
  Chain-update f h [] p a e c = c
  Chain-update f h (q ∷ ps) p a e c = ground (arith, Chain-update f (l.link (f q)) ps p a)

  pub empty-Holds : Holds empty []
  unfolding empty
  empty-Holds = record { chain = refl; once = λ p. omega arith; allocated = λ p h. refl }

  pub obtain-Holds : (f : FreeList A) (ps : List ℕ) → Holds f ps → Holds (obtain f).1 (rest ps)
  unfolding obtain
  obtain-Holds f [] v = record {
    chain = ground (arith, v.chain);
    once = λ p. omega arith;
    allocated = λ p h. refl;
  }
  obtain-Holds f (q ∷ ps) v = record {
    chain =
        ground (arith, v.chain, v.once q, Chain-update f.cells (l.link (f.cells q)) ps q l.fresh);
    once = λ p. ground (arith, v.once p);
    allocated = λ p h. ground (arith, v.chain, v.allocated p);
  }

  pub release-Holds :
      (f : FreeList A) (ps : List ℕ) (p : ℕ)
      → p < f.used
      → count p ps ≡ 0
      → Holds f ps
      → Holds (release p f) (p ∷ ps)
  unfolding release
  release-Holds f ps p lt e v = record {
    chain = ground (
      arith,
      l.link-relink (f.cells p) f.head,
      Chain-update f.cells f.head ps p (l.relink (f.cells p) f.head) e v.chain,
    );
    once = λ q. ground (arith, v.once q);
    allocated = λ q h. ground (arith, v.allocated q);
  }
