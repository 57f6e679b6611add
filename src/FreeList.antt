-- ===== src/FreeList.antt =====
-- basic_server.go: the free lists of Request and Response objects. Both types are linked through
-- their field `next`, and the four functions differ in nothing else, so the list is modelled once
-- over the interface `Linked`. Objects live in a store and are named by their address.
pub mod Chain
pub mod Ownership
use birpc.Base.{ℕ, suc, ◌+◌, ◌≡◌, refl, Option, none, some, update}
use birpc.Wire.{Request, Response, zero_request, zero_response}

-- An object type with a link and a zero value.
pub record Linked {ℓ} (A : Type ℓ) : Type ℓ where
  pub fresh : A
  pub link : A → Option ℕ
  pub relink : A → Option ℕ → A
  pub link-relink : (a : A) (o : Option ℕ) → link (relink a o) ≡ o

pub link-relink_request : (r : Request) (o : Option ℕ) → (record r { next = o }).next ≡ o
link-relink_request r o = refl

pub link-relink_response : (r : Response) (o : Option ℕ) → (record r { next = o }).next ≡ o
link-relink_response r o = refl

instance abbrev pub Request-Linked : Linked Request
Request-Linked = record {
  fresh = zero_request;
  link = λ r. r.next;
  relink = λ r o. record r { next = o };
  link-relink = link-relink_request;
}

instance abbrev pub Response-Linked : Linked Response
Response-Linked = record {
  fresh = zero_response;
  link = λ r. r.next;
  relink = λ r o. record r { next = o };
  link-relink = link-relink_response;
}

-- `freeReq` or `freeResp` with the store it points into; `used` counts the addresses given out.
pub record FreeList {ℓ} (A : Type ℓ) : Type ℓ where
  pub cells : ℕ → A
  pub used : ℕ
  pub head : Option ℕ

module _ {ℓ} {A : Type ℓ} ⦃l : Linked A⦄ where
  unfoldable pub empty : FreeList A
  empty = record { cells = λ _. l.fresh; used = 0; head = none }

  -- getRequest, getResponse: a new object where the list is empty, else its first one, zeroed
  unfoldable pub obtain : FreeList A → ℕ × FreeList A
  obtain f = elim f.head [
    | none ↦
        (f.used, record { cells = update f.cells f.used l.fresh; used = f.used + 1; head = none })
    | some p ↦
        (p, record { cells = update f.cells p l.fresh; used = f.used; head = l.link (f.cells p) })
  ]

  -- freeRequest, freeResponse
  unfoldable pub release : ℕ → FreeList A → FreeList A
  release p f = record f { cells = update f.cells p (l.relink (f.cells p) f.head); head = some p }
