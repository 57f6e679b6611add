-- ===== src/Pending/Laws.antt =====
-- internal/svc/svc.go: what Start and Cancel do to the contexts of a connection.
use birpc.Base.{
  nat_Eq, ℕ, ◌≤◌, ◌<◌, ◌≡◌, ◌≢◌, refl, none, some, true, count, arith, Option-cases, inl, inr,
}
use birpc.Base.Dict.{get, delete, get-put, get-delete}
use birpc.Context.{Context, Clock, is_done, fire, cancel_node}
use birpc.Context.Laws.{Below, Below-mono, is_done-fire_above}
use birpc.Pending.{Pending, start, cancel}

-- The cancel functions in the map are different for different numbers, and none has been called.
pub record Inv (s : Pending) (k : Clock) : Type 0 where
  pub rooted : Below k.next_id s.parent.std
  pub above : (seq id : ℕ) → get seq s.m ≡ some id → Below id s.parent.std
  pub known : (seq id : ℕ) → get seq s.m ≡ some id → id < k.next_id
  pub live : (seq id : ℕ) → get seq s.m ≡ some id → count id k.fired ≡ 0
  pub apart : (a b id : ℕ) → get a s.m ≡ some id → get b s.m ≡ some id → a ≡ b
  pub past : (id : ℕ) → k.next_id ≤ id → count id k.fired ≡ 0

pub start-Inv :
    (s : Pending) (seq : ℕ) (k : Clock) → Inv s k → Inv (start s seq k).1 (start s seq k).2
unfolding start
start-Inv s seq k v = record {
  rooted = Below-mono s.parent.std (omega arith) v.rooted;
  above = λ a id h. ground (arith, get-put seq a k.next_id s.m, v.rooted, v.above a id);
  known = λ a id h. ground (arith, get-put seq a k.next_id s.m, v.known a id);
  live = λ a id h. ground (arith, get-put seq a k.next_id s.m, v.live a id, v.past id);
  apart = λ a b id h g. ground (
    arith,
    get-put seq a k.next_id s.m,
    get-put seq b k.next_id s.m,
    v.apart a b id,
    v.known a id,
    v.known b id,
  );
  past = λ id h. ground (arith, v.past id);
}

cancel_found-Inv :
    (s : Pending) (seq id : ℕ) (k : Clock)
    → get seq s.m ≡ some id
    → Inv s k
    → Inv (record s { m = delete seq s.m }) (fire id k)
unfolding fire
cancel_found-Inv s seq id k e v = record {
  rooted = v.rooted;
  above = λ a i h. ground (arith, get-delete seq a s.m, v.above a i);
  known = λ a i h. ground (arith, get-delete seq a s.m, v.known a i);
  live = λ a i h. ground (arith, get-delete seq a s.m, v.live a i, v.apart seq a id);
  apart = λ a b i h g. ground (arith, get-delete seq a s.m, get-delete seq b s.m, v.apart a b i);
  past = λ i h. ground (arith, v.past i, v.known seq id);
}

pub cancel-Inv :
    (s : Pending) (seq : ℕ) (k : Clock) → Inv s k → Inv (cancel s seq k).0 (cancel s seq k).1
unfolding cancel
cancel-Inv s seq k v = elim (Option-cases (get seq s.m)) [
  | inl e ↦ rw (e, cancel) v
  | inr (id, e) ↦ rw (e, cancel) (cancel_found-Inv s seq id k e v)
]

-- A call in progress: the context that Start made for the number `seq`, still in the map.
pub record Runs (s : Pending) (seq : ℕ) (ctx : Context) : Type 0 where
  pub id : ℕ
  pub entry : get seq s.m ≡ some id
  pub made : ctx.std ≡ cancel_node id s.parent.std

pub start-Runs : (s : Pending) (seq : ℕ) (k : Clock) → Runs (start s seq k).1 seq (start s seq k).0
unfolding start
start-Runs s seq k = record {
  id = k.next_id;
  entry = ground (arith, get-put seq seq k.next_id s.m);
  made = refl;
}

-- Where the cancel functions in the map are different ones and none was called: Cancel ends the
-- context of the call it names, but the context of no other call in progress, takes the named call
-- out of the map and leaves the other's entry.
pub cancel_scope :
    (s : Pending) (a b : ℕ) (ctx other : Context) (k : Clock)
    → Inv s k
    → Runs s a ctx
    → Runs s b other
    → b ≢ a
    → (is_done (cancel s a k).1 ctx.std ≡ true)
      × (is_done (cancel s a k).1 other.std ≡ is_done k other.std)
      × (get a (cancel s a k).0.m ≡ none)
      × (get b (cancel s a k).0.m ≡ get b s.m)
unfolding cancel is_done fire
cancel_scope s a b ctx other k v r q ne =
    let same = is_done-fire_above r.id k s.parent.std (v.above a r.id r.entry) in
    (
      rw (r.entry, cancel, r.made) (ground arith),
      rw (r.entry, cancel, q.made) (ground (arith, v.apart a b r.id r.entry, q.entry, same)),
      ground (arith, r.entry, get-delete a a s.m),
      ground (arith, r.entry, get-delete a b s.m),
    )

-- A second Cancel for the same number does nothing.
pub cancel_twice :
    (s : Pending) (seq : ℕ) (k : Clock)
    → cancel (cancel s seq k).0 seq (cancel s seq k).1 ≡ cancel s seq k
unfolding cancel
cancel_twice s seq k = elim (Option-cases (get seq s.m)) [
  | inl e ↦ ground (arith, e)
  | inr (id, e) ↦ ground (arith, e, get-delete seq seq s.m)
]
