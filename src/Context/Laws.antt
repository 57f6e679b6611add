-- ===== src/Context/Laws.antt =====
-- context/context.go: which contexts a cancel function ends, and what the With… functions inherit.
use birpc.Base.{ℕ, ◌≤◌, ◌<◌, ◌≡◌, refl, Bool, true, false, ◌||◌, Option, count, ltb, arith}
use birpc.Wire.{Value}
use birpc.Context.{
  StdContext, background_node, todo_node, cancel_node, deadline_node, value_node, Context, Clock,
  is_done, with_cancel, with_deadline, with_timeout, with_value, with_client, fire,
}

-- Every cancel function on the way up has a number below `n`.
abbrev pub Below : ℕ → StdContext → Type 0
Below n background_node = Unit {0}
Below n todo_node = Unit {0}
Below n (cancel_node id parent) = (id < n) × Below n parent
Below n (deadline_node id d parent) = (id < n) × Below n parent
Below n (value_node key val parent) = Below n parent

pub Below-mono : {m n : ℕ} (c : StdContext) → m ≤ n → Below m c → Below n c
Below-mono background_node h b = tt
Below-mono todo_node h b = tt
Below-mono (cancel_node id c) h b = (omega arith, Below-mono c h b.1)
Below-mono (deadline_node id d c) h b = (omega arith, Below-mono c h b.1)
Below-mono (value_node key val c) h b = Below-mono c h b

-- A cancel function that is not on the way up changes nothing.
pub is_done-fire_above :
    (n : ℕ) (k : Clock) (c : StdContext) → Below n c → is_done (fire n k) c ≡ is_done k c
unfolding is_done fire
is_done-fire_above n k background_node b = refl
is_done-fire_above n k todo_node b = refl
is_done-fire_above n k (cancel_node id c) b = ground (arith, is_done-fire_above n k c b.1)
is_done-fire_above n k (deadline_node id d c) b = ground (arith, is_done-fire_above n k c b.1)
is_done-fire_above n k (value_node key val c) b = is_done-fire_above n k c b

-- Taking a number for a cancel function ends nothing.
pub is_done-next_id :
    (n : ℕ) (k : Clock) (c : StdContext) → is_done (record k { next_id = n }) c ≡ is_done k c
unfolding is_done
is_done-next_id n k background_node = refl
is_done-next_id n k todo_node = refl
is_done-next_id n k (cancel_node id c) = ground (arith, is_done-next_id n k c)
is_done-next_id n k (deadline_node id d c) = ground (arith, is_done-next_id n k c)
is_done-next_id n k (value_node key val c) = is_done-next_id n k c

-- What the new context of WithCancel has: the parent's client, an end as soon as its own cancel
-- function is called or the parent has ended, and no influence on the parent.
pub with_cancel_scope :
    (parent : Context) (k j : Clock)
    → Below k.next_id parent.std
    → let (ctx, cancel, k') = with_cancel parent k in
      (ctx.client ≡ parent.client)
      × (is_done j ctx.std ≡ (ltb 0 (count cancel j.fired) || is_done j parent.std))
      × (is_done (fire cancel j) ctx.std ≡ true)
      × (is_done (fire cancel j) parent.std ≡ is_done j parent.std)
      × Below k'.next_id ctx.std
unfolding with_cancel is_done fire
with_cancel_scope parent k j b = (
  refl,
  refl,
  ground arith,
  unfold fire in is_done-fire_above k.next_id j parent.std b,
  (omega arith, Below-mono parent.std (omega arith) b),
)

-- A context made from `parent` by any function of the package.
pub data Derives (parent : Context) : Context → Type 0 where
  by_cancel : (k : Clock) → Derives parent (with_cancel parent k).0
  by_deadline : (d : ℕ) (k : Clock) → Derives parent (with_deadline parent d k).0
  by_timeout : (t : ℕ) (k : Clock) → Derives parent (with_timeout parent t k).0
  by_value : (key val : Value) → Derives parent (with_value parent key val)
  by_client : (clnt : Option ℕ) → Derives parent (with_client parent clnt)

or_true : (b : Bool) → (b || true) ≡ true
or_true true = refl
or_true false = refl

-- Whatever function made it, a context has ended once its parent has.
pub Derives-is_done :
    {parent ctx : Context} (k : Clock)
    → Derives parent ctx
    → is_done k parent.std ≡ true
    → is_done k ctx.std ≡ true
unfolding is_done with_cancel with_deadline with_timeout with_value with_client
Derives-is_done k (by_cancel j) h = ground arith
Derives-is_done k (by_deadline d j) h = ground arith
Derives-is_done k (by_timeout t j) h = ground arith
Derives-is_done k (by_value key val) h = h
Derives-is_done k (by_client clnt) h = h
