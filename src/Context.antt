-- ===== src/Context.antt =====
-- context/context.go: a context of the library is one of the standard package with the connection
-- that a handler may call back on. The standard package's contexts are the chains of With… calls
-- that made them; its cancel functions are named by numbers, and `fired` lists those called so far.
pub mod Laws
use birpc.Base.{
  ℕ, suc, ◌+◌, ◌≡◌, Bool, true, false, ◌||◌, Option, none, some, List, [], ◌∷◌, count, ltb,
}
use birpc.Wire.{Value}

-- the interface `context.Context` of the standard library
pub data StdContext : Type 0 where
  background_node todo_node : StdContext
  cancel_node : (id : ℕ) → (parent : StdContext) → StdContext
  deadline_node : (id deadline : ℕ) → (parent : StdContext) → StdContext
  value_node : (key val : Value) → (parent : StdContext) → StdContext

pub record Context : Type 0 where
  pub std : StdContext
  pub client : Option ℕ

-- The time, the next number for a cancel function, and the cancel functions called so far.
pub record Clock : Type 0 where
  pub now : ℕ
  pub next_id : ℕ
  pub fired : List ℕ

-- Whether Done is closed: a cancel function or a deadline at the context or above it has come.
unfoldable pub is_done : Clock → StdContext → Bool
is_done k background_node = false
is_done k todo_node = false
is_done k (cancel_node id parent) = ltb 0 (count id k.fired) || is_done k parent
is_done k (deadline_node id deadline parent) =
    ltb 0 (count id k.fired) || ltb deadline (k.now + 1) || is_done k parent
is_done k (value_node key val parent) = is_done k parent

abbrev pub background : Context
background = record { std = background_node; client = none }

abbrev pub todo : Context
todo = record { std = todo_node; client = none }

-- WithCancel: the context, its cancel function, and the clock with that number taken
unfoldable pub with_cancel : Context → Clock → Context × ℕ × Clock
with_cancel parent k = (
  record { client = parent.client; std = cancel_node k.next_id parent.std },
  k.next_id,
  record k { next_id = k.next_id + 1 },
)

unfoldable pub with_deadline : Context → ℕ → Clock → Context × ℕ × Clock
with_deadline parent d k = (
  record { client = parent.client; std = deadline_node k.next_id d parent.std },
  k.next_id,
  record k { next_id = k.next_id + 1 },
)

-- WithTimeout of the standard library is WithDeadline at the time now plus the timeout.
unfoldable pub with_timeout : Context → ℕ → Clock → Context × ℕ × Clock
with_timeout parent timeout k = (
  record { client = parent.client; std = deadline_node k.next_id (k.now + timeout) parent.std },
  k.next_id,
  record k { next_id = k.next_id + 1 },
)

unfoldable pub with_value : Context → Value → Value → Context
with_value parent key val = record { client = parent.client; std = value_node key val parent.std }

unfoldable pub with_client : Context → Option ℕ → Context
with_client parent clnt = record { client = clnt; std = parent.std }

-- A call of the cancel function `id`.
unfoldable pub fire : ℕ → Clock → Clock
fire id k = record k { fired = id ∷ k.fired }
