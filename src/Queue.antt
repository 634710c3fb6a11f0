-- ===== src/Queue.antt =====
-- internal/queue/queue.go: the bounded blocking queue. A method is one critical section under the
-- mutex; `blocked` is the state in which it waits on a condition variable.
pub mod Order
pub mod Close
pub mod Timeout
pub mod Tests
use logsieve.Prelude.{
  ℕ, min, Bool, true, false, not, ◌&&◌, ◌||◌, List, [], ◌∷◌, ◌++◌, Option, none, some, length, take,
  drop, leb, if◌then◌else◌,
}

-- The errors that the methods return.
pub data QueueError : Type 0 where
  queue_closed closed_and_empty push_timeout pop_timeout : QueueError

pub record Queue {ℓ} (A : Type ℓ) : Type ℓ where
  pub items : List A
  pub capacity : ℕ
  pub closed : Bool

-- A method has returned, or waits with the lock released and tests its loop again when woken.
pub data Poll {ℓ} (R : Type ℓ) : Type ℓ where
  blocked : Poll R
  done : R → Poll R

-- A result or an error.
pub data Result {ℓ} (A : Type ℓ) : Type ℓ where
  ok : A → Result A
  err : QueueError → Result A

abbrev pub is_nil {ℓ} : {A : Type ℓ} → List A → Bool
is_nil [] = true
is_nil (x ∷ xs) = false

pub record Stats : Type 0 where
  pub size : ℕ
  pub capacity : ℕ
  pub is_full : Bool
  pub is_empty : Bool

module _ {ℓ} {A : Type ℓ} where
  unfoldable pub new : ℕ → Queue A
  new capacity = record { items = []; capacity = capacity; closed = false }

  -- The wait loop of Push and what follows it.
  push_loop : A → Queue A → Poll (Option QueueError) × Queue A
  push_loop x q =
      if leb q.capacity (length q.items) && not q.closed
      then (blocked, q)
      else if q.closed
      then (done (some queue_closed), q)
      else (done none, record q { items = q.items ++ x ∷ [] })

  unfoldable pub push : A → Queue A → Poll (Option QueueError) × Queue A
  unfolding push_loop
  push x q = if q.closed then (done (some queue_closed), q) else push_loop x q

  -- item := q.items[0]; q.items = q.items[1:]
  take_first : List A → Queue A → Poll (Result A) × Queue A
  take_first [] q = (blocked, q)
  take_first (x ∷ rest) q = (done (ok x), record q { items = rest })

  unfoldable pub pop : Queue A → Poll (Result A) × Queue A
  unfolding take_first
  pop q =
      if is_nil q.items && not q.closed
      then (blocked, q)
      else if is_nil q.items && q.closed
      then (done (err closed_and_empty), q)
      else take_first q.items q

  abbrev pub batch_size : ℕ → List A → ℕ
  batch_size max_size items = if leb (length items) max_size then length items else max_size

  unfoldable pub pop_batch : ℕ → Queue A → Poll (Result (List A)) × Queue A
  pop_batch max_size q =
      if is_nil q.items && not q.closed
      then (blocked, q)
      else if is_nil q.items && q.closed
      then (done (err closed_and_empty), q)
      else (
        done (ok (take (batch_size max_size q.items) q.items)),
        record q { items = drop (batch_size max_size q.items) q.items },
      )

  try_take : List A → Queue A → Option A × Queue A
  try_take [] q = (none, q)
  try_take (x ∷ rest) q = (some x, record q { items = rest })

  unfoldable pub try_pop : Queue A → Option A × Queue A
  unfolding try_take
  try_pop q = try_take q.items q

  unfoldable pub try_push : A → Queue A → Bool × Queue A
  try_push x q =
      if q.closed || leb q.capacity (length q.items)
      then (false, q)
      else (true, record q { items = q.items ++ x ∷ [] })

  unfoldable pub size : Queue A → ℕ
  size q = length q.items

  unfoldable pub is_empty : Queue A → Bool
  is_empty q = is_nil q.items

  unfoldable pub is_full : Queue A → Bool
  is_full q = leb q.capacity (length q.items)

  unfoldable pub stats : Queue A → Stats
  stats q = record {
    size = length q.items;
    capacity = q.capacity;
    is_full = leb q.capacity (length q.items);
    is_empty = is_nil q.items;
  }

  unfoldable pub close : Queue A → Queue A
  close q = if q.closed then q else record q { closed = true }

  unfoldable pub clear : Queue A → Queue A
  clear q = record q { items = [] }
