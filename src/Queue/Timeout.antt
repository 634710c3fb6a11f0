-- ===== src/Queue/Timeout.antt =====
-- PushWithTimeout and PopWithTimeout of internal/queue/queue.go: the call runs in a goroutine of
-- its own, which goes on after the caller has been told that the time is over.
use logsieve.Prelude.{◌<◌, false, ◌≡◌, List, [], ◌∷◌, ◌++◌, Option, some, length, arith}
use logsieve.Queue.{
  Queue, QueueError, push_timeout, pop_timeout, Poll, blocked, done, Result, err, push, pop,
}
use logsieve.Queue.Order.{Op, pushes, pops, step, run}

module _ {ℓ} {A : Type ℓ} where
  -- The goroutine that calls Pop: while it waits, another thread's section runs and it tries again.
  await_pop : List (Op A) → Queue A → Poll (Result A) × Queue A
  await_pop [] q = pop q
  await_pop (o ∷ os) q = elim (pop q).0 [
    | blocked ↦ await_pop os (step o q).after
    | done r ↦ (done r, (run (o ∷ os) (pop q).1).after)
  ]

  await_push : A → List (Op A) → Queue A → Poll (Option QueueError) × Queue A
  await_push x [] q = push x q
  await_push x (o ∷ os) q = elim (push x q).0 [
    | blocked ↦ await_push x os (step o q).after
    | done r ↦ (done r, (run (o ∷ os) (push x q).1).after)
  ]

  -- The sections that other threads run before the timer fires, and those that they run after it.
  unfoldable pub pop_with_timeout : List (Op A) → List (Op A) → Queue A → Result A × Queue A
  unfolding await_pop
  pop_with_timeout before later q = elim (await_pop before q).0 [
    | blocked ↦ (err pop_timeout, (await_pop later (await_pop before q).1).1)
    | done r ↦ (r, (run later (await_pop before q).1).after)
  ]

  unfoldable pub push_with_timeout :
      A → List (Op A) → List (Op A) → Queue A → Option QueueError × Queue A
  unfolding await_push
  push_with_timeout x before later q = elim (await_push x before q).0 [
    | blocked ↦ (some push_timeout, (await_push x later (await_push x before q).1).1)
    | done r ↦ (r, (run later (await_push x before q).1).after)
  ]

  -- An item is lost: on an open empty queue with room, when PopWithTimeout has run out of time and
  -- a producer then pushes an item, the abandoned goroutine takes it. The caller was told of a
  -- timeout, and the queue is empty again.
  pub pop_timeout_loses :
      (q : Queue A) (x : A)
      → q.items ≡ []
      → q.closed ≡ false
      → 0 < q.capacity
      → ((pop_with_timeout [] (pushes x ∷ []) q).0 ≡ err pop_timeout)
        × ((step (pushes x) q).accepted ≡ x ∷ [])
        × ((pop_with_timeout [] (pushes x ∷ []) q).1.items ≡ [])
  unfolding pop_with_timeout step push pop run
  pop_timeout_loses q x e o c = ground arith

  -- An item is enqueued after its failure was reported: on an open queue that holds exactly its
  -- capacity, when PushWithTimeout has run out of time and a consumer then pops, the abandoned
  -- goroutine pushes the item all the same.
  pub push_timeout_enqueues :
      (q : Queue A) (x y : A) (ys : List A)
      → q.items ≡ y ∷ ys
      → q.closed ≡ false
      → length q.items ≡ q.capacity
      → ((push_with_timeout x [] (pops ∷ []) q).0 ≡ some push_timeout)
        × ((push_with_timeout x [] (pops ∷ []) q).1.items ≡ ys ++ x ∷ [])
  unfolding push_with_timeout step push pop run
  push_timeout_enqueues q x y ys e o c = ground arith
