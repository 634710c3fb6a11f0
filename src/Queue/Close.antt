-- ===== src/Queue/Close.antt =====
-- internal/queue/queue.go: when the methods wait, how Try methods agree with them, and what Close
-- promises to producers and consumers.
use logsieve.Prelude.{
  ℕ, zero, suc, ◌≤◌, true, false, ◌≡◌, ◌≢◌, refl, List, [], ◌∷◌, none, some, length, arith,
  if◌then◌else◌, ◌↔◌,
}
use logsieve.Queue.{
  Queue, closed_and_empty, blocked, done, ok, err, push, pop, pop_batch, try_pop, try_push, close,
  clear,
}
use logsieve.Queue.Order.{Op, pushes, pops, step, run}

module _ {ℓ} {A : Type ℓ} where
  -- Push waits exactly when the queue is open and full, and Pop exactly when it is open and empty.
  pub blocked_iff :
      (x : A) (q : Queue A)
      → (((push x q).0 ≡ blocked) ↔ ((q.closed ≡ false) × (q.capacity ≤ length q.items)))
        × (((pop q).0 ≡ blocked) ↔ ((q.closed ≡ false) × (q.items ≡ [])))
  unfolding push pop
  blocked_iff x q = ((λ h. ground arith, λ h. ground arith), (λ h. ground arith, λ h. ground arith))

  -- TryPush and TryPop succeed exactly when Push and Pop return without an error at once, with the
  -- same item and the same queue after, and otherwise leave the queue as it was.
  pub try_agrees :
      (x : A) (q : Queue A)
      → (if (try_push x q).0
          then (push x q) ≡ (done none, (try_push x q).1)
          else ((push x q).0 ≢ done none) × ((try_push x q).1 ≡ q))
        × (((y : A) → (try_pop q).0 ≡ some y → pop q ≡ (done (ok y), (try_pop q).1))
            × ((try_pop q).0 ≡ none → ((y : A) → (pop q).0 ≢ done (ok y)) × ((try_pop q).1 ≡ q)))
  unfolding push pop try_push try_pop
  try_agrees x q = (ground arith, (λ y h. ground arith, λ h. (λ y e. ground arith, ground arith)))

  step_closed :
      (o : Op A) (q : Queue A)
      → q.closed ≡ true
      → ((step o q).after.closed ≡ true) × ((step o q).accepted ≡ [])
  unfolding step push pop pop_batch try_push try_pop close clear
  step_closed (pushes x) q h = ground arith
  step_closed _ q h = ground arith

  -- Once closed, a queue stays closed and accepts no item, whatever the schedule.
  pub run_closed :
      (os : List (Op A)) (q : Queue A)
      → q.closed ≡ true
      → ((run os q).after.closed ≡ true) × ((run os q).accepted ≡ [])
  unfolding run
  run_closed [] q h = (h, refl)
  run_closed (o ∷ os) q h = ground (arith, step_closed o q h, run_closed os (step o q).after)

  abbrev pub pops_many : ℕ → List (Op A)
  pops_many zero = []
  pops_many (suc n) = pops ∷ pops_many n

  drain :
      (xs : List A) (q : Queue A)
      → q.items ≡ xs
      → ((run (pops_many (length xs)) q).removed ≡ xs)
        × ((run (pops_many (length xs)) q).after ≡ record q { items = [] })
  unfolding run step pop
  drain [] q h = ground arith
  drain (x ∷ xs) q h = ground (arith, drain xs (record q { items = xs }) refl)

  -- Close loses nothing: as many Pops as there are items hand them all out in order, none of them
  -- waits, and the next Pop reports that the queue is closed and empty.
  pub close_drains :
      (q : Queue A)
      → let r = run (pops_many (length q.items)) (close q) in
        (r.removed ≡ q.items) × ((pop r.after).0 ≡ done (err closed_and_empty))
  unfolding close pop
  close_drains q = ground (arith, drain q.items (close q))
