-- ===== src/Queue/Order.antt =====
-- internal/queue/queue.go under any interleaving of its critical sections: order, conservation and
-- the capacity.
use logsieve.Prelude.{
  ℕ, ◌≤◌, ◌≡◌, refl, ◌∙◌, List, [], ◌∷◌, ◌++◌, append-nil, Option, none, some, length,
  length-append, length-drop, take-append-drop, append_weave, arith, if◌then◌else◌,
}
use logsieve.Queue.{
  Queue, QueueError, Poll, done, Result, ok, batch_size, push, pop, pop_batch, try_pop, try_push,
  close, clear,
}

-- The critical sections that change the queue.
pub data Op {ℓ} (A : Type ℓ) : Type ℓ where
  pushes try_pushes : A → Op A
  pops try_pops closes clears : Op A
  pops_batch : ℕ → Op A

-- What one section did: the items accepted, the items that left, and the queue after it.
pub record Effect {ℓ} (A : Type ℓ) : Type ℓ where
  pub accepted : List A
  pub removed : List A
  pub after : Queue A

module _ {ℓ} {A : Type ℓ} where
  abbrev pub one_if_accepted : A → Poll (Option QueueError) → List A
  one_if_accepted x (done none) = x ∷ []
  one_if_accepted x _ = []

  abbrev pub one_if_popped : Poll (Result A) → List A
  one_if_popped (done (ok x)) = x ∷ []
  one_if_popped _ = []

  abbrev pub all_if_popped : Poll (Result (List A)) → List A
  all_if_popped (done (ok xs)) = xs
  all_if_popped _ = []

  abbrev pub to_list : Option A → List A
  to_list none = []
  to_list (some x) = x ∷ []

  unfoldable pub step : Op A → Queue A → Effect A
  step (pushes x) q = record {
    accepted = one_if_accepted x (push x q).0;
    removed = [];
    after = (push x q).1;
  }
  step (try_pushes x) q = record {
    accepted = if (try_push x q).0 then x ∷ [] else [];
    removed = [];
    after = (try_push x q).1;
  }
  step pops q = record { accepted = []; removed = one_if_popped (pop q).0; after = (pop q).1 }
  step try_pops q = record { accepted = []; removed = to_list (try_pop q).0; after = (try_pop q).1 }
  step closes q = record { accepted = []; removed = []; after = close q }
  step clears q = record { accepted = []; removed = q.items; after = clear q }
  step (pops_batch n) q = record {
    accepted = [];
    removed = all_if_popped (pop_batch n q).0;
    after = (pop_batch n q).1;
  }

  -- A schedule of sections, as the mutex orders them.
  unfoldable pub run : List (Op A) → Queue A → Effect A
  run [] q = record { accepted = []; removed = []; after = q }
  run (o ∷ os) q =
      let e = step o q in
      let r = run os e.after in
      record {
        accepted = e.accepted ++ r.accepted;
        removed = e.removed ++ r.removed;
        after = r.after;
      }

  pop-Conserves : (q : Queue A) → q.items ≡ one_if_popped (pop q).0 ++ (pop q).1.items
  unfolding pop
  pop-Conserves q = ground arith

  pop_batch-Conserves :
      (n : ℕ) (q : Queue A) → q.items ≡ all_if_popped (pop_batch n q).0 ++ (pop_batch n q).1.items
  unfolding pop_batch
  pop_batch-Conserves n q = ground (arith, take-append-drop (batch_size n q.items) q.items)

  step-Conserves :
      (o : Op A) (q : Queue A)
      → q.items ++ (step o q).accepted ≡ (step o q).removed ++ (step o q).after.items
  unfolding step push try_push try_pop close clear
  step-Conserves (pushes x) q = ground (arith, append-nil q.items)
  step-Conserves (try_pushes x) q = ground (arith, append-nil q.items)
  step-Conserves pops q = append-nil q.items ∙ pop-Conserves q
  step-Conserves try_pops q = ground (arith, append-nil q.items)
  step-Conserves closes q = ground (arith, append-nil q.items)
  step-Conserves clears q = refl
  step-Conserves (pops_batch n) q = append-nil q.items ∙ pop_batch-Conserves n q

  -- First in, first out, and nothing is lost or invented: under every schedule of the sections, the
  -- items that left the queue followed by those still in it are the items that it first held
  -- followed by those that it accepted, in order.
  pub run_fifo :
      (os : List (Op A)) (q : Queue A)
      → q.items ++ (run os q).accepted ≡ (run os q).removed ++ (run os q).after.items
  unfolding run
  run_fifo [] q = append-nil q.items
  run_fifo (o ∷ os) q =
      append_weave q.items _ _ _ _ _ _ (step-Conserves o q) (run_fifo os (step o q).after)

  abbrev pub IsWithinCapacity : Queue A → Type 0
  IsWithinCapacity q = length q.items ≤ q.capacity

  step-IsWithinCapacity :
      (o : Op A) (q : Queue A) → IsWithinCapacity q → IsWithinCapacity (step o q).after
  unfolding step push pop pop_batch try_push try_pop close clear
  step-IsWithinCapacity (pops_batch n) q h =
      ground (arith, length-drop (batch_size n q.items) q.items)
  step-IsWithinCapacity (pushes x) q h = ground (arith, length-append q.items (x ∷ []))
  step-IsWithinCapacity (try_pushes x) q h = ground (arith, length-append q.items (x ∷ []))
  step-IsWithinCapacity _ q h = ground arith

  -- A queue that holds no more than its capacity never comes to hold more, under any schedule.
  pub run-IsWithinCapacity :
      (os : List (Op A)) (q : Queue A) → IsWithinCapacity q → IsWithinCapacity (run os q).after
  unfolding run
  run-IsWithinCapacity [] q h = h
  run-IsWithinCapacity (o ∷ os) q h =
      run-IsWithinCapacity os (step o q).after (step-IsWithinCapacity o q h)
