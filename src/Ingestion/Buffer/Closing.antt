-- ===== src/Ingestion/Buffer/Closing.antt =====
-- Close of pkg/ingestion/buffer.go: what batchProcessor still does, and the Add that it overtakes.
use logsieve.Prelude.{
  ◌+◌, ◌≤◌, ◌<◌, Bool, true, false, ◌||◌, List, [], ◌∷◌, ◌++◌, length, length-append, if◌then◌else◌,
  ◌≡◌, ◌↔◌, refl, ap, ◌∙◌, arith,
}
use logsieve.Ingestion.Buffer.{
  Buffer, AddResult, buffer_closed, send_panics, batch_queue_cap, send, add, flush, collect,
  receive, receive_from, get_from, tick, get_batch, close,
}
use logsieve.Ingestion.Buffer.Conservation.{Op, adds, receives, ticks, gets, closes, step, run}

module _ {ℓ} {A : Type ℓ} where
  -- An Add between whose check of `closed` and whose send other steps run.
  unfoldable pub add_between : List (Op A) → A → Buffer A → AddResult × Buffer A
  add_between os x b = if b.closed then (buffer_closed, b) else send x (run os b).after

  abbrev pub is_close : Op A → Bool
  is_close closes = true
  is_close _ = false

  abbrev pub has_close : List (Op A) → Bool
  has_close [] = false
  has_close (o ∷ os) = is_close o || has_close os

  pub closed-flush : (b : Buffer A) → (flush b).1.closed ≡ b.closed
  unfolding flush
  closed-flush b = ground arith

  pub closed-receive_from : (xs : List A) (b : Buffer A) → (receive_from xs b).1.closed ≡ b.closed
  unfolding collect
  closed-receive_from [] b = ground (arith, closed-flush b)
  closed-receive_from (x ∷ xs) b =
      ground (arith, closed-flush (record b { buffer = xs; batch = b.batch ++ x ∷ [] }))

  pub closed-get_from : (xss : List (List A)) (b : Buffer A) → (get_from xss b).1.closed ≡ b.closed
  closed-get_from [] b = refl
  closed-get_from (xs ∷ xss) b = refl

  closed-step : (o : Op A) (b : Buffer A) → (step o b).after.closed ≡ (b.closed || is_close o)
  unfolding step receive tick get_batch close add send
  closed-step (adds x) b = ground arith
  closed-step receives b = ground (arith, closed-receive_from b.buffer b)
  closed-step ticks b = ground (arith, closed-flush b)
  closed-step gets b = ground (arith, closed-get_from b.batches b)
  closed-step closes b = ground arith

  closed-run :
      (os : List (Op A)) (b : Buffer A) → (run os b).after.closed ≡ (b.closed || has_close os)
  unfolding run
  closed-run [] b = ground arith
  closed-run (o ∷ os) b = ground (arith, closed-run os (step o b).after, closed-step o b)

  -- Add lets go of the lock between its check and its send: on an open buffer it panics exactly when
  -- a Close runs in between.
  pub add_panics_iff :
      (os : List (Op A)) (x : A) (b : Buffer A)
      → b.closed ≡ false
      → (add_between os x b).0 ≡ send_panics ↔ has_close os ≡ true
  unfolding add_between send
  add_panics_iff os x b o =
      (λ e. ground (arith, closed-run os b), λ e. ground (arith, closed-run os b))

  -- The rounds of batchProcessor after Close: one for each waiting entry, and one that finds the
  -- channel empty.
  abbrev pub drains : List A → List (Op A)
  drains [] = receives ∷ []
  drains (x ∷ xs) = receives ∷ drains xs

  empty_of_length : (xs : List A) → length xs ≡ 0 → xs ≡ []
  empty_of_length [] e = refl
  empty_of_length (x ∷ xs) e = absurd (omega (arith, e))

  -- What a flush leaves.
  pub flush_leaves :
      (b : Buffer A)
      → ((flush b).1.batch ≡ [])
        × ((flush b).1.buffer ≡ b.buffer)
        × (length (flush b).1.batches ≤ length b.batches + 1)
        × (length b.batches < batch_queue_cap → (flush b).0 ≡ [])
  unfolding flush
  flush_leaves b = ground (arith, empty_of_length b.batch, length-append b.batches (b.batch ∷ []))

  collect_leaves :
      (b : Buffer A)
      → ((collect b).1.buffer ≡ b.buffer)
        × (length (collect b).1.batches ≤ length b.batches + 1)
        × (length b.batches < batch_queue_cap → (collect b).0 ≡ [])
  unfolding collect
  collect_leaves b = ground (arith, flush_leaves b)

  pub receive_eq : (xs : List A) (b : Buffer A) → b.buffer ≡ xs → receive b ≡ receive_from xs b
  unfolding receive
  receive_eq xs b e = ap (λ ys. receive_from ys b) e

  pub receive_leaves :
      (x : A) (xs : List A) (b : Buffer A)
      → b.buffer ≡ x ∷ xs
      → ((receive b).1.buffer ≡ xs)
        × ((receive b).1.closed ≡ b.closed)
        × (length (receive b).1.batches ≤ length b.batches + 1)
        × (length b.batches < batch_queue_cap → (receive b).0 ≡ [])
  receive_leaves x xs b e =
      let grown = record b { buffer = xs; batch = b.batch ++ x ∷ [] } in
      let c = collect_leaves grown in
      rw (receive_eq (x ∷ xs) b e) (c.0, closed-receive_from (x ∷ xs) b, c.1, c.2)

  -- Close waits for batchProcessor to end: when the buffer is closed, one round for each waiting entry
  -- and one more leave neither an entry in the channel nor a batch begun. If there is room for as
  -- many batches as rounds, no entry is dropped.
  pub close_flushes :
      (xs : List A) (b : Buffer A)
      → b.buffer ≡ xs
      → b.closed ≡ true
      → let r = run (drains xs) b in
        (r.after.buffer ≡ [])
        × (r.after.batch ≡ [])
        × (length b.batches + length xs < batch_queue_cap → r.dropped ≡ [])
  unfolding run step
  close_flushes [] b e c = rw (receive_eq [] b e) (ground (arith, flush_leaves b))
  close_flushes (x ∷ xs) b e c =
      let l = receive_leaves x xs b e in
      let later = close_flushes xs (receive b).1 l.0 (l.1 ∙ c) in
      (later.0, later.1, λ room. ap2_append (l.3 (omega arith)) (later.2 (omega (arith, l.2))))
    where
      ap2_append : {xs ys : List A} → xs ≡ [] → ys ≡ [] → xs ++ ys ≡ []
      ap2_append p q = cc
