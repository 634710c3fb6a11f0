-- ===== src/Processor/Lifecycle.antt =====
-- Start, Stop and the loop of pkg/processor/processor.go over the memory buffer. The loop is a
-- goroutine: each batch that it takes is a step, and Stop goes on when it has ended.
use logsieve.Prelude.{
  ◌+◌, ◌<◌, Bool, true, false, not, ◌&&◌, List, [], ◌∷◌, ◌++◌, append-nil, Option, none, some,
  length, concat, if◌then◌else◌, ◌≡◌, refl, ap, arith,
}
use logsieve.Ingestion.Buffer.{Buffer, get_batch, close, batch_queue_cap, receive}
use logsieve.Ingestion.Buffer.Conservation.{step, run, held, run_in_order}
use logsieve.Ingestion.Buffer.Closing.{drains, close_flushes}

pub record Service {ℓ} (A : Type ℓ) : Type ℓ where
  pub running : Bool
  pub stop_closed : Bool
  pub buffer : Buffer A
  pub consumed : List A

pub data StartError : Type 0 where
  already_running : StartError

module _ {ℓ} {A : Type ℓ} where
  unfoldable pub start : Service A → Option StartError × Service A
  start s = if s.running then (some already_running, s) else (none, record s { running = true })

  -- The case of processingLoop that takes a batch; the closed stopChan ends the loop.
  unfoldable pub loop_step : Service A → Service A
  loop_step s =
      let g = get_batch s.buffer in
      if s.running && not s.stop_closed
      then record s { buffer = g.1; consumed = s.consumed ++ g.0 }
      else s

  -- buffer.Close() waits for batchProcessor to end.
  abbrev pub close_buffer : Buffer A → Buffer A
  close_buffer b = (run (drains b.buffer) (close b)).after

  -- Nothing where close(p.stopChan) panics, on a channel that is closed.
  unfoldable pub stop : Service A → Option (Service A)
  stop s =
      if not s.running
      then some s
      else if s.stop_closed
      then none
      else some (record s { running = false; stop_closed = true; buffer = close_buffer s.buffer })

  unfoldable pub is_running : Service A → Bool
  is_running s = s.running

  -- batchProcessor neither takes entries in from outside nor hands any out.
  drains_quiet :
      (xs : List A) (b : Buffer A)
      → ((run (drains xs) b).accepted ≡ []) × ((run (drains xs) b).delivered ≡ [])
  unfolding run step
  drains_quiet [] b = (refl, refl)
  drains_quiet (x ∷ xs) b = drains_quiet xs (receive b).1

  buffer-close :
      (b : Buffer A)
      → ((close b).buffer ≡ b.buffer)
        × ((close b).closed ≡ true)
        × (held (close b) ≡ held b)
        × ((close b).batches ≡ b.batches)
  unfolding close
  buffer-close b = ground arith

  held_batches : (b : Buffer A) → b.buffer ≡ [] → b.batch ≡ [] → held b ≡ concat b.batches
  held_batches b e f = ground (arith, e, f, append-nil (concat b.batches))

  -- Stop leaves entries behind: once the loop has ended, with room for the batches, all entries that
  -- wait in the buffer, begun batches included, end up in the channel of batches in their order, and
  -- none of them is processed: nobody reads that channel any more.
  pub stop_leaves_behind :
      (s : Service A)
      → s.running ≡ true
      → s.stop_closed ≡ false
      → length s.buffer.batches + length s.buffer.buffer < batch_queue_cap
      → (after : Service A) × (stop s ≡ some after)
        × (after.consumed ≡ s.consumed)
        × (concat after.buffer.batches ≡ held s.buffer)
        × (loop_step after ≡ after)
  unfolding stop loop_step
  stop_leaves_behind s r c room =
      let b = s.buffer in
      let f = buffer-close b in
      let flushed = close_flushes b.buffer (close b) f.0 f.1 in
      let none_dropped = flushed.2 (omega (arith, ap length f.3)) in
      let order = run_in_order (drains b.buffer) (close b) none_dropped in
      let quiet = drains_quiet b.buffer (close b) in
      let after = (run (drains b.buffer) (close b)).after in
      (
        record s { running = false; stop_closed = true; buffer = close_buffer b },
        ground arith,
        refl,
        cc (
          held_batches after flushed.0 flushed.1,
          order,
          quiet.0,
          quiet.1,
          f.2,
          append-nil (held (close b)),
        ),
        refl,
      )

  -- A processor cannot be used again: after a Stop, Start reports no error, but the next Stop panics,
  -- as it closes the channel a second time.
  pub restart_panics :
      (s after : Service A)
      → s.running ≡ true
      → stop s ≡ some after
      → ((start after).0 ≡ none) × (stop (start after).1 ≡ none)
  unfolding stop start
  restart_panics s after r e = ground arith
