-- ===== src/Ingestion/Buffer.antt =====
-- The memory buffer of pkg/ingestion/buffer.go. The two channels are lists, and each critical
-- section, channel operation or round of batchProcessor is one step; the buffer's size is positive,
-- since a channel of size 0 has no contents of its own. Metrics and logging are left out.
pub mod Conservation
pub mod Closing
use logsieve.Prelude.{
  ℕ, ◌≤◌, Bool, true, false, List, [], ◌∷◌, ◌++◌, Option, none, some, length, ltb, leb,
  if◌then◌else◌,
}

pub record Buffer {ℓ} (A : Type ℓ) : Type ℓ where
  pub buffer_size : ℕ
  pub max_batch_size : ℕ
  pub buffer : List A
  pub batch : List A
  pub batches : List (List A)
  pub closed : Bool

pub data AddResult : Type 0 where
  added buffer_closed buffer_full send_panics : AddResult

pub record BufferStats : Type 0 where
  pub buffer_size : ℕ
  pub buffer_cap : ℕ
  pub batch_queue_size : ℕ
  pub batch_queue_cap : ℕ

abbrev pub batch_queue_cap : ℕ
batch_queue_cap = 100

module _ {ℓ} {A : Type ℓ} where
  unfoldable pub new_buffer : ℕ → ℕ → Buffer A
  new_buffer buffer_size max_batch_size = record {
    buffer_size = buffer_size;
    max_batch_size = max_batch_size;
    buffer = [];
    batch = [];
    batches = [];
    closed = false;
  }

  -- The select of Add, with its send; Close closes the channel, and a send on it panics.
  unfoldable pub send : A → Buffer A → AddResult × Buffer A
  send x b =
      if b.closed
      then (send_panics, b)
      else if ltb (length b.buffer) b.buffer_size
      then (added, record b { buffer = b.buffer ++ x ∷ [] })
      else (buffer_full, b)

  unfoldable pub add : A → Buffer A → AddResult × Buffer A
  add x b = if b.closed then (buffer_closed, b) else send x b

  -- flush() of batchProcessor: the entries that it drops, and the buffer after it.
  unfoldable pub flush : Buffer A → List A × Buffer A
  flush b =
      if ltb 0 (length b.batch)
      then (if ltb (length b.batches) batch_queue_cap
          then ([], record b { batches = b.batches ++ b.batch ∷ []; batch = [] })
          else (b.batch, record b { batch = [] }))
      else ([], b)

  -- The batch with one entry more, flushed when it is large enough.
  unfoldable pub collect : Buffer A → List A × Buffer A
  collect b = if leb b.max_batch_size (length b.batch) then flush b else ([], b)

  -- One receive of batchProcessor. On an empty channel it waits, or flushes and ends if it is closed.
  abbrev pub receive_from : List A → Buffer A → List A × Buffer A
  receive_from [] b = if b.closed then flush b else ([], b)
  receive_from (x ∷ xs) b = collect (record b { buffer = xs; batch = b.batch ++ x ∷ [] })

  unfoldable pub receive : Buffer A → List A × Buffer A
  receive b = receive_from b.buffer b

  -- The ticker's case.
  unfoldable pub tick : Buffer A → List A × Buffer A
  tick b = flush b

  -- The consumer of GetBatch.
  abbrev pub get_from : List (List A) → Buffer A → List A × Buffer A
  get_from [] b = ([], b)
  get_from (xs ∷ xss) b = (xs, record b { batches = xss })

  unfoldable pub get_batch : Buffer A → List A × Buffer A
  get_batch b = get_from b.batches b

  unfoldable pub close : Buffer A → Buffer A
  close b = if b.closed then b else record b { closed = true }

  unfoldable pub stats : Buffer A → BufferStats
  stats b = record {
    buffer_size = length b.buffer;
    buffer_cap = b.buffer_size;
    batch_queue_size = length b.batches;
    batch_queue_cap = batch_queue_cap;
  }
