-- ===== src/Ingestion/Handler/Meanwhile.antt =====
-- HandleIngest of pkg/ingestion/handler.go into the buffer of pkg/ingestion/buffer.go, while other
-- goroutines take from that.
use logsieve.Prelude.{
  ℕ, zero, suc, ◌+◌, ◌-◌, ◌≤◌, min, String, Bool, false, List, [], ◌∷◌, ◌++◌, length, length-append,
  take, ◌≡◌, refl, ap, ◌∙◌, arith,
}
use logsieve.Ingestion.Entry.{LogEntry, Heap}
use logsieve.Ingestion.Buffer.{
  Buffer, flush, collect, receive, receive_from, tick, get_batch, get_from,
}
use logsieve.Ingestion.Handler.{label_entry, ingest_entries}
use logsieve.Ingestion.Handler.Counting.{
  add_to_buffer, labelled, add_with_room, ingest_with_room, ingest_entries_count,
}

-- A step of batchProcessor or of the consumer, which other goroutines take between two Adds.
pub data Meanwhile : Type 0 where
  receives ticks gets : Meanwhile

abbrev pub meanwhile : Meanwhile → Buffer LogEntry → Buffer LogEntry
meanwhile receives b = (receive b).1
meanwhile ticks b = (tick b).1
meanwhile gets b = (get_batch b).1

unfoldable pub all_meanwhile : List Meanwhile → Buffer LogEntry → Buffer LogEntry
all_meanwhile [] b = b
all_meanwhile (m ∷ ms) b = all_meanwhile ms (meanwhile m b)

-- AddEntry after the steps that come before it; the buffer, with the steps before each later call.
unfoldable pub add_after :
    LogEntry
    → Buffer LogEntry × List (List Meanwhile)
    → Bool × (Buffer LogEntry × List (List Meanwhile))
add_after e (b, []) = let r = add_to_buffer e b in (r.0, (r.1, []))
add_after e (b, ms ∷ rest) = let r = add_to_buffer e (all_meanwhile ms b) in (r.0, (r.1, rest))

-- The buffer is no fuller, and is as large and open as before.
record IsNoFuller (b c : Buffer LogEntry) : Type 0 where
  open_as : c.closed ≡ b.closed
  sized_as : c.buffer_size ≡ b.buffer_size
  waits : length c.buffer ≤ length b.buffer

flush-IsNoFuller : (b : Buffer LogEntry) → IsNoFuller b (flush b).1
unfolding flush
flush-IsNoFuller b = ground arith

receive_from-IsNoFuller :
    (xs : List LogEntry) (b : Buffer LogEntry) → b.buffer ≡ xs → IsNoFuller b (receive_from xs b).1
unfolding collect
receive_from-IsNoFuller [] b e = ground (arith, flush-IsNoFuller b)
receive_from-IsNoFuller (x ∷ xs) b e =
    let grown = record b { buffer = xs; batch = b.batch ++ x ∷ [] } in
    ground (arith, ap length e, flush-IsNoFuller grown)

get_from-IsNoFuller :
    (bs : List (List LogEntry)) (b : Buffer LogEntry) → IsNoFuller b (get_from bs b).1
get_from-IsNoFuller [] b = ground arith
get_from-IsNoFuller (x ∷ xs) b = ground arith

meanwhile-IsNoFuller : (m : Meanwhile) (b : Buffer LogEntry) → IsNoFuller b (meanwhile m b)
unfolding receive tick get_batch
meanwhile-IsNoFuller receives b = receive_from-IsNoFuller b.buffer b refl
meanwhile-IsNoFuller ticks b = flush-IsNoFuller b
meanwhile-IsNoFuller gets b = get_from-IsNoFuller b.batches b

all_meanwhile-IsNoFuller :
    (ms : List Meanwhile) (b : Buffer LogEntry) → IsNoFuller b (all_meanwhile ms b)
unfolding all_meanwhile
all_meanwhile-IsNoFuller [] b = ground arith
all_meanwhile-IsNoFuller (m ∷ ms) b =
    let first = meanwhile-IsNoFuller m b in
    let rest = all_meanwhile-IsNoFuller ms (meanwhile m b) in
    record {
      open_as = rest.open_as ∙ first.open_as;
      sized_as = rest.sized_as ∙ first.sized_as;
      waits = omega (arith, first.waits, rest.waits);
    }

takes_at_least :
    (room : ℕ) (source profile output : String) (es : List LogEntry) (h : Heap)
    (b : Buffer LogEntry) (schedule : List (List Meanwhile))
    → b.closed ≡ false
    → length b.buffer + room ≤ b.buffer_size
    → min room (length es)
      ≤ (ingest_entries add_after source profile output es h (b, schedule)).processed
unfolding ingest_entries add_after
takes_at_least zero source profile output es h b schedule o w = omega arith
takes_at_least (suc room) source profile output [] h b schedule o w = omega arith
takes_at_least (suc room) source profile output (e ∷ es) h b [] o w =
    let l = label_entry source profile output e h in
    let more = record b { buffer = b.buffer ++ l.0 ∷ [] } in
    let rest =
      takes_at_least room source profile output es l.1 more [] o
        (omega (arith, w, length-append b.buffer (l.0 ∷ []))) in
    rw (add_with_room l.0 b o (omega (arith, w))) (omega (arith, rest))
takes_at_least (suc room) source profile output (e ∷ es) h b (ms ∷ schedule) o w =
    let l = label_entry source profile output e h in
    let c = all_meanwhile ms b in
    let k = all_meanwhile-IsNoFuller ms b in
    let more = record c { buffer = c.buffer ++ l.0 ∷ [] } in
    let rest =
      takes_at_least room source profile output es l.1 more schedule (k.open_as ∙ o)
        (omega (arith, w, k.sized_as, k.waits, length-append c.buffer (l.0 ∷ []))) in
    rw (add_with_room l.0 c (k.open_as ∙ o) (omega (arith, w, k.sized_as, k.waits)))
      (omega (arith, rest))

-- An open buffer takes of a request at least as many entries as it has room for, whatever
-- batchProcessor and the consumer of the batches do between the calls of AddEntry, while no other
-- request and no Close comes between, and the response counts every entry once; and when nothing comes
-- between, it takes no more, those at the front, in their order, behind those that wait.
pub ingest_into_buffer :
    (source profile output : String) (es : List LogEntry) (h : Heap) (b : Buffer LogEntry)
    (schedule : List (List Meanwhile))
    → b.closed ≡ false
    → length b.buffer ≤ b.buffer_size
    → let room = b.buffer_size - length b.buffer in
      let i = ingest_entries add_after source profile output es h (b, schedule) in
      let alone = ingest_entries add_to_buffer source profile output es h b in
      (min room (length es) ≤ i.processed)
      × (i.processed + i.errors ≡ length es)
      × (alone.processed ≡ min room (length es))
      × (alone.store.buffer ≡ b.buffer ++ take room (labelled source profile output es h))
ingest_into_buffer source profile output es h b schedule o w =
    let room = b.buffer_size - length b.buffer in
    let exact = ingest_with_room room source profile output es h b o (omega arith) in
    (
      takes_at_least room source profile output es h b schedule o (omega arith),
      ingest_entries_count add_after source profile output es h (b, schedule),
      exact.0,
      exact.1,
    )
