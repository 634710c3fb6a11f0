-- ===== src/Ingestion/Tests.antt =====
-- The buffer on small inputs.
use logsieve.Ingestion.Entry.{LogEntry, blank_entry, no_maps}
use logsieve.Ingestion.Disk
use logsieve.Ingestion.Disk.{Codec, SpoolFile, DiskBuffer, evict_if_needed}
use logsieve.Ingestion.Disk.Schedule.{Op as DiskOp, run as run_disk}
use logsieve.Ingestion.Parser.{TimeReader, try_parse_time}
use logsieve.Ingestion.Parser.Times.{unit_of, time_round_trip}
use logsieve.Ingestion.Handler.{ingest_entries}
use logsieve.Ingestion.Handler.Counting.{labelled, add_to_buffer}
use logsieve.Ingestion.Handler.Meanwhile.{Meanwhile, add_after, ingest_into_buffer}
use logsieve.Prelude.{
  take, ◌≤◌, ◌*◌, Bool, some, none, ltb, itoa, pos, ℕ, ◌+◌, true, false, List, [], ◌∷◌, count, leb,
  ◌≡◌, refl, arith,
}
use logsieve.Ingestion.Buffer.{add, send, receive, collect, flush, get_batch, Buffer, send_panics}
use logsieve.Ingestion.Buffer.Conservation.{
  step, Op, adds, receives, gets, closes, run, held, run_counts,
}
use logsieve.Ingestion.Buffer.Closing.{add_between, add_panics_iff}

abbrev empty : Buffer ℕ
empty = record {
  buffer_size = 4;
  max_batch_size = 2;
  buffer = [];
  batch = [];
  batches = [];
  closed = false;
}

abbrev schedule : List (Op ℕ)
schedule = adds 1 ∷ adds 2 ∷ receives ∷ adds 3 ∷ receives ∷ gets ∷ []

run_counts_example :
    count (leb 2) (held empty) + count (leb 2) (run schedule empty).accepted
    ≡ count (leb 2) (run schedule empty).delivered
      + (count (leb 2) (run schedule empty).dropped
          + count (leb 2) (held (run schedule empty).after))
run_counts_example = run_counts (leb 2) schedule empty

nothing_dropped : (run schedule empty).dropped ≡ []
unfolding run step add send receive collect flush get_batch
nothing_dropped = refl

add_panics_iff_example : (add_between (closes ∷ []) 7 empty).0 ≡ send_panics
add_panics_iff_example = (add_panics_iff (closes ∷ []) 7 empty refl).1 refl

abbrev ending : Buffer ℕ
ending = record empty { buffer = 5 ∷ 6 ∷ 7 ∷ []; closed = true }

-- The disk buffer: an entry is its own line.
abbrev plain : Codec ℕ ℕ
plain = record { encode = λ x. x; decode = λ x. some x; scans = λ x. ltb x 1000; width = λ x. 10 }

abbrev spool : DiskBuffer ℕ ℕ
spool = record {
  buffer_size = 4;
  max_batch_size = 2;
  max_disk_bytes = 25;
  input = [];
  batch = [];
  writing = none;
  files = [];
  batches = [];
  closed = false;
}

abbrev disk_schedule : List (DiskOp ℕ)
disk_schedule =
    Disk.Schedule.adds 1
    ∷ Disk.Schedule.receives true 10
    ∷ Disk.Schedule.adds 2
    ∷ Disk.Schedule.receives true 11
    ∷ Disk.Schedule.writes true
    ∷ Disk.Schedule.reads
    ∷ Disk.Schedule.writes true
    ∷ Disk.Schedule.finishes
    ∷ Disk.Schedule.reads
    ∷ Disk.Schedule.gets
    ∷ []

abbrev three_files : List (SpoolFile ℕ)
three_files =
    record { stamp = 1; lines = 5 ∷ 6 ∷ [] }
    ∷ record { stamp = 2; lines = 7 ∷ [] }
    ∷ record { stamp = 3; lines = 8 ∷ [] }
    ∷ []

-- No text is a number with a fraction, and none is a date.
abbrev no_dates : TimeReader
no_dates = record { parse_float = λ s. none; parse_layout = λ layout s. none }

time_round_trip_example :
    try_parse_time no_dates (itoa 1700000000) ≡ some (pos (1700000000 * unit_of 10))
time_round_trip_example =
    time_round_trip no_dates 9 1700000000 (omega arith) (omega arith) (omega arith)

abbrev two_logs : List LogEntry
two_logs = record blank_entry { message = "a" } ∷ record blank_entry { message = "b" } ∷ []

-- A store with room for one entry.
abbrev room_for_one : LogEntry → ℕ → Bool × ℕ
room_for_one e n = (ltb n 1, n + 1)

abbrev one_place : Buffer LogEntry
one_place = record {
  buffer_size = 1;
  max_batch_size = 2;
  buffer = [];
  batch = [];
  batches = [];
  closed = false;
}

-- Before the second Add, batchProcessor takes the first entry.
abbrev between : List (List Meanwhile)
between = [] ∷ (Meanwhile.receives ∷ []) ∷ []

ingest_into_buffer_example :
    let i = ingest_entries add_after "app" "nginx" "" two_logs no_maps (one_place, between) in
    let alone = ingest_entries add_to_buffer "app" "nginx" "" two_logs no_maps one_place in
    (1 ≤ i.processed)
    × (i.processed + i.errors ≡ 2)
    × (alone.processed ≡ 1)
    × (alone.store.buffer ≡ take 1 (labelled "app" "nginx" "" two_logs no_maps))
ingest_into_buffer_example =
    ingest_into_buffer "app" "nginx" "" two_logs no_maps one_place between refl (omega arith)
