-- ===== src/Ingestion/Disk.antt =====
-- The disk buffer of pkg/ingestion/disk_buffer.go: batches are spooled to files by the writer and
-- sent by the reader. The directory is a list of files by the number in their names, which all have
-- as many digits, so that the order of the names is that of the numbers. Encoding, decoding and
-- scanning of a line, and whether os.Create works, are parameters. Removing a file that was listed
-- works. Each channel operation and each round of the reader is one step; a flush is many: the file
-- is made, each line reaches it or not, and the eviction ends it. A line of which only a part is there
-- cannot be decoded, and is not there. Metrics are left out.
pub mod Eviction
pub mod Schedule
pub mod Conservation
use logsieve.Prelude.{
  ℕ, ◌+◌, ◌-◌, Bool, true, false, not, ◌&&◌, List, [], ◌∷◌, ◌++◌, map, Option, none, some, length,
  sum, ltb, leb, ◌==◌, ◌||◌, if◌then◌else◌,
}
use logsieve.Ingestion.Buffer.{
  batch_queue_cap, AddResult, added, buffer_closed, buffer_full, send_panics, BufferStats,
}

-- encoding/json, bufio.Scanner, which refuses a line that is too long, and the length of a line.
pub record Codec (A L : Type 0) : Type 0 where
  pub encode : A → L
  pub decode : L → Option A
  pub scans : L → Bool
  pub width : L → ℕ

pub record SpoolFile (L : Type 0) : Type 0 where
  pub stamp : ℕ
  pub lines : List L

-- `writing` is the file that a flush has open; the batch then has the entries still to be written.
pub record DiskBuffer (A L : Type 0) : Type 0 where
  pub buffer_size : ℕ
  pub max_batch_size : ℕ
  pub max_disk_bytes : ℕ
  pub input : List A
  pub batch : List A
  pub writing : Option ℕ
  pub files : List (SpoolFile L)
  pub batches : List (List A)
  pub closed : Bool

module _ {A L : Type 0} where
  unfoldable pub new_disk_buffer : ℕ → ℕ → ℕ → DiskBuffer A L
  new_disk_buffer buffer_size max_batch_size max_disk_bytes = record {
    buffer_size = buffer_size;
    max_batch_size = max_batch_size;
    max_disk_bytes = max_disk_bytes;
    input = [];
    batch = [];
    writing = none;
    files = [];
    batches = [];
    closed = false;
  }

  -- No Close runs between the test of `closed` and the send; if one does, the send panics.
  unfoldable pub add : A → DiskBuffer A L → AddResult × DiskBuffer A L
  add x d =
      if d.closed
      then (buffer_closed, d)
      else if ltb (length d.input) d.buffer_size
      then (added, record d { input = d.input ++ x ∷ [] })
      else (buffer_full, d)

  unfoldable pub close : DiskBuffer A L → DiskBuffer A L
  close d = if d.closed then d else record d { closed = true }

module _ {L : Type 0} where
  -- os.Create, where the lines are none: a file of the same name is cut to nothing. The lines that this
  -- replaces, and the files.
  unfoldable pub put_file : ℕ → List L → List (SpoolFile L) → List L × List (SpoolFile L)
  put_file now lines [] = ([], record { stamp = now; lines = lines } ∷ [])
  put_file now lines (f ∷ fs) =
      let rest = put_file now lines fs in
      if now == f.stamp
      then (f.lines, record { stamp = now; lines = lines } ∷ fs)
      else if ltb now f.stamp
      then ([], record { stamp = now; lines = lines } ∷ f ∷ fs)
      else (rest.0, f ∷ rest.1)

  abbrev pub has_file : ℕ → List (SpoolFile L) → Bool
  has_file now [] = false
  has_file now (f ∷ fs) = now == f.stamp || has_file now fs

  -- A write to the file of that name.
  unfoldable pub append_line : ℕ → L → List (SpoolFile L) → List (SpoolFile L)
  append_line now l [] = []
  append_line now l (f ∷ fs) =
      let rest = append_line now l fs in
      if now == f.stamp then record f { lines = f.lines ++ l ∷ [] } ∷ fs else f ∷ rest

module _ {A : Type 0} where
  -- select { case d.batches <- batch: default: }: what is dropped, and the channel.
  unfoldable pub push_batch : List A → List (List A) → List A × List (List A)
  push_batch batch batches =
      if ltb 0 (length batch)
      then (if ltb (length batches) batch_queue_cap
          then ([], batches ++ batch ∷ [])
          else (batch, batches))
      else ([], batches)

  unfoldable pub get_batch : List (List A) → List A × List (List A)
  get_batch [] = ([], [])
  get_batch (b ∷ bs) = (b, bs)

module _ {A L : Type 0} (codec : Codec A L) where
  unfoldable pub file_size : SpoolFile L → ℕ
  file_size f = sum (map codec.width f.lines)

  -- The loop of evictIfNeeded: the files that go, the oldest first, and those that stay.
  unfoldable pub evict_from : ℕ → ℕ → List (SpoolFile L) → List (SpoolFile L) × List (SpoolFile L)
  evict_from total limit [] = ([], [])
  evict_from total limit (f ∷ fs) =
      let rest = evict_from (total - file_size f) limit fs in
      if ltb limit total then (f ∷ rest.0, rest.1) else ([], f ∷ fs)

  unfoldable pub evict_if_needed : ℕ → List (SpoolFile L) → List (SpoolFile L) × List (SpoolFile L)
  evict_if_needed limit files = evict_from (sum (map file_size files)) limit files

  -- The entries that the lines of a file can be read as.
  unfoldable pub decoded : List L → List A
  decoded [] = []
  decoded (l ∷ ls) =
      let rest = decoded ls in elim (codec.decode l) [ none ↦ rest | some e ↦ e ∷ rest ]

  unfoldable pub spooled : List (SpoolFile L) → List A
  spooled [] = []
  spooled (f ∷ fs) = decoded f.lines ++ spooled fs

  -- flush() of writer up to os.Create: the entries that are lost, and the buffer.
  unfoldable pub flush : Bool → ℕ → DiskBuffer A L → List A × DiskBuffer A L
  flush creates now d =
      let p = put_file now [] d.files in
      if not (ltb 0 (length d.batch))
      then ([], d)
      else if creates
      then (decoded p.0, record d { writing = some now; files = p.1 })
      else (d.batch, record d { batch = [] })

  -- Its loop over the batch: the next line reaches the file, if the reader has not removed that, or it
  -- is lost; the errors of the writes are not looked at.
  abbrev pub write_line : Bool → Option ℕ → List A → DiskBuffer A L → List A × DiskBuffer A L
  write_line reaches none xs d = ([], d)
  write_line reaches (some now) [] d = ([], d)
  write_line reaches (some now) (x ∷ xs) d =
      if reaches && has_file now d.files
      then ([], record d { batch = xs; files = append_line now (codec.encode x) d.files })
      else (x ∷ [], record d { batch = xs })

  -- Its end, once all is written.
  abbrev pub end_flush : Option ℕ → List A → DiskBuffer A L → List A × DiskBuffer A L
  end_flush none xs d = ([], d)
  end_flush (some now) (x ∷ xs) d = ([], d)
  end_flush (some now) [] d =
      let e = evict_if_needed d.max_disk_bytes d.files in
      (spooled e.0, record d { writing = none; files = e.1 })

  -- One receive of the writer; on the closed empty channel it flushes and ends.
  abbrev pub receive_from : Bool → ℕ → List A → DiskBuffer A L → List A × DiskBuffer A L
  receive_from creates now [] d = if d.closed then flush creates now d else ([], d)
  receive_from creates now (x ∷ xs) d =
      let grown = record d { input = xs; batch = d.batch ++ x ∷ [] } in
      if leb d.max_batch_size (length grown.batch) then flush creates now grown else ([], grown)

  -- The loop of sendFile over the lines, from the batch so far: the entries that are lost, and the
  -- channel. A line that cannot be scanned ends it, and what was not sent is lost with the file.
  unfoldable pub send_lines : ℕ → List L → List A → List (List A) → List A × List (List A)
  send_lines limit [] batch batches = push_batch batch batches
  send_lines limit (l ∷ ls) batch batches = elim (codec.scans l) [
    | false ↦ (batch ++ decoded (l ∷ ls), batches)
    | true ↦ elim (codec.decode l) [
      | none ↦ send_lines limit ls batch batches
      | some e ↦ elim (leb limit (length (batch ++ e ∷ []))) [
        | false ↦ send_lines limit ls (batch ++ e ∷ []) batches
        | true ↦ (
          (push_batch (batch ++ e ∷ []) batches).0
              ++ (send_lines limit ls [] (push_batch (batch ++ e ∷ []) batches).1).0,
          (send_lines limit ls [] (push_batch (batch ++ e ∷ []) batches).1).1,
        )
      ]
    ]
  ]

  -- One round of the reader: the oldest file is sent, and removed whether that worked or not.
  abbrev pub read_from : List (SpoolFile L) → DiskBuffer A L → List A × DiskBuffer A L
  read_from [] d = ([], d)
  read_from (f ∷ fs) d =
      let s = send_lines d.max_batch_size f.lines [] d.batches in
      (s.0, record d { files = fs; batches = s.1 })

module _ {A L : Type 0} where
  -- The writer receives, and hears its ticker, when no flush is under way.
  abbrev pub when_free :
      Option ℕ → List A × DiskBuffer A L → DiskBuffer A L → List A × DiskBuffer A L
  when_free none r d = r
  when_free (some now) r d = ([], d)

  unfoldable pub stats : DiskBuffer A L → BufferStats
  stats d = record {
    buffer_size = length d.files;
    buffer_cap = d.max_disk_bytes;
    batch_queue_size = length d.batches;
    batch_queue_cap = batch_queue_cap;
  }
