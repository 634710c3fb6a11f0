-- ===== src/Ingestion/Disk/Conservation.antt =====
-- pkg/ingestion/disk_buffer.go under any schedule of its steps: where the entries go.
use logsieve.Prelude.{ℕ, ◌+◌, Bool, some, count, concat, ◌≡◌}
use logsieve.Ingestion.Disk.{Codec, DiskBuffer, spooled}

module _ {A L : Type 0} (codec : Codec A L) where
  -- What is written can be read.
  abbrev pub RoundTrips : Type 0
  RoundTrips = (x : A) → codec.decode (codec.encode x) ≡ some x

  -- The entries inside that have a property: in memory, in the files and in the channel of batches.
  abbrev pub held_count : (A → Bool) → DiskBuffer A L → ℕ
  held_count p d =
      (count p d.input + count p d.batch)
      + (count p (spooled codec d.files) + count p (concat d.batches))
