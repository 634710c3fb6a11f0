-- ===== src/Ingestion/Entry.antt =====
-- The LogEntry of pkg/ingestion/handler.go. Its Labels field is a Go map, which copies of an entry
-- share: it is an address in a heap of maps, or nil. Annotations and Metadata are never read or
-- written by the code that is modelled, and are left out. A time is the signed
-- number of nanoseconds since 1970.
use logsieve.Prelude.{
  ℤ, pos, ℕ, ◌+◌, ◌≡◌, String, Option, none, some, [], ◌==◌, if◌then◌else◌, Dict, lookup, insert,
  delete, arith,
}

pub record LogEntry : Type 0 where
  pub timestamp : ℤ
  pub message : String
  pub level : String
  pub source : String
  pub container_name : String
  pub container_id : String
  pub pod_name : String
  pub namespace : String
  pub node_name : String
  pub labels : Option ℕ

-- The label maps that have been made.
pub record Heap : Type 0 where
  pub next : ℕ
  pub at : ℕ → Dict String

abbrev pub no_maps : Heap
no_maps = record { next = 0; at = λ a. [] }

abbrev pub update : ℕ → Dict String → (ℕ → Dict String) → ℕ → Dict String
update a m f b = if a == b then m else f b

-- make(map[string]string) with contents.
unfoldable pub alloc : Dict String → Heap → ℕ × Heap
alloc m h = (h.next, record { next = h.next + 1; at = update h.next m h.at })

-- A nil map reads as an empty one.
abbrev pub read : Heap → Option ℕ → Dict String
read h none = []
read h (some a) = h.at a

-- m[k] = v through the address of m
unfoldable pub write_label : ℕ → String → String → Heap → Heap
write_label a k v h = record h { at = update a (insert k v (h.at a)) h.at }

-- delete(m, k)
unfoldable pub delete_label : ℕ → String → Heap → Heap
delete_label a k h = record h { at = update a (delete k (h.at a)) h.at }

-- v, ok := entry.Labels[k]
abbrev pub label_of : Heap → LogEntry → String → Option String
label_of h e k = lookup k (read h e.labels)

-- if entry.Labels == nil { entry.Labels = make(map[string]string) }
unfoldable pub ensure_labels : LogEntry → Heap → ℕ × Heap
ensure_labels e h = elim e.labels [ some a ↦ (a, h) | none ↦ alloc [] h ]

abbrev pub blank_entry : LogEntry
blank_entry = record {
  timestamp = pos 0;
  message = "";
  level = "";
  source = "";
  container_name = "";
  container_id = "";
  pod_name = "";
  namespace = "";
  node_name = "";
  labels = none;
}

pub read-write_label :
    (a b : ℕ) (k j v : String) (h : Heap)
    → lookup j ((write_label a k v h).at b)
      ≡ (if a == b then lookup j (insert k v (h.at b)) else lookup j (h.at b))
unfolding write_label
read-write_label a b k j v h = ground arith
