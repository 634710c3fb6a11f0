-- ===== src/Dedup/Context.antt =====
-- pkg/dedup/context.go: the window of the last entries, and the context of an error. A copy of an
-- entry is a shallow one: it shares the label map of the original.
pub mod Window
pub mod Shared
use logsieve.Prelude.{
  ℕ, ◌+◌, ◌-◌, ◌*◌, String, Bool, true, false, List, [], ◌∷◌, ◌++◌, Option, none, some, ltb, leb,
  ◌==◌, if◌then◌else◌, length, drop,
}
use logsieve.Ingestion.Entry.{LogEntry, Heap, alloc, write_label, ensure_labels}

pub record ContextWindow : Type 0 where
  pub buffer : List LogEntry
  pub size : ℕ
  pub context_lines : ℕ

unfoldable pub new_context_window : ℕ → ContextWindow
new_context_window context_lines = record {
  buffer = [];
  size = context_lines * 3;
  context_lines = context_lines;
}

unfoldable pub add : LogEntry → ContextWindow → ContextWindow
add entry cw =
    let buffer = cw.buffer ++ entry ∷ [] in
    record cw { buffer = if ltb cw.size (length buffer) then drop 1 buffer else buffer }

-- entryCopy := *entry, a map for it where it has none, and one label written into the map.
unfoldable pub mark : String → String → LogEntry → Heap → LogEntry × Heap
mark key value e h =
    let m = ensure_labels e h in (record e { labels = some m.0 }, write_label m.0 key value m.1)

unfoldable pub mark_before : List LogEntry → Heap → List LogEntry × Heap
unfolding mark
mark_before [] h = ([], h)
mark_before (e ∷ es) h =
    let m = mark "context_position" "before" e h in let r = mark_before es m.1 in (m.0 ∷ r.0, r.1)

abbrev pub before_count : ContextWindow → ℕ
before_count cw =
    if ltb (length cw.buffer) cw.context_lines then length cw.buffer else cw.context_lines

-- The last entries, each marked as lying before, and then the trigger, marked too.
unfoldable pub get_context : LogEntry → ContextWindow → Heap → List LogEntry × Heap
unfolding mark
get_context trigger cw h =
    let before = mark_before (drop (length cw.buffer - before_count cw) cw.buffer) h in
    let last = mark "context_trigger" "true" trigger before.1 in
    if cw.context_lines == 0 then (trigger ∷ [], h) else (before.0 ++ last.0 ∷ [], last.1)

unfoldable pub size : ContextWindow → ℕ
size cw = length cw.buffer

unfoldable pub clear : ContextWindow → ContextWindow
clear cw = record cw { buffer = [] }

abbrev is_nil : List LogEntry → Bool
is_nil [] = true
is_nil (e ∷ es) = false

-- At most the last `count` entries; none for a count of 0.
unfoldable pub get_recent_entries : ℕ → ContextWindow → List LogEntry
get_recent_entries count cw = if count == 0 then [] else drop (length cw.buffer - count) cw.buffer

pub record ContextStats : Type 0 where
  pub buffer_size : ℕ
  pub buffer_cap : ℕ
  pub context_lines : ℕ

unfoldable pub stats : ContextWindow → ContextStats
stats cw = record {
  buffer_size = length cw.buffer;
  buffer_cap = cw.size;
  context_lines = cw.context_lines;
}
