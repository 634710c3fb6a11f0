-- ===== src/Ingestion/Parser.antt =====
-- pkg/ingestion/parser.go: the entries of a request. Reading a number with a fraction and reading a
-- date by a layout are parameters; texts are ASCII. Where a time cannot be read, the clock's is used.
pub mod Times
pub mod Labels
use logsieve.Prelude.{
  ℕ, ◌*◌, ◌^◌, ltb, ◌==◌, String, Bool, true, false, not, ◌&&◌, List, [], ◌∷◌, Option, none, some,
  if◌then◌else◌, str_eq, contains_upper, contains_lower, all_digits, text_length, take_text,
  value_from, ℤ, pos, to_int64,
}
use logsieve.Ingestion.Entry.{
  LogEntry, Heap, alloc, write_label, delete_label, label_of, ensure_labels, blank_entry,
}

-- The body of a request, decoded; its label map is an address.
pub record IngestRequest : Type 0 where
  pub logs : List LogEntry
  pub log : String
  pub timestamp : String
  pub time : String
  pub stream : String
  pub tag : String
  pub source : String
  pub labels : Option ℕ

-- strconv.ParseFloat with the conversion to a time, and time.Parse.
pub record TimeReader : Type 0 where
  pub parse_float : String → Option ℤ
  pub parse_layout : String → String → Option ℤ

abbrev formats : List String
formats =
    "2006-01-02T15:04:05.999999999Z07:00" ∷ "2006-01-02T15:04:05Z07:00"
    ∷ "2006-01-02T15:04:05.999999999Z07:00" ∷ "2006-01-02T15:04:05.999999Z07:00"
    ∷ "2006-01-02T15:04:05.999Z07:00" ∷ "2006-01-02T15:04:05Z07:00"
    ∷ "2006-01-02 15:04:05.999999999" ∷ "2006-01-02 15:04:05.999999" ∷ "2006-01-02 15:04:05.999"
    ∷ "2006-01-02 15:04:05" ∷ []

try_layouts : TimeReader → String → List String → Option ℤ
try_layouts reader s [] = none
try_layouts reader s (layout ∷ layouts) =
    let rest = try_layouts reader s layouts in
    elim (reader.parse_layout layout s) [ none ↦ rest | some t ↦ some t ]

unfoldable pub is_all_digits : String → Bool
is_all_digits s = all_digits s && not (str_eq s "")

-- strconv.ParseInt of a text of digits.
unfoldable pub parse_int : String → Option ℕ
parse_int s = if ltb (value_from 0 s) (2 ^ 63) then some (value_from 0 s) else none

-- The unit is chosen by the number of digits. time.Unix(v, 0) is a time for every v; products of
-- int64 wrap.
unfoldable pub unix_time : ℕ → ℕ → ℤ
unix_time digits v =
    if digits == 19
    then pos v
    else if digits == 16
    then to_int64 (v * 1000)
    else if digits == 13
    then to_int64 (v * 1000000)
    else pos (v * 1000000000)

unfoldable pub try_parse_time : TimeReader → String → Option ℤ
unfolding try_layouts
try_parse_time reader s =
    let other : Option ℤ = elim (reader.parse_float s) [
      | none ↦ try_layouts reader s formats
      | some t ↦ some t
    ] in
    if is_all_digits s
    then elim (parse_int s) [ none ↦ other | some v ↦ some (unix_time (text_length s) v) ]
    else other

unfoldable pub parse_timestamp : TimeReader → ℤ → String → String → Option ℤ
parse_timestamp reader now timestamp time_field =
    if not (str_eq timestamp "")
    then try_parse_time reader timestamp
    else if not (str_eq time_field "")
    then try_parse_time reader time_field
    else some now

-- if v, exists := entry.Labels[key]; exists { entry.Field = v; delete(entry.Labels, key) }
unfoldable pub move_label :
    ℕ → String → (String → LogEntry → LogEntry) → LogEntry × Heap → LogEntry × Heap
move_label a key set (e, h) = elim (label_of h e key) [
  | none ↦ (e, h)
  | some v ↦ (set v e, delete_label a key h)
]

abbrev pub set_pod : String → LogEntry → LogEntry
set_pod v e = record e { pod_name = v }

abbrev pub set_namespace : String → LogEntry → LogEntry
set_namespace v e = record e { namespace = v }

abbrev pub set_container : String → LogEntry → LogEntry
set_container v e = record e { container_name = v }

abbrev pub set_node : String → LogEntry → LogEntry
set_node v e = record e { node_name = v }

unfoldable pub extract_kubernetes_metadata : ℕ → LogEntry → Heap → LogEntry × Heap
extract_kubernetes_metadata a e h =
    let pod = move_label a "io.kubernetes.pod.name" set_pod (e, h) in
    let spaced = move_label a "io.kubernetes.pod.namespace" set_namespace pod in
    let contained = move_label a "io.kubernetes.container.name" set_container spaced in
    move_label a "io.kubernetes.pod.node_name" set_node contained

abbrev pub log_levels : List String
log_levels = "FATAL" ∷ "ERROR" ∷ "WARN" ∷ "WARNING" ∷ "INFO" ∷ "DEBUG" ∷ "TRACE" ∷ []

-- The first keyword that the message contains.
unfoldable pub first_level : String → List String → Option String
first_level message [] = none
first_level message (level ∷ levels) =
    let rest = first_level message levels in
    if contains_upper message level
    then some (if str_eq level "WARNING" then "WARN" else level)
    else rest

unfoldable pub extract_log_level : LogEntry → LogEntry
unfolding first_level
extract_log_level e = elim (first_level e.message log_levels) [
  | some level ↦ record e { level = level }
  | none ↦
      if str_eq e.level "" && contains_lower e.message "exception"
      then record e { level = "ERROR" }
      else e
]

unfoldable pub extract_container_info : LogEntry → Heap → LogEntry
extract_container_info e h =
    let named : LogEntry = elim (label_of h e "container_name") [
      | none ↦ e
      | some name ↦ if str_eq e.container_name "" then record e { container_name = name } else e
    ] in
    elim (label_of h e "container_id") [
      | none ↦ named
      | some id ↦ record named {
        container_id = if ltb 12 (text_length id) then take_text 12 id else id;
      }
    ]

unfoldable pub extract_metadata : LogEntry → Heap → LogEntry × Heap
extract_metadata e h =
    let m = ensure_labels e h in
    let k = extract_kubernetes_metadata m.0 (record e { labels = some m.0 }) m.1 in
    (extract_container_info (extract_log_level k.0) k.1, k.1)

abbrev write_if : Bool → ℕ → String → String → Heap → Heap
write_if b a k v h = if b then write_label a k v h else h

-- make(map[string]string), which is given up for the request's own map.
unfoldable pub parse_fluent_bit_single : TimeReader → ℤ → IngestRequest → Heap → LogEntry × Heap
parse_fluent_bit_single reader now req h =
    let made = alloc [] h in
    let a : ℕ = elim req.labels [ none ↦ made.0 | some own ↦ own ] in
    let streamed = write_if (not (str_eq req.stream "")) a "stream" req.stream made.1 in
    let tagged = write_if (not (str_eq req.tag "")) a "tag" req.tag streamed in
    let timestamp : ℤ = elim (parse_timestamp reader now req.timestamp req.time) [
      | none ↦ now
      | some t ↦ t
    ] in
    extract_metadata
      (record blank_entry {
        timestamp = timestamp;
        message = req.log;
        source = req.source;
        labels = some a;
      })
      tagged

unfoldable pub parse : TimeReader → ℤ → IngestRequest → Heap → Option (List LogEntry × Heap)
parse reader now req h =
    let one = parse_fluent_bit_single reader now req h in
    elim req.logs [
      | (e ∷ es) ↦ some (e ∷ es, h)
      | [] ↦ if not (str_eq req.log "") then some (one.0 ∷ [], one.1) else none
    ]
