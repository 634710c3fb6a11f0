-- ===== src/Output/Loki.antt =====
-- The Loki adapter of pkg/output/loki.go: how the entries of a request are put into streams, and when
-- Send fails. strconv.Quote, sort.Strings, encoding/json and the HTTP exchange are parameters. The
-- streams are in the order in which they were begun, which is one of the orders of a Go map. Times are
-- in the range of UnixNano.
pub mod Labels
pub mod Streams
pub mod Ranges
use logsieve.Prelude.{
  ℕ, ◌+◌, ◌≤◌, String, Bool, true, false, not, ◌&&◌, ◌||◌, List, [], ◌∷◌, ◌++◌, map, Option, none,
  some, ◌==◌, if◌then◌else◌, str_eq, length, has_any, ℤ, pos, negsuc, itoa, join, has_prefix,
  trim_suffix, Dict, insert, lookup,
}
use Prim.Native.String.{◌++◌ as ◌<>◌}
use logsieve.Ingestion.Entry.{LogEntry, Heap, read}

-- The time as digits, the message, and the structured metadata where there is any.
pub record LokiValue : Type 0 where
  pub ts : String
  pub line : String
  pub structured_metadata : Option (Dict String)

pub record LokiStream : Type 0 where
  pub stream : Dict String
  pub values : List LokiValue

-- strconv.Quote and sort.Strings.
pub record Writer : Type 0 where
  pub quote : String → String
  pub sort : List String → List String

abbrev pub high_cardinality_labels : List String
high_cardinality_labels =
    "request_id" ∷ "trace_id" ∷ "user_id" ∷ "session_id" ∷ "transaction_id" ∷ "correlation_id"
    ∷ "ip_address" ∷ "user_agent" ∷ "url" ∷ "path" ∷ "query" ∷ "timestamp" ∷ "duration"
    ∷ "response_time" ∷ []

unfoldable pub is_high_cardinality_label : String → Bool
is_high_cardinality_label key = has_any (str_eq key) high_cardinality_labels

-- if value != "" { labels[key] = value }
abbrev pub set_text : String → String → Dict String → Dict String
set_text key value m = if str_eq value "" then m else insert key value m

unfoldable pub core_labels : LogEntry → Dict String
core_labels e = set_text "namespace" e.namespace (
    set_text "pod" e.pod_name (
      set_text "container" e.container_name
        (set_text "source" e.source (set_text "level" e.level []))))

abbrev pub is_indexed : String → String → Bool
is_indexed key value =
    not (str_eq value "") && not (has_prefix key "context_") && not (is_high_cardinality_label key)

-- A range over a map: the pairs that pass the test are stored.
unfoldable pub copy_where : (String → String → Bool) → Dict String → Dict String → Dict String
copy_where test [] labels = labels
copy_where test ((key, value) ∷ rest) labels =
    copy_where test rest (if test key value then insert key value labels else labels)

abbrev pub or_job : Dict String → Dict String
or_job [] = ("job", "logsieve") ∷ []
or_job (l ∷ ls) = l ∷ ls

unfoldable pub extract_labels : Heap → LogEntry → Dict String
extract_labels h e = or_job (copy_where is_indexed (read h e.labels) (core_labels e))

abbrev pub is_high : String → String → Bool
is_high key value = not (str_eq value "") && is_high_cardinality_label key

abbrev pub is_context : String → String → Bool
is_context key value = has_prefix key "context_"

unfoldable pub extract_structured_metadata : Heap → LogEntry → Dict String
extract_structured_metadata h e =
    let m = read h e.labels in copy_where is_context m (copy_where is_high m [])

-- fmt.Sprintf("%s=%q", key, value) for each label
abbrev pub pairs : Writer → Dict String → List String
pairs w [] = []
pairs w ((key, value) ∷ rest) = (key <> ("=" <> w.quote value)) ∷ pairs w rest

unfoldable pub create_stream_key : Writer → Dict String → String
create_stream_key w labels = join "," (w.sort (pairs w labels))

-- strconv.FormatInt(n, 10)
unfoldable pub format_int : ℤ → String
format_int (pos n) = itoa n
format_int (negsuc n) = "-" <> itoa (n + 1)

abbrev pub some_metadata : Dict String → Option (Dict String)
some_metadata [] = none
some_metadata (l ∷ ls) = some (l ∷ ls)

unfoldable pub log_value : Bool → Heap → LogEntry → LokiValue
log_value use_structured_metadata h e = record {
  ts = format_int e.timestamp;
  line = e.message;
  structured_metadata =
      if use_structured_metadata then some_metadata (extract_structured_metadata h e) else none;
}

-- The stream that is there, or a new one with the labels.
abbrev pub or_stream : Dict String → Option LokiStream → LokiStream
or_stream labels none = record { stream = labels; values = [] }
or_stream labels (some s) = s

abbrev pub append_value : LokiValue → LokiStream → LokiStream
append_value v s = record s { values = s.values ++ v ∷ [] }

unfoldable pub stream_key : Writer → Heap → LogEntry → String
stream_key w h e = create_stream_key w (extract_labels h e)

unfoldable pub group_by_labels :
    Writer → Bool → Heap → List LogEntry → Dict LokiStream → Dict LokiStream
group_by_labels w structured h [] streams = streams
group_by_labels w structured h (e ∷ es) streams =
    let key = stream_key w h e in
    let s = or_stream (extract_labels h e) (lookup key streams) in
    group_by_labels w structured h es
      (insert key (append_value (log_value structured h e) s) streams)

pub data LokiError : Type 0 where
  marshal_failed request_failed : LokiError
  bad_status : ℕ → LokiError

-- What the exchange answers to a request to the address: no answer, or a status.
unfoldable pub send :
    (Dict LokiStream → Bool)
    → (String → Dict LokiStream → Option ℕ)
    → Writer
    → Bool
    → String
    → Heap
    → List LogEntry
    → Option LokiError
send marshals exchange w structured url h [] = none
send marshals exchange w structured url h (e ∷ es) =
    let streams = group_by_labels w structured h (e ∷ es) [] in
    if not (marshals streams)
    then some marshal_failed
    else elim (exchange (trim_suffix url "/" <> "/loki/api/v1/push") streams) [
      | none ↦ some request_failed
      | some status ↦ if status == 204 || status == 200 then none else some (bad_status status)
    ]

pub record LokiAdapter : Type 0 where
  pub push_url : String
  pub use_structured_metadata : Bool

-- The setting structuredMetadata of the output, where it is a flag.
unfoldable pub new_loki_adapter : String → Option Bool → LokiAdapter
new_loki_adapter url structured_metadata = record {
  push_url = trim_suffix url "/" <> "/loki/api/v1/push";
  use_structured_metadata = elim structured_metadata [ none ↦ false | some v ↦ v ];
}
