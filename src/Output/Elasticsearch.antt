-- ===== src/Output/Elasticsearch.antt =====
-- The Elasticsearch adapter of pkg/output/elasticsearch.go: the lines of a bulk request, and when Send
-- fails. The text of a date, encoding/json and the HTTP exchange are parameters.
pub mod Bulk
use logsieve.Prelude.{
  ℕ, ◌+◌, ◌≤◌, ◌<◌, String, Bool, true, false, not, ◌&&◌, ◌||◌, List, [], ◌∷◌, ◌++◌, Option, none,
  some, length, take, ltb, leb, ◌==◌, if◌then◌else◌, str_eq, ℤ, itoa, join, trim_suffix, Dict,
  lookup,
}
use Prim.Native.String.{◌++◌ as ◌<>◌}
use logsieve.Ingestion.Entry.{LogEntry, Heap, read, label_of}

pub record EsDocument : Type 0 where
  pub entry : LogEntry
  pub labels : Dict String
  pub host_name : String
  pub host_ip : String
  pub service_name : String
  pub service_version : String

pub record ElasticsearchAdapter : Type 0 where
  pub bulk_url : String
  pub index_name : String

-- The index is the configured text, where there is one.
unfoldable pub new_elasticsearch_adapter : String → Option String → ElasticsearchAdapter
new_elasticsearch_adapter url index = record {
  bulk_url = trim_suffix url "/" <> "/_bulk";
  index_name = elim index [ none ↦ "logs" | some i ↦ if str_eq i "" then "logs" else i ];
}

abbrev or_empty : Option String → String
or_empty none = ""
or_empty (some s) = s

-- The document has the entry's own fields.
unfoldable pub convert_to_es_document : Heap → LogEntry → EsDocument
convert_to_es_document h e = record {
  entry = e;
  labels = read h e.labels;
  host_name = or_empty (label_of h e "host_name");
  host_ip = or_empty (label_of h e "host_ip");
  service_name = or_empty (label_of h e "service_name");
  service_version = or_empty (label_of h e "service_version");
}

abbrev dated_index : (ℤ → String) → ElasticsearchAdapter → LogEntry → String
dated_index date a e = a.index_name <> ("-" <> date e.timestamp)

unfoldable pub get_index_name : (ℤ → String) → ElasticsearchAdapter → Heap → LogEntry → String
get_index_name date a h e = elim (label_of h e "index") [
  | none ↦ dated_index date a e
  | some index ↦ if str_eq index "" then dated_index date a e else index
]

pub data BulkLine : Type 0 where
  index_line : String → BulkLine
  doc_line : EsDocument → BulkLine

-- What the answer says: whether there were errors, and of each item its operations, with the error
-- where there is one.
pub record EsBulkResponse : Type 0 where
  pub errors : Bool
  pub items : List (Dict (Option String))

abbrev item_errors : ℕ → Dict (Option String) → List String
item_errors i [] = []
item_errors i ((operation, none) ∷ rest) = item_errors i rest
item_errors i ((operation, some e) ∷ rest) =
    ("Item " <> (itoa i <> (" (" <> (operation <> ("): " <> e))))) ∷ item_errors i rest

abbrev pub all_errors : ℕ → List (Dict (Option String)) → List String
all_errors i [] = []
all_errors i (item ∷ items) = item_errors i item ++ all_errors (i + 1) items

-- errors[:5] and a note, if there are more than five.
abbrev pub limit_errors : List String → List String
limit_errors errors =
    if ltb 5 (length errors) then take 5 errors ++ "... and more errors" ∷ [] else errors

unfoldable pub extract_bulk_errors : List (Dict (Option String)) → String
extract_bulk_errors items = join "; " (limit_errors (all_errors 0 items))

pub data EsError : Type 0 where
  marshal_failed request_failed not_decoded : EsError
  bad_status : ℕ → EsError
  had_errors : String → EsError

abbrev pub check_response : ℕ → Option EsBulkResponse → Option EsError
check_response code none = some not_decoded
check_response code (some r) =
    if ltb code 200 || leb 300 code
    then some (bad_status code)
    else if r.errors
    then some (had_errors (extract_bulk_errors r.items))
    else none

module _ (marshals : BulkLine → Bool) (date : ℤ → String) where
  -- The lines of the request, or nothing where one of them cannot be marshalled.
  unfoldable pub bulk_lines : ElasticsearchAdapter → Heap → List LogEntry → Option (List BulkLine)
  bulk_lines a h [] = some []
  bulk_lines a h (e ∷ es) =
      let index = index_line (get_index_name date a h e) in
      let doc = doc_line (convert_to_es_document h e) in
      let rest = bulk_lines a h es in
      if not (marshals index)
      then none
      else if not (marshals doc)
      then none
      else elim rest [ none ↦ none | some lines ↦ some (index ∷ doc ∷ lines) ]

  -- The exchange has no answer, or a status and a body, which is nothing where it is no bulk response.
  unfoldable pub send :
      (String → List BulkLine → Option (ℕ × Option EsBulkResponse))
      → ElasticsearchAdapter
      → Heap
      → List LogEntry
      → Option EsError
  send exchange a h [] = none
  send exchange a h (e ∷ es) = elim (bulk_lines a h (e ∷ es)) [
    | none ↦ some marshal_failed
    | some lines ↦ elim (exchange a.bulk_url lines) [
      | none ↦ some request_failed
      | some (code, body) ↦ check_response code body
    ]
  ]
