-- ===== src/Ingestion/Handler.antt =====
-- HandleIngest of pkg/ingestion/handler.go. The decoded body comes from package gin, and the store
-- that AddEntry adds to is a parameter; metrics and logging are left out.
pub mod Counting
pub mod Labelling
pub mod Meanwhile
use logsieve.Prelude.{
  ℕ, ◌+◌, String, Bool, true, false, not, ◌&&◌, List, [], ◌∷◌, ◌++◌, Option, none, some, ltb,
  if◌then◌else◌, str_eq, ℤ,
}
use logsieve.Ingestion.Entry.{LogEntry, Heap, write_label, ensure_labels}
use logsieve.Ingestion.Parser.{IngestRequest, TimeReader, parse}

-- What the handler reads of a request; a length that the client does not tell is nothing, and a
-- body that is no JSON of the right form is nothing.
pub record HttpRequest : Type 0 where
  pub profile : String
  pub output : String
  pub source : String
  pub content_length : Option ℕ
  pub body : Option IngestRequest

pub data Response : Type 0 where
  request_too_large invalid_json parse_error : Response
  answered : (partial : Bool) (processed errors : ℕ) → Response

abbrev pub profile_of : HttpRequest → String
profile_of r = if str_eq r.profile "" then "auto" else r.profile

abbrev pub source_of : HttpRequest → String
source_of r = if str_eq r.source "" then "unknown" else r.source

-- contentLength > MaxRequestSize, where an unknown length is -1.
unfoldable pub is_too_large : ℕ → HttpRequest → Bool
is_too_large max r = elim r.content_length [ none ↦ false | some n ↦ ltb max n ]

-- The source and the labels that the loop gives to an entry.
unfoldable pub label_entry : String → String → String → LogEntry → Heap → LogEntry × Heap
label_entry source profile output e h =
    let m = ensure_labels e h in
    let profiled = write_label m.0 "profile" profile m.1 in
    (
      record e { source = source; labels = some m.0 },
      if str_eq output "" then profiled else write_label m.0 "output" output profiled,
    )

-- What the loop leaves: how many entries were taken and how many refused, the maps and the store.
pub record Ingested {ℓ} (S : Type ℓ) : Type ℓ where
  pub processed : ℕ
  pub errors : ℕ
  pub maps : Heap
  pub store : S

-- The store passes from one AddEntry to the next, which may do first what other goroutines do in
-- between (Meanwhile.add_after).
module _ {ℓ} {S : Type ℓ} (add_entry : LogEntry → S → Bool × S) where
  unfoldable pub ingest_entries : String → String → String → List LogEntry → Heap → S → Ingested S
  ingest_entries source profile output [] h s = record {
    processed = 0;
    errors = 0;
    maps = h;
    store = s;
  }
  ingest_entries source profile output (e ∷ es) h s =
      let l = label_entry source profile output e h in
      let a = add_entry l.0 s in
      let rest = ingest_entries source profile output es l.1 a.1 in
      record {
        processed = (if a.0 then 1 else 0) + rest.processed;
        errors = (if a.0 then 0 else 1) + rest.errors;
        maps = rest.maps;
        store = rest.store;
      }

  -- The response, and the maps and the store after it.
  unfoldable pub handle_ingest : ℕ → TimeReader → ℤ → HttpRequest → Heap → S → Response × Heap × S
  handle_ingest max_request_size reader now r h s =
      if is_too_large max_request_size r then (request_too_large, h, s) else (elim r.body [
        | none ↦ (invalid_json, h, s)
        | some req ↦ elim (parse reader now req h) [
          | none ↦ (parse_error, h, s)
          | some (logs, parsed) ↦
              (let i = ingest_entries (source_of r) (profile_of r) r.output logs parsed s in
                (answered (ltb 0 i.errors) i.processed i.errors, i.maps, i.store))
        ]
      ])
