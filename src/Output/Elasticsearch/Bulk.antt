-- ===== src/Output/Elasticsearch/Bulk.antt =====
-- What pkg/output/elasticsearch.go sends, and what no error of its Send means.
use logsieve.Prelude.{
  ℕ, ◌≤◌, ◌<◌, String, Bool, false, List, [], ◌∷◌, Option, none, some, length, take, length-append,
  length-take, ℤ, ◌≡◌, refl, sym, ap, ◌∙◌, arith, Option-cases, inl, inr,
}
use logsieve.Ingestion.Entry.{LogEntry, Heap}
use logsieve.Output.Elasticsearch.{
  ElasticsearchAdapter, BulkLine, index_line, doc_line, EsBulkResponse, convert_to_es_document,
  get_index_name, limit_errors, bulk_lines, check_response, send,
}

-- No more than six parts are reported.
pub limit_errors-length : (errors : List String) → length (limit_errors errors) ≤ 6
limit_errors-length errors =
    ground (arith, length-append (take 5 errors) ("... and more errors" ∷ []), length-take 5 errors)

module _ (marshals : BulkLine → Bool) (date : ℤ → String) (a : ElasticsearchAdapter)
    (h : Heap) where
  -- An index line with the index of each entry, and its document after it.
  abbrev pub lines_of : List LogEntry → List BulkLine
  lines_of [] = []
  lines_of (e ∷ es) =
      index_line (get_index_name date a h e) ∷ doc_line (convert_to_es_document h e) ∷ lines_of es

  bulk_lines_lem :
      (es : List LogEntry) (lines : List BulkLine)
      → bulk_lines marshals date a h es ≡ some lines
      → lines ≡ lines_of es
  unfolding bulk_lines
  bulk_lines_lem [] lines f = ground (arith, f)
  bulk_lines_lem (e ∷ es) lines f = elim (Option-cases (bulk_lines marshals date a h es)) [
    | inl n ↦ ground (arith, f, n)
    | inr (rest, found) ↦ ground (arith, f, found, bulk_lines_lem es rest)
  ]

  -- One request with those lines was answered well.
  abbrev pub IsAccepted :
      (String → List BulkLine → Option (ℕ × Option EsBulkResponse)) → List LogEntry → Type 0
  IsAccepted exchange es =
      (code : ℕ) × (r : EsBulkResponse) × (exchange a.bulk_url (lines_of es) ≡ some (code, some r))
      × (200 ≤ code)
      × (code < 300)
      × (r.errors ≡ false)

  check_response-IsAccepted :
      (exchange : String → List BulkLine → Option (ℕ × Option EsBulkResponse)) (es : List LogEntry)
      (code : ℕ) (body : Option EsBulkResponse)
      → exchange a.bulk_url (lines_of es) ≡ some (code, body)
      → check_response code body ≡ none
      → IsAccepted exchange es
  check_response-IsAccepted exchange es code none x c = absurd (cc)
  check_response-IsAccepted exchange es code (some r) x c =
      (code, r, x, ground (arith, c), ground (arith, c), ground (arith, c))

  -- Send reports no error for entries only if one request had, in the order of the entries, the index
  -- line and the document of each, and was answered by a status from 200 to 299 and by a response
  -- that says that no item had an error.
  pub sent-IsAccepted :
      (exchange : String → List BulkLine → Option (ℕ × Option EsBulkResponse)) (e : LogEntry)
      (es : List LogEntry)
      → send marshals date exchange a h (e ∷ es) ≡ none
      → IsAccepted exchange (e ∷ es)
  unfolding send
  sent-IsAccepted exchange e es f = elim (Option-cases (bulk_lines marshals date a h (e ∷ es))) [
    | inl n ↦ absurd (ground (arith, f, n))
    | inr (lines, found) ↦ by_exchange lines found (exchange a.bulk_url lines) refl
  ]
    where
      by_exchange :
          (lines : List BulkLine)
          → bulk_lines marshals date a h (e ∷ es) ≡ some lines
          → (o : Option (ℕ × Option EsBulkResponse)) → exchange a.bulk_url lines ≡ o
          → IsAccepted exchange (e ∷ es)
      by_exchange lines found none x = absurd (ground (arith, f, found, x))
      by_exchange lines found (some (code, body)) x =
          check_response-IsAccepted exchange (e ∷ es) code body
            (ap (exchange a.bulk_url) (sym (bulk_lines_lem (e ∷ es) lines found)) ∙ x)
            (ground (arith, f, found, x))
