-- ===== src/Output/Loki/Streams.antt =====
-- Which entries groupByLabels of pkg/output/loki.go puts into which stream.
use logsieve.Prelude.{
  String, Bool, List, [], ◌∷◌, ◌++◌, map, Option, none, some, str_eq, eq_iff, Dict, lookup, insert,
  lookup-insert, keep, append_assoc, append-nil, ◌≡◌, refl, sym, ap, ◌∙◌, arith,
}
use logsieve.Ingestion.Entry.{LogEntry, Heap}
use logsieve.Output.Loki.{
  LokiStream, Writer, extract_labels, log_value, or_stream, append_value, stream_key,
  group_by_labels,
}

module _ (w : Writer) (structured : Bool) (h : Heap) where
  -- The stream of some entries: the first one's labels, and a value for each.
  abbrev pub stream_of : List LogEntry → Option LokiStream
  stream_of [] = none
  stream_of (e ∷ es) =
      some (record { stream = extract_labels h e; values = map (log_value structured h) (e ∷ es) })

  -- A stream after some entries.
  abbrev grow : Option LokiStream → List LogEntry → Option LokiStream
  grow s [] = s
  grow s (e ∷ es) =
      grow (some (append_value (log_value structured h e) (or_stream (extract_labels h e) s))) es

  grow-some :
      (s : LokiStream) (es : List LogEntry)
      → grow (some s) es ≡ some (record s { values = s.values ++ map (log_value structured h) es })
  grow-some s [] = ap (λ vs. some (record s { values = vs })) (sym (append-nil s.values))
  grow-some s (e ∷ es) =
      let v = log_value structured h e in
      grow-some (append_value v s) es
      ∙ ap (λ vs. some (record s { values = vs }))
          (append_assoc s.values (v ∷ []) (map (log_value structured h) es))

  grow-none : (es : List LogEntry) → grow none es ≡ stream_of es
  grow-none [] = refl
  grow-none (e ∷ es) =
      grow-some (append_value (log_value structured h e) (or_stream (extract_labels h e) none)) es

  lookup-group :
      (key : String) (es : List LogEntry) (m : Dict LokiStream)
      → lookup key (group_by_labels w structured h es m)
        ≡ grow (lookup key m) (keep (λ e. str_eq (stream_key w h e) key) es)
  unfolding group_by_labels
  lookup-group key [] m = refl
  lookup-group key (e ∷ es) m =
      let k : String = stream_key w h e in
      let s : LokiStream =
        append_value (log_value structured h e) (or_stream (extract_labels h e) (lookup k m)) in
      ground (arith, lookup-group key es (insert k s m), lookup-insert k key s m, eq_iff k key)

  -- Every stream key has one stream, exactly when an entry has it, with the labels of the first entry
  -- that has it, and with the values of those entries and no others, each once and in their order.
  pub lookup-group_by_labels :
      (key : String) (es : List LogEntry)
      → lookup key (group_by_labels w structured h es [])
        ≡ stream_of (keep (λ e. str_eq (stream_key w h e) key) es)
  unfolding lookup
  lookup-group_by_labels key es =
      lookup-group key es [] ∙ grow-none (keep (λ e. str_eq (stream_key w h e) key) es)
