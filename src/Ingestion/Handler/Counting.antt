-- ===== src/Ingestion/Handler/Counting.antt =====
-- What the response of pkg/ingestion/handler.go says of the entries, and what the buffer of
-- pkg/ingestion/buffer.go takes of them.
use logsieve.Prelude.{
  ℕ, zero, suc, ◌+◌, ◌<◌, min, String, Bool, true, false, List, [], ◌∷◌, ◌++◌, append-nil,
  append_assoc, some, length, length-append, take, ltb, ℤ, ◌≡◌, refl, sym, ◌∙◌, arith,
}
use logsieve.Ingestion.Entry.{LogEntry, Heap}
use logsieve.Ingestion.Parser.{TimeReader, IngestRequest, parse}
use logsieve.Ingestion.Buffer.{Buffer, AddResult, added, add, send}
use logsieve.Ingestion.Handler.{
  HttpRequest, answered, profile_of, source_of, is_too_large, label_entry, ingest_entries,
  handle_ingest,
}

module _ {ℓ} {S : Type ℓ} (add_entry : LogEntry → S → Bool × S) where
  -- Every entry is counted once.
  pub ingest_entries_count :
      (source profile output : String) (es : List LogEntry) (h : Heap) (s : S)
      → let i = ingest_entries add_entry source profile output es h s in
        i.processed + i.errors ≡ length es
  unfolding ingest_entries
  ingest_entries_count source profile output [] h s = omega arith
  ingest_entries_count source profile output (e ∷ es) h s =
      let l = label_entry source profile output e h in
      ground (arith, ingest_entries_count source profile output es l.1 (add_entry l.0 s).1)

  -- The response accounts for every entry of a request that is not too large and has logs: the counts
  -- of those taken and those refused add up to the logs, and the status is "partial" exactly when one
  -- was refused.
  pub handle_ingest_counts :
      (max : ℕ) (reader : TimeReader) (now : ℤ) (r : HttpRequest) (req : IngestRequest)
      (h parsed : Heap) (logs : List LogEntry) (s : S)
      → is_too_large max r ≡ false
      → r.body ≡ some req
      → parse reader now req h ≡ some (logs, parsed)
      → (partial : Bool) × (processed : ℕ) × (errors : ℕ) × ((handle_ingest add_entry max reader now
            r h s).0
          ≡ answered partial processed errors)
        × (processed + errors ≡ length logs)
        × (partial ≡ ltb 0 errors)
  unfolding handle_ingest
  handle_ingest_counts max reader now r req h parsed logs s small b p =
      let i = ingest_entries add_entry (source_of r) (profile_of r) r.output logs parsed s in
      (
        ltb 0 i.errors,
        i.processed,
        i.errors,
        rw (small, b, p) refl,
        ingest_entries_count (source_of r) (profile_of r) r.output logs parsed s,
        refl,
      )

-- AddEntry of the processor, on its memory buffer.
abbrev pub is_added : AddResult → Bool
is_added added = true
is_added _ = false

unfoldable pub add_to_buffer : LogEntry → Buffer LogEntry → Bool × Buffer LogEntry
add_to_buffer e b = (is_added (add e b).0, (add e b).1)

-- The entries as the loop labels them.
unfoldable pub labelled : String → String → String → List LogEntry → Heap → List LogEntry
labelled source profile output [] h = []
labelled source profile output (e ∷ es) h =
    let l = label_entry source profile output e h in l.0 ∷ labelled source profile output es l.1

add_when_full :
    (e : LogEntry) (b : Buffer LogEntry)
    → b.closed ≡ false
    → length b.buffer ≡ b.buffer_size
    → add_to_buffer e b ≡ (false, b)
unfolding add_to_buffer add send
add_when_full e b o f = ground arith

pub add_with_room :
    (e : LogEntry) (b : Buffer LogEntry)
    → b.closed ≡ false
    → length b.buffer < b.buffer_size
    → add_to_buffer e b ≡ (true, record b { buffer = b.buffer ++ e ∷ [] })
unfolding add_to_buffer add send
add_with_room e b o f = ground arith

pub ingest_with_room :
    (room : ℕ) (source profile output : String) (es : List LogEntry) (h : Heap)
    (b : Buffer LogEntry)
    → b.closed ≡ false
    → length b.buffer + room ≡ b.buffer_size
    → let i = ingest_entries add_to_buffer source profile output es h b in
      (i.processed ≡ min room (length es))
      × (i.store.buffer ≡ b.buffer ++ take room (labelled source profile output es h))
unfolding ingest_entries labelled
ingest_with_room zero source profile output [] h b o w = (omega arith, sym (append-nil b.buffer))
ingest_with_room (suc room) source profile output [] h b o w =
    (omega arith, sym (append-nil b.buffer))
ingest_with_room zero source profile output (e ∷ es) h b o w =
    let l = label_entry source profile output e h in
    let rest = ingest_with_room zero source profile output es l.1 b o w in
    rw (add_when_full l.0 b o (omega arith)) (omega (arith, rest.0), rest.1)
ingest_with_room (suc room) source profile output (e ∷ es) h b o w =
    let l = label_entry source profile output e h in
    let more = record b { buffer = b.buffer ++ l.0 ∷ [] } in
    let rest =
      ingest_with_room room source profile output es l.1 more o
        (omega (arith, length-append b.buffer (l.0 ∷ []))) in
    rw (add_with_room l.0 b o (omega arith))
      (omega (arith, rest.0), rest.1 ∙ append_assoc b.buffer (l.0 ∷ []) _)
