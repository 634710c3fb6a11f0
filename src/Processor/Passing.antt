-- ===== src/Processor/Passing.antt =====
-- What processEntry and processBatch of pkg/processor/processor.go send on, and that they return.
use logsieve.Prelude.{
  String, Bool, true, false, not, ◌&&◌, ◌||◌, List, [], ◌∷◌, ◌++◌, map, append_assoc, some, ◌≡◌,
  refl, ap, ◌∙◌, arith,
}
use mathlib.Core.List.{map-append}
use logsieve.Ingestion.Entry.{LogEntry, Heap}
use logsieve.Dedup.Drain.{tokenize, is_empty}
use logsieve.Dedup.Drain.Members.{IsPopulated}
use logsieve.Dedup.Context.{get_context}
use logsieve.Dedup.Context.Window.{last, messages-get_context}
use logsieve.Dedup.Engine.{Engine, Times, process, process_new, should_preserve_context}
use logsieve.Dedup.Engine.Decisions.{is_known, joins_cluster, process_decides}
use logsieve.Profiles.Rules.{Regexp}
use logsieve.Profiles.Manager.{ProcessedEntry, detect_profile, get_profile}
use logsieve.Profiles.Manager.Processing.{HasGeneric, or_else, result}
use logsieve.Output.Router.{build_routing_map}
use logsieve.Processor.{
  Processor, Outcome, emitted, dedup_entry, process_entry, process_entries, process_batch,
}

abbrev pub messages : List LogEntry → List String
messages = map (λ (e : LogEntry). e.message)

abbrev pub is_nil : List LogEntry → Bool
is_nil [] = true
is_nil (e ∷ es) = false

is_nil-append_one : (es : List LogEntry) (e : LogEntry) → is_nil (es ++ e ∷ []) ≡ false
is_nil-append_one [] e = refl
is_nil-append_one (x ∷ es) e = refl

module _ (re : Regexp) (get_fingerprint : String → String) where
  -- Nothing is sent on for an entry exactly when its profile drops it, its fingerprint is known, or it
  -- joins a cluster that is there and is of no error level, provided that the miner's clusters have
  -- positive ids and sizes.
  pub silent_iff :
      (t : Times) (p : ProcessedEntry) (h : Heap) (e : Engine)
      → IsPopulated e.drain
      → let tokens = tokenize e.drain p.entry.message in
        let joins = not (is_empty tokens) && joins_cluster e.drain tokens in
        is_nil (dedup_entry re get_fingerprint t p h e).out ≡ (
          p.drop
          || is_known get_fingerprint t p.entry e
          || (joins && not (should_preserve_context p.entry)))
  unfolding dedup_entry emitted
  silent_iff t p h e w =
      let r = (process get_fingerprint t p.entry h e).0 in
      let d = process_decides get_fingerprint t p.entry h e w in
      ground (arith, d.0, d.1, is_nil-append_one r.context p.entry)

  context_of_error :
      (t : Times) (entry : LogEntry) (h : Heap) (e : Engine)
      → should_preserve_context entry ≡ true
      → is_known get_fingerprint t entry e ≡ false
      → ((process get_fingerprint t entry h e).0.context ≡ (get_context entry e.context h).0)
        × ((process get_fingerprint t entry h e).0.should_output ≡ true)
  unfolding process process_new
  context_of_error t entry h e s n = ground arith

  out_of_error :
      (t : Times) (p : ProcessedEntry) (h : Heap) (e : Engine)
      → p.drop ≡ false
      → should_preserve_context p.entry ≡ true
      → is_known get_fingerprint t p.entry e ≡ false
      → (dedup_entry re get_fingerprint t p h e).out
        ≡ (get_context p.entry e.context h).0 ++ p.entry ∷ []
  unfolding dedup_entry emitted
  out_of_error t p h e d s n = ground (arith, context_of_error t p.entry h e s n)

  -- An error is sent on twice: for a new entry of an error level that its profile keeps, the messages
  -- sent on are those of the last entries of the window, as many as the context has lines, and then
  -- the entry's own message two times, since the context already ends with it.
  pub error_is_sent_twice :
      (t : Times) (p : ProcessedEntry) (h : Heap) (e : Engine)
      → p.drop ≡ false
      → should_preserve_context p.entry ≡ true
      → is_known get_fingerprint t p.entry e ≡ false
      → messages (dedup_entry re get_fingerprint t p h e).out
        ≡ messages (last e.context.context_lines e.context.buffer)
          ++ p.entry.message ∷ p.entry.message ∷ []
  error_is_sent_twice t p h e d s n =
      let m = p.entry.message in
      let before = messages (last e.context.context_lines e.context.buffer) in
      ap messages (out_of_error t p h e d s n)
      ∙ (map-append (λ (x : LogEntry). x.message) (get_context p.entry e.context h).0 (p.entry ∷ [])
          ∙ (ap (λ xs. xs ++ m ∷ []) (messages-get_context p.entry e.context h)
              ∙ append_assoc before (m ∷ []) (m ∷ [])))

  module _ {Key : Type 0} where
    process_entry_returns :
        (t : Times) (entry : LogEntry) (h : Heap) (p : Processor Key)
        → HasGeneric p.profiles
        → (o : Outcome) × (process_entry re get_fingerprint t entry h p ≡ some o)
    unfolding process_entry
    process_entry_returns t entry h p g =
        let name = detect_profile h entry p.profiles in
        let used = or_else (get_profile name p.profiles) g.0 in
        (
          dedup_entry re get_fingerprint t (logsieve.Profiles.Manager.process_entry re entry used) h
              p.dedup,
          rw (result re p.profiles entry name g.0 g.1, process_entry) refl,
        )

    process_entries_returns :
        (batch : List (Times × LogEntry)) (h : Heap) (p : Processor Key)
        → HasGeneric p.profiles
        → (r : List LogEntry × Heap × Processor Key) × (process_entries re get_fingerprint batch h p
            ≡ some r)
          × (r.2.profiles ≡ p.profiles)
    unfolding process_entries
    process_entries_returns [] h p g = (_, refl, refl)
    process_entries_returns ((t, entry) ∷ batch) h p g =
        let o = process_entry_returns t entry h p g in
        let r = process_entries_returns batch (o.0).maps (record p { dedup = (o.0).dedup }) g in
        (((o.0).out ++ (r.0).0, (r.0).1, (r.0).2), rw (o.1, r.1, process_entries) refl, r.2)

    -- No batch makes the processor panic while the manager has the generic profile: there is a result.
    pub process_batch_returns :
        (batch : List (Times × LogEntry)) (h : Heap) (p : Processor Key)
        → HasGeneric p.profiles
        → (r : List LogEntry × Heap × Processor Key) × (process_batch re get_fingerprint batch h p
            ≡ some (build_routing_map p.router r.1 r.0 [], r.1, r.2))
          × (r.2.profiles ≡ p.profiles)
    unfolding process_batch
    process_batch_returns batch h p g =
        let r = process_entries_returns batch h p g in (r.0, rw (r.1, process_batch) refl, r.2)
