-- ===== src/Processor/Sending.antt =====
-- processBatch of pkg/processor/processor.go as a whole: the entries through the profiles and the
-- deduplication, Route with its Sends, and the rates that are reported.
pub mod Tests
use logsieve.Prelude.{
  ℕ, String, Bool, true, false, not, List, [], ◌∷◌, map, concat, keep, Option, none, some, Dict,
  lookup, ◌≡◌, refl, sym, ap, subst, ◌∙◌, arith, Option-cases, inl, inr,
}
use logsieve.Ingestion.Entry.{LogEntry, Heap}
use logsieve.Dedup.Engine.{Times}
use logsieve.Profiles.Rules.{Regexp, Rate}
use logsieve.Output.Retry.{Environment}
use logsieve.Output.Router.{RouteError, Router, is_nil, keys, or_nil, determine_outputs}
use logsieve.Output.Router.Routes.{AreDistinct, has_name}
use logsieve.Output.Router.Routing.{Routed, route, route_delivers}
use logsieve.Processor.{Processor, process_entry, process_entries}
use logsieve.Processor.Rates.{Tracked, track_entries, report_batch}
use logsieve.Processor.Rates.Reported.{process_entries-track_entries}

pub record BatchResult (Key : Type 0) : Type 0 where
  pub errors : List (String × RouteError)
  pub delivered : Dict (List LogEntry)
  pub rates : Dict (Rate × Rate)
  pub maps : Heap
  pub processor : Processor Key

abbrev pub outputs : List Tracked → List LogEntry
outputs ts = concat (map (λ t. t.out) ts)

module _ (re : Regexp) (get_fingerprint : String → String) (answers : String → Environment × ℕ)
    {Key : Type 0} where
  abbrev pub send_batch : List Tracked × Heap × Processor Key → BatchResult Key
  send_batch (ts, maps, p) =
      let r = route answers maps (outputs ts) p.router in
      record {
        errors = r.errors;
        delivered = r.delivered;
        rates = report_batch (not (is_nil r.errors)) ts;
        maps = maps;
        processor = record p { router = r.router };
      }

  -- Nothing where the profiles panic.
  unfoldable pub send_entries :
      List (Times × LogEntry) → Heap → Processor Key → Option (BatchResult Key)
  send_entries batch h p = elim (track_entries re get_fingerprint batch h p) [
    | none ↦ none
    | some r ↦ some (send_batch r)
  ]

  track_entries-router :
      (batch : List (Times × LogEntry)) (h : Heap) (p : Processor Key) (ts : List Tracked)
      (maps : Heap) (after : Processor Key)
      → track_entries re get_fingerprint batch h p ≡ some (ts, maps, after)
      → after.router ≡ p.router
  unfolding track_entries
  track_entries-router [] h p ts maps after e = ground (arith, e)
  track_entries-router ((t, entry) ∷ batch) h p ts maps after e =
      elim (Option-cases (process_entry re get_fingerprint t entry h p)) [
        | inl n ↦ absurd (ground (arith, n, e))
        | inr (o, s) ↦
            (let q = record p { dedup = o.dedup } in
              elim (Option-cases (track_entries re get_fingerprint batch o.maps q)) [
                | inl n ↦ absurd (ground (arith, s, n, e))
                | inr ((us, later, last), r) ↦
                    ground (arith, s, r, e, track_entries-router batch o.maps q us later last r)
              ])
      ]

  -- What the batch sends on, and what of it the output's Sends had that returned no error.
  abbrev pub Delivers :
      List (Times × LogEntry) → Heap → Processor Key → BatchResult Key → String → Type 0
  Delivers batch h p b name =
      (out : List LogEntry) × (after : Processor Key) × (process_entries re get_fingerprint batch h
          p
        ≡ some (out, b.maps, after))
      × (or_nil (lookup name b.delivered)
          ≡ keep (λ e. has_name name (determine_outputs p.router b.maps e)) out)

  -- From a batch to the outputs: when Route reports no error, neither of a Send nor of an open circuit,
  -- each output's Sends that returned no error had exactly those of the entries that the batch sends on
  -- that are for it, in their order and each once, if the adapters have distinct names.
  pub send_entries-Delivers :
      (batch : List (Times × LogEntry)) (h : Heap) (p : Processor Key) (b : BatchResult Key)
      (name : String)
      → AreDistinct (keys p.router.adapters)
      → send_entries batch h p ≡ some b
      → b.errors ≡ []
      → Delivers batch h p b name
  unfolding send_entries
  send_entries-Delivers batch h p b name d e none_fails =
      elim (Option-cases (track_entries re get_fingerprint batch h p)) [
        | inl n ↦ absurd (ground (arith, n, e))
        | inr ((ts, maps, after), s) ↦
            (let same : send_batch (ts, maps, after) ≡ b = ground (arith, s, e) in
              subst (λ c. Delivers batch h p c name) same
                (let r =
                    process_entries-track_entries re get_fingerprint batch h p ts maps after s in
                  let kept = track_entries-router batch h p ts maps after s in
                  let errors = ap (λ c. c.errors) same ∙ none_fails in
                  let reached =
                    route_delivers answers maps (outputs ts) after.router name
                      (subst (λ x. AreDistinct (keys x.adapters)) (sym kept) d) errors in
                  (
                    outputs ts,
                    after,
                    r,
                    reached
                        ∙ ap
                            (λ x.
                              keep (λ e. has_name name (determine_outputs x maps e)) (outputs ts))
                            kept,
                  )))
      ]
