-- ===== src/Processor.antt =====
-- pkg/processor/processor.go: a batch of entries through the profiles, the deduplication and the
-- router. The readings of the clock come with each entry; metrics and logging are left out. A panic
-- of the profiles, where neither the named nor the generic profile is there, is nothing.
pub mod Passing
pub mod Lifecycle
pub mod Setup
pub mod Rates
pub mod Sending
pub mod Tests
use logsieve.Prelude.{
  ℕ, String, Bool, true, false, not, ◌&&◌, List, [], ◌∷◌, ◌++◌, Option, none, some, if◌then◌else◌,
  Dict,
}
use logsieve.Ingestion.Entry.{LogEntry, Heap}
use logsieve.Dedup.Engine
use logsieve.Dedup.Engine.{Engine, Times, Result}
use logsieve.Profiles.Rules.{Regexp}
use logsieve.Profiles.Manager.{Manager, ProcessedEntry, detect_profile, process_with_profile}
use logsieve.Output.Router.{Router, build_routing_map}

pub record Processor (Key : Type 0) : Type 0 where
  pub dedup : Engine
  pub profiles : Manager Key
  pub router : Router

-- What processEntry returns, with the label maps and the engine after it.
pub record Outcome : Type 0 where
  pub out : List LogEntry
  pub matched : Bool
  pub maps : Heap
  pub dedup : Engine

-- The entries that a result of the engine sends on: the context first and then the entry itself.
unfoldable pub emitted : LogEntry → Result → List LogEntry
emitted entry r = if r.is_duplicate && not r.should_output then [] else r.context ++ entry ∷ []

module _ (re : Regexp) (get_fingerprint : String → String) where
  -- The transforms of the profile have changed the entry itself by the time it is deduplicated.
  unfoldable pub dedup_entry : Times → ProcessedEntry → Heap → Engine → Outcome
  dedup_entry t p h e =
      let r = Engine.process get_fingerprint t p.entry h e in
      if p.drop
      then record { out = []; matched = p.matched; maps = h; dedup = e }
      else record { out = emitted p.entry r.0; matched = p.matched; maps = r.1; dedup = r.2 }

  module _ {Key : Type 0} where
    unfoldable pub process_entry : Times → LogEntry → Heap → Processor Key → Option Outcome
    process_entry t entry h p =
        elim (process_with_profile re entry (detect_profile h entry p.profiles) p.profiles) [
          | none ↦ none
          | some processed ↦ some (dedup_entry t processed h p.dedup)
        ]

    -- The loop of processBatch: the entries for the router, in order.
    unfoldable pub process_entries :
        List (Times × LogEntry)
        → Heap
        → Processor Key
        → Option (List LogEntry × Heap × Processor Key)
    process_entries [] h p = some ([], h, p)
    process_entries ((t, entry) ∷ batch) h p = elim (process_entry t entry h p) [
      | none ↦ none
      | some o ↦ elim (process_entries batch o.maps (record p { dedup = o.dedup })) [
        | none ↦ none
        | some (out, maps, after) ↦ some (o.out ++ out, maps, after)
      ]
    ]

    -- processBatch up to the Sends: what each output is to be sent, with the state after the batch.
    unfoldable pub process_batch :
        List (Times × LogEntry)
        → Heap
        → Processor Key
        → Option (Dict (List LogEntry) × Heap × Processor Key)
    process_batch batch h p = elim (process_entries batch h p) [
      | none ↦ none
      | some (out, maps, after) ↦ some (build_routing_map p.router maps out [], maps, after)
    ]
