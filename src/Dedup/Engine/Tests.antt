-- ===== src/Dedup/Engine/Tests.antt =====
-- Runs of the cache, the window and the engine on small inputs, and their theorems there.
use logsieve.Prelude.{
  ℕ, List, String, false, not, ◌&&◌, ◌||◌, [], ◌∷◌, Option, none, some, lookup, ◌≡◌, refl, arith,
}
use logsieve.Ingestion.Entry.{LogEntry, Heap, blank_entry}
use logsieve.Dedup.Drain.{Ratio, tokenize, is_empty}
use logsieve.Dedup.Drain.Members.{IsPopulated}
use logsieve.Dedup.Fingerprint
use logsieve.Dedup.Fingerprint.Refinement
use logsieve.Dedup.Fingerprint.{
  FingerprintCache, IsMap, exists-add, exists-cleanup, fingerprints-IsMap,
}
use logsieve.Dedup.Context.{ContextWindow}
use logsieve.Dedup.Engine.{Engine, Times, new_engine, process}
use logsieve.Dedup.Engine.Decisions.{is_known, joins_cluster, process_decides, process_twice}

abbrev cache : FingerprintCache
cache = record { fingerprints = ("a", 10) ∷ ("b", 30) ∷ []; ttl = 20 }

cache-IsMap : IsMap cache.fingerprints
unfolding lookup
cache-IsMap = (refl, (refl, tt))

fingerprints-IsMap_example : IsMap (Fingerprint.cleanup 15 cache).fingerprints
fingerprints-IsMap_example = (fingerprints-IsMap 15 "c" cache cache-IsMap).2

abbrev entry_with : String → String → Option ℕ → LogEntry
entry_with message level labels = record blank_entry {
  message = message;
  level = level;
  labels = labels;
}

abbrev window : ContextWindow
window = record {
  buffer = entry_with "one" "INFO" (some 0) ∷ entry_with "two" "INFO" none ∷ [];
  size = 3;
  context_lines = 2;
}

abbrev failure : LogEntry
failure = entry_with "boom" "ERROR" (some 1)

abbrev two_maps : Heap
two_maps = record { next = 2; at = λ a. [] }

abbrev engine : Engine
unfolding new_engine
engine = new_engine (record { num = 9; den = 10 }) [] 1800 5

abbrev at_ten : Times
at_ten = record { checked = 10; mined = 11; added = 12 }

abbrev at_twenty : Times
at_twenty = record { checked = 20; mined = 21; added = 22 }

-- The text itself stands for its fingerprint.
abbrev plain : String → String
plain m = m

engine-IsPopulated : IsPopulated engine.drain
unfolding new_engine logsieve.Dedup.Drain.new_drain3
engine-IsPopulated = tt

engine_empty : is_known plain at_ten failure engine ≡ false
unfolding new_engine Fingerprint.exists Fingerprint.new_fingerprint_cache lookup
engine_empty = refl

process_decides_example : (process plain at_ten failure two_maps engine).0.is_duplicate ≡ (
    is_known plain at_ten failure engine
    || (not (is_empty (tokenize engine.drain "boom"))
        && joins_cluster engine.drain (tokenize engine.drain "boom")))
process_decides_example =
    (process_decides plain at_ten failure two_maps engine engine-IsPopulated).0

process_twice_example :
    (process plain at_twenty failure two_maps
      (process plain at_ten failure two_maps engine).2).0.should_output
    ≡ false
unfolding new_engine Fingerprint.new_fingerprint_cache
process_twice_example =
    (process_twice plain at_ten at_twenty failure failure two_maps two_maps engine engine_empty refl
      (omega arith)).1

abbrev calls : List (ℕ × Refinement.Op)
calls =
    (1, Refinement.adds "x")
    ∷ (4, Refinement.asks "x")
    ∷ (9, Refinement.cleans)
    ∷ (12, Refinement.asks "x")
    ∷ []

answers-spec_answers_example :
    Refinement.answers calls (Fingerprint.new_fingerprint_cache 5)
    ≡ Refinement.spec_answers 5 calls Refinement.no_additions
answers-spec_answers_example =
    Refinement.answers-spec_answers 5 calls
      (omega arith, (omega arith, (omega arith, (omega arith, tt))))
