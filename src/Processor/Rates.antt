-- ===== src/Processor/Rates.antt =====
-- The numbers of each profile that processBatch of pkg/processor/processor.go counts in its loop, and
-- the rates that it reports of them as metrics, as exact fractions.
pub mod Reported
use logsieve.Prelude.{
  ℕ, zero, suc, ◌+◌, ◌-◌, ◌≤◌, ◌<◌, min, String, Bool, true, false, not, ◌&&◌, List, [], ◌∷◌, ◌++◌,
  map, Option, none, some, ltb, ◌==◌, if◌then◌else◌, str_eq, eq_iff, length, count, sum, concat,
  All, Dict, lookup, insert, lookup-insert, ◌≡◌, refl, sym, ap, ◌∙◌, arith, Bool-cases,
  Option-cases, inl, inr,
}
use logsieve.Ingestion.Entry.{LogEntry, Heap, label_of}
use logsieve.Dedup.Engine.{Times}
use logsieve.Profiles.Rules.{Regexp, Rate, fraction, is_in_range}
use logsieve.Processor.{Processor, Outcome, process_entry, process_entries}

-- One round of the loop: the profile that the entry's label names, and what processEntry returned.
pub record Tracked : Type 0 where
  pub profile : String
  pub out : List LogEntry
  pub matched : Bool

unfoldable pub profile_label : Heap → LogEntry → String
profile_label h entry = elim (label_of h entry "profile") [ none ↦ "unknown" | some v ↦ v ]

module _ (re : Regexp) (get_fingerprint : String → String) {Key : Type 0} where
  -- The loop with what it notes of each entry.
  unfoldable pub track_entries :
      List (Times × LogEntry) → Heap → Processor Key → Option (List Tracked × Heap × Processor Key)
  track_entries [] h p = some ([], h, p)
  track_entries ((t, entry) ∷ batch) h p = elim (process_entry re get_fingerprint t entry h p) [
    | none ↦ none
    | some o ↦ elim (track_entries batch o.maps (record p { dedup = o.dedup })) [
      | none ↦ none
      | some (ts, maps, after) ↦ some (
        record { profile = profile_label h entry; out = o.out; matched = o.matched } ∷ ts,
        maps,
        after,
      )
    ]
  ]

pub record Tally : Type 0 where
  pub input : Dict ℕ
  pub output : Dict ℕ
  pub matched : Dict ℕ

abbrev pub or_zero : Option ℕ → ℕ
or_zero none = 0
or_zero (some n) = n

-- m[key] += n
abbrev bump : String → ℕ → Dict ℕ → Dict ℕ
bump key n m = insert key (n + or_zero (lookup key m)) m

unfoldable pub note_entry : Tracked → Tally → Tally
note_entry t s = record {
  input = bump t.profile 1 s.input;
  output = if ltb 0 (length t.out) then bump t.profile (length t.out) s.output else s.output;
  matched = if t.matched then bump t.profile 1 s.matched else s.matched;
}

unfoldable pub tally : List Tracked → Tally → Tally
tally [] s = s
tally (t ∷ ts) s = tally ts (note_entry t s)

abbrev pub no_tally : Tally
no_tally = record { input = []; output = []; matched = [] }

-- 1 - out / in, and 0 where that is below it.
abbrev pub dedup_ratio : ℕ → ℕ → Rate
dedup_ratio input output =
    if ltb input output then fraction 0 1 else fraction (input - output) input

-- matched / in, and 1 where that is above it.
abbrev pub coverage : ℕ → ℕ → Rate
coverage input matched = if ltb input matched then fraction 1 1 else fraction matched input

-- The loop that sets the two metrics of each profile.
unfoldable pub report : Dict ℕ → Dict ℕ → Dict ℕ → Dict (Rate × Rate)
report [] output matched = []
report ((profile, n) ∷ input) output matched =
    let rest = report input output matched in
    if n == 0
    then rest
    else (
      profile,
      (
        dedup_ratio n (or_zero (lookup profile output)),
        coverage n (or_zero (lookup profile matched)),
      ),
    )
      ∷ rest

-- What is reported of a batch: nothing where Route has returned an error for the entries to send.
unfoldable pub report_batch : Bool → List Tracked → Dict (Rate × Rate)
report_batch route_fails ts =
    let s = tally ts no_tally in
    if ltb 0 (length (concat (map (λ t. t.out) ts))) && route_fails
    then []
    else report s.input s.output s.matched

-- The numbers of one profile in a batch.
abbrev pub is_of : String → Tracked → Bool
is_of name t = str_eq t.profile name

abbrev pub inputs_of : String → List Tracked → ℕ
inputs_of name = count (is_of name)

abbrev pub outputs_of : String → List Tracked → ℕ
outputs_of name [] = 0
outputs_of name (t ∷ ts) = (if is_of name t then length t.out else 0) + outputs_of name ts

abbrev pub matches_of : String → List Tracked → ℕ
matches_of name = count (λ t. is_of name t && t.matched)

get-bump :
    (key name : String) (n : ℕ) (m : Dict ℕ)
    → or_zero (lookup name (bump key n m))
      ≡ (if str_eq key name then n else 0) + or_zero (lookup name m)
get-bump key name n m =
    ground (arith, eq_iff key name, lookup-insert key name (n + or_zero (lookup key m)) m)

-- The maps hold the numbers of each profile.
tally_numbers :
    (name : String) (ts : List Tracked) (s : Tally)
    → (or_zero (lookup name (tally ts s).input) ≡ inputs_of name ts + or_zero (lookup name s.input))
      × (or_zero (lookup name (tally ts s).output)
          ≡ outputs_of name ts + or_zero (lookup name s.output))
      × (or_zero (lookup name (tally ts s).matched)
          ≡ matches_of name ts + or_zero (lookup name s.matched))
unfolding tally note_entry
tally_numbers name [] s = (omega arith, omega arith, omega arith)
tally_numbers name (t ∷ ts) s = ground (
  arith,
  tally_numbers name ts (note_entry t s),
  get-bump t.profile name 1 s.input,
  get-bump t.profile name (length t.out) s.output,
  get-bump t.profile name 1 s.matched,
)
