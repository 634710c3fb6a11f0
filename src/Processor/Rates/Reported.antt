-- ===== src/Processor/Rates/Reported.antt =====
-- What processBatch of pkg/processor/processor.go reports of each profile.
use logsieve.Prelude.{
  ℕ, ◌+◌, ◌-◌, ◌*◌, min, ltb, refl, ap, ◌≤◌, ◌<◌, String, true, false, List, [], ◌∷◌, map, some,
  str_eq, eq_iff, concat, All, Dict, lookup, insert, ◌≡◌, arith, Bool-cases, Option-cases, inl, inr,
}
use logsieve.Ingestion.Entry.{LogEntry, Heap}
use logsieve.Dedup.Engine.{Times}
use logsieve.Profiles.Rules.{Regexp, Rate, fraction, is_in_range}
use logsieve.Processor.{Processor, process_entry, process_entries}
use logsieve.Processor.Rates.{
  Tracked, track_entries, Tally, or_zero, note_entry, tally, no_tally, dedup_ratio, coverage,
  report, report_batch, inputs_of, outputs_of, matches_of, tally_numbers,
}

abbrev IsPositive : Dict ℕ → Type 0
IsPositive = All (λ (e : String × ℕ). 0 < e.1)

insert-IsPositive :
    (key : String) (n : ℕ) (m : Dict ℕ) → 0 < n → IsPositive m → IsPositive (insert key n m)
unfolding insert
insert-IsPositive key n [] h a = (h, tt)
insert-IsPositive key n ((k, v) ∷ m) h a = ground (arith, h, a, insert-IsPositive key n m)

tally-IsPositive :
    (ts : List Tracked) (s : Tally) → IsPositive s.input → IsPositive (tally ts s).input
unfolding tally note_entry
tally-IsPositive [] s a = a
tally-IsPositive (t ∷ ts) s a =
    tally-IsPositive ts (note_entry t s)
      (insert-IsPositive t.profile (1 + or_zero (lookup t.profile s.input)) s.input (omega arith) a)

lookup-report :
    (name : String) (input output matched : Dict ℕ)
    → IsPositive input
    → 0 < or_zero (lookup name input)
    → let n = or_zero (lookup name input) in
      lookup name (report input output matched)
      ≡ some
          (dedup_ratio n (or_zero (lookup name output)), coverage n (or_zero (lookup name matched)))
unfolding report lookup
lookup-report name [] output matched a h = absurd (omega (arith, h))
lookup-report name ((profile, n) ∷ input) output matched a h =
    elim (Bool-cases (str_eq profile name)) [
      | inl y ↦ ground (arith, a, y, eq_iff profile name)
      | inr y ↦ ground (arith, a, y, h, lookup-report name input output matched)
    ]

matches_of-le : (name : String) (ts : List Tracked) → matches_of name ts ≤ inputs_of name ts
matches_of-le name [] = omega arith
matches_of-le name (t ∷ ts) = ground (arith, matches_of-le name ts)

batch_numbers :
    (name : String) (ts : List Tracked)
    → let s = tally ts no_tally in
      (or_zero (lookup name s.input) ≡ inputs_of name ts)
      × (or_zero (lookup name s.output) ≡ outputs_of name ts)
      × (or_zero (lookup name s.matched) ≡ matches_of name ts)
unfolding lookup
batch_numbers name ts =
    let n = tally_numbers name ts no_tally in
    (omega (arith, n.0), omega (arith, n.1), omega (arith, n.2))

coverage-fraction : (n m : ℕ) → m ≤ n → coverage n m ≡ fraction m n
coverage-fraction n m h = ground arith

report_batch-sent :
    (ts : List Tracked)
    → let s = tally ts no_tally in report_batch false ts ≡ report s.input s.output s.matched
unfolding report_batch
report_batch-sent ts = ground arith

-- The rate is the fraction of the two numbers.
pub data IsRate (a n : ℕ) : Rate → Type 0 where
  is_fraction : (x y : ℕ) → 0 < y → x * n ≡ a * y → IsRate a n (fraction x y)

dedup_ratio-IsRate : (n o : ℕ) → 0 < n → IsRate (n - min n o) n (dedup_ratio n o)
dedup_ratio-IsRate n o h = elim (Bool-cases (ltb n o)) [
  | inl y ↦ rw y (is_fraction 0 1 (omega arith) (ground (arith, y)))
  | inr within ↦ rw within (is_fraction (n - o) n h (ap (λ x. x * n) (ground (arith, within))))
]

-- The rates of a profile that has entries in the batch, when Route reports no error: the ratio is what
-- part of its entries is not sent on, where those that the context adds to them count as sent on, and
-- 0 where as many as came in or more are sent on; and the share is what part of them a rule matched.
-- Both are from 0 to 1.
pub report_batch_rates :
    (name : String) (ts : List Tracked)
    → 0 < inputs_of name ts
    → let n = inputs_of name ts in
      let saved = n - min n (outputs_of name ts) in
      (ratio : Rate) × (share : Rate) × (lookup name (report_batch false ts) ≡ some (ratio, share))
      × IsRate saved n ratio
      × IsRate (matches_of name ts) n share
      × (is_in_range ratio ≡ true)
      × (is_in_range share ≡ true)
report_batch_rates name ts h =
    let s = tally ts no_tally in
    let n = inputs_of name ts in
    let m = matches_of name ts in
    let numbers = batch_numbers name ts in
    let found =
      lookup-report name s.input s.output s.matched (tally-IsPositive ts no_tally tt)
        (omega (arith, numbers.0, h)) in
    let below = matches_of-le name ts in
    (
      dedup_ratio n (outputs_of name ts),
      fraction m n,
      cc (
        report_batch-sent ts,
        found,
        numbers.0,
        numbers.1,
        numbers.2,
        coverage-fraction n m below,
      ),
      dedup_ratio-IsRate n (outputs_of name ts) h,
      is_fraction m n h refl,
      ground arith,
      ground (arith, below),
    )

module _ (re : Regexp) (get_fingerprint : String → String) {Key : Type 0} where
  -- The entries for the router are those that the rounds of the loop returned, in order.
  pub process_entries-track_entries :
      (batch : List (Times × LogEntry)) (h : Heap) (p : Processor Key) (ts : List Tracked)
      (maps : Heap) (after : Processor Key)
      → track_entries re get_fingerprint batch h p ≡ some (ts, maps, after)
      → process_entries re get_fingerprint batch h p
        ≡ some (concat (map (λ t. t.out) ts), maps, after)
  unfolding track_entries process_entries
  process_entries-track_entries [] h p ts maps after e = ground (arith, e)
  process_entries-track_entries ((t, entry) ∷ batch) h p ts maps after e =
      elim (Option-cases (process_entry re get_fingerprint t entry h p)) [
        | inl n ↦ absurd (ground (arith, n, e))
        | inr (o, s) ↦
            (let q = record p { dedup = o.dedup } in
              elim (Option-cases (track_entries re get_fingerprint batch o.maps q)) [
                | inl n ↦ absurd (ground (arith, s, n, e))
                | inr ((us, later, last), r) ↦
                    ground
                      (arith, s, r, e, process_entries-track_entries batch o.maps q us later last r)
              ])
      ]
