-- ===== src/Dedup/Fingerprint/Refinement.antt =====
-- What the cache of pkg/dedup/fingerprint.go promises: a fingerprint is known while its time to live
-- lasts from when it was last added. Deletion by a question and by the cleanup cannot be seen.
use logsieve.Prelude.{
  ℕ, ◌+◌, ◌≤◌, ◌≡◌, refl, ap, sym, subst, ◌∙◌, String, Bool, false, Option, none, some, List, [],
  ◌∷◌, ◌++◌, leb, if◌then◌else◌, str_eq, eq_iff, lookup, lookup-insert, lookup-delete, arith,
}
use logsieve.Dedup.Fingerprint.{
  FingerprintCache, new_fingerprint_cache, add, exists, cleanup, clear, IsMap, live, exists-live,
  live-drop_expired, fingerprints-IsMap, ttl-exists,
}

pub data Op : Type 0 where
  adds asks : String → Op
  cleans clears : Op

unfoldable pub step : ℕ → Op → FingerprintCache → FingerprintCache
step now (adds k) fc = add now k fc
step now (asks k) fc = (exists now k fc).1
step now cleans fc = cleanup now fc
step now clears fc = clear fc

unfoldable pub answer : ℕ → Op → FingerprintCache → List Bool
answer now (asks k) fc = (exists now k fc).0 ∷ []
answer now (adds k) fc = []
answer now cleans fc = []
answer now clears fc = []

-- The answers to the questions among the calls, each at its time.
unfoldable pub answers : List (ℕ × Op) → FingerprintCache → List Bool
answers [] fc = []
answers ((now, op) ∷ calls) fc = answer now op fc ++ answers calls (step now op fc)

-- The abstract cache: when each fingerprint was last added, since the last Clear.
abbrev pub LastAdded : Type 0
LastAdded = String → Option ℕ

abbrev pub is_known : ℕ → ℕ → Option ℕ → Bool
is_known ttl now none = false
is_known ttl now (some added) = leb now (added + ttl)

abbrev pub spec_step : ℕ → Op → LastAdded → LastAdded
spec_step now (adds j) s k = if str_eq j k then some now else s k
spec_step now (asks j) s k = s k
spec_step now cleans s k = s k
spec_step now clears s k = none

abbrev pub spec_answer : ℕ → ℕ → Op → LastAdded → List Bool
spec_answer ttl now (asks k) s = is_known ttl now (s k) ∷ []
spec_answer ttl now (adds k) s = []
spec_answer ttl now cleans s = []
spec_answer ttl now clears s = []

abbrev pub spec_answers : ℕ → List (ℕ × Op) → LastAdded → List Bool
spec_answers ttl [] s = []
spec_answers ttl ((now, op) ∷ calls) s =
    spec_answer ttl now op s ++ spec_answers ttl calls (spec_step now op s)

abbrev pub no_additions : LastAdded
no_additions k = none

-- The clock does not go back.
abbrev pub InTime : ℕ → List (ℕ × Op) → Type 0
InTime from [] = Unit {0}
InTime from ((now, op) ∷ calls) = (from ≤ now) × InTime now calls

-- The cache stands for the abstract one from a time on.
record StandsFor (ttl now : ℕ) (fc : FingerprintCache) (s : LastAdded) : Type 0 where
  keeps : fc.ttl ≡ ttl
  is_map : IsMap fc.fingerprints
  agrees :
      (later : ℕ) (k : String)
      → now ≤ later
      → live later (lookup k fc.fingerprints) ≡ is_known ttl later (s k)

lookup_nothing : (later : ℕ) (k : String) → live later (lookup {V = ℕ} k []) ≡ false
unfolding lookup
lookup_nothing later k = refl

adds-agrees :
    (now later : ℕ) (j k : String) (fc : FingerprintCache) (seen : Option ℕ)
    → live later (lookup k fc.fingerprints) ≡ is_known fc.ttl later seen
    → live later (lookup k (add now j fc).fingerprints)
      ≡ is_known fc.ttl later (if str_eq j k then some now else seen)
unfolding add
adds-agrees now later j k fc seen h =
    ground (arith, lookup-insert j k (now + fc.ttl) fc.fingerprints)

asks-agrees :
    (now later : ℕ) (j k : String) (fc : FingerprintCache)
    → now ≤ later
    → live later (lookup k (exists now j fc).1.fingerprints) ≡ live later (lookup k fc.fingerprints)
unfolding exists
asks-agrees now later j k fc le = ground (arith, lookup-delete j k fc.fingerprints, eq_iff j k)

cleans-agrees :
    (now later : ℕ) (k : String) (fc : FingerprintCache)
    → now ≤ later
    → IsMap fc.fingerprints
    → live later (lookup k (cleanup now fc).fingerprints) ≡ live later (lookup k fc.fingerprints)
unfolding cleanup
cleans-agrees now later k fc le m = live-drop_expired now later k fc.fingerprints le m

ttl-step : (now : ℕ) (op : Op) (fc : FingerprintCache) → (step now op fc).ttl ≡ fc.ttl
unfolding step add cleanup clear
ttl-step now (adds j) fc = refl
ttl-step now (asks j) fc = ttl-exists now j fc
ttl-step now cleans fc = refl
ttl-step now clears fc = refl

step-IsMap :
    (now : ℕ) (op : Op) (fc : FingerprintCache)
    → IsMap fc.fingerprints
    → IsMap (step now op fc).fingerprints
unfolding step
step-IsMap now (adds j) fc m = (fingerprints-IsMap now j fc m).0
step-IsMap now (asks j) fc m = (fingerprints-IsMap now j fc m).1
step-IsMap now cleans fc m = (fingerprints-IsMap now "" fc m).2
step-IsMap now clears fc m = (fingerprints-IsMap now "" fc m).3

step-agrees :
    (now later : ℕ) (op : Op) (k : String) (fc : FingerprintCache) (s : LastAdded)
    → IsMap fc.fingerprints
    → now ≤ later
    → live later (lookup k fc.fingerprints) ≡ is_known fc.ttl later (s k)
    → live later (lookup k (step now op fc).fingerprints)
      ≡ is_known fc.ttl later (spec_step now op s k)
unfolding step clear
step-agrees now later (adds j) k fc s m le h = adds-agrees now later j k fc (s k) h
step-agrees now later (asks j) k fc s m le h = asks-agrees now later j k fc le ∙ h
step-agrees now later cleans k fc s m le h = cleans-agrees now later k fc le m ∙ h
step-agrees now later clears k fc s m le h = lookup_nothing later k

step-StandsFor :
    (from now : ℕ) (op : Op) (fc : FingerprintCache) (s : LastAdded)
    → StandsFor fc.ttl from fc s
    → from ≤ now
    → StandsFor fc.ttl now (step now op fc) (spec_step now op s)
step-StandsFor from now op fc s h le = record {
  keeps = ttl-step now op fc;
  is_map = step-IsMap now op fc h.is_map;
  agrees = λ later k below.
      step-agrees now later op k fc s h.is_map below (h.agrees later k (omega arith));
}

answer-spec_answer :
    (now : ℕ) (op : Op) (fc : FingerprintCache) (s : LastAdded)
    → ((k : String) → live now (lookup k fc.fingerprints) ≡ is_known fc.ttl now (s k))
    → answer now op fc ≡ spec_answer fc.ttl now op s
unfolding answer
answer-spec_answer now (asks k) fc s h = ap (λ b. b ∷ []) (exists-live now k fc ∙ h k)
answer-spec_answer now (adds k) fc s h = refl
answer-spec_answer now cleans fc s h = refl
answer-spec_answer now clears fc s h = refl

answers-refine :
    (ttl from : ℕ) (calls : List (ℕ × Op)) (fc : FingerprintCache) (s : LastAdded)
    → fc.ttl ≡ ttl
    → StandsFor fc.ttl from fc s
    → InTime from calls
    → answers calls fc ≡ spec_answers ttl calls s
unfolding answers
answers-refine ttl from [] fc s e h t = refl
answers-refine ttl from ((now, op) ∷ calls) fc s e h t =
    let after = step-StandsFor from now op fc s h t.0 in
    let same = ttl-step now op fc in
    let first = answer-spec_answer now op fc s (λ k. h.agrees now k t.0) in
    let rest =
      answers-refine ttl now calls (step now op fc) (spec_step now op s) (same ∙ e)
        (subst (λ n. StandsFor n now (step now op fc) (spec_step now op s)) (sym same) after) t.1 in
    cc (first, rest, ap (λ n. spec_answer n now op s) e)

-- Refinement of the abstract cache: from a new cache on, however the calls of Add, Exists, cleanup and
-- Clear follow one another, as long as the clock does not go back, every question is answered with
-- yes exactly when the fingerprint was added, its last addition is at most the time to live ago, and
-- no Clear came since.
pub answers-spec_answers :
    (ttl : ℕ) (calls : List (ℕ × Op))
    → InTime 0 calls
    → answers calls (new_fingerprint_cache ttl) ≡ spec_answers ttl calls no_additions
unfolding new_fingerprint_cache
answers-spec_answers ttl calls t =
    answers-refine ttl 0 calls (record { fingerprints = []; ttl = ttl }) no_additions refl
      (record { keeps = refl; is_map = tt; agrees = λ later k below. lookup_nothing later k }) t
