-- ===== src/Dedup/Fingerprint.antt =====
-- pkg/dedup/fingerprint.go: the cache of fingerprints with their times of expiry. time.Now() is an
-- argument; the ticker of the cleanup loop is the caller that chooses when `cleanup` runs.
pub mod Refinement
use logsieve.Prelude.{
  ℕ, ◌+◌, ◌≤◌, ◌≡◌, refl, String, Bool, true, false, not, Option, none, some, [], ◌∷◌, ltb, leb,
  if◌then◌else◌, str_eq, eq_iff, length, Dict, lookup, insert, delete, lookup-insert, lookup-delete,
  arith,
}

pub record FingerprintCache : Type 0 where
  pub fingerprints : Dict ℕ
  pub ttl : ℕ

unfoldable pub new_fingerprint_cache : ℕ → FingerprintCache
new_fingerprint_cache ttl = record { fingerprints = []; ttl = ttl }

unfoldable pub add : ℕ → String → FingerprintCache → FingerprintCache
add now fingerprint fc = record fc {
  fingerprints = insert fingerprint (now + fc.ttl) fc.fingerprints;
}

-- now.After(expiry)
abbrev pub expired : ℕ → ℕ → Bool
expired now expiry = ltb expiry now

-- An expired entry is deleted by the question.
unfoldable pub exists : ℕ → String → FingerprintCache → Bool × FingerprintCache
exists now fingerprint fc = elim (lookup fingerprint fc.fingerprints) [
  | none ↦ (false, fc)
  | some expiry ↦
      if expired now expiry
      then (false, record fc { fingerprints = delete fingerprint fc.fingerprints })
      else (true, fc)
]

unfoldable pub size : FingerprintCache → ℕ
size fc = length fc.fingerprints

unfoldable pub clear : FingerprintCache → FingerprintCache
clear fc = record fc { fingerprints = [] }

drop_expired : ℕ → Dict ℕ → Dict ℕ
drop_expired now [] = []
drop_expired now ((k, expiry) ∷ m) =
    let rest = drop_expired now m in if expired now expiry then rest else (k, expiry) ∷ rest

unfoldable pub cleanup : ℕ → FingerprintCache → FingerprintCache
unfolding drop_expired
cleanup now fc = record fc { fingerprints = drop_expired now fc.fingerprints }

-- A map has each key once.
abbrev pub IsMap : Dict ℕ → Type 0
IsMap [] = Unit {0}
IsMap ((k, v) ∷ m) = (lookup k m ≡ none) × IsMap m

-- An added fingerprint is known until its time to live has passed, that instant included, and the
-- answers for all other fingerprints are what they were.
pub exists-add :
    (now later : ℕ) (k j : String) (fc : FingerprintCache)
    → (exists later j (add now k fc)).0
      ≡ (if str_eq k j then leb later (now + fc.ttl) else (exists later j fc).0)
unfolding exists add
exists-add now later k j fc = ground (arith, lookup-insert k j (now + fc.ttl) fc.fingerprints)

IsMap-insert : (k : String) (v : ℕ) (m : Dict ℕ) → IsMap m → IsMap (insert k v m)
unfolding insert lookup
IsMap-insert k v [] h = (refl, tt)
IsMap-insert k v ((j, w) ∷ m) h =
    ground (arith, eq_iff j k, eq_iff k j, lookup-insert k j v m, IsMap-insert k v m h.1)

IsMap-delete : (k : String) (m : Dict ℕ) → IsMap m → IsMap (delete k m)
unfolding delete lookup
IsMap-delete k [] h = tt
IsMap-delete k ((j, w) ∷ m) h = ground (arith, lookup-delete k j m, IsMap-delete k m h.1)

lookup-drop_expired-none :
    (now : ℕ) (k : String) (m : Dict ℕ) → lookup k m ≡ none → lookup k (drop_expired now m) ≡ none
unfolding drop_expired lookup
lookup-drop_expired-none now k [] h = refl
lookup-drop_expired-none now k ((j, w) ∷ m) h = ground (arith, lookup-drop_expired-none now k m)

IsMap-drop_expired : (now : ℕ) (m : Dict ℕ) → IsMap m → IsMap (drop_expired now m)
unfolding drop_expired
IsMap-drop_expired now [] h = tt
IsMap-drop_expired now ((j, w) ∷ m) h =
    ground (arith, lookup-drop_expired-none now j m h.0, IsMap-drop_expired now m h.1)

-- What a question at `later` sees of a looked-up entry.
abbrev live : ℕ → Option ℕ → Bool
live later none = false
live later (some expiry) = not (expired later expiry)

live-drop_expired :
    (now later : ℕ) (k : String) (m : Dict ℕ)
    → now ≤ later
    → IsMap m
    → live later (lookup k (drop_expired now m)) ≡ live later (lookup k m)
unfolding drop_expired lookup
live-drop_expired now later k [] le h = refl
live-drop_expired now later k ((j, w) ∷ m) le h = ground (
  arith,
  live-drop_expired now later k m le h.1,
  lookup-drop_expired-none now j m h.0,
  eq_iff j k,
)

exists-live :
    (later : ℕ) (k : String) (fc : FingerprintCache)
    → (exists later k fc).0 ≡ live later (lookup k fc.fingerprints)
unfolding exists
exists-live later k fc = ground arith

-- The cleanup is invisible: at no later time does it change an answer, on a cache whose keys are
-- distinct.
pub exists-cleanup :
    (now later : ℕ) (k : String) (fc : FingerprintCache)
    → now ≤ later
    → IsMap fc.fingerprints
    → (exists later k (cleanup now fc)).0 ≡ (exists later k fc).0
unfolding cleanup
exists-cleanup now later k fc le h = ground (
  arith,
  exists-live later k fc,
  exists-live later k (cleanup now fc),
  live-drop_expired now later k fc.fingerprints le h,
)

-- Adding, asking, cleaning up and clearing keep the keys distinct.
pub fingerprints-IsMap :
    (now : ℕ) (k : String) (fc : FingerprintCache)
    → IsMap fc.fingerprints
    → IsMap (add now k fc).fingerprints
      × IsMap (exists now k fc).1.fingerprints
      × IsMap (cleanup now fc).fingerprints
      × IsMap (clear fc).fingerprints
unfolding add exists cleanup clear
fingerprints-IsMap now k fc h = ground (
  arith,
  IsMap-insert k (now + fc.ttl) fc.fingerprints h,
  IsMap-delete k fc.fingerprints h,
  IsMap-drop_expired now fc.fingerprints h,
)

pub ttl-exists : (now : ℕ) (k : String) (fc : FingerprintCache) → (exists now k fc).1.ttl ≡ fc.ttl
unfolding exists
ttl-exists now k fc = ground arith

pub record FingerprintStats : Type 0 where
  pub count : ℕ
  pub ttl : ℕ

unfoldable pub stats : FingerprintCache → FingerprintStats
stats fc = record { count = size fc; ttl = fc.ttl }
