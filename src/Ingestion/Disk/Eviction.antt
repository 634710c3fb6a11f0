-- ===== src/Ingestion/Disk/Eviction.antt =====
-- The size of the spool of pkg/ingestion/disk_buffer.go.
use logsieve.Prelude.{
  ℕ, ◌+◌, ◌-◌, ◌≤◌, List, [], ◌∷◌, ◌++◌, map, length, sum, leb, if◌then◌else◌, ◌≡◌, refl, arith,
}
use logsieve.Ingestion.Disk.{Codec, SpoolFile, file_size, evict_from, evict_if_needed}

module _ {A L : Type 0} (codec : Codec A L) where
  abbrev pub total : List (SpoolFile L) → ℕ
  total fs = sum (map (file_size codec) fs)

  -- How many of the first files go so that the others fit.
  abbrev pub least_eviction : ℕ → List (SpoolFile L) → ℕ
  least_eviction limit [] = 0
  least_eviction limit (f ∷ fs) =
      let more = least_eviction limit fs in if leb (total (f ∷ fs)) limit then 0 else 1 + more

  evict_from_lem :
      (size limit : ℕ) (fs : List (SpoolFile L))
      → size ≡ total fs
      → let r = evict_from codec size limit fs in
        (r.0 ++ r.1 ≡ fs) × (total r.1 ≤ limit) × (length r.0 ≡ least_eviction limit fs)
  unfolding evict_from
  evict_from_lem size limit [] e = (refl, omega arith, refl)
  evict_from_lem size limit (f ∷ fs) e =
      ground (arith, evict_from_lem (size - file_size codec f) limit fs)

  -- The spool fits its budget: after an eviction the files that stay take no more bytes than allowed,
  -- no file changes, and those that went, the oldest, are no more than needed for that.
  pub evict_fits :
      (limit : ℕ) (fs : List (SpoolFile L))
      → let r = evict_if_needed codec limit fs in
        (r.0 ++ r.1 ≡ fs) × (total r.1 ≤ limit) × (length r.0 ≡ least_eviction limit fs)
  unfolding evict_if_needed
  evict_fits limit fs = let r = evict_from_lem (total fs) limit fs refl in (r.0, r.1, r.2)
