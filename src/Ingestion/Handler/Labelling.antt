-- ===== src/Ingestion/Handler/Labelling.antt =====
-- The labels that pkg/ingestion/handler.go gives to the entries of a request.
use logsieve.Prelude.{
  ℕ, ◌≤◌, ◌<◌, String, Bool, true, List, [], ◌∷◌, Option, none, some, Option-cases, Bool-cases, inl,
  inr, if◌then◌else◌, str_eq, lookup, lookup-insert, ◌≡◌, refl, ap, ◌∙◌, All, arith,
}
use logsieve.Ingestion.Entry.{
  LogEntry, Heap, alloc, read, write_label, ensure_labels, label_of, read-write_label,
}
use logsieve.Ingestion.Handler.{label_entry, ingest_entries}
use logsieve.Ingestion.Handler.Counting.{labelled}

-- The map of an entry has been made.
abbrev pub IsMade : Heap → LogEntry → Type 0
IsMade h e = elim e.labels [ none ↦ Unit {0} | some a ↦ a < h.next ]

-- An entry of the request with its profile, in a map that has been made.
abbrev HasProfile : String → Heap → LogEntry → Type 0
HasProfile profile h e =
    (a : ℕ) × (e.labels ≡ some a) × (a < h.next) × (lookup "profile" (h.at a) ≡ some profile)

ensured :
    (e : LogEntry) (h : Heap)
    → IsMade h e
    → let m = ensure_labels e h in
      (m.0 < m.1.next)
      × (h.next ≤ m.1.next)
      × ((a : ℕ) (k : String) → a < h.next → lookup k (m.1.at a) ≡ lookup k (h.at a))
unfolding ensure_labels alloc
ensured e h made = elim (Option-cases e.labels) [
  | inl n ↦ rw n (omega arith, omega arith, λ a k l. ground arith)
  | inr (own, s) ↦ rw s (ground arith, omega arith, λ a k l. refl)
]

-- A write of the loop leaves written profile labels written.
write_keeps :
    (m a : ℕ) (k v profile : String) (h : Heap)
    → (str_eq k "profile" ≡ true → v ≡ profile)
    → lookup "profile" (h.at a) ≡ some profile
    → lookup "profile" ((write_label m k v h).at a) ≡ some profile
write_keeps m a k v profile h same w =
    ground (arith, read-write_label m a k "profile" v h, lookup-insert k "profile" v (h.at a), same)

write_writes :
    (m : ℕ) (profile : String) (h : Heap)
    → lookup "profile" ((write_label m "profile" profile h).at m) ≡ some profile
write_writes m profile h = ground (
  arith,
  read-write_label m m "profile" "profile" profile h,
  lookup-insert "profile" "profile" profile (h.at m),
)

next-write_label : (m : ℕ) (k v : String) (h : Heap) → (write_label m k v h).next ≡ h.next
unfolding write_label
next-write_label m k v h = refl

output_keeps :
    (m a : ℕ) (output profile : String) (h : Heap)
    → lookup "profile" (h.at a) ≡ some profile
    → lookup "profile" ((if str_eq output "" then h else write_label m "output" output h).at a)
      ≡ some profile
output_keeps m a output profile h w = elim (Bool-cases (str_eq output "")) [
  | inl e ↦ rw e w
  | inr e ↦ rw e (write_keeps m a "output" output profile h (λ s. cc) w)
]

output_next :
    (m : ℕ) (output : String) (h : Heap)
    → (if str_eq output "" then h else write_label m "output" output h).next ≡ h.next
output_next m output h = ground (arith, next-write_label m "output" output h)

made_below :
    (e : LogEntry) (a : ℕ) (h h' : Heap)
    → h.next ≤ h'.next
    → e.labels ≡ some a
    → IsMade h e
    → a < h'.next
made_below e a h h' l s m = ground arith

IsMade-later :
    (es : List LogEntry) (h h' : Heap) → h.next ≤ h'.next → All (IsMade h) es → All (IsMade h') es
IsMade-later [] h h' l m = tt
IsMade-later (e ∷ es) h h' l m = (
  elim (Option-cases e.labels) [
    | inl n ↦ rw n tt
    | inr (a, s) ↦ rw s (made_below e a h h' l s m.0)
  ],
  IsMade-later es h h' l m.1,
)

module _ (source profile output : String) where
  -- Labelling one entry keeps the maps, and the profiles that are written.
  label_entry_keeps :
      (e : LogEntry) (h : Heap) (a : ℕ)
      → IsMade h e
      → a < h.next
      → lookup "profile" (h.at a) ≡ some profile
      → lookup "profile" ((label_entry source profile output e h).1.at a) ≡ some profile
  unfolding label_entry
  label_entry_keeps e h a made l w =
      let m = ensure_labels e h in
      output_keeps m.0 a output profile (write_label m.0 "profile" profile m.1) (
        write_keeps m.0 a "profile" profile profile m.1 (λ s. refl)
          ((ensured e h made).2 a "profile" l ∙ w))

  label_entry_next :
      (e : LogEntry) (h : Heap)
      → IsMade h e
      → let l = label_entry source profile output e h in
        (h.next ≤ l.1.next) × HasProfile profile l.1 l.0 × (l.0.source ≡ source)
  unfolding label_entry
  label_entry_next e h made =
      let m = ensure_labels e h in
      let s = ensured e h made in
      let w = write_label m.0 "profile" profile m.1 in
      let n = output_next m.0 output w ∙ next-write_label m.0 "profile" profile m.1 in
      (
        omega (arith, n, s.1),
        (
          m.0,
          refl,
          omega (arith, n, s.0),
          output_keeps m.0 m.0 output profile w (write_writes m.0 profile m.1),
        ),
        refl,
      )

  module _ {ℓ} {S : Type ℓ} (add_entry : LogEntry → S → Bool × S) where
    ingest_keeps :
        (es : List LogEntry) (h : Heap) (s : S) (a : ℕ)
        → All (IsMade h) es
        → a < h.next
        → lookup "profile" (h.at a) ≡ some profile
        → lookup "profile" ((ingest_entries add_entry source profile output es h s).maps.at a)
          ≡ some profile
    unfolding ingest_entries
    ingest_keeps [] h s a made l w = w
    ingest_keeps (e ∷ es) h s a made l w =
        let r = label_entry source profile output e h in
        let n = label_entry_next e h made.0 in
        ingest_keeps es r.1 (add_entry r.0 s).1 a (IsMade-later es h r.1 n.0 made.1)
          (omega (arith, n.0)) (label_entry_keeps e h a made.0 l w)

    -- When the loop has ended, every entry that it made, taken or not, has the request's profile as
    -- its label and the request's source, whatever maps the entries shared before.
    pub entries_labelled :
        (es : List LogEntry) (h : Heap) (s : S)
        → All (IsMade h) es
        → All
            (λ e.
              (label_of (ingest_entries add_entry source profile output es h s).maps e "profile"
                ≡ some profile)
              × (e.source ≡ source))
            (labelled source profile output es h)
    unfolding ingest_entries labelled
    entries_labelled [] h s made = tt
    entries_labelled (e ∷ es) h s made =
        let r = label_entry source profile output e h in
        let n = label_entry_next e h made.0 in
        let later = IsMade-later es h r.1 n.0 made.1 in
        let after = (add_entry r.0 s).1 in
        let kept = ingest_keeps es r.1 after n.1.0 later n.1.2 n.1.3 in
        let maps = (ingest_entries add_entry source profile output es r.1 after).maps in
        (
          (ap (λ (o : Option ℕ). lookup "profile" (read maps o)) n.1.1 ∙ kept, n.2),
          entries_labelled es r.1 after later,
        )
