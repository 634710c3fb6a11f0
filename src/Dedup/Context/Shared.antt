-- ===== src/Dedup/Context/Shared.antt =====
-- The labels that GetContext of pkg/dedup/context.go writes into its copies reach the originals.
use logsieve.Prelude.{
  ℕ, ◌-◌, ◌≤◌, ◌<◌, String, false, List, [], ◌∷◌, some, ◌==◌, length, drop, lookup, lookup-insert,
  ◌≡◌, refl, sym, ap, ◌∙◌, arith, ◌⊎◌, inl, inr, Option-cases, eq_refl, str_eq,
}
use mathlib.Core.List.{Memᴰ}
use logsieve.Ingestion.Entry.{LogEntry, Heap, alloc, write_label, ensure_labels}
use logsieve.Dedup.Context.{ContextWindow, mark, mark_before, before_count, get_context}
use logsieve.Dedup.Context.Window.{last}

-- An address that is in use keeps the labels that a mark does not write.
mark_keeps :
    (key value : String) (e : LogEntry) (h : Heap) (a : ℕ) (k v : String)
    → a < h.next
    → lookup k (h.at a) ≡ some v
    → (str_eq key k ≡ false) ⊎ (value ≡ v)
    → (lookup k ((mark key value e h).1.at a) ≡ some v) × (h.next ≤ (mark key value e h).1.next)
unfolding mark ensure_labels alloc write_label
mark_keeps key value e h a k v u l (inl n) = elim (Option-cases e.labels) [
  | inl none_yet ↦ ground (arith, lookup-insert key k value [])
  | inr (b, has) ↦ ground (arith, lookup-insert key k value (h.at b))
]
mark_keeps key value e h a k v u l (inr n) = elim (Option-cases e.labels) [
  | inl none_yet ↦ ground (arith, lookup-insert key k value [])
  | inr (b, has) ↦ ground (arith, lookup-insert key k value (h.at b))
]

-- A mark shows at the address that the entry itself has.
mark_shows :
    (key value : String) (e : LogEntry) (h : Heap) (a : ℕ)
    → e.labels ≡ some a
    → (lookup key ((mark key value e h).1.at a) ≡ some value)
      × ((mark key value e h).1.next ≡ h.next)
unfolding mark ensure_labels write_label
mark_shows key value e h a l = ground (arith, lookup-insert key key value (h.at a), eq_refl key)

mark_before_keeps :
    (es : List LogEntry) (h : Heap) (a : ℕ)
    → a < h.next
    → lookup "context_position" (h.at a) ≡ some "before"
    → (lookup "context_position" ((mark_before es h).1.at a) ≡ some "before")
      × (h.next ≤ (mark_before es h).1.next)
unfolding mark_before
mark_before_keeps [] h a u l = (l, omega arith)
mark_before_keeps (e ∷ es) h a u l =
    let m =
      mark_keeps "context_position" "before" e h a "context_position" "before" u l (inr refl) in
    let h' = (mark "context_position" "before" e h).1 in
    let r = mark_before_keeps es h' a (omega (arith, m.1)) m.0 in (r.0, omega (arith, r.1, m.1))

next-mark : (key value : String) (e : LogEntry) (h : Heap) → h.next ≤ (mark key value e h).1.next
unfolding mark ensure_labels alloc write_label
next-mark key value e h = ground arith

mark_before_shows :
    (es : List LogEntry) (h : Heap) (e : LogEntry) (a : ℕ)
    → Memᴰ e es
    → e.labels ≡ some a
    → a < h.next
    → (lookup "context_position" ((mark_before es h).1.at a) ≡ some "before")
      × (h.next ≤ (mark_before es h).1.next)
unfolding mark_before
mark_before_shows [] h e a m l u = elim m [ ]
mark_before_shows (x ∷ es) h e a (Memᴰ.head p) l u =
    let s =
      mark_shows "context_position" "before" x h a (ap (λ (z : LogEntry). z.labels) (sym p) ∙ l) in
    let r =
      mark_before_keeps es (mark "context_position" "before" x h).1 a (omega (arith, s.1, u)) s.0 in
    (r.0, omega (arith, r.1, s.1))
mark_before_shows (x ∷ es) h e a (Memᴰ.tail m) l u =
    let n = next-mark "context_position" "before" x h in
    let r =
      mark_before_shows es (mark "context_position" "before" x h).1 e a m l (omega (arith, n)) in
    (r.0, omega (arith, r.1, n))

-- GetContext changes the entries that it copies: where a context is taken, an entry among the last
-- lines of the window whose label map exists has the label of a "before" entry afterwards, and a
-- trigger whose map exists has that of a trigger. Both are the originals, which the pipeline sends on.
pub get_context_marks_originals :
    (trigger : LogEntry) (cw : ContextWindow) (h : Heap) (e : LogEntry) (a t : ℕ)
    → 0 < cw.context_lines
    → Memᴰ e (last cw.context_lines cw.buffer)
    → e.labels ≡ some a
    → a < h.next
    → trigger.labels ≡ some t
    → (lookup "context_position" ((get_context trigger cw h).1.at a) ≡ some "before")
      × (lookup "context_trigger" ((get_context trigger cw h).1.at t) ≡ some "true")
unfolding get_context
get_context_marks_originals trigger cw h e a t lines m l u lt =
    let amount : length cw.buffer - before_count cw ≡ length cw.buffer - cw.context_lines =
      ground arith in
    let taken = drop (length cw.buffer - before_count cw) cw.buffer in
    let b = mark_before_shows taken h e a (rw amount m) l u in
    let h' = (mark_before taken h).1 in
    rw (positive cw.context_lines lines) (
      (mark_keeps "context_trigger" "true" trigger h' a "context_position" "before"
          (omega (arith, b.1, u)) b.0 (inl refl)).0,
      (mark_shows "context_trigger" "true" trigger h' t lt).0,
    )
  where
    positive : (n : ℕ) → 0 < n → (n == 0) ≡ false
    positive n h = ground arith
