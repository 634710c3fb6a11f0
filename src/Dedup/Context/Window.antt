-- ===== src/Dedup/Context/Window.antt =====
-- The window of pkg/dedup/context.go holds the end of the stream, and a context is its end.
use logsieve.Prelude.{
  ℕ, ◌-◌, ◌≤◌, min, List, [], ◌∷◌, ◌++◌, map, ltb, ◌==◌, length, drop, take, take-append-drop,
  append_weave, length-append, length-drop, ◌≡◌, refl, sym, ap, ◌∙◌, arith, append-nil, inl, inr,
  Bool-cases,
}
use mathlib.Core.List.{map-append}
use logsieve.Ingestion.Entry.{LogEntry, Heap}
use logsieve.Dedup.Context.{ContextWindow, add, mark, mark_before, get_context, get_recent_entries}

-- The last n elements.
abbrev pub last {ℓ} : {A : Type ℓ} → ℕ → List A → List A
last n xs = drop (length xs - n) xs

-- The stream of entries that Add is given.
unfoldable pub add_all : List LogEntry → ContextWindow → ContextWindow
add_all [] cw = cw
add_all (e ∷ es) cw = add_all es (add e cw)

-- A window that has its contents after a stream: their end, and as much of it as fits.
pub record HoldsEndOf (stream : List LogEntry) (cw : ContextWindow) : Type 0 where
  pub gone : List LogEntry
  pub splits : gone ++ cw.buffer ≡ stream
  pub full : length cw.buffer ≡ min cw.size (length stream)

add-HoldsEndOf :
    (e : LogEntry) (cw : ContextWindow)
    → length cw.buffer ≤ cw.size
    → HoldsEndOf (cw.buffer ++ e ∷ []) (add e cw)
unfolding add
add-HoldsEndOf e cw h = elim (Bool-cases (ltb cw.size (length (cw.buffer ++ e ∷ [])))) [
  | inl more ↦ rw more (record {
    gone = take 1 (cw.buffer ++ e ∷ []);
    splits = take-append-drop 1 (cw.buffer ++ e ∷ []);
    full = ground (arith, length-drop 1 (cw.buffer ++ e ∷ []), length-append cw.buffer (e ∷ []));
  })
  | inr fits ↦
      rw fits (record {
        gone = [];
        splits = refl;
        full = ground (arith, length-append cw.buffer (e ∷ []));
      })
]

size-add : (e : LogEntry) (cw : ContextWindow) → (add e cw).size ≡ cw.size
unfolding add
size-add e cw = refl

size-add_all : (es : List LogEntry) (cw : ContextWindow) → (add_all es cw).size ≡ cw.size
unfolding add_all
size-add_all [] cw = refl
size-add_all (e ∷ es) cw = size-add_all es (add e cw) ∙ size-add e cw

-- After any stream of entries the window holds the end of all that it held and was given: nothing
-- is missing or out of order in it, and its length is the least of its size and the stream's.
pub add_all-HoldsEndOf :
    (es : List LogEntry) (cw : ContextWindow)
    → length cw.buffer ≤ cw.size
    → HoldsEndOf (cw.buffer ++ es) (add_all es cw)
unfolding add_all
add_all-HoldsEndOf [] cw h = record {
  gone = [];
  splits = sym (append-nil cw.buffer);
  full = rw append-nil (omega arith);
}
add_all-HoldsEndOf (e ∷ es) cw h =
    let first = add-HoldsEndOf e cw h in
    let n = length-append cw.buffer (e ∷ []) in
    let rest = add_all-HoldsEndOf es (add e cw) (omega (arith, first.full)) in
    record {
      gone = first.gone ++ rest.gone;
      splits = sym (
          append_weave cw.buffer (e ∷ []) first.gone _ es rest.gone _ (sym first.splits)
            (sym rest.splits));
      full = omega (
        arith,
        rest.full,
        first.full,
        n,
        length-append (add e cw).buffer es,
        length-append cw.buffer (e ∷ es),
        size-add_all es (add e cw),
        size-add e cw,
      );
    }

drop-length {ℓ} : {A : Type ℓ} (xs : List A) → drop (length xs) xs ≡ []
drop-length [] = refl
drop-length (x ∷ xs) = drop-length xs

drop_all {ℓ} : {A : Type ℓ} (n : ℕ) (xs : List A) → n ≡ 0 → last n xs ≡ []
drop_all n xs e = ap (λ k. drop k xs) (omega arith) ∙ drop-length xs

messages-mark_before :
    (es : List LogEntry) (h : Heap)
    → map (λ e. e.message) (mark_before es h).0 ≡ map (λ e. e.message) es
unfolding mark_before
messages-mark_before [] h = refl
messages-mark_before (e ∷ es) h =
    ap (◌∷◌ e.message) (messages-mark_before es (mark "context_position" "before" e h).1)

-- The context of an error has the messages of the last entries of the window, as many as the context
-- has lines and oldest first, and then the message of the error itself, once.
pub messages-get_context :
    (trigger : LogEntry) (cw : ContextWindow) (h : Heap)
    → map (λ e. e.message) (get_context trigger cw h).0
      ≡ map (λ e. e.message) (last cw.context_lines cw.buffer) ++ trigger.message ∷ []
unfolding get_context
messages-get_context trigger cw h = elim (Bool-cases (cw.context_lines == 0)) [
  | inl e ↦ rw e (
      ap (λ es. map (λ (x : LogEntry). x.message) es ++ trigger.message ∷ [])
        (sym (drop_all cw.context_lines cw.buffer (ground arith))))
  | inr e ↦
      rw (e, map-append, messages-mark_before)
        (ap (λ k. map (λ (x : LogEntry). x.message) (drop k cw.buffer) ++ trigger.message ∷ [])
          (ground arith))
]

-- GetRecentEntries returns the last entries, as many as are asked for.
get_recent_entries_lem :
    (count : ℕ) (cw : ContextWindow) → get_recent_entries count cw ≡ last count cw.buffer
unfolding get_recent_entries
get_recent_entries_lem count cw = elim (Bool-cases (count == 0)) [
  | inl e ↦ rw e (sym (drop_all count cw.buffer (ground arith)))
  | inr e ↦ rw e refl
]
