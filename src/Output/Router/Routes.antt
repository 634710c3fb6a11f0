-- ===== src/Output/Router/Routes.antt =====
-- Which entries BuildRoutingMap of pkg/output/router.go sends to which output, and in which order.
use logsieve.Prelude.{
  String, Bool, true, false, not, ◌&&◌, ◌||◌, List, [], ◌∷◌, ◌++◌, none, some, if◌then◌else◌,
  str_eq, eq_iff, Dict, lookup, insert, lookup-insert, lookup-delete, keep, append_assoc, ◌≡◌, refl,
  sym, subst, ap, ◌∙◌, arith, Option-cases, inl, inr, append-nil,
}
use logsieve.Ingestion.Entry.{LogEntry, Heap, label_of}
use logsieve.Output.Router.{
  Router, has_adapter, keys, named_output, determine_outputs, or_nil, add_to_outputs,
  build_routing_map, add_adapter, remove_adapter,
}

-- Whether a name is in a list.
abbrev pub has_name : String → List String → Bool
has_name k [] = false
has_name k (j ∷ js) = str_eq j k || has_name k js

-- No name is twice in a list.
abbrev pub AreDistinct : List String → Type 0
AreDistinct [] = Unit {0}
AreDistinct (k ∷ ks) = (has_name k ks ≡ false) × AreDistinct ks

lookup-add_to_outputs :
    (e : LogEntry) (names : List String) (m : Dict (List LogEntry)) (name : String)
    → AreDistinct names
    → or_nil (lookup name (add_to_outputs e names m))
      ≡ or_nil (lookup name m) ++ (if has_name name names then e ∷ [] else [])
unfolding add_to_outputs
lookup-add_to_outputs e [] m name d = sym (append-nil (or_nil (lookup name m)))
lookup-add_to_outputs e (k ∷ ks) m name d =
    let added = or_nil (lookup k m) ++ e ∷ [] in
    ground (
      arith,
      lookup-add_to_outputs e ks (insert k added m) name d.1,
      lookup-insert k name added m,
      eq_iff k name,
      append-nil added,
      append-nil (or_nil (lookup name m) ++ e ∷ []),
    )

outputs_named :
    (r : Router) (h : Heap) (e : LogEntry) (output : String)
    → named_output r h e ≡ some output
    → determine_outputs r h e ≡ output ∷ []
unfolding determine_outputs
outputs_named r h e output s = rw (s, determine_outputs) refl

outputs_all :
    (r : Router) (h : Heap) (e : LogEntry)
    → named_output r h e ≡ none
    → determine_outputs r h e ≡ keys r.adapters
unfolding determine_outputs
outputs_all r h e n = rw (n, determine_outputs) refl

determine_outputs-AreDistinct :
    (r : Router) (h : Heap) (e : LogEntry)
    → AreDistinct (keys r.adapters)
    → AreDistinct (determine_outputs r h e)
determine_outputs-AreDistinct r h e d = elim (Option-cases (named_output r h e)) [
  | inl n ↦ subst AreDistinct (sym (outputs_all r h e n)) d
  | inr (output, s) ↦ subst AreDistinct (sym (outputs_named r h e output s)) (refl, tt)
]

keep_step :
    (b : Bool) (e : LogEntry) (xs kept : List LogEntry)
    → (xs ++ (if b then e ∷ [] else [])) ++ kept ≡ xs ++ (if b then e ∷ kept else kept)
keep_step true e xs kept = append_assoc xs (e ∷ []) kept
keep_step false e xs kept = ap (λ ys. ys ++ kept) (append-nil xs)

routes :
    (r : Router) (h : Heap) (es : List LogEntry) (m : Dict (List LogEntry)) (name : String)
    → AreDistinct (keys r.adapters)
    → or_nil (lookup name (build_routing_map r h es m))
      ≡ or_nil (lookup name m) ++ keep (λ e. has_name name (determine_outputs r h e)) es
unfolding build_routing_map
routes r h [] m name d = sym (append-nil (or_nil (lookup name m)))
routes r h (e ∷ es) m name d =
    let out = determine_outputs r h e in
    routes r h es (add_to_outputs e out m) name d
    ∙ (ap (λ xs. xs ++ keep (λ f. has_name name (determine_outputs r h f)) es)
          (lookup-add_to_outputs e out m name (determine_outputs-AreDistinct r h e d))
        ∙ keep_step (has_name name out) e (or_nil (lookup name m))
            (keep (λ f. has_name name (determine_outputs r h f)) es))

-- Each output is sent exactly the entries that are for it, in the order of the batch and each once,
-- where the adapters have distinct names: none is lost and none is doubled.
pub lookup-build_routing_map :
    (r : Router) (h : Heap) (es : List LogEntry) (name : String)
    → AreDistinct (keys r.adapters)
    → or_nil (lookup name (build_routing_map r h es []))
      ≡ keep (λ e. has_name name (determine_outputs r h e)) es
unfolding lookup
lookup-build_routing_map r h es name d = routes r h es [] name d

pub has_name-keys :
    (name : String) (m : Dict String)
    → has_name name (keys m) ≡ (elim (lookup name m) [ none ↦ false | some a ↦ true ])
unfolding lookup
has_name-keys name [] = refl
has_name-keys name ((k, v) ∷ m) = ground (arith, has_name-keys name m)

-- An entry goes to an output that is there, and to no other: to the one that its label names, where
-- that is a name of an adapter and not the empty text, and to all adapters in every other case.
pub has_name-determine_outputs :
    (r : Router) (h : Heap) (e : LogEntry) (name : String)
    → has_name name (determine_outputs r h e) ≡ (
        if has_adapter r name
        then (elim (label_of h e "output") [
          | none ↦ true
          | some output ↦
              if has_adapter r output && not (str_eq output "") then str_eq output name else true
        ])
        else false)
unfolding determine_outputs named_output has_adapter
has_name-determine_outputs r h e name = elim (Option-cases (label_of h e "output")) [
  | inl n ↦ ground (arith, has_name-keys name r.adapters)
  | inr (output, s) ↦ ground (arith, has_name-keys name r.adapters, eq_iff output name)
]

-- A name has an adapter after adding or removing one exactly as the change says.
pub has_adapter-changes :
    (r : Router) (name other adapter : String)
    → (has_adapter (add_adapter name adapter r) other ≡ str_eq name other || has_adapter r other)
      × (has_adapter (remove_adapter name r) other ≡ not (str_eq name other) && has_adapter r other)
unfolding has_adapter add_adapter remove_adapter
has_adapter-changes r name other adapter = ground (
  arith,
  lookup-insert name other adapter r.adapters,
  lookup-delete name other r.adapters,
  eq_iff name other,
)
