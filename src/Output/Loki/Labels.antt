-- ===== src/Output/Loki/Labels.antt =====
-- Which labels of an entry pkg/output/loki.go indexes, and which it makes structured metadata.
use logsieve.Prelude.{
  String, Bool, true, false, ◌||◌, [], ◌∷◌, Option, none, some, if◌then◌else◌, str_eq, eq_iff, Dict,
  lookup, insert, lookup-insert, has_prefix, ◌≡◌, refl, sym, ap, ◌∙◌, arith, Bool-cases, inl, inr,
}
use mathlib.Core.Bool.{true≢false}
use logsieve.Ingestion.Entry.{LogEntry, Heap, read}
use logsieve.Output.Router.{keys}
use logsieve.Output.Router.Routes.{AreDistinct, has_name-keys}
use logsieve.Output.Loki.{
  is_high_cardinality_label, set_text, core_labels, is_indexed, copy_where, or_job, extract_labels,
  is_high, is_context, extract_structured_metadata,
}

abbrev pub copied :
    (String → String → Bool) → String → Option String → Option String → Option String
copied test key none old = old
copied test key (some value) old = if test key value then some value else old

pub lookup-copy_where :
    (test : String → String → Bool) (m labels : Dict String) (key : String)
    → AreDistinct (keys m)
    → lookup key (copy_where test m labels) ≡ copied test key (lookup key m) (lookup key labels)
unfolding copy_where lookup
lookup-copy_where test [] labels key d = refl
lookup-copy_where test ((k, v) ∷ m) labels key d = ground (
  arith,
  d.0,
  lookup-copy_where test m (if test k v then insert k v labels else labels) key d.1,
  lookup-insert k key v labels,
  eq_iff k key,
  has_name-keys k m,
)

-- The label is for the structured metadata.
abbrev pub is_metadata : String → Bool
is_metadata key = has_prefix key "context_" || is_high_cardinality_label key

pub lookup-or_job :
    (key : String) (m : Dict String)
    → str_eq "job" key ≡ false
    → lookup key (or_job m) ≡ lookup key m
unfolding lookup
lookup-or_job key [] n = ground (arith, n)
lookup-or_job key (l ∷ ls) n = refl

lookup-set_text :
    (name key value : String) (m : Dict String)
    → str_eq name key ≡ false
    → lookup key (set_text name value m) ≡ lookup key m
lookup-set_text name key value m n = ground (arith, n, lookup-insert name key value m)

-- A name that is not for the metadata is not a key that is.
is_metadata-differs :
    (name key : String)
    → is_metadata key ≡ true
    → is_metadata name ≡ false
    → str_eq name key ≡ false
is_metadata-differs name key k n = elim (Bool-cases (str_eq name key)) [
  | inl e ↦ absurd (true≢false (sym k ∙ (sym (ap is_metadata ((eq_iff name key).0 e)) ∙ n)))
  | inr e ↦ e
]

lookup-core_labels :
    (key : String) (e : LogEntry) → is_metadata key ≡ true → lookup key (core_labels e) ≡ none
unfolding core_labels is_high_cardinality_label has_prefix lookup
lookup-core_labels key e h =
    let m1 : Dict String = set_text "level" e.level [] in
    let m2 : Dict String = set_text "source" e.source m1 in
    let m3 : Dict String = set_text "container" e.container_name m2 in
    let m4 : Dict String = set_text "pod" e.pod_name m3 in
    lookup-set_text "namespace" key e.namespace m4 (is_metadata-differs "namespace" key h refl)
    ∙ (lookup-set_text "pod" key e.pod_name m3 (is_metadata-differs "pod" key h refl)
        ∙ (lookup-set_text "container" key e.container_name m2
              (is_metadata-differs "container" key h refl)
            ∙ (lookup-set_text "source" key e.source m1 (is_metadata-differs "source" key h refl)
                ∙ lookup-set_text "level" key e.level [] (is_metadata-differs "level" key h refl))))

lookup-or_job-some :
    (key value : String) (m : Dict String)
    → lookup key m ≡ some value
    → lookup key (or_job m) ≡ some value
unfolding lookup
lookup-or_job-some key value [] l = absurd (unfold lookup in cc)
lookup-or_job-some key value (x ∷ xs) l = l

indexed_label :
    (h : Heap) (e : LogEntry) (key value : String)
    → AreDistinct (keys (read h e.labels))
    → lookup key (read h e.labels) ≡ some value
    → str_eq value "" ≡ false
    → lookup key (extract_labels h e) ≡ (if is_metadata key then none else some value)
unfolding extract_labels
indexed_label h e key value d l t =
    let m : Dict String = copy_where is_indexed (read h e.labels) (core_labels e) in
    let found : _ = lookup-copy_where is_indexed (read h e.labels) (core_labels e) key d in
    elim (Bool-cases (is_metadata key)) [
      | inl k ↦ ground (
        arith,
        k,
        found,
        lookup-or_job key m
            (is_metadata-differs "job" key k (unfold has_prefix is_high_cardinality_label in refl)),
        lookup-core_labels key e k,
      )
      | inr k ↦ ground (arith, k, found, lookup-or_job-some key value m)
    ]

-- Every label with a text goes to one of two places, where the keys of the entry's labels are distinct:
-- one whose key begins with context_ or is of high cardinality into the structured metadata with its
-- value, and not among the labels of the stream, and any other one among the labels of the stream
-- with its value, and not into the metadata.
pub labels_are_split :
    (h : Heap) (e : LogEntry) (key value : String)
    → AreDistinct (keys (read h e.labels))
    → lookup key (read h e.labels) ≡ some value
    → str_eq value "" ≡ false
    → (lookup key (extract_labels h e) ≡ (if is_metadata key then none else some value))
      × (lookup key (extract_structured_metadata h e)
          ≡ (if is_metadata key then some value else none))
unfolding extract_structured_metadata lookup
labels_are_split h e key value d l t = (
  indexed_label h e key value d l t,
  ground (
    arith,
    lookup-copy_where is_high (read h e.labels) [] key d,
    lookup-copy_where is_context (read h e.labels) (copy_where is_high (read h e.labels) []) key d,
  ),
)
