-- ===== src/Output/Loki/Ranges.antt =====
-- The labels of pkg/output/loki.go do not depend on the order in which Go ranges over a map: a map of
-- labels is a quotient of the lists that it can be ranged over as.
use logsieve.Prelude.{
  Bool, true, not, ◌&&◌, if◌then◌else◌, false, Option, none, some, str_eq, has_prefix, has_any,
  String, [], ◌∷◌, eq_refl, Dict, lookup, ◌≡◌, refl, sym, ap, ◌∙◌, arith,
}
use mathlib.Core.Quot
use mathlib.Core.Quot.{Quot, Quot-set}
use logsieve.Ingestion.Entry.{LogEntry, Heap, read}
use logsieve.Output.Router.{keys}
use logsieve.Output.Router.Routes.{AreDistinct}
use logsieve.Output.Loki.{
  high_cardinality_labels, is_high_cardinality_label, core_labels, is_indexed, copy_where, or_job,
  extract_labels,
}
use logsieve.Output.Loki.Labels.{lookup-or_job, copied, lookup-copy_where}

-- Every key reads the same.
abbrev pub SameLabels : Dict String → Dict String → Type 0
SameLabels m n = (key : String) → lookup key m ≡ lookup key n

abbrev pub LabelMap : Type 0
LabelMap = Quot SameLabels

-- One range over a map: each key once.
abbrev Range : Type 0
Range = (m : Dict String) × AreDistinct (keys m)

abbrev GoMap : Type 0
GoMap = Quot (λ (m n : Range). SameLabels m.0 n.0)

or_job-SameLabels : (m n : Dict String) → SameLabels m n → SameLabels (or_job m) (or_job n)
unfolding lookup
or_job-SameLabels [] [] s key = refl
or_job-SameLabels [] ((k, v) ∷ n) s key = absurd (ground (arith, s k, eq_refl k))
or_job-SameLabels ((k, v) ∷ m) [] s key = absurd (ground (arith, s k, eq_refl k))
or_job-SameLabels (x ∷ m) (y ∷ n) s key = s key

copy_where-SameLabels :
    (labels : Dict String) (m n : Range)
    → SameLabels m.0 n.0
    → SameLabels (copy_where is_indexed m.0 labels) (copy_where is_indexed n.0 labels)
copy_where-SameLabels labels m n s key =
    lookup-copy_where is_indexed m.0 labels key m.1
    ∙ (ap (λ o. copied is_indexed key o (lookup key labels)) (s key)
        ∙ sym (lookup-copy_where is_indexed n.0 labels key n.1))

-- extractLabels as a function of maps.
stream_labels : LogEntry → GoMap → LabelMap
stream_labels e =
    Quot.lift Quot-set (λ m. Quot.mk (or_job (copy_where is_indexed m.0 (core_labels e))))
      (λ m n s. Quot.sound (or_job-SameLabels _ _ (copy_where-SameLabels (core_labels e) m n s)))

-- What a label of the entry, if it is there, makes of a label of the stream: one without a value, of
-- the context or of high cardinality makes nothing of it.
abbrev pub relabelled : String → Option String → Option String → Option String
relabelled key none old = old
relabelled key (some value) old =
    if str_eq value ""
    then old
    else (if has_prefix key "context_"
        then old
        else (if has_any (str_eq key) high_cardinality_labels then old else some value))

three_tests :
    (a b c : Bool) (new old : Option String)
    → (if not a && not b && not c then new else old)
      ≡ (if a then old else if b then old else if c then old else new)
three_tests true b c new old = refl
three_tests false true c new old = refl
three_tests false false true new old = refl
three_tests false false false new old = refl

copied-is_indexed :
    (key : String) (o old : Option String) → copied is_indexed key o old ≡ relabelled key o old
unfolding is_high_cardinality_label
copied-is_indexed key none old = refl
copied-is_indexed key (some value) old =
    three_tests (str_eq value "") (has_prefix key "context_")
      (has_any (str_eq key) high_cardinality_labels) (some value) old

-- The labels of a stream are the same map in whatever order the entry's labels are ranged over, and
-- for each key but "job" the label is the entry's own, if that has a value and is neither of the
-- context nor of high cardinality, and else that of the entry's field, if there is one.
pub extract_labels_content :
    (e : LogEntry) (h k : Heap)
    → AreDistinct (keys (read h e.labels))
    → AreDistinct (keys (read k e.labels))
    → SameLabels (read h e.labels) (read k e.labels)
    → (◌≡◌ {A = LabelMap} (Quot.mk (extract_labels h e)) (Quot.mk (extract_labels k e)))
      × ((key : String)
          → str_eq "job" key ≡ false
          → lookup key (extract_labels h e)
            ≡ relabelled key (lookup key (read h e.labels)) (lookup key (core_labels e)))
unfolding extract_labels stream_labels
extract_labels_content e h k d c s = (
  ap (stream_labels e) (Quot.sound {a = (read h e.labels, d)} {b = (read k e.labels, c)} s),
  λ key n.
      lookup-or_job key (copy_where is_indexed (read h e.labels) (core_labels e)) n
      ∙ (lookup-copy_where is_indexed (read h e.labels) (core_labels e) key d
          ∙ copied-is_indexed key (lookup key (read h e.labels)) (lookup key (core_labels e))),
)
