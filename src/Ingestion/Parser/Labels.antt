-- ===== src/Ingestion/Parser/Labels.antt =====
-- What pkg/ingestion/parser.go takes out of an entry's labels and its message.
use logsieve.Prelude.{
  ℕ, zero, suc, ◌≤◌, min, String, Bool, ◌||◌, Option, none, some, if◌then◌else◌, str_eq, eq_iff,
  text_length, take_text, lookup, lookup-delete, ◌≡◌, refl, ap, ◌∙◌, arith,
}
use logsieve.Ingestion.Entry.{LogEntry, Heap, label_of, delete_label, read}
use logsieve.Ingestion.Parser.{
  set_pod, set_namespace, set_container, set_node, move_label, extract_kubernetes_metadata,
  extract_container_info,
}

abbrev pub is_kubernetes_key : String → Bool
is_kubernetes_key k =
    str_eq "io.kubernetes.pod.name" k
    || str_eq "io.kubernetes.pod.namespace" k
    || str_eq "io.kubernetes.container.name" k
    || str_eq "io.kubernetes.pod.node_name" k

-- A field after a label was moved into it.
abbrev pub moved : Option String → String → String
moved none old = old
moved (some v) old = v

-- What moving a label does to the map and to the entry.
abbrev after_move : Option String → (String → LogEntry → LogEntry) → LogEntry → LogEntry
after_move none set e = e
after_move (some v) set e = set v e

move_label-entry :
    (a : ℕ) (key : String) (set : String → LogEntry → LogEntry) (e : LogEntry) (h : Heap)
    → e.labels ≡ some a
    → (move_label a key set (e, h)).0 ≡ after_move (lookup key (h.at a)) set e
unfolding move_label
move_label-entry a key set e h l = ground (arith, ap (λ (o : Option ℕ). lookup key (read h o)) l)

move_label-map :
    (a : ℕ) (key j : String) (set : String → LogEntry → LogEntry) (e : LogEntry) (h : Heap)
    → e.labels ≡ some a
    → lookup j ((move_label a key set (e, h)).1.at a)
      ≡ (if str_eq key j then none else lookup j (h.at a))
unfolding move_label delete_label
move_label-map a key j set e h l = ground (
  arith,
  ap (λ (o : Option ℕ). lookup key (read h o)) l,
  lookup-delete key j (h.at a),
  eq_iff key j,
)

after_move-labels :
    (o : Option String) (set : String → LogEntry → LogEntry) (e : LogEntry)
    → ((v : String) → (set v e).labels ≡ e.labels)
    → (after_move o set e).labels ≡ e.labels
after_move-labels none set e p = refl
after_move-labels (some v) set e p = p v

-- The entry, and the labels that are in its map.
record Holds (a : ℕ) (found : String → Option String) (e : LogEntry) (s : LogEntry × Heap)
    : Type 0 where
  mapped : s.0.labels ≡ some a
  labelled : (j : String) → lookup j (s.1.at a) ≡ found j
  entry : s.0 ≡ e

move_label-Holds :
    (a : ℕ) (key : String) (set : String → LogEntry → LogEntry) (found : String → Option String)
    (e : LogEntry) (s : LogEntry × Heap)
    → ((v : String) (x : LogEntry) → (set v x).labels ≡ x.labels)
    → Holds a found e s
    → Holds a
        (λ j. if str_eq key j then none else found j)
        (after_move (found key) set e)
        (move_label a key set s)
move_label-Holds a key set found e s p h =
    let moved_entry = move_label-entry a key set s.0 s.1 h.mapped in
    record {
      mapped =
          ap (λ (x : LogEntry). x.labels) moved_entry
          ∙ (after_move-labels (lookup key (s.1.at a)) set s.0 (λ v. p v s.0) ∙ h.mapped);
      labelled = λ j.
          move_label-map a key j set s.0 s.1 h.mapped
          ∙ ap (λ o. if str_eq key j then none else o) (h.labelled j);
      entry =
          moved_entry
          ∙ (ap (λ o. after_move o set s.0) (h.labelled key)
              ∙ ap (after_move (found key) set) h.entry);
    }

abbrev found_in : ℕ → Heap → String → Option String
found_in a h k = lookup k (h.at a)

kubernetes-Holds :
    (a : ℕ) (e : LogEntry) (h : Heap)
    → e.labels ≡ some a
    → Holds a
        (λ j. if is_kubernetes_key j then none else found_in a h j)
        (after_move (found_in a h "io.kubernetes.pod.node_name") set_node (
          after_move (found_in a h "io.kubernetes.container.name") set_container (
            after_move
              (found_in a h "io.kubernetes.pod.namespace")
              set_namespace
              (after_move (found_in a h "io.kubernetes.pod.name") set_pod e))))
        (extract_kubernetes_metadata a e h)
unfolding extract_kubernetes_metadata
kubernetes-Holds a e h l =
    let start : Holds a (found_in a h) e (e, h) = record {
      mapped = l;
      labelled = λ j. refl;
      entry = refl;
    } in
    let keeps = λ (v : String) (x : LogEntry). refl {a = x.labels} in
    let r = move_label-Holds a "io.kubernetes.pod.node_name" set_node _ _ _ keeps (
      move_label-Holds a "io.kubernetes.container.name" set_container _ _ _ keeps (
        move_label-Holds a "io.kubernetes.pod.namespace" set_namespace _ _ _ keeps
          (move_label-Holds a "io.kubernetes.pod.name" set_pod _ _ _ keeps start))) in
    record { mapped = r.mapped; labelled = λ j. r.labelled j ∙ ground arith; entry = r.entry }

-- Each Kubernetes label becomes the field that it names, where there is such a label, and leaves the
-- map; all other labels, and the message, stay as they are.
pub kubernetes_labels_move :
    (a : ℕ) (k : String) (e : LogEntry) (h : Heap)
    → e.labels ≡ some a
    → let r = extract_kubernetes_metadata a e h in
      (label_of r.1 r.0 k ≡ (if is_kubernetes_key k then none else label_of h e k))
      × (r.0.pod_name ≡ moved (label_of h e "io.kubernetes.pod.name") e.pod_name)
      × (r.0.namespace ≡ moved (label_of h e "io.kubernetes.pod.namespace") e.namespace)
      × (r.0.container_name ≡ moved (label_of h e "io.kubernetes.container.name") e.container_name)
      × (r.0.node_name ≡ moved (label_of h e "io.kubernetes.pod.node_name") e.node_name)
      × (r.0.message ≡ e.message)
kubernetes_labels_move a k e h l =
    let r = kubernetes-Holds a e h l in
    let own = λ (j : String). ap (λ (o : Option ℕ). lookup j (read h o)) l in
    let after = (extract_kubernetes_metadata a e h).1 in
    ground (
      arith,
      r.labelled k,
      r.mapped,
      r.entry,
      ap (λ (o : Option ℕ). lookup k (read after o)) r.mapped,
      own k,
      own "io.kubernetes.pod.name",
      own "io.kubernetes.pod.namespace",
      own "io.kubernetes.container.name",
      own "io.kubernetes.pod.node_name",
    )

text_length-take_text : (n : ℕ) (s : String) → text_length (take_text n s) ≡ min n (text_length s)
unfolding text_length take_text
text_length-take_text zero s = omega arith
text_length-take_text (suc n) String.[] = omega arith
text_length-take_text (suc n) (String.◌∷◌ c s) = omega (arith, text_length-take_text n s)

take_text_all : (n : ℕ) (s : String) → text_length s ≤ n → take_text n s ≡ s
unfolding text_length take_text
take_text_all zero String.[] h = refl
take_text_all zero (String.◌∷◌ c s) h = absurd (omega arith)
take_text_all (suc n) String.[] h = refl
take_text_all (suc n) (String.◌∷◌ c s) h = ap (String.◌∷◌ c) (take_text_all n s (omega arith))

-- The container's id is the first twelve bytes of its label and never longer, and its name is the
-- label's only where no name was known.
pub container_id_cut :
    (e : LogEntry) (h : Heap) (id name : String)
    → label_of h e "container_id" ≡ some id
    → label_of h e "container_name" ≡ some name
    → let r = extract_container_info e h in
      (r.container_id ≡ take_text 12 id)
      × (text_length r.container_id ≤ 12)
      × (r.container_name ≡ (if str_eq e.container_name "" then name else e.container_name))
unfolding extract_container_info
container_id_cut e h id name i n = ground (arith, text_length-take_text 12 id, take_text_all 12 id)
