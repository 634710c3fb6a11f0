-- ===== src/Dedup/Drain/Listing.antt =====
-- What pkg/dedup/drain3.go reports of itself: the parameters of a message, the templates and the
-- statistics. The order that sort.Slice makes is a parameter; fmt.Sscanf of an id is one too.
pub mod Depth
use logsieve.Prelude.{
  ℕ, ◌+◌, String, Bool, ◌&&◌, List, [], ◌∷◌, map, Option, none, some, ltb, ◌==◌, not, if◌then◌else◌,
  length, take, words, itoa, has_prefix, has_suffix, str_eq,
}
use logsieve.Dedup.Drain.{Drain3, LogCluster, tokenize, find_cluster, total_size}
use logsieve.Dedup.Drain.Tree.{Node, node, Children, nil, child}

pub record ExtractedParameter : Type 0 where
  pub value : String
  pub mask_name : String

pub record Template : Type 0 where
  pub id : String
  pub template : List String
  pub count : ℕ
  pub created : ℕ
  pub updated : ℕ

pub record Drain3Stats : Type 0 where
  pub cluster_count : ℕ
  pub total_messages : ℕ
  pub tree_depth : ℕ

-- The tokens at the places of the template's masks; trim stands for strings.Trim of "<" and ">".
abbrev pub parameters_of : (String → String) → List String → List String → List ExtractedParameter
parameters_of trim (t ∷ ts) (k ∷ ks) =
    let rest = parameters_of trim ts ks in
    if has_prefix t "<" && has_suffix t ">"
    then record { value = k; mask_name = trim t } ∷ rest
    else rest
parameters_of trim _ _ = []

unfoldable pub extract_parameters :
    (String → String) → Drain3 → String → String → List ExtractedParameter
extract_parameters trim d message template =
    let tokens = tokenize d message in
    let template_tokens = words template in
    if not (length tokens == length template_tokens)
    then []
    else parameters_of trim template_tokens tokens

abbrev template_of : String → LogCluster → Template
template_of id c = record {
  id = id;
  template = c.log_template;
  count = c.size;
  created = c.created;
  updated = c.updated;
}

unfoldable pub get_template : (String → Option ℕ) → Drain3 → String → Option Template
get_template scan d id = elim (scan id) [
  | none ↦ none
  | some n ↦ elim (find_cluster n d.clusters) [ none ↦ none | some c ↦ some (template_of id c) ]
]

-- `sorts` is sort.Slice by the sizes, the largest first.
unfoldable pub get_top_clusters :
    (List LogCluster → List LogCluster) → ℕ → List LogCluster → List LogCluster
get_top_clusters sorts limit clusters =
    let sorted = sorts clusters in
    if ltb 0 limit
    then (if ltb limit (length sorted) then take limit sorted else sorted)
    else sorted

unfoldable pub get_top_templates :
    (List LogCluster → List LogCluster) → ℕ → List LogCluster → List Template
get_top_templates sorts limit clusters =
    map (λ c. template_of (itoa c.cluster_id) c) (get_top_clusters sorts limit clusters)

unfoldable mutual
  pub calculate_tree_depth : ℕ → Node → ℕ
  calculate_tree_depth current (node cs ids depth) = deepest current cs

  pub deepest : ℕ → Children → ℕ
  deepest current nil = current
  deepest current (child key n rest) =
      let below = calculate_tree_depth (current + 1) n in
      let others = deepest current rest in if ltb others below then below else others

unfoldable pub stats : Drain3 → Drain3Stats
stats d = record {
  cluster_count = length d.clusters;
  total_messages = total_size d.clusters;
  tree_depth = calculate_tree_depth 0 d.tree_root;
}
