-- ===== src/Dedup/Drain.antt =====
-- pkg/dedup/drain3.go: the data and the operations of the template miner. A pointer to a cluster is
-- its id, which is looked up in the map of clusters; time.Now() is an argument. A similarity is the
-- fraction of matching tokens, and the threshold is a fraction too.
pub mod Tree
pub mod Similarity
pub mod Search
pub mod Repeat
pub mod Counts
pub mod Members
pub mod Runs
pub mod Trap
pub mod Listing
pub mod Tests
use logsieve.Prelude.{
  ℕ, zero, suc, ◌+◌, ◌-◌, ◌*◌, String, Bool, true, false, not, ◌&&◌, ◌||◌, List, [], ◌∷◌, ◌++◌, map,
  Option, none, some, ltb, leb, ◌==◌, if◌then◌else◌, str_eq, length, take, has_number, words, join,
  itoa, all_digits, replace_by_space, has_prefix, has_suffix,
}
use Tree.{
  Node, node, Children, nil, root_node, clusters_of, children_of, walk, descend, add_path,
  add_wildcard_path,
}
use Prim.Native.String

-- A fraction num / den.
pub record Ratio : Type 0 where
  pub num : ℕ
  pub den : ℕ

-- a >= b and a > b
abbrev pub ratio_ge : Ratio → Ratio → Bool
ratio_ge a b = leb (b.num * a.den) (a.num * b.den)

abbrev pub ratio_gt : Ratio → Ratio → Bool
ratio_gt a b = ltb (b.num * a.den) (a.num * b.den)

pub record Drain3Config : Type 0 where
  pub sim_threshold : Ratio
  pub max_node_depth : ℕ
  pub max_children : ℕ
  pub max_clusters : ℕ
  pub parametrize_numeric : Bool
  pub extra_delimiters : List ℕ

unfoldable pub default_drain3_config : Drain3Config
default_drain3_config = record {
  sim_threshold = record { num = 2; den = 5 };
  max_node_depth = 4;
  max_children = 100;
  max_clusters = 0;
  parametrize_numeric = true;
  extra_delimiters = b'_' ∷ b':' ∷ [];
}

pub record LogCluster : Type 0 where
  pub cluster_id : ℕ
  pub log_template : List String
  pub size : ℕ
  pub created : ℕ
  pub updated : ℕ

-- A compiled pattern is the texts that it matches.
pub record MaskingRule : Type 0 where
  pub pattern : String → Bool
  pub mask : String

pub record Drain3 : Type 0 where
  pub config : Drain3Config
  pub clusters : List LogCluster
  pub tree_root : Node
  pub cluster_id : ℕ
  pub masking_rules : List MaskingRule

pub data ChangeType : Type 0 where
  no_change cluster_created cluster_template_changed cluster_size_changed : ChangeType

pub record AddLogResult : Type 0 where
  pub change_type : ChangeType
  pub cluster_id : ℕ
  pub cluster_size : ℕ
  pub cluster_count : ℕ
  pub template_mined : String

pub record TemplateMatch : Type 0 where
  pub cluster_id : ℕ
  pub template : List String
  pub similarity : Ratio
  pub parameter_list : List String

abbrev pub wildcard : String
wildcard = "<*>"

-- The configured threshold, when it is above 0, replaces the default.
unfoldable pub new_drain3 : Ratio → List MaskingRule → Drain3
unfolding default_drain3_config
new_drain3 threshold rules = record {
  config = record default_drain3_config {
    sim_threshold = if ltb 0 threshold.num then threshold else default_drain3_config.sim_threshold;
  };
  clusters = [];
  tree_root = root_node;
  cluster_id = 0;
  masking_rules = rules;
}

-- d.clusters[id]
unfoldable pub find_cluster : ℕ → List LogCluster → Option LogCluster
find_cluster id [] = none
find_cluster id (c ∷ cs) = if c.cluster_id == id then some c else find_cluster id cs

-- What is written through a pointer to a cluster.
unfoldable pub store_cluster : LogCluster → List LogCluster → List LogCluster
store_cluster new [] = []
store_cluster new (c ∷ cs) =
    if c.cluster_id == new.cluster_id then new ∷ cs else c ∷ store_cluster new cs

masked_by : List MaskingRule → Bool → String → String
masked_by [] numeric token =
    if numeric && (not (str_eq token "") && all_digits token) then "<NUM>" else token
masked_by (r ∷ rs) numeric token =
    if r.pattern token
    then Prim.Native.String.◌++◌ "<" (Prim.Native.String.◌++◌ r.mask ">")
    else masked_by rs numeric token

unfoldable pub apply_masking : Drain3 → String → String
unfolding masked_by
apply_masking d token = masked_by d.masking_rules d.config.parametrize_numeric token

delimit : List ℕ → String → String
delimit [] message = message
delimit (c ∷ cs) message = delimit cs (replace_by_space c message)

unfoldable pub tokenize : Drain3 → String → List String
unfolding delimit
tokenize d message = map (apply_masking d) (words (delimit d.config.extra_delimiters message))

-- template[i] == tokens[i] || template[i] == "<*>"
abbrev pub token_matches : String → String → Bool
token_matches t token = str_eq t token || str_eq t wildcard

unfoldable pub count_matches : List String → List String → ℕ
count_matches [] tokens = 0
count_matches (t ∷ ts) [] = 0
count_matches (t ∷ ts) (k ∷ ks) = (if token_matches t k then 1 else 0) + count_matches ts ks

unfoldable pub calculate_similarity : List String → List String → Ratio
calculate_similarity template tokens =
    if length template == length tokens
    then record { num = count_matches template tokens; den = length template }
    else record { num = 0; den = 1 }

-- The loop over the clusters of a leaf, with the best cluster so far and its similarity.
unfoldable pub best_match :
    Ratio → List LogCluster → List String → List ℕ → Option LogCluster → Ratio → Option LogCluster
best_match threshold store tokens [] best similarity = best
best_match threshold store tokens (id ∷ ids) best similarity = elim (find_cluster id store) [
  | none ↦ best_match threshold store tokens ids best similarity
  | some c ↦
      let s = calculate_similarity c.log_template tokens in
      elim (ratio_gt s similarity && ratio_ge s threshold) [
        | true ↦ best_match threshold store tokens ids (some c) s
        | false ↦ best_match threshold store tokens ids best similarity
      ]
]

abbrev pub zero_ratio : Ratio
zero_ratio = record { num = 0; den = 1 }

abbrev pub is_empty : List String → Bool
is_empty [] = true
is_empty (x ∷ xs) = false

-- The ids at the leaf that the tokens lead to.
unfoldable pub find_leaf : Drain3 → List String → Option Node
find_leaf d tokens = elim (descend (itoa (length tokens)) d.tree_root) [
  | none ↦ none
  | some n ↦ walk (d.config.max_node_depth - 1) tokens n
]

unfoldable pub tree_search : Drain3 → List String → Option LogCluster
unfolding best_match
tree_search d tokens = if is_empty tokens then none else elim (find_leaf d tokens) [
  | none ↦ none
  | some leaf ↦
      best_match d.config.sim_threshold d.clusters tokens (clusters_of leaf) none zero_ratio
]

unfoldable pub create_cluster : ℕ → Drain3 → List String → Drain3 × LogCluster
create_cluster now d tokens = (
  record d { cluster_id = d.cluster_id + 1 },
  record {
    cluster_id = d.cluster_id + 1;
    log_template = tokens;
    size = 1;
    created = now;
    updated = now;
  },
)

unfoldable pub add_cluster_to_tree : Drain3 → LogCluster → List String → Drain3
add_cluster_to_tree d cluster tokens = record d {
  clusters = d.clusters ++ cluster ∷ [];
  tree_root =
      add_path (itoa (length tokens)) (d.config.max_node_depth - 1) d.config.max_children
        cluster.cluster_id tokens d.tree_root;
}

-- What updateTemplate leaves of one token of the template.
unfoldable pub generalize_token : String → String → String
generalize_token t k = if not (str_eq t k) && not (str_eq t wildcard) then wildcard else t

-- Its loop: tokens that differ become wildcards.
unfoldable pub generalize : List String → List String → List String
generalize [] tokens = []
generalize (t ∷ ts) [] = t ∷ ts
generalize (t ∷ ts) (k ∷ ks) = generalize_token t k ∷ generalize ts ks

-- Its variable `changed`.
unfoldable pub changes : List String → List String → Bool
changes [] tokens = false
changes (t ∷ ts) [] = false
changes (t ∷ ts) (k ∷ ks) = (not (str_eq t k) && not (str_eq t wildcard)) || changes ts ks

unfoldable pub add_wildcard_path_for_cluster : Drain3 → LogCluster → Drain3
add_wildcard_path_for_cluster d cluster = record d {
  tree_root =
      add_wildcard_path (itoa (length cluster.log_template)) (d.config.max_node_depth - 1)
        cluster.cluster_id cluster.log_template d.tree_root;
}

-- The cluster after the update, and the miner.
unfoldable pub update_template : Drain3 → LogCluster → List String → Drain3 × LogCluster
update_template d cluster tokens =
    let new = record cluster { log_template = generalize cluster.log_template tokens } in
    if not (length cluster.log_template == length tokens) then (d, cluster) else (
      if changes cluster.log_template tokens
          then add_wildcard_path_for_cluster (record d { clusters = store_cluster new d.clusters })
              new
          else record d { clusters = store_cluster new d.clusters },
      new,
    )

-- The branch of AddLogMessage for a message that belongs to a cluster.
unfoldable pub absorb : ℕ → Drain3 → LogCluster → List String → AddLogResult × Drain3
absorb now d old tokens =
    let counted = record old { size = old.size + 1; updated = now } in
    let u =
      update_template (record d { clusters = store_cluster counted d.clusters }) counted tokens in
    let new_template = join " " (u.1).log_template in
    (
      record {
        change_type =
            if not (str_eq (join " " old.log_template) new_template)
            then cluster_template_changed
            else cluster_size_changed;
        cluster_id = (u.1).cluster_id;
        cluster_size = (u.1).size;
        cluster_count = length (u.0).clusters;
        template_mined = new_template;
      },
      u.0,
    )

-- Its branch for a message that founds a cluster.
unfoldable pub found : ℕ → Drain3 → List String → AddLogResult × Drain3
found now d tokens =
    let c = create_cluster now d tokens in
    let d' = add_cluster_to_tree c.0 c.1 tokens in
    (
      record {
        change_type = cluster_created;
        cluster_id = (c.1).cluster_id;
        cluster_size = (c.1).size;
        cluster_count = length d'.clusters;
        template_mined = join " " (c.1).log_template;
      },
      d',
    )

unfoldable pub add_tokens : ℕ → Drain3 → List String → AddLogResult × Drain3
add_tokens now d tokens =
    if is_empty tokens
    then (
      record {
        change_type = no_change;
        cluster_id = 0;
        cluster_size = 0;
        cluster_count = length d.clusters;
        template_mined = "";
      },
      d,
    )
    else elim (tree_search d tokens) [
      | some cluster ↦ absorb now d cluster tokens
      | none ↦ found now d tokens
    ]

unfoldable pub add_log_message : ℕ → Drain3 → String → AddLogResult × Drain3
add_log_message now d message = add_tokens now d (tokenize d message)

-- Process: the id as a text, and whether a cluster was created.
unfoldable pub process : ℕ → Drain3 → String → (String × Bool) × Drain3
process now d message =
    let r = add_log_message now d message in
    ((itoa (r.0).cluster_id, elim (r.0).change_type [ cluster_created ↦ true | _ ↦ false ]), r.1)

abbrev pub is_placeholder : String → Bool
is_placeholder t = str_eq t wildcard || (has_prefix t "<" && has_suffix t ">")

parameters_from : List String → List String → List String
parameters_from [] tokens = []
parameters_from (t ∷ ts) [] = []
parameters_from (t ∷ ts) (k ∷ ks) =
    let rest = parameters_from ts ks in if is_placeholder t then k ∷ rest else rest

unfoldable pub extract_parameters_from_tokens : List String → List String → List String
unfolding parameters_from
extract_parameters_from_tokens template tokens =
    if not (length template == length tokens) then [] else parameters_from template tokens

unfoldable pub match_tokens : Drain3 → List String → Option TemplateMatch
match_tokens d tokens = if is_empty tokens then none else elim (tree_search d tokens) [
  | none ↦ none
  | some c ↦
      let s = calculate_similarity c.log_template tokens in
      if not (ratio_ge s d.config.sim_threshold)
      then none
      else some (record {
        cluster_id = c.cluster_id;
        template = c.log_template;
        similarity = s;
        parameter_list = extract_parameters_from_tokens c.log_template tokens;
      })
]

-- Match; its second argument is not read.
unfoldable pub match_message : Drain3 → String → Option TemplateMatch
match_message d message = match_tokens d (tokenize d message)

unfoldable pub get_cluster : Drain3 → ℕ → Option LogCluster
get_cluster d id = find_cluster id d.clusters

unfoldable pub get_pattern_count : Drain3 → ℕ
get_pattern_count d = length d.clusters

unfoldable pub reset : Drain3 → Drain3
reset d = record d { clusters = []; tree_root = root_node; cluster_id = 0 }

abbrev pub total_size : List LogCluster → ℕ
total_size [] = 0
total_size (c ∷ cs) = c.size + total_size cs
