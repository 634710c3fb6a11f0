-- ===== src/Dedup/Drain/Tree.antt =====
-- The prefix tree of pkg/dedup/drain3.go: nodes with children by key, and the ids of the clusters
-- at a leaf. A walk descends while both levels and tokens are left.
pub mod Paths
use logsieve.Prelude.{
  ℕ, zero, suc, ◌+◌, ◌-◌, String, Bool, true, false, List, [], ◌∷◌, ◌++◌, Option, none, some, ltb,
  leb, ◌==◌, ◌&&◌, if◌then◌else◌, str_eq, length, drop, has_number,
}

mutual
  pub data Node : Type 0 where
    node : Children → List ℕ → ℕ → Node

  pub data Children : Type 0 where
    nil : Children
    child : String → Node → Children → Children

abbrev pub children_of : Node → Children
children_of (node cs ids depth) = cs

abbrev pub clusters_of : Node → List ℕ
clusters_of (node cs ids depth) = ids

abbrev pub root_node : Node
root_node = node nil [] 0

-- &Node{Children: make(...), Clusters: []*LogCluster{}, Depth: depth}
abbrev pub fresh_node : ℕ → Node
fresh_node depth = node nil [] depth

-- node.Children[key]
unfoldable pub get_child : String → Children → Option Node
get_child key nil = none
get_child key (child k n rest) = if str_eq k key then some n else get_child key rest

-- node.Children[key] = n
unfoldable pub put_child : String → Node → Children → Children
put_child key n nil = child key n nil
put_child key n (child k m rest) =
    if str_eq k key then child k n rest else child k m (put_child key n rest)

abbrev pub descend : String → Node → Option Node
descend key (node cs ids depth) = get_child key cs

-- The child that is there, or a fresh one.
abbrev pub child_or_fresh : String → ℕ → Node → Node
child_or_fresh key depth n = elim (descend key n) [ none ↦ fresh_node depth | some m ↦ m ]

abbrev pub with_child : String → Node → Node → Node
with_child key m (node cs ids depth) = node (put_child key m cs) ids depth

-- The child for a token: its own, else that of the wildcard.
unfoldable pub next_node : String → Node → Option Node
next_node token n = elim (descend token n) [ some m ↦ some m | none ↦ descend "<*>" n ]

unfoldable pub walk : ℕ → List String → Node → Option Node
walk zero tokens n = some n
walk (suc k) [] n = some n
walk (suc k) (t ∷ ts) n = elim (next_node t n) [ none ↦ none | some m ↦ walk k ts m ]

-- Clusters = append(Clusters, cluster), and the oldest is dropped past the limit.
unfoldable pub attach : ℕ → ℕ → List ℕ → List ℕ
attach max_children id ids =
    let appended = ids ++ id ∷ [] in
    if ltb 0 max_children && ltb max_children (length appended) then drop 1 appended else appended

-- The loop of addClusterToTree below the node of the length, at the given depth.
unfoldable pub insert_at : ℕ → ℕ → ℕ → ℕ → List String → Node → Node
unfolding attach
insert_at zero depth limit id tokens (node cs ids d) = node cs (attach limit id ids) d
insert_at (suc k) depth limit id [] (node cs ids d) = node cs (attach limit id ids) d
insert_at (suc k) depth limit id (t ∷ ts) n =
    with_child t (insert_at k (depth + 1) limit id ts (child_or_fresh t (depth + 1) n)) n

unfoldable pub add_path : String → ℕ → ℕ → ℕ → List String → Node → Node
unfolding insert_at
add_path key levels limit id tokens root =
    with_child key (insert_at levels 1 limit id tokens (child_or_fresh key 1 root)) root

-- A cluster is attached once.
unfoldable pub attach_once : ℕ → List ℕ → List ℕ
attach_once id ids = if has_number id ids then ids else ids ++ id ∷ []

-- Where the template has no wildcard, its own child is made too, and the walk goes on below the
-- wildcard's.
unfoldable pub keep_specific : String → ℕ → Node → Node
keep_specific key depth n =
    if str_eq key "<*>" then n else with_child key (child_or_fresh key depth n) n

-- The loop of addWildcardPathForCluster.
unfoldable pub insert_wildcard_at : ℕ → ℕ → ℕ → List String → Node → Node
unfolding attach_once keep_specific
insert_wildcard_at zero depth id template (node cs ids d) = node cs (attach_once id ids) d
insert_wildcard_at (suc k) depth id [] (node cs ids d) = node cs (attach_once id ids) d
insert_wildcard_at (suc k) depth id (t ∷ ts) n =
    let n' = keep_specific t (depth + 1) n in
    with_child "<*>" (insert_wildcard_at k (depth + 1) id ts (child_or_fresh "<*>" (depth + 1) n'))
      n'

unfoldable pub add_wildcard_path : String → ℕ → ℕ → List String → Node → Node
unfolding insert_wildcard_at
add_wildcard_path key levels id template root =
    with_child key (insert_wildcard_at levels 1 id template (child_or_fresh key 1 root)) root
