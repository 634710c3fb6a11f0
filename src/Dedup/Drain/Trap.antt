-- ===== src/Dedup/Drain/Trap.antt =====
-- addWildcardPathForCluster of pkg/dedup/drain3.go: below the wildcard it makes empty nodes for the
-- template's own tokens, and the search prefers those.
use logsieve.Prelude.{
  ℕ, zero, suc, ◌+◌, ◌-◌, String, true, false, List, [], ◌∷◌, Option, none, some, length, ◌≡◌, refl,
  sym, ap, ◌∙◌, ◌⊎◌, inr, arith, str_eq, eq_iff, eq_refl, itoa, Bool-cases, subst,
}
use logsieve.Dedup.Drain.Tree.{
  Node, fresh_node, clusters_of, descend, get_child, next_node, walk, insert_wildcard_at,
  keep_specific, child_or_fresh, with_child,
}
use logsieve.Dedup.Drain.Tree.{add_wildcard_path}
use logsieve.Dedup.Drain.Tree.Paths.{descend-with_child}
use logsieve.Dedup.Drain.{
  Drain3, LogCluster, find_leaf, tree_search, best_match, add_wildcard_path_for_cluster,
}

-- Holds no cluster at all: no leaf, or one without clusters.
abbrev pub FindsNothing : Option Node → Type 0
FindsNothing none = Unit {0}
FindsNothing (some leaf) = clusters_of leaf ≡ []

walk-fresh : (k depth : ℕ) (tokens : List String) → FindsNothing (walk k tokens (fresh_node depth))
unfolding walk next_node get_child
walk-fresh zero depth tokens = refl
walk-fresh (suc k) depth [] = refl
walk-fresh (suc k) depth (t ∷ ts) = tt

-- A text differs from the wildcard whichever way it is asked.
wildcard_ne : (u : String) → str_eq u "<*>" ≡ false → str_eq "<*>" u ≡ false
wildcard_ne u h = ground (arith, eq_iff u "<*>", eq_iff "<*>" u)

-- Below the wildcard there is an empty node for the template's own token.
specific_is_fresh :
    (k depth id : ℕ) (u : String) (us : List String)
    → str_eq u "<*>" ≡ false
    → descend u (insert_wildcard_at (suc k) depth id (u ∷ us) (fresh_node depth))
      ≡ some (fresh_node (depth + 1))
unfolding insert_wildcard_at
specific_is_fresh k depth id u us h =
    rw (descend-with_child, wildcard_ne u h)
      (unfold keep_specific get_child in
        rw h
          (rw (descend-with_child u u (fresh_node (depth + 1)) (fresh_node depth), eq_refl u) refl))

walk-step :
    (k : ℕ) (t : String) (ts : List String) (n m : Node)
    → next_node t n ≡ some m
    → walk (suc k) (t ∷ ts) n ≡ walk k ts m
unfolding walk
walk-step k t ts n m h = rw (h, walk) refl

next_node-own : (t : String) (n m : Node) → descend t n ≡ some m → next_node t n ≡ some m
unfolding next_node
next_node-own t n m h = rw (h, next_node) refl

next_node-wildcard :
    (z : String) (m n : Node)
    → str_eq "<*>" z ≡ false
    → descend z n ≡ none
    → next_node z (with_child "<*>" m n) ≡ some m
unfolding next_node
next_node-wildcard z m n h unknown =
    ground
      (arith, descend-with_child "<*>" z m n, descend-with_child "<*>" "<*>" m n, eq_refl "<*>")

descend-keep_specific :
    (t z : String) (depth : ℕ) (n : Node)
    → (str_eq t "<*>" ≡ true) ⊎ (str_eq t z ≡ false)
    → descend z n ≡ none
    → descend z (keep_specific t depth n) ≡ none
unfolding keep_specific
descend-keep_specific t z depth n apart unknown =
    ground (arith, descend-with_child t z (child_or_fresh t depth n) n)

child_or_fresh-none :
    (key : String) (depth : ℕ) (n : Node)
    → descend key n ≡ none
    → child_or_fresh key depth n ≡ fresh_node depth
child_or_fresh-none key depth n h = rw (h, child_or_fresh) refl

apart_or_wildcard : (t : String) → (str_eq t "<*>" ≡ true) ⊎ (str_eq t "<*>" ≡ false)
apart_or_wildcard t = Bool-cases (str_eq t "<*>")

-- A node without a wildcard's child, whose cluster gets a wildcard path: an unknown first token
-- followed by the template's second token leads to no cluster.
walk_trapped :
    (k depth id : ℕ) (t z u : String) (us ks : List String) (n : Node)
    → str_eq z "<*>" ≡ false
    → str_eq u "<*>" ≡ false
    → str_eq t z ≡ false
    → descend z n ≡ none
    → descend "<*>" n ≡ none
    → FindsNothing
        (walk (suc (suc k)) (z ∷ u ∷ ks) (insert_wildcard_at (suc (suc k)) depth id (t ∷ u ∷ us) n))
unfolding insert_wildcard_at
walk_trapped k depth id t z u us ks n hz hu tz unknown bare =
    let kept = keep_specific t (depth + 1) n in
    let empty_below =
      child_or_fresh-none "<*>" (depth + 1) kept
        (descend-keep_specific t "<*>" (depth + 1) n (apart_or_wildcard t) bare) in
    let below = insert_wildcard_at (suc k) (depth + 1) id (u ∷ us) in
    let inner = below (child_or_fresh "<*>" (depth + 1) kept) in
    let first = walk-step (suc k) z (u ∷ ks) (with_child "<*>" inner kept) inner (
      next_node-wildcard z inner kept (wildcard_ne z hz)
        (descend-keep_specific t z (depth + 1) n (inr tz) unknown)) in
    let second = walk-step k u ks (below (fresh_node (depth + 1))) (fresh_node (depth + 1 + 1)) (
      next_node-own u (below (fresh_node (depth + 1))) (fresh_node (depth + 1 + 1))
        (specific_is_fresh k (depth + 1) id u us hu)) in
    subst FindsNothing
      (sym (first ∙ (ap (λ m. walk (suc k) (u ∷ ks) (below m)) empty_below ∙ second)))
      (walk-fresh k (depth + 1 + 1) ks)

-- The leaf that tokens of the template's length lead to, once the cluster has its wildcard path.
find_leaf-add_wildcard_path :
    (d : Drain3) (c : LogCluster) (tokens : List String)
    → length tokens ≡ length c.log_template
    → find_leaf (add_wildcard_path_for_cluster d c) tokens
      ≡ walk (d.config.max_node_depth - 1) tokens (
          insert_wildcard_at
            (d.config.max_node_depth - 1)
            1
            c.cluster_id
            c.log_template
            (child_or_fresh (itoa (length c.log_template)) 1 d.tree_root))
unfolding add_wildcard_path_for_cluster add_wildcard_path find_leaf
find_leaf-add_wildcard_path d c tokens e =
    let key = itoa (length c.log_template) in
    let levels = d.config.max_node_depth - 1 in
    let below =
      insert_wildcard_at levels 1 c.cluster_id c.log_template (child_or_fresh key 1 d.tree_root) in
    ground (arith, ap itoa e, eq_refl key, descend-with_child key key below d.tree_root)

unknown_misses :
    (d : Drain3) (tokens : List String)
    → FindsNothing (find_leaf d tokens)
    → tree_search d tokens ≡ none
unfolding tree_search best_match
unknown_misses d tokens h = ground arith

-- A cluster that gets a wildcard path is not reachable by it: where the node for its length knows
-- neither the token z nor the wildcard, a message that begins with z and then has the template's own
-- second token finds no cluster, however many of the other tokens agree, if the tree has at least
-- two levels of tokens, and z, the second token and the wildcard differ, and z is not the
-- template's first token.
pub wildcard_path_trap :
    (d : Drain3) (c : LogCluster) (k : ℕ) (t z u : String) (us ks : List String)
    → c.log_template ≡ t ∷ u ∷ us
    → length ks ≡ length us
    → d.config.max_node_depth ≡ suc (suc (suc k))
    → str_eq z "<*>" ≡ false
    → str_eq u "<*>" ≡ false
    → str_eq t z ≡ false
    → descend z (child_or_fresh (itoa (length c.log_template)) 1 d.tree_root) ≡ none
    → descend "<*>" (child_or_fresh (itoa (length c.log_template)) 1 d.tree_root) ≡ none
    → tree_search (add_wildcard_path_for_cluster d c) (z ∷ u ∷ ks) ≡ none
wildcard_path_trap d c k t z u us ks e l m hz hu tz unknown bare =
    unknown_misses (add_wildcard_path_for_cluster d c) (z ∷ u ∷ ks) (
      rw
        (find_leaf-add_wildcard_path d c (z ∷ u ∷ ks)
          (ap (λ xs. suc (suc xs)) l ∙ sym (ap length e)))
        (rw (levels, e)
          (walk_trapped k 1 c.cluster_id t z u us ks _ hz hu tz (rw e at unknown) (rw e at bare))))
  where
    levels : d.config.max_node_depth - 1 ≡ suc (suc k)
    levels = omega (arith, m)
