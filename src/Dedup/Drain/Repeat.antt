-- ===== src/Dedup/Drain/Repeat.antt =====
-- A message that founded a cluster in pkg/dedup/drain3.go is found again.
use logsieve.Prelude.{
  ℕ, ◌+◌, ◌*◌, ◌-◌, ◌≤◌, ◌<◌, String, true, false, List, [], ◌∷◌, ◌++◌, none, some, length,
  has_number, ◌≡◌, refl, ◌∙◌, arith, All, eq_refl, itoa, join,
}
use logsieve.Dedup.Drain.Tree.{Node, clusters_of, insert_at, add_path, child_or_fresh}
use logsieve.Dedup.Drain.Tree.Paths.{walk-insert_at, descend-with_child}
use logsieve.Dedup.Drain.{
  Drain3, Ratio, ratio_ge, LogCluster, cluster_size_changed, count_matches, calculate_similarity,
  find_cluster, store_cluster, is_empty, find_leaf, tree_search, create_cluster,
  add_cluster_to_tree, update_template, absorb, found, add_tokens, generalize,
}
use logsieve.Dedup.Drain.Similarity.{count_matches_self, count_matches-le, generalize_full}
use logsieve.Dedup.Drain.Search.{tree_search_best}
use logsieve.Dedup.Drain.Counts.{IsNumbered, length-store_cluster}

-- The cluster that `found` makes.
abbrev founder : ℕ → Drain3 → List String → LogCluster
founder now d tokens = (create_cluster now d tokens).1

find_leaf-found :
    (now : ℕ) (d : Drain3) (tokens : List String)
    → (leaf : Node) × (find_leaf (found now d tokens).1 tokens ≡ some leaf)
      × (has_number (d.cluster_id + 1) (clusters_of leaf) ≡ true)
unfolding found create_cluster add_cluster_to_tree find_leaf add_path
find_leaf-found now d tokens =
    let key = itoa (length tokens) in
    let levels = d.config.max_node_depth - 1 in
    let below = child_or_fresh key 1 d.tree_root in
    let w = walk-insert_at levels 1 d.config.max_children (d.cluster_id + 1) tokens below in
    (
      w.0,
      ground (
        arith,
        w.1,
        eq_refl key,
        descend-with_child key key
            (insert_at levels 1 d.config.max_children (d.cluster_id + 1) tokens below) d.tree_root,
      ),
      w.2,
    )

find_cluster-append_fresh :
    (n : ℕ) (cs : List LogCluster) (c : LogCluster)
    → All (λ x. x.cluster_id ≤ n) cs
    → c.cluster_id ≡ n + 1
    → find_cluster (n + 1) (cs ++ c ∷ []) ≡ some c
unfolding find_cluster
find_cluster-append_fresh n [] c h e = ground arith
find_cluster-append_fresh n (x ∷ cs) c h e = ground (arith, find_cluster-append_fresh n cs c h.1 e)

find_cluster-found :
    (now : ℕ) (d : Drain3) (tokens : List String)
    → IsNumbered d
    → find_cluster (d.cluster_id + 1) (found now d tokens).1.clusters ≡ some (founder now d tokens)
unfolding found create_cluster add_cluster_to_tree
find_cluster-found now d tokens v =
    find_cluster-append_fresh d.cluster_id d.clusters (founder now d tokens) v.below refl

-- A threshold of at most one.
abbrev pub AtMostOne : Ratio → Type 0
AtMostOne r = r.num ≤ r.den

similarity_self :
    (t : List String) → calculate_similarity t t ≡ record { num = length t; den = length t }
unfolding calculate_similarity
similarity_self t = ground (arith, count_matches_self t)

near_self :
    (t : List String) (r : Ratio) → AtMostOne r → ratio_ge (calculate_similarity t t) r ≡ true
near_self t r h = rw (similarity_self t) (ground (arith, times_le r.num r.den (length t) h))
  where
    times_le : (a b n : ℕ) → a ≤ b → a * n ≤ n * b
    times_le a b n l = grind arith

full-template :
    (t k : List String)
    → 0 < length k
    → length k ≤ (calculate_similarity t k).num
    → count_matches t k ≡ length t
unfolding calculate_similarity
full-template t k p h = ground (arith, count_matches-le t k)

update_template_full :
    (d : Drain3) (c : LogCluster) (tokens : List String)
    → count_matches c.log_template tokens ≡ length c.log_template
    → ((update_template d c tokens).1.log_template ≡ c.log_template)
      × ((update_template d c tokens).0.tree_root ≡ d.tree_root)
      × (length (update_template d c tokens).0.clusters ≡ length d.clusters)
unfolding update_template
update_template_full d c tokens h = ground (
  arith,
  generalize_full c.log_template tokens h,
  length-store_cluster (record c { log_template = generalize c.log_template tokens }) d.clusters,
)

-- Absorbing a message that the template matches in every token changes no template and no tree.
absorb_full :
    (now : ℕ) (d : Drain3) (c : LogCluster) (tokens : List String)
    → count_matches c.log_template tokens ≡ length c.log_template
    → ((absorb now d c tokens).0.change_type ≡ cluster_size_changed)
      × (length (absorb now d c tokens).1.clusters ≡ length d.clusters)
      × ((absorb now d c tokens).1.tree_root ≡ d.tree_root)
unfolding absorb
absorb_full now d c tokens h =
    let counted : LogCluster = record c { size = c.size + 1; updated = now } in
    let d' : Drain3 = record d { clusters = store_cluster counted d.clusters } in
    let u = update_template_full d' counted tokens h in
    (
      rw u.0 (rw (eq_refl (join " " c.log_template)) refl),
      u.2 ∙ length-store_cluster counted d.clusters,
      u.1,
    )

add_tokens-found :
    (now : ℕ) (d : Drain3) (tokens : List String)
    → is_empty tokens ≡ false
    → tree_search d tokens ≡ none
    → add_tokens now d tokens ≡ found now d tokens
unfolding add_tokens
add_tokens-found now d tokens ne h = rw (ne, h, add_tokens) (ground arith)

add_tokens-absorb :
    (now : ℕ) (d : Drain3) (tokens : List String) (c : LogCluster)
    → is_empty tokens ≡ false
    → tree_search d tokens ≡ some c
    → add_tokens now d tokens ≡ absorb now d c tokens
unfolding add_tokens
add_tokens-absorb now d tokens c ne h = rw (ne, h, add_tokens) (ground arith)

length-nonempty : (tokens : List String) → is_empty tokens ≡ false → 0 < length tokens
length-nonempty [] h = cc
length-nonempty (t ∷ ts) h = omega arith

-- Once a message has founded a cluster, the same message finds a cluster whose template matches it
-- in every token.
search_after_found :
    (now : ℕ) (d : Drain3) (tokens : List String)
    → IsNumbered d
    → AtMostOne d.config.sim_threshold
    → is_empty tokens ≡ false
    → (c : LogCluster) × (tree_search (found now d tokens).1 tokens ≡ some c)
      × (count_matches c.log_template tokens ≡ length c.log_template)
unfolding found create_cluster add_cluster_to_tree
search_after_found now d tokens v t ne =
    let d' = (found now d tokens).1 in
    let l = find_leaf-found now d tokens in
    let pos = length-nonempty tokens ne in
    let s = similarity_self tokens in
    let b =
      tree_search_best d' tokens l.0 (d.cluster_id + 1) (founder now d tokens) ne l.1 l.2
        (find_cluster-found now d tokens v) (near_self tokens d.config.sim_threshold t)
        (rw s pos) in
    (b.0, b.1, full-template (b.0).log_template tokens pos (rw s at b.3))

-- A message that founds a cluster is absorbed when it comes again: with ids in order and a threshold
-- of at most one, the second call reports a cluster whose size alone changed, makes no cluster and
-- leaves the tree as it is.
pub repeat_absorbed :
    (now later : ℕ) (d : Drain3) (tokens : List String)
    → IsNumbered d
    → AtMostOne d.config.sim_threshold
    → is_empty tokens ≡ false
    → tree_search d tokens ≡ none
    → let d' = (add_tokens now d tokens).1 in
      let r = add_tokens later d' tokens in
      ((r.0).change_type ≡ cluster_size_changed)
      × (length (r.1).clusters ≡ length d'.clusters)
      × ((r.1).tree_root ≡ d'.tree_root)
repeat_absorbed now later d tokens v t ne h =
    let again = search_after_found now d tokens v t ne in
    rw (add_tokens-found now d tokens ne h) (
      rw (add_tokens-absorb later (found now d tokens).1 tokens again.0 ne again.1)
        (absorb_full later (found now d tokens).1 again.0 tokens again.2))
