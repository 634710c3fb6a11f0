-- ===== src/Dedup/Drain/Listing/Depth.antt =====
-- How deep the prefix tree of pkg/dedup/drain3.go gets.
use logsieve.Prelude.{
  ℕ, zero, suc, ◌+◌, ◌-◌, ◌≤◌, String, List, [], ◌∷◌, Option, none, some, str_eq, length, itoa, ◌≡◌,
  refl, subst, arith, Bool-cases, if_both, inl, inr,
}
use logsieve.Dedup.Drain.{
  Drain3, Ratio, MaskingRule, default_drain3_config, new_drain3, LogCluster, AddLogResult,
  create_cluster, add_cluster_to_tree, update_template, add_wildcard_path_for_cluster, generalize,
  absorb, found, is_empty, tree_search, tokenize, add_tokens, add_log_message,
}
use logsieve.Dedup.Drain.Runs.{mine}
use logsieve.Dedup.Drain.Tree.{
  Node, node, Children, nil, child, get_child, put_child, child_or_fresh, with_child, insert_at,
  add_path, keep_specific, insert_wildcard_at, add_wildcard_path,
}
use logsieve.Dedup.Drain.Listing.{stats, calculate_tree_depth, deepest}

module _ (bound : ℕ) where
  deepest-put_child :
      (current : ℕ) (key : String) (n : Node) (cs : Children)
      → deepest current cs ≤ bound
      → calculate_tree_depth (current + 1) n ≤ bound
      → deepest current (put_child key n cs) ≤ bound
  unfolding put_child deepest
  deepest-put_child current key n nil h b = ground (arith, h, b)
  deepest-put_child current key n (child k m rest) h b =
      ground (arith, h, b, deepest-put_child current key n rest)

  deepest-get_child :
      (current : ℕ) (key : String) (n : Node) (cs : Children)
      → deepest current cs ≤ bound
      → get_child key cs ≡ some n
      → calculate_tree_depth (current + 1) n ≤ bound
  unfolding get_child deepest
  deepest-get_child current key n nil h g = absurd (cc)
  deepest-get_child current key n (child k m rest) h g = elim (Bool-cases (str_eq k key)) [
    | inl e ↦
        let fits : calculate_tree_depth (current + 1) m ≤ bound = ground (arith, h) in
        let same : m ≡ n = ground (arith, g, e) in
        subst (λ x. calculate_tree_depth (current + 1) x ≤ bound) same fits
    | inr e ↦ deepest-get_child current key n rest (ground (arith, h)) (ground (arith, g, e))
  ]

  with_child-fits :
      (current : ℕ) (key : String) (m n : Node)
      → calculate_tree_depth current n ≤ bound
      → calculate_tree_depth (current + 1) m ≤ bound
      → calculate_tree_depth current (with_child key m n) ≤ bound
  unfolding calculate_tree_depth
  with_child-fits current key m (node cs ids d) h b = deepest-put_child current key m cs h b

  child_or_fresh-fits :
      (current depth : ℕ) (key : String) (n : Node)
      → calculate_tree_depth current n ≤ bound
      → current + 1 ≤ bound
      → calculate_tree_depth (current + 1) (child_or_fresh key depth n) ≤ bound
  unfolding calculate_tree_depth
  child_or_fresh-fits current depth key (node cs ids d) h l = by_child (get_child key cs) refl
    where
      by_child :
          (o : Option Node)
          → get_child key cs ≡ o
          → calculate_tree_depth (current + 1) (elim o [ none ↦ node nil [] depth | some m ↦ m ])
            ≤ bound
      by_child none e = l
      by_child (some m) e = deepest-get_child current key m cs h e

  insert_at-fits :
      (current k depth limit id : ℕ) (ts : List String) (n : Node)
      → calculate_tree_depth current n ≤ bound
      → current + k ≤ bound
      → calculate_tree_depth current (insert_at k depth limit id ts n) ≤ bound
  unfolding insert_at calculate_tree_depth
  insert_at-fits current zero depth limit id ts (node cs ids d) h l = h
  insert_at-fits current (suc k) depth limit id [] (node cs ids d) h l = h
  insert_at-fits current (suc k) depth limit id (t ∷ ts) n h l = with_child-fits current t _ n h (
      insert_at-fits (current + 1) k (depth + 1) limit id ts _
        (child_or_fresh-fits current (depth + 1) t n h (omega arith)) (omega arith))

  keep_specific-fits :
      (current depth : ℕ) (key : String) (n : Node)
      → calculate_tree_depth current n ≤ bound
      → current + 1 ≤ bound
      → calculate_tree_depth current (keep_specific key depth n) ≤ bound
  unfolding keep_specific
  keep_specific-fits current depth key n h l =
      if_both (λ m. calculate_tree_depth current m ≤ bound) (str_eq key "<*>") n _ h
        (with_child-fits current key _ n h (child_or_fresh-fits current depth key n h l))

  insert_wildcard_at-fits :
      (current k depth id : ℕ) (ts : List String) (n : Node)
      → calculate_tree_depth current n ≤ bound
      → current + k ≤ bound
      → calculate_tree_depth current (insert_wildcard_at k depth id ts n) ≤ bound
  unfolding insert_wildcard_at calculate_tree_depth
  insert_wildcard_at-fits current zero depth id ts (node cs ids d) h l = h
  insert_wildcard_at-fits current (suc k) depth id [] (node cs ids d) h l = h
  insert_wildcard_at-fits current (suc k) depth id (t ∷ ts) n h l =
      let kept = keep_specific-fits current (depth + 1) t n h (omega arith) in
      with_child-fits current "<*>" _ _ kept (
        insert_wildcard_at-fits (current + 1) k (depth + 1) id ts _
          (child_or_fresh-fits current (depth + 1) "<*>" _ kept (omega arith)) (omega arith))

  add_path-fits :
      (key : String) (levels limit id : ℕ) (ts : List String) (root : Node)
      → calculate_tree_depth 0 root ≤ bound
      → levels + 1 ≤ bound
      → calculate_tree_depth 0 (add_path key levels limit id ts root) ≤ bound
  unfolding add_path
  add_path-fits key levels limit id ts root h l = with_child-fits 0 key _ root h (
      insert_at-fits 1 levels 1 limit id ts _ (child_or_fresh-fits 0 1 key root h (omega arith))
        (omega arith))

  add_wildcard_path-fits :
      (key : String) (levels id : ℕ) (ts : List String) (root : Node)
      → calculate_tree_depth 0 root ≤ bound
      → levels + 1 ≤ bound
      → calculate_tree_depth 0 (add_wildcard_path key levels id ts root) ≤ bound
  unfolding add_wildcard_path
  add_wildcard_path-fits key levels id ts root h l = with_child-fits 0 key _ root h (
      insert_wildcard_at-fits 1 levels 1 id ts _ (child_or_fresh-fits 0 1 key root h (omega arith))
        (omega arith))

  abbrev pub IsShallow : Drain3 → Type 0
  IsShallow d =
      (d.config.max_node_depth - 1 + 1 ≤ bound) × (calculate_tree_depth 0 d.tree_root ≤ bound)

  update_template-IsShallow :
      (d : Drain3) (c : LogCluster) (ts : List String)
      → IsShallow d
      → IsShallow (update_template d c ts).0
  unfolding update_template add_wildcard_path_for_cluster
  update_template-IsShallow d c ts h =
      let new : LogCluster = record c { log_template = generalize c.log_template ts } in
      let wild =
        add_wildcard_path-fits (itoa (length new.log_template)) (d.config.max_node_depth - 1)
          new.cluster_id new.log_template d.tree_root h.1 h.0 in
      ground (arith, h, wild)

  add_tokens-IsShallow :
      (now : ℕ) (d : Drain3) (ts : List String) → IsShallow d → IsShallow (add_tokens now d ts).1
  unfolding add_tokens absorb found add_cluster_to_tree create_cluster
  add_tokens-IsShallow now d ts h =
      if_both (λ (r : AddLogResult × Drain3). IsShallow r.1) (is_empty ts) _ _ h
        (by_search (tree_search d ts))
    where
      by_search :
          (o : Option LogCluster)
          → let r : AddLogResult × Drain3 = elim o [
            | some cluster ↦ absorb now d cluster ts
            | none ↦ found now d ts
          ] in
            IsShallow r.1
      by_search none = (
        h.0,
        add_path-fits (itoa (length ts)) (d.config.max_node_depth - 1) d.config.max_children
            (d.cluster_id + 1) ts d.tree_root h.1 h.0,
      )
      by_search (some c) = update_template-IsShallow _ _ ts h

  mine-IsShallow : (d : Drain3) (ms : List (ℕ × String)) → IsShallow d → IsShallow (mine d ms)
  unfolding mine add_log_message
  mine-IsShallow d [] h = h
  mine-IsShallow d ((now, message) ∷ rest) h =
      mine-IsShallow (add_log_message now d message).1 rest
        (add_tokens-IsShallow now d (tokenize d message) h)

-- The prefix tree stays as deep as it is configured: whatever messages a new miner is given, the depth
-- that Stats reports is at most the maximal node depth of the default configuration.
pub tree_depth-mine :
    (threshold : Ratio) (rules : List MaskingRule) (ms : List (ℕ × String))
    → (stats (mine (new_drain3 threshold rules) ms)).tree_depth
      ≤ default_drain3_config.max_node_depth
unfolding stats new_drain3 calculate_tree_depth default_drain3_config
tree_depth-mine threshold rules ms =
    (mine-IsShallow 4 (new_drain3 threshold rules) ms (omega arith, omega arith)).1
