-- ===== src/Dedup/Drain/Search.antt =====
-- The search of a leaf in pkg/dedup/drain3.go: what the loop of treeSearch returns, and that
-- nothing at the leaf is nearer to the message.
use logsieve.Prelude.{
  ℕ, ◌*◌, ◌≤◌, ◌<◌, String, Bool, true, false, ◌&&◌, List, [], ◌∷◌, Option, none, some,
  if◌then◌else◌, length, has_number, ◌≡◌, refl, sym, ◌∙◌, ◌⊎◌, inl, inr, arith, Option-cases,
}
use logsieve.Dedup.Drain.Tree.{Node, clusters_of}
use logsieve.Dedup.Drain.{
  Drain3, Ratio, ratio_ge, ratio_gt, zero_ratio, LogCluster, calculate_similarity, best_match,
  find_cluster, is_empty, find_leaf, tree_search,
}

pub find_cluster_id :
    (id : ℕ) (store : List LogCluster) (c : LogCluster)
    → find_cluster id store ≡ some c
    → c.cluster_id ≡ id
unfolding find_cluster
find_cluster_id id [] c h = cc
find_cluster_id id (x ∷ xs) c h = ground (arith, find_cluster_id id xs c)

-- A cluster of the store, as near as the threshold asks.
pub record IsCandidate (threshold : Ratio) (store : List LogCluster) (tokens : List String)
    (c : LogCluster) : Type 0 where
  pub stored : find_cluster c.cluster_id store ≡ some c
  pub near : ratio_ge (calculate_similarity c.log_template tokens) threshold ≡ true

abbrev similarity_of : LogCluster → List String → Ratio
similarity_of c tokens = calculate_similarity c.log_template tokens

abbrev improves : Ratio → Ratio → Ratio → Bool
improves threshold s best = ratio_gt s best && ratio_ge s threshold

-- One round of the loop, for a cluster that is in the store.
best_match-cons :
    (thr : Ratio) (store : List LogCluster) (tokens : List String) (id : ℕ) (ids : List ℕ)
    (best : Option LogCluster) (sim : Ratio) (x : LogCluster)
    → find_cluster id store ≡ some x
    → best_match thr store tokens (id ∷ ids) best sim ≡ (
        if improves thr (similarity_of x tokens) sim
        then best_match thr store tokens ids (some x) (similarity_of x tokens)
        else best_match thr store tokens ids best sim)
unfolding best_match
best_match-cons thr store tokens id ids best sim x e = rw (e, best_match) (ground arith)

best_match-skip :
    (thr : Ratio) (store : List LogCluster) (tokens : List String) (id : ℕ) (ids : List ℕ)
    (best : Option LogCluster) (sim : Ratio)
    → find_cluster id store ≡ none
    → best_match thr store tokens (id ∷ ids) best sim ≡ best_match thr store tokens ids best sim
unfolding best_match
best_match-skip thr store tokens id ids best sim e = rw (e, best_match) refl

pub best_match-IsCandidate :
    (thr : Ratio) (store : List LogCluster) (tokens : List String) (ids : List ℕ)
    (best : Option LogCluster) (sim : Ratio) (c : LogCluster)
    → best_match thr store tokens ids best sim ≡ some c
    → ((best ≡ some c) ⊎ IsCandidate thr store tokens c)
best_match-IsCandidate thr store tokens [] best sim c h = inl (unfold best_match in h)
best_match-IsCandidate thr store tokens (id ∷ ids) best sim c h =
    elim (Option-cases (find_cluster id store)) [
      | inl e ↦
          best_match-IsCandidate thr store tokens ids best sim c
            (rw (best_match-skip thr store tokens id ids best sim e) at h)
      | inr (x, e) ↦ ground (
        arith,
        best_match-cons thr store tokens id ids best sim x e,
        best_match-IsCandidate thr store tokens ids best sim c,
        best_match-IsCandidate thr store tokens ids (some x) (similarity_of x tokens) c,
        find_cluster_id id store x e,
      )
    ]

shape :
    (t k : List String)
    → (calculate_similarity t k ≡ zero_ratio) ⊎ ((calculate_similarity t k).den ≡ length k)
unfolding calculate_similarity
shape t k = ground arith

mul_cancel : (a b n : ℕ) → 0 < n → a * n ≤ b * n → a ≤ b
mul_cancel a b n p h = grind arith

abbrev HasShape : ℕ → Ratio → Type 0
HasShape n s = (s ≡ zero_ratio) ⊎ (s.den ≡ n)

not_gt-le :
    (n : ℕ) (s best : Ratio)
    → 0 < n
    → HasShape n s
    → HasShape n best
    → ratio_gt s best ≡ false
    → s.num ≤ best.num
not_gt-le n s best p (inl e) q h = ground arith
not_gt-le n s best p (inr e) (inl f) h = ground arith
not_gt-le n s best p (inr e) (inr f) h = mul_cancel s.num best.num n p (ground arith)

gt-le :
    (n : ℕ) (s best : Ratio)
    → 0 < n
    → HasShape n s
    → HasShape n best
    → ratio_gt s best ≡ true
    → best.num ≤ s.num
gt-le n s best p q (inl f) h = ground arith
gt-le n s best p (inl e) (inr f) h = ground arith
gt-le n s best p (inr e) (inr f) h = mul_cancel best.num s.num n p (ground arith)

-- The matching tokens of the result.
abbrev pub best_num : List String → Option LogCluster → ℕ
best_num tokens none = 0
best_num tokens (some c) = (similarity_of c tokens).num

module _ (thr : Ratio) (store : List LogCluster) (tokens : List String)
    (p : 0 < length tokens) where
  best_match-keeps :
      (ids : List ℕ) (best : Option LogCluster) (sim : Ratio)
      → sim.num ≡ best_num tokens best
      → HasShape (length tokens) sim
      → best_num tokens best ≤ best_num tokens (best_match thr store tokens ids best sim)
  best_match-keeps [] best sim n s = unfold best_match in omega arith
  best_match-keeps (id ∷ ids) best sim n s = elim (Option-cases (find_cluster id store)) [
    | inl e ↦
        rw (best_match-skip thr store tokens id ids best sim e) (best_match-keeps ids best sim n s)
    | inr (x, e) ↦
        let shape_x = shape x.log_template tokens in
        ground (
          arith,
          best_match-cons thr store tokens id ids best sim x e,
          best_match-keeps ids (some x) (similarity_of x tokens) refl shape_x,
          best_match-keeps ids best sim n s,
          gt-le (length tokens) (similarity_of x tokens) sim p shape_x s,
        )
  ]

  -- No cluster of the leaf that is near enough matches more tokens than the one returned.
  pub best_match_optimal :
      (ids : List ℕ) (best : Option LogCluster) (sim : Ratio) (id : ℕ) (c : LogCluster)
      → sim.num ≡ best_num tokens best
      → HasShape (length tokens) sim
      → has_number id ids ≡ true
      → find_cluster id store ≡ some c
      → ratio_ge (similarity_of c tokens) thr ≡ true
      → (similarity_of c tokens).num ≤ best_num tokens (best_match thr store tokens ids best sim)
  best_match_optimal [] best sim id c n s h f g = cc
  best_match_optimal (i ∷ ids) best sim id c n s h f g =
      elim (Option-cases (find_cluster i store)) [
        | inl e ↦
            rw (best_match-skip thr store tokens i ids best sim e)
              (best_match_optimal ids best sim id c n s (ground arith) f g)
        | inr (x, e) ↦
            let shape_x = shape x.log_template tokens in
            ground (
              arith,
              best_match-cons thr store tokens i ids best sim x e,
              best_match_optimal ids (some x) (similarity_of x tokens) id c refl shape_x,
              best_match_optimal ids best sim id c n s,
              best_match-keeps ids (some x) (similarity_of x tokens) refl shape_x,
              best_match-keeps ids best sim n s,
              gt-le (length tokens) (similarity_of x tokens) sim p shape_x s,
              not_gt-le (length tokens) (similarity_of x tokens) sim p shape_x s,
            )
      ]

filled : (tokens : List String) → is_empty tokens ≡ false → 0 < length tokens
filled [] h = cc
filled (t ∷ ts) h = omega arith

none_best :
    (tokens : List String) (r : Option LogCluster) (n : ℕ)
    → r ≡ none
    → 0 < n
    → n ≤ best_num tokens r
    → ⊥
none_best tokens none n e p h = omega arith
none_best tokens (some c) n e p h = cc

pub tree_search-leaf :
    (d : Drain3) (tokens : List String) (leaf : Node)
    → is_empty tokens ≡ false
    → find_leaf d tokens ≡ some leaf
    → tree_search d tokens
      ≡ best_match d.config.sim_threshold d.clusters tokens (clusters_of leaf) none zero_ratio
unfolding tree_search
tree_search-leaf d tokens leaf ne l = ground arith

pub tree_search-IsCandidate :
    (d : Drain3) (tokens : List String) (c : LogCluster)
    → tree_search d tokens ≡ some c
    → IsCandidate d.config.sim_threshold d.clusters tokens c
unfolding tree_search
tree_search-IsCandidate d [] c h = cc
tree_search-IsCandidate d (t ∷ ts) c h = elim (Option-cases (find_leaf d (t ∷ ts))) [
  | inl e ↦ ground arith
  | inr (leaf, e) ↦
      elim (best_match-IsCandidate _ _ _ (clusters_of leaf) none zero_ratio c
        (sym (tree_search-leaf d (t ∷ ts) leaf refl e) ∙ h)) [ inl f ↦ cc | inr g ↦ g ]
]

-- What treeSearch finds is a stored cluster within the threshold, and among the stored clusters of
-- the leaf that are within the threshold none matches more tokens.
pub tree_search_best :
    (d : Drain3) (tokens : List String) (leaf : Node) (id : ℕ) (c : LogCluster)
    → is_empty tokens ≡ false
    → find_leaf d tokens ≡ some leaf
    → has_number id (clusters_of leaf) ≡ true
    → find_cluster id d.clusters ≡ some c
    → ratio_ge (similarity_of c tokens) d.config.sim_threshold ≡ true
    → 0 < (similarity_of c tokens).num
    → (best : LogCluster) × (tree_search d tokens ≡ some best)
      × IsCandidate d.config.sim_threshold d.clusters tokens best
      × ((similarity_of c tokens).num ≤ (similarity_of best tokens).num)
unfolding tree_search
tree_search_best d tokens leaf id c ne l m f g pos =
    let r =
      best_match d.config.sim_threshold d.clusters tokens (clusters_of leaf) none zero_ratio in
    let nearest =
      best_match_optimal d.config.sim_threshold d.clusters tokens (filled tokens ne)
        (clusters_of leaf) none zero_ratio id c refl (inl refl) m f g in
    let found = tree_search-leaf d tokens leaf ne l in
    elim (Option-cases r) [
      | inl e ↦ absurd (none_best tokens r _ e pos nearest)
      | inr (b, e) ↦ (b, found ∙ e, tree_search-IsCandidate d tokens b (found ∙ e), rw e at nearest)
    ]
