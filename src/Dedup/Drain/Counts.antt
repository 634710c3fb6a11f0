-- ===== src/Dedup/Drain/Counts.antt =====
-- Conservation in pkg/dedup/drain3.go: cluster sizes, ids and counts under AddLogMessage.
use logsieve.Prelude.{
  ℕ, ◌+◌, ◌≤◌, String, Bool, true, false, List, [], ◌∷◌, ◌++◌, none, some, length, length-append,
  ◌≡◌, refl, sym, ◌∙◌, ◌⊎◌, inl, inr, arith, Option-cases, All,
}
use logsieve.Dedup.Drain.{
  Drain3, LogCluster, ChangeType, no_change, cluster_created, find_cluster, store_cluster, is_empty,
  tree_search, create_cluster, add_cluster_to_tree, update_template, add_wildcard_path_for_cluster,
  absorb, found, add_tokens, total_size, reset,
}
use logsieve.Dedup.Drain.Search.{tree_search-IsCandidate}

pub length-store_cluster :
    (new : LogCluster) (cs : List LogCluster) → length (store_cluster new cs) ≡ length cs
unfolding store_cluster
length-store_cluster new [] = refl
length-store_cluster new (c ∷ cs) = ground (arith, length-store_cluster new cs)

pub find_cluster-store_cluster :
    (new : LogCluster) (cs : List LogCluster) (old : LogCluster)
    → find_cluster new.cluster_id cs ≡ some old
    → find_cluster new.cluster_id (store_cluster new cs) ≡ some new
unfolding store_cluster find_cluster
find_cluster-store_cluster new [] old h = cc
find_cluster-store_cluster new (c ∷ cs) old h =
    ground (arith, find_cluster-store_cluster new cs old)

total_size-store_cluster :
    (new : LogCluster) (cs : List LogCluster) (old : LogCluster)
    → find_cluster new.cluster_id cs ≡ some old
    → total_size (store_cluster new cs) + old.size ≡ total_size cs + new.size
unfolding store_cluster find_cluster
total_size-store_cluster new [] old h = cc
total_size-store_cluster new (c ∷ cs) old h = ground (arith, total_size-store_cluster new cs old)

total_size-append :
    (xs ys : List LogCluster) → total_size (xs ++ ys) ≡ total_size xs + total_size ys
total_size-append [] ys = omega arith
total_size-append (x ∷ xs) ys = omega (arith, total_size-append xs ys)

-- The clusters and the counter after an update of a template.
clusters-update_template :
    (d : Drain3) (c : LogCluster) (tokens : List String)
    → find_cluster c.cluster_id d.clusters ≡ some c
    → let u = update_template d c tokens in
      (total_size (u.0).clusters ≡ total_size d.clusters)
      × (length (u.0).clusters ≡ length d.clusters)
      × ((u.0).cluster_id ≡ d.cluster_id)
      × ((u.1).size ≡ c.size)
      × ((u.1).cluster_id ≡ c.cluster_id)
unfolding update_template add_wildcard_path_for_cluster
clusters-update_template d c tokens h =
    let new = (update_template d c tokens).1 in
    ground (arith, total_size-store_cluster new d.clusters c, length-store_cluster new d.clusters)

pub clusters-absorb :
    (now : ℕ) (d : Drain3) (c : LogCluster) (tokens : List String)
    → find_cluster c.cluster_id d.clusters ≡ some c
    → let a = absorb now d c tokens in
      (total_size (a.1).clusters ≡ total_size d.clusters + 1)
      × (length (a.1).clusters ≡ length d.clusters)
      × ((a.1).cluster_id ≡ d.cluster_id)
      × ((a.0).cluster_count ≡ length d.clusters)
      × ((a.0).cluster_size ≡ c.size + 1)
      × ((a.0).cluster_id ≡ c.cluster_id)
unfolding absorb
clusters-absorb now d c tokens h =
    let counted : LogCluster = record c { size = c.size + 1; updated = now } in
    let d' : Drain3 = record d { clusters = store_cluster counted d.clusters } in
    ground (
      arith,
      find_cluster-store_cluster counted d.clusters c h,
      clusters-update_template d' counted tokens,
      total_size-store_cluster counted d.clusters c h,
      length-store_cluster counted d.clusters,
    )

pub clusters-found :
    (now : ℕ) (d : Drain3) (tokens : List String)
    → let a = found now d tokens in
      (total_size (a.1).clusters ≡ total_size d.clusters + 1)
      × (length (a.1).clusters ≡ length d.clusters + 1)
      × ((a.1).cluster_id ≡ d.cluster_id + 1)
      × ((a.0).cluster_count ≡ length d.clusters + 1)
      × ((a.0).cluster_size ≡ 1)
      × ((a.0).cluster_id ≡ d.cluster_id + 1)
unfolding found create_cluster add_cluster_to_tree
clusters-found now d tokens =
    let c : LogCluster = record {
      cluster_id = d.cluster_id + 1;
      log_template = tokens;
      size = 1;
      created = now;
      updated = now;
    } in
    ground (arith, total_size-append d.clusters (c ∷ []), length-append d.clusters (c ∷ []))

-- The three ways of AddLogMessage: no tokens, a cluster found, none found.
pub add_tokens_cases :
    (now : ℕ) (d : Drain3) (tokens : List String)
    → ((is_empty tokens ≡ true)
        × ((add_tokens now d tokens).1 ≡ d)
        × ((add_tokens now d tokens).0.change_type ≡ no_change)
        × ((add_tokens now d tokens).0.cluster_count ≡ length d.clusters))
      ⊎ ((is_empty tokens ≡ false)
          × (((c : LogCluster) × (tree_search d tokens ≡ some c)
                × (add_tokens now d tokens ≡ absorb now d c tokens))
              ⊎ ((tree_search d tokens ≡ none) × (add_tokens now d tokens ≡ found now d tokens))))
unfolding add_tokens
add_tokens_cases now d [] = inl (refl, refl, refl, refl)
add_tokens_cases now d (t ∷ ts) = elim (Option-cases (tree_search d (t ∷ ts))) [
  | inl e ↦ inr (refl, inr (e, rw (e, add_tokens) refl))
  | inr (c, e) ↦ inr (refl, inl (c, e, rw (e, add_tokens) refl))
]

abbrev pub created_count : ChangeType → ℕ
created_count cluster_created = 1
created_count _ = 0

pub change_type-absorb :
    (now : ℕ) (d : Drain3) (c : LogCluster) (tokens : List String)
    → created_count (absorb now d c tokens).0.change_type ≡ 0
unfolding absorb
change_type-absorb now d c tokens = ground arith

pub change_type-found :
    (now : ℕ) (d : Drain3) (tokens : List String)
    → created_count (found now d tokens).0.change_type ≡ 1
unfolding found
change_type-found now d tokens = refl

abbrev pub one_unless : Bool → ℕ
one_unless true = 0
one_unless false = 1

-- Every message that has tokens is counted in exactly one cluster, the number of clusters grows
-- exactly when a cluster is reported as created, and the reported count is that of the clusters
-- after the call.
pub add_tokens_counts :
    (now : ℕ) (d : Drain3) (tokens : List String)
    → let r = add_tokens now d tokens in
      (total_size (r.1).clusters ≡ total_size d.clusters + one_unless (is_empty tokens))
      × (length (r.1).clusters ≡ length d.clusters + created_count (r.0).change_type)
      × ((r.0).cluster_count ≡ length (r.1).clusters)
add_tokens_counts now d tokens = elim (add_tokens_cases now d tokens) [
  | inl (e, same, kind, count) ↦ ground arith
  | inr (e, inl (c, s, r)) ↦ ground (
    arith,
    clusters-absorb now d c tokens (tree_search-IsCandidate d tokens c s).stored,
    change_type-absorb now d c tokens,
  )
  | inr (e, inr (s, r)) ↦
      ground (arith, clusters-found now d tokens, change_type-found now d tokens)
]

-- Ids are handed out in order and no cluster is ever taken away.
pub record IsNumbered (d : Drain3) : Type 0 where
  pub below : All (λ c. c.cluster_id ≤ d.cluster_id) d.clusters
  pub counted : length d.clusters ≡ d.cluster_id

abbrev BelowAll : ℕ → List LogCluster → Type 0
BelowAll n = All (λ c. c.cluster_id ≤ n)

BelowAll-append_one :
    (n : ℕ) (cs : List LogCluster) (c : LogCluster)
    → BelowAll n cs
    → c.cluster_id ≤ n + 1
    → BelowAll (n + 1) (cs ++ c ∷ [])
BelowAll-append_one n [] c h k = (k, tt)
BelowAll-append_one n (x ∷ cs) c h k = (omega arith, BelowAll-append_one n cs c h.1 k)

BelowAll-store_cluster :
    (n : ℕ) (new : LogCluster) (cs : List LogCluster)
    → BelowAll n cs
    → BelowAll n (store_cluster new cs)
unfolding store_cluster
BelowAll-store_cluster n new [] h = tt
BelowAll-store_cluster n new (x ∷ cs) h = ground (arith, BelowAll-store_cluster n new cs h.1)

BelowAll-update_template :
    (n : ℕ) (d : Drain3) (c : LogCluster) (tokens : List String)
    → BelowAll n d.clusters
    → BelowAll n (update_template d c tokens).0.clusters
unfolding update_template add_wildcard_path_for_cluster
BelowAll-update_template n d c tokens h =
    ground (arith, BelowAll-store_cluster n (update_template d c tokens).1 d.clusters h)

BelowAll-absorb :
    (now n : ℕ) (d : Drain3) (c : LogCluster) (tokens : List String)
    → BelowAll n d.clusters
    → BelowAll n (absorb now d c tokens).1.clusters
unfolding absorb
BelowAll-absorb now n d c tokens h =
    BelowAll-update_template n _ _ tokens
      (BelowAll-store_cluster n (record c { size = c.size + 1; updated = now }) d.clusters h)

-- AddLogMessage keeps the ids of the clusters at most the counter and the counter equal to their
-- number, so that a fresh id is in use nowhere.
pub add_tokens-IsNumbered :
    (now : ℕ) (d : Drain3) (tokens : List String)
    → IsNumbered d
    → IsNumbered (add_tokens now d tokens).1
add_tokens-IsNumbered now d tokens v = elim (add_tokens_cases now d tokens) [
  | inl (e, same, kind, count) ↦ rw same v
  | inr (e, inl (c, s, r)) ↦
      let k = clusters-absorb now d c tokens (tree_search-IsCandidate d tokens c s).stored in
      rw r (record {
        below = rw k.2 (BelowAll-absorb now d.cluster_id d c tokens v.below);
        counted = k.1 ∙ (v.counted ∙ sym k.2);
      })
  | inr (e, inr (s, r)) ↦
      let k = clusters-found now d tokens in
      rw r (record {
        below =
            unfold found create_cluster add_cluster_to_tree in
            BelowAll-append_one d.cluster_id d.clusters _ v.below (omega arith);
        counted = omega (arith, k.1, k.2, v.counted);
      })
]

pub reset-IsNumbered : (d : Drain3) → IsNumbered (reset d)
unfolding reset
reset-IsNumbered d = record { below = tt; counted = refl }
