-- ===== src/Dedup/Drain/Members.antt =====
-- pkg/dedup/drain3.go: every cluster has a positive id and holds a message.
use logsieve.Prelude.{
  ℕ, ◌+◌, ◌≤◌, String, List, [], ◌∷◌, ◌++◌, none, some, ◌≡◌, refl, inl, inr, arith, All,
}
use logsieve.Dedup.Drain.{
  Drain3, LogCluster, find_cluster, store_cluster, update_template, add_wildcard_path_for_cluster,
  absorb, found, create_cluster, add_cluster_to_tree, add_tokens, generalize,
}
use logsieve.Dedup.Drain.Search.{tree_search-IsCandidate}
use logsieve.Dedup.Drain.Counts.{add_tokens_cases, find_cluster-store_cluster}

abbrev pub IsMember : LogCluster → Type 0
IsMember c = (1 ≤ c.cluster_id) × (1 ≤ c.size)

abbrev pub IsPopulated : Drain3 → Type 0
IsPopulated d = All IsMember d.clusters

All-store_cluster :
    (new : LogCluster) (cs : List LogCluster)
    → IsMember new
    → All IsMember cs
    → All IsMember (store_cluster new cs)
unfolding store_cluster
All-store_cluster new [] p h = tt
All-store_cluster new (c ∷ cs) p h = ground (arith, All-store_cluster new cs p h.1)

All-append_one :
    (cs : List LogCluster) (c : LogCluster)
    → All IsMember cs
    → IsMember c
    → All IsMember (cs ++ c ∷ [])
All-append_one [] c h p = (p, tt)
All-append_one (x ∷ cs) c h p = (h.0, All-append_one cs c h.1 p)

pub IsMember-of :
    (id : ℕ) (cs : List LogCluster) (c : LogCluster)
    → All IsMember cs
    → find_cluster id cs ≡ some c
    → IsMember c
unfolding find_cluster
IsMember-of id [] c h e = cc
IsMember-of id (x ∷ cs) c h e = ground (arith, IsMember-of id cs c h.1)

update_template-IsPopulated :
    (d : Drain3) (c : LogCluster) (tokens : List String)
    → IsMember c
    → IsPopulated d
    → IsPopulated (update_template d c tokens).0
unfolding update_template add_wildcard_path_for_cluster
update_template-IsPopulated d c tokens p h = ground (
  arith,
  All-store_cluster (record c { log_template = generalize c.log_template tokens }) d.clusters p h,
)

-- AddLogMessage keeps every id and every size positive.
pub add_tokens-IsPopulated :
    (now : ℕ) (d : Drain3) (tokens : List String)
    → IsPopulated d
    → IsPopulated (add_tokens now d tokens).1
unfolding absorb found create_cluster add_cluster_to_tree
add_tokens-IsPopulated now d tokens h = elim (add_tokens_cases now d tokens) [
  | inl (e, same, kind, count) ↦ rw same h
  | inr (e, inl (c, s, r)) ↦
      let p =
        IsMember-of c.cluster_id d.clusters c h (tree_search-IsCandidate d tokens c s).stored in
      let counted : LogCluster = record c { size = c.size + 1; updated = now } in
      rw r (
        update_template-IsPopulated (record d { clusters = store_cluster counted d.clusters })
          counted tokens (p.0, omega arith)
          (All-store_cluster counted d.clusters (p.0, omega arith) h))
  | inr (e, inr (s, r)) ↦ rw r (All-append_one d.clusters _ h (omega arith, omega arith))
]

-- The cluster that a message has joined is stored with its new size under its id.
find_cluster-update_template :
    (d : Drain3) (c : LogCluster) (tokens : List String)
    → find_cluster c.cluster_id d.clusters ≡ some c
    → (x : LogCluster) × (find_cluster c.cluster_id (update_template d c tokens).0.clusters
        ≡ some x)
      × (x.size ≡ c.size)
unfolding update_template add_wildcard_path_for_cluster
find_cluster-update_template d c tokens h =
    let new = (update_template d c tokens).1 in
    (new, ground (arith, find_cluster-store_cluster new d.clusters c), ground arith)

pub find_cluster-absorb :
    (now : ℕ) (d : Drain3) (c : LogCluster) (tokens : List String)
    → find_cluster c.cluster_id d.clusters ≡ some c
    → (x : LogCluster) × (find_cluster c.cluster_id (absorb now d c tokens).1.clusters ≡ some x)
      × (x.size ≡ c.size + 1)
unfolding absorb
find_cluster-absorb now d c tokens h =
    let counted : LogCluster = record c { size = c.size + 1; updated = now } in
    find_cluster-update_template (record d { clusters = store_cluster counted d.clusters }) counted
      tokens (find_cluster-store_cluster counted d.clusters c h)

no_zero : (cs : List LogCluster) → All IsMember cs → find_cluster 0 cs ≡ none
unfolding find_cluster
no_zero [] h = refl
no_zero (c ∷ cs) h = ground (arith, no_zero cs h.1)

pub find_cluster-zero : (d : Drain3) → IsPopulated d → find_cluster 0 d.clusters ≡ none
find_cluster-zero d h = no_zero d.clusters h
