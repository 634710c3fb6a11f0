-- ===== src/Dedup/Drain/Tree/Paths.antt =====
-- Walks through the prefix tree of pkg/dedup/drain3.go after a cluster has been put into it.
use logsieve.Prelude.{
  ℕ, zero, suc, ◌+◌, String, true, List, [], ◌∷◌, ◌++◌, some, if◌then◌else◌, str_eq, has_number,
  ◌≡◌, refl, arith, eq_iff, eq_refl,
}
use logsieve.Dedup.Drain.Tree.{
  Node, node, Children, nil, child, clusters_of, descend, get_child, put_child, next_node, walk,
  attach, insert_at, child_or_fresh, with_child,
}

pub get_child-put_child :
    (k j : String) (n : Node) (cs : Children)
    → get_child j (put_child k n cs) ≡ (if str_eq k j then some n else get_child j cs)
unfolding get_child put_child
get_child-put_child k j n nil = refl
get_child-put_child k j n (child i m rest) =
    ground (arith, eq_iff k j, eq_iff i k, eq_iff i j, get_child-put_child k j n rest)

pub descend-with_child :
    (k j : String) (m n : Node)
    → descend j (with_child k m n) ≡ (if str_eq k j then some m else descend j n)
descend-with_child k j m (node cs ids depth) = get_child-put_child k j m cs

has_number-append : (id : ℕ) (ids : List ℕ) → has_number id (ids ++ id ∷ []) ≡ true
has_number-append id [] = ground arith
has_number-append id (x ∷ ids) = ground (arith, has_number-append id ids)

pub has_number-attach : (limit id : ℕ) (ids : List ℕ) → has_number id (attach limit id ids) ≡ true
unfolding attach
has_number-attach limit id [] = ground arith
has_number-attach limit id (x ∷ ids) = ground (arith, has_number-append id ids)

-- The tokens of a cluster that was put into the tree lead to a leaf that holds it.
pub walk-insert_at :
    (k depth limit id : ℕ) (tokens : List String) (n : Node)
    → (leaf : Node) × (walk k tokens (insert_at k depth limit id tokens n) ≡ some leaf)
      × (has_number id (clusters_of leaf) ≡ true)
unfolding walk insert_at next_node
walk-insert_at zero depth limit id tokens (node cs ids d) =
    (_, refl, has_number-attach limit id ids)
walk-insert_at (suc k) depth limit id [] (node cs ids d) = (_, refl, has_number-attach limit id ids)
walk-insert_at (suc k) depth limit id (t ∷ ts) n =
    let below = child_or_fresh t (depth + 1) n in
    let ih = walk-insert_at k (depth + 1) limit id ts below in
    (
      ih.0,
      ground (
        arith,
        ih.1,
        eq_refl t,
        descend-with_child t t (insert_at k (depth + 1) limit id ts below) n,
      ),
      ih.2,
    )
