-- ===== src/Cli/Learning.antt =====
-- How many clusters the command learn of cmd/logsieve/main.go makes rules of.
use logsieve.Prelude.{
  ℕ, zero, suc, ◌+◌, ◌≤◌, ◌<◌, min, List, [], ◌∷◌, map, length, take, sum, ◌≡◌, arith,
}
use logsieve.Dedup.Drain.{LogCluster}
use logsieve.Cli.{choose}

abbrev pub messages : List LogCluster → ℕ
messages cs = sum (map (λ c. c.size) cs)

choose_from :
    (target : ℕ) (cs : List LogCluster) (covered n : ℕ)
    → let r = choose target cs covered in
      (r.0 ≡ take (length r.0) cs)
      × (r.1 ≡ covered + messages r.0)
      × (n < length r.0 → covered + messages (take n cs) < target)
unfolding choose
choose_from target [] covered n = ground arith
choose_from target (c ∷ cs) covered zero =
    ground (arith, choose_from target cs (covered + c.size) 0)
choose_from target (c ∷ cs) covered (suc n) =
    ground (arith, choose_from target cs (covered + c.size) n)

-- The rules cover enough: those of learn are the first of the top clusters, the coverage is how many
-- messages these have, and it reaches the target, or all messages of the clusters where these are
-- fewer.
pub choose_covers :
    (target : ℕ) (cs : List LogCluster)
    → let r = choose target cs 0 in
      (r.0 ≡ take (length r.0) cs) × (r.1 ≡ messages r.0) × (min target (messages cs) ≤ r.1)
unfolding choose
choose_covers target cs =
    let r = choose_from target cs 0 0 in
    (r.0, ground (arith, r), ground (arith, enough target cs 0))
  where
    enough :
        (target : ℕ) (cs : List LogCluster) (covered : ℕ)
        → min target (covered + messages cs) ≤ (choose target cs covered).1
    enough target [] covered = omega arith
    enough target (c ∷ cs) covered = ground (arith, enough target cs (covered + c.size))

-- No fewer of the first clusters would reach the target.
pub choose_is_least :
    (target : ℕ) (cs : List LogCluster) (n : ℕ)
    → n < length (choose target cs 0).0
    → messages (take n cs) < target
choose_is_least target cs n h = ground (arith, h, choose_from target cs 0 n)
