-- ===== src/Dedup/Drain/Similarity.antt =====
-- Templates and tokens in pkg/dedup/drain3.go: what generalising a template does to what it
-- matches, and what the search of a leaf returns.
use logsieve.Prelude.{
  suc, ◌≤◌, String, true, false, not, ◌&&◌, List, [], ◌∷◌, str_eq, length, ◌≡◌, refl, ap, inl, inr,
  arith, eq_refl, Bool-cases,
}
use logsieve.Dedup.Drain.{
  wildcard, token_matches, count_matches, calculate_similarity, generalize_token, generalize,
  changes,
}

token_matches-generalize_token_self : (t k : String) → token_matches (generalize_token t k) k ≡ true
unfolding generalize_token
token_matches-generalize_token_self t k = elim (Bool-cases (str_eq t k)) [
  | inl e ↦ rw e (rw e refl)
  | inr e ↦ elim (Bool-cases (str_eq t wildcard)) [
    | inl w ↦ rw (e, w) (rw (e, w) refl)
    | inr w ↦ rw (e, w) (ground (arith, eq_refl wildcard))
  ]
]

token_matches-generalize_token :
    (t k j : String) → token_matches t j ≡ true → token_matches (generalize_token t k) j ≡ true
unfolding generalize_token
token_matches-generalize_token t k j h =
    elim (Bool-cases (not (str_eq t k) && not (str_eq t wildcard))) [
      | inl e ↦ rw e (ground (arith, eq_refl wildcard))
      | inr e ↦ rw e h
    ]

generalize_token_matching : (t k : String) → token_matches t k ≡ true → generalize_token t k ≡ t
unfolding generalize_token
generalize_token_matching t k h = ground arith

pub length-generalize : (t k : List String) → length (generalize t k) ≡ length t
unfolding generalize
length-generalize [] k = refl
length-generalize (t ∷ ts) [] = refl
length-generalize (t ∷ ts) (k ∷ ks) = ap suc (length-generalize ts ks)

pub count_matches-le : (t k : List String) → count_matches t k ≤ length t
unfolding count_matches
count_matches-le [] k = omega arith
count_matches-le (t ∷ ts) [] = omega arith
count_matches-le (t ∷ ts) (k ∷ ks) = ground (arith, count_matches-le ts ks)

pub count_matches_self : (t : List String) → count_matches t t ≡ length t
unfolding count_matches
count_matches_self [] = refl
count_matches_self (t ∷ ts) = ground (arith, eq_refl t, count_matches_self ts)

-- After the update the template matches the message in every token.
pub count_matches-generalize_self :
    (t k : List String) → length t ≡ length k → count_matches (generalize t k) k ≡ length t
unfolding count_matches generalize
count_matches-generalize_self [] k h = refl
count_matches-generalize_self (t ∷ ts) [] h = absurd (omega arith)
count_matches-generalize_self (t ∷ ts) (k ∷ ks) h = ground (
  arith,
  token_matches-generalize_token_self t k,
  count_matches-generalize_self ts ks (omega arith),
)

pub count_matches-generalize_le :
    (t k j : List String) → count_matches t j ≤ count_matches (generalize t k) j
unfolding count_matches generalize
count_matches-generalize_le [] k j = omega arith
count_matches-generalize_le (t ∷ ts) [] j = omega arith
count_matches-generalize_le (t ∷ ts) (k ∷ ks) [] = omega arith
count_matches-generalize_le (t ∷ ts) (k ∷ ks) (j ∷ js) =
    ground (arith, token_matches-generalize_token t k j, count_matches-generalize_le ts ks js)

-- A template that matches every token is left as it is.
pub generalize_full :
    (t k : List String)
    → count_matches t k ≡ length t
    → (generalize t k ≡ t) × (changes t k ≡ false)
unfolding count_matches generalize changes
generalize_full [] k h = (refl, refl)
generalize_full (t ∷ ts) [] h = absurd (omega arith)
generalize_full (t ∷ ts) (k ∷ ks) h =
    ground (arith, generalize_token_matching t k, count_matches-le ts ks, generalize_full ts ks)

-- When a message joins a cluster with as many tokens, the updated template has full similarity to
-- the message, and its similarity to any message of that length is at least what it was.
pub generalize_covers :
    (template tokens other : List String)
    → length template ≡ length tokens
    → length other ≡ length tokens
    → ((calculate_similarity (generalize template tokens) tokens).num ≡ length tokens)
      × ((calculate_similarity (generalize template tokens) tokens).den ≡ length tokens)
      × ((calculate_similarity template other).num
          ≤ (calculate_similarity (generalize template tokens) other).num)
      × ((calculate_similarity (generalize template tokens) other).den
          ≡ (calculate_similarity template other).den)
unfolding calculate_similarity
generalize_covers t k j h e = ground (
  arith,
  length-generalize t k,
  count_matches-generalize_self t k,
  count_matches-generalize_le t k j,
)
