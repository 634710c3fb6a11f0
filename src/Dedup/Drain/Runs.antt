-- ===== src/Dedup/Drain/Runs.antt =====
-- pkg/dedup/drain3.go over a stream of messages, and its inference mode.
use logsieve.Prelude.{
  ℕ, ◌+◌, ◌<◌, String, true, List, [], ◌∷◌, none, some, if◌then◌else◌, length, ◌≡◌, refl, inl, inr,
  arith, Bool-cases,
}
use logsieve.Dedup.Drain.{
  Drain3, Ratio, ratio_ge, LogCluster, TemplateMatch, is_empty, tree_search, create_cluster,
  add_cluster_to_tree, update_template, add_wildcard_path_for_cluster, absorb, found, add_tokens,
  add_log_message, tokenize, apply_masking, total_size, match_tokens, is_placeholder,
  parameters_from, extract_parameters_from_tokens, calculate_similarity,
}
use logsieve.Dedup.Drain.Search.{tree_search-IsCandidate}
use logsieve.Dedup.Drain.Counts.{
  add_tokens_cases, add_tokens_counts, one_unless, IsNumbered, add_tokens-IsNumbered,
}

-- The messages, each with the time of its call, handed to AddLogMessage in turn.
unfoldable pub mine : Drain3 → List (ℕ × String) → Drain3
mine d [] = d
mine d ((now, message) ∷ rest) = mine (add_log_message now d message).1 rest

-- The messages that have tokens.
unfoldable pub count_nonblank : Drain3 → List (ℕ × String) → ℕ
count_nonblank d [] = 0
count_nonblank d ((now, message) ∷ rest) =
    one_unless (is_empty (tokenize d message)) + count_nonblank d rest

update_template_settings :
    (d : Drain3) (c : LogCluster) (tokens : List String)
    → ((update_template d c tokens).0.config ≡ d.config)
      × ((update_template d c tokens).0.masking_rules ≡ d.masking_rules)
unfolding update_template add_wildcard_path_for_cluster
update_template_settings d c tokens = ground arith

add_tokens_settings :
    (now : ℕ) (d : Drain3) (tokens : List String)
    → ((add_tokens now d tokens).1.config ≡ d.config)
      × ((add_tokens now d tokens).1.masking_rules ≡ d.masking_rules)
unfolding absorb found create_cluster add_cluster_to_tree
add_tokens_settings now d tokens = elim (add_tokens_cases now d tokens) [
  | inl (e, same, kind, count) ↦ rw same (refl, refl)
  | inr (e, inl (c, s, r)) ↦ rw r (update_template_settings _ _ tokens)
  | inr (e, inr (s, r)) ↦ rw r (refl, refl)
]

tokenize_settings :
    (d e : Drain3) (message : String)
    → e.config ≡ d.config
    → e.masking_rules ≡ d.masking_rules
    → tokenize e message ≡ tokenize d message
unfolding tokenize apply_masking
tokenize_settings d e message c m = rw (c, m) refl

count_nonblank_settings :
    (d e : Drain3) (ms : List (ℕ × String))
    → e.config ≡ d.config
    → e.masking_rules ≡ d.masking_rules
    → count_nonblank e ms ≡ count_nonblank d ms
unfolding count_nonblank
count_nonblank_settings d e [] c m = refl
count_nonblank_settings d e ((now, message) ∷ rest) c m =
    rw (tokenize_settings d e message c m, count_nonblank_settings d e rest c m) refl

-- After any stream of messages the sizes of the clusters add up to what they were and the number of
-- messages that have tokens: no message is counted twice or lost.
pub total_size-mine :
    (d : Drain3) (ms : List (ℕ × String))
    → total_size (mine d ms).clusters ≡ total_size d.clusters + count_nonblank d ms
unfolding mine count_nonblank add_log_message
total_size-mine d [] = omega arith
total_size-mine d ((now, message) ∷ rest) =
    let d' = (add_log_message now d message).1 in
    let s = add_tokens_settings now d (tokenize d message) in
    omega (
      arith,
      total_size-mine d' rest,
      count_nonblank_settings d d' rest s.0 s.1,
      (add_tokens_counts now d (tokenize d message)).0,
    )

mine-IsNumbered : (d : Drain3) (ms : List (ℕ × String)) → IsNumbered d → IsNumbered (mine d ms)
unfolding mine add_log_message
mine-IsNumbered d [] v = v
mine-IsNumbered d ((now, message) ∷ rest) v =
    mine-IsNumbered (add_log_message now d message).1 rest
      (add_tokens-IsNumbered now d (tokenize d message) v)

abbrev pub count_placeholders : List String → ℕ
count_placeholders [] = 0
count_placeholders (t ∷ ts) = (if is_placeholder t then 1 else 0) + count_placeholders ts

length-parameters_from :
    (t k : List String) → length t ≡ length k → length (parameters_from t k) ≡ count_placeholders t
unfolding parameters_from
length-parameters_from [] k e = refl
length-parameters_from (t ∷ ts) [] e = absurd (omega arith)
length-parameters_from (t ∷ ts) (k ∷ ks) e = elim (Bool-cases (is_placeholder t)) [
  | inl h ↦ rw (h, length-parameters_from ts ks (omega arith)) (omega arith)
  | inr h ↦ rw (h, length-parameters_from ts ks (omega arith)) (omega arith)
]

near_length :
    (t k : List String) (r : Ratio)
    → 0 < r.num
    → ratio_ge (calculate_similarity t k) r ≡ true
    → length t ≡ length k
unfolding calculate_similarity
near_length t k r p h = ground arith

-- The answer of Match for a cluster.
abbrev match_of : LogCluster → List String → TemplateMatch
match_of c tokens = record {
  cluster_id = c.cluster_id;
  template = c.log_template;
  similarity = calculate_similarity c.log_template tokens;
  parameter_list = extract_parameters_from_tokens c.log_template tokens;
}

-- Match answers exactly when training would have joined the message to a cluster, with that
-- cluster's id and template, a similarity that reaches the threshold, and, for a threshold above 0,
-- one parameter for each placeholder of the template.
pub match_agrees_with_search :
    (d : Drain3) (tokens : List String)
    → 0 < d.config.sim_threshold.num
    → ((tree_search d tokens ≡ none → match_tokens d tokens ≡ none)
        × ((c : LogCluster)
            → tree_search d tokens ≡ some c
            → (m : TemplateMatch) × (match_tokens d tokens ≡ some m)
              × (m.cluster_id ≡ c.cluster_id)
              × (m.template ≡ c.log_template)
              × (ratio_ge m.similarity d.config.sim_threshold ≡ true)
              × (length m.parameter_list ≡ count_placeholders c.log_template)))
match_agrees_with_search d [] p =
    (λ h. unfold match_tokens in refl, λ c h. absurd (unfold tree_search in cc))
match_agrees_with_search d (t ∷ ts) p = (
  λ h. unfold match_tokens in rw (h, match_tokens) refl,
  λ c h.
      let near = (tree_search-IsCandidate d (t ∷ ts) c h).near in
      let e = near_length c.log_template (t ∷ ts) d.config.sim_threshold p near in
      (
        match_of c (t ∷ ts),
        unfold match_tokens in rw (h, match_tokens) (rw near refl),
        refl,
        refl,
        near,
        unfold extract_parameters_from_tokens in
            rw e (ground (arith, length-parameters_from c.log_template (t ∷ ts) e)),
      ),
)
