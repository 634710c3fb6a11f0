-- ===== src/Dedup/Drain/Tests.antt =====
-- Runs of the template miner on small inputs, and its theorems at concrete inputs.
use logsieve.Dedup.Drain.{
  new_drain3, Drain3, LogCluster, cluster_created, cluster_size_changed, find_leaf, tree_search,
  add_tokens, absorb, found, create_cluster, add_cluster_to_tree, update_template,
  add_wildcard_path_for_cluster, generalize, generalize_token, changes, count_matches,
  calculate_similarity, find_cluster, store_cluster, tokenize, apply_masking, total_size,
}
use logsieve.Dedup.Drain.Runs.{mine, count_nonblank, total_size-mine}
use logsieve.Prelude.{
  ◌≤◌, ℕ, ◌+◌, String, List, [], ◌∷◌, none, some, ◌≡◌, refl, arith, words, itoa, replace_by_space,
  all_digits,
}
use logsieve.Dedup.Drain.Tree.{
  walk, next_node, get_child, put_child, insert_at, add_path, insert_wildcard_at, add_wildcard_path,
}
use logsieve.Dedup.Drain.Search.{tree_search_best, IsCandidate}
use logsieve.Dedup.Drain.Counts.{IsNumbered}
use logsieve.Dedup.Drain.Repeat.{repeat_absorbed}
use logsieve.Dedup.Drain.Trap.{wildcard_path_trap}

abbrev fresh : Drain3
unfolding new_drain3
fresh = new_drain3 (record { num = 0; den = 1 }) []

abbrev login : List String
login = "user" ∷ "alice" ∷ "logged" ∷ "in" ∷ "twice" ∷ []

abbrev login_bob : List String
login_bob = "user" ∷ "alice" ∷ "logged" ∷ "out" ∷ "twice" ∷ []

-- The same message but for its first token.
abbrev admin_login : List String
admin_login = "admin" ∷ "alice" ∷ "logged" ∷ "out" ∷ "twice" ∷ []

abbrev after_login : Drain3
unfolding new_drain3 add_tokens
after_login = (add_tokens 5 fresh login).1

first_created :
    ((add_tokens 5 fresh login).0.change_type ≡ cluster_created)
    × ((add_tokens 5 fresh login).0.cluster_count ≡ 1)
unfolding new_drain3 add_tokens tree_search find_leaf found create_cluster add_cluster_to_tree
    add_path insert_at get_child put_child
first_created = (refl, refl)

tokenized : tokenize fresh "user_1: logged  in" ≡ "user" ∷ "<NUM>" ∷ "logged" ∷ "in" ∷ []
unfolding new_drain3 tokenize apply_masking words replace_by_space all_digits
tokenized = refl

fresh-IsNumbered : IsNumbered fresh
unfolding new_drain3
fresh-IsNumbered = record { below = tt; counted = refl }

abbrev login_cluster : LogCluster
login_cluster = record { cluster_id = 1; log_template = login; size = 1; created = 5; updated = 5 }

abbrev generalized : LogCluster
generalized = record login_cluster {
  log_template = "user" ∷ "alice" ∷ "logged" ∷ "<*>" ∷ "twice" ∷ [];
  size = 2;
}

-- The default threshold is 2/5; the admin's message agrees with the template in four tokens of five,
-- and is not found.
trap_in_a_run : tree_search (add_tokens 6 after_login login_bob).1 admin_login ≡ none
unfolding new_drain3 add_tokens tree_search find_leaf found absorb create_cluster
    add_cluster_to_tree update_template add_wildcard_path_for_cluster add_wildcard_path
    insert_wildcard_at add_path insert_at get_child put_child walk next_node find_cluster
    store_cluster generalize generalize_token changes calculate_similarity count_matches itoa
trap_in_a_run = refl

tree_search_best_example :
    (best : LogCluster) × (tree_search after_login login ≡ some best)
    × IsCandidate after_login.config.sim_threshold after_login.clusters login best
    × ((calculate_similarity login login).num ≤ (calculate_similarity best.log_template login).num)
unfolding new_drain3 add_tokens tree_search find_leaf found create_cluster add_cluster_to_tree
    add_path insert_at get_child put_child walk next_node find_cluster calculate_similarity
    count_matches itoa
tree_search_best_example =
    tree_search_best after_login login _ 1 login_cluster refl refl refl refl refl (omega arith)

abbrev messages : List (ℕ × String)
messages = (1, "user alice in") ∷ (2, "  ") ∷ (3, "user bob in") ∷ []

total_size-mine_example :
    total_size (mine fresh messages).clusters
    ≡ total_size fresh.clusters + count_nonblank fresh messages
total_size-mine_example = total_size-mine fresh messages

repeat_absorbed_example :
    (add_tokens 9 (add_tokens 5 fresh login).1 login).0.change_type ≡ cluster_size_changed
unfolding new_drain3 tree_search find_leaf get_child
repeat_absorbed_example =
    (repeat_absorbed 5 9 fresh login fresh-IsNumbered (omega arith) refl refl).0

wildcard_path_trap_example :
    tree_search (add_wildcard_path_for_cluster after_login generalized) admin_login ≡ none
unfolding new_drain3 add_tokens tree_search find_leaf found create_cluster add_cluster_to_tree
    add_path insert_at get_child put_child itoa
wildcard_path_trap_example =
    wildcard_path_trap after_login generalized 1 "user" "admin" "alice"
      ("logged" ∷ "<*>" ∷ "twice" ∷ []) ("logged" ∷ "out" ∷ "twice" ∷ []) refl refl refl refl refl
      refl refl refl
