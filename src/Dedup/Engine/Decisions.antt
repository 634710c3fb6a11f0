-- ===== src/Dedup/Engine/Decisions.antt =====
-- What Process of pkg/dedup/engine.go decides: which entries are dropped and which pass.
use logsieve.Prelude.{
  ℕ, ◌+◌, ◌≤◌, ◌<◌, String, Bool, true, false, not, ◌&&◌, ◌||◌, List, [], ◌∷◌, none, some, eq_refl,
  ◌≡◌, refl, sym, ap, ◌∙◌, inl, inr, arith,
}
use logsieve.Ingestion.Entry.{LogEntry, Heap}
use logsieve.Dedup.Drain.{
  Drain3, LogCluster, ChangeType, add_tokens, add_log_message, tokenize, tree_search, is_empty,
  absorb, found, get_cluster, find_cluster,
}
use logsieve.Dedup.Drain.Search.{tree_search-IsCandidate}
use logsieve.Dedup.Drain.Counts.{
  add_tokens_cases, clusters-absorb, change_type-absorb, change_type-found, created_count,
}
use logsieve.Dedup.Drain.Members.{
  IsPopulated, add_tokens-IsPopulated, IsMember-of, find_cluster-absorb, find_cluster-zero,
}
use logsieve.Dedup.Fingerprint
use logsieve.Dedup.Fingerprint.{exists-add, ttl-exists}
use logsieve.Dedup.Engine.{
  Engine, Times, is_created, skips, should_skip_based_on_template, should_preserve_context,
  process_new, process,
}

-- Whether the message belongs to a cluster that is there already.
abbrev pub joins_cluster : Drain3 → List String → Bool
joins_cluster d tokens = elim (tree_search d tokens) [ none ↦ false | some c ↦ true ]

not_created : (k : ChangeType) → created_count k ≡ 0 → is_created k ≡ false
not_created k h = ground arith

created : (k : ChangeType) → created_count k ≡ 1 → is_created k ≡ true
created k h = ground arith

skip_stored :
    (d : Drain3) (id : ℕ) (x : LogCluster)
    → find_cluster id d.clusters ≡ some x
    → 1 < x.size
    → should_skip_based_on_template d id ≡ true
unfolding should_skip_based_on_template get_cluster
skip_stored d id x h big = ground arith

skip_missing :
    (d : Drain3) (id : ℕ)
    → find_cluster id d.clusters ≡ none
    → should_skip_based_on_template d id ≡ false
unfolding should_skip_based_on_template get_cluster
skip_missing d id h = ground arith

skips-absorb :
    (now : ℕ) (d : Drain3) (c : LogCluster) (tokens : List String)
    → IsPopulated d
    → tree_search d tokens ≡ some c
    → skips (absorb now d c tokens) ≡ true
skips-absorb now d c tokens p s =
    let stored = (tree_search-IsCandidate d tokens c s).stored in
    let a = absorb now d c tokens in
    let x = find_cluster-absorb now d c tokens stored in
    let m = IsMember-of c.cluster_id d.clusters c p stored in
    rw (not_created (a.0).change_type (change_type-absorb now d c tokens)) (
      rw (clusters-absorb now d c tokens stored).5
        (skip_stored a.1 c.cluster_id x.0 x.1 (omega (arith, x.2, m.1))))

skips-found : (now : ℕ) (d : Drain3) (tokens : List String) → skips (found now d tokens) ≡ false
skips-found now d tokens =
    rw (created (found now d tokens).0.change_type (change_type-found now d tokens)) refl

joins_cluster-some :
    (d : Drain3) (tokens : List String) (c : LogCluster)
    → tree_search d tokens ≡ some c
    → joins_cluster d tokens ≡ true
joins_cluster-some d tokens c s = rw (s, joins_cluster) refl

joins_cluster-none :
    (d : Drain3) (tokens : List String)
    → tree_search d tokens ≡ none
    → joins_cluster d tokens ≡ false
joins_cluster-none d tokens s = rw (s, joins_cluster) refl

skips-add_tokens :
    (now : ℕ) (d : Drain3) (tokens : List String)
    → IsPopulated d
    → skips (add_tokens now d tokens) ≡ (not (is_empty tokens) && joins_cluster d tokens)
skips-add_tokens now d [] p = unfold add_tokens in skip_missing d 0 (find_cluster-zero d p)
skips-add_tokens now d (t ∷ ts) p = elim (add_tokens_cases now d (t ∷ ts)) [
  | inl (e, same, kind, count) ↦ cc
  | inr (e, inl (c, s, r)) ↦
      rw r (skips-absorb now d c (t ∷ ts) p s ∙ sym (joins_cluster-some d (t ∷ ts) c s))
  | inr (e, inr (s, r)) ↦ rw r (skips-found now d (t ∷ ts) ∙ sym (joins_cluster-none d (t ∷ ts) s))
]

module _ (get_fingerprint : String → String) where
  -- Whether the fingerprint of the entry is in the cache, and has not expired.
  abbrev pub is_known : Times → LogEntry → Engine → Bool
  is_known t entry e =
      (Fingerprint.exists t.checked (get_fingerprint entry.message) e.fingerprints).0

  -- An entry is a duplicate exactly when its fingerprint is known or its message joins a cluster
  -- that is there, and it passes exactly when its fingerprint is not known and it joins no cluster
  -- or is of an error level. (The clusters of the miner have positive ids and sizes.)
  pub process_decides :
      (t : Times) (entry : LogEntry) (h : Heap) (e : Engine)
      → IsPopulated e.drain
      → let r = (process get_fingerprint t entry h e).0 in
        let tokens = tokenize e.drain entry.message in
        let joins = not (is_empty tokens) && joins_cluster e.drain tokens in
        (r.is_duplicate ≡ (is_known t entry e || joins))
        × (r.should_output
            ≡ (not (is_known t entry e) && (should_preserve_context entry || not joins)))
  unfolding process process_new add_log_message
  process_decides t entry h e p =
      ground (arith, skips-add_tokens t.mined e.drain (tokenize e.drain entry.message) p)

  -- Process keeps the ids and the sizes of the miner's clusters positive.
  pub process-IsPopulated :
      (t : Times) (entry : LogEntry) (h : Heap) (e : Engine)
      → IsPopulated e.drain
      → IsPopulated (process get_fingerprint t entry h e).2.drain
  unfolding process process_new add_log_message
  process-IsPopulated t entry h e p =
      ground (arith, add_tokens-IsPopulated t.mined e.drain (tokenize e.drain entry.message) p)

  process_known :
      (t : Times) (entry : LogEntry) (h : Heap) (e : Engine)
      → is_known t entry e ≡ true
      → let s = process get_fingerprint t entry h e in
        ((s.0).is_duplicate ≡ true)
        × ((s.0).should_output ≡ false)
        × ((s.0).context ≡ [])
        × (s.1 ≡ h)
        × ((s.2).drain ≡ e.drain)
        × ((s.2).context ≡ e.context)
  unfolding process
  process_known t entry h e known = ground arith

  fingerprints_after :
      (t : Times) (entry : LogEntry) (h : Heap) (e : Engine)
      → is_known t entry e ≡ false
      → (process get_fingerprint t entry h e).2.fingerprints
        ≡ Fingerprint.add t.added
            (get_fingerprint entry.message)
            (Fingerprint.exists t.checked (get_fingerprint entry.message) e.fingerprints).1
  unfolding process process_new
  fingerprints_after t entry h e new = ground arith

  known_after :
      (t u : Times) (entry other : LogEntry) (h : Heap) (e : Engine)
      → is_known t entry e ≡ false
      → other.message ≡ entry.message
      → u.checked ≤ t.added + e.fingerprints.ttl
      → is_known u other (process get_fingerprint t entry h e).2 ≡ true
  known_after t u entry other h e new same within =
      let f = get_fingerprint entry.message in
      let q = (Fingerprint.exists t.checked f e.fingerprints).1 in
      let still : (Fingerprint.exists u.checked f (Fingerprint.add t.added f q)).0 ≡ true = ground (
        arith,
        exists-add t.added u.checked f f q,
        eq_refl f,
        ttl-exists t.checked f e.fingerprints,
      ) in
      ap (λ fc. (Fingerprint.exists u.checked (get_fingerprint other.message) fc).0)
        (fingerprints_after t entry h e new)
      ∙ (ap
            (λ m.
              (Fingerprint.exists u.checked (get_fingerprint m) (Fingerprint.add t.added f q)).0)
            same
          ∙ still)

  -- Once an entry has been processed whose fingerprint was not known, an entry with the same message
  -- is dropped if its check comes within the time to live after that fingerprint was added: it is a
  -- duplicate, whatever its level, without context, and it changes neither the clusters, nor the
  -- window, nor the label maps.
  pub process_twice :
      (t u : Times) (entry other : LogEntry) (h k : Heap) (e : Engine)
      → is_known t entry e ≡ false
      → other.message ≡ entry.message
      → u.checked ≤ t.added + e.fingerprints.ttl
      → let e' = (process get_fingerprint t entry h e).2 in
        let s = process get_fingerprint u other k e' in
        ((s.0).is_duplicate ≡ true)
        × ((s.0).should_output ≡ false)
        × ((s.0).context ≡ [])
        × (s.1 ≡ k)
        × ((s.2).drain ≡ e'.drain)
        × ((s.2).context ≡ e'.context)
  process_twice t u entry other h k e new same within =
      process_known u other k (process get_fingerprint t entry h e).2
        (known_after t u entry other h e new same within)
