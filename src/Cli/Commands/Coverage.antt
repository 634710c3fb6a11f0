-- ===== src/Cli/Commands/Coverage.antt =====
-- What a learned profile covers, and what an audit with it counts (cmd/logsieve/main.go).
use logsieve.Prelude.{
  ℕ, zero, suc, take, subst, ◌+◌, ◌≤◌, ◌==◌, min, String, Bool, not, ◌||◌, List, [], ◌∷◌, map, some,
  length, if◌then◌else◌, str_eq, count, keep, All, ◌≡◌, refl, sym, ap, ◌∙◌, arith, Bool-cases, inl,
  inr, if_both,
}
use mathlib.Core.List.{Permᴰ}
use logsieve.Dedup.Drain.{Drain3, LogCluster, MaskingRule, new_drain3, add_log_message, total_size}
use logsieve.Dedup.Drain.Runs.{mine, count_nonblank, total_size-mine}
use logsieve.Dedup.Drain.Listing.{get_top_clusters}
use logsieve.Profiles.Rules.{FingerprintRule, Regexp, matches}
use logsieve.Cli.{
  choose, rule_of, learned_rules, AuditStats, no_stats, matched_lines, first_match, note_match,
  note_action, is_match, is_blank, audit,
}
use logsieve.Cli.Commands.{LearnFlags, learn_lines, learn_drain, learn_from}
use logsieve.Cli.Learning.{messages, choose_covers}
use logsieve.Cli.Auditing.{HasKnownAction, audit_adds_up}

abbrev is_text : ℕ × String → Bool
is_text l = not (is_blank l.1)

-- The lines that are not blank are mined in turn.
learn_lines-mine :
    (lines : List (ℕ × String)) (d : Drain3) (n : ℕ)
    → learn_lines lines d n ≡ (mine d (keep is_text lines), n + length (keep is_text lines))
unfolding learn_lines mine
learn_lines-mine [] d n = ground arith
learn_lines-mine ((now, line) ∷ lines) d n = elim (Bool-cases (is_blank line)) [
  | inl b ↦ ground (arith, b, learn_lines-mine lines d n)
  | inr b ↦ ground (arith, b, learn_lines-mine lines (add_log_message now d line).1 (n + 1))
]

count_nonblank-le : (d : Drain3) (ms : List (ℕ × String)) → count_nonblank d ms ≤ length ms
unfolding count_nonblank
count_nonblank-le d [] = omega arith
count_nonblank-le d ((now, m) ∷ ms) = ground (arith, count_nonblank-le d ms)

total_size-messages : (cs : List LogCluster) → messages cs ≡ total_size cs
total_size-messages [] = refl
total_size-messages (c ∷ cs) = omega (arith, total_size-messages cs)

mined :
    (rules : List MaskingRule) (lines : List (ℕ × String))
    → let r = learn_lines lines (learn_drain rules) 0 in messages (r.0).clusters ≤ r.1
unfolding new_drain3
mined rules lines =
    let d = learn_drain rules in
    let texts = keep is_text lines in
    let r = learn_lines-mine lines d 0 in
    let clusters = ap (λ x. messages (x.0).clusters) r in
    omega (
      arith,
      clusters,
      ap (λ x. x.1) r,
      total_size-messages (mine d texts).clusters,
      total_size-mine d texts,
      count_nonblank-le d texts,
    )

messages-Perm : {xs ys : List LogCluster} → Permᴰ xs ys → messages xs ≡ messages ys
messages-Perm Permᴰ.nil = refl
messages-Perm (Permᴰ.cons e p) = omega (arith, ap (λ c. c.size) e, messages-Perm p)
messages-Perm (Permᴰ.swap e f) = omega (arith, ap (λ c. c.size) e, ap (λ c. c.size) f)
messages-Perm (Permᴰ.trans p q) = messages-Perm p ∙ messages-Perm q

messages-take-le : (n : ℕ) (cs : List LogCluster) → messages (take n cs) ≤ messages cs
messages-take-le zero cs = omega arith
messages-take-le (suc n) [] = omega arith
messages-take-le (suc n) (c ∷ cs) = omega (arith, messages-take-le n cs)

-- What learn reports of its coverage: the messages of all clusters are no more than the lines that
-- were analyzed, those that its rules cover are no more than all, and they reach the target, or all
-- where the target is above them. sort.Slice only rearranges the clusters.
pub learn_from_coverage :
    (rules : List MaskingRule) (sorts : List LogCluster → List LogCluster) (target_of : ℕ → ℕ)
    (f : LearnFlags) (lines : List (ℕ × String))
    → ((cs : List LogCluster) → Permᴰ (sorts cs) cs)
    → let l = learn_from rules sorts target_of f lines in
      (l.total_messages ≤ l.line_count)
      × (l.covered_messages ≤ l.total_messages)
      × (min (target_of l.total_messages) l.total_messages ≤ l.covered_messages)
unfolding learn_from get_top_clusters
learn_from_coverage rules sorts target_of f lines perm =
    let cs = (learn_lines lines (learn_drain rules) 0).0.clusters in
    let target = target_of (messages cs) in
    let c = choose_covers target (sorts cs) in
    let same = messages-Perm (perm cs) in
    let chosen = (choose target (sorts cs) 0).0 in
    let prefix = messages-take-le (length chosen) (sorts cs) in
    (mined rules lines, omega (arith, c.1, ap messages c.0, prefix, same), omega (arith, c.2, same))

IsTemplate : FingerprintRule → Type 0
IsTemplate r = r.action ≡ "template"

IsTemplate-rules : (cs : List LogCluster) → All IsTemplate (map rule_of cs)
unfolding IsTemplate
IsTemplate-rules [] = tt
IsTemplate-rules (c ∷ cs) = (refl, IsTemplate-rules cs)

known_actions : (rules : List FingerprintRule) → All IsTemplate rules → All HasKnownAction rules
unfolding IsTemplate
known_actions [] a = tt
known_actions (r ∷ rules) a = (
  ap (λ x. str_eq x "drop" || str_eq x "template" || str_eq x "keep") a.0,
  known_actions rules a.1,
)

-- Neither dropped nor kept lines.
abbrev OnlyTemplates : AuditStats → Type 0
OnlyTemplates s = (s.dropped_lines ≡ 0) × (s.kept_lines ≡ 0)

note_action-template :
    (action : String) (s : AuditStats)
    → action ≡ "template"
    → note_action action s ≡ record s { templated_lines = s.templated_lines + 1 }
unfolding note_action
note_action-template action s e = ap (λ x. note_action x s) e

note_match-OnlyTemplates :
    (re : Regexp) (rules : List FingerprintRule) (line : String) (i : ℕ) (s : AuditStats)
    → All IsTemplate rules
    → OnlyTemplates s
    → OnlyTemplates (note_match (first_match re line i rules) s)
unfolding note_match IsTemplate
note_match-OnlyTemplates re [] line i s a o = o
note_match-OnlyTemplates re (r ∷ rules) line i s a o =
    let later = note_match-OnlyTemplates re rules line (i + 1) s a.1 o in
    let noted : AuditStats = record s {
      rule_matches = λ j. if i == j then s.rule_matches j + 1 else s.rule_matches j;
    } in
    let here : OnlyTemplates (note_action r.action noted) =
      subst OnlyTemplates (sym (note_action-template r.action noted a.0)) o in
    if_both (λ m. OnlyTemplates (note_match m s)) (is_match (matches re r.pattern line))
      (some (i, r)) (first_match re line (i + 1) rules) here later

audit-OnlyTemplates :
    (re : Regexp) (rules : List FingerprintRule) (lines : List String) (s : AuditStats)
    → All IsTemplate rules
    → OnlyTemplates s
    → OnlyTemplates (audit re rules lines s)
unfolding audit
audit-OnlyTemplates re rules [] s a o = o
audit-OnlyTemplates re rules (line ∷ lines) s a o = audit-OnlyTemplates re rules lines _ a (
    if_both OnlyTemplates (is_blank line) s _ o
      (note_match-OnlyTemplates re rules line 0 (record s { total_lines = s.total_lines + 1 }) a o))

-- An audit of a profile that learn has made: no line is dropped or kept, and the templated and the
-- unmatched lines are together all lines that are not blank, whatever the logs are.
pub audit-learn_from :
    (rules : List MaskingRule) (sorts : List LogCluster → List LogCluster) (target_of : ℕ → ℕ)
    (f : LearnFlags) (learned_on : List (ℕ × String)) (re : Regexp) (lines : List String)
    → let p = (learn_from rules sorts target_of f learned_on).profile in
      let t = audit re p.fingerprints lines no_stats in
      (t.dropped_lines ≡ 0)
      × (t.kept_lines ≡ 0)
      × (t.templated_lines + t.unmatched_lines ≡ count (λ line. not (is_blank line)) lines)
unfolding learn_from learned_rules
audit-learn_from rules sorts target_of f learned_on re lines =
    let p = (learn_from rules sorts target_of f learned_on).profile in
    let a : All IsTemplate p.fingerprints = IsTemplate-rules _ in
    let o = audit-OnlyTemplates re p.fingerprints lines no_stats a (refl, refl) in
    let sums = audit_adds_up re p.fingerprints lines (known_actions p.fingerprints a) in
    (o.0, o.1, unfold matched_lines in omega (arith, o.0, o.1, sums))
