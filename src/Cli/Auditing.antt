-- ===== src/Cli/Auditing.antt =====
-- What the numbers of the command audit of cmd/logsieve/main.go count.
use logsieve.Prelude.{
  ℕ, ◌+◌, String, Bool, true, false, not, ◌&&◌, ◌||◌, List, [], ◌∷◌, Option, none, some, ◌==◌,
  if◌then◌else◌, str_eq, count, All, ◌≡◌, refl, ◌∙◌, arith, Bool-cases, if_both, Option-cases, inl,
  inr,
}
use logsieve.Profiles.Rules.{Regexp, FingerprintRule}
use logsieve.Cli.{
  AuditStats, no_stats, matched_lines, first_match, note_action, note_match, is_blank, audit,
}

abbrev pub is_unmatched : Regexp → List FingerprintRule → String → Bool
is_unmatched re rules line = elim (first_match re line 0 rules) [
  | none ↦ not (is_blank line)
  | some r ↦ false
]

-- The line is not blank, and the rule of that number is the first that matches it.
abbrev pub is_for_rule : Regexp → List FingerprintRule → ℕ → String → Bool
is_for_rule re rules j line = elim (first_match re line 0 rules) [
  | none ↦ false
  | some r ↦ not (is_blank line) && r.0 == j
]

note_action-keeps :
    (action : String) (s : AuditStats) (j : ℕ)
    → let t = note_action action s in
      (t.total_lines ≡ s.total_lines)
      × (t.unmatched_lines ≡ s.unmatched_lines)
      × (t.rule_matches j ≡ s.rule_matches j)
unfolding note_action
note_action-keeps action s j = ground arith

note_match-counts :
    (m : Option (ℕ × FingerprintRule)) (s : AuditStats) (j : ℕ)
    → let t = note_match m s in
      (t.total_lines ≡ s.total_lines)
      × (t.unmatched_lines ≡ s.unmatched_lines + (elim m [ none ↦ 1 | some r ↦ 0 ]))
      × (t.rule_matches j
          ≡ s.rule_matches j + (elim m [ none ↦ 0 | some r ↦ if r.0 == j then 1 else 0 ]))
unfolding note_match
note_match-counts none s j = (refl, omega arith, omega arith)
note_match-counts (some (i, r)) s j =
    let noted : AuditStats = record s {
      rule_matches = λ k. if i == k then s.rule_matches k + 1 else s.rule_matches k;
    } in
    ground (arith, note_action-keeps r.action noted j)

module _ (re : Regexp) (rules : List FingerprintRule) where
  audit_from :
      (lines : List String) (s : AuditStats) (j : ℕ)
      → let t = audit re rules lines s in
        (t.total_lines ≡ s.total_lines + count (λ line. not (is_blank line)) lines)
        × (t.unmatched_lines ≡ s.unmatched_lines + count (is_unmatched re rules) lines)
        × (t.rule_matches j ≡ s.rule_matches j + count (is_for_rule re rules j) lines)
  unfolding audit
  audit_from [] s j = (omega arith, omega arith, omega arith)
  audit_from (line ∷ lines) s j =
      let m : Option (ℕ × FingerprintRule) = first_match re line 0 rules in
      let more : AuditStats = record s { total_lines = s.total_lines + 1 } in
      elim (Bool-cases (is_blank line)) [
        | inl blank ↦ elim (Option-cases m) [
          | inl none_matches ↦ ground (arith, blank, none_matches, audit_from lines s j)
          | inr (r, found) ↦ ground (arith, blank, found, audit_from lines s j)
        ]
        | inr full ↦ elim (Option-cases m) [
          | inl none_matches ↦ ground (
            arith,
            full,
            none_matches,
            note_match-counts none more j,
            audit_from lines (note_match none more) j,
          )
          | inr (r, found) ↦ ground (
            arith,
            full,
            found,
            note_match-counts (some r) more j,
            audit_from lines (note_match (some r) more) j,
          )
        ]
      ]

  -- The numbers of an audit: the total is how many lines are not blank, the unmatched ones are those
  -- of them that no rule matches, and each rule's number is how many lines have it as the first rule
  -- that matches.
  pub audit_counts :
      (lines : List String) (j : ℕ)
      → let t = audit re rules lines no_stats in
        (t.total_lines ≡ count (λ line. not (is_blank line)) lines)
        × (t.unmatched_lines ≡ count (is_unmatched re rules) lines)
        × (t.rule_matches j ≡ count (is_for_rule re rules j) lines)
  audit_counts lines j =
      let r = audit_from lines no_stats j in
      (omega (arith, r.0), omega (arith, r.1), omega (arith, r.2))

abbrev pub HasKnownAction : FingerprintRule → Type 0
HasKnownAction r =
    (str_eq r.action "drop" || str_eq r.action "template" || str_eq r.action "keep") ≡ true

-- The lines that the total has and the other numbers do not.
abbrev IsBalanced : AuditStats → Type 0
IsBalanced s = matched_lines s + s.unmatched_lines ≡ s.total_lines

note_match-balances :
    (re : Regexp) (rules : List FingerprintRule) (line : String) (i : ℕ) (s : AuditStats)
    → All HasKnownAction rules
    → IsBalanced s
    → IsBalanced
        (note_match (first_match re line i rules) (record s { total_lines = s.total_lines + 1 }))
unfolding note_match note_action matched_lines
note_match-balances re [] line i s k b = omega arith
note_match-balances re (r ∷ rules) line i s k b =
    ground (arith, k.0, note_match-balances re rules line (i + 1) s k.1 b)

audit-balances :
    (re : Regexp) (rules : List FingerprintRule) (lines : List String) (s : AuditStats)
    → All HasKnownAction rules
    → IsBalanced s
    → IsBalanced (audit re rules lines s)
unfolding audit
audit-balances re rules [] s k b = b
audit-balances re rules (line ∷ lines) s k b =
    audit-balances re rules lines _ k
      (if_both IsBalanced (is_blank line) s _ b (note_match-balances re rules line 0 s k b))

-- The numbers that audit prints add up, when each rule's action is drop, template or keep: the lines
-- dropped, templated, kept and unmatched are all the lines that are not blank.
pub audit_adds_up :
    (re : Regexp) (rules : List FingerprintRule) (lines : List String)
    → All HasKnownAction rules
    → let t = audit re rules lines no_stats in
      matched_lines t + t.unmatched_lines ≡ count (λ line. not (is_blank line)) lines
audit_adds_up re rules lines k =
    audit-balances re rules lines no_stats k (unfold matched_lines in refl)
    ∙ (audit_counts re rules lines 0).0
