-- ===== src/Cli/Commands.antt =====
-- The commands learn and audit of cmd/logsieve/main.go from their flags to what they report. Files are
-- what bufio.Scanner yields of them, with the clock at each line and whether it ended without an error;
-- opening, making and reading a file, YAML and the rounding of the number of messages to cover are
-- parameters. Of a profile, the description and the tags, which nothing reads, are left out.
pub mod Coverage
pub mod Tests
use logsieve.Prelude.{
  ℕ, ◌+◌, ◌==◌, String, Bool, true, false, not, ◌&&◌, List, [], ◌∷◌, map, Option, none, some,
  length, if◌then◌else◌, str_eq, sum,
}
use logsieve.Dedup.Drain.{Drain3, LogCluster, MaskingRule, new_drain3, add_log_message}
use logsieve.Dedup.Drain.Listing.{get_top_clusters}
use logsieve.Profiles.Rules.{Profile, FingerprintRule, Regexp, Rate, fraction}
use logsieve.Profiles.Manager.Loading.{parse_profile}
use logsieve.Cli.{
  choose, learned_rules, profile_name, AuditStats, no_stats, matched_lines, match_rate, is_blank,
  audit,
}
use logsieve.Cli.Capture.{file_of}

pub record Scan : Type 0 where
  pub lines : List (ℕ × String)
  pub ok : Bool

pub record LearnFlags : Type 0 where
  pub input : String
  pub output : String
  pub name : String
  pub image : String

pub record Learned : Type 0 where
  pub profile : Profile
  pub line_count : ℕ
  pub cluster_count : ℕ
  pub total_messages : ℕ
  pub covered_messages : ℕ

pub data LearnResult : Type 0 where
  open_fails read_fails marshal_fails create_fails : LearnResult
  learned : Learned → LearnResult

-- The loop over the lines: the miner, and how many lines it was given.
unfoldable pub learn_lines : List (ℕ × String) → Drain3 → ℕ → Drain3 × ℕ
learn_lines [] d count = (d, count)
learn_lines ((now, line) ∷ lines) d count =
    if is_blank line
    then learn_lines lines d count
    else learn_lines lines (add_log_message now d line).1 (count + 1)

abbrev pub learn_drain : List MaskingRule → Drain3
learn_drain rules = new_drain3 (record { num = 4; den = 10 }) rules

module _ (rules : List MaskingRule) (sorts : List LogCluster → List LogCluster)
    (target_of : ℕ → ℕ) where
  unfoldable pub learn_from : LearnFlags → List (ℕ × String) → Learned
  learn_from f lines =
      let r = learn_lines lines (learn_drain rules) 0 in
      let total = sum (map (λ (c : LogCluster). c.size) (r.0).clusters) in
      record {
        profile = record {
          api_version = "logsieve.io/v1";
          kind = "LogProfile";
          name = profile_name f.name f.input;
          version = "1.0.0";
          images = (if str_eq f.image "" then "*" else f.image) ∷ [];
          signature = "";
          fingerprints = learned_rules sorts target_of (r.0).clusters;
          context_triggers = [];
          sampling = [];
          transforms = [];
        };
        line_count = r.1;
        cluster_count = length (r.0).clusters;
        total_messages = total;
        covered_messages = (choose (target_of total) (get_top_clusters sorts 0 (r.0).clusters) 0).1;
      }

  abbrev write_profile : (Profile → Bool) → (String → Bool) → Option String → Learned → LearnResult
  write_profile marshals creates none l = if marshals l.profile then learned l else marshal_fails
  write_profile marshals creates (some file) l =
      if not (marshals l.profile)
      then marshal_fails
      else if creates file
      then learned l
      else create_fails

  unfoldable pub learn :
      (String → Option Scan) → (Profile → Bool) → (String → Bool) → LearnFlags → LearnResult
  learn opens marshals creates f = elim (opens f.input) [
    | none ↦ open_fails
    | some scan ↦
        if scan.ok
        then write_profile marshals creates (file_of f.output) (learn_from f scan.lines)
        else read_fails
  ]

pub record AuditFlags : Type 0 where
  pub profile_path : String
  pub live : Bool
  pub input : String

-- The share of lines that were dropped or templated, and the matches of each rule with their share.
pub record AuditReport : Type 0 where
  pub stats : AuditStats
  pub match_rate : Rate
  pub dedup_ratio : Option Rate
  pub rules : List (String × ℕ × Rate)

pub data AuditResult : Type 0 where
  profile_unread profile_unparsed input_unopened no_input logs_unread : AuditResult
  audited : AuditReport → AuditResult

abbrev pub share : ℕ → ℕ → Rate
share count total = if total == 0 then fraction 0 1 else fraction count total

abbrev pub rule_report : AuditStats → ℕ → List FingerprintRule → List (String × ℕ × Rate)
rule_report s i [] = []
rule_report s i (r ∷ rules) =
    (r.action, s.rule_matches i, share (s.rule_matches i) s.total_lines)
    ∷ rule_report s (i + 1) rules

unfoldable pub report_audit : List FingerprintRule → AuditStats → AuditReport
report_audit rules s = record {
  stats = s;
  match_rate = match_rate s;
  dedup_ratio =
      if s.total_lines == 0
      then none
      else some (fraction (s.dropped_lines + s.templated_lines) s.total_lines);
  rules = rule_report s 0 rules;
}

abbrev audit_scan : Regexp → Profile → Option Scan → AuditResult
audit_scan re p none = input_unopened
audit_scan re p (some scan) =
    if scan.ok
    then audited (
        report_audit p.fingerprints
          (audit re p.fingerprints (map (λ (l : ℕ × String). l.1) scan.lines) no_stats))
    else logs_unread

-- The input of a file goes before the standard input.
abbrev audit_input : Regexp → (String → Option Scan) → Scan → AuditFlags → Profile → AuditResult
audit_input re opens stdin f p =
    if not (str_eq f.input "")
    then audit_scan re p (opens f.input)
    else if f.live
    then audit_scan re p (some stdin)
    else no_input

unfoldable pub audit_command :
    {D : Type 0}
    → Regexp
    → (D → Option (Profile × List String))
    → (String → Option D)
    → (String → Option Scan)
    → Scan
    → AuditFlags
    → AuditResult
audit_command re unmarshal reads opens stdin f = elim (reads f.profile_path) [
  | none ↦ profile_unread
  | some d ↦ elim (parse_profile re unmarshal d) [
    | none ↦ profile_unparsed
    | some p ↦ audit_input re opens stdin f p
  ]
]
