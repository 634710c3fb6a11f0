-- ===== src/Cli.antt =====
-- The commands learn and audit of cmd/logsieve/main.go. The lines are those that the scanner yields;
-- flags, files, YAML and printing are left out. The number of messages to cover, which is rounded from
-- a float, and the order of the top clusters, which sort.Slice makes, are parameters.
pub mod Escaping
pub mod Auditing
pub mod Learning
pub mod Capture
pub mod Commands
pub mod Tests
use logsieve.Prelude.{
  ℕ, zero, suc, ◌+◌, ◌-◌, ◌≤◌, String, Bool, true, false, not, ◌&&◌, ◌||◌, List, [], ◌∷◌, ◌++◌, map,
  Option, none, some, ltb, leb, ◌==◌, if◌then◌else◌, str_eq, length, take, has_number, join,
  has_prefix, has_suffix, contains, trim_suffix, trim_space, text_length, take_text, sum,
}
use Prim.Native.String.{◌++◌ as ◌<>◌}
use Prim.Native.Char.{code}
use logsieve.Dedup.Drain.{LogCluster}
use logsieve.Dedup.Drain.Listing.{get_top_clusters}
use logsieve.Profiles.Rules.{Regexp, matches, FingerprintRule, Rate, fraction}

-- \ . + * ? ( ) [ ] { } ^ $ |
abbrev pub special : List ℕ
special = 92 ∷ 46 ∷ 43 ∷ 42 ∷ 63 ∷ 40 ∷ 41 ∷ 91 ∷ 93 ∷ 123 ∷ 125 ∷ 94 ∷ 36 ∷ 124 ∷ []

-- strings.ReplaceAll(s, char, "\\"+char)
unfoldable pub escape_char : ℕ → String → String
escape_char d String.[] = ""
escape_char d (String.◌∷◌ c s) =
    let rest = escape_char d s in
    if code c == d then String.◌∷◌ "\\" (String.◌∷◌ c rest) else String.◌∷◌ c rest

abbrev pub escape_chars : List ℕ → String → String
escape_chars [] s = s
escape_chars (d ∷ ds) s = escape_chars ds (escape_char d s)

unfoldable pub escape_regex : String → String
escape_regex s = escape_chars special s

abbrev pub token_regex : String → String
token_regex token =
    if str_eq token "<*>" || has_prefix token "<" && has_suffix token ">"
    then "\\S+"
    else escape_regex token

unfoldable pub template_to_regex : List String → String
template_to_regex template = "^" <> (join "\\s+" (map token_regex template) <> "$")

-- Nothing where the slice is out of range.
unfoldable pub truncate : String → ℕ → Option String
truncate s max_len =
    if leb (text_length s) max_len
    then some s
    else if ltb max_len 3
    then none
    else some (take_text (max_len - 3) s <> "...")

-- The clusters that learn makes rules of, and how many messages they cover.
unfoldable pub choose : ℕ → List LogCluster → ℕ → List LogCluster × ℕ
choose target [] covered = ([], covered)
choose target (c ∷ cs) covered =
    let rest = choose target cs (covered + c.size) in
    if leb target covered then ([], covered) else (c ∷ rest.0, rest.1)

abbrev rule_of : LogCluster → FingerprintRule
rule_of c = record {
  pattern = template_to_regex c.log_template;
  action = "template";
  unless = "";
  preserve = [];
}

-- The rules of the profile, for the target that the number of all messages gives.
unfoldable pub learned_rules :
    (List LogCluster → List LogCluster) → (ℕ → ℕ) → List LogCluster → List FingerprintRule
learned_rules sorts target_of clusters =
    let total = sum (map (λ c. c.size) clusters) in
    map rule_of (choose (target_of total) (get_top_clusters sorts 0 clusters) 0).0

-- From after the last "/".
abbrev after_slash : String → String
after_slash String.[] = ""
after_slash (String.◌∷◌ c s) =
    let rest = after_slash s in
    if contains s "/" then rest else if code c == 47 then s else String.◌∷◌ c s

unfoldable pub profile_name : String → String → String
profile_name name input =
    if str_eq name "" then after_slash (trim_suffix (trim_suffix input ".log") ".txt") else name

pub record AuditStats : Type 0 where
  pub total_lines : ℕ
  pub dropped_lines : ℕ
  pub templated_lines : ℕ
  pub kept_lines : ℕ
  pub unmatched_lines : ℕ
  pub rule_matches : ℕ → ℕ

abbrev pub no_stats : AuditStats
no_stats = record {
  total_lines = 0;
  dropped_lines = 0;
  templated_lines = 0;
  kept_lines = 0;
  unmatched_lines = 0;
  rule_matches = λ i. 0;
}

unfoldable pub matched_lines : AuditStats → ℕ
matched_lines s = s.dropped_lines + s.templated_lines + s.kept_lines

-- As an exact fraction.
unfoldable pub match_rate : AuditStats → Rate
match_rate s = if s.total_lines == 0 then fraction 0 1 else fraction (matched_lines s) s.total_lines

-- A pattern that does not compile matches nothing.
abbrev pub is_match : Option Bool → Bool
is_match (some true) = true
is_match _ = false

-- The first rule that matches a line, and its number.
abbrev pub first_match : Regexp → String → ℕ → List FingerprintRule → Option (ℕ × FingerprintRule)
first_match re line i [] = none
first_match re line i (r ∷ rules) =
    let later = first_match re line (i + 1) rules in
    if is_match (matches re r.pattern line) then some (i, r) else later

unfoldable pub note_action : String → AuditStats → AuditStats
note_action action s =
    if str_eq action "drop"
    then record s { dropped_lines = s.dropped_lines + 1 }
    else if str_eq action "template"
    then record s { templated_lines = s.templated_lines + 1 }
    else if str_eq action "keep"
    then record s { kept_lines = s.kept_lines + 1 }
    else s

unfoldable pub note_match : Option (ℕ × FingerprintRule) → AuditStats → AuditStats
note_match none s = record s { unmatched_lines = s.unmatched_lines + 1 }
note_match (some (i, r)) s =
    note_action r.action
      (record s { rule_matches = λ j. if i == j then s.rule_matches j + 1 else s.rule_matches j })

abbrev pub is_blank : String → Bool
is_blank line = str_eq (trim_space line) ""

unfoldable pub audit : Regexp → List FingerprintRule → List String → AuditStats → AuditStats
audit re rules [] s = s
audit re rules (line ∷ lines) s = audit re rules lines (
    if is_blank line
    then s
    else note_match (first_match re line 0 rules) (record s { total_lines = s.total_lines + 1 }))
