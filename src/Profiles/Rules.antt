-- ===== src/Profiles/Rules.antt =====
-- The rules of pkg/profiles/parser.go. Package regexp is three parameters: whether a pattern
-- compiles, whether it matches a text, and the replacement of all its matches. A compiled pattern
-- is not kept: compiling is a function of the pattern.
use logsieve.Prelude.{
  ℕ, String, Bool, false, not, ◌&&◌, ◌||◌, List, Option, none, some, ltb, if◌then◌else◌, str_eq,
  is_lower_of,
}
use logsieve.Ingestion.Entry.{LogEntry}

pub record FingerprintRule : Type 0 where
  pub pattern : String
  pub action : String
  pub unless : String
  pub preserve : List String

pub record ContextTrigger : Type 0 where
  pub pattern : String
  pub before : ℕ
  pub after : ℕ

-- A rate as an exact fraction.
pub data Rate : Type 0 where
  below_zero : Rate
  fraction : (num den : ℕ) → Rate

pub record SamplingRule : Type 0 where
  pub pattern : String
  pub rate : Rate

pub record Transform : Type 0 where
  pub field : String
  pub regex : String
  pub replace : String

pub record Profile : Type 0 where
  pub api_version : String
  pub kind : String
  pub name : String
  pub version : String
  pub images : List String
  pub signature : String
  pub fingerprints : List FingerprintRule
  pub context_triggers : List ContextTrigger
  pub sampling : List SamplingRule
  pub transforms : List Transform

pub data ValidationError : Type 0 where
  name_required version_required pattern_required invalid_action invalid_pattern : ValidationError
  rate_out_of_range field_required regex_required unsupported_field invalid_regex : ValidationError

abbrev pub is_in_range : Rate → Bool
is_in_range below_zero = false
is_in_range (fraction num den) = not (ltb den num)

-- What package regexp does.
pub record Regexp : Type 0 where
  pub compiles : String → Bool
  pub match_string : String → String → Bool
  pub replace_all : String → String → String → String

-- FingerprintRule.Matches and the same of the other rules: nothing where the pattern does not compile.
unfoldable pub matches : Regexp → String → String → Option Bool
matches re pattern message =
    if re.compiles pattern then some (re.match_string pattern message) else none

-- The action that a check of the rule gives an empty action.
unfoldable pub effective_action : FingerprintRule → String
effective_action r = if str_eq r.action "" then "template" else r.action

-- FingerprintRule.Validate: the error, and the rule, whose empty action it replaces.
unfoldable pub validate_fingerprint :
    Regexp → FingerprintRule → Option ValidationError × FingerprintRule
validate_fingerprint re r =
    let action = effective_action r in
    if str_eq r.pattern ""
    then (some pattern_required, r)
    else if not (str_eq action "drop" || str_eq action "template" || str_eq action "keep")
    then (some invalid_action, record r { action = action })
    else (
      if re.compiles r.pattern then none else some invalid_pattern,
      record r { action = action },
    )

unfoldable pub validate_sampling : Regexp → SamplingRule → Option ValidationError
validate_sampling re s =
    if str_eq s.pattern ""
    then some pattern_required
    else if not (is_in_range s.rate)
    then some rate_out_of_range
    else if re.compiles s.pattern
    then none
    else some invalid_pattern

unfoldable pub validate_transform : Regexp → Transform → Option ValidationError
validate_transform re t =
    if str_eq t.field ""
    then some field_required
    else if str_eq t.regex ""
    then some regex_required
    else if not (is_lower_of t.field "message")
    then some unsupported_field
    else if re.compiles t.regex
    then none
    else some invalid_regex

-- Transform.Apply: the entry, or an error.
unfoldable pub apply_transform : Regexp → Transform → LogEntry → Option LogEntry
apply_transform re t e =
    if re.compiles t.regex && is_lower_of t.field "message"
    then some (record e { message = re.replace_all t.regex e.message t.replace })
    else none
