-- ===== src/Cli/Tests.antt =====
-- The commands on small inputs.
use logsieve.Prelude.{String, false, List, [], ◌∷◌, some, ◌≡◌, contains, true}
use logsieve.Profiles.Rules.{Regexp, FingerprintRule}
use logsieve.Cli.{escape_regex}
use logsieve.Cli.Escaping.{literal_from, literal_from-escape_regex}

literal_from-escape_regex_example :
    literal_from false (escape_regex "a.b\\(c|d)") ≡ some "a.b\\(c|d)"
literal_from-escape_regex_example = literal_from-escape_regex "a.b\\(c|d)"

abbrev substrings : Regexp
substrings = record {
  compiles = λ pattern. true;
  match_string = λ pattern text. contains text pattern;
  replace_all = λ pattern text by. text;
}

abbrev rules : List FingerprintRule
rules =
    record { pattern = "ping"; action = "drop"; unless = ""; preserve = [] }
    ∷ record { pattern = "user"; action = "template"; unless = ""; preserve = [] }
    ∷ []

abbrev lines : List String
lines = "ping" ∷ "" ∷ "user 1" ∷ "boom" ∷ "user ping" ∷ []
