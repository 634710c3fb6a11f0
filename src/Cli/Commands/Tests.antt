-- ===== src/Cli/Commands/Tests.antt =====
-- The commands learn and audit of cmd/logsieve/main.go on small inputs.
use logsieve.Prelude.{
  ℕ, ◌+◌, ◌≤◌, ◌*◌, ◌/◌, min, String, true, not, List, [], ◌∷◌, count, ◌≡◌, refl,
}
use mathlib.Core.List.{Permᴰ}
use logsieve.Dedup.Drain.{LogCluster}
use logsieve.Profiles.Rules.{Regexp}
use logsieve.Cli.{no_stats, is_blank, audit}
use logsieve.Cli.Commands.{LearnFlags, Learned, learn_from}
use logsieve.Cli.Commands.Coverage.{learn_from_coverage, audit-learn_from}

abbrev flags : LearnFlags
flags = record { input = "logs/web.log"; output = ""; name = ""; image = "nginx:*" }

abbrev logs : List (ℕ × String)
logs = (1, "user 1 logged in") ∷ (2, "") ∷ (3, "user 2 logged in") ∷ (4, "started") ∷ []

abbrev as_they_are : List LogCluster → List LogCluster
as_they_are cs = cs

perm_refl : (cs : List LogCluster) → Permᴰ (as_they_are cs) cs
perm_refl [] = Permᴰ.nil
perm_refl (c ∷ cs) = Permᴰ.cons refl (perm_refl cs)

-- Nine tenths of the messages.
abbrev most : ℕ → ℕ
most n = n * 9 / 10

abbrev result : Learned
result = learn_from [] as_they_are most flags logs

learn_from_coverage_example :
    (result.total_messages ≤ result.line_count)
    × (result.covered_messages ≤ result.total_messages)
    × (min (most result.total_messages) result.total_messages ≤ result.covered_messages)
learn_from_coverage_example = learn_from_coverage [] as_they_are most flags logs perm_refl

abbrev literal : Regexp
literal = record {
  compiles = λ pattern. true;
  match_string = λ pattern text. true;
  replace_all = λ pattern text by. text;
}

abbrev lines : List String
lines = "user 3 logged in" ∷ " " ∷ "stopped" ∷ []

audit-learn_from_example :
    let t = audit literal result.profile.fingerprints lines no_stats in
    (t.dropped_lines ≡ 0)
    × (t.kept_lines ≡ 0)
    × (t.templated_lines + t.unmatched_lines ≡ count (λ line. not (is_blank line)) lines)
audit-learn_from_example = audit-learn_from [] as_they_are most flags logs literal lines
