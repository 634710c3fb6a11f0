-- ===== src/Profiles/Tests.antt =====
-- The detector and the manager on small inputs, with a regexp that is the text itself.
use logsieve.Prelude.{
  has_prefix, trim_space, trim_end, is_lower_of, ℕ, ◌<◌, String, true, false, [], ◌∷◌, ◌++◌, none,
  some, str_eq, contains, lookup, ◌≡◌, refl, arith, Option, List, ◌⊎◌,
}
use logsieve.Ingestion.Entry.{LogEntry, blank_entry, no_maps}
use logsieve.Profiles.Detector.{
  check_image_patterns, check_log_patterns, image_name, DetectionRule, calculate_score,
}
use logsieve.Profiles.Rules.{
  FingerprintRule, Profile, Regexp, Transform, validate_fingerprint, validate_transform,
  effective_action, matches,
}
use logsieve.Profiles.Manager.{
  Manager, Crypto, validate_profile, check_fingerprints, check_transforms, check_sampling,
  verify_profile, add_profile, get_profile, process_entry, process_with_profile,
}
use logsieve.Profiles.Manager.Accepting.{IsSigned, add_profile_strict}
use logsieve.Profiles.Manager.Loading
use logsieve.Profiles.Manager.Loading.{DirEntry, load_profiles}
use logsieve.Profiles.Manager.Loading.Trust.{IsBuiltin, IsVerified, load_profiles_strict}
use logsieve.Profiles.Manager.Processing.{
  NoneHits, HasGeneric, or_else, process_entry_first_hit, process_with_profile_safe,
}

abbrev literal : Regexp
literal = record {
  compiles = λ pattern. true;
  match_string = str_eq;
  replace_all = λ pattern text by. by;
}

-- A signature is its text, and is valid when it is that of the only key.
abbrev plain_crypto : Crypto String String
plain_crypto = record {
  decode = λ s. some s;
  format_rate = λ r. "0";
  size = λ k. 32;
  verify = λ k text sig. str_eq k sig;
}

abbrev drop_rule : FingerprintRule
drop_rule = record { pattern = "ping"; action = "drop"; unless = ""; preserve = [] }

abbrev empty_rule : FingerprintRule
empty_rule = record { pattern = "pong"; action = ""; unless = ""; preserve = [] }

abbrev profile : Profile
profile = record {
  api_version = "v1";
  kind = "LogProfile";
  name = "app";
  version = "1";
  images = "app" ∷ [];
  signature = " key ";
  fingerprints = empty_rule ∷ drop_rule ∷ [];
  context_triggers = [];
  sampling = [];
  transforms = [];
}

abbrev strict_manager : Manager String
strict_manager = record {
  auto_detect = false;
  default_profile = "app";
  trust_mode = "strict";
  pubkeys = "key" ∷ [];
  profiles = ("generic", profile) ∷ [];
  detection_rules = [];
}

abbrev message : String → LogEntry
message m = record blank_entry { message = m }

abbrev image_rule : String → ℕ → DetectionRule
image_rule name priority = record {
  profile_name = name;
  image_patterns = [];
  log_patterns = "x" ∷ [];
  priority = priority;
}

accepted : (add_profile literal plain_crypto profile strict_manager).0 ≡ true
unfolding add_profile validate_profile check_fingerprints check_transforms check_sampling
    verify_profile validate_fingerprint effective_action trim_space trim_end
accepted = refl

add_profile_strict_example : IsSigned plain_crypto strict_manager profile
add_profile_strict_example =
    (add_profile_strict literal plain_crypto strict_manager profile refl refl accepted).1

abbrev erase : Transform
erase = record { field = "Message"; regex = "pong"; replace = "" }

erase_valid : check_transforms literal (erase ∷ []) ≡ none
unfolding check_transforms validate_transform is_lower_of
erase_valid = refl

no_pong : NoneHits literal "ping" (empty_rule ∷ [])
unfolding matches
no_pong = (refl, tt)

hit :
    (m : String)
    → str_eq m m ≡ true
    → (elim (matches literal m m) [ none ↦ false | some b ↦ b ]) ≡ true
unfolding matches
hit m e = e

process_entry_first_hit_example :
    (process_entry literal (message "ping") profile).drop ≡ str_eq "drop" "drop"
process_entry_first_hit_example =
    (process_entry_first_hit literal (message "ping") profile (empty_rule ∷ []) [] drop_rule refl
      no_pong (hit "ping" refl)).0

generic_there : HasGeneric strict_manager
unfolding get_profile lookup
generic_there = (profile, refl)

process_with_profile_safe_example :
    process_with_profile literal (message "ping") "none" strict_manager
    ≡ some (
        process_entry literal
          (message "ping")
          (or_else (get_profile "none" strict_manager) profile))
unfolding generic_there
process_with_profile_safe_example =
    (process_with_profile_safe literal plain_crypto strict_manager (message "ping") "none" profile
      profile generic_there.1).0

low_at :
    calculate_score no_maps (message "x") (image_rule "low" 1)
    < calculate_score no_maps (message "x") (image_rule "high" 3)
unfolding calculate_score check_image_patterns check_log_patterns contains has_prefix image_name
low_at = omega arith

high_at : 0 < calculate_score no_maps (message "x") (image_rule "high" 3)
unfolding calculate_score check_image_patterns check_log_patterns contains has_prefix image_name
high_at = omega arith

-- A file is its profile; the second one has no signature.
abbrev files : String → Option (List (DirEntry Profile))
files path = some (
    record { name = "app.yaml"; is_dir = false; content = some profile }
    ∷ record {
      name = "generic.yml";
      is_dir = false;
      content = some (record profile { name = "generic"; signature = "" });
    }
    ∷ [])

abbrev no_routing : Profile → Option (Profile × List String)
no_routing p = some (p, [])

abbrev new_manager : Manager String
new_manager = record strict_manager { profiles = [] }

app_loaded :
    lookup "app"
      (load_profiles literal plain_crypto no_routing files "/etc/logsieve" "" new_manager).profiles
    ≡ some profile
unfolding load_profiles lookup Loading.load_profiles_from_dir Loading.load_file
    logsieve.Prelude.has_suffix Loading.parse_profile Loading.compile_patterns verify_profile
    Loading.load_builtin_profiles trim_space logsieve.Prelude.insert
app_loaded = refl

load_profiles_strict_example :
    IsBuiltin profile ⊎ IsVerified literal plain_crypto new_manager profile
load_profiles_strict_example =
    load_profiles_strict literal plain_crypto new_manager refl no_routing files "/etc/logsieve" ""
      "app" profile refl app_loaded
