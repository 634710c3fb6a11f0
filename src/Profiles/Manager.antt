-- ===== src/Profiles/Manager.antt =====
-- The Manager of pkg/profiles/manager.go, without the files and the hub that profiles come from.
-- Base64 and Ed25519 are parameters, and so is the text of a rate; logging and metrics are left out.
pub mod Accepting
pub mod Creation
pub mod Loading
pub mod Processing
use logsieve.Prelude.{
  ℕ, ◌==◌, String, Bool, true, false, not, ◌&&◌, ◌||◌, List, [], ◌∷◌, ◌++◌, Option, none, some,
  length, if◌then◌else◌, str_eq, join, trim_space, has_any, Dict, lookup, insert, delete,
}
use logsieve.Ingestion.Entry.{LogEntry, Heap, label_of}
use logsieve.Profiles.Detector.{DetectionRule, detect}
use logsieve.Profiles.Rules.{
  FingerprintRule, SamplingRule, Transform, Profile, Rate, fraction, ValidationError, name_required,
  version_required, Regexp, matches, validate_fingerprint, validate_sampling, validate_transform,
  apply_transform,
}

pub record Manager (Key : Type 0) : Type 0 where
  pub auto_detect : Bool
  pub default_profile : String
  pub trust_mode : String
  pub pubkeys : List Key
  pub profiles : Dict Profile
  pub detection_rules : List DetectionRule

pub record ProcessedEntry : Type 0 where
  pub entry : LogEntry
  pub profile : String
  pub actions : List String
  pub drop : Bool
  pub template : Bool
  pub sample : Bool
  pub sample_rate : Rate
  pub modified : Bool
  pub matched : Bool

-- A rule matches; an error in its pattern is logged, and the loop goes on.
abbrev pub hits : Regexp → String → String → Bool
hits re pattern message = elim (matches re pattern message) [ none ↦ false | some b ↦ b ]

unfoldable pub first_fingerprint : Regexp → String → List FingerprintRule → Option FingerprintRule
first_fingerprint re message [] = none
first_fingerprint re message (r ∷ rs) =
    let rest = first_fingerprint re message rs in if hits re r.pattern message then some r else rest

unfoldable pub first_sampling : Regexp → String → List SamplingRule → Option SamplingRule
first_sampling re message [] = none
first_sampling re message (r ∷ rs) =
    let rest = first_sampling re message rs in if hits re r.pattern message then some r else rest

-- The loop over the transforms, with the Modified flag.
unfoldable pub apply_transforms : Regexp → List Transform → LogEntry → Bool → LogEntry × Bool
apply_transforms re [] e modified = (e, modified)
apply_transforms re (t ∷ ts) e modified = elim (apply_transform re t e) [
  | none ↦ apply_transforms re ts e modified
  | some changed ↦ apply_transforms re ts changed true
]

abbrev pub is_hit : Option FingerprintRule → Bool
is_hit none = false
is_hit (some r) = true

abbrev pub action_of : Option FingerprintRule → String
action_of none = ""
action_of (some r) = r.action

-- processEntry after the fingerprints, when nothing is dropped.
unfoldable pub keep_entry : Regexp → LogEntry → Profile → Option FingerprintRule → ProcessedEntry
keep_entry re e p rule =
    let sampled = first_sampling re e.message p.sampling in
    let changed = apply_transforms re p.transforms e false in
    record {
      entry = changed.0;
      profile = p.name;
      actions = elim rule [ none ↦ [] | some r ↦ r.action ∷ [] ];
      drop = false;
      template = is_hit rule && str_eq (action_of rule) "template";
      sample = elim sampled [ none ↦ false | some s ↦ true ];
      sample_rate = elim sampled [ none ↦ fraction 0 1 | some s ↦ s.rate ];
      modified = changed.1;
      matched = is_hit rule;
    }

unfoldable pub drop_entry : LogEntry → Profile → ProcessedEntry
drop_entry e p = record {
  entry = e;
  profile = p.name;
  actions = "drop" ∷ [];
  drop = true;
  template = false;
  sample = false;
  sample_rate = fraction 0 1;
  modified = false;
  matched = false;
}

unfoldable pub process_entry : Regexp → LogEntry → Profile → ProcessedEntry
process_entry re e p =
    let rule = first_fingerprint re e.message p.fingerprints in
    if is_hit rule && str_eq (action_of rule) "drop" then drop_entry e p else keep_entry re e p rule

-- Validate is called on the loop's copy of each rule, so that its change is not kept.
unfoldable pub check_fingerprints : Regexp → List FingerprintRule → Option ValidationError
check_fingerprints re [] = none
check_fingerprints re (r ∷ rs) =
    let rest = check_fingerprints re rs in
    elim (validate_fingerprint re r).0 [ none ↦ rest | some e ↦ some e ]

unfoldable pub check_sampling : Regexp → List SamplingRule → Option ValidationError
check_sampling re [] = none
check_sampling re (r ∷ rs) =
    let rest = check_sampling re rs in
    elim (validate_sampling re r) [ none ↦ rest | some e ↦ some e ]

unfoldable pub check_transforms : Regexp → List Transform → Option ValidationError
check_transforms re [] = none
check_transforms re (t ∷ ts) =
    let rest = check_transforms re ts in
    elim (validate_transform re t) [ none ↦ rest | some e ↦ some e ]

abbrev first_error : Option ValidationError → Option ValidationError → Option ValidationError
first_error none later = later
first_error (some e) later = some e

unfoldable pub validate_profile : Regexp → Profile → Option ValidationError
validate_profile re p =
    if str_eq p.name ""
    then some name_required
    else if str_eq p.version ""
    then some version_required
    else first_error (check_fingerprints re p.fingerprints)
        (first_error (check_sampling re p.sampling) (check_transforms re p.transforms))

abbrev fingerprint_lines : List FingerprintRule → String
fingerprint_lines [] = ""
fingerprint_lines (r ∷ rs) =
    Prim.Native.String.◌++◌ (join "|" (r.pattern ∷ r.action ∷ []))
      (Prim.Native.String.◌++◌ "\n" (fingerprint_lines rs))

abbrev sampling_lines : (Rate → String) → List SamplingRule → String
sampling_lines format_rate [] = ""
sampling_lines format_rate (r ∷ rs) =
    Prim.Native.String.◌++◌ (join "|" (r.pattern ∷ format_rate r.rate ∷ []))
      (Prim.Native.String.◌++◌ "\n" (sampling_lines format_rate rs))

unfoldable pub signable_bytes : (Rate → String) → Profile → String
signable_bytes format_rate p = join "\n" (
    p.api_version
    ∷ p.kind
    ∷ p.name
    ∷ p.version
    ∷ join "," p.images
    ∷ Prim.Native.String.◌++◌ (fingerprint_lines p.fingerprints)
        (sampling_lines format_rate p.sampling)
    ∷ [])

abbrev pub is_wildcard : List String → Bool
is_wildcard (image ∷ []) = str_eq image "*"
is_wildcard _ = false

abbrev pub is_nil {ℓ} : {A : Type ℓ} → List A → Bool
is_nil [] = true
is_nil (x ∷ xs) = false

-- What the manager uses of Base64, fmt and Ed25519: the decoding of a signature, the text of a rate,
-- the length of a key, and whether a key verifies a text and a signature.
pub record Crypto (Key Signature : Type 0) : Type 0 where
  pub decode : String → Option Signature
  pub format_rate : Rate → String
  pub size : Key → ℕ
  pub verify : Key → String → Signature → Bool

-- The test of a key in verifyProfile; 32 is ed25519.PublicKeySize.
abbrev pub verifies :
    {Key Signature : Type 0} → Crypto Key Signature → Key → String → Signature → Bool
verifies crypto k text sig = crypto.size k == 32 && crypto.verify k text sig

module _ {Key Signature : Type 0} (re : Regexp) (crypto : Crypto Key Signature) where
  -- verifyProfile returns no error.
  unfoldable pub verify_profile : Manager Key → Profile → Bool
  verify_profile m p =
      if str_eq m.trust_mode "offline" || is_wildcard p.images
      then true
      else if is_nil m.pubkeys
      then not (str_eq m.trust_mode "strict")
      else if str_eq (trim_space p.signature) ""
      then false
      else elim (crypto.decode (trim_space p.signature)) [
        | none ↦ false
        | some sig ↦
            has_any (λ k. verifies crypto k (signable_bytes crypto.format_rate p) sig) m.pubkeys
      ]

  -- Whether AddProfile accepts the profile, and the manager after it.
  unfoldable pub add_profile : Profile → Manager Key → Bool × Manager Key
  add_profile p m = elim (validate_profile re p) [
    | some e ↦ (false, m)
    | none ↦
        if not (verify_profile m p) && str_eq m.trust_mode "strict"
        then (false, m)
        else (true, record m { profiles = insert p.name p m.profiles })
  ]

-- The label "profile", where it is not "auto".
unfoldable pub labelled_profile : Heap → LogEntry → Option String
labelled_profile h e = elim (label_of h e "profile") [
  | none ↦ none
  | some profile ↦ if str_eq profile "auto" then none else some profile
]

module _ {Key : Type 0} where
  unfoldable pub remove_profile : String → Manager Key → Bool × Manager Key
  remove_profile name m = elim (lookup name m.profiles) [
    | none ↦ (false, m)
    | some p ↦ (true, record m { profiles = delete name m.profiles })
  ]

  unfoldable pub get_profile : String → Manager Key → Option Profile
  get_profile name m = lookup name m.profiles

  unfoldable pub detect_profile : Heap → LogEntry → Manager Key → String
  detect_profile h e m =
      let detected = detect h m.detection_rules e in
      if not m.auto_detect then m.default_profile else elim (labelled_profile h e) [
        | some profile ↦ profile
        | none ↦ if str_eq detected "" then m.default_profile else detected
      ]

  -- The profile, or the generic one; where there is neither, processEntry reads through nil and
  -- panics, which is nothing here.
  unfoldable pub process_with_profile :
      Regexp → LogEntry → String → Manager Key → Option ProcessedEntry
  process_with_profile re e name m = elim (get_profile name m) [
    | some p ↦ some (process_entry re e p)
    | none ↦ elim (get_profile "generic" m) [ none ↦ none | some p ↦ some (process_entry re e p) ]
  ]
