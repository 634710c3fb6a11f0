-- ===== src/Profiles/Manager/Loading.antt =====
-- Where the profiles of pkg/profiles/manager.go come from: the builtin ones, the files of two
-- directories, and the hub with the cache of what was downloaded. YAML, reading a directory or a file,
-- and the hub's answers are parameters. What parsing yields are the profile and the patterns of its
-- routing rules, which nothing else reads. Nobody else writes into the cache during a download, and a
-- write to it succeeds.
pub mod Trust
pub mod Generic
use logsieve.Prelude.{
  ℕ, ◌==◌, String, Bool, true, false, not, ◌&&◌, ◌||◌, List, [], ◌∷◌, ◌++◌, map, Option, none, some,
  if◌then◌else◌, str_eq, eq_iff, has_suffix, trim_suffix, Dict, lookup, insert, lookup-insert, ◌≡◌,
  ◌⊎◌, inl, inr, refl, sym, ap, subst, ◌∙◌, arith, Bool-cases, Option-cases,
}
use Prim.Native.String.{◌++◌ as ◌<>◌}
use logsieve.Profiles.Rules.{
  Profile, Regexp, FingerprintRule, SamplingRule, ContextTrigger, Transform, fraction,
}
use logsieve.Profiles.Manager.{Manager, Crypto, verify_profile, signable_bytes}

-- A file that cannot be read has no content.
pub record DirEntry (D : Type 0) : Type 0 where
  pub name : String
  pub is_dir : Bool
  pub content : Option D

abbrev plain_rule : String → String → FingerprintRule
plain_rule pattern action = record {
  pattern = pattern;
  action = action;
  unless = "";
  preserve = [];
}

abbrev pub generic_profile : Profile
generic_profile = record {
  api_version = "";
  kind = "";
  name = "generic";
  version = "1.0.0";
  images = "*" ∷ [];
  signature = "";
  fingerprints = plain_rule ".*" "template" ∷ [];
  context_triggers = [];
  sampling = [];
  transforms = [];
}

abbrev pub nginx_profile : Profile
nginx_profile = record {
  api_version = "";
  kind = "";
  name = "nginx";
  version = "1.0.0";
  images = "nginx:*" ∷ "nginx" ∷ [];
  signature = "";
  fingerprints =
      record {
        pattern = "\\d+\\.\\d+\\.\\d+\\.\\d+ - - \\[.*?\\] \".*?\" \\d+ \\d+";
        action = "template";
        unless = "";
        preserve = "method" ∷ "status" ∷ "size" ∷ [];
      }
      ∷ plain_rule "access log" "drop"
      ∷ [];
  context_triggers = [];
  sampling = record { pattern = "GET /health"; rate = fraction 1 100 } ∷ [];
  transforms = [];
}

module _ {Key : Type 0} where
  unfoldable pub load_builtin_profiles : Manager Key → Manager Key
  load_builtin_profiles m = record m {
    profiles = insert "nginx" nginx_profile (insert "generic" generic_profile m.profiles);
  }

abbrev pub all_compile : Regexp → List String → Bool
all_compile re [] = true
all_compile re (pattern ∷ patterns) = re.compiles pattern && all_compile re patterns

unfoldable pub compile_patterns : Regexp → Profile → List String → Bool
compile_patterns re p routing =
    all_compile re (map (λ r. r.pattern) p.fingerprints)
    && all_compile re (map (λ t. t.pattern) p.context_triggers)
    && all_compile re (map (λ s. s.pattern) p.sampling)
    && all_compile re (map (λ t. t.regex) p.transforms)
    && all_compile re routing

-- What the hub answers: a status with a body, which cannot be read where it is nothing.
pub data HubAnswer (D : Type 0) : Type 0 where
  unreachable : HubAnswer D
  status : (code : ℕ) (body : Option D) → HubAnswer D

module _ {Key Signature : Type 0} (re : Regexp) (crypto : Crypto Key Signature) where
  -- if err := m.verifyProfile(prof); err != nil { if m.trustMode == "strict" ... }
  abbrev pub is_trusted : Manager Key → Profile → Bool
  is_trusted m p = verify_profile re crypto m p || not (str_eq m.trust_mode "strict")

  abbrev pub add_parsed : Option Profile → Manager Key → Manager Key
  add_parsed none m = m
  add_parsed (some p) m =
      if is_trusted m p then record m { profiles = insert p.name p m.profiles } else m

module _ {D : Type 0} (re : Regexp) (unmarshal : D → Option (Profile × List String)) where
  unfoldable pub parse_profile : D → Option Profile
  parse_profile d = elim (unmarshal d) [
    | none ↦ none
    | some (p, routing) ↦ if compile_patterns re p routing then some p else none
  ]

  abbrev pub parse_content : Option D → Option Profile
  parse_content none = none
  parse_content (some d) = parse_profile d

  -- The cache is a map from the names of profiles to the contents of their files.
  unfoldable pub load_cached_profile : String → Dict D → String → Option Profile
  load_cached_profile cache_path cache name =
      if str_eq cache_path "" then none else parse_content (lookup name cache)

unfoldable pub cache_profile : {D : Type 0} → String → String → D → Dict D → Dict D
cache_profile cache_path name d cache = if str_eq cache_path "" then cache else insert name d cache

module _ {D Key Signature : Type 0} (re : Regexp) (crypto : Crypto Key Signature)
    (unmarshal : D → Option (Profile × List String)) where
  unfoldable pub load_file : DirEntry D → Manager Key → Manager Key
  load_file e m =
      if e.is_dir
      then m
      else if has_suffix e.name ".yaml" || has_suffix e.name ".yml"
      then add_parsed re crypto (parse_content re unmarshal e.content) m
      else m

  unfoldable pub load_profiles_from_dir : List (DirEntry D) → Manager Key → Manager Key
  load_profiles_from_dir [] m = m
  load_profiles_from_dir (e ∷ es) m = load_profiles_from_dir es (load_file e m)

  -- A path that is empty is not read, and a directory that cannot be read changes nothing.
  abbrev pub load_from_path :
      (String → Option (List (DirEntry D))) → String → Manager Key → Manager Key
  load_from_path listing path m =
      if str_eq path ""
      then m
      else elim (listing path) [ none ↦ m | some es ↦ load_profiles_from_dir es m ]

  unfoldable pub load_profiles :
      (String → Option (List (DirEntry D))) → String → String → Manager Key → Manager Key
  load_profiles listing local_path cache_path m =
      load_from_path listing cache_path
        (load_from_path listing local_path (load_builtin_profiles m))

  abbrev pub accept_body :
      String → String → Manager Key → Dict D → Option D → Option Profile × Dict D
  accept_body cache_path name m cache none = (none, cache)
  accept_body cache_path name m cache (some d) = elim (parse_profile re unmarshal d) [
    | none ↦ (none, cache)
    | some p ↦
        if is_trusted re crypto m p
        then (some p, cache_profile cache_path name d cache)
        else (none, cache)
  ]

  -- The second and the third look into the cache find as little as the first.
  unfoldable pub download_profile :
      (String → HubAnswer D)
      → String
      → String
      → String
      → Manager Key
      → Dict D
      → Option Profile × Dict D
  download_profile hub hub_url cache_path name m cache =
      if str_eq hub_url ""
      then (none, cache)
      else elim (load_cached_profile re unmarshal cache_path cache name) [
        | some cached ↦ (some cached, cache)
        | none ↦ elim (hub (trim_suffix hub_url "/" <> ("/profiles/" <> (name <> ".yaml")))) [
          | unreachable ↦ (none, cache)
          | status code body ↦
              if code == 200 then accept_body cache_path name m cache body else (none, cache)
        ]
      ]

pub data SyncError : Type 0 where
  fetch_failed : SyncError
  bad_status : ℕ → SyncError

-- The index of the hub is fetched and not read.
unfoldable pub sync_from_hub : {D : Type 0} → (String → HubAnswer D) → String → Option SyncError
sync_from_hub hub hub_url =
    if str_eq hub_url ""
    then none
    else elim (hub (trim_suffix hub_url "/" <> "/profiles/index.json")) [
      | unreachable ↦ some fetch_failed
      | status code body ↦ if code == 200 then none else some (bad_status code)
    ]
