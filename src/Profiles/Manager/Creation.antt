-- ===== src/Profiles/Manager/Creation.antt =====
-- NewManager, ListProfiles, GetStats and ClearCache of pkg/profiles/manager.go. Decoding a key from
-- Base64 or from hexadecimal digits is a parameter, and so is whether os.Remove removes a file.
pub mod Tests
use logsieve.Prelude.{
  ℕ, ◌==◌, ◌≤◌, String, Bool, true, false, not, ◌&&◌, ◌||◌, List, [], ◌∷◌, Option, none, some,
  length, if◌then◌else◌, str_eq, eq_iff, has_suffix, has_any, All, text_length, trim_space, leb,
  ltb, ◌≡◌, refl, ap, ◌∙◌, arith, Bool-cases, Option-cases, inl, inr,
}
use Prim.Native.Char.{code}
use logsieve.Config.{ProfilesConfig}
use logsieve.Profiles.Rules.{Profile, Regexp}
use logsieve.Profiles.Detector.{default_detection_rules}
use logsieve.Profiles.Manager.{
  Manager, is_nil, Crypto, verifies, verify_profile, is_wildcard, signable_bytes,
}
use logsieve.Profiles.Manager.Loading.{DirEntry, load_file, load_profiles_from_dir}
use logsieve.Output.Router.{keys}

module _ {Key : Type 0} (base64 hex : String → Option Key) where
  -- A text that is neither is left out.
  unfoldable pub decode_keys : List String → List Key
  decode_keys [] = []
  decode_keys (text ∷ texts) =
      let rest = decode_keys texts in
      elim (base64 text) [
        | some k ↦ k ∷ rest
        | none ↦ elim (hex text) [ some k ↦ k ∷ rest | none ↦ rest ]
      ]

  unfoldable pub new_manager : ProfilesConfig → Manager Key
  new_manager cfg = record {
    auto_detect = cfg.auto_detect;
    default_profile = cfg.default_profile;
    trust_mode = cfg.trust_mode;
    pubkeys = decode_keys cfg.public_keys;
    profiles = [];
    detection_rules = default_detection_rules;
  }

pub record ManagerStats : Type 0 where
  pub profile_count : ℕ
  pub profiles : List String

module _ {Key : Type 0} where
  unfoldable pub list_profiles : Manager Key → List String
  list_profiles m = keys m.profiles

  unfoldable pub get_stats : Manager Key → ManagerStats
  get_stats m = record { profile_count = length m.profiles; profiles = list_profiles m }

module _ {D : Type 0} where
  abbrev pub is_profile_file : DirEntry D → Bool
  is_profile_file e = not e.is_dir && (has_suffix e.name ".yaml" || has_suffix e.name ".yml")

  -- What is left in the directory.
  unfoldable pub remove_files : (String → Bool) → List (DirEntry D) → List (DirEntry D)
  remove_files removes [] = []
  remove_files removes (e ∷ es) =
      let rest = remove_files removes es in
      if is_profile_file e && removes e.name then rest else e ∷ rest

  -- Nothing where the directory cannot be read, though it exists; one that does not is empty.
  unfoldable pub clear_cache :
      (String → Bool) → String → Option (List (DirEntry D)) → Option (List (DirEntry D))
  clear_cache removes cache_path none = if str_eq cache_path "" then some [] else none
  clear_cache removes cache_path (some es) =
      if str_eq cache_path "" then some es else some (remove_files removes es)

-- The digits 0 to 9, a to f and A to F.
abbrev is_hex_digit : ℕ → Bool
is_hex_digit c = leb b'0' c && leb c b'9' || leb b'a' c && leb c b'f' || leb b'A' c && leb c b'F'

abbrev pub all_hex : String → Bool
all_hex String.[] = true
all_hex (String.◌∷◌ c s) = is_hex_digit (code c) && all_hex s

-- A public key of Ed25519 as hexadecimal digits.
pub record IsHexKey (text : String) : Type 0 where
  pub sized : text_length text ≡ 64
  pub digits : all_hex text ≡ true

module _ {Key Signature : Type 0} (re : Regexp) (crypto : Crypto Key Signature)
    (base64 hex : String → Option Key)
    (hex_is_base64 : (text : String)
      → IsHexKey text
      → (k : Key) × (base64 text ≡ some k) × (crypto.size k ≡ 48)) where
  none_verifies :
      (texts : List String) (text : String) (sig : Signature)
      → All IsHexKey texts
      → has_any (λ k. verifies crypto k text sig) (decode_keys base64 hex texts) ≡ false
  unfolding decode_keys
  none_verifies [] text sig a = refl
  none_verifies (t ∷ ts) text sig a =
      let h = hex_is_base64 t a.0 in
      elim (Bool-cases (verifies crypto h.0 text sig)) [
        | inl v ↦ absurd (ground (arith, v, h.2))
        | inr n ↦ ground (arith, h.1, n, none_verifies ts text sig a.1)
      ]

  decode_keys_some :
      (t : String) (ts : List String)
      → IsHexKey t
      → is_nil (decode_keys base64 hex (t ∷ ts)) ≡ false
  unfolding decode_keys
  decode_keys_some t ts a = ground (arith, (hex_is_base64 t a).1)

  -- The keys in hexadecimal digits are of no use: such a text of 64 digits can be read as Base64 too,
  -- which is tried first and yields 48 bytes, so that, if there are configured keys, all of them are of
  -- this form and the trust mode is not "offline", no profile passes the verification whose only image
  -- is not the wildcard, whatever its signature.
  pub hex_keys_verify_nothing :
      (cfg : ProfilesConfig) (t : String) (ts : List String) (p : Profile)
      → cfg.public_keys ≡ t ∷ ts
      → All IsHexKey (t ∷ ts)
      → str_eq cfg.trust_mode "offline" ≡ false
      → is_wildcard p.images ≡ false
      → verify_profile re crypto (new_manager base64 hex cfg) p ≡ false
  unfolding verify_profile new_manager
  hex_keys_verify_nothing cfg t ts p e a o w =
      let keys_of = decode_keys base64 hex in
      let there : is_nil (keys_of cfg.public_keys) ≡ false =
        ap (λ l. is_nil (keys_of l)) e ∙ decode_keys_some t ts a.0 in
      elim (Option-cases (crypto.decode (trim_space p.signature))) [
        | inl n ↦ ground (arith, there, o, w, n)
        | inr (sig, d) ↦
            (let none_of : has_any
                    (λ k. verifies crypto k (signable_bytes crypto.format_rate p) sig)
                    (keys_of cfg.public_keys)
                  ≡ false =
                ap
                  (λ l.
                    has_any (λ k. verifies crypto k (signable_bytes crypto.format_rate p) sig)
                      (keys_of l))
                  e
                ∙ none_verifies (t ∷ ts) (signable_bytes crypto.format_rate p) sig a in
              ground (arith, there, o, w, d, none_of))
      ]

module _ {D Key Signature : Type 0} (re : Regexp) (crypto : Crypto Key Signature)
    (unmarshal : D → Option (Profile × List String)) where
  file_left :
      (e : DirEntry D) (m : Manager Key)
      → is_profile_file e ≡ false
      → load_file re crypto unmarshal e m ≡ m
  unfolding load_file
  file_left e m n = ground (arith, n)

  -- ClearCache clears the cache: when its files can be removed, loading the profiles of the directory
  -- afterwards changes nothing.
  pub load-remove_files :
      (removes : String → Bool) (es : List (DirEntry D)) (m : Manager Key)
      → ((name : String) → removes name ≡ true)
      → load_profiles_from_dir re crypto unmarshal (remove_files removes es) m ≡ m
  unfolding load_profiles_from_dir remove_files
  load-remove_files removes [] m r = refl
  load-remove_files removes (e ∷ es) m r = elim (Bool-cases (is_profile_file e)) [
    | inl y ↦ ground (arith, y, r e.name, load-remove_files removes es m r)
    | inr n ↦ ground (arith, n, file_left e m n, load-remove_files removes es m r)
  ]
