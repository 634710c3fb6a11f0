-- ===== src/Profiles/Manager/Creation/Tests.antt =====
-- NewManager of pkg/profiles/manager.go on a key in hexadecimal digits.
use logsieve.Prelude.{
  ℕ, ◌*◌, ◌/◌, String, true, false, [], ◌∷◌, Option, none, some, text_length, str_eq, ◌≡◌, refl,
  arith,
}
use logsieve.Profiles.Rules.{Regexp}
use logsieve.Profiles.Manager.{Crypto, verify_profile}
use logsieve.Profiles.Manager.Loading.{nginx_profile}
use logsieve.Profiles.Manager.Creation.{IsHexKey, new_manager, hex_keys_verify_nothing}
use logsieve.Config.{ProfilesConfig}

abbrev pub literal : Regexp
literal = record {
  compiles = λ pattern. true;
  match_string = λ pattern text. str_eq pattern text;
  replace_all = λ pattern text by. by;
}

-- A key is its length, and verifies everything.
abbrev pub lengths : Crypto ℕ String
lengths = record {
  decode = λ text. some text;
  format_rate = λ r. "";
  size = λ k. k;
  verify = λ k text sig. true;
}

-- Text as Base64 of three quarters of its length.
abbrev pub base64 : String → Option ℕ
base64 text = some (text_length text * 3 / 4)

abbrev pub no_hex : String → Option ℕ
no_hex text = none

abbrev hex_key : String
hex_key = "00112233445566778899aabbccddeeff00112233445566778899aabbccddeeff"

hex_key-IsHexKey : IsHexKey hex_key
unfolding text_length
hex_key-IsHexKey = record { sized = refl; digits = refl }

abbrev strict : ProfilesConfig
strict = record {
  auto_detect = true;
  hub_url = "";
  sync_interval = 0;
  local_path = "";
  cache_path = "";
  default_profile = "generic";
  trust_mode = "strict";
  public_keys = hex_key ∷ [];
}

hex_keys_verify_nothing_example :
    verify_profile literal lengths (new_manager base64 no_hex strict) nginx_profile ≡ false
hex_keys_verify_nothing_example =
    hex_keys_verify_nothing literal lengths base64 no_hex
      (λ text h. (text_length text * 3 / 4, refl, omega (arith, h.sized))) strict hex_key []
      nginx_profile refl (hex_key-IsHexKey, tt) refl refl
