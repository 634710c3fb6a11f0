-- ===== src/Server/Tests.antt =====
-- The start of the server on the default configuration (cmd/server/main.go).
use logsieve.Prelude.{
  negsuc, Bool, ◌∷◌, ◌&&◌, not, str_eq, has_prefix, ℕ, String, true, false, List, [], Option, none,
  some, has_any, text_length, ◌≡◌, refl,
}
use logsieve.Profiles.Manager.Creation.Tests.{literal, lengths, base64, no_hex}
use logsieve.Config.{Config, default_config}
use logsieve.Config.Loading.{Viper, not_found}
use logsieve.Processor.{Processor}
use logsieve.Processor.Setup.{Environment, buffer_panics}
use logsieve.Server.{Route, Routes, setup_router, metrics_routes, routes_registered, Server}

abbrev environment : Environment ℕ String String
environment = record {
  re = literal;
  crypto = lengths;
  unmarshal = λ d. none;
  listing = λ path. none;
  base64 = base64;
  hex = no_hex;
  masking_rules = [];
  constructs = λ cfg. false;
  ticker_panics = λ cfg. true;
  largest_channel = 1000000000000;
}

-- There is no file, and nothing is set in the environment.
abbrev no_file : Viper String
no_file = record { read_in_config = λ path. not_found; unmarshal = λ f defaults c. some c }

-- Absolute paths, and none twice.
abbrev are_paths : List Route → Bool
are_paths [] = true
are_paths (r ∷ rs) =
    has_prefix r.path "/" && not (has_any (λ (o : Route). str_eq o.path r.path) rs) && are_paths rs

abbrev are_registered : Routes → Bool
are_registered r = are_paths r.routes

abbrev levels : String → Option ℕ
levels level = some (text_length level)

abbrev same_text : String → String
same_text m = m

-- The metrics path of /health makes gin panic, and so does a buffer of negative size make.
abbrev twice_health : Config
twice_health = record default_config {
  metrics = record { enabled = true; port = 9090; path = "/health" };
}

health_not_registered : routes_registered are_registered twice_health ≡ false
unfolding default_config setup_router metrics_routes has_prefix
health_not_registered = refl

negative_buffer_panics :
    buffer_panics environment (record default_config.ingestion { buffer_size = negsuc 0 }) ≡ true
negative_buffer_panics = refl
