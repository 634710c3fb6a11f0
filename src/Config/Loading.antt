-- ===== src/Config/Loading.antt =====
-- Load and setDefaults of pkg/config/loader.go. Package viper, which reads the file and the
-- environment and decodes them over the defaults, is a parameter.
use logsieve.Prelude.{
  ℕ, ℤ, String, Bool, List, [], ◌∷◌, Option, none, some, lookup, is_lower_of, Dict, All, ◌≡◌, refl,
  ap, ◌∙◌, arith,
}
use logsieve.Profiles.Rules.{Rate}
use logsieve.Config.{
  Config, ConfigError, default_config, fill_output, validate_outputs, validate_config,
}

pub data Setting : Type 0 where
  number : ℕ → Setting
  signed : ℤ → Setting
  text : String → Setting
  flag : Bool → Setting
  rate : Rate → Setting
  texts : List String → Setting

unfoldable pub set_defaults : Dict Setting
unfolding default_config
set_defaults =
    ("server.port", number default_config.server.port)
    ∷ ("server.address", text default_config.server.address)
    ∷ ("server.readTimeout", number default_config.server.read_timeout)
    ∷ ("server.writeTimeout", signed default_config.server.write_timeout)
    ∷ ("server.idleTimeout", number default_config.server.idle_timeout)
    ∷ ("ingestion.maxBatchSize", number default_config.ingestion.max_batch_size)
    ∷ ("ingestion.flushInterval", number default_config.ingestion.flush_interval)
    ∷ ("ingestion.maxMemoryMB", number default_config.ingestion.max_memory_mb)
    ∷ ("ingestion.bufferSize", signed default_config.ingestion.buffer_size)
    ∷ ("ingestion.maxRequestSize", number default_config.ingestion.max_request_size)
    ∷ ("ingestion.queueType", text default_config.ingestion.queue_type)
    ∷ ("ingestion.diskPath", text default_config.ingestion.disk_path)
    ∷ ("ingestion.maxDiskBytes", number default_config.ingestion.max_disk_bytes)
    ∷ ("dedup.engine", text default_config.dedup.engine)
    ∷ ("dedup.cacheSize", number default_config.dedup.cache_size)
    ∷ ("dedup.contextLines", number default_config.dedup.context_lines)
    ∷ ("dedup.similarityThreshold", rate default_config.dedup.similarity_threshold)
    ∷ ("dedup.patternTTL", number default_config.dedup.pattern_ttl)
    ∷ ("dedup.fingerprintTTL", number default_config.dedup.fingerprint_ttl)
    ∷ ("profiles.autoDetect", flag default_config.profiles.auto_detect)
    ∷ ("profiles.hubURL", text default_config.profiles.hub_url)
    ∷ ("profiles.syncInterval", number default_config.profiles.sync_interval)
    ∷ ("profiles.localPath", text default_config.profiles.local_path)
    ∷ ("profiles.cachePath", text default_config.profiles.cache_path)
    ∷ ("profiles.defaultProfile", text default_config.profiles.default_profile)
    ∷ ("profiles.trustMode", text default_config.profiles.trust_mode)
    ∷ ("profiles.publicKeys", texts default_config.profiles.public_keys)
    ∷ ("metrics.enabled", flag default_config.metrics.enabled)
    ∷ ("metrics.port", number default_config.metrics.port)
    ∷ ("metrics.path", text default_config.metrics.path)
    ∷ ("logging.level", text default_config.logging.level)
    ∷ ("logging.format", text default_config.logging.format)
    ∷ ("logging.output", text default_config.logging.output)
    ∷ ("logging.structured", flag default_config.logging.structured)
    ∷ []

-- What ReadInConfig answers: a file that is not there is told apart from every other error.
pub data ReadResult (F : Type 0) : Type 0 where
  not_found broken : ReadResult F
  found : F → ReadResult F

-- Decoding takes the file, the defaults and the configuration to write into.
pub record Viper (F : Type 0) : Type 0 where
  pub read_in_config : String → ReadResult F
  pub unmarshal : Option F → Dict Setting → Config → Option Config

pub data LoadResult : Type 0 where
  read_error unmarshal_error : LoadResult
  invalid : ConfigError → LoadResult
  loaded : Config → LoadResult

abbrev checked : Option ConfigError × Config → LoadResult
checked (some e, c) = invalid e
checked (none, c) = loaded c

abbrev decoded : Option Config → LoadResult
decoded none = unmarshal_error
decoded (some c) = checked (validate_config c)

module _ {F : Type 0} (viper : Viper F) where
  abbrev load_from : ReadResult F → LoadResult
  load_from broken = read_error
  load_from not_found = decoded (viper.unmarshal none set_defaults default_config)
  load_from (found f) = decoded (viper.unmarshal (some f) set_defaults default_config)

  unfoldable pub load : String → LoadResult
  load config_path = load_from (viper.read_in_config config_path)

-- The fields of a configuration by their mapstructure tags, the outputs apart.
abbrev tags : Config → Dict Setting
tags c =
    ("server.port", number c.server.port)
    ∷ ("server.address", text c.server.address)
    ∷ ("server.readTimeout", number c.server.read_timeout)
    ∷ ("server.writeTimeout", signed c.server.write_timeout)
    ∷ ("server.idleTimeout", number c.server.idle_timeout)
    ∷ ("ingestion.maxBatchSize", number c.ingestion.max_batch_size)
    ∷ ("ingestion.flushInterval", number c.ingestion.flush_interval)
    ∷ ("ingestion.maxMemoryMB", number c.ingestion.max_memory_mb)
    ∷ ("ingestion.bufferSize", signed c.ingestion.buffer_size)
    ∷ ("ingestion.maxRequestSize", number c.ingestion.max_request_size)
    ∷ ("ingestion.queueType", text c.ingestion.queue_type)
    ∷ ("ingestion.diskPath", text c.ingestion.disk_path)
    ∷ ("ingestion.maxDiskBytes", number c.ingestion.max_disk_bytes)
    ∷ ("dedup.engine", text c.dedup.engine)
    ∷ ("dedup.cacheSize", number c.dedup.cache_size)
    ∷ ("dedup.contextLines", number c.dedup.context_lines)
    ∷ ("dedup.similarityThreshold", rate c.dedup.similarity_threshold)
    ∷ ("dedup.patternTTL", number c.dedup.pattern_ttl)
    ∷ ("dedup.fingerprintTTL", number c.dedup.fingerprint_ttl)
    ∷ ("profiles.autoDetect", flag c.profiles.auto_detect)
    ∷ ("profiles.hubURL", text c.profiles.hub_url)
    ∷ ("profiles.syncInterval", number c.profiles.sync_interval)
    ∷ ("profiles.localPath", text c.profiles.local_path)
    ∷ ("profiles.cachePath", text c.profiles.cache_path)
    ∷ ("profiles.defaultProfile", text c.profiles.default_profile)
    ∷ ("profiles.trustMode", text c.profiles.trust_mode)
    ∷ ("profiles.publicKeys", texts c.profiles.public_keys)
    ∷ ("metrics.enabled", flag c.metrics.enabled)
    ∷ ("metrics.port", number c.metrics.port)
    ∷ ("metrics.path", text c.metrics.path)
    ∷ ("logging.level", text c.logging.level)
    ∷ ("logging.format", text c.logging.format)
    ∷ ("logging.output", text c.logging.output)
    ∷ ("logging.structured", flag c.logging.structured)
    ∷ []

abbrev Agrees : Config → Dict Setting → Type 0
Agrees c = All (λ d. lookup d.0 (tags c) ≡ some d.1)

-- The key of each default is the tag of a field, and its value is the field's own default.
pub set_defaults-Agrees : Agrees default_config set_defaults
unfolding set_defaults lookup
set_defaults-Agrees = ground arith

default_config_valid : validate_config default_config ≡ (none, default_config)
unfolding default_config validate_config validate_outputs fill_output is_lower_of
default_config_valid = refl

module _ {F : Type 0} (viper : Viper F) where
  -- Without a file, and where decoding changes nothing, Load returns the defaults.
  pub load_defaults :
      (path : String)
      → viper.read_in_config path ≡ not_found
      → viper.unmarshal none set_defaults default_config ≡ some default_config
      → load viper path ≡ loaded default_config
  unfolding load
  load_defaults path n u = ap (load_from viper) n ∙ (ap decoded u ∙ ap checked default_config_valid)
