-- ===== src/Config.antt =====
-- pkg/config: the configuration, its defaults and its validation. The file and the environment are
-- read by package viper, which is left out. Integers are signed in the source: a value of 0 stands
-- for 0 and below, where the source tells these not apart, and a similarity threshold below 0 has a
-- constructor of its own. Durations are nanoseconds.
pub mod Validation
pub mod Loading
pub mod Tests
use logsieve.Prelude.{
  ℕ, ◌*◌, ◌-◌, ◌^◌, ℤ, pos, negsuc, to_int64, String, Bool, true, false, not, ◌&&◌, ◌||◌, List, [],
  ◌∷◌, Option, none, some, ltb, ◌==◌, if◌then◌else◌, str_eq, is_lower_of, has_any, Dict,
}
use logsieve.Profiles.Rules.{Rate, below_zero, fraction, is_in_range}

abbrev pub second : ℕ
second = 1000000000

abbrev pub millisecond : ℕ
millisecond = 1000000

pub record ServerConfig : Type 0 where
  pub port : ℕ
  pub address : String
  pub read_timeout : ℕ
  pub write_timeout : ℤ
  pub idle_timeout : ℕ

pub record IngestionConfig : Type 0 where
  pub max_batch_size : ℕ
  pub flush_interval : ℕ
  pub max_memory_mb : ℕ
  pub buffer_size : ℤ
  pub max_request_size : ℕ
  pub queue_type : String
  pub disk_path : String
  pub max_disk_bytes : ℕ

pub record DedupConfig : Type 0 where
  pub engine : String
  pub cache_size : ℕ
  pub context_lines : ℕ
  pub similarity_threshold : Rate
  pub pattern_ttl : ℕ
  pub fingerprint_ttl : ℕ

pub record ProfilesConfig : Type 0 where
  pub auto_detect : Bool
  pub hub_url : String
  pub sync_interval : ℕ
  pub local_path : String
  pub cache_path : String
  pub default_profile : String
  pub trust_mode : String
  pub public_keys : List String

pub record OutputConfig : Type 0 where
  pub name : String
  pub kind : String
  pub url : String
  pub batch_size : ℕ
  pub timeout : ℤ
  pub retries : ℕ
  pub headers : Dict String
  pub initial_backoff : ℕ
  pub max_backoff : ℕ
  pub max_failures : ℕ
  pub cooldown : ℕ

pub record MetricsConfig : Type 0 where
  pub enabled : Bool
  pub port : ℕ
  pub path : String

pub record LoggingConfig : Type 0 where
  pub level : String
  pub format : String
  pub output : String
  pub structured : Bool

pub record Config : Type 0 where
  pub server : ServerConfig
  pub ingestion : IngestionConfig
  pub dedup : DedupConfig
  pub profiles : ProfilesConfig
  pub outputs : List OutputConfig
  pub metrics : MetricsConfig
  pub logging : LoggingConfig

abbrev pub default_output : OutputConfig
default_output = record {
  name = "stdout";
  kind = "stdout";
  url = "";
  batch_size = 100;
  timeout = pos (10 * second);
  retries = 3;
  headers = [];
  initial_backoff = 250 * millisecond;
  max_backoff = 5 * second;
  max_failures = 5;
  cooldown = 30 * second;
}

unfoldable pub default_config : Config
default_config = record {
  server = record {
    port = 8080;
    address = "0.0.0.0";
    read_timeout = 30 * second;
    write_timeout = pos (30 * second);
    idle_timeout = 60 * second;
  };
  ingestion = record {
    max_batch_size = 1000;
    flush_interval = 5 * second;
    max_memory_mb = 100;
    buffer_size = pos 10000;
    max_request_size = 10 * 1024 * 1024;
    queue_type = "memory";
    disk_path = "/var/lib/logsieve/queue";
    max_disk_bytes = 1 * 1024 * 1024 * 1024;
  };
  dedup = record {
    engine = "drain3";
    cache_size = 10000;
    context_lines = 5;
    similarity_threshold = fraction 9 10;
    pattern_ttl = 3600 * second;
    fingerprint_ttl = 1800 * second;
  };
  profiles = record {
    auto_detect = true;
    hub_url = "https://hub.logsieve.io";
    sync_interval = 3600 * second;
    local_path = "/etc/logsieve/profiles";
    cache_path = "/var/cache/logsieve/profiles";
    default_profile = "generic";
    trust_mode = "relaxed";
    public_keys = [];
  };
  outputs = default_output ∷ [];
  metrics = record { enabled = true; port = 9090; path = "/metrics" };
  logging = record { level = "info"; format = "json"; output = "stdout"; structured = true };
}

pub data ConfigError : Type 0 where
  invalid_server_port invalid_metrics_port invalid_max_batch_size : ConfigError
  invalid_similarity_threshold invalid_engine invalid_log_level : ConfigError
  output_name_required output_type_required : ConfigError

abbrev pub is_port : ℕ → Bool
is_port port = not (port == 0) && not (ltb 65535 port)

abbrev pub log_levels : List String
log_levels = "trace" ∷ "debug" ∷ "info" ∷ "warn" ∷ "error" ∷ "fatal" ∷ "panic" ∷ []

abbrev pub or_default : ℕ → ℕ → ℕ
or_default default n = if n == 0 then default else n

abbrev pub is_zero : ℤ → Bool
is_zero (pos n) = n == 0
is_zero (negsuc n) = false

-- Ten times a duration, in the range of int64.
abbrev pub ten_times : ℤ → ℤ
ten_times (pos n) = to_int64 (10 * n)
ten_times (negsuc n) = to_int64 ((2 ^ 64 - 1 - n) * 10)

-- The defaults that the loop fills in; the timeout's is ten times the server's write timeout, and a
-- timeout below 0 is kept.
unfoldable pub fill_output : ServerConfig → OutputConfig → OutputConfig
fill_output server o = record o {
  batch_size = or_default 100 o.batch_size;
  timeout = if is_zero o.timeout then ten_times server.write_timeout else o.timeout;
  retries = or_default 3 o.retries;
  initial_backoff = or_default (250 * millisecond) o.initial_backoff;
  max_backoff = or_default (5 * second) o.max_backoff;
  max_failures = or_default 5 o.max_failures;
  cooldown = or_default (30 * second) o.cooldown;
}

-- The error, and the outputs: those before an error are filled already.
unfoldable pub validate_outputs :
    ServerConfig → List OutputConfig → Option ConfigError × List OutputConfig
validate_outputs server [] = (none, [])
validate_outputs server (o ∷ os) =
    let rest = validate_outputs server os in
    if str_eq o.name ""
    then (some output_name_required, o ∷ os)
    else if str_eq o.kind ""
    then (some output_type_required, o ∷ os)
    else (rest.0, fill_output server o ∷ rest.1)

unfoldable pub validate_config : Config → Option ConfigError × Config
validate_config c =
    let v = validate_outputs c.server c.outputs in
    if not (is_port c.server.port)
    then (some invalid_server_port, c)
    else if c.metrics.enabled && not (is_port c.metrics.port)
    then (some invalid_metrics_port, c)
    else if c.ingestion.max_batch_size == 0
    then (some invalid_max_batch_size, c)
    else if not (is_in_range c.dedup.similarity_threshold)
    then (some invalid_similarity_threshold, c)
    else if not (str_eq c.dedup.engine "drain3" || str_eq c.dedup.engine "simple")
    then (some invalid_engine, c)
    else if not (has_any (is_lower_of c.logging.level) log_levels)
    then (some invalid_log_level, c)
    else (v.0, record c { outputs = v.1 })
