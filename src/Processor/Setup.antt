-- ===== src/Processor/Setup.antt =====
-- NewProcessor and initialize of pkg/processor/processor.go, with NewBufferer of
-- pkg/ingestion/buffer.go: the parts of a processor are made of the configuration. What the parts
-- take from other packages are parameters; the patterns of the masking rules are compiled.
pub mod Ready
use logsieve.Prelude.{
  ℕ, ℤ, pos, negsuc, leb, ◌≤◌, ◌<◌, ◌/◌, ◌==◌, String, Bool, true, false, not, ◌&&◌, ◌||◌, List, [],
  ◌∷◌, map, Option, none, some, if◌then◌else◌, str_eq, eq_iff, has_any, has_suffix, lookup, insert,
  lookup-insert, subst, sym, Dict, ◌≡◌, ◌↔◌, refl, ap, ◌∙◌, arith, Option-cases, Bool-cases, inl,
  inr, if_both,
}
use logsieve.Ingestion.Entry.{LogEntry, Heap}
use logsieve.Ingestion.Buffer
use logsieve.Ingestion.Buffer.{Buffer, BufferStats, new_buffer}
use logsieve.Ingestion.Disk
use logsieve.Dedup.Engine
use logsieve.Profiles.Manager.Creation
use logsieve.Output.Router.Routing
use logsieve.Ingestion.Disk.{DiskBuffer, new_disk_buffer}
use logsieve.Dedup.Drain.{Ratio, MaskingRule}
use logsieve.Dedup.Engine.{Engine, Times, new_engine}
use logsieve.Profiles.Rules.{Profile, Regexp, Rate, below_zero, fraction}
use logsieve.Profiles.Manager.{Manager, Crypto, get_profile}
use logsieve.Profiles.Manager.Creation.{new_manager}
use logsieve.Profiles.Manager.Loading.{
  DirEntry, generic_profile, load_builtin_profiles, is_trusted, add_parsed, parse_content,
  load_file, load_profiles_from_dir, load_from_path, load_profiles,
}
use logsieve.Profiles.Manager.Processing.{HasGeneric}
use logsieve.Profiles.Manager.Loading.Generic.{load_profiles-HasGeneric}
use logsieve.Output.Router.{
  Router, is_nil, is_supported, create_adapter, put_adapter, initialize_adapters, no_adapters,
  new_router,
}
use logsieve.Output.Router as Router
use logsieve.Config.{Config, IngestionConfig, DedupConfig, OutputConfig}
use logsieve.Processor.{Processor, process_batch}
use logsieve.Processor.Passing.{process_batch_returns}

pub data Bufferer (A L : Type 0) : Type 0 where
  memory : Buffer A → Bufferer A L
  disk : DiskBuffer A L → Bufferer A L

-- The length of a channel that was made.
abbrev pub capacity : ℤ → ℕ
capacity (pos n) = n
capacity (negsuc n) = 0

-- Whether make makes a channel of the size: it panics for a negative size, and for one above what the
-- platform allows.
abbrev pub makes_channel : ℕ → ℤ → Bool
makes_channel largest (pos n) = leb n largest
makes_channel largest (negsuc n) = false

unfoldable pub new_bufferer : {A L : Type 0} → IngestionConfig → Bufferer A L
new_bufferer cfg =
    if str_eq cfg.queue_type "disk"
    then disk (new_disk_buffer (capacity cfg.buffer_size) cfg.max_batch_size cfg.max_disk_bytes)
    else memory (new_buffer (capacity cfg.buffer_size) cfg.max_batch_size)

abbrev pub ratio_of : Rate → Ratio
ratio_of below_zero = record { num = 0; den = 1 }
ratio_of (fraction n d) = record { num = n; den = d }

abbrev pub router_config : OutputConfig → Router.OutputConfig
router_config o = record {
  name = o.name;
  kind = o.kind;
  retries = o.retries;
  initial_backoff = o.initial_backoff;
  max_backoff = o.max_backoff;
  max_failures = o.max_failures;
  cooldown = o.cooldown;
}

-- time.NewTicker panics where its duration is not positive: in NewFingerprintCache, in the constructor
-- of an S3 adapter, or in the goroutine of the buffer; and make panics in the buffer's constructor.
pub data Startup (P : Type 0) : Type 0 where
  panics fails : Startup P
  ready : P → Startup P

pub record Assembled (Key L : Type 0) : Type 0 where
  pub processor : Processor Key
  pub bufferer : Bufferer LogEntry L

-- What the adapters' constructors answer is given by whether they make an adapter, and whether
-- NewS3Adapter panics (Output.S3.new_s3_adapter).
pub record Environment (Key Signature D : Type 0) : Type 0 where
  pub re : Regexp
  pub crypto : Crypto Key Signature
  pub unmarshal : D → Option (Profile × List String)
  pub listing : String → Option (List (DirEntry D))
  pub base64 : String → Option Key
  pub hex : String → Option Key
  pub masking_rules : List MaskingRule
  pub constructs : Router.OutputConfig → Bool
  pub ticker_panics : Router.OutputConfig → Bool
  pub largest_channel : ℕ

module _ {Key Signature D : Type 0} (env : Environment Key Signature D) where
  abbrev pub loaded_manager : Config → Manager Key
  loaded_manager c =
      load_profiles env.re env.crypto env.unmarshal env.listing c.profiles.local_path
        c.profiles.cache_path (new_manager env.base64 env.hex c.profiles)

  abbrev pub assembled : {L : Type 0} → Config → Router → Assembled Key L
  assembled c r = record {
    processor = record {
      dedup =
          new_engine (ratio_of c.dedup.similarity_threshold) env.masking_rules
            c.dedup.fingerprint_ttl c.dedup.context_lines;
      profiles = loaded_manager c;
      router = r;
    };
    bufferer = new_bufferer c.ingestion;
  }

  abbrev pub adapter_panics : OutputConfig → Bool
  adapter_panics o = str_eq o.kind "s3" && env.ticker_panics (router_config o)

  abbrev pub buffer_panics : IngestionConfig → Bool
  buffer_panics i = not (makes_channel env.largest_channel i.buffer_size) || i.flush_interval == 0

  unfoldable pub new_processor : {L : Type 0} → Config → Startup (Assembled Key L)
  new_processor c =
      let made = new_router env.constructs (map router_config c.outputs) in
      if c.dedup.fingerprint_ttl / 2 == 0 || has_any adapter_panics c.outputs
      then panics
      else elim made [
        | none ↦ fails
        | some r ↦ if buffer_panics c.ingestion then panics else ready (assembled c r)
      ]

pub record ProcessorStats : Type 0 where
  pub running : Bool
  pub buffer_stats : BufferStats
  pub dedup_stats : Engine.Stats
  pub profile_stats : Creation.ManagerStats
  pub router_stats : Routing.RouterStats

abbrev buffer_stats_of : {A L : Type 0} → Bufferer A L → BufferStats
buffer_stats_of (memory b) = Buffer.stats b
buffer_stats_of (disk d) = Disk.stats d

module _ {Key L : Type 0} where
  unfoldable pub get_stats : Bool → Assembled Key L → ProcessorStats
  get_stats running a = record {
    running = running;
    buffer_stats = buffer_stats_of a.bufferer;
    dedup_stats = Engine.get_stats a.processor.dedup;
    profile_stats = Creation.get_stats a.processor.profiles;
    router_stats = Routing.stats a.processor.router;
  }
