-- ===== src/Server.antt =====
-- cmd/server/main.go: the start of the server, its logging and its routes; Shutdown has its life
-- from Start on. What package zerolog reads of a level is a parameter, and so is whether gin panics when
-- it registers routes, as for a path that is there; metrics and the log's texts are left out.
pub mod Shutdown
pub mod Starting
pub mod Tests
use logsieve.Prelude.{
  ℕ, String, Bool, true, false, not, ◌&&◌, List, [], ◌∷◌, Option, none, some, if◌then◌else◌, str_eq,
  itoa,
}
use Prim.Native.String.{◌++◌ as ◌<>◌}
use logsieve.Config.{Config, LoggingConfig, ConfigError}
use logsieve.Config.Loading.{Viper, LoadResult, read_error, unmarshal_error, invalid, loaded, load}
use logsieve.Processor.Setup.{Startup, panics, fails, ready, Assembled, Environment, new_processor}

pub data Target : Type 0 where
  json_stdout json_stderr console_stdout : Target

pub record Logger (Level : Type 0) : Type 0 where
  pub level : Level
  pub target : Target

abbrev pub or_info {ℓ} : {Level : Type ℓ} → Level → Option Level → Level
or_info info none = info
or_info info (some l) = l

unfoldable pub setup_logging :
    {Level : Type 0} → (String → Option Level) → Level → LoggingConfig → Logger Level
setup_logging parse_level info cfg = record {
  level = or_info info (parse_level cfg.level);
  target =
      if cfg.structured
      then (if str_eq cfg.output "stdout" then json_stdout else json_stderr)
      else console_stdout;
}

pub data Middleware : Type 0 where
  recovery request_logger metrics_middleware : Middleware

pub data Handler : Type 0 where
  show_health show_ready show_stats handle_ingest show_metrics : Handler

pub record Route : Type 0 where
  pub method : String
  pub path : String
  pub handler : Handler

pub record Routes : Type 0 where
  pub release_mode : Bool
  pub middleware : List Middleware
  pub routes : List Route

abbrev get : String → Handler → Route
get path handler = record { method = "GET"; path = path; handler = handler }

abbrev post : String → Handler → Route
post path handler = record { method = "POST"; path = path; handler = handler }

unfoldable pub setup_router : Config → Routes
setup_router cfg = record {
  release_mode = not (str_eq cfg.logging.level "debug");
  middleware = recovery ∷ request_logger ∷ metrics_middleware ∷ [];
  routes =
      get "/health" show_health
      ∷ get "/ready" show_ready
      ∷ get "/stats" show_stats
      ∷ post "/ingest" handle_ingest
      ∷ [];
}

unfoldable pub metrics_routes : Config → Option Routes
metrics_routes cfg =
    if cfg.metrics.enabled
    then some (record {
      release_mode = not (str_eq cfg.logging.level "debug");
      middleware = recovery ∷ [];
      routes = get cfg.metrics.path show_metrics ∷ get "/health" show_health ∷ [];
    })
    else none

-- The level of the command line, where one is given, which is not validated again.
unfoldable pub set_level : String → Config → Config
set_level log_level cfg =
    if str_eq log_level ""
    then cfg
    else record cfg { logging = record cfg.logging { level = log_level } }

-- What runServer has made when it starts the processor.
pub record Server (Level Key L : Type 0) : Type 0 where
  pub config : Config
  pub logger : Logger Level
  pub processor : Assembled Key L
  pub address : String
  pub router : Routes
  pub metrics_address : String
  pub metrics_router : Option Routes

-- gin registers the routes without a panic.
abbrev pub routes_registered : (Routes → Bool) → Config → Bool
routes_registered registers cfg =
    registers (setup_router cfg)
    && (elim (metrics_routes cfg) [ none ↦ true | some r ↦ registers r ])

pub data RunResult (Level Key L : Type 0) : Type 0 where
  load_fails crashes processor_fails : RunResult Level Key L
  serves : Server Level Key L → RunResult Level Key L

module _ {Level : Type 0} (parse_level : String → Option Level) (info : Level)
    {Key L : Type 0} where
  abbrev pub made_server : Config → Assembled Key L → Server Level Key L
  made_server cfg p = record {
    config = cfg;
    logger = setup_logging parse_level info cfg.logging;
    processor = p;
    address = cfg.server.address <> (":" <> itoa cfg.server.port);
    router = setup_router cfg;
    metrics_address = ":" <> itoa cfg.metrics.port;
    metrics_router = metrics_routes cfg;
  }

module _ {F Level Key Signature D L : Type 0} (viper : Viper F)
    (parse_level : String → Option Level) (info : Level) (registers : Routes → Bool)
    (env : Environment Key Signature D) where
  abbrev pub assemble : Config → Startup (Assembled Key L) → RunResult Level Key L
  assemble cfg panics = crashes
  assemble cfg fails = processor_fails
  assemble cfg (ready p) =
      if routes_registered registers cfg
      then serves (made_server parse_level info cfg p)
      else crashes

  abbrev pub serve_config : String → LoadResult → RunResult Level Key L
  serve_config log_level (loaded cfg) =
      let c = set_level log_level cfg in assemble c (new_processor env c)
  serve_config log_level _ = load_fails

  -- runServer up to the Start of the processor.
  unfoldable pub start_server : String → String → RunResult Level Key L
  start_server cfg_file log_level = serve_config log_level (load viper cfg_file)
