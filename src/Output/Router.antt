-- ===== src/Output/Router.antt =====
-- The Router of pkg/output/router.go. An adapter is known by its name, and its Sends by the
-- environment; the outputs of one Route are served one after another, which is one of the orders of
-- their goroutines. Metrics and logging are left out.
pub mod Routes
pub mod Routing
use logsieve.Prelude.{
  ℕ, zero, suc, ◌+◌, ◌*◌, ◌≤◌, ◌<◌, String, Bool, true, false, not, ◌&&◌, ◌||◌, List, [], ◌∷◌, ◌++◌,
  map, Option, none, some, ltb, leb, ◌==◌, if◌then◌else◌, str_eq, eq_iff, eq_refl, length, Dict,
  lookup, insert, delete, lookup-insert, keep, ◌≡◌, refl, sym, ap, ◌∙◌, arith, Bool-cases,
  Option-cases, inl, inr, ◌⊎◌, append-nil,
}
use logsieve.Ingestion.Entry.{LogEntry, Heap, label_of}
use logsieve.Output.Breaker.{CircuitBreaker, new_breaker, is_open}
use logsieve.Output.Retry.{Environment, Sent, send_loop}

-- The fields that the router reads; a value of 0 stands for 0 and below.
pub record OutputConfig : Type 0 where
  pub name : String
  pub kind : String
  pub retries : ℕ
  pub initial_backoff : ℕ
  pub max_backoff : ℕ
  pub max_failures : ℕ
  pub cooldown : ℕ

pub record Router : Type 0 where
  pub adapters : Dict String
  pub cfg_by_name : Dict OutputConfig
  pub breakers : Dict CircuitBreaker

pub data RouteError : Type 0 where
  not_found circuit_open send_error : RouteError

-- The types that createAdapter knows; their constructors may still fail.
unfoldable pub is_supported : String → Bool
is_supported kind =
    str_eq kind "stdout" || str_eq kind "loki" || str_eq kind "elasticsearch" || str_eq kind "s3"

-- What the constructor of an adapter answers to its configuration.
unfoldable pub create_adapter : (OutputConfig → Bool) → OutputConfig → Option String
create_adapter constructs cfg =
    if is_supported cfg.kind && (str_eq cfg.kind "stdout" || constructs cfg)
    then some cfg.name
    else none

-- The adapter of an output, with its configuration and a breaker, if one could be made.
abbrev pub put_adapter : Option String → OutputConfig → Router → Router
put_adapter none cfg r = r
put_adapter (some adapter) cfg r = record {
  adapters = insert cfg.name adapter r.adapters;
  cfg_by_name = insert cfg.name cfg r.cfg_by_name;
  breakers = insert cfg.name (new_breaker cfg.max_failures cfg.cooldown) r.breakers;
}

unfoldable pub initialize_adapters : (OutputConfig → Bool) → List OutputConfig → Router → Router
initialize_adapters constructs [] r = r
initialize_adapters constructs (cfg ∷ cfgs) r =
    initialize_adapters constructs cfgs (put_adapter (create_adapter constructs cfg) cfg r)

abbrev pub no_adapters : Router
no_adapters = record { adapters = []; cfg_by_name = []; breakers = [] }

abbrev pub is_nil {ℓ} : {A : Type ℓ} → List A → Bool
is_nil [] = true
is_nil (x ∷ xs) = false

-- NewRouter fails when no adapter could be made.
unfoldable pub new_router : (OutputConfig → Bool) → List OutputConfig → Option Router
new_router constructs cfgs =
    let r = initialize_adapters constructs cfgs no_adapters in
    if is_nil r.adapters then none else some r

unfoldable pub has_adapter : Router → String → Bool
has_adapter r name = elim (lookup name r.adapters) [ none ↦ false | some a ↦ true ]

abbrev pub keys {ℓ} : {V : Type ℓ} → Dict V → List String
keys [] = []
keys ((k, v) ∷ m) = k ∷ keys m

unfoldable pub get_adapter_names : Router → List String
get_adapter_names r = keys r.adapters

-- The adapter that the entry's own label names.
unfoldable pub named_output : Router → Heap → LogEntry → Option String
named_output r h e = elim (label_of h e "output") [
  | none ↦ none
  | some output ↦ if not (str_eq output "") && has_adapter r output then some output else none
]

unfoldable pub determine_outputs : Router → Heap → LogEntry → List String
determine_outputs r h e = elim (named_output r h e) [
  | some output ↦ output ∷ []
  | none ↦ keys r.adapters
]

abbrev pub or_nil {ℓ} : {A : Type ℓ} → Option (List A) → List A
or_nil none = []
or_nil (some xs) = xs

-- routingMap[name] = append(routingMap[name], entry) for each name
unfoldable pub add_to_outputs : LogEntry → List String → Dict (List LogEntry) → Dict (List LogEntry)
add_to_outputs e [] m = m
add_to_outputs e (name ∷ names) m =
    add_to_outputs e names (insert name (or_nil (lookup name m) ++ e ∷ []) m)

unfoldable pub build_routing_map :
    Router → Heap → List LogEntry → Dict (List LogEntry) → Dict (List LogEntry)
build_routing_map r h [] m = m
build_routing_map r h (e ∷ es) m =
    build_routing_map r h es (add_to_outputs e (determine_outputs r h e) m)

-- backoff <= 0 and the like take the defaults, in nanoseconds.
abbrev pub or_default : ℕ → ℕ → ℕ
or_default default n = if n == 0 then default else n

abbrev pub no_config : OutputConfig
no_config = record {
  name = "";
  kind = "";
  retries = 0;
  initial_backoff = 0;
  max_backoff = 0;
  max_failures = 0;
  cooldown = 0;
}

abbrev config_of : Router → String → OutputConfig
config_of r name = elim (lookup name r.cfg_by_name) [ none ↦ no_config | some cfg ↦ cfg ]

abbrev breaker_open : ℕ → Option CircuitBreaker → Bool
breaker_open now none = false
breaker_open now (some cb) = is_open now cb

abbrev store_breaker : String → Option CircuitBreaker → Router → Router
store_breaker name none r = r
store_breaker name (some cb) r = record r { breakers = insert name cb r.breakers }

-- The result, the Sends that were made, and those that returned no error.
unfoldable pub send_to_output :
    Environment → ℕ → String → Router → (Option RouteError × ℕ × ℕ) × Router
send_to_output env now name r =
    let cfg = config_of r name in
    let br = lookup name r.breakers in
    let sent =
      send_loop env (or_default 1 cfg.retries) 0 (or_default 5000000000 cfg.max_backoff)
        (or_default 250000000 cfg.initial_backoff) br in
    if not (has_adapter r name)
    then ((some not_found, 0, 0), r)
    else if breaker_open now br
    then ((some circuit_open, 0, 0), r)
    else (
      (if sent.delivered then none else some send_error, sent.tries, sent.successes),
      store_breaker name sent.breaker r,
    )

unfoldable pub add_adapter : String → String → Router → Router
add_adapter name adapter r = record r { adapters = insert name adapter r.adapters }

unfoldable pub remove_adapter : String → Router → Router
remove_adapter name r =
    if has_adapter r name then record r { adapters = delete name r.adapters } else r
