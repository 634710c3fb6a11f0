-- ===== src/Processor/Tests.antt =====
-- The processor on small inputs.
use logsieve.Processor.Lifecycle.{Service}
use logsieve.Profiles.Rules.{Rate, is_in_range}
use logsieve.Processor.Rates.{Tracked, report_batch}
use logsieve.Processor.Rates.Reported.{IsRate, report_batch_rates}
use logsieve.Prelude.{
  List, ℕ, arith, String, true, false, not, ◌&&◌, ◌||◌, [], ◌∷◌, ◌++◌, some, lookup, ◌≡◌, refl,
}
use logsieve.Ingestion.Entry.{LogEntry, blank_entry, no_maps}
use logsieve.Dedup.Drain
use logsieve.Dedup.Drain.{tokenize, is_empty}
use logsieve.Dedup.Drain.Members.{IsPopulated}
use logsieve.Dedup.Fingerprint
use logsieve.Dedup.Context.Window.{last}
use logsieve.Dedup.Engine.{Engine, Times, new_engine, should_preserve_context}
use logsieve.Dedup.Engine.Decisions.{is_known, joins_cluster}
use logsieve.Profiles.Rules.{Profile, Regexp, fraction}
use logsieve.Profiles.Manager.{Manager, ProcessedEntry, get_profile}
use logsieve.Profiles.Manager.Processing.{HasGeneric}
use logsieve.Output.Router.{no_adapters}
use logsieve.Processor.{Processor, dedup_entry}
use logsieve.Processor.Passing.{messages, is_nil, silent_iff, error_is_sent_twice}

abbrev pub literal : Regexp
literal = record {
  compiles = λ pattern. true;
  match_string = λ pattern text. true;
  replace_all = λ pattern text by. by;
}

-- The text itself stands for its fingerprint.
abbrev pub plain : String → String
plain m = m

abbrev pub engine : Engine
unfolding new_engine
engine = new_engine (record { num = 9; den = 10 }) [] 1800 5

abbrev pub at_ten : Times
at_ten = record { checked = 10; mined = 11; added = 12 }

abbrev pub failure : LogEntry
failure = record blank_entry { message = "boom"; level = "ERROR" }

abbrev kept : ProcessedEntry
kept = record {
  entry = failure;
  profile = "generic";
  actions = [];
  drop = false;
  template = false;
  sample = false;
  sample_rate = fraction 0 1;
  modified = false;
  matched = false;
}

engine_IsPopulated : IsPopulated engine.drain
unfolding new_engine logsieve.Dedup.Drain.new_drain3
engine_IsPopulated = tt

engine_unaware : is_known plain at_ten failure engine ≡ false
unfolding new_engine Fingerprint.exists Fingerprint.new_fingerprint_cache lookup
engine_unaware = refl

failure_preserved : should_preserve_context failure ≡ true
unfolding should_preserve_context
failure_preserved = refl

silent_iff_example : is_nil (dedup_entry literal plain at_ten kept no_maps engine).out ≡ (
    false
    || is_known plain at_ten failure engine
    || ((not (is_empty (tokenize engine.drain "boom"))
          && joins_cluster engine.drain (tokenize engine.drain "boom"))
        && not (should_preserve_context failure)))
silent_iff_example = silent_iff literal plain at_ten kept no_maps engine engine_IsPopulated

error_is_sent_twice_example :
    messages (dedup_entry literal plain at_ten kept no_maps engine).out
    ≡ messages (last engine.context.context_lines engine.context.buffer) ++ "boom" ∷ "boom" ∷ []
error_is_sent_twice_example =
    error_is_sent_twice literal plain at_ten kept no_maps engine refl failure_preserved
      engine_unaware

abbrev generic : Profile
generic = record {
  api_version = "";
  kind = "";
  name = "generic";
  version = "1.0.0";
  images = "*" ∷ [];
  signature = "";
  fingerprints = [];
  context_triggers = [];
  sampling = [];
  transforms = [];
}

abbrev pub manager : Manager String
manager = record {
  auto_detect = true;
  default_profile = "generic";
  trust_mode = "relaxed";
  pubkeys = [];
  profiles = ("generic", generic) ∷ [];
  detection_rules = [];
}

abbrev processor : Processor String
processor = record { dedup = engine; profiles = manager; router = no_adapters }

manager_generic : HasGeneric manager
unfolding get_profile lookup
manager_generic = (generic, refl)

abbrev service : Service ℕ
service = record {
  running = true;
  stop_closed = false;
  buffer = record {
    buffer_size = 4;
    max_batch_size = 2;
    buffer = 1 ∷ 2 ∷ 3 ∷ [];
    batch = 7 ∷ [];
    batches = [];
    closed = false;
  };
  consumed = [];
}

-- Two entries of nginx, of which one is sent on with one of its context, and one of another profile.
abbrev rounds : List Tracked
rounds =
    record { profile = "nginx"; out = failure ∷ blank_entry ∷ []; matched = true }
    ∷ record { profile = "unknown"; out = []; matched = false }
    ∷ record { profile = "nginx"; out = []; matched = false }
    ∷ []

report_batch_rates_example :
    (ratio : Rate) × (share : Rate) × (lookup "nginx" (report_batch false rounds)
      ≡ some (ratio, share))
    × IsRate 0 2 ratio
    × IsRate 1 2 share
    × (is_in_range ratio ≡ true)
    × (is_in_range share ≡ true)
report_batch_rates_example = report_batch_rates "nginx" rounds (omega arith)
