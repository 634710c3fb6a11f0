-- ===== src/Processor/Sending/Tests.antt =====
-- A batch of one entry from the processor to an output.
use logsieve.Prelude.{ℕ, String, Bool, true, false, List, [], ◌∷◌, some, Dict, ◌≡◌, refl}
use logsieve.Ingestion.Entry.{LogEntry, no_maps, blank_entry}
use logsieve.Dedup.Engine.{Times}
use logsieve.Output.Retry.{Environment}
use logsieve.Output.Router.{Router}
use logsieve.Processor.{Processor}
use logsieve.Processor.Tests.{literal, plain, engine, at_ten, failure, manager}
use logsieve.Processor.Sending.{BatchResult, send_entries, Delivers, send_entries-Delivers}

abbrev one_output : Router
one_output = record { adapters = ("stdout", "stdout") ∷ []; cfg_by_name = []; breakers = [] }

abbrev at_once : String → Environment × ℕ
at_once name = (record { succeeds = λ i. true; clock = λ i. i }, 0)

abbrev one_entry : List (Times × LogEntry)
one_entry = (at_ten, failure) ∷ []

abbrev sender : Processor String
sender = record {
  dedup = engine;
  profiles = record manager { auto_detect = false };
  router = one_output;
}

one_sent :
    (b : BatchResult String) × (send_entries literal plain at_once one_entry no_maps sender
      ≡ some b)
    × (b.errors ≡ [])
unfolding send_entries logsieve.Processor.Rates.track_entries logsieve.Processor.process_entry
    logsieve.Profiles.Manager.process_with_profile logsieve.Profiles.Manager.get_profile
    logsieve.Profiles.Manager.detect_profile logsieve.Prelude.lookup
    logsieve.Profiles.Manager.process_entry logsieve.Profiles.Manager.first_fingerprint
    logsieve.Profiles.Manager.keep_entry logsieve.Profiles.Manager.apply_transforms
    logsieve.Profiles.Manager.first_sampling logsieve.Processor.dedup_entry
    logsieve.Processor.emitted logsieve.Dedup.Engine.process logsieve.Dedup.Engine.process_new
    logsieve.Dedup.Fingerprint.exists logsieve.Dedup.Fingerprint.add
    logsieve.Dedup.Fingerprint.new_fingerprint_cache logsieve.Dedup.Engine.new_engine
    logsieve.Dedup.Drain.new_drain3 logsieve.Dedup.Engine.should_preserve_context
    logsieve.Dedup.Context.get_context logsieve.Dedup.Context.new_context_window
    logsieve.Dedup.Context.mark_before logsieve.Dedup.Context.mark
    logsieve.Output.Router.Routing.route logsieve.Output.Router.Routing.serve_outputs
    logsieve.Output.Router.build_routing_map logsieve.Output.Router.add_to_outputs
    logsieve.Output.Router.determine_outputs logsieve.Output.Router.named_output
    logsieve.Output.Router.has_adapter logsieve.Output.Router.send_to_output
    logsieve.Output.Retry.send_loop logsieve.Prelude.insert logsieve.Ingestion.Entry.ensure_labels
    logsieve.Ingestion.Entry.alloc logsieve.Ingestion.Entry.write_label
    logsieve.Dedup.Drain.add_log_message logsieve.Dedup.Drain.process
    logsieve.Dedup.Drain.add_tokens logsieve.Dedup.Drain.tokenize logsieve.Prelude.words
    logsieve.Prelude.replace_by_space logsieve.Dedup.Drain.tree_search
    logsieve.Dedup.Drain.find_leaf logsieve.Dedup.Drain.Tree.get_child logsieve.Dedup.Drain.found
one_sent = (_, refl, refl)

send_entries-Delivers_example :
    Delivers literal plain at_once one_entry no_maps sender one_sent.0 "stdout"
send_entries-Delivers_example =
    send_entries-Delivers literal plain at_once one_entry no_maps sender one_sent.0 "stdout"
      (refl, tt) one_sent.1 one_sent.2
