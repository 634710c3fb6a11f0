-- ===== src/Output/Tests.antt =====
-- The breaker, the retries and the routes on small inputs.
use logsieve.Output.S3
use logsieve.Output.Elasticsearch
use logsieve.Output.Elasticsearch.{BulkLine, EsBulkResponse, ElasticsearchAdapter}
use logsieve.Output.Elasticsearch.Bulk.{IsAccepted, sent-IsAccepted}
use logsieve.Output.S3.{
  S3Config, new_s3_adapter, ticker_panics, S3Adapter, Upload, Calendar, Reply, stored, refused,
  send,
}
use logsieve.Output.S3.Storing.{
  State, Op, sends, HasFreshKeys, line_count, given, step, run, s3_counts,
}
use logsieve.Output.Loki.{Writer, group_by_labels, stream_key}
use mathlib.Core.Quot
use logsieve.Output.Loki.Ranges.{SameLabels, LabelMap, extract_labels_content}
use logsieve.Output.Loki.{extract_labels}
use logsieve.Output.Loki.Streams.{stream_of, lookup-group_by_labels}
use logsieve.Prelude.{
  pos, Bool-cases, subst, inl, inr, eq_iff, ℕ, String, Bool, Option, List, Dict, insert, count,
  itoa, leb, ◌+◌, ltb, true, false, not, ◌&&◌, [], ◌∷◌, ◌++◌, none, some, keep, if◌then◌else◌,
  str_eq, lookup, ◌≡◌, refl, arith,
}
use logsieve.Ingestion.Entry.{LogEntry, Heap, blank_entry}
use logsieve.Output.Breaker.{CircuitBreaker}
use logsieve.Output.Retry.{Environment, send_loop, send_loop_outcome}
use logsieve.Output.Router.Routing.{route, serve_outputs}
use logsieve.Output.Router.{
  add_to_outputs, named_output, has_adapter, send_to_output, Router, determine_outputs,
  build_routing_map,
}

abbrev breaker : CircuitBreaker
breaker = record { failures = 0; max_failures = 3; cooldown = 30; open_until = 0 }

abbrev third_works : Environment
third_works = record { succeeds = λ i. ltb 1 i; clock = λ i. i }

send_loop_outcome_example : (send_loop third_works 5 0 40 10 (some breaker)).tries ≡ 2 + 1
send_loop_outcome_example =
    ((send_loop_outcome third_works 2 5 40 10 (some breaker) (refl, (refl, tt))).1 (omega arith)
      refl).1

abbrev two_outputs : Router
two_outputs = record {
  adapters = ("loki", "loki") ∷ ("s3", "s3") ∷ [];
  cfg_by_name = [];
  breakers = [];
}

abbrev maps : Heap
maps = record { next = 1; at = λ a. ("output", "s3") ∷ [] }

abbrev plain : LogEntry
plain = record blank_entry { message = "a" }

abbrev labelled : LogEntry
labelled = record blank_entry { message = "b"; labels = some 0 }

abbrev at_once : String → Environment × ℕ
at_once name = (record { succeeds = λ i. true; clock = λ i. i }, 0)

no_errors : (route at_once maps (plain ∷ labelled ∷ []) two_outputs).errors ≡ []
unfolding route serve_outputs build_routing_map add_to_outputs determine_outputs named_output
    has_adapter send_to_output send_loop insert lookup
no_errors = refl

abbrev stamps : Calendar
stamps = record {
  year = λ t. 2024;
  month = λ t. 5;
  day = λ t. 17;
  hour = λ t. 9;
  stamp = λ t. if leb t 1 then "a" else "b";
}

abbrev numbers : S3Adapter ℕ
numbers = record {
  batch_size = 2;
  max_retries = 1;
  initial_backoff = 250;
  max_backoff = 1000;
  prefix = "logs/";
  buffer = [];
}

-- The first attempt is not answered, the second one is.
abbrev second_answered : ℕ → Upload
second_answered t = record { now = t; replies = λ i. if leb i 0 then Reply.unanswered else stored }

abbrev never : Upload
never = record { now = 3; replies = λ i. refused }

abbrev even_lines : ℕ → Option ℕ
even_lines n = some (n + n)

abbrev uploads : List (Op ℕ)
uploads = sends (second_answered 1) (1 ∷ 2 ∷ 3 ∷ []) ∷ sends never (4 ∷ 5 ∷ []) ∷ []

abbrev new_bucket : State ℕ ℕ
new_bucket = record { adapter = numbers; bucket = []; lost = [] }

uploads-HasFreshKeys : HasFreshKeys even_lines stamps uploads new_bucket
unfolding lookup S3.generate_key step S3.send S3.take_full S3.upload_loop S3.body insert
    logsieve.Prelude.trim_suffix itoa
uploads-HasFreshKeys = (refl, (refl, tt))

s3_counts_example :
    line_count even_lines stamps (leb 4) (run even_lines stamps uploads new_bucket)
    ≡ line_count even_lines stamps (leb 4) new_bucket
      + count (leb 4) (S3.body even_lines (given uploads))
s3_counts_example = s3_counts even_lines stamps (leb 4) uploads new_bucket uploads-HasFreshKeys

abbrev quoting : Writer
quoting = record { quote = λ s. s; sort = λ keys. keys }

lookup-group_by_labels_example :
    lookup "output=s3" (group_by_labels quoting false maps (labelled ∷ plain ∷ labelled ∷ []) [])
    ≡ stream_of quoting false maps (
        keep
          (λ e. str_eq (stream_key quoting maps e) "output=s3")
          (labelled ∷ plain ∷ labelled ∷ []))
lookup-group_by_labels_example =
    lookup-group_by_labels quoting false maps "output=s3" (labelled ∷ plain ∷ labelled ∷ [])

abbrev all_indexed : String → List BulkLine → Option (ℕ × Option EsBulkResponse)
all_indexed url lines = some (200, some (record { errors = false; items = [] }))

abbrev es_adapter : ElasticsearchAdapter
es_adapter = record { bulk_url = "http://es/_bulk"; index_name = "logs" }

es_sent :
    Elasticsearch.send
      (λ l. true)
      (λ t. "2024.05.17")
      all_indexed
      es_adapter
      maps
      (labelled ∷ plain ∷ [])
    ≡ none
unfolding Elasticsearch.send Elasticsearch.bulk_lines
es_sent = refl

sent-IsAccepted_example :
    IsAccepted (λ l. true) (λ t. "2024.05.17") es_adapter maps all_indexed (labelled ∷ plain ∷ [])
sent-IsAccepted_example =
    sent-IsAccepted (λ l. true) (λ t. "2024.05.17") es_adapter maps all_indexed labelled
      (plain ∷ []) es_sent

-- The same two labels in two orders.
abbrev one_order : Heap
one_order = record { next = 1; at = λ a. ("app", "web") ∷ ("zone", "b") ∷ [] }

abbrev other_order : Heap
other_order = record { next = 1; at = λ a. ("zone", "b") ∷ ("app", "web") ∷ [] }

same_labels : SameLabels (one_order.at 0) (other_order.at 0)
unfolding lookup
same_labels key = elim (Bool-cases (str_eq "app" key)) [
  | inl e ↦
      subst (λ k. lookup k (one_order.at 0) ≡ lookup k (other_order.at 0)) ((eq_iff "app" key).0 e)
        refl
  | inr n ↦ ground (arith, n)
]

extract_labels_content_example :
    ◌≡◌ {A = LabelMap}
      (Quot.mk (extract_labels one_order labelled))
      (Quot.mk (extract_labels other_order labelled))
extract_labels_content_example =
    (extract_labels_content labelled one_order other_order (refl, (refl, tt)) (refl, (refl, tt))
      same_labels).0

abbrev flush_at_once : S3Config
flush_at_once = record {
  bucket = "logs";
  region = "";
  prefix = "";
  endpoint = "";
  access_key_id = "";
  secret_access_key = "";
  flush_interval = "0s";
  batch_size = 0;
  max_retries = 0;
  use_path_style = false;
}

-- The interval 0s makes the constructor panic.
zero_interval_panics :
    new_s3_adapter {A = ℕ} (λ region. true) (λ duration. some (pos 0)) flush_at_once ≡ ticker_panics
unfolding new_s3_adapter
zero_interval_panics = refl
