-- ===== src/Dedup/Engine.antt =====
-- pkg/dedup/engine.go: one entry at a time through the fingerprints, the template miner and the
-- context window. The SHA-256 fingerprint is a parameter, each time.Now() of a call is an argument,
-- and metrics and logging are left out.
pub mod Decisions
pub mod Tests
use logsieve.Prelude.{
  ℕ, String, Bool, true, false, not, ◌&&◌, ◌||◌, List, [], Option, none, some, ltb, if◌then◌else◌,
  str_eq, itoa, length,
}
use logsieve.Ingestion.Entry.{LogEntry, Heap}
use logsieve.Dedup.Drain
use logsieve.Dedup.Drain.{Drain3, ChangeType, cluster_created, Ratio, MaskingRule}
use logsieve.Dedup.Fingerprint
use logsieve.Dedup.Fingerprint.{FingerprintCache}
use logsieve.Dedup.Context
use logsieve.Dedup.Context.{ContextWindow}

pub record Engine : Type 0 where
  pub drain : Drain3
  pub fingerprints : FingerprintCache
  pub context : ContextWindow

pub record Result : Type 0 where
  pub entry : LogEntry
  pub is_duplicate : Bool
  pub template_id : String
  pub fingerprint : String
  pub should_output : Bool
  pub context : List LogEntry

-- The readings of the clock in one call of Process, in their order.
pub record Times : Type 0 where
  pub checked : ℕ
  pub mined : ℕ
  pub added : ℕ

unfoldable pub new_engine : Ratio → List MaskingRule → ℕ → ℕ → Engine
new_engine threshold rules ttl context_lines = record {
  drain = Drain.new_drain3 threshold rules;
  fingerprints = Fingerprint.new_fingerprint_cache ttl;
  context = Context.new_context_window context_lines;
}

-- The template's count is above 1. GetTemplate reads the id back from its decimal text.
unfoldable pub should_skip_based_on_template : Drain3 → ℕ → Bool
should_skip_based_on_template d id = elim (Drain.get_cluster d id) [
  | none ↦ false
  | some c ↦ ltb 1 c.size
]

unfoldable pub should_preserve_context : LogEntry → Bool
should_preserve_context e =
    if str_eq e.level ""
    then false
    else str_eq e.level "ERROR" || str_eq e.level "FATAL" || str_eq e.level "PANIC"

abbrev pub is_created : ChangeType → Bool
is_created cluster_created = true
is_created _ = false

abbrev pub skips : Drain.AddLogResult × Drain3 → Bool
skips r = not (is_created (r.0).change_type) && should_skip_based_on_template r.1 (r.0).cluster_id

-- Process for a fingerprint that is not in the cache.
unfoldable pub process_new : Times → String → LogEntry → Heap → Engine → Result × Heap × Engine
process_new t fingerprint entry h e =
    let r = Drain.add_log_message t.mined e.drain entry.message in
    let ctx = Context.get_context entry e.context h in
    (
      record {
        entry = entry;
        is_duplicate = skips r;
        template_id = itoa (r.0).cluster_id;
        fingerprint = fingerprint;
        should_output = if should_preserve_context entry then true else not (skips r);
        context = if should_preserve_context entry then ctx.0 else [];
      },
      if should_preserve_context entry then ctx.1 else h,
      record {
        drain = r.1;
        fingerprints = Fingerprint.add t.added fingerprint e.fingerprints;
        context = Context.add entry e.context;
      },
    )

unfoldable pub reset : Engine → Engine
reset e = record {
  drain = Drain.reset e.drain;
  fingerprints = Fingerprint.clear e.fingerprints;
  context = Context.clear e.context;
}

pub record Stats : Type 0 where
  pub pattern_count : ℕ
  pub fingerprint_count : ℕ
  pub context_size : ℕ

unfoldable pub get_stats : Engine → Stats
get_stats e = record {
  pattern_count = Drain.get_pattern_count e.drain;
  fingerprint_count = Fingerprint.size e.fingerprints;
  context_size = Context.size e.context;
}

module _ (get_fingerprint : String → String) where
  unfoldable pub process : Times → LogEntry → Heap → Engine → Result × Heap × Engine
  process t entry h e =
      let fingerprint = get_fingerprint entry.message in
      let q = Fingerprint.exists t.checked fingerprint e.fingerprints in
      if q.0
      then (
        record {
          entry = entry;
          is_duplicate = true;
          template_id = "";
          fingerprint = fingerprint;
          should_output = false;
          context = [];
        },
        h,
        record e { fingerprints = q.1 },
      )
      else process_new t fingerprint entry h (record e { fingerprints = q.1 })
