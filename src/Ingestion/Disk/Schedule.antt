-- ===== src/Ingestion/Disk/Schedule.antt =====
-- The steps of pkg/ingestion/disk_buffer.go in the order in which they happen, and what comes of them.
use logsieve.Prelude.{ℕ, Bool, List, [], ◌∷◌, ◌++◌}
use logsieve.Ingestion.Buffer.{AddResult, added}
use logsieve.Ingestion.Disk.{
  Codec, DiskBuffer, add, close, get_batch, flush, write_line, end_flush, when_free, receive_from,
  read_from,
}

pub data Op (A : Type 0) : Type 0 where
  adds : A → Op A
  receives ticks : (creates : Bool) (now : ℕ) → Op A
  writes : (reaches : Bool) → Op A
  finishes reads gets closes : Op A

pub record Effect (A L : Type 0) : Type 0 where
  pub accepted : List A
  pub delivered : List A
  pub lost : List A
  pub after : DiskBuffer A L

abbrev pub if_added : {A : Type 0} → A → AddResult → List A
if_added x added = x ∷ []
if_added x _ = []

module _ {A L : Type 0} (codec : Codec A L) where
  unfoldable pub step : Op A → DiskBuffer A L → Effect A L
  step (adds x) d = record {
    accepted = if_added x (add x d).0;
    delivered = [];
    lost = [];
    after = (add x d).1;
  }
  step (receives creates now) d =
      let r = when_free d.writing (receive_from codec creates now d.input d) d in
      record { accepted = []; delivered = []; lost = r.0; after = r.1 }
  step (ticks creates now) d =
      let r = when_free d.writing (flush codec creates now d) d in
      record { accepted = []; delivered = []; lost = r.0; after = r.1 }
  step (writes reaches) d =
      let r = write_line codec reaches d.writing d.batch d in
      record { accepted = []; delivered = []; lost = r.0; after = r.1 }
  step finishes d =
      let r = end_flush codec d.writing d.batch d in
      record { accepted = []; delivered = []; lost = r.0; after = r.1 }
  step reads d = record {
    accepted = [];
    delivered = [];
    lost = (read_from codec d.files d).0;
    after = (read_from codec d.files d).1;
  }
  step gets d = record {
    accepted = [];
    delivered = (get_batch d.batches).0;
    lost = [];
    after = record d { batches = (get_batch d.batches).1 };
  }
  step closes d = record { accepted = []; delivered = []; lost = []; after = close d }

  unfoldable pub run : List (Op A) → DiskBuffer A L → Effect A L
  run [] d = record { accepted = []; delivered = []; lost = []; after = d }
  run (o ∷ os) d =
      let e = step o d in
      let r = run os e.after in
      record {
        accepted = e.accepted ++ r.accepted;
        delivered = e.delivered ++ r.delivered;
        lost = e.lost ++ r.lost;
        after = r.after;
      }
