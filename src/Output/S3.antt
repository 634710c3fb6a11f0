-- ===== src/Output/S3.antt =====
-- The S3 adapter of pkg/output/s3.go. Entries are kept in a buffer and uploaded as one object. The
-- bucket is a map from keys to the lines of an object. Marshalling an entry, the calendar of package
-- time and what PutObject does are parameters. One Send, tick or shutdown ends before the next begins.
pub mod Storing
pub mod Losses
use logsieve.Prelude.{
  ℕ, ℤ, pos, negsuc, zero, suc, ◌+◌, ◌≤◌, String, Bool, true, false, not, List, [], ◌∷◌, ◌++◌,
  Option, none, some, length, ltb, leb, ◌==◌, if◌then◌else◌, str_eq, Dict, insert, lookup, ltb,
  itoa, trim_suffix, text_length,
}
use Prim.Native.String.{◌++◌ as ◌<>◌}
use logsieve.Output.Retry.{next_backoff}

-- An attempt is answered, or it fails before or after the object was stored.
pub data Reply : Type 0 where
  stored refused unanswered : Reply

pub record Upload : Type 0 where
  pub now : ℕ
  pub replies : ℕ → Reply

pub record S3Adapter (A : Type 0) : Type 0 where
  pub batch_size : ℕ
  pub max_retries : ℕ
  pub initial_backoff : ℕ
  pub max_backoff : ℕ
  pub prefix : String
  pub buffer : List A

-- A value of the configuration's map.
pub data Value : Type 0 where
  text : String → Value
  flag : Bool → Value
  other : Value

pub record S3Config : Type 0 where
  pub bucket : String
  pub region : String
  pub prefix : String
  pub endpoint : String
  pub access_key_id : String
  pub secret_access_key : String
  pub flush_interval : String
  pub batch_size : ℕ
  pub max_retries : ℕ
  pub use_path_style : Bool

-- v, ok := m[key].(string), and the empty text where it is no string; and the same of a flag.
abbrev text_of : Option Value → String
text_of (some (text s)) = s
text_of _ = ""

abbrev flag_of : Option Value → Bool
flag_of (some (flag b)) = b
flag_of _ = false

unfoldable pub parse_s3_config : ℕ → ℕ → Dict Value → S3Config
parse_s3_config batch_size retries m = record {
  bucket = text_of (lookup "bucket" m);
  region = text_of (lookup "region" m);
  prefix = text_of (lookup "prefix" m);
  endpoint = text_of (lookup "endpoint" m);
  access_key_id = text_of (lookup "accessKeyId" m);
  secret_access_key = text_of (lookup "secretAccessKey" m);
  flush_interval = text_of (lookup "flushInterval" m);
  batch_size = batch_size;
  max_retries = retries;
  use_path_style = flag_of (lookup "usePathStyle" m);
}

pub data Construction (A : Type 0) : Type 0 where
  construction_fails ticker_panics : Construction A
  constructed : S3Adapter A → Construction A

-- The interval between two uploads: a text that is no duration leaves the default.
abbrev pub interval_of : (String → Option ℤ) → String → ℤ
interval_of parse_duration duration =
    elim (if str_eq duration "" then none else parse_duration duration) [
      | none ↦ pos 30000000000
      | some d ↦ d
    ]

-- time.NewTicker panics where its duration is not positive.
abbrev pub is_positive : ℤ → Bool
is_positive (pos n) = ltb 0 n
is_positive (negsuc n) = false

-- Whether the AWS configuration loads is given, and how package time reads a duration; a number of 0
-- stands for 0 and below. Durations are in nanoseconds.
unfoldable pub new_s3_adapter :
    {A : Type 0} → (String → Bool) → (String → Option ℤ) → S3Config → Construction A
new_s3_adapter loads parse_duration cfg =
    let region = if str_eq cfg.region "" then "us-east-1" else cfg.region in
    if str_eq cfg.bucket ""
    then construction_fails
    else if not (loads region)
    then construction_fails
    else if not (is_positive (interval_of parse_duration cfg.flush_interval))
    then ticker_panics
    else constructed (record {
      batch_size = if cfg.batch_size == 0 then 1000 else cfg.batch_size;
      max_retries = if cfg.max_retries == 0 then 3 else cfg.max_retries;
      initial_backoff = 250000000;
      max_backoff = 10000000000;
      prefix = cfg.prefix;
      buffer = [];
    })

-- The parts of a time in UTC that Year(), Month(), Day(), Hour() and Format yield.
pub record Calendar : Type 0 where
  pub year : ℕ → ℕ
  pub month : ℕ → ℕ
  pub day : ℕ → ℕ
  pub hour : ℕ → ℕ
  pub stamp : ℕ → String

-- fmt's %02d
abbrev pub two_digits : ℕ → String
two_digits n = if ltb n 10 then "0" <> itoa n else itoa n

unfoldable pub generate_key : Calendar → String → ℕ → String
generate_key c prefix now =
    let folder = if str_eq prefix "" then "" else trim_suffix prefix "/" <> "/" in
    folder
    <> ("year="
        <> (itoa (c.year now)
            <> ("/month="
                <> (two_digits (c.month now)
                    <> ("/day="
                        <> (two_digits (c.day now)
                            <> ("/hour="
                                <> (two_digits (c.hour now)
                                    <> ("/logsieve-" <> (c.stamp now <> ".jsonl"))))))))))

module _ {A L : Type 0} (marshal : A → Option L) where
  -- The lines of the entries that can be marshalled.
  unfoldable pub body : List A → List L
  body [] = []
  body (x ∷ xs) = let rest = body xs in elim (marshal x) [ none ↦ rest | some l ↦ l ∷ rest ]

abbrev pub is_answered : Reply → Bool
is_answered stored = true
is_answered _ = false

module _ {L : Type 0} where
  abbrev pub put : Reply → String → List L → Dict (List L) → Dict (List L)
  put refused key lines bucket = bucket
  put _ key lines bucket = insert key lines bucket

  -- The attempts that are left, and the number of the next: whether one was answered, the waits
  -- before the attempts, and the bucket.
  unfoldable pub upload_loop :
      (ℕ → Reply) → ℕ → ℕ → ℕ → ℕ → String → List L → Dict (List L) → Bool × List ℕ × Dict (List L)
  upload_loop replies zero i max_backoff backoff key lines bucket = (false, [], bucket)
  upload_loop replies (suc left) i max_backoff backoff key lines bucket =
      let after = put (replies i) key lines bucket in
      let next = if ltb 0 i then next_backoff max_backoff backoff else backoff in
      let waits = if ltb 0 i then backoff ∷ [] else [] in
      let rest = upload_loop replies left (i + 1) max_backoff next key lines after in
      if is_answered (replies i) then (true, waits, after) else (rest.0, waits ++ rest.1, rest.2)

-- The entries that are uploaded, and the adapter that is left.
unfoldable pub take_full : {A : Type 0} → S3Adapter A → List A × S3Adapter A
take_full s =
    if leb s.batch_size (length s.buffer) then (s.buffer, record s { buffer = [] }) else ([], s)

module _ {A L : Type 0} (marshal : A → Option L) (calendar : Calendar) where
  -- Whether it reports no error, the waits, and the bucket.
  abbrev pub upload_batch :
      Upload → S3Adapter A → List A → Dict (List L) → Bool × List ℕ × Dict (List L)
  upload_batch u s [] bucket = (true, [], bucket)
  upload_batch u s (x ∷ xs) bucket =
      upload_loop u.replies (s.max_retries + 1) 0 s.max_backoff s.initial_backoff
        (generate_key calendar s.prefix u.now) (body marshal (x ∷ xs)) bucket

  -- Whether Send reports no error.
  unfoldable pub send :
      Upload → List A → S3Adapter A → Dict (List L) → Bool × S3Adapter A × Dict (List L)
  send u entries s bucket =
      let t = take_full (record s { buffer = s.buffer ++ entries }) in
      let r = upload_batch u s t.0 bucket in (r.0, t.1, r.2)

  -- Both cases of flushLoop: at a tick and when it is stopped, what waits is uploaded.
  unfoldable pub flush : Upload → S3Adapter A → Dict (List L) → Bool × S3Adapter A × Dict (List L)
  flush u s bucket =
      let r = upload_batch u s s.buffer bucket in (r.0, record s { buffer = [] }, r.2)

  -- Close stops flushLoop and waits for its last upload, whose error it does not report.
  unfoldable pub close : Upload → S3Adapter A → Dict (List L) → S3Adapter A × Dict (List L)
  close u s bucket = let r = flush u s bucket in (r.1, r.2)
