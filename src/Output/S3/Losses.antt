-- ===== src/Output/S3/Losses.antt =====
-- How pkg/output/s3.go loses entries: by two uploads with the same key, and by an upload that fails.
use logsieve.Prelude.{
  ℕ, zero, suc, ◌+◌, ◌≤◌, ◌<◌, String, true, false, List, [], ◌∷◌, ◌++◌, Option, length, ltb,
  if◌then◌else◌, eq_iff, Dict, insert, ◌≡◌, refl, arith, append-nil, le→leb,
}
use logsieve.Output.Retry.{next_backoff}
use logsieve.Output.S3.{
  Reply, stored, refused, Upload, S3Adapter, Calendar, body, upload_loop, upload_batch, take_full,
  send,
}
use logsieve.Output.S3.Storing.{stored_lines, key_at}

module _ {L : Type 0} where
  upload_loop_answered :
      (replies : ℕ → Reply) (left i max_backoff backoff : ℕ) (key : String) (lines : List L)
      (bucket : Dict (List L))
      → 0 < left
      → replies i ≡ stored
      → let r = upload_loop replies left i max_backoff backoff key lines bucket in
        (r.0 ≡ true) × (r.2 ≡ insert key lines bucket)
  unfolding upload_loop
  upload_loop_answered replies zero i mb b key lines bucket l h = absurd (omega arith)
  upload_loop_answered replies (suc left) i mb b key lines bucket l h = ground (arith, h)

  upload_loop_refused :
      (replies : ℕ → Reply) (left i max_backoff backoff : ℕ) (key : String) (lines : List L)
      (bucket : Dict (List L))
      → ((j : ℕ) → replies j ≡ refused)
      → let r = upload_loop replies left i max_backoff backoff key lines bucket in
        (r.0 ≡ false) × (r.2 ≡ bucket)
  unfolding upload_loop
  upload_loop_refused replies zero i mb b key lines bucket h = (refl, refl)
  upload_loop_refused replies (suc left) i mb b key lines bucket h =
      let next : ℕ = if ltb 0 i then next_backoff mb b else b in
      ground (arith, h i, upload_loop_refused replies left (i + 1) mb next key lines bucket h)

module _ {A L : Type 0} (marshal : A → Option L) (calendar : Calendar) where
  -- Two uploads in the same millisecond have the same key: with the entries of both taken, and an
  -- answer to both that they are stored, the bucket holds the second one's lines alone.
  pub same_key_replaces :
      (u : Upload) (s : S3Adapter A) (x y : A) (xs ys : List A)
      → u.replies 0 ≡ stored
      → let first = upload_batch marshal calendar u s (x ∷ xs) [] in
        let second = upload_batch marshal calendar u s (y ∷ ys) first.2 in
        (first.0 ≡ true) × (second.0 ≡ true) × (stored_lines second.2 ≡ body marshal (y ∷ ys))
  unfolding insert
  same_key_replaces u s x y xs ys r =
      let key : String = key_at marshal calendar u s in
      ground (
        arith,
        eq_iff key key,
        append-nil (body marshal (y ∷ ys)),
        upload_loop_answered u.replies (s.max_retries + 1) 0 s.max_backoff s.initial_backoff key
            (body marshal (x ∷ xs)) [] (omega arith) r,
        upload_loop_answered u.replies (s.max_retries + 1) 0 s.max_backoff s.initial_backoff key
            (body marshal (y ∷ ys)) (insert key (body marshal (x ∷ xs)) []) (omega arith) r,
      )

  upload_batch_refused :
      (u : Upload) (s : S3Adapter A) (xs : List A) (bucket : Dict (List L))
      → ((i : ℕ) → u.replies i ≡ refused)
      → 0 < length xs
      → let r = upload_batch marshal calendar u s xs bucket in (r.0 ≡ false) × (r.2 ≡ bucket)
  upload_batch_refused u s [] bucket f l = absurd (omega arith)
  upload_batch_refused u s (x ∷ xs) bucket f l =
      upload_loop_refused u.replies (s.max_retries + 1) 0 s.max_backoff s.initial_backoff
        (key_at marshal calendar u s) (body marshal (x ∷ xs)) bucket f

  -- A Send whose upload fails loses what waited: with all attempts refused, it reports the error, and
  -- neither the bucket nor the buffer has the entries that earlier Sends took without an error.
  pub failed_send_drops :
      (u : Upload) (s : S3Adapter A) (entries : List A) (bucket : Dict (List L))
      → ((i : ℕ) → u.replies i ≡ refused)
      → 0 < length (s.buffer ++ entries)
      → s.batch_size ≤ length (s.buffer ++ entries)
      → let r = send marshal calendar u entries s bucket in
        (r.0 ≡ false) × (r.1.buffer ≡ []) × (r.2 ≡ bucket)
  unfolding send take_full
  failed_send_drops u s entries bucket f l h =
      let r = upload_batch_refused u s (s.buffer ++ entries) bucket f l in
      rw (le→leb s.batch_size (length (s.buffer ++ entries)) h) (r.0, refl, r.1)
