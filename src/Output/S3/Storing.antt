-- ===== src/Output/S3/Storing.antt =====
-- Where the entries go that pkg/output/s3.go is given.
use logsieve.Prelude.{
  ℕ, zero, suc, ◌+◌, String, Bool, true, false, List, [], ◌∷◌, ◌++◌, Option, none, ltb,
  if◌then◌else◌, Dict, insert, lookup, insert-insert, count, count-append, ◌≡◌, refl, ap, ◌∙◌,
  arith, append-nil,
}
use logsieve.Output.Retry.{next_backoff}
use logsieve.Output.S3.{
  Reply, refused, Upload, S3Adapter, Calendar, generate_key, body, upload_loop, upload_batch,
  take_full, send, flush,
}

-- Whether the object is stored by one of the attempts.
abbrev pub is_put : (ℕ → Reply) → ℕ → ℕ → Bool
is_put replies zero i = false
is_put replies (suc left) i =
    let rest = is_put replies left (i + 1) in elim (replies i) [ refused ↦ rest | _ ↦ true ]

module _ {L : Type 0} where
  -- The lines of all objects.
  abbrev pub stored_lines : Dict (List L) → List L
  stored_lines [] = []
  stored_lines ((key, lines) ∷ rest) = lines ++ stored_lines rest

  count-insert :
      (p : L → Bool) (key : String) (lines : List L) (bucket : Dict (List L))
      → lookup key bucket ≡ none
      → count p (stored_lines (insert key lines bucket))
        ≡ count p (stored_lines bucket) + count p lines
  unfolding insert lookup
  count-insert p key lines [] f = ground (arith, append-nil lines)
  count-insert p key lines ((k, old) ∷ bucket) f = ground (
    arith,
    f,
    count-insert p key lines bucket,
    count-append p old (stored_lines bucket),
    count-append p old (stored_lines (insert key lines bucket)),
  )

  upload_loop-bucket :
      (replies : ℕ → Reply) (left i max_backoff backoff : ℕ) (key : String) (lines : List L)
      (bucket : Dict (List L))
      → (upload_loop replies left i max_backoff backoff key lines bucket).2
        ≡ (if is_put replies left i then insert key lines bucket else bucket)
  unfolding upload_loop
  upload_loop-bucket replies zero i mb b key lines bucket = refl
  upload_loop-bucket replies (suc left) i mb b key lines bucket =
      let next : ℕ = if ltb 0 i then next_backoff mb b else b in
      ground (
        arith,
        upload_loop-bucket replies left (i + 1) mb next key lines bucket,
        upload_loop-bucket replies left (i + 1) mb next key lines (insert key lines bucket),
        insert-insert key lines lines bucket,
      )

module _ {A L : Type 0} (marshal : A → Option L) where
  body-append : (xs ys : List A) → body marshal (xs ++ ys) ≡ body marshal xs ++ body marshal ys
  unfolding body
  body-append [] ys = refl
  body-append (x ∷ xs) ys = ground (arith, body-append xs ys)

module _ {A L : Type 0} (marshal : A → Option L) (calendar : Calendar) where
  abbrev pub key_at : Upload → S3Adapter A → String
  key_at u s = generate_key calendar s.prefix u.now

  -- An upload whose attempts never stored anything loses its entries.
  abbrev pub lost_of : Upload → S3Adapter A → List A → List A
  lost_of u s xs = if is_put u.replies (s.max_retries + 1) 0 then [] else xs

  upload_batch-count :
      (p : L → Bool) (u : Upload) (s : S3Adapter A) (xs : List A) (bucket : Dict (List L))
      → lookup (key_at u s) bucket ≡ none
      → count p (stored_lines (upload_batch marshal calendar u s xs bucket).2)
          + count p (body marshal (lost_of u s xs))
        ≡ count p (stored_lines bucket) + count p (body marshal xs)
  unfolding body
  upload_batch-count p u s [] bucket f = ground arith
  upload_batch-count p u s (x ∷ xs) bucket f = ground (
    arith,
    upload_loop-bucket u.replies (s.max_retries + 1) 0 s.max_backoff s.initial_backoff (key_at u s)
        (body marshal (x ∷ xs)) bucket,
    count-insert p (key_at u s) (body marshal (x ∷ xs)) bucket f,
  )

pub data Op (A : Type 0) : Type 0 where
  sends : Upload → List A → Op A
  flushes : Upload → Op A

pub record State (A L : Type 0) : Type 0 where
  pub adapter : S3Adapter A
  pub bucket : Dict (List L)
  pub lost : List A

abbrev pub upload_of : {A : Type 0} → Op A → Upload
upload_of (sends u entries) = u
upload_of (flushes u) = u

abbrev pub given : {A : Type 0} → List (Op A) → List A
given [] = []
given (sends u entries ∷ os) = entries ++ given os
given (flushes u ∷ os) = given os

module _ {A L : Type 0} (marshal : A → Option L) (calendar : Calendar) where
  unfoldable pub step : Op A → State A L → State A L
  step (sends u entries) w =
      let s = w.adapter in
      let r = send marshal calendar u entries s w.bucket in
      record {
        adapter = r.1;
        bucket = r.2;
        lost =
            w.lost
            ++ lost_of marshal calendar u s
                (take_full (record s { buffer = s.buffer ++ entries })).0;
      }
  step (flushes u) w =
      let r = flush marshal calendar u w.adapter w.bucket in
      record {
        adapter = r.1;
        bucket = r.2;
        lost = w.lost ++ lost_of marshal calendar u w.adapter w.adapter.buffer;
      }

  unfoldable pub run : List (Op A) → State A L → State A L
  run [] w = w
  run (o ∷ os) w = run os (step o w)

  -- Each upload has a key that the bucket does not have yet.
  abbrev pub HasFreshKeys : List (Op A) → State A L → Type 0
  HasFreshKeys [] w = Unit {0}
  HasFreshKeys (o ∷ os) w =
      (lookup (key_at marshal calendar (upload_of o) w.adapter) w.bucket ≡ none)
      × HasFreshKeys os (step o w)

  -- The lines that are stored, waiting or lost.
  abbrev pub line_count : (L → Bool) → State A L → ℕ
  line_count p w =
      count p (stored_lines w.bucket)
      + (count p (body marshal w.adapter.buffer) + count p (body marshal w.lost))

  take_full-count :
      (p : L → Bool) (s : S3Adapter A)
      → count p (body marshal (take_full s).0) + count p (body marshal (take_full s).1.buffer)
        ≡ count p (body marshal s.buffer)
  unfolding take_full body
  take_full-count p s = ground arith

  lose :
      (p : L → Bool) (lost more : List A)
      → count p (body marshal (lost ++ more))
        ≡ count p (body marshal lost) + count p (body marshal more)
  lose p lost more =
      ap (count p) (body-append marshal lost more)
      ∙ count-append p (body marshal lost) (body marshal more)

  step-count :
      (p : L → Bool) (o : Op A) (w : State A L)
      → lookup (key_at marshal calendar (upload_of o) w.adapter) w.bucket ≡ none
      → line_count p (step o w) ≡ line_count p w + count p (body marshal (given (o ∷ [])))
  unfolding step send flush body
  step-count p (sends u entries) w f =
      let s : S3Adapter A = w.adapter in
      let grown : S3Adapter A = record s { buffer = s.buffer ++ entries } in
      omega (
        arith,
        ap (λ xs. count p (body marshal xs)) (append-nil entries),
        lose p s.buffer entries,
        lose p w.lost (lost_of marshal calendar u s (take_full grown).0),
        take_full-count p grown,
        upload_batch-count marshal calendar p u s (take_full grown).0 w.bucket f,
      )
  step-count p (flushes u) w f = omega (
    arith,
    lose p w.lost (lost_of marshal calendar u w.adapter w.adapter.buffer),
    upload_batch-count marshal calendar p u w.adapter w.adapter.buffer w.bucket f,
  )

  given-count :
      (p : L → Bool) (o : Op A) (os : List (Op A))
      → count p (body marshal (given (o ∷ os)))
        ≡ count p (body marshal (given (o ∷ []))) + count p (body marshal (given os))
  unfolding body
  given-count p (sends u entries) os =
      omega (
        arith,
        lose p entries (given os),
        ap (λ xs. count p (body marshal xs)) (append-nil entries),
      )
  given-count p (flushes u) os = omega arith

  -- However Sends and ticks follow one another, if each upload has a key that the bucket does not
  -- have yet: every line of an entry that was given is in an object of the bucket once, however many
  -- attempts stored it, or waits in the buffer, or was part of an upload no attempt of which stored
  -- the object.
  pub s3_counts :
      (p : L → Bool) (os : List (Op A)) (w : State A L)
      → HasFreshKeys os w
      → line_count p (run os w) ≡ line_count p w + count p (body marshal (given os))
  unfolding run body
  s3_counts p [] w f = omega arith
  s3_counts p (o ∷ os) w f =
      omega (arith, step-count p o w f.0, s3_counts p os (step o w) f.1, given-count p o os)
