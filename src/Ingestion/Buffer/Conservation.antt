-- ===== src/Ingestion/Buffer/Conservation.antt =====
-- pkg/ingestion/buffer.go under any schedule of its steps: no entry is lost without being counted,
-- the order is kept, and the batches have their bounds.
use logsieve.Prelude.{
  ℕ, ◌+◌, Bool, List, [], ◌∷◌, ◌++◌, append-nil, append_assoc, append_weave, length, count,
  count-append, concat, concat-append, ◌≡◌, refl, sym, ap, ◌∙◌, arith,
}
use logsieve.Ingestion.Buffer.{
  receive_from, get_from, Buffer, AddResult, added, send, add, flush, collect, receive, tick,
  get_batch, close,
}

pub data Op {ℓ} (A : Type ℓ) : Type ℓ where
  adds : A → Op A
  receives ticks gets closes : Op A

-- The entries that a step accepts, hands to the consumer and drops, and the buffer after it.
pub record Effect {ℓ} (A : Type ℓ) : Type ℓ where
  pub accepted : List A
  pub delivered : List A
  pub dropped : List A
  pub after : Buffer A

module _ {ℓ} {A : Type ℓ} where
  abbrev if_added : A → AddResult → List A
  if_added x added = x ∷ []
  if_added x _ = []

  unfoldable pub step : Op A → Buffer A → Effect A
  step (adds x) b = record {
    accepted = if_added x (add x b).0;
    delivered = [];
    dropped = [];
    after = (add x b).1;
  }
  step receives b = record {
    accepted = [];
    delivered = [];
    dropped = (receive b).0;
    after = (receive b).1;
  }
  step ticks b = record { accepted = []; delivered = []; dropped = (tick b).0; after = (tick b).1 }
  step gets b = record {
    accepted = [];
    delivered = (get_batch b).0;
    dropped = [];
    after = (get_batch b).1;
  }
  step closes b = record { accepted = []; delivered = []; dropped = []; after = close b }

  unfoldable pub run : List (Op A) → Buffer A → Effect A
  run [] b = record { accepted = []; delivered = []; dropped = []; after = b }
  run (o ∷ os) b =
      let e = step o b in
      let r = run os e.after in
      record {
        accepted = e.accepted ++ r.accepted;
        delivered = e.delivered ++ r.delivered;
        dropped = e.dropped ++ r.dropped;
        after = r.after;
      }

  -- The entries inside, the oldest first.
  abbrev pub held : Buffer A → List A
  held b = concat b.batches ++ (b.batch ++ b.buffer)

  -- Entries with a property, inside.
  abbrev pub held_count : (A → Bool) → Buffer A → ℕ
  held_count p b = count p (concat b.batches) + (count p b.batch + count p b.buffer)

  pub count-held : (p : A → Bool) (b : Buffer A) → count p (held b) ≡ held_count p b
  count-held p b = omega (
    arith,
    count-append p (concat b.batches) (b.batch ++ b.buffer),
    count-append p b.batch b.buffer,
  )

  pub flush-count :
      (p : A → Bool) (b : Buffer A)
      → held_count p b ≡ count p (flush b).0 + held_count p (flush b).1
  unfolding flush
  flush-count p b = ground (
    arith,
    concat-append b.batches (b.batch ∷ []),
    count-append p (concat b.batches) (b.batch ++ []),
    append-nil b.batch,
  )

  collect-count :
      (p : A → Bool) (b : Buffer A)
      → held_count p b ≡ count p (collect b).0 + held_count p (collect b).1
  unfolding collect
  collect-count p b = ground (arith, flush-count p b)

  pub receive_from-count :
      (p : A → Bool) (xs : List A) (b : Buffer A)
      → b.buffer ≡ xs
      → held_count p b ≡ count p (receive_from xs b).0 + held_count p (receive_from xs b).1
  receive_from-count p [] b e = ground (arith, flush-count p b)
  receive_from-count p (x ∷ xs) b e =
      let grown = record b { buffer = xs; batch = b.batch ++ x ∷ [] } in
      omega (arith, ap (count p) e, count-append p b.batch (x ∷ []), collect-count p grown)

  pub get_from-count :
      (p : A → Bool) (xss : List (List A)) (b : Buffer A)
      → b.batches ≡ xss
      → held_count p b ≡ count p (get_from xss b).0 + held_count p (get_from xss b).1
  get_from-count p [] b e = omega arith
  get_from-count p (xs ∷ xss) b e =
      omega (arith, ap (λ yss. count p (concat yss)) e, count-append p xs (concat xss))

  step-count :
      (p : A → Bool) (o : Op A) (b : Buffer A)
      → let e = step o b in
        held_count p b + count p e.accepted
        ≡ count p e.delivered + (count p e.dropped + held_count p e.after)
  unfolding step receive tick get_batch close add send
  step-count p (adds x) b = ground (arith, count-append p b.buffer (x ∷ []))
  step-count p receives b = omega (arith, receive_from-count p b.buffer b refl)
  step-count p ticks b = omega (arith, flush-count p b)
  step-count p gets b = omega (arith, get_from-count p b.batches b refl)
  step-count p closes b = ground arith

  -- No entry is lost unseen and none is doubled: for any property of entries, under every schedule,
  -- as many entries with it were inside or were accepted as were delivered, dropped or are inside.
  pub run_counts :
      (p : A → Bool) (os : List (Op A)) (b : Buffer A)
      → let e = run os b in
        count p (held b) + count p e.accepted
        ≡ count p e.delivered + (count p e.dropped + count p (held e.after))
  unfolding run
  run_counts p [] b = omega arith
  run_counts p (o ∷ os) b =
      let e = step o b in
      let r = run os e.after in
      omega (
        arith,
        run_counts p os e.after,
        step-count p o b,
        count-held p b,
        count-held p e.after,
        count-append p e.accepted r.accepted,
        count-append p e.delivered r.delivered,
        count-append p e.dropped r.dropped,
      )

  append-is-nil : (xs ys : List A) → xs ++ ys ≡ [] → (xs ≡ []) × (ys ≡ [])
  append-is-nil [] ys e = (refl, e)
  append-is-nil (x ∷ xs) ys e = absurd cc

  length-nil : (xs : List A) → xs ≡ [] → length xs ≡ 0
  length-nil xs e = ap length e

  flush-held : (b : Buffer A) → (flush b).0 ≡ [] → held b ≡ held (flush b).1
  unfolding flush
  flush-held b e = ground (
    arith,
    length-nil b.batch,
    concat-append b.batches (b.batch ∷ []),
    append_assoc (concat b.batches) b.batch b.buffer,
    append-nil b.batch,
  )

  collect-held : (b : Buffer A) → (collect b).0 ≡ [] → held b ≡ held (collect b).1
  unfolding collect
  collect-held b e = ground (arith, flush-held b)

  receive_from-held :
      (xs : List A) (b : Buffer A)
      → b.buffer ≡ xs
      → (receive_from xs b).0 ≡ []
      → held b ≡ held (receive_from xs b).1
  receive_from-held [] b e d = ground (arith, flush-held b)
  receive_from-held (x ∷ xs) b e d =
      let grown = record b { buffer = xs; batch = b.batch ++ x ∷ [] } in
      (ap (λ ys. concat b.batches ++ (b.batch ++ ys)) e
        ∙ ap (λ ys. concat b.batches ++ ys) (sym (append_assoc b.batch (x ∷ []) xs)))
      ∙ collect-held grown d

  get_from-held :
      (xss : List (List A)) (b : Buffer A)
      → b.batches ≡ xss
      → held b ≡ (get_from xss b).0 ++ held (get_from xss b).1
  get_from-held [] b e = refl
  get_from-held (xs ∷ xss) b e =
      ap (λ yss. concat yss ++ (b.batch ++ b.buffer)) e
      ∙ append_assoc xs (concat xss) (b.batch ++ b.buffer)

  step-held :
      (o : Op A) (b : Buffer A)
      → let e = step o b in e.dropped ≡ [] → held b ++ e.accepted ≡ e.delivered ++ held e.after
  unfolding step receive tick get_batch close add send
  step-held (adds x) b d = ground (
    arith,
    append-nil (held b),
    append_assoc (concat b.batches) (b.batch ++ b.buffer) (x ∷ []),
    append_assoc b.batch b.buffer (x ∷ []),
  )
  step-held receives b d = append-nil (held b) ∙ receive_from-held b.buffer b refl d
  step-held ticks b d = append-nil (held b) ∙ flush-held b d
  step-held gets b d = append-nil (held b) ∙ get_from-held b.batches b refl
  step-held closes b d = ground (arith, append-nil (held b))

  -- The order is kept: under every schedule in which no batch is dropped, the entries delivered,
  -- followed by those still inside, are those that were inside, followed by those accepted.
  pub run_in_order :
      (os : List (Op A)) (b : Buffer A)
      → let e = run os b in e.dropped ≡ [] → held b ++ e.accepted ≡ e.delivered ++ held e.after
  unfolding run
  run_in_order [] b d = append-nil (held b)
  run_in_order (o ∷ os) b d =
      let s = step o b in
      let n = append-is-nil s.dropped (run os s.after).dropped d in
      append_weave (held b) _ _ _ _ _ _ (step-held o b n.0) (run_in_order os s.after n.1)
