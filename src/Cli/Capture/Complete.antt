-- ===== src/Cli/Capture/Complete.antt =====
-- What a capture of cmd/logsieve/main.go has written when it reports its lines.
use logsieve.Prelude.{
  ℕ, ◌+◌, ◌≢◌, String, Bool, true, false, List, [], ◌∷◌, ◌++◌, append-nil, append_assoc, Option,
  length, length-append, ◌≡◌, refl, sym, ap, ◌∙◌, arith,
}
use logsieve.Cli.Capture.{Main, Capture, Step, Reach}

append_one_not_nil : (xs : List String) (y : String) → xs ++ y ∷ [] ≢ []
append_one_not_nil [] y e = cc
append_one_not_nil (x ∷ xs) y e = cc

-- While no line is lost, what is written and what waits is what was printed.
abbrev InOrder : Capture → Type 0
InOrder s = s.lost ≡ [] → s.produced ≡ s.written ++ s.pipe

-- Every line that was printed is written, lost or in the pipe, and the first two are counted.
record Counts (s : Capture) : Type 0 where
  all : length s.produced ≡ s.counted + length s.pipe
  taken : s.counted ≡ length s.written + length s.lost

module _ {limit : Option ℕ} {scans : String → Bool} where
  Step-InOrder : {s t : Capture} → Step limit scans s t → InOrder s → InOrder t
  Step-InOrder {s} (Step.prints line r) i k = cc (i k, append_assoc s.written s.pipe (line ∷ []))
  Step-InOrder {s} Step.exits i k = i k
  Step-InOrder {s} Step.is_interrupted i k = i k
  Step-InOrder {s} (Step.time_is_up n l) i k = i k
  Step-InOrder {s} (Step.copies line rest r e c) i k =
      cc (i k, e, append_assoc s.written (line ∷ []) rest)
  Step-InOrder {s} (Step.loses line rest r e c) i k = absurd (append_one_not_nil s.lost line k)
  Step-InOrder {s} (Step.gives_up line rest e c) i k = i k
  Step-InOrder {s} (Step.sees_end e r) i k = i k
  Step-InOrder {s} (Step.finds_pipe_closed m) i k = i k
  Step-InOrder {s} (Step.kills m c) i k = i k
  Step-InOrder {s} (Step.hears_reader m r) i k = i k
  Step-InOrder {s} (Step.waits m r) i k = i k

  Reach-InOrder : {s : Capture} → Reach limit scans s → InOrder s
  Reach-InOrder Reach.start k = refl
  Reach-InOrder (Reach.later r st) k = Step-InOrder st (Reach-InOrder r) k

  Step-Counts : {s t : Capture} → Step limit scans s t → Counts s → Counts t
  Step-Counts {s} (Step.prints line r) i =
      ground (arith, i, length-append s.produced (line ∷ []), length-append s.pipe (line ∷ []))
  Step-Counts {s} Step.exits i = ground (arith, i)
  Step-Counts {s} Step.is_interrupted i = ground (arith, i)
  Step-Counts {s} (Step.time_is_up n l) i = ground (arith, i)
  Step-Counts {s} (Step.copies line rest r e c) i =
      ground (arith, i, ap length e, length-append s.written (line ∷ []))
  Step-Counts {s} (Step.loses line rest r e c) i =
      ground (arith, i, ap length e, length-append s.lost (line ∷ []))
  Step-Counts {s} (Step.gives_up line rest e c) i = ground (arith, i)
  Step-Counts {s} (Step.sees_end e r) i = ground (arith, i)
  Step-Counts {s} (Step.finds_pipe_closed m) i = ground (arith, i)
  Step-Counts {s} (Step.kills m c) i = ground (arith, i)
  Step-Counts {s} (Step.hears_reader m r) i = ground (arith, i)
  Step-Counts {s} (Step.waits m r) i = ground (arith, i)

  Reach-Counts : {s : Capture} → Reach limit scans s → Counts s
  Reach-Counts Reach.start = record { all = refl; taken = refl }
  Reach-Counts (Reach.later r st) = Step-Counts st (Reach-Counts r)

abbrev is_selecting : Main → Bool
is_selecting Main.selecting = true
is_selecting _ = false

-- What an uncancelled capture knows.
pub record Inv (s : Capture) : Type 0 where
  pub heard : is_selecting s.main ≡ false → s.reader_ended ≡ true
  pub read : s.reader_ended ≡ true → (s.pipe ≡ []) × (s.runs ≡ false)
  pub counted : (n : ℕ) → s.main ≡ Main.reported n → n ≡ s.counted

module _ {limit : Option ℕ} {scans : String → Bool}
    (total : (line : String) → scans line ≡ true) where
  Step-Inv :
      {s t : Capture}
      → Step limit scans s t
      → (s.cancelled ≡ false → Inv s)
      → t.cancelled ≡ false
      → Inv t
  Step-Inv {s} (Step.prints line r) i c = ground (arith, i c)
  Step-Inv {s} Step.exits i c = ground (arith, i c)
  Step-Inv {s} Step.is_interrupted i c = absurd cc
  Step-Inv {s} (Step.time_is_up n l) i c = absurd cc
  Step-Inv {s} (Step.copies line rest r e q) i c = ground (arith, i c)
  Step-Inv {s} (Step.loses line rest r e q) i c = ground (arith, i c)
  Step-Inv {s} (Step.gives_up line rest e q) i c = absurd (ground (arith, total line, q))
  Step-Inv {s} (Step.sees_end e r) i c = ground (arith, i c)
  Step-Inv {s} (Step.finds_pipe_closed m) i c = ground (arith, i c)
  Step-Inv {s} (Step.kills m q) i c = absurd (ground (arith, q, c))
  Step-Inv {s} (Step.hears_reader m r) i c = ground (arith, i c)
  Step-Inv {s} (Step.waits m r) i c = ground (arith, i c)

  Reach-Inv : {s : Capture} → Reach limit scans s → s.cancelled ≡ false → Inv s
  Reach-Inv Reach.start c = record {
    heard = λ e. absurd cc;
    read = λ e. absurd cc;
    counted = λ n e. absurd cc;
  }
  Reach-Inv (Reach.later r st) c = Step-Inv st (Reach-Inv r) c

  -- A capture that ends by itself has taken every line: if no line is too long for the scanner, and
  -- neither a signal nor the time limit has cancelled it, the number that it reports is that of all
  -- lines that the program printed, each of which was written, or lost where its writing failed; and
  -- if no writing failed, all are written, in their order.
  pub capture_complete :
      (s : Capture) (n : ℕ)
      → Reach limit scans s
      → s.cancelled ≡ false
      → s.main ≡ Main.reported n
      → (n ≡ length s.produced)
        × (n ≡ length s.written + length s.lost)
        × (s.lost ≡ [] → s.written ≡ s.produced)
  capture_complete s n r c m =
      let i = Reach-Inv r c in
      let k = Reach-Counts r in
      let ended = (i.read (i.heard (ap is_selecting m))).0 in
      (
        omega (arith, i.counted n m, k.all, ap length ended),
        omega (arith, i.counted n m, k.taken),
        λ e. sym (Reach-InOrder r e ∙ (ap (λ l. s.written ++ l) ended ∙ append-nil s.written)),
      )
