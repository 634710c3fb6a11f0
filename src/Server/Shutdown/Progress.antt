-- ===== src/Server/Shutdown/Progress.antt =====
-- The shutdown of runServer (cmd/server/main.go) has no deadlock.
use logsieve.Prelude.{
  ℕ, ◌∙◌, Bool, true, false, List, [], ◌∷◌, ◌++◌, none, ◌≡◌, refl, arith, inl, inr, Bool-cases,
}
use logsieve.Ingestion.Buffer.{AddResult, send, receive, close}
use logsieve.Ingestion.Buffer.Closing.{flush_leaves, receive_eq, receive_leaves}
use logsieve.Server.Shutdown.{Main, System, Step, Reach, started, report, set_buffer, send_pending}
use logsieve.Server.Shutdown.Invariant.{Inv, started-Inv, Reach-Inv}

abbrev pub has_returned : Main → Bool
has_returned (Main.returned r) = true
has_returned _ = false

module _ {ℓ} {A : Type ℓ} where
  pub trans : {s t u : System A} → Reach s t → Reach t u → Reach s u
  trans r Reach.here = r
  trans r (Reach.later q st) = Reach.later (trans r q) st

  -- A run to the return without an error.
  abbrev pub CanReturn : System A → Type ℓ
  CanReturn s = (t : System A) × Reach s t × (t.main ≡ Main.returned none)

  pub first : {s t : System A} → Step s t → CanReturn t → CanReturn s
  first st (u, r, e) = (u, trans (Reach.later Reach.here st) r, e)

  report_keeps :
      (x : A) (r : AddResult) (s : System A)
      → ((report x r s).main ≡ s.main) × ((report x r s).pending ≡ s.pending)
  report_keeps x AddResult.added s = (refl, refl)
  report_keeps x AddResult.buffer_closed s = (refl, refl)
  report_keeps x AddResult.buffer_full s = (refl, refl)
  report_keeps x AddResult.send_panics s = (refl, refl)

  send_pending_keeps :
      (before : List A) (x : A) (after : List A) (s : System A)
      → let t = send_pending before x after s in (t.main ≡ s.main) × (t.pending ≡ before ++ after)
  unfolding send_pending
  send_pending_keeps before x after s =
      let r = send x s.service.buffer in
      report_keeps x r.0 (set_buffer r.1 (record s { pending = before ++ after }))

  -- The handlers that are left send their entries.
  from_draining :
      (xs : List A) (s : System A) → s.main ≡ Main.draining → s.pending ≡ xs → CanReturn s
  from_draining [] s m e = first (Step.drains m e) (_, Reach.here, refl)
  from_draining (x ∷ xs) s m e =
      let k = send_pending_keeps [] x xs s in
      first (Step.sends [] x xs e) (from_draining xs _ (k.0 ∙ m) k.1)

  from_metrics_stopped : (s : System A) → s.main ≡ Main.metrics_stopped → CanReturn s
  from_metrics_stopped s m = first (Step.stops_listening m) (from_draining s.pending _ refl refl)

  from_stopped : (s : System A) → s.main ≡ Main.stopped → CanReturn s
  from_stopped s m = first (Step.stops_metrics m) (from_metrics_stopped _ refl)

  from_closing_router : (s : System A) → s.main ≡ Main.closing_router → CanReturn s
  from_closing_router s m = first (Step.closes_router m) (from_stopped _ refl)

  -- batchProcessor takes what waits, and flushes at the end.
  from_flushing :
      (xs : List A) (s : System A)
      → s.main ≡ Main.flushing
      → s.service.buffer.closed ≡ true
      → s.service.buffer.buffer ≡ xs
      → CanReturn s
  from_flushing [] s m c e =
      let b = s.service.buffer in
      let l : ((receive b).1.buffer ≡ []) × ((receive b).1.batch ≡ []) =
        rw (receive_eq [] b e) (ground (arith, flush_leaves b)) in
      first Step.receives (first (Step.has_flushed m l.0 l.1) (from_closing_router _ refl))
  from_flushing (x ∷ xs) s m c e =
      let l = receive_leaves x xs s.service.buffer e in
      first Step.receives (from_flushing xs _ m (l.1 ∙ c) l.0)

  from_loop_ended : (s : System A) → s.main ≡ Main.joining → s.loop ≡ false → CanReturn s
  unfolding close
  from_loop_ended s m l =
      first (Step.closes_buffer m l) (from_flushing _ _ refl (ground arith) refl)

  from_joining : (s : System A) → s.main ≡ Main.joining → s.service.stop_closed ≡ true → CanReturn s
  from_joining s m c = elim (Bool-cases s.loop) [
    | inl l ↦ first (Step.ends_by_stop l c) (from_loop_ended _ m refl)
    | inr l ↦ from_loop_ended s m l
  ]

  from_signalled : (s : System A) → s.main ≡ Main.signalled → CanReturn s
  from_signalled s m = first (Step.begins_stop m) (from_joining _ refl refl)

  from_any : (m : Main) (s : System A) → s.main ≡ m → Inv s → has_returned m ≡ false → CanReturn s
  from_any Main.selecting s m i h = first (Step.gets_signal m) (from_signalled _ refl)
  from_any Main.signalled s m i h = from_signalled s m
  from_any Main.joining s m i h = from_joining s m (ground (arith, i.stops))
  from_any Main.flushing s m i h = from_flushing _ s m (ground (arith, i.closes)) refl
  from_any Main.closing_router s m i h = from_closing_router s m
  from_any Main.stopped s m i h = from_stopped s m
  from_any Main.metrics_stopped s m i h = from_metrics_stopped s m
  from_any Main.draining s m i h = from_draining s.pending s m refl
  from_any (Main.returned r) s m i h = absurd cc

  -- The shutdown has no deadlock: from every state of a run in which runServer has not returned, it
  -- can still come to return without an error, whatever the goroutines have done before.
  pub can_return :
      (n m : ℕ) (b : Bool) (s : System A)
      → Reach (started n m b) s
      → has_returned s.main ≡ false
      → CanReturn s
  can_return n m b s r h = from_any s.main s refl (Reach-Inv r (started-Inv n m b)) h
