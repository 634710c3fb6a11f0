-- ===== src/Server/Shutdown/Accounts.antt =====
-- Where the entries are that a run of runServer (cmd/server/main.go) has accepted.
use logsieve.Prelude.{
  ℕ, ◌+◌, ◌∙◌, Bool, true, false, List, [], ◌∷◌, ◌++◌, none, ◌≡◌, refl, arith, count, count-append,
  concat,
}
use logsieve.Ingestion.Buffer.{
  Buffer, AddResult, buffer_closed, send, receive, receive_from, flush, tick, get_batch, get_from,
  close,
}
use logsieve.Ingestion.Buffer.Conservation.{
  held_count, flush-count, receive_from-count, get_from-count,
}
use logsieve.Ingestion.Buffer.Closing.{closed-flush, closed-receive_from}
use logsieve.Processor.Lifecycle.{Service, start}
use logsieve.Server.Shutdown.{
  is_served, Main, System, Step, Reach, started, report, set_buffer, send_pending, drop_all,
  take_batch,
}
use logsieve.Server.Shutdown.Invariant.{has_closed, started-Inv, Reach-Inv}

module _ {ℓ} {A : Type ℓ} where
  -- The entries with a property that were accepted are processed, dropped or inside.
  abbrev Balanced : (A → Bool) → System A → Type 0
  Balanced p s =
      count p s.accepted
      ≡ count p s.service.consumed + (count p s.dropped + held_count p s.service.buffer)

  report-Balanced :
      (p : A → Bool) (x : A) (s : System A)
      → Balanced p s
      → let r = send x s.service.buffer in Balanced p (report x r.0 (set_buffer r.1 s))
  unfolding send
  report-Balanced p x s b = ground (arith, count-append p s.service.buffer.buffer (x ∷ []))

  drop_all-Balanced :
      (p : A → Bool) (r : List A × Buffer A) (s : System A)
      → held_count p s.service.buffer ≡ count p r.0 + held_count p r.1
      → Balanced p s
      → Balanced p (drop_all r s)
  drop_all-Balanced p r s c b = omega (arith, count-append p r.0 s.dropped, c, b)

  take_batch-count :
      (p : A → Bool) (v : Service A)
      → count p (take_batch v).consumed + held_count p (take_batch v).buffer
        ≡ count p v.consumed + held_count p v.buffer
  unfolding take_batch get_batch
  take_batch-count p v = ground (
    arith,
    get_from-count p v.buffer.batches v.buffer refl,
    count-append p v.consumed (get_from v.buffer.batches v.buffer).0,
  )

  Step-Balanced : (p : A → Bool) {s t : System A} → Step s t → Balanced p s → Balanced p t
  Step-Balanced p {s} (Step.arrives x l o) b = b
  Step-Balanced p {s} (Step.is_refused x l o) b = b
  Step-Balanced p {s} (Step.sends before x after e) b =
      unfold send_pending in report-Balanced p x (record s { pending = before ++ after }) b
  Step-Balanced p {s} Step.receives b =
      drop_all-Balanced p (receive s.service.buffer) s
        (unfold receive in receive_from-count p s.service.buffer.buffer s.service.buffer refl) b
  Step-Balanced p {s} Step.ticks b =
      drop_all-Balanced p (tick s.service.buffer) s (unfold tick in flush-count p s.service.buffer)
        b
  Step-Balanced p {s} (Step.takes_batch l) b = omega (arith, take_batch-count p s.service, b)
  Step-Balanced p {s} (Step.ends_by_context l c) b = b
  Step-Balanced p {s} (Step.ends_by_stop l c) b = b
  Step-Balanced p {s} (Step.http_listens l) b = b
  Step-Balanced p {s} (Step.metrics_listen l) b = b
  Step-Balanced p {s} (Step.http_fails l) b = b
  Step-Balanced p {s} (Step.metrics_fail l) b = b
  Step-Balanced p {s} (Step.gets_error x rest m q) b = b
  Step-Balanced p {s} (Step.gets_signal m) b = b
  Step-Balanced p {s} (Step.begins_stop m) b = b
  Step-Balanced p {s} (Step.closes_buffer m l) b = unfold close in ground (arith, b)
  Step-Balanced p {s} (Step.has_flushed m e f) b = b
  Step-Balanced p {s} (Step.closes_router m) b = b
  Step-Balanced p {s} (Step.stops_metrics m) b = b
  Step-Balanced p {s} (Step.stops_listening m) b = b
  Step-Balanced p {s} (Step.drains m e) b = b
  Step-Balanced p {s} (Step.times_out m) b = b

  Reach-Balanced : (p : A → Bool) {s t : System A} → Reach s t → Balanced p s → Balanced p t
  Reach-Balanced p Reach.here b = b
  Reach-Balanced p (Reach.later r st) b = Step-Balanced p st (Reach-Balanced p r b)

  started-Balanced : (p : A → Bool) (n m : ℕ) (b : Bool) → Balanced p (started n m b)
  unfolding started start logsieve.Ingestion.Buffer.new_buffer
  started-Balanced p n m b = omega arith

  -- What a server that returns without an error leaves: whatever its goroutines did in between, no
  -- request is being served, the loop has ended, and, for any property of entries, as many entries with
  -- it were accepted as were processed, were dropped by a flush, or are left in the channel of batches.
  pub clean_exit_accounts :
      (p : A → Bool) (n m : ℕ) (b : Bool) (t : System A)
      → Reach (started n m b) t
      → t.main ≡ Main.returned none
      → (t.pending ≡ [])
        × (t.loop ≡ false)
        × (count p t.accepted
            ≡ count p t.service.consumed
              + (count p t.dropped + count p (concat t.service.buffer.batches)))
  clean_exit_accounts p n m b t r e =
      let i = Reach-Inv r (started-Inv n m b) in
      let counted = Reach-Balanced p r (started-Balanced p n m b) in ground (arith, i, counted)

  -- A state whose loop has ended, with what it has processed and, if its buffer is closed, accepted.
  abbrev Frozen : System A → System A → Type ℓ
  Frozen s t =
      (t.loop ≡ false)
      × (t.service.consumed ≡ s.service.consumed)
      × (s.service.buffer.closed ≡ true
          → (t.service.buffer.closed ≡ true) × (t.accepted ≡ s.accepted))

  report-Frozen :
      (x : A) (s : System A)
      → s.loop ≡ false
      → let r = send x s.service.buffer in Frozen s (report x r.0 (set_buffer r.1 s))
  unfolding send
  report-Frozen x s l = ground arith

  Step-Frozen : {s t : System A} → Step s t → s.loop ≡ false → Frozen s t
  Step-Frozen {s} (Step.arrives x l o) e = ground (arith, e)
  Step-Frozen {s} (Step.is_refused x l o) e = ground (arith, e)
  Step-Frozen {s} (Step.sends before x after q) e =
      unfold send_pending in report-Frozen x (record s { pending = before ++ after }) e
  Step-Frozen {s} Step.receives e =
      unfold receive in
      ground (arith, e, closed-receive_from s.service.buffer.buffer s.service.buffer)
  Step-Frozen {s} Step.ticks e = unfold tick in ground (arith, e, closed-flush s.service.buffer)
  Step-Frozen {s} (Step.takes_batch l) e = ground (arith, e, l)
  Step-Frozen {s} (Step.ends_by_context l c) e = ground (arith, e)
  Step-Frozen {s} (Step.ends_by_stop l c) e = ground (arith, e)
  Step-Frozen {s} (Step.http_listens l) e = ground (arith, e)
  Step-Frozen {s} (Step.metrics_listen l) e = ground (arith, e)
  Step-Frozen {s} (Step.http_fails l) e = ground (arith, e)
  Step-Frozen {s} (Step.metrics_fail l) e = ground (arith, e)
  Step-Frozen {s} (Step.gets_error x rest m q) e = ground (arith, e)
  Step-Frozen {s} (Step.gets_signal m) e = ground (arith, e)
  Step-Frozen {s} (Step.begins_stop m) e = ground (arith, e)
  Step-Frozen {s} (Step.closes_buffer m l) e = unfold close in ground (arith, e)
  Step-Frozen {s} (Step.has_flushed m p q) e = ground (arith, e)
  Step-Frozen {s} (Step.closes_router m) e = ground (arith, e)
  Step-Frozen {s} (Step.stops_metrics m) e = ground (arith, e)
  Step-Frozen {s} (Step.stops_listening m) e = ground (arith, e)
  Step-Frozen {s} (Step.drains m p) e = ground (arith, e)
  Step-Frozen {s} (Step.times_out m) e = ground (arith, e)

  Reach-Frozen : {s t : System A} → Reach s t → s.loop ≡ false → Frozen s t
  Reach-Frozen Reach.here e = (e, refl, λ c. (c, refl))
  Reach-Frozen (Reach.later r st) e =
      let f = Reach-Frozen r e in
      let g = Step-Frozen st f.0 in
      (g.0, g.1 ∙ f.1, λ c. ((g.2 (f.2 c).0).0, (g.2 (f.2 c).0).1 ∙ (f.2 c).1))

  -- The order of the shutdown: as soon as Stop has closed the buffer, nothing that the server is sent
  -- from then on is accepted, whether it listens or not, and nothing that was accepted is processed any
  -- more; and as long as it serves, which it may do until its own Shutdown, every entry that it is sent
  -- can be refused.
  pub stopped_while_listening :
      (n m : ℕ) (b : Bool) (s t : System A)
      → Reach (started n m b) s
      → Reach s t
      → has_closed s.main ≡ true
      → (t.service.buffer.closed ≡ true)
        × (t.accepted ≡ s.accepted)
        × (t.service.consumed ≡ s.service.consumed)
        × ((x : A) → is_served t.http ≡ true → Step t (report x buffer_closed t))
  stopped_while_listening n m b s t before r c =
      let i = Reach-Inv before (started-Inv n m b) in
      let f = Reach-Frozen r (i.loop_ended c) in
      let kept = f.2 (i.closes ∙ c) in (kept.0, kept.1, f.1, λ x h. Step.is_refused x h kept.0)
