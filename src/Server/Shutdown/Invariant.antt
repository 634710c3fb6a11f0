-- ===== src/Server/Shutdown/Invariant.antt =====
-- What holds in every state of a run of runServer (cmd/server/main.go).
use logsieve.Prelude.{
  ℕ, ap, sym, ◌∙◌, ◌≢◌, List-cases, inl, inr, Bool, true, false, not, List, [], ◌∷◌, ◌++◌, none,
  some, ◌≡◌, refl, arith,
}
use logsieve.Ingestion.Buffer.{
  Buffer, AddResult, send, receive, receive_from, flush, tick, get_batch, get_from, close,
}
use logsieve.Ingestion.Buffer.Closing.{closed-flush, closed-receive_from}
use logsieve.Processor.Lifecycle.{Service, start}
use logsieve.Server.Shutdown.{
  Main, Listener, ServerError, System, Step, Reach, started, report, set_buffer, send_pending,
  drop_all, take_batch,
}

-- Whether Stop has closed stopChan, and whether it has gone on to close the buffer.
abbrev pub has_stopped : Main → Bool
has_stopped Main.selecting = false
has_stopped Main.signalled = false
has_stopped (Main.returned (some (ServerError.serve_error e))) = false
has_stopped _ = true

abbrev pub has_closed : Main → Bool
has_closed Main.joining = false
has_closed m = has_stopped m

-- Whether Close of the buffer is over.
abbrev pub has_ended : Main → Bool
has_ended Main.flushing = false
has_ended m = has_closed m

-- Whether the HTTP server is being shut down.
abbrev pub is_deaf : Main → Bool
is_deaf Main.closing_router = false
is_deaf Main.stopped = false
is_deaf Main.metrics_stopped = false
is_deaf m = has_ended m

-- The parts of a state that the invariant reads.
pub record Facts {ℓ} {A : Type ℓ} (main : Main) (loop cancelled adapters_open : Bool)
    (http : Listener) (v : Service A) (pending : List A) : Type ℓ where
  pub stops : v.stop_closed ≡ has_stopped main
  pub runs : v.running ≡ not (has_stopped main)
  pub closes : v.buffer.closed ≡ has_closed main
  pub loop_ended : has_closed main ≡ true → loop ≡ false
  pub loop_sends : loop ≡ true → adapters_open ≡ true
  pub empty : has_ended main ≡ true → (v.buffer.buffer ≡ []) × (v.buffer.batch ≡ [])
  pub deaf : is_deaf main ≡ true → http ≡ Listener.shut
  pub drained : main ≡ Main.returned none → pending ≡ []
  pub unsignalled : cancelled ≡ false → main ≡ Main.selecting

module _ {ℓ} {A : Type ℓ} where
  abbrev pub Inv : System A → Type ℓ
  Inv s = Facts s.main s.loop s.cancelled s.adapters_open s.http s.service s.pending

  pub started-Inv : (n m : ℕ) (b : Bool) → Inv (started {A = A} n m b)
  unfolding started start logsieve.Ingestion.Buffer.new_buffer
  started-Inv n m b = record {
    stops = refl;
    runs = refl;
    closes = refl;
    loop_ended = λ e. absurd cc;
    loop_sends = λ e. refl;
    empty = λ e. absurd cc;
    deaf = λ e. absurd cc;
    drained = λ e. refl;
    unsignalled = λ e. refl;
  }

  report-Inv : (x : A) (r : AddResult) (s : System A) → Inv s → Inv (report x r s)
  report-Inv x AddResult.added s i = i
  report-Inv x AddResult.buffer_closed s i = i
  report-Inv x AddResult.buffer_full s i = i
  report-Inv x AddResult.send_panics s i = i

  -- A buffer that is closed no sooner, and is empty once Close is over.
  set_buffer-Inv :
      (b : Buffer A) (s : System A)
      → Inv s
      → b.closed ≡ s.service.buffer.closed
      → (has_ended s.main ≡ true → (b.buffer ≡ []) × (b.batch ≡ []))
      → Inv (set_buffer b s)
  set_buffer-Inv b s i c e = record {
    stops = i.stops;
    runs = i.runs;
    closes = ground (arith, i.closes);
    loop_ended = i.loop_ended;
    loop_sends = i.loop_sends;
    empty = e;
    deaf = i.deaf;
    drained = i.drained;
    unsignalled = i.unsignalled;
  }

  -- What a send does to the buffer.
  send_keeps :
      (x : A) (b : Buffer A)
      → ((send x b).1.closed ≡ b.closed) × (b.closed ≡ true → (send x b).1 ≡ b)
  unfolding send
  send_keeps x b = ground arith

  flush_keeps :
      (b : Buffer A)
      → b.buffer ≡ []
      → b.batch ≡ []
      → ((flush b).1.buffer ≡ []) × ((flush b).1.batch ≡ [])
  unfolding flush
  flush_keeps b e f = ground arith

  receive_keeps :
      (b : Buffer A)
      → b.buffer ≡ []
      → b.batch ≡ []
      → ((receive b).1.buffer ≡ []) × ((receive b).1.batch ≡ [])
  unfolding receive
  receive_keeps b e f = rw (ap (λ xs. receive_from xs b) e) (ground (arith, flush_keeps b))

  get_batch_keeps :
      (b : Buffer A)
      → ((get_batch b).1.closed ≡ b.closed)
        × ((get_batch b).1.buffer ≡ b.buffer)
        × ((get_batch b).1.batch ≡ b.batch)
  unfolding get_batch
  get_batch_keeps b = elim (List-cases b.batches) [
    | inl e ↦ rw (ap (λ xss. get_from xss b) e) (refl, refl, refl)
    | inr (xs, xss, e) ↦ rw (ap (λ yss. get_from yss b) e) (refl, refl, refl)
  ]

  drop_all-Inv :
      (r : List A × Buffer A) (s : System A)
      → Inv s
      → r.1.closed ≡ s.service.buffer.closed
      → (s.service.buffer.buffer ≡ []
          → s.service.buffer.batch ≡ []
          → (r.1.buffer ≡ []) × (r.1.batch ≡ []))
      → Inv (drop_all r s)
  drop_all-Inv r s i c e = set_buffer-Inv r.1 s i c (λ h. e (i.empty h).0 (i.empty h).1)

  append_cons_not_nil : (xs : List A) (y : A) (ys : List A) → xs ++ y ∷ ys ≢ []
  append_cons_not_nil [] y ys e = cc
  append_cons_not_nil (x ∷ xs) y ys e = cc

  send_pending-Inv :
      (before : List A) (x : A) (after : List A) (s : System A)
      → s.pending ≡ before ++ x ∷ after
      → Inv s
      → Inv (send_pending before x after s)
  unfolding send_pending
  send_pending-Inv before x after s e i =
      let r = send x s.service.buffer in
      let k = send_keeps x s.service.buffer in
      let sent = record s { pending = before ++ after } in
      let sent_keeps : Inv sent = record {
        stops = i.stops;
        runs = i.runs;
        closes = i.closes;
        loop_ended = i.loop_ended;
        loop_sends = i.loop_sends;
        empty = i.empty;
        deaf = i.deaf;
        drained = λ m. absurd (append_cons_not_nil before x after (sym e ∙ i.drained m));
        unsignalled = i.unsignalled;
      } in
      report-Inv x r.0 (set_buffer r.1 sent)
        (set_buffer-Inv r.1 sent sent_keeps k.0 (λ h. ground (arith, k, i.empty, i.closes)))

  -- Every step of every goroutine keeps the invariant.
  pub Step-Inv : {s t : System A} → Step s t → Inv s → Inv t
  Step-Inv {s} (Step.arrives x l o) i = ground (arith, i)
  Step-Inv {s} (Step.is_refused x l o) i = i
  Step-Inv {s} (Step.sends before x after e) i = send_pending-Inv before x after s e i
  Step-Inv {s} Step.receives i =
      drop_all-Inv (receive s.service.buffer) s i
        (unfold receive in closed-receive_from s.service.buffer.buffer s.service.buffer)
        (receive_keeps s.service.buffer)
  Step-Inv {s} Step.ticks i =
      drop_all-Inv (tick s.service.buffer) s i (unfold tick in closed-flush s.service.buffer)
        (unfold tick in flush_keeps s.service.buffer)
  Step-Inv {s} (Step.takes_batch l) i =
      unfold take_batch in ground (arith, i, get_batch_keeps s.service.buffer)
  Step-Inv {s} (Step.ends_by_context l c) i = ground (arith, i)
  Step-Inv {s} (Step.ends_by_stop l c) i = ground (arith, i)
  Step-Inv {s} (Step.http_listens l) i = ground (arith, i)
  Step-Inv {s} (Step.metrics_listen l) i = i
  Step-Inv {s} (Step.http_fails l) i = ground (arith, i)
  Step-Inv {s} (Step.metrics_fail l) i = i
  Step-Inv {s} (Step.gets_error e rest m q) i = ground (arith, i)
  Step-Inv {s} (Step.gets_signal m) i = ground (arith, i)
  Step-Inv {s} (Step.begins_stop m) i = ground (arith, i)
  Step-Inv {s} (Step.closes_buffer m l) i = unfold close in ground (arith, i)
  Step-Inv {s} (Step.has_flushed m e f) i = ground (arith, i)
  Step-Inv {s} (Step.closes_router m) i = ground (arith, i)
  Step-Inv {s} (Step.stops_metrics m) i = ground (arith, i)
  Step-Inv {s} (Step.stops_listening m) i = ground (arith, i)
  Step-Inv {s} (Step.drains m p) i = ground (arith, i)
  Step-Inv {s} (Step.times_out m) i = ground (arith, i)

  pub Reach-Inv : {s t : System A} → Reach s t → Inv s → Inv t
  Reach-Inv Reach.here i = i
  Reach-Inv (Reach.later r st) i = Step-Inv st (Reach-Inv r i)
