-- ===== src/Server/Shutdown.antt =====
-- runServer of cmd/server/main.go from Start on, as a relation between the states of the process: the
-- goroutine of runServer, the processing loop, batchProcessor of the memory buffer and the handlers
-- take their steps in any order. Each entry of a request counts as a call of AddEntry of its own.
-- Steps of other goroutines are also possible between the return and the end of the process.
pub mod Invariant
pub mod Accounts
pub mod Progress
pub mod Stopping
pub mod Tests
use logsieve.Prelude.{
  ℕ, Bool, true, false, List, [], ◌∷◌, ◌++◌, Option, none, some, ltb, length, if◌then◌else◌, ◌≡◌,
}
use logsieve.Ingestion.Buffer.{
  Buffer, AddResult, added, buffer_closed, buffer_full, send_panics, new_buffer, send, receive,
  tick, get_batch, close,
}
use logsieve.Processor.Lifecycle.{Service, start}

pub data ServeError : Type 0 where
  http_error metrics_error : ServeError

pub data ServerError : Type 0 where
  serve_error : ServeError → ServerError
  shutdown_error : ServerError

-- Where runServer stands: in its select, past cancel, in wg.Wait of Stop, in Close of the buffer, in
-- Close of the router, before the Shutdown of the metrics server, before that of the HTTP server,
-- in it, or at its end.
pub data Main : Type 0 where
  selecting signalled joining flushing closing_router stopped metrics_stopped draining : Main
  returned : Option ServerError → Main

-- Where ListenAndServe of a server stands. The server serves its connections also after it has failed.
pub data Listener : Type 0 where
  starting listening failed shut : Listener

-- ListenAndServe has not returned.
abbrev pub is_running : Listener → Bool
is_running starting = true
is_running listening = true
is_running _ = false

abbrev pub is_served : Listener → Bool
is_served listening = true
is_served failed = true
is_served _ = false

-- `errors` is errChan, which has room for both errors. `pending` are the entries whose AddEntry has
-- passed its test of `closed` and is about to send.
pub record System {ℓ} (A : Type ℓ) : Type ℓ where
  pub main : Main
  pub loop : Bool
  pub cancelled : Bool
  pub adapters_open : Bool
  pub metrics : Listener
  pub http : Listener
  pub errors : List ServeError
  pub service : Service A
  pub pending : List A
  pub accepted : List A
  pub refused : List A
  pub panicked : List A
  pub dropped : List A

module _ {ℓ} {A : Type ℓ} where
  abbrev pub new_service : ℕ → ℕ → Service A
  new_service buffer_size max_batch_size = record {
    running = false;
    stop_closed = false;
    buffer = new_buffer buffer_size max_batch_size;
    consumed = [];
  }

  -- After Start, before the servers listen.
  unfoldable pub started : ℕ → ℕ → Bool → System A
  started buffer_size max_batch_size metrics_enabled = record {
    main = selecting;
    loop = true;
    cancelled = false;
    adapters_open = true;
    metrics = if metrics_enabled then starting else shut;
    http = starting;
    errors = [];
    service = (start (new_service buffer_size max_batch_size)).1;
    pending = [];
    accepted = [];
    refused = [];
    panicked = [];
    dropped = [];
  }

  abbrev pub set_buffer : Buffer A → System A → System A
  set_buffer b s = record s { service = record s.service { buffer = b } }

  -- What AddEntry reports for the entry.
  abbrev pub report : A → AddResult → System A → System A
  report x added s = record s { accepted = x ∷ s.accepted }
  report x send_panics s = record s { panicked = x ∷ s.panicked }
  report x _ s = record s { refused = x ∷ s.refused }

  -- The send of AddEntry for one of the pending entries.
  unfoldable pub send_pending : List A → A → List A → System A → System A
  send_pending before x after s =
      let r = send x s.service.buffer in
      report x r.0 (set_buffer r.1 (record s { pending = before ++ after }))

  -- A round of batchProcessor, with what its flush drops.
  abbrev pub drop_all : List A × Buffer A → System A → System A
  drop_all r s = set_buffer r.1 (record s { dropped = r.0 ++ s.dropped })

  -- close(p.stopChan) in Stop.
  abbrev pub begin_stop : Service A → Service A
  begin_stop v = record v { running = false; stop_closed = true }

  -- The case of processingLoop that takes a batch, which select may choose as long as the loop runs.
  unfoldable pub take_batch : Service A → Service A
  take_batch v =
      let g = get_batch v.buffer in record v { buffer = g.1; consumed = v.consumed ++ g.0 }

  pub data Step (s : System A) : System A → Type ℓ where
    arrives :
        (x : A)
        → is_served s.http ≡ true
        → s.service.buffer.closed ≡ false
        → Step s (record s { pending = x ∷ s.pending })
    is_refused :
        (x : A)
        → is_served s.http ≡ true
        → s.service.buffer.closed ≡ true
        → Step s (report x buffer_closed s)
    sends :
        (before : List A) (x : A) (after : List A)
        → s.pending ≡ before ++ x ∷ after
        → Step s (send_pending before x after s)
    receives : Step s (drop_all (receive s.service.buffer) s)
    ticks : Step s (drop_all (tick s.service.buffer) s)
    takes_batch : s.loop ≡ true → Step s (record s { service = take_batch s.service })
    ends_by_context : s.loop ≡ true → s.cancelled ≡ true → Step s (record s { loop = false })
    ends_by_stop : s.loop ≡ true → s.service.stop_closed ≡ true → Step s (record s { loop = false })
    http_listens : s.http ≡ starting → Step s (record s { http = listening })
    metrics_listen : s.metrics ≡ starting → Step s (record s { metrics = listening })
    http_fails :
        is_running s.http ≡ true
        → Step s (record s { http = failed; errors = s.errors ++ http_error ∷ [] })
    metrics_fail :
        is_running s.metrics ≡ true
        → Step s (record s { metrics = failed; errors = s.errors ++ metrics_error ∷ [] })
    gets_error :
        (e : ServeError) (rest : List ServeError)
        → s.main ≡ selecting
        → s.errors ≡ e ∷ rest
        → Step s
            (record s { main = returned (some (serve_error e)); cancelled = true; errors = rest })
    gets_signal : s.main ≡ selecting → Step s (record s { main = signalled; cancelled = true })
    begins_stop :
        s.main ≡ signalled → Step s (record s { main = joining; service = begin_stop s.service })
    closes_buffer :
        s.main ≡ joining
        → s.loop ≡ false
        → Step s (set_buffer (close s.service.buffer) (record s { main = flushing }))
    has_flushed :
        s.main ≡ flushing
        → s.service.buffer.buffer ≡ []
        → s.service.buffer.batch ≡ []
        → Step s (record s { main = closing_router })
    closes_router :
        s.main ≡ closing_router → Step s (record s { main = stopped; adapters_open = false })
    stops_metrics : s.main ≡ stopped → Step s (record s { main = metrics_stopped; metrics = shut })
    stops_listening : s.main ≡ metrics_stopped → Step s (record s { main = draining; http = shut })
    drains : s.main ≡ draining → s.pending ≡ [] → Step s (record s { main = returned none })
    times_out : s.main ≡ draining → Step s (record s { main = returned (some shutdown_error) })

  -- The states that a run passes through from a given one.
  pub data Reach (s : System A) : System A → Type ℓ where
    here : Reach s s
    later : {t u : System A} → Reach s t → Step t u → Reach s u
