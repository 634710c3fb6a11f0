-- ===== src/Server/Shutdown/Tests.antt =====
-- A run of runServer (cmd/server/main.go) on small inputs.
use logsieve.Prelude.{ℕ, ◌+◌, Bool, true, false, [], ◌∷◌, count, concat, ◌≡◌, refl}
use logsieve.Ingestion.Buffer.{buffer_closed, AddResult, new_buffer, close}
use logsieve.Processor.Lifecycle.{start}
use logsieve.Server.Shutdown.{is_served, Listener, report, Main, System, Step, Reach, started}
use logsieve.Server.Shutdown.Accounts.{clean_exit_accounts, stopped_while_listening}
use logsieve.Server.Shutdown.Progress.{CanReturn, trans, can_return}

-- The server listens.
abbrev opened : System ℕ
opened = record (started 4 2 true) { http = Listener.listening }

open_reached : Reach (started 4 2 true) opened
unfolding started
open_reached = Reach.later Reach.here (Step.http_listens refl)

-- An entry has passed the test of AddEntry.
abbrev asked : System ℕ
asked = record opened { pending = 7 ∷ [] }

asked_reached : Reach (started 4 2 true) asked
unfolding started start new_buffer
asked_reached = Reach.later open_reached (Step.arrives 7 refl refl)

can_return_example : CanReturn asked
can_return_example = can_return 4 2 true asked asked_reached (unfold started in refl)

abbrev every : ℕ → Bool
every n = true

-- A run to the end.
abbrev run_to_return : CanReturn {A = ℕ} (started 4 2 true)
run_to_return =
    let rest = can_return 4 2 true asked asked_reached (unfold started in refl) in
    (rest.0, trans asked_reached rest.1, rest.2)

clean_exit_accounts_example :
    let t = run_to_return.0 in
    (t.pending ≡ [])
    × (t.loop ≡ false)
    × (count every t.accepted
        ≡ count every t.service.consumed
          + (count every t.dropped + count every (concat t.service.buffer.batches)))
clean_exit_accounts_example =
    clean_exit_accounts every 4 2 true run_to_return.0 run_to_return.1 run_to_return.2

-- Stop is in Close of the buffer, and the server listens.
abbrev stopping : System ℕ
stopping = record opened {
  main = Main.flushing;
  loop = false;
  cancelled = true;
  service = record {
    running = false;
    stop_closed = true;
    buffer = record (new_buffer 4 2) { closed = true };
    consumed = [];
  };
}

stopping_reached : Reach (started 4 2 true) stopping
unfolding started start new_buffer close
stopping_reached =
    Reach.later
      (Reach.later
        (Reach.later (Reach.later open_reached (Step.gets_signal refl)) (Step.begins_stop refl))
        (Step.ends_by_stop refl refl))
      (Step.closes_buffer refl refl)

abbrev refusing : System ℕ
refusing = report 5 AddResult.buffer_closed stopping

refusing_reached : Reach stopping refusing
unfolding started
refusing_reached = Reach.later Reach.here (Step.is_refused 5 refl refl)

stopped_while_listening_example :
    (refusing.service.buffer.closed ≡ true)
    × (refusing.accepted ≡ stopping.accepted)
    × (refusing.service.consumed ≡ stopping.service.consumed)
    × ((x : ℕ) → is_served refusing.http ≡ true → Step refusing (report x buffer_closed refusing))
stopped_while_listening_example =
    stopped_while_listening 4 2 true stopping refusing stopping_reached refusing_reached refl
