-- ===== src/Queue/Tests.antt =====
-- Runs of the queue on small inputs, and the queue's theorems at concrete inputs.
use logsieve.Prelude.{ℕ, false, ◌≡◌, refl, List, [], ◌∷◌, ◌++◌}
use logsieve.Queue.{Queue, blocked, push, pop, pop_batch, close}
use logsieve.Queue.Order.{Op, pushes, pops, pops_batch, closes, step, run, run_fifo}

abbrev two : Queue ℕ
two = record { items = 1 ∷ 2 ∷ []; capacity = 2; closed = false }

abbrev open_empty : Queue ℕ
open_empty = record { items = []; capacity = 2; closed = false }

abbrev schedule : List (Op ℕ)
schedule = pushes 9 ∷ pops ∷ pushes 3 ∷ pops_batch 5 ∷ closes ∷ pushes 4 ∷ []

run-schedule :
    ((run schedule two).accepted ≡ 3 ∷ []) × ((run schedule two).removed ≡ 1 ∷ 2 ∷ 3 ∷ [])
unfolding run step push pop pop_batch close
run-schedule = (refl, refl)

push_full : (push 3 two).0 ≡ blocked
unfolding push
push_full = refl

run_fifo_example :
    two.items ++ (run schedule two).accepted
    ≡ (run schedule two).removed ++ (run schedule two).after.items
run_fifo_example = run_fifo schedule two
