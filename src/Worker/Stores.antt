-- ===== src/Worker/Stores.antt =====
-- A worker on InMemoryBeadsQueue.
use quinn_ai.Prelude.{ℕ, ◌<◌, List, All, length, some, ◌≡◌, arith}
use quinn_ai.State.{terminated}
use quinn_ai.Task.{WorkerConfig, exit}
use quinn_ai.Queue.Beads.{BeadsQueue, size}
use quinn_ai.Queue.Beads.Pop.{IsSound, size-count}
use quinn_ai.Queue.Beads.Laws.{beads_ops, beads_laws, ready_count}
use quinn_ai.Worker.Machine.{Tick, new_worker}
use quinn_ai.Worker.Main.{returned, run}
use quinn_ai.Worker.Halts.{IsCalm, run_returns}

-- A worker on a sound store that exits when idle comes to its end: with fewer tasks in the store, by
-- the queue's own `size`, than there are turns, and turns in which nobody calls `stop` and no new
-- task is handed out, `run` returns with the worker terminated.
pub run_on_beads_returns :
    (ticks : List Tick) (config : WorkerConfig) (q : BeadsQueue) (n : ℕ)
    → config.idle_behavior ≡ exit
    → IsSound q.worker_id q.issues
    → size q ≡ some n
    → n < length ticks
    → All IsCalm ticks
    → ((run beads_ops ticks (new_worker config q)).0 ≡ returned)
      × ((run beads_ops ticks (new_worker config q)).1.state ≡ terminated)
unfolding beads_laws ready_count
run_on_beads_returns ticks config q n e sound sized small calm =
    run_returns beads_ops beads_laws ticks config q e sound
      (ground (arith, size-count q sound, sized, small)) calm
