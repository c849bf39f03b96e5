-- ===== src/Worker/Examples.antt =====
-- The theorems on BaseWorker at concrete inputs: a worker with MockQueue.
use quinn_ai.Prelude.{true, false, none, [], ◌∷◌, ◌≡◌, refl, arith}
use quinn_ai.State.{terminated, offboarding}
use quinn_ai.Task.{WorkerConfig, exit, success}
use quinn_ai.Queue.Mock.{MockQueue, new_queue, pop_highest_priority, size}
use quinn_ai.Queue.Mock.Laws.{mock_ops, mock_laws}
use quinn_ai.Queue.Examples.{task}
use quinn_ai.Worker.Machine.{Tick, finishes, new_worker}
use quinn_ai.Worker.Main.{returned, raised_again, run}
use quinn_ai.Worker.Run.{RunEnd, any_stop, run-RunEnd}
use quinn_ai.Worker.Trace.{IsTraced, run-IsTraced}
use quinn_ai.Worker.Halts.{run_returns}
use quinn_ai.Worker.Machine.{transition_to}
use quinn_ai.State.{transition_worker}
use quinn_ai.Worker.Main.{loop, goes_on}
use quinn_ai.Worker.Turn.{tick_once, handle_task, stop_if, handle_result, settle}
use quinn_ai.Queue.Mock.{mark_done}
use quinn_ai.Prelude.{lookup, insert}
use quinn_ai.Worker.StopAtTask.{run_stop_during_task}

abbrev config : WorkerConfig
config = record {
  id = "w1";
  name = "Ada";
  idle_behavior = exit;
  no_work_escalation_threshold_minutes = 60;
}

abbrev calm : Tick
unfolding success
calm = record {
  first_reading = 10;
  second_reading = 12;
  execution = finishes (success "done");
  stop_during_task = false;
  response = record { resolved = true; guidance = ""; new_tasks = []; escalated_to = none };
}

abbrev stopping : Tick
stopping = record calm { stop_during_task = true }

abbrev one_task : MockQueue
one_task = record new_queue { tasks = task "a" 1 ∷ [] }

abbrev both_tasks : MockQueue
both_tasks = record new_queue { tasks = task "a" 1 ∷ task "b" 2 ∷ [] }

run-RunEnd_example :
    RunEnd (any_stop (stopping ∷ [])) (run mock_ops (stopping ∷ []) (new_worker config one_task))
run-RunEnd_example = run-RunEnd mock_ops (stopping ∷ []) config one_task

run-IsTraced_example : IsTraced (run mock_ops (calm ∷ calm ∷ []) (new_worker config one_task)).1
run-IsTraced_example = run-IsTraced mock_ops (calm ∷ calm ∷ []) config one_task

run_returns_example :
    ((run mock_ops (calm ∷ calm ∷ []) (new_worker config one_task)).0 ≡ returned)
    × ((run mock_ops (calm ∷ calm ∷ []) (new_worker config one_task)).1.state ≡ terminated)
unfolding mock_laws size calm
run_returns_example =
    run_returns mock_ops mock_laws (calm ∷ calm ∷ []) config one_task refl tt (omega arith)
      ((refl, refl), ((refl, refl), tt))

-- The worker executes a task in the first turn, and is stopped during another in the second.
run_stop_during_task_example :
    ((run mock_ops (calm ∷ stopping ∷ calm ∷ []) (new_worker config both_tasks)).0 ≡ raised_again)
    × ((run mock_ops (calm ∷ stopping ∷ calm ∷ []) (new_worker config both_tasks)).1.state
        ≡ offboarding)
unfolding pop_highest_priority run transition_to transition_worker new_worker loop goes_on tick_once
    handle_task stop_if calm handle_result settle mark_done lookup insert new_queue
run_stop_during_task_example =
    run_stop_during_task mock_ops (calm ∷ []) stopping (calm ∷ []) config both_tasks (task "b" 2)
      refl refl refl
