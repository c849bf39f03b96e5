-- ===== src/Queue/Examples.antt =====
-- The theorems on MockQueue at concrete inputs.
use quinn_ai.Prelude.{
  ℕ, String, List, [], ◌∷◌, none, ◌≡◌, arith, count, Bool, sort_by, IsSortedBy, length, tied, refl,
}
use quinn_ai.Task.{Task, queue}
use quinn_ai.Queue.Mock.{priority_of, new_queue, push, pop_highest_priority}
use quinn_ai.Queue.Mock.Order.{Op, pop_call, push_call, done_call, blocked_call, requeue_call, run}
use quinn_ai.Queue.Mock.Fifo.{drain, fill, drain-fill}
use quinn_ai.Queue.Mock.Holds.{places}
use quinn_ai.Queue.Mock.Conserve.{brings, places-run}

abbrev pub task : String → ℕ → Task
task id priority = record {
  id = id;
  title = id;
  description = "";
  priority = priority;
  source = queue;
  blocked_by = [];
  metadata = [];
  created_at = 0;
  ask_id = none;
  okr_id = none;
}

abbrev three_tasks : List Task
three_tasks = task "a" 3 ∷ task "b" 1 ∷ task "c" 3 ∷ []

handed_out : drain 3 (fill three_tasks new_queue) ≡ task "b" 1 ∷ task "a" 3 ∷ task "c" 3 ∷ []
unfolding drain fill new_queue push pop_highest_priority sort_by
handed_out = refl

drain-fill_example :
    (let out = drain 3 (fill three_tasks new_queue) in
      IsSortedBy priority_of out
      × (length out ≡ 3)
      × ((p : Task → Bool) (k : ℕ) → tied priority_of p k out ≡ tied priority_of p k three_tasks))
drain-fill_example = drain-fill three_tasks

abbrev calls : List Op
calls =
    push_call (task "a" 3)
    ∷ push_call (task "b" 1)
    ∷ pop_call
    ∷ blocked_call "b" "no access"
    ∷ requeue_call "b"
    ∷ done_call "a"
    ∷ []

places-run_example : places "b" (run calls new_queue) ≡ count (brings "b") calls
unfolding count
places-run_example = places-run calls "b" (omega arith)
