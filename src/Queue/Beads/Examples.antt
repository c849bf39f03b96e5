-- ===== src/Queue/Beads/Examples.antt =====
-- The theorems on InMemoryBeadsQueue at a concrete store.
use quinn_ai.Prelude.{
  ℕ, ◌≤◌, String, false, true, [], ◌∷◌, none, some, values, lookup, All, ◌⊎◌, ◌≡◌, refl, arith,
}
use quinn_ai.Queue.Beads.{
  BeadsIssue, BeadsQueue, task_from, start_task, pop_highest_priority, first_unblocked,
  parse_issue_to_task, open_issues, blockers, update_issue,
}
use quinn_ai.Queue.Beads.Ready.{is_ready}
use quinn_ai.Queue.Beads.Pop.{IsSound, pop-ready}
use quinn_ai.Queue.Beads.Requeue.{Returns, size-requeue}
use quinn_ai.Task.{make_task, is_blocked}
use quinn_ai.Prelude.{sort_by, insert_by}

abbrev issue : String → ℕ → BeadsIssue
issue id priority = record {
  id = id;
  title = id;
  description = "";
  priority = priority;
  issue_type = "task";
  status = "open";
  assignee = "w1";
  ask_id = none;
  okr_id = none;
  dependencies = [];
  blocked_reason = none;
  failure_reason = none;
}

abbrev pub store : BeadsQueue
store = record {
  worker_id = "w1";
  issues = ("a", issue "a" 3) ∷ ("b", issue "b" 1) ∷ [];
  in_progress = [];
  now = 0;
}

pub store-IsSound : IsSound "w1" store.issues
unfolding lookup
store-IsSound = ((refl, refl, (refl, refl, tt)), ((omega arith, refl), ((omega arith, refl), tt)))

pop-ready_example :
    ((pop_highest_priority store ≡ some (none, store))
      × All (λ i. is_ready "w1" i ≡ false) (values store.issues))
    ⊎ ((i : BeadsIssue) × (pop_highest_priority store
          ≡ some (some (task_from 0 i), start_task (task_from 0 i) store))
        × (lookup i.id store.issues ≡ some i)
        × (is_ready "w1" i ≡ true)
        × All (λ j. is_ready "w1" j ≡ true → i.priority ≤ j.priority) (values store.issues))
pop-ready_example = pop-ready store store-IsSound

size-requeue_example :
    Returns store (task_from 0 (issue "b" 1)) (start_task (task_from 0 (issue "b" 1)) store)
unfolding pop_highest_priority open_issues first_unblocked parse_issue_to_task blockers task_from
    make_task is_blocked sort_by insert_by start_task update_issue
size-requeue_example =
    size-requeue store (start_task (task_from 0 (issue "b" 1)) store) (task_from 0 (issue "b" 1))
      store-IsSound refl
