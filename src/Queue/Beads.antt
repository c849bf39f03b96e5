-- ===== src/Queue/Beads.antt =====
-- InMemoryBeadsQueue of shared/wrkr/work/queue.py: a queue over a store of issues. A method that
-- builds a Task raises ValueError when the priority of the issue is not one of a task; `none` stands
-- for that exception.
pub mod Ready
pub mod Pop
pub mod Laws
pub mod Requeue
pub mod Examples
use quinn_ai.Prelude.{
  ℕ, zero, suc, String, Bool, true, false, not, ◌&&◌, List, [], ◌∷◌, Option, none, some, map,
  filter, Dict, lookup, insert, remove, values, sort_by, take, ◌==◌, string_eq, if◌then◌else◌,
}
use quinn_ai.Task.{Task, beads, make_task, is_blocked}

pub record BeadsIssue : Type 0 where
  pub id : String
  pub title : String
  pub description : String
  pub priority : ℕ
  pub issue_type : String
  pub status : String
  pub assignee : String
  pub ask_id : Option String
  pub okr_id : Option String
  -- type and target
  pub dependencies : List (String × String)
  pub blocked_reason : Option String
  pub failure_reason : Option String

pub record BeadsQueue : Type 0 where
  pub worker_id : String
  pub issues : Dict BeadsIssue
  pub in_progress : Dict Task
  -- what the clock shows when a task is built
  pub now : ℕ

unfoldable pub new_beads_queue : String → ℕ → BeadsQueue
new_beads_queue worker_id now = record {
  worker_id = worker_id;
  issues = [];
  in_progress = [];
  now = now;
}

-- `add_issue` takes an issue whose assignee, dependencies and reasons it fills in.
unfoldable pub add_issue : BeadsIssue → List String → BeadsQueue → BeadsQueue
add_issue i blocked_by q = record q {
  issues =
      insert i.id
        (record i {
          assignee = q.worker_id;
          dependencies = map (λ b. ("depends-on", b)) blocked_by;
          blocked_reason = none;
          failure_reason = none;
        })
        q.issues;
}

unfoldable pub blockers : List (String × String) → List String
blockers dependencies = map (λ d. d.1) (filter (λ d. d.0 == "depends-on") dependencies)

-- the arguments of `Task(...)`, and the call
unfoldable pub task_from : ℕ → BeadsIssue → Task
unfolding blockers
task_from now i = record {
  id = i.id;
  title = i.title;
  description = i.description;
  priority = i.priority;
  source = beads;
  blocked_by = blockers i.dependencies;
  metadata = ("issue_type", i.issue_type) ∷ [];
  created_at = now;
  ask_id = i.ask_id;
  okr_id = i.okr_id;
}

unfoldable pub parse_issue_to_task : ℕ → BeadsIssue → Option Task
unfolding task_from
parse_issue_to_task now i = make_task (task_from now i)

unfoldable pub open_issues : BeadsQueue → List BeadsIssue
open_issues q =
    filter (λ i. if i.status == "open" then i.assignee == q.worker_id else false) (values q.issues)

-- the sort key
abbrev pub issue_priority : BeadsIssue → ℕ
issue_priority i = i.priority

-- The loop of `pop` over the sorted issues: the first task that is not blocked.
unfoldable pub first_unblocked : ℕ → List BeadsIssue → Option (Option Task)
first_unblocked now [] = some none
first_unblocked now (i ∷ is) =
    let rest = first_unblocked now is in
    elim (parse_issue_to_task now i) [
      | none ↦ none
      | some t ↦ if is_blocked t then rest else some (some t)
    ]

-- `self._issues[id][...] = ...`, if the id is there
unfoldable pub update_issue : String → (BeadsIssue → BeadsIssue) → Dict BeadsIssue → Dict BeadsIssue
update_issue id f issues = elim (lookup id issues) [
  | none ↦ issues
  | some i ↦ insert id (f i) issues
]

abbrev pub with_status : String → BeadsIssue → BeadsIssue
with_status status i = record i { status = status }

unfoldable pub start_task : Task → BeadsQueue → BeadsQueue
unfolding update_issue
start_task t q = record q {
  in_progress = insert t.id t q.in_progress;
  issues = update_issue t.id (with_status "in_progress") q.issues;
}

unfoldable pub pop_highest_priority : BeadsQueue → Option (Option Task × BeadsQueue)
pop_highest_priority q = elim (first_unblocked q.now (sort_by issue_priority (open_issues q))) [
  | none ↦ none
  | some none ↦ some (none, q)
  | some (some t) ↦ some (some t, start_task t q)
]

unfoldable pub push : Task → BeadsQueue → BeadsQueue
push t q =
    add_issue
      (record {
        id = t.id;
        title = t.title;
        description = t.description;
        priority = t.priority;
        issue_type = "task";
        status = "open";
        assignee = "";
        ask_id = t.ask_id;
        okr_id = t.okr_id;
        dependencies = [];
        blocked_reason = none;
        failure_reason = none;
      })
      t.blocked_by q

-- The loop of `peek`: the tasks of the issues, without those that are blocked.
unfoldable pub unblocked_tasks : ℕ → List BeadsIssue → Option (List Task)
unblocked_tasks now [] = some []
unblocked_tasks now (i ∷ is) =
    let rest = unblocked_tasks now is in
    elim (parse_issue_to_task now i) [
      | none ↦ none
      | some t ↦ elim rest [
        | none ↦ none
        | some ts ↦ if is_blocked t then some ts else some (t ∷ ts)
      ]
    ]

unfoldable pub peek : ℕ → BeadsQueue → Option (List Task)
peek limit q = unblocked_tasks q.now (take limit (sort_by issue_priority (open_issues q)))

unfoldable pub mark_done : String → BeadsQueue → BeadsQueue
unfolding update_issue
mark_done id q = record q {
  in_progress = remove id q.in_progress;
  issues = update_issue id (with_status "closed") q.issues;
}

unfoldable pub mark_blocked : String → String → BeadsQueue → BeadsQueue
unfolding update_issue
mark_blocked id reason q = record q {
  in_progress = remove id q.in_progress;
  issues =
      update_issue id (λ i. record i { status = "blocked"; blocked_reason = some reason }) q.issues;
}

unfoldable pub mark_failed : String → String → BeadsQueue → BeadsQueue
unfolding update_issue
mark_failed id error q = record q {
  in_progress = remove id q.in_progress;
  issues =
      update_issue id (λ i. record i { status = "closed"; failure_reason = some error }) q.issues;
}

unfoldable pub requeue : String → BeadsQueue → BeadsQueue
unfolding update_issue
requeue id q = record q { issues = update_issue id (with_status "open") q.issues }

-- The loop of `size`: the open issues whose task is not blocked.
unfoldable pub count_unblocked : ℕ → List BeadsIssue → Option ℕ
count_unblocked now [] = some 0
count_unblocked now (i ∷ is) =
    let rest = count_unblocked now is in
    if i.status == "open"
    then elim (parse_issue_to_task now i) [
      | none ↦ none
      | some t ↦ elim rest [ none ↦ none | some n ↦ if is_blocked t then some n else some (suc n) ]
    ]
    else rest

unfoldable pub size : BeadsQueue → Option ℕ
size q = count_unblocked q.now (values q.issues)
