-- ===== src/Queue/Mock.antt =====
-- MockQueue of shared/queue/interface.py. A method returns the new queue.
pub mod Laws
pub mod Order
pub mod Holds
pub mod Keyed
pub mod Conserve
pub mod Fifo
use quinn_ai.Prelude.{
  ℕ, zero, suc, String, Bool, true, false, List, [], ◌∷◌, ◌++◌, Option, none, some, Dict, lookup,
  insert, remove, sort_by, length, take, ◌==◌, string_eq, if◌then◌else◌,
}
use quinn_ai.Task.{Task}

pub record MockQueue : Type 0 where
  pub tasks : List Task
  pub in_progress : Dict Task
  pub done : Dict Task
  pub blocked : Dict (Task × String)
  pub failed : Dict (Task × String)

abbrev pub priority_of : Task → ℕ
priority_of t = t.priority

unfoldable pub new_queue : MockQueue
new_queue = record { tasks = []; in_progress = []; done = []; blocked = []; failed = [] }

unfoldable pub pop_from : List Task → MockQueue → Option Task × MockQueue
pop_from [] q = (none, q)
pop_from (t ∷ ts) q = (some t, record q { tasks = ts; in_progress = insert t.id t q.in_progress })

unfoldable pub pop_highest_priority : MockQueue → Option Task × MockQueue
unfolding pop_from
pop_highest_priority q = pop_from q.tasks q

unfoldable pub push : Task → MockQueue → MockQueue
push t q = record q { tasks = sort_by priority_of (q.tasks ++ t ∷ []) }

unfoldable pub peek : ℕ → MockQueue → List Task
peek limit q = take limit q.tasks

-- The loop over the queued tasks: the first with this id, and the list without it.
unfoldable pub take_task : String → List Task → Option (Task × List Task)
take_task id [] = none
take_task id (t ∷ ts) =
    let rest = take_task id ts in
    if t.id == id then some (t, ts) else elim rest [ none ↦ none | some (u, us) ↦ some (u, t ∷ us) ]

-- The task with this id, taken out of `_in_progress`, or else out of `_tasks`.
unfoldable pub take_out : String → MockQueue → Option (Task × MockQueue)
unfolding take_task
take_out id q = elim (lookup id q.in_progress) [
  | some t ↦ some (t, record q { in_progress = remove id q.in_progress })
  | none ↦ elim (take_task id q.tasks) [
    | some (t, ts) ↦ some (t, record q { tasks = ts })
    | none ↦ none
  ]
]

unfoldable pub mark_done : String → MockQueue → MockQueue
unfolding take_out
mark_done id q = elim (take_out id q) [
  | some (t, q') ↦ record q' { done = insert id t q'.done }
  | none ↦ q
]

unfoldable pub mark_blocked : String → String → MockQueue → MockQueue
unfolding take_out
mark_blocked id reason q = elim (take_out id q) [
  | some (t, q') ↦ record q' { blocked = insert id (t, reason) q'.blocked }
  | none ↦ q
]

unfoldable pub mark_failed : String → String → MockQueue → MockQueue
unfolding take_out
mark_failed id error q = elim (take_out id q) [
  | some (t, q') ↦ record q' { failed = insert id (t, error) q'.failed }
  | none ↦ q
]

unfoldable pub requeue : String → MockQueue → MockQueue
unfolding push
requeue id q = elim (lookup id q.blocked) [
  | some (t, _) ↦ push t (record q { blocked = remove id q.blocked })
  | none ↦ elim (lookup id q.failed) [
    | some (t, _) ↦ push t (record q { failed = remove id q.failed })
    | none ↦ q
  ]
]

unfoldable pub size : MockQueue → ℕ
size q = length q.tasks
