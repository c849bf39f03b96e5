-- ===== src/Queue.antt =====
-- The queue of tasks as a worker sees it (QueueInterface of shared/wrkr/core/worker.py and of
-- shared/queue/interface.py), and its two implementations in memory.
pub mod Mock
pub mod Beads
pub mod Examples
use quinn_ai.Prelude.{ℕ, suc, ◌≤◌, String, ◌≡◌, Option, none, some}
use quinn_ai.Task.{Task}

-- The operations that a worker calls.
pub record QueueOps (Q : Type 0) : Type 0 where
  pub pop_highest_priority : Q → Option Task × Q
  pub push : Task → Q → Q
  pub mark_done : String → Q → Q
  pub mark_blocked : String → String → Q → Q

-- What a worker relies on: a measure that a successful `pop` lowers by one, that is 0 when `pop`
-- finds nothing, and that marking a task does not raise.
pub record QueueLaws {Q : Type 0} (ops : QueueOps Q) : Type 1 where
  pub IsValid : Q → Type 0
  pub size : Q → ℕ
  pub pop-IsValid : (q : Q) → IsValid q → IsValid (ops.pop_highest_priority q).1
  pub push-IsValid : (t : Task) (q : Q) → t.priority ≤ 4 → IsValid q → IsValid (ops.push t q)
  pub mark_done-IsValid : (id : String) (q : Q) → IsValid q → IsValid (ops.mark_done id q)
  pub mark_blocked-IsValid :
      (id reason : String) (q : Q) → IsValid q → IsValid (ops.mark_blocked id reason q)
  pub size-pop :
      (q : Q) (t : Task)
      → IsValid q
      → (ops.pop_highest_priority q).0 ≡ some t
      → size q ≡ suc (size (ops.pop_highest_priority q).1)
  pub size-pop_none : (q : Q) → IsValid q → (ops.pop_highest_priority q).0 ≡ none → size q ≡ 0
  pub size-mark_done : (id : String) (q : Q) → IsValid q → size (ops.mark_done id q) ≤ size q
  pub size-mark_blocked :
      (id reason : String) (q : Q) → IsValid q → size (ops.mark_blocked id reason q) ≤ size q
