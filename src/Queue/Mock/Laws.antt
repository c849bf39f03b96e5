-- ===== src/Queue/Mock/Laws.antt =====
-- MockQueue fills the interface that a worker takes.
use quinn_ai.Prelude.{
  suc, ◌≤◌, String, List, [], ◌∷◌, none, some, ◌≡◌, refl, arith, Option-cases, inl, inr, length,
  lookup,
}
use quinn_ai.Task.{Task}
use quinn_ai.Queue.{QueueOps, QueueLaws}
use quinn_ai.Queue.Mock.{
  MockQueue, pop_from, pop_highest_priority, push, take_task, take_out, mark_done, mark_blocked,
  size,
}
use quinn_ai.Queue.Mock.Order.{take_task-cons}

abbrev pub mock_ops : QueueOps MockQueue
mock_ops = record {
  pop_highest_priority = pop_highest_priority;
  push = push;
  mark_done = mark_done;
  mark_blocked = mark_blocked;
}

length-take_task :
    (id : String) (ts : List Task) {u : Task} {us : List Task}
    → take_task id ts ≡ some (u, us)
    → length us ≤ length ts
length-take_task id [] h = unfold take_task in cc
length-take_task id (t ∷ ts) h = elim (take_task-cons id t ts h) [
  | inl (rest, _, _) ↦ rw rest (omega arith)
  | inr (vs, found, e) ↦ rw e (omega (arith, length-take_task id ts found))
]

size-take_out :
    (id : String) (q : MockQueue) {t : Task} {q' : MockQueue}
    → take_out id q ≡ some (t, q')
    → size q' ≤ size q
unfolding take_out size
size-take_out id q {t} {q'} h = elim (Option-cases (lookup id q.in_progress)) [
  | inr (u, found) ↦ ground arith
  | inl gone ↦ elim (Option-cases (take_task id q.tasks)) [
    | inl none_queued ↦ ground arith
    | inr ((u, us), found) ↦ ground (arith, length-take_task id q.tasks found)
  ]
]

pub size-mark_done : (id : String) (q : MockQueue) → size (mark_done id q) ≤ size q
unfolding mark_done
size-mark_done id q = elim (Option-cases (take_out id q)) [
  | inl gone ↦ rw (gone, mark_done) (omega arith)
  | inr ((t, r), found) ↦ rw (found, mark_done) (unfold size in size-take_out id q found)
]

pub size-mark_blocked :
    (id reason : String) (q : MockQueue) → size (mark_blocked id reason q) ≤ size q
unfolding mark_blocked
size-mark_blocked id reason q = elim (Option-cases (take_out id q)) [
  | inl gone ↦ rw (gone, mark_blocked) (omega arith)
  | inr ((t, r), found) ↦ rw (found, mark_blocked) (unfold size in size-take_out id q found)
]

pub size-pop_from :
    (ts : List Task) (q : MockQueue) (t : Task)
    → (pop_from ts q).0 ≡ some t
    → length ts ≡ suc (size (pop_from ts q).1)
unfolding pop_from size
size-pop_from [] q t h = cc
size-pop_from (u ∷ us) q t h = refl

pub size-pop_from-none : (ts : List Task) (q : MockQueue) → (pop_from ts q).0 ≡ none → length ts ≡ 0
unfolding pop_from
size-pop_from-none [] q h = refl
size-pop_from-none (u ∷ us) q h = cc

unfoldable pub mock_laws : QueueLaws mock_ops
unfolding size pop_highest_priority
mock_laws = record {
  IsValid = λ q. Unit;
  size = size;
  pop-IsValid = λ q v. tt;
  push-IsValid = λ t q h v. tt;
  mark_done-IsValid = λ id q v. tt;
  mark_blocked-IsValid = λ id reason q v. tt;
  size-pop = λ q t v h. size-pop_from q.tasks q t h;
  size-pop_none = λ q v h. size-pop_from-none q.tasks q h;
  size-mark_done = λ id q v. size-mark_done id q;
  size-mark_blocked = λ id reason q v. size-mark_blocked id reason q;
}
