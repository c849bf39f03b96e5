-- ===== src/Queue/Mock/Order.antt =====
-- The order of MockQueue's tasks, over every sequence of calls.
use quinn_ai.Prelude.{
  ◌≤◌, String, true, List, [], ◌∷◌, ◌++◌, none, some, ◌≡◌, refl, sym, subst, ap, arith, All,
  IsSortedBy, sort_by-IsSortedBy, Option-cases, Bool-cases, ◌==◌, string_eq, lookup, insert, ◌⊎◌,
  inl, inr,
}
use quinn_ai.Task.{Task}
use quinn_ai.Queue.Mock.{
  MockQueue, priority_of, new_queue, pop_from, pop_highest_priority, push, take_task, take_out,
  mark_done, mark_blocked, mark_failed, requeue,
}

-- The queued tasks stand in the order of their priorities.
abbrev pub IsOrdered : MockQueue → Type 0
IsOrdered q = IsSortedBy priority_of q.tasks

pop_from-le :
    (ts : List Task) (q : MockQueue) (t : Task)
    → IsSortedBy priority_of ts
    → (pop_from ts q).0 ≡ some t
    → (ts ≡ t ∷ (pop_from ts q).1.tasks)
      × All (λ u. t.priority ≤ u.priority) (pop_from ts q).1.tasks
unfolding pop_from
pop_from-le [] q t s h = cc
pop_from-le (u ∷ us) q t s h =
    let e : u ≡ t = cc in
    (ap (λ x. x ∷ us) e, subst (λ x. All (λ v. x.priority ≤ v.priority) us) e s.0)

-- From an ordered queue `pop_highest_priority` takes the first task, no other queued task has a
-- smaller number, and the others stay queued in their order.
pub pop_highest_priority-le :
    (q : MockQueue) (t : Task)
    → IsOrdered q
    → (pop_highest_priority q).0 ≡ some t
    → (q.tasks ≡ t ∷ (pop_highest_priority q).1.tasks)
      × All (λ u. t.priority ≤ u.priority) (pop_highest_priority q).1.tasks
unfolding pop_highest_priority
pop_highest_priority-le q t s h = pop_from-le q.tasks q t s h

-- A call of a method that changes the queue.
pub data Op : Type 0 where
  pop_call : Op
  push_call : Task → Op
  done_call : String → Op
  blocked_call failed_call : String → String → Op
  requeue_call : String → Op

abbrev pub apply : Op → MockQueue → MockQueue
apply pop_call q = (pop_highest_priority q).1
apply (push_call t) q = push t q
apply (done_call id) q = mark_done id q
apply (blocked_call id reason) q = mark_blocked id reason q
apply (failed_call id error) q = mark_failed id error q
apply (requeue_call id) q = requeue id q

abbrev pub run : List Op → MockQueue → MockQueue
run [] q = q
run (o ∷ os) q = run os (apply o q)

-- The first task with the id is at the head, or it is taken out of the rest.
pub take_task-cons :
    (id : String) (t : Task) (ts : List Task) {u : Task} {us : List Task}
    → take_task id (t ∷ ts) ≡ some (u, us)
    → ((ts ≡ us) × (t ≡ u) × ((t.id == id) ≡ true))
      ⊎ ((vs : List Task) × (take_task id ts ≡ some (u, vs)) × (us ≡ t ∷ vs))
unfolding take_task
take_task-cons id t ts {u} {us} h = elim (Bool-cases (t.id == id)) [
  | inl same ↦ inl (ground arith, ground arith, same)
  | inr other ↦ elim (Option-cases (take_task id ts)) [
    | inl gone ↦ ground arith
    | inr ((v, vs), found) ↦ inr (vs, ground arith, ground arith)
  ]
]

-- What `take_task` leaves keeps every property that all tasks have.
All-take_task :
    (P : Task → Type 0) (id : String) (ts : List Task) {u : Task} {us : List Task}
    → All P ts
    → take_task id ts ≡ some (u, us)
    → All P us
All-take_task P id [] all h = unfold take_task in cc
All-take_task P id (t ∷ ts) all h = elim (take_task-cons id t ts h) [
  | inl (rest, _, _) ↦ subst (All P) rest all.1
  | inr (vs, found, e) ↦ rw e (all.0, All-take_task P id ts all.1 found)
]

take_task-IsSortedBy :
    (id : String) (ts : List Task) {u : Task} {us : List Task}
    → IsSortedBy priority_of ts
    → take_task id ts ≡ some (u, us)
    → IsSortedBy priority_of us
take_task-IsSortedBy id [] s h = unfold take_task in cc
take_task-IsSortedBy id (t ∷ ts) s h = elim (take_task-cons id t ts h) [
  | inl (rest, _, _) ↦ subst (IsSortedBy priority_of) rest s.1
  | inr (vs, found, e) ↦ rw e (
    All-take_task (λ v. t.priority ≤ v.priority) id ts s.0 found,
    take_task-IsSortedBy id ts s.1 found,
  )
]

take_out-IsOrdered :
    (id : String) (q : MockQueue) {t : Task} {q' : MockQueue}
    → IsOrdered q
    → take_out id q ≡ some (t, q')
    → IsOrdered q'
unfolding take_out
take_out-IsOrdered id q {t} {q'} s h = elim (Option-cases (lookup id q.in_progress)) [
  | inr (u, found) ↦ let e : q.tasks ≡ q'.tasks = ground arith in subst (IsSortedBy priority_of) e s
  | inl gone ↦ elim (Option-cases (take_task id q.tasks)) [
    | inl none_queued ↦ ground arith
    | inr ((u, us), found) ↦
        let e : us ≡ q'.tasks = ground arith in
        subst (IsSortedBy priority_of) e (take_task-IsSortedBy id q.tasks s found)
  ]
]

marked-IsOrdered :
    (id : String) (q : MockQueue) (mark : Task → MockQueue → MockQueue)
    → ((t : Task) (r : MockQueue) → (mark t r).tasks ≡ r.tasks)
    → IsOrdered q
    → IsOrdered (elim (take_out id q) [ some (t, r) ↦ mark t r | none ↦ q ])
marked-IsOrdered id q mark same s = elim (Option-cases (take_out id q)) [
  | inl gone ↦ rw gone s
  | inr ((t, r), found) ↦
      rw found (subst (IsSortedBy priority_of) (sym (same t r)) (take_out-IsOrdered id q s found))
]

pop_from-IsSortedBy :
    (ts : List Task) (q : MockQueue)
    → q.tasks ≡ ts
    → IsSortedBy priority_of ts
    → IsSortedBy priority_of (pop_from ts q).1.tasks
unfolding pop_from
pop_from-IsSortedBy [] q e s = subst (IsSortedBy priority_of) (sym e) s
pop_from-IsSortedBy (t ∷ ts) q e s = s.1

requeue-IsOrdered : (id : String) (q : MockQueue) → IsOrdered q → IsOrdered (requeue id q)
unfolding requeue push
requeue-IsOrdered id q s = elim (Option-cases (lookup id q.blocked)) [
  | inr ((t, reason), found) ↦
      rw (found, requeue) (sort_by-IsSortedBy priority_of (q.tasks ++ t ∷ []))
  | inl gone ↦ elim (Option-cases (lookup id q.failed)) [
    | inr ((t, error), found) ↦
        rw (gone, found, requeue) (sort_by-IsSortedBy priority_of (q.tasks ++ t ∷ []))
    | inl unknown ↦ rw (gone, unknown, requeue) s
  ]
]

apply-IsOrdered : (o : Op) (q : MockQueue) → IsOrdered q → IsOrdered (apply o q)
apply-IsOrdered pop_call q s = unfold pop_highest_priority in pop_from-IsSortedBy q.tasks q refl s
apply-IsOrdered (push_call t) q s =
    unfold push in sort_by-IsSortedBy priority_of (q.tasks ++ t ∷ [])
apply-IsOrdered (done_call id) q s =
    unfold mark_done in
    marked-IsOrdered id q (λ t r. record r { done = insert id t r.done }) (λ t r. refl) s
apply-IsOrdered (blocked_call id reason) q s =
    unfold mark_blocked in
    marked-IsOrdered id q (λ t r. record r { blocked = insert id (t, reason) r.blocked })
      (λ t r. refl) s
apply-IsOrdered (failed_call id error) q s =
    unfold mark_failed in
    marked-IsOrdered id q (λ t r. record r { failed = insert id (t, error) r.failed }) (λ t r. refl)
      s
apply-IsOrdered (requeue_call id) q s = requeue-IsOrdered id q s

run-IsOrdered_from : (os : List Op) (q : MockQueue) → IsOrdered q → IsOrdered (run os q)
run-IsOrdered_from [] q s = s
run-IsOrdered_from (o ∷ os) q s = run-IsOrdered_from os (apply o q) (apply-IsOrdered o q s)

-- After any calls on a new queue its tasks stand in the order of their priorities.
pub run-IsOrdered : (os : List Op) → IsOrdered (run os new_queue)
run-IsOrdered os = run-IsOrdered_from os new_queue (unfold new_queue in tt)
