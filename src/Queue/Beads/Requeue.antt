-- ===== src/Queue/Beads/Requeue.antt =====
-- What `pop_highest_priority` and `requeue` of InMemoryBeadsQueue do to `size`.
use quinn_ai.Prelude.{
  ℕ, suc, String, true, false, some, Dict, lookup, values, count, ◌≡◌, refl, ap, subst, ◌∙◌, arith,
  inl, inr, string_eq, eq_refl, lookup-insert,
}
use quinn_ai.Task.{Task}
use quinn_ai.Queue.Beads.{
  BeadsIssue, BeadsQueue, update_issue, with_status, start_task, task_from, pop_highest_priority,
  requeue, size,
}
use quinn_ai.Queue.Beads.Ready.{is_ready, is_free}
use quinn_ai.Queue.Beads.Pop.{
  IsSound, pop-ready, size-count, update_issue-IsSound, count-update_issue,
}

lookup-update_issue :
    (id : String) (f : BeadsIssue → BeadsIssue) (issues : Dict BeadsIssue) (i : BeadsIssue)
    → lookup id issues ≡ some i
    → lookup id (update_issue id f issues) ≡ some (f i)
unfolding update_issue
lookup-update_issue id f issues i found =
    rw (found, update_issue) (ground (arith, lookup-insert id id (f i) issues, eq_refl id))

reopened-ready :
    (worker_id : String) (i : BeadsIssue)
    → is_ready worker_id i ≡ true
    → is_ready worker_id (with_status "open" (with_status "in_progress" i)) ≡ true
unfolding is_ready is_free
reopened-ready worker_id i ready = ground arith

started-unready :
    (worker_id : String) (i : BeadsIssue) → is_ready worker_id (with_status "in_progress" i) ≡ false
unfolding is_ready
started-unready worker_id i = refl

-- The sizes before and after a `pop`, and after `requeue`.
abbrev pub Returns : BeadsQueue → Task → BeadsQueue → Type 0
Returns q t q' =
    (n : ℕ) × (size q ≡ some (suc n)) × (size q' ≡ some n) × (size (requeue t.id q') ≡ some (suc n))

start_task-Returns :
    (q : BeadsQueue) (i : BeadsIssue)
    → IsSound q.worker_id q.issues
    → lookup i.id q.issues ≡ some i
    → is_ready q.worker_id i ≡ true
    → Returns q (task_from q.now i) (start_task (task_from q.now i) q)
unfolding start_task task_from requeue
start_task-Returns q i sound found ready =
    let started = start_task (task_from q.now i) q in
    let sound' : IsSound q.worker_id started.issues =
      update_issue-IsSound q.worker_id i.id (with_status "in_progress") q.issues
        (λ j. (refl, refl, refl)) sound in
    let sound'' =
      update_issue-IsSound q.worker_id i.id (with_status "open") started.issues
        (λ j. (refl, refl, refl)) sound' in
    let down = count-update_issue q.worker_id i.id (with_status "in_progress") q.issues i found in
    let up =
      count-update_issue q.worker_id i.id (with_status "open") started.issues
        (with_status "in_progress" i)
        (lookup-update_issue i.id (with_status "in_progress") q.issues i found) in
    let off = started-unready q.worker_id i in
    let on = reopened-ready q.worker_id i ready in
    (
      count (is_ready q.worker_id) (values started.issues),
      size-count q sound ∙ ap some (ground (arith, down, ready, off)),
      size-count started sound',
      size-count (requeue i.id started) sound'' ∙ ap some (ground (arith, up, on, off)),
    )

-- From a sound store, a `pop` that hands out a task makes the queue smaller by one, and `requeue` of
-- that task makes it as large as before.
pub size-requeue :
    (q q' : BeadsQueue) (t : Task)
    → IsSound q.worker_id q.issues
    → pop_highest_priority q ≡ some (some t, q')
    → Returns q t q'
size-requeue q q' t sound h = elim (pop-ready q sound) [
  | inl (nothing, _) ↦ ground (arith, nothing, h)
  | inr (i, popped, found, ready, _) ↦
      let same_task : task_from q.now i ≡ t = ground (arith, popped, h) in
      let same_queue : start_task (task_from q.now i) q ≡ q' = ground (arith, popped, h) in
      subst (Returns q t) same_queue (
        subst (λ u. Returns q u (start_task (task_from q.now i) q)) same_task
          (start_task-Returns q i sound found ready))
]
