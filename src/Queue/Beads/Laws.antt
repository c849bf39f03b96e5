-- ===== src/Queue/Beads/Laws.antt =====
-- InMemoryBeadsQueue fills the interface that a worker takes.
use quinn_ai.Prelude.{
  ℕ, suc, ◌≤◌, String, false, Option, none, some, Dict, lookup, values, count, ◌≡◌, refl, subst, ap,
  sym, arith, Option-cases, inl, inr, ◌⊎◌, count-none, insert-IsKeyedBy, All-insert, string_eq,
}
use quinn_ai.Task.{Task}
use quinn_ai.Queue.{QueueOps, QueueLaws}
use quinn_ai.Queue.Beads.{
  BeadsIssue, BeadsQueue, add_issue, update_issue, with_status, start_task, task_from,
  pop_highest_priority, push, mark_done, mark_blocked,
}
use quinn_ai.Queue.Beads.Ready.{is_ready}
use quinn_ai.Queue.Beads.Pop.{IsSound, pop-ready, update_issue-IsSound, count-update_issue}

-- `pop`, where it does not raise; from a sound store it never does.
abbrev pub pop_or_nothing :
    Option (Option Task × BeadsQueue) → BeadsQueue → Option Task × BeadsQueue
pop_or_nothing none q = (none, q)
pop_or_nothing (some r) q = r

unfoldable pub beads_pop : BeadsQueue → Option Task × BeadsQueue
beads_pop q = pop_or_nothing (pop_highest_priority q) q

unfoldable pub beads_ops : QueueOps BeadsQueue
beads_ops = record {
  pop_highest_priority = beads_pop;
  push = push;
  mark_done = mark_done;
  mark_blocked = mark_blocked;
}

abbrev pub IsSoundQueue : BeadsQueue → Type 0
IsSoundQueue q = IsSound q.worker_id q.issues

unfoldable pub ready_count : BeadsQueue → ℕ
ready_count q = count (is_ready q.worker_id) (values q.issues)

beads_pop-some :
    (q : BeadsQueue) (r : Option Task × BeadsQueue)
    → pop_highest_priority q ≡ some r
    → beads_pop q ≡ r
unfolding beads_pop
beads_pop-some q r e = rw e refl

started-not_ready :
    (worker_id : String) (i : BeadsIssue) → is_ready worker_id (with_status "in_progress" i) ≡ false
unfolding is_ready
started-not_ready worker_id i = refl

-- What the worker sees of a `pop`.
pub beads_pop-cases :
    (q : BeadsQueue)
    → IsSoundQueue q
    → ((beads_pop q ≡ (none, q)) × (ready_count q ≡ 0))
      ⊎ ((t : Task) × (q' : BeadsQueue) × (beads_pop q ≡ (some t, q'))
          × IsSoundQueue q'
          × (ready_count q ≡ suc (ready_count q')))
unfolding ready_count start_task task_from
beads_pop-cases q sound = elim (pop-ready q sound) [
  | inl (nothing, all) ↦
      inl (beads_pop-some q _ nothing, count-none (is_ready q.worker_id) (values q.issues) all)
  | inr (i, popped, found, ready, least) ↦ inr (
    task_from q.now i,
    start_task (task_from q.now i) q,
    beads_pop-some q _ popped,
    update_issue-IsSound q.worker_id (task_from q.now i).id (with_status "in_progress") q.issues
        (λ j. (refl, refl, refl)) sound,
    ground (
      arith,
      ready,
      started-not_ready q.worker_id i,
      count-update_issue q.worker_id i.id (with_status "in_progress") q.issues i found,
    ),
  )
]

pub size-beads_pop :
    (q : BeadsQueue) (t : Task)
    → IsSoundQueue q
    → (beads_pop q).0 ≡ some t
    → ready_count q ≡ suc (ready_count (beads_pop q).1)
size-beads_pop q t sound h = elim (beads_pop-cases q sound) [
  | inl (e, _) ↦ ground (arith, ap (λ r. r.0) e, h)
  | inr (u, q', e, _, lighter) ↦ rw e lighter
]

pub size-beads_pop-none :
    (q : BeadsQueue) → IsSoundQueue q → (beads_pop q).0 ≡ none → ready_count q ≡ 0
size-beads_pop-none q sound h = elim (beads_pop-cases q sound) [
  | inl (_, empty) ↦ empty
  | inr (u, q', e, _, _) ↦ ground (arith, ap (λ r. r.0) e, h)
]

-- An update that leaves no issue ready does not raise the count.
pub ready_count-update :
    (worker_id id : String) (f : BeadsIssue → BeadsIssue) (issues : Dict BeadsIssue)
    → ((i : BeadsIssue) → is_ready worker_id (f i) ≡ false)
    → count (is_ready worker_id) (values (update_issue id f issues))
      ≤ count (is_ready worker_id) (values issues)
unfolding update_issue
ready_count-update worker_id id f issues closes = elim (Option-cases (lookup id issues)) [
  | inl missing ↦ rw (missing, update_issue) (omega arith)
  | inr (i, found) ↦ ground (arith, count-update_issue worker_id id f issues i found, closes i)
]

pub push-IsSoundQueue :
    (t : Task) (q : BeadsQueue) → t.priority ≤ 4 → IsSoundQueue q → IsSoundQueue (push t q)
unfolding push add_issue
push-IsSoundQueue t q small sound = (
  insert-IsKeyedBy (λ i. i.id) t.id _ q.issues refl sound.0,
  All-insert (λ i. (i.priority ≤ 4) × (i.assignee ≡ q.worker_id)) t.id _ q.issues (small, refl)
      sound.1,
)

unfoldable pub beads_laws : QueueLaws beads_ops
unfolding beads_ops mark_done mark_blocked ready_count is_ready
beads_laws = record {
  IsValid = IsSoundQueue;
  size = ready_count;
  pop-IsValid = λ q sound. elim (beads_pop-cases q sound) [
    | inl (e, _) ↦ subst (λ r. IsSoundQueue r.1) (sym e) sound
    | inr (t, q', e, sound', _) ↦ subst (λ r. IsSoundQueue r.1) (sym e) sound'
  ];
  push-IsValid = push-IsSoundQueue;
  mark_done-IsValid = λ id q sound.
      update_issue-IsSound q.worker_id id (with_status "closed") q.issues (λ j. (refl, refl, refl))
        sound;
  mark_blocked-IsValid = λ id reason q sound.
      update_issue-IsSound q.worker_id id _ q.issues (λ j. (refl, refl, refl)) sound;
  size-pop = size-beads_pop;
  size-pop_none = size-beads_pop-none;
  size-mark_done =
      λ id q sound. ready_count-update q.worker_id id (with_status "closed") q.issues (λ i. refl);
  size-mark_blocked = λ id reason q sound. ready_count-update q.worker_id id _ q.issues (λ i. refl);
}
