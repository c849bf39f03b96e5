-- ===== src/Queue/Mock/Keyed.antt =====
-- MockQueue keeps each task under the task's own id.
use quinn_ai.Prelude.{
  String, List, [], ◌∷◌, some, ◌≡◌, subst, arith, Option-cases, string_eq, lookup, remove, inl, inr,
  eq_iff, lookup-insert, lookup-remove,
}
use quinn_ai.Task.{Task}
use quinn_ai.Queue.Mock.{
  MockQueue, pop_from, pop_highest_priority, push, take_task, take_out, mark_done, mark_blocked,
  mark_failed, requeue,
}
use quinn_ai.Queue.Mock.Order.{
  Op, pop_call, push_call, done_call, blocked_call, failed_call, requeue_call, apply,
}
use quinn_ai.Queue.Mock.Holds.{queued-take_task}

-- Each task stands under its own id.
pub record IsKeyed (q : MockQueue) : Type 0 where
  pub in_progress : (id : String) (t : Task) → lookup id q.in_progress ≡ some t → t.id ≡ id
  pub blocked :
      (id : String) (t : Task) (r : String) → lookup id q.blocked ≡ some (t, r) → t.id ≡ id
  pub failed : (id : String) (t : Task) (r : String) → lookup id q.failed ≡ some (t, r) → t.id ≡ id

take_out-IsKeyed :
    (x : String) (q : MockQueue) {t : Task} {q' : MockQueue}
    → IsKeyed q
    → take_out x q ≡ some (t, q')
    → (t.id ≡ x) × IsKeyed q'
unfolding take_out
take_out-IsKeyed x q {t} {q'} keyed h = elim (Option-cases (lookup x q.in_progress)) [
  | inr (u, found) ↦
      let e : record q { in_progress = remove x q.in_progress } ≡ q' = ground arith in
      let same : u ≡ t = ground arith in
      (
        subst (λ (v : Task). v.id ≡ x) same (keyed.in_progress x u found),
        subst IsKeyed e (record {
          in_progress =
              λ id v p. ground (arith, lookup-remove x id q.in_progress, keyed.in_progress id v);
          blocked = keyed.blocked;
          failed = keyed.failed;
        }),
      )
  | inl gone ↦ elim (Option-cases (take_task x q.tasks)) [
    | inl none_queued ↦ ground arith
    | inr ((u, us), found) ↦
        let e : record q { tasks = us } ≡ q' = ground arith in
        let same : u ≡ t = ground arith in
        (
          subst (λ (v : Task). v.id ≡ x) same (queued-take_task x q.tasks found).0,
          subst IsKeyed e (record {
            in_progress = keyed.in_progress;
            blocked = keyed.blocked;
            failed = keyed.failed;
          }),
        )
  ]
]

mark_done-IsKeyed : (x : String) (q : MockQueue) → IsKeyed q → IsKeyed (mark_done x q)
unfolding mark_done
mark_done-IsKeyed x q keyed = elim (Option-cases (take_out x q)) [
  | inl gone ↦ rw (gone, mark_done) keyed
  | inr ((t, r), found) ↦
      let (_, k) = take_out-IsKeyed x q keyed found in
      rw (found, mark_done)
        (record { in_progress = k.in_progress; blocked = k.blocked; failed = k.failed })
]

mark_blocked-IsKeyed :
    (x reason : String) (q : MockQueue) → IsKeyed q → IsKeyed (mark_blocked x reason q)
unfolding mark_blocked
mark_blocked-IsKeyed x reason q keyed = elim (Option-cases (take_out x q)) [
  | inl gone ↦ rw (gone, mark_blocked) keyed
  | inr ((t, r), found) ↦
      let (key, k) = take_out-IsKeyed x q keyed found in
      rw (found, mark_blocked)
        (record {
          in_progress = k.in_progress;
          blocked = λ id v y p.
              ground
                (arith, lookup-insert x id (t, reason) r.blocked, k.blocked id v y, eq_iff x id);
          failed = k.failed;
        })
]

mark_failed-IsKeyed :
    (x error : String) (q : MockQueue) → IsKeyed q → IsKeyed (mark_failed x error q)
unfolding mark_failed
mark_failed-IsKeyed x error q keyed = elim (Option-cases (take_out x q)) [
  | inl gone ↦ rw (gone, mark_failed) keyed
  | inr ((t, r), found) ↦
      let (key, k) = take_out-IsKeyed x q keyed found in
      rw (found, mark_failed)
        (record {
          in_progress = k.in_progress;
          blocked = k.blocked;
          failed = λ id v y p.
              ground (arith, lookup-insert x id (t, error) r.failed, k.failed id v y, eq_iff x id);
        })
]

pop_from-IsKeyed : (ts : List Task) (q : MockQueue) → IsKeyed q → IsKeyed (pop_from ts q).1
unfolding pop_from
pop_from-IsKeyed [] q keyed = keyed
pop_from-IsKeyed (t ∷ ts) q keyed = record {
  in_progress = λ id v p.
      ground (arith, lookup-insert t.id id t q.in_progress, keyed.in_progress id v, eq_iff t.id id);
  blocked = keyed.blocked;
  failed = keyed.failed;
}

push-IsKeyed : (t : Task) (q : MockQueue) → IsKeyed q → IsKeyed (push t q)
unfolding push
push-IsKeyed t q keyed = record {
  in_progress = keyed.in_progress;
  blocked = keyed.blocked;
  failed = keyed.failed;
}

requeue-IsKeyed : (x : String) (q : MockQueue) → IsKeyed q → IsKeyed (requeue x q)
unfolding requeue
requeue-IsKeyed x q keyed = elim (Option-cases (lookup x q.blocked)) [
  | inr ((t, r), found) ↦
      rw (found, requeue)
        (record {
          in_progress = keyed.in_progress;
          blocked = λ id v y p. ground (arith, lookup-remove x id q.blocked, keyed.blocked id v y);
          failed = keyed.failed;
        })
  | inl gone ↦ elim (Option-cases (lookup x q.failed)) [
    | inr ((t, r), found) ↦
        rw (gone, found, requeue)
          (record {
            in_progress = keyed.in_progress;
            blocked = keyed.blocked;
            failed = λ id v y p. ground (arith, lookup-remove x id q.failed, keyed.failed id v y);
          })
    | inl unknown ↦ rw (gone, unknown, requeue) keyed
  ]
]

pub apply-IsKeyed : (o : Op) (q : MockQueue) → IsKeyed q → IsKeyed (apply o q)
apply-IsKeyed pop_call q k = unfold pop_highest_priority in pop_from-IsKeyed q.tasks q k
apply-IsKeyed (push_call t) q k = push-IsKeyed t q k
apply-IsKeyed (done_call x) q k = mark_done-IsKeyed x q k
apply-IsKeyed (blocked_call x reason) q k = mark_blocked-IsKeyed x reason q k
apply-IsKeyed (failed_call x error) q k = mark_failed-IsKeyed x error q k
apply-IsKeyed (requeue_call x) q k = requeue-IsKeyed x q k
