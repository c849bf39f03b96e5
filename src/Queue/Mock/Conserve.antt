-- ===== src/Queue/Mock/Conserve.antt =====
-- No call of MockQueue loses, doubles or makes up a task whose id is its own.
use quinn_ai.Prelude.{
  ◌+◌, ◌≤◌, String, Bool, false, count, List, [], ◌∷◌, ◌≡◌, refl, ◌∙◌, arith, Option-cases,
  Bool-cases, ◌==◌, string_eq, lookup, remove, inl, inr, count_true, eq_iff, lookup-remove,
}
use quinn_ai.Task.{Task}
use quinn_ai.Queue.Mock.{MockQueue, new_queue, pop_highest_priority, push, requeue}
use quinn_ai.Queue.Mock.Order.{
  Op, pop_call, push_call, done_call, blocked_call, failed_call, requeue_call, apply, run,
}
use quinn_ai.Queue.Mock.Holds.{
  places, queued-push, mark_done-places, mark_blocked-places, mark_failed-places, pop_from-places,
}
use quinn_ai.Queue.Mock.Keyed.{IsKeyed, apply-IsKeyed}

requeue-places : (x id : String) (q : MockQueue) → IsKeyed q → places id (requeue x q) ≡ places id q
unfolding requeue
requeue-places x id q keyed = elim (Option-cases (lookup x q.blocked)) [
  | inr ((t, r), found) ↦
      rw (found, requeue)
        (ground (
          arith,
          queued-push id t (record q { blocked = remove x q.blocked }),
          lookup-remove x id q.blocked,
          keyed.blocked x t r found,
          eq_iff x id,
        ))
  | inl gone ↦ elim (Option-cases (lookup x q.failed)) [
    | inr ((t, r), found) ↦
        rw (gone, found, requeue)
          (ground (
            arith,
            queued-push id t (record q { failed = remove x q.failed }),
            lookup-remove x id q.failed,
            keyed.failed x t r found,
            eq_iff x id,
          ))
    | inl unknown ↦ rw (gone, unknown, requeue) refl
  ]
]

-- The call brings in a task of this id.
abbrev pub brings : String → Op → Bool
brings id (push_call t) = t.id == id
brings id _ = false

push-places :
    (t : Task) (id : String) (q : MockQueue)
    → places id (push t q) ≡ count_true (t.id == id) + places id q
unfolding push
push-places t id q = ground (arith, queued-push id t q)

apply-places :
    (o : Op) (id : String) (q : MockQueue)
    → IsKeyed q
    → count_true (brings id o) + places id q ≤ 1
    → places id (apply o q) ≡ count_true (brings id o) + places id q
apply-places pop_call id q k one =
    unfold pop_highest_priority in
    pop_from-places q.tasks id q refl (omega (arith, one)) ∙ omega arith
apply-places (push_call t) id q k one = push-places t id q
apply-places (done_call x) id q k one = mark_done-places x id q (omega (arith, one)) ∙ omega arith
apply-places (blocked_call x reason) id q k one =
    mark_blocked-places x reason id q (omega (arith, one)) ∙ omega arith
apply-places (failed_call x error) id q k one =
    mark_failed-places x error id q (omega (arith, one)) ∙ omega arith
apply-places (requeue_call x) id q k one = requeue-places x id q k ∙ omega arith

places-run_from :
    (os : List Op) (id : String) (q : MockQueue)
    → IsKeyed q
    → count (brings id) os + places id q ≤ 1
    → places id (run os q) ≡ count (brings id) os + places id q
unfolding count
places-run_from [] id q k one = omega arith
places-run_from (o ∷ os) id q k one = elim (Bool-cases (brings id o)) [
  | inl new ↦
      let now : places id (apply o q) ≡ count_true (brings id o) + places id q =
        apply-places o id q k (rw new (ground (arith, one, new))) in
      let one' : count (brings id) os + places id (apply o q) ≤ 1 =
        rw (now, new) (ground (arith, one, new)) in
      places-run_from os id (apply o q) (apply-IsKeyed o q k) one' ∙ rw (now, new) (omega arith)
  | inr old ↦
      let now : places id (apply o q) ≡ count_true (brings id o) + places id q =
        apply-places o id q k (rw old (ground (arith, one, old))) in
      let one' : count (brings id) os + places id (apply o q) ≤ 1 =
        rw (now, old) (ground (arith, one, old)) in
      places-run_from os id (apply o q) (apply-IsKeyed o q k) one' ∙ rw (now, old) (omega arith)
]

-- After any calls on a new queue, an id under which at most one task was pushed stands in exactly
-- one of the places waiting, in progress, done, blocked and failed, once, if a task was pushed under
-- it, and in none otherwise.
pub places-run :
    (os : List Op) (id : String)
    → count (brings id) os ≤ 1
    → places id (run os new_queue) ≡ count (brings id) os
unfolding new_queue
places-run os id one =
    let keyed : IsKeyed new_queue =
      unfold lookup in
      record { in_progress = λ id t p. cc; blocked = λ id t r p. cc; failed = λ id t r p. cc } in
    let none_yet : places id new_queue ≡ 0 = unfold lookup in refl in
    places-run_from os id new_queue keyed (rw none_yet (omega (arith, one)))
    ∙ rw none_yet (omega arith)
