-- ===== src/Queue/Mock/Holds.antt =====
-- In how many places MockQueue keeps a task of an id, and that marking and popping do not change it.
use quinn_ai.Prelude.{
  ℕ, suc, ◌+◌, ◌≤◌, String, List, [], ◌∷◌, ◌++◌, none, some, Dict, ◌≡◌, refl, subst, ◌∙◌, arith,
  Option-cases, ◌==◌, string_eq, lookup, remove, inl, inr, eq_iff, lookup-insert, lookup-remove,
  if◌then◌else◌, sort_by, insert_by,
}
use quinn_ai.Task.{Task}
use quinn_ai.Queue.Mock.{
  MockQueue, priority_of, pop_from, push, take_task, take_out, mark_done, mark_blocked, mark_failed,
}
use quinn_ai.Queue.Mock.Order.{take_task-cons}

-- 1 where the dictionary has the id
abbrev pub has {ℓ} : {V : Type ℓ} → String → Dict V → ℕ
has id d = elim (lookup id d) [ none ↦ 0 | some v ↦ 1 ]

-- how many of the tasks have the id
abbrev pub queued : String → List Task → ℕ
queued id [] = 0
queued id (t ∷ ts) = let rest = queued id ts in if t.id == id then suc rest else rest

-- How often the queue keeps a task of this id, waiting, in progress, done, blocked and failed taken
-- together.
abbrev pub places : String → MockQueue → ℕ
places id q =
    queued id q.tasks + has id q.in_progress + has id q.done + has id q.blocked + has id q.failed

queued-insert_by :
    (id : String) (t : Task) (ts : List Task)
    → queued id (insert_by priority_of t ts) ≡ queued id (t ∷ ts)
unfolding insert_by
queued-insert_by id t [] = refl
queued-insert_by id t (u ∷ us) = ground (arith, queued-insert_by id t us)

queued-sort_by : (id : String) (ts : List Task) → queued id (sort_by priority_of ts) ≡ queued id ts
unfolding sort_by
queued-sort_by id [] = refl
queued-sort_by id (t ∷ ts) =
    queued-insert_by id t (sort_by priority_of ts) ∙ ground (arith, queued-sort_by id ts)

queued-snoc :
    (id : String) (ts : List Task) (t : Task)
    → queued id (ts ++ t ∷ []) ≡ (if t.id == id then suc (queued id ts) else queued id ts)
queued-snoc id [] t = refl
queued-snoc id (u ∷ us) t = ground (arith, queued-snoc id us t)

pub queued-push :
    (id : String) (t : Task) (q : MockQueue)
    → queued id (push t q).tasks
      ≡ (if t.id == id then suc (queued id q.tasks) else queued id q.tasks)
unfolding push
queued-push id t q = queued-sort_by id (q.tasks ++ t ∷ []) ∙ queued-snoc id q.tasks t

pub queued-take_task :
    (x : String) (ts : List Task) {u : Task} {us : List Task}
    → take_task x ts ≡ some (u, us)
    → (u.id ≡ x)
      × ((id : String) → queued id ts ≡ (if x == id then suc (queued id us) else queued id us))
queued-take_task x [] h = unfold take_task in cc
queued-take_task x (t ∷ ts) {u} {us} h = elim (take_task-cons x t ts h) [
  | inl (rest, here, same) ↦
      let key : t.id ≡ x = (eq_iff t.id x).0 same in
      (subst (λ (v : Task). v.id ≡ x) here key, λ id. rw (← rest, ← key) refl)
  | inr (vs, found, e) ↦
      let (key, ih) = queued-take_task x ts found in (key, λ id. rw e (ground (arith, ih id)))
]

take_out-places :
    (x id : String) (q : MockQueue) {t : Task} {q' : MockQueue}
    → take_out x q ≡ some (t, q')
    → places id q ≡ (if x == id then suc (places id q') else places id q')
unfolding take_out
take_out-places x id q {t} {q'} h = elim (Option-cases (lookup x q.in_progress)) [
  | inr (u, found) ↦
      let e : record q { in_progress = remove x q.in_progress } ≡ q' = ground arith in
      rw (← e) (ground (arith, eq_iff x id, lookup-remove x id q.in_progress))
  | inl gone ↦ elim (Option-cases (take_task x q.tasks)) [
    | inl none_queued ↦ ground arith
    | inr ((u, us), found) ↦
        let e : record q { tasks = us } ≡ q' = ground arith in
        rw (← e) (ground (arith, (queued-take_task x q.tasks found).1 id))
  ]
]

pub mark_done-places :
    (x id : String) (q : MockQueue) → places id q ≤ 1 → places id (mark_done x q) ≡ places id q
unfolding mark_done
mark_done-places x id q one = elim (Option-cases (take_out x q)) [
  | inl gone ↦ rw (gone, mark_done) refl
  | inr ((t, r), found) ↦
      rw (found, mark_done)
        (ground (arith, one, take_out-places x id q found, lookup-insert x id t r.done))
]

pub mark_blocked-places :
    (x reason id : String) (q : MockQueue)
    → places id q ≤ 1
    → places id (mark_blocked x reason q) ≡ places id q
unfolding mark_blocked
mark_blocked-places x reason id q one = elim (Option-cases (take_out x q)) [
  | inl gone ↦ rw (gone, mark_blocked) refl
  | inr ((t, r), found) ↦
      rw (found, mark_blocked)
        (ground
          (arith, one, take_out-places x id q found, lookup-insert x id (t, reason) r.blocked))
]

pub mark_failed-places :
    (x error id : String) (q : MockQueue)
    → places id q ≤ 1
    → places id (mark_failed x error q) ≡ places id q
unfolding mark_failed
mark_failed-places x error id q one = elim (Option-cases (take_out x q)) [
  | inl gone ↦ rw (gone, mark_failed) refl
  | inr ((t, r), found) ↦
      rw (found, mark_failed)
        (ground (arith, one, take_out-places x id q found, lookup-insert x id (t, error) r.failed))
]

pub pop_from-places :
    (ts : List Task) (id : String) (q : MockQueue)
    → q.tasks ≡ ts
    → places id q ≤ 1
    → places id (pop_from ts q).1 ≡ places id q
unfolding pop_from
pop_from-places [] id q e one = refl
pop_from-places (t ∷ ts) id q e one =
    rw e (ground (arith, one, e, lookup-insert t.id id t q.in_progress))
