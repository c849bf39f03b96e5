-- ===== src/Queue/Mock/Fifo.antt =====
-- The order in which the tasks pushed to MockQueue of shared/queue/interface.py leave it.
use quinn_ai.Prelude.{
  ℕ, zero, suc, ◌+◌, Bool, false, List, [], ◌∷◌, ◌++◌, none, some, ◌≡◌, refl, sym, ap, ◌∙◌, arith,
  filter, length, length-append, length-sort_by, IsSortedBy, sort_by-IsSortedBy, tied, tied-sort_by,
  nat_beq, Bool-cases, inl, inr, if◌then◌else◌,
}
use mathlib.Core.List.{append-nil}
use quinn_ai.Task.{Task}
use quinn_ai.Queue.Mock.{MockQueue, priority_of, new_queue, pop_from, pop_highest_priority, push}

-- the tasks that so many calls of `pop_highest_priority` hand out, up to the first that finds none
unfoldable pub drain : ℕ → MockQueue → List Task
unfolding pop_highest_priority
drain zero q = []
drain (suc n) q =
    let rest = drain n (pop_highest_priority q).1 in
    elim (pop_highest_priority q).0 [ none ↦ [] | some t ↦ t ∷ rest ]

-- the calls of `push`, in their order
unfoldable pub fill : List Task → MockQueue → MockQueue
unfolding push
fill [] q = q
fill (t ∷ ts) q = fill ts (push t q)

drain-tasks : (ts : List Task) (q : MockQueue) → q.tasks ≡ ts → drain (length ts) q ≡ ts
unfolding drain pop_highest_priority pop_from
drain-tasks [] q e = refl
drain-tasks (t ∷ ts) q e = rw e (ap (λ us. t ∷ us) (drain-tasks ts _ refl))

filter-shift :
    (p : Task → Bool) (xs : List Task) (t : Task) (ts : List Task)
    → filter p (xs ++ t ∷ []) ++ filter p ts ≡ filter p xs ++ filter p (t ∷ ts)
filter-shift p [] t ts = elim (Bool-cases (p t)) [ inl e ↦ rw e refl | inr e ↦ rw e refl ]
filter-shift p (x ∷ xs) t ts = elim (Bool-cases (p x)) [
  | inl e ↦ rw e (ap (λ ys. x ∷ ys) (filter-shift p xs t ts))
  | inr e ↦ rw e (filter-shift p xs t ts)
]

fill-IsSortedBy :
    (ts : List Task) (q : MockQueue)
    → IsSortedBy priority_of q.tasks
    → IsSortedBy priority_of (fill ts q).tasks
unfolding fill push
fill-IsSortedBy [] q s = s
fill-IsSortedBy (t ∷ ts) q s =
    fill-IsSortedBy ts (push t q) (sort_by-IsSortedBy priority_of (q.tasks ++ t ∷ []))

tied-fill :
    (p : Task → Bool) (k : ℕ) (ts : List Task) (q : MockQueue)
    → tied priority_of p k (fill ts q).tasks
      ≡ tied priority_of p k q.tasks ++ tied priority_of p k ts
unfolding fill push
tied-fill p k [] q = sym (append-nil (tied priority_of p k q.tasks))
tied-fill p k (t ∷ ts) q =
    tied-fill p k ts (push t q)
    ∙ ap (λ us. us ++ tied priority_of p k ts) (tied-sort_by priority_of p k (q.tasks ++ t ∷ []))
    ∙ filter-shift (λ y. if nat_beq y.priority k then p y else false) q.tasks t ts

length-fill :
    (ts : List Task) (q : MockQueue) → length (fill ts q).tasks ≡ length q.tasks + length ts
unfolding fill push
length-fill [] q = omega arith
length-fill (t ∷ ts) q =
    length-fill ts (push t q)
    ∙ rw (length-sort_by priority_of (q.tasks ++ t ∷ []), length-append q.tasks (t ∷ []))
        (omega arith)

-- Tasks that are pushed to a new queue and popped as often come out in the order of their
-- priorities, as many as were pushed; and of each priority, those that pass a given test come out in
-- the order in which they were pushed: tasks of one priority are first in, first out.
pub drain-fill :
    (ts : List Task)
    → (let out = drain (length ts) (fill ts new_queue) in
        IsSortedBy priority_of out
        × (length out ≡ length ts)
        × ((p : Task → Bool) (k : ℕ) → tied priority_of p k out ≡ tied priority_of p k ts))
unfolding new_queue
drain-fill ts =
    let many : length (fill ts new_queue).tasks ≡ length ts =
      length-fill ts new_queue ∙ omega arith in
    let all : drain (length ts) (fill ts new_queue) ≡ (fill ts new_queue).tasks =
      ap (λ n. drain n (fill ts new_queue)) (sym many)
      ∙ drain-tasks (fill ts new_queue).tasks (fill ts new_queue) refl in
    rw all (fill-IsSortedBy ts new_queue tt, many, λ p k. tied-fill p k ts new_queue)
