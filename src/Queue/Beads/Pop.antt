-- ===== src/Queue/Beads/Pop.antt =====
-- `pop_highest_priority` and `size` of InMemoryBeadsQueue against the issues of the store.
use quinn_ai.Prelude.{
  ℕ, ◌+◌, ◌≤◌, String, Bool, true, false, List, [], ◌∷◌, none, some, Dict, lookup, values, sort_by,
  sort_by-IsSortedBy, All-sort_by, sort_by-All, All, In, All-filter, filter-All, All-In, All-get,
  All-map, ◌==◌, string_eq, if◌then◌else◌, ◌≡◌, refl, ◌⊎◌, inl, inr, arith, ◌∙◌, Bool-cases,
  Option-cases, IsKeyedBy, In-lookup, All-insert, insert-IsKeyedBy, count, count-insert, All-lookup,
  key-lookup, eq_iff,
}
use quinn_ai.Task.{Task}
use quinn_ai.Queue.Beads.{
  BeadsIssue, BeadsQueue, task_from, open_issues, issue_priority, first_unblocked, start_task,
  pop_highest_priority, count_unblocked, size, update_issue,
}
use quinn_ai.Queue.Beads.Ready.{
  is_free, is_ready, parse-some, is_blocked-task_from, first_unblocked-cases,
}

-- The store of a queue: each issue stands under its id, belongs to the worker, and has a priority
-- that a task can have.
abbrev pub IsOwn : String → BeadsIssue → Type 0
IsOwn worker_id i = (i.priority ≤ 4) × (i.assignee ≡ worker_id)

abbrev pub IsSound : String → Dict BeadsIssue → Type 0
IsSound worker_id issues = IsKeyedBy (λ i. i.id) issues × All (IsOwn worker_id) (values issues)

-- What the test of `open_issues` passes.
abbrev is_open : String → BeadsIssue → Bool
is_open worker_id i = if i.status == "open" then i.assignee == worker_id else false

module _ (q : BeadsQueue) (sound : IsSound q.worker_id q.issues) where
  abbrev sorted : List BeadsIssue
  sorted = sort_by issue_priority (open_issues q)

  -- what is known of each candidate
  abbrev Candidate : BeadsIssue → Type 0
  Candidate i = (In i (values q.issues) × IsOwn q.worker_id i) × (is_open q.worker_id i ≡ true)

  candidates : All Candidate sorted
  unfolding open_issues
  candidates = All-sort_by issue_priority Candidate (open_issues q) (
      All-filter (λ i. In i (values q.issues) × IsOwn q.worker_id i) (is_open q.worker_id)
        (values q.issues)
        (All-map (values q.issues)
          (λ i i_in. (i_in, All-get (IsOwn q.worker_id) (values q.issues) sound.1 i_in))
          (All-In (values q.issues))))

  pop-none : first_unblocked q.now sorted ≡ some none → pop_highest_priority q ≡ some (none, q)
  unfolding pop_highest_priority
  pop-none e = rw (e, pop_highest_priority) refl

  pop-some :
      (t : Task)
      → first_unblocked q.now sorted ≡ some (some t)
      → pop_highest_priority q ≡ some (some t, start_task t q)
  unfolding pop_highest_priority
  pop-some t e = rw (e, pop_highest_priority) refl

  unready :
      (P : BeadsIssue → Type 0)
      → All (λ i. is_free i ≡ true → P i) sorted
      → All (λ i. is_ready q.worker_id i ≡ true → P i) (values q.issues)
  unfolding open_issues is_ready
  unready P all =
      All-map (values q.issues) (λ i f ready. f (ground arith) (ground arith))
        (filter-All (λ i. is_free i ≡ true → P i) (is_open q.worker_id) (values q.issues)
          (sort_by-All issue_priority (λ i. is_free i ≡ true → P i) (open_issues q) all))

  -- From a sound store, `pop` hands out the task of a ready issue of the store, which is open, the
  -- worker's own and without dependencies, such that no ready issue has a smaller priority number; or
  -- no issue is ready, and `pop` returns None and changes nothing. It never raises ValueError.
  pub pop-ready :
      ((pop_highest_priority q ≡ some (none, q))
        × All (λ i. is_ready q.worker_id i ≡ false) (values q.issues))
      ⊎ ((i : BeadsIssue) × (pop_highest_priority q
            ≡ some (some (task_from q.now i), start_task (task_from q.now i) q))
          × (lookup i.id q.issues ≡ some i)
          × (is_ready q.worker_id i ≡ true)
          × All (λ j. is_ready q.worker_id j ≡ true → i.priority ≤ j.priority) (values q.issues))
  unfolding is_ready
  pop-ready =
      elim (first_unblocked-cases q.now sorted (All-map sorted (λ i c. c.0.1.0) candidates)) [
        | inl (nothing, all) ↦ inl (
          pop-none nothing,
          All-map (values q.issues)
              (λ i never. elim (Bool-cases (is_ready q.worker_id i)) [
                | inl ready ↦ absurd (never ready)
                | inr unready ↦ unready
              ])
              (unready (λ i. ⊥) (All-map sorted (λ i used free. ground arith) all)),
        )
        | inr (i, found, first) ↦
            let c = All-get Candidate sorted candidates first.member in
            inr (
              i,
              pop-some (task_from q.now i) found,
              In-lookup (λ j. j.id) i q.issues sound.0 c.0.0,
              ground (arith, first.free),
              unready (λ j. i.priority ≤ j.priority)
                  (first.least (sort_by-IsSortedBy issue_priority (open_issues q))),
            )
      ]

-- `size` counts the ready issues.
count_unblocked-ready :
    (now : ℕ) (worker_id : String) (is : List BeadsIssue)
    → All (IsOwn worker_id) is
    → count_unblocked now is ≡ some (count (is_ready worker_id) is)
unfolding count_unblocked count is_ready
count_unblocked-ready now worker_id [] own = refl
count_unblocked-ready now worker_id (i ∷ is) own = ground (
  arith,
  parse-some now i own.0.0,
  is_blocked-task_from now i,
  count_unblocked-ready now worker_id is own.1,
  eq_iff i.assignee worker_id,
  own.0.1,
)

-- In a sound store, `size` is the number of ready issues; in particular it does not raise.
pub size-count :
    (q : BeadsQueue)
    → IsSound q.worker_id q.issues
    → size q ≡ some (count (is_ready q.worker_id) (values q.issues))
unfolding size
size-count q sound = count_unblocked-ready q.now q.worker_id (values q.issues) sound.1

-- A change that keeps an issue's id, owner and priority keeps the store sound.
pub update_issue-IsSound :
    (worker_id id : String) (f : BeadsIssue → BeadsIssue) (issues : Dict BeadsIssue)
    → ((i : BeadsIssue)
        → ((f i).id ≡ i.id) × ((f i).priority ≡ i.priority) × ((f i).assignee ≡ i.assignee))
    → IsSound worker_id issues
    → IsSound worker_id (update_issue id f issues)
unfolding update_issue
update_issue-IsSound worker_id id f issues keeps sound = elim (Option-cases (lookup id issues)) [
  | inl missing ↦ rw (missing, update_issue) sound
  | inr (i, found) ↦
      let own = All-lookup (IsOwn worker_id) id issues sound.1 found in
      let same = key-lookup (λ j. j.id) id issues sound.0 found in
      rw (found, update_issue)
        (
          insert-IsKeyedBy (λ j. j.id) id (f i) issues ((keeps i).0 ∙ same) sound.0,
          All-insert (IsOwn worker_id) id (f i) issues
              (ground (arith, keeps i), (keeps i).2 ∙ own.1) sound.1,
        )
]

-- The count of the ready issues after a change of one that was in the store.
pub count-update_issue :
    (worker_id id : String) (f : BeadsIssue → BeadsIssue) (issues : Dict BeadsIssue)
    (i : BeadsIssue)
    → lookup id issues ≡ some i
    → count (is_ready worker_id) (values (update_issue id f issues))
        + (if is_ready worker_id i then 1 else 0)
      ≡ count (is_ready worker_id) (values issues) + (if is_ready worker_id (f i) then 1 else 0)
unfolding update_issue
count-update_issue worker_id id f issues i found =
    rw (found, update_issue) (count-insert (is_ready worker_id) id (f i) i issues found)
