-- ===== src/Queue/Beads/Ready.antt =====
-- Which task InMemoryBeadsQueue hands out.
use quinn_ai.Prelude.{
  ℕ, ◌≤◌, String, Bool, true, false, not, List, [], ◌∷◌, none, some, IsSortedBy, All, In, here,
  there, All-map, ◌==◌, string_eq, if◌then◌else◌, ◌≡◌, refl, ◌⊎◌, inl, inr, arith, ◌∙◌, length, ltb,
  Bool-cases,
}
use quinn_ai.Task.{make_task, is_blocked}
use quinn_ai.Queue.Beads.{
  BeadsIssue, parse_issue_to_task, task_from, blockers, issue_priority, first_unblocked,
}

-- no dependencies
unfoldable pub is_free : BeadsIssue → Bool
is_free i = elim (blockers i.dependencies) [ [] ↦ true | _ ∷ _ ↦ false ]

-- An issue that `pop` may hand out: open, the worker's own, and without dependencies.
unfoldable pub is_ready : String → BeadsIssue → Bool
is_ready worker_id i =
    if i.status == "open" then if i.assignee == worker_id then is_free i else false else false

pub parse-some :
    (now : ℕ) (i : BeadsIssue) → i.priority ≤ 4 → parse_issue_to_task now i ≡ some (task_from now i)
unfolding parse_issue_to_task make_task task_from
parse-some now i h = ground (arith, h)

pub is_blocked-task_from :
    (now : ℕ) (i : BeadsIssue) → is_blocked (task_from now i) ≡ not (is_free i)
unfolding is_blocked task_from is_free
is_blocked-task_from now i =
    elim (blockers i.dependencies)
      as (λ bs. ltb 0 (length bs) ≡ not (elim bs [ [] ↦ true | _ ∷ _ ↦ false ])) [
        | [] ↦ refl
        | b ∷ bs ↦ ground arith
      ]

-- The issue `i` is the first free one of a list; in a sorted list, no free one comes before it.
pub record FirstFree (is : List BeadsIssue) (i : BeadsIssue) : Type 0 where
  pub member : In i is
  pub free : is_free i ≡ true
  pub least :
      IsSortedBy issue_priority is → All (λ j. is_free j ≡ true → i.priority ≤ j.priority) is

first_unblocked-free :
    (now : ℕ) (i : BeadsIssue) (is : List BeadsIssue)
    → i.priority ≤ 4
    → is_free i ≡ true
    → first_unblocked now (i ∷ is) ≡ some (some (task_from now i))
unfolding first_unblocked
first_unblocked-free now i is h free =
    rw (parse-some now i h, is_blocked-task_from now i, free, first_unblocked) refl

first_unblocked-blocked :
    (now : ℕ) (i : BeadsIssue) (is : List BeadsIssue)
    → i.priority ≤ 4
    → is_free i ≡ false
    → first_unblocked now (i ∷ is) ≡ first_unblocked now is
unfolding first_unblocked
first_unblocked-blocked now i is h blocked =
    rw (parse-some now i h, is_blocked-task_from now i, blocked, first_unblocked) refl

-- What the loop of `pop` comes to: nothing and no free issue, or the task of the first free one.
pub first_unblocked-cases :
    (now : ℕ) (is : List BeadsIssue)
    → All (λ i. i.priority ≤ 4) is
    → ((first_unblocked now is ≡ some none) × All (λ i. is_free i ≡ false) is)
      ⊎ ((i : BeadsIssue) × (first_unblocked now is ≡ some (some (task_from now i)))
          × FirstFree is i)
unfolding first_unblocked
first_unblocked-cases now [] h = inl (refl, tt)
first_unblocked-cases now (i ∷ is) h = elim (Bool-cases (is_free i)) [
  | inl free ↦ inr (
    i,
    first_unblocked-free now i is h.0 free,
    record {
      member = here refl;
      free = free;
      least = λ s. (λ _. omega arith, All-map is (λ j le _. le) s.0);
    },
  )
  | inr blocked ↦ elim (first_unblocked-cases now is h.1) [
    | inl (nothing, all) ↦
        inl (first_unblocked-blocked now i is h.0 blocked ∙ nothing, (blocked, all))
    | inr (j, found, first) ↦ inr (
      j,
      first_unblocked-blocked now i is h.0 blocked ∙ found,
      record {
        member = there first.member;
        free = first.free;
        least = λ s. (λ free. ground arith, first.least s.1);
      },
    )
  ]
]
