-- ===== src/State/Paths.antt =====
-- What holds of every sequence of valid moves of shared/core/state.py.
use quinn_ai.Prelude.{
  ℕ, ◌≤◌, true, false, List, [], ◌∷◌, ◌≡◌, refl, ◌↔◌, ◌⊎◌, inl, inr, arith, In, here, there, sym,
  subst,
}
use quinn_ai.State.{
  WorkerState, WorkState, pending, onboarding, offboarding, terminated, review, closed, cancelled,
  worker_eq, work_eq, moved, can_transition_work, transition_worker, transition_work,
  is_work_terminal,
}

-- A sequence of accepted calls of `transition_worker`.
pub data WorkerPath : WorkerState → WorkerState → Type 0 where
  done : {a : WorkerState} → WorkerPath a a
  move : {a b c : WorkerState} → transition_worker a b ≡ moved b → WorkerPath b c → WorkerPath a c

-- A sequence of accepted calls of `transition_work`, with the states it entered.
pub data WorkPath : WorkState → List WorkState → WorkState → Type 0 where
  done : {a : WorkState} → WorkPath a [] a
  move :
      {a b c : WorkState} {visited : List WorkState}
      → transition_work a b ≡ moved b
      → WorkPath b visited c
      → WorkPath a (b ∷ visited) c

-- From every state a worker can be brought to `terminated`.
pub WorkerPath-terminated : (a : WorkerState) → WorkerPath a terminated
unfolding transition_worker
WorkerPath-terminated pending = WorkerPath.move {b = terminated} refl WorkerPath.done
WorkerPath-terminated onboarding = WorkerPath.move {b = terminated} refl WorkerPath.done
WorkerPath-terminated offboarding = WorkerPath.move {b = terminated} refl WorkerPath.done
WorkerPath-terminated terminated = WorkerPath.done
WorkerPath-terminated _ =
    WorkerPath.move {b = offboarding} refl (WorkerPath.move {b = terminated} refl WorkerPath.done)

-- The phases of a worker's life, in order.
abbrev pub phase : WorkerState → ℕ
phase pending = 0
phase onboarding = 1
phase offboarding = 3
phase terminated = 4
phase _ = 2

phase-transition_worker : (a b : WorkerState) → transition_worker a b ≡ moved b → phase a ≤ phase b
unfolding transition_worker
phase-transition_worker a b h = ground arith

-- Along valid moves a worker never returns to an earlier phase of its life: `pending`,
-- `onboarding`, at work (`active`, `working`, `stuck`), `offboarding`, `terminated`.
pub phase-WorkerPath : {a b : WorkerState} → WorkerPath a b → phase a ≤ phase b
phase-WorkerPath WorkerPath.done = omega arith
phase-WorkerPath (WorkerPath.move {a} {b} {c} h p) =
    omega (arith, phase-transition_worker a b h, phase-WorkerPath p)

-- A work item has no valid move exactly when it is terminal.
pub is_work_terminal_iff :
    (a : WorkState)
    → (is_work_terminal a ≡ true) ↔ ((b : WorkState) → can_transition_work a b ≡ false)
unfolding is_work_terminal can_transition_work
is_work_terminal_iff a = (λ h b. ground arith, λ h. ground (arith, h cancelled))

into_closed : (a : WorkState) → transition_work a closed ≡ moved closed → a ≡ review
unfolding transition_work
into_closed a h = ground arith

needs_review :
    {a c : WorkState} {visited : List WorkState}
    → WorkPath a visited c
    → c ≡ closed
    → (a ≡ closed) ⊎ (a ≡ review) ⊎ In review visited
needs_review WorkPath.done e = inl e
needs_review (WorkPath.move {a} {b} {c} h p) e = elim (needs_review p e) [
  | inl at_end ↦ inr (inl (into_closed a (subst (λ s. transition_work a s ≡ moved s) at_end h)))
  | inr (inl at_review) ↦ inr (inr (here (sym at_review)))
  | inr (inr later) ↦ inr (inr (there later))
]

-- A work item that is closed has been in review: every sequence of valid moves that ends in
-- `closed` starts there, starts in `review`, or enters `review` on its way.
pub closed-needs-review :
    {a : WorkState} {visited : List WorkState}
    → WorkPath a visited closed
    → (a ≡ closed) ⊎ (a ≡ review) ⊎ In review visited
closed-needs-review p = needs_review p refl
