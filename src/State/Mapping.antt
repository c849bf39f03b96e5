-- ===== src/State/Mapping.antt =====
-- How the maps of shared/core/state.py between worker and session states fit together.
use quinn_ai.Prelude.{true, none, some, ◌≡◌, ◌≢◌, ◌⊎◌, ◌↔◌, arith, inl, inr}
use quinn_ai.State.{
  WorkerState, SessionState, pending, onboarding, working, stuck, offboarding, terminated, crashed,
  worker_eq, session_eq, can_transition_worker, can_transition_session, worker_state_to_session,
  session_state_to_worker,
}

-- Recovering the worker's state from the state of its session, with the worker's old state as
-- context, gives that state back exactly when the worker is not stuck.
pub session_state_to_worker-worker_state_to_session :
    (w : WorkerState)
    → (session_state_to_worker (worker_state_to_session w) (some w) ≡ w) ↔ (w ≢ stuck)
unfolding session_state_to_worker worker_state_to_session
session_state_to_worker-worker_state_to_session w = ground arith

-- Without context, the session's state comes back from the worker's exactly when it is not
-- `crashed`.
pub worker_state_to_session-session_state_to_worker :
    (s : SessionState)
    → (worker_state_to_session (session_state_to_worker s none) ≡ s) ↔ (s ≢ crashed)
unfolding session_state_to_worker worker_state_to_session
worker_state_to_session-session_state_to_worker s = ground arith

-- The worker moves that no move of its session can follow.
pub data Unmatched : WorkerState → WorkerState → Type 0 where
  onboarding_terminated : Unmatched onboarding terminated
  working_offboarding : Unmatched working offboarding

-- The session can follow the move: its state stays as it is, or moves validly.
abbrev pub Follows : WorkerState → WorkerState → Type 0
Follows a b =
    (worker_state_to_session a ≡ worker_state_to_session b)
    ⊎ (can_transition_session (worker_state_to_session a) (worker_state_to_session b) ≡ true)

-- A valid move of the worker is either one that its session can follow, or it ends an onboarding
-- or offboards a worker in the middle of a task, and then its session cannot follow.
pub transition-simulation :
    (a b : WorkerState)
    → can_transition_worker a b ≡ true
    → Follows a b ⊎ (Unmatched a b × (¬ Follows a b))
unfolding can_transition_worker can_transition_session worker_state_to_session
transition-simulation pending b h = inl (ground arith)
transition-simulation onboarding terminated h = inr (onboarding_terminated, λ f. ground arith)
transition-simulation working offboarding h = inr (working_offboarding, λ f. ground arith)
transition-simulation _ b h = inl (ground arith)
