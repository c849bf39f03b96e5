-- ===== src/State.antt =====
-- shared/core/state.py: the states of a worker, of its session and of a work item, the tables
-- of the valid transitions, and the maps between worker states and session states.
pub mod Mapping
pub mod Paths
mod Examples
use quinn_ai.Prelude.{
  Bool, true, false, not, List, [], ◌∷◌, Option, none, some, Eq, ◌==◌, elem, arith, ◌≡◌, ◌↔◌,
  if◌then◌else◌, ◌&&◌,
}

pub data WorkerState : Type 0 where
  pending onboarding active working stuck offboarding terminated : WorkerState

pub data SessionState : Type 0 where
  stopped starting idle running crashed : SessionState

pub data WorkState : Type 0 where
  draft opened in_progress review blocked closed cancelled : WorkState

abbrev pub worker_beq : WorkerState → WorkerState → Bool
worker_beq pending pending = true
worker_beq onboarding onboarding = true
worker_beq active active = true
worker_beq working working = true
worker_beq stuck stuck = true
worker_beq offboarding offboarding = true
worker_beq terminated terminated = true
worker_beq _ _ = false

pub worker_beq_iff : (a b : WorkerState) → (worker_beq a b ≡ true) ↔ (a ≡ b)
worker_beq_iff a b = ground arith

instance abbrev pub worker_eq : Eq WorkerState
worker_eq = record { equals = worker_beq; equals_iff = worker_beq_iff }

abbrev pub session_beq : SessionState → SessionState → Bool
session_beq stopped stopped = true
session_beq starting starting = true
session_beq idle idle = true
session_beq running running = true
session_beq crashed crashed = true
session_beq _ _ = false

pub session_beq_iff : (a b : SessionState) → (session_beq a b ≡ true) ↔ (a ≡ b)
session_beq_iff a b = ground arith

instance abbrev pub session_eq : Eq SessionState
session_eq = record { equals = session_beq; equals_iff = session_beq_iff }

abbrev pub work_beq : WorkState → WorkState → Bool
work_beq draft draft = true
work_beq opened opened = true
work_beq in_progress in_progress = true
work_beq review review = true
work_beq blocked blocked = true
work_beq closed closed = true
work_beq cancelled cancelled = true
work_beq _ _ = false

pub work_beq_iff : (a b : WorkState) → (work_beq a b ≡ true) ↔ (a ≡ b)
work_beq_iff a b = ground arith

instance abbrev pub work_eq : Eq WorkState
work_eq = record { equals = work_beq; equals_iff = work_beq_iff }

unfoldable pub worker_state_transitions : WorkerState → List WorkerState
worker_state_transitions pending = onboarding ∷ terminated ∷ []
worker_state_transitions onboarding = active ∷ terminated ∷ []
worker_state_transitions active = working ∷ offboarding ∷ stuck ∷ []
worker_state_transitions working = active ∷ stuck ∷ offboarding ∷ []
worker_state_transitions stuck = active ∷ offboarding ∷ []
worker_state_transitions offboarding = terminated ∷ []
worker_state_transitions terminated = []

unfoldable pub session_state_transitions : SessionState → List SessionState
session_state_transitions stopped = starting ∷ []
session_state_transitions starting = idle ∷ running ∷ crashed ∷ []
session_state_transitions idle = running ∷ stopped ∷ crashed ∷ []
session_state_transitions running = idle ∷ crashed ∷ []
session_state_transitions crashed = starting ∷ stopped ∷ []

unfoldable pub work_state_transitions : WorkState → List WorkState
work_state_transitions draft = opened ∷ cancelled ∷ []
work_state_transitions opened = in_progress ∷ blocked ∷ cancelled ∷ []
work_state_transitions in_progress = review ∷ blocked ∷ opened ∷ cancelled ∷ []
work_state_transitions review = closed ∷ in_progress ∷ cancelled ∷ []
work_state_transitions blocked = opened ∷ in_progress ∷ cancelled ∷ []
work_state_transitions closed = []
work_state_transitions cancelled = []

-- The new state, or the exception with the state, the target and the valid targets.
pub data Outcome (S : Type 0) : Type 0 where
  moved : S → Outcome S
  invalid_transition : S → S → List S → Outcome S

unfoldable pub can_transition_worker : WorkerState → WorkerState → Bool
unfolding worker_state_transitions
can_transition_worker from to = elem to (worker_state_transitions from)

unfoldable pub can_transition_session : SessionState → SessionState → Bool
unfolding session_state_transitions
can_transition_session from to = elem to (session_state_transitions from)

unfoldable pub can_transition_work : WorkState → WorkState → Bool
unfolding work_state_transitions
can_transition_work from to = elem to (work_state_transitions from)

unfoldable pub transition_worker : WorkerState → WorkerState → Outcome WorkerState
unfolding can_transition_worker worker_state_transitions
transition_worker from to =
    if not (can_transition_worker from to)
    then invalid_transition from to (worker_state_transitions from)
    else moved to

unfoldable pub transition_session : SessionState → SessionState → Outcome SessionState
unfolding can_transition_session session_state_transitions
transition_session from to =
    if not (can_transition_session from to)
    then invalid_transition from to (session_state_transitions from)
    else moved to

unfoldable pub transition_work : WorkState → WorkState → Outcome WorkState
unfolding can_transition_work work_state_transitions
transition_work from to =
    if not (can_transition_work from to)
    then invalid_transition from to (work_state_transitions from)
    else moved to

unfoldable pub worker_state_to_session : WorkerState → SessionState
worker_state_to_session pending = stopped
worker_state_to_session onboarding = starting
worker_state_to_session active = idle
worker_state_to_session working = running
worker_state_to_session stuck = idle
worker_state_to_session offboarding = stopped
worker_state_to_session terminated = stopped

unfoldable pub session_to_worker_state : SessionState → WorkerState
session_to_worker_state stopped = pending
session_to_worker_state starting = onboarding
session_to_worker_state idle = active
session_to_worker_state running = working
session_to_worker_state crashed = stuck

-- `none` stands for a call with no current worker state.
unfoldable pub session_state_to_worker : SessionState → Option WorkerState → WorkerState
unfolding session_to_worker_state
session_state_to_worker s none = session_to_worker_state s
session_state_to_worker s (some w) =
    if s == stopped && elem w (terminated ∷ offboarding ∷ []) then w else session_to_worker_state s

unfoldable pub is_worker_awake : WorkerState → Bool
unfolding worker_state_to_session
is_worker_awake w = not (elem (worker_state_to_session w) (stopped ∷ []))

unfoldable pub is_worker_responsive : WorkerState → Bool
is_worker_responsive w = elem w (active ∷ working ∷ [])

unfoldable pub is_work_terminal : WorkState → Bool
is_work_terminal w = elem w (closed ∷ cancelled ∷ [])

unfoldable pub is_work_active : WorkState → Bool
is_work_active w = elem w (in_progress ∷ review ∷ [])
