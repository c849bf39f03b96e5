-- ===== src/Worker/Machine.antt =====
-- The state of BaseWorker of shared/wrkr/core/worker.py, and its moves. `execute`, the answers of
-- the escalation handler and the clock are given for each turn of the main loop by a `Tick`.
use quinn_ai.Prelude.{
  ℕ, String, Bool, true, false, List, [], ◌∷◌, ◌++◌, Option, none, elem, if◌then◌else◌, string_eq,
}
use quinn_ai.State.{
  WorkerState, pending, active, working, stuck, offboarding, worker_eq, transition_worker, moved,
  invalid_transition,
}
use quinn_ai.Task.{Task, WorkerResult, WorkerConfig}
use quinn_ai.Escalation.Interface.{EscalationResponse}

-- What `execute` does: it returns a result, or raises an exception with a text and a type.
pub data Execution : Type 0 where
  finishes : WorkerResult → Execution
  raises : String → String → Execution

-- What the outside does in one turn of the loop.
pub record Tick : Type 0 where
  -- the readings of the clock, in seconds
  pub first_reading : ℕ
  pub second_reading : ℕ
  pub execution : Execution
  -- `stop` is called while the task is executed
  pub stop_during_task : Bool
  pub response : EscalationResponse

pub record Worker (Q : Type 0) : Type 0 where
  pub config : WorkerConfig
  pub queue : Q
  -- what `_memory.record`, `_escalation.report` (with the idle minutes) and `_escalation.ask` got
  pub memory : List (Task × WorkerResult)
  pub reports : List ℕ
  pub asked : List String
  pub state : WorkerState
  pub should_stop : Bool
  pub no_work_since : Option ℕ
  pub no_work_escalated : Bool
  -- the calls of `_on_state_change`
  pub entered : List WorkerState

-- A method returns the worker, or raises InvalidTransition and leaves the worker as it is then.
pub data Step (Q : Type 0) : Type 0 where
  next : Worker Q → Step Q
  raised : Worker Q → Step Q

infixl 5 ◌>>=◌
abbrev pub ◌>>=◌ : {Q : Type 0} → Step Q → (Worker Q → Step Q) → Step Q
next w >>= f = f w
raised w >>= f = raised w

module _ {Q : Type 0} where
  unfoldable pub new_worker : WorkerConfig → Q → Worker Q
  new_worker config queue = record {
    config = config;
    queue = queue;
    memory = [];
    reports = [];
    asked = [];
    state = pending;
    should_stop = false;
    no_work_since = none;
    no_work_escalated = false;
    entered = [];
  }

  unfoldable pub transition_to : WorkerState → Worker Q → Step Q
  transition_to new w = elim (transition_worker w.state new) [
    | moved s ↦ next (record w { state = s; entered = w.entered ++ s ∷ [] })
    | invalid_transition _ _ _ ↦ raised w
  ]

  unfoldable pub stop : Worker Q → Step Q
  stop w =
      let w' = record w { should_stop = true } in
      if elem w.state (active ∷ working ∷ stuck ∷ []) then transition_to offboarding w' else next w'
