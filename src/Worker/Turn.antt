-- ===== src/Worker/Turn.antt =====
-- One turn of the main loop of shared/wrkr/core/worker.py: `_tick`, `_handle_task`,
-- `_handle_result` and `_idle`.
use quinn_ai.Prelude.{
  ℕ, ◌-◌, ◌*◌, ◌/◌, String, Bool, true, false, not, ◌&&◌, List, [], ◌∷◌, ◌++◌, Option, none, some,
  leb, ◌==◌, if◌then◌else◌, string_eq,
}
use quinn_ai.State.{active, working, stuck, worker_eq}
use quinn_ai.Task.{Task, WorkerResult, IdleBehavior, wait, poll, exit, failure}
use quinn_ai.Queue.{QueueOps}
use quinn_ai.Escalation.Interface.{EscalationResponse}
use quinn_ai.Worker.Machine.{
  Execution, finishes, raises, Tick, Worker, Step, next, ◌>>=◌, transition_to, stop,
}

-- `result.error or "Unknown error"`
unfoldable pub error_or_unknown : Option String → String
error_or_unknown none = "Unknown error"
error_or_unknown (some e) = if e == "" then "Unknown error" else e

-- the result, with its duration, or the failure that stands for an exception
unfoldable pub settle : ℕ → Execution → WorkerResult
settle duration (finishes r) = elim r.duration_ms [
  | none ↦ record r { duration_ms = some duration }
  | some d ↦ r
]
settle duration (raises text exception_type) =
    failure text duration (("exception_type", exception_type) ∷ [])

unfoldable pub idle_start : ℕ → Option ℕ → ℕ
idle_start now none = now
idle_start now (some since) = since

module _ {Q : Type 0} where
  unfoldable pub push_all : QueueOps Q → List Task → Q → Q
  push_all ops [] q = q
  push_all ops (t ∷ ts) q = push_all ops ts (ops.push t q)

  -- the part of `_handle_result` behind `self.escalate`
  unfoldable pub after_escalation :
      QueueOps Q → EscalationResponse → Task → WorkerResult → Worker Q → Step Q
  unfolding push_all transition_to
  after_escalation ops response task result w =
      if response.resolved
      then transition_to active
          (record w { queue = ops.mark_done task.id (push_all ops response.new_tasks w.queue) })
      else transition_to active
          (record w { queue = ops.mark_blocked task.id result.escalation_reason w.queue })

  unfoldable pub handle_result :
      QueueOps Q → EscalationResponse → Task → WorkerResult → Worker Q → Step Q
  unfolding after_escalation transition_to error_or_unknown
  handle_result ops response task result w =
      if result.succeeded
      then transition_to active (record w { queue = ops.mark_done task.id w.queue })
      else if result.needs_escalation
      then (do
        stuck_worker ← transition_to stuck w
        after_escalation ops response task result
            (record stuck_worker { asked = stuck_worker.asked ++ result.escalation_reason ∷ [] }))
      else transition_to active
          (record w { queue = ops.mark_blocked task.id (error_or_unknown result.error) w.queue })

  -- a call of `stop` from outside, or none
  unfoldable pub stop_if : Bool → Worker Q → Step Q
  stop_if requested w = if requested then stop w else next w

  unfoldable pub handle_task : QueueOps Q → Tick → Task → Worker Q → Step Q
  handle_task ops tick task w = do
    at_work ← transition_to working (record w { no_work_since = none; no_work_escalated = false })
    executed ← stop_if tick.stop_during_task at_work
    let result = settle ((tick.second_reading - tick.first_reading) * 1000) tick.execution
    handle_result ops tick.response task result
        (record executed { memory = executed.memory ++ (task, result) ∷ [] })

  -- the clock is read again only if nothing was reported yet
  unfoldable pub track_idle : Tick → Worker Q → Worker Q
  unfolding idle_start
  track_idle tick w =
      let since = idle_start tick.first_reading w.no_work_since in
      let idle_duration = tick.second_reading - since in
      let w' = record w { no_work_since = some since } in
      if not w.no_work_escalated
        && leb (w.config.no_work_escalation_threshold_minutes * 60) idle_duration
      then record w' { reports = w.reports ++ (idle_duration / 60) ∷ []; no_work_escalated = true }
      else w'

  unfoldable pub behave_idle : IdleBehavior → Worker Q → Step Q
  unfolding stop transition_to
  behave_idle exit w = stop w
  behave_idle wait w = next w
  behave_idle poll w = next w

  unfoldable pub idle : Tick → Worker Q → Step Q
  unfolding track_idle behave_idle
  idle tick w = behave_idle w.config.idle_behavior (track_idle tick w)

  unfoldable pub tick_once : QueueOps Q → Tick → Worker Q → Step Q
  tick_once ops tick w =
      let (found, queue) = ops.pop_highest_priority w.queue in
      elim found [
        | none ↦ idle tick (record w { queue = queue })
        | some task ↦ handle_task ops tick task (record w { queue = queue })
      ]
