-- ===== src/Worker/Ends.antt =====
-- How one turn of a worker's main loop ends.
use quinn_ai.Prelude.{
  true, false, none, some, ◌≡◌, ◌≢◌, refl, ◌∙◌, ◌⊎◌, inl, inr, arith, Option-cases, Bool-cases,
}
use quinn_ai.State.{active, working, offboarding, worker_eq, transition_worker}
use quinn_ai.Task.{Task, WorkerResult}
use quinn_ai.Queue.{QueueOps}
use quinn_ai.Escalation.Interface.{EscalationResponse}
use quinn_ai.Worker.Machine.{Tick, Worker, Step, next, raised, transition_to, stop}
use quinn_ai.Worker.Turn.{handle_result, handle_task, stop_if, idle, tick_once}

module _ {Q : Type 0} where
  -- The worker is between two turns: ready, or told to stop and offboarding.
  abbrev pub AtHead : Worker Q → Type 0
  AtHead w =
      ((w.state ≡ active) × (w.should_stop ≡ false))
      ⊎ ((w.state ≡ offboarding) × (w.should_stop ≡ true))

  abbrev pub Off : Worker Q → Type 0
  Off w = w.state ≡ offboarding

  -- Holds of the worker that a step ends with.
  abbrev pub Ends : (Worker Q → Type 0) → (Worker Q → Type 0) → Step Q → Type 0
  Ends N R (next w) = N w
  Ends N R (raised w) = R w

  pub Ends-mono :
      (N R N' R' : Worker Q → Type 0) (step : Step Q)
      → ((v : Worker Q) → N v → N' v)
      → ((v : Worker Q) → R v → R' v)
      → Ends N R step
      → Ends N' R' step
  Ends-mono N R N' R' (next w) n r h = n w h
  Ends-mono N R N' R' (raised w) n r h = r w h

  pub idle-AtHead :
      (tick : Tick) (w : Worker Q)
      → w.state ≡ active
      → w.should_stop ≡ false
      → Ends AtHead (λ v. ⊥) (idle tick w)
  unfolding idle stop transition_to transition_worker
  idle-AtHead tick w a s = ground arith

  pub handle_result-active :
      (ops : QueueOps Q) (response : EscalationResponse) (task : Task) (result : WorkerResult)
      (w : Worker Q)
      → w.state ≡ working
      → Ends
          (λ v. (v.state ≡ active) × (v.should_stop ≡ w.should_stop))
          (λ v. ⊥)
          (handle_result ops response task result w)
  unfolding handle_result transition_worker
  handle_result-active ops response task result w s = ground arith

  pub handle_result-stopped :
      (ops : QueueOps Q) (response : EscalationResponse) (task : Task) (result : WorkerResult)
      (w : Worker Q)
      → w.state ≡ offboarding
      → Ends (λ v. ⊥) (λ v. v.state ≡ offboarding) (handle_result ops response task result w)
  unfolding handle_result transition_worker
  handle_result-stopped ops response task result w s = ground arith

  -- A task during which `stop` is called ends in InvalidTransition, any other with a ready worker.
  pub handle_task-Ends :
      (ops : QueueOps Q) (tick : Tick) (task : Task) (w : Worker Q)
      → w.state ≡ active
      → w.should_stop ≡ false
      → Ends
          (λ v. (v.state ≡ active) × (v.should_stop ≡ false) × (tick.stop_during_task ≡ false))
          (λ v. (v.state ≡ offboarding) × (tick.stop_during_task ≡ true))
          (handle_task ops tick task w)
  unfolding handle_task transition_to transition_worker stop_if stop
  handle_task-Ends ops tick task w a s = elim (Bool-cases tick.stop_during_task) [
    | inl stopped ↦
        rw (a, stopped)
          (Ends-mono (λ v. ⊥) Off
            (λ v. (v.state ≡ active) × (v.should_stop ≡ false) × (true ≡ false))
            (λ v. (v.state ≡ offboarding) × (true ≡ true)) _ (λ v h. absurd h) (λ v h. (h, refl))
            (handle_result-stopped ops tick.response task _ _ refl))
    | inr calm ↦
        rw (a, calm)
          (Ends-mono (λ v. (v.state ≡ active) × (v.should_stop ≡ w.should_stop)) (λ v. ⊥)
            (λ v. (v.state ≡ active) × (v.should_stop ≡ false) × (false ≡ false))
            (λ v. (v.state ≡ offboarding) × (false ≡ true)) _ (λ v h. (h.0, h.1 ∙ s, refl))
            (λ v h. absurd h) (handle_result-active ops tick.response task _ _ refl))
  ]

  -- In the turn a task was found, and `stop` was called while it was executed.
  abbrev pub StoppedAtTask : QueueOps Q → Tick → Q → Type 0
  StoppedAtTask ops tick q = (tick.stop_during_task ≡ true) × (ops.pop_highest_priority q).0 ≢ none

  pub tick_once-Ends :
      (ops : QueueOps Q) (tick : Tick) (w : Worker Q)
      → w.state ≡ active
      → w.should_stop ≡ false
      → Ends AtHead
          (λ v. (v.state ≡ offboarding) × StoppedAtTask ops tick w.queue)
          (tick_once ops tick w)
  unfolding tick_once
  tick_once-Ends ops tick w a s = elim (Option-cases (ops.pop_highest_priority w.queue).0) [
    | inl nothing ↦
        rw (nothing, tick_once)
          (Ends-mono AtHead (λ v. ⊥) AtHead _ _ (λ v h. h) (λ v h. absurd h)
            (idle-AtHead tick _ a s))
    | inr (task, found) ↦
        rw (found, tick_once)
          (Ends-mono
            (λ v. (v.state ≡ active) × (v.should_stop ≡ false) × (tick.stop_during_task ≡ false))
            (λ v. (v.state ≡ offboarding) × (tick.stop_during_task ≡ true)) AtHead
            (λ v. (v.state ≡ offboarding) × ((tick.stop_during_task ≡ true) × (some task ≢ none))) _
            (λ v h. inl (h.0, h.1)) (λ v h. (h.0, (h.1, λ e. cc)))
            (handle_task-Ends ops tick task _ a s))
  ]
