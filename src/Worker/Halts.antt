-- ===== src/Worker/Halts.antt =====
-- When a run of a worker comes to its end.
use quinn_ai.Prelude.{
  ◌≤◌, ◌<◌, Bool, true, false, List, [], ◌∷◌, ◌++◌, ◌≡◌, refl, ◌∙◌, arith, Option-cases, Bool-cases,
  inl, inr, All, length, ap, sym, subst,
}
use quinn_ai.State.{
  WorkerState, active, working, stuck, offboarding, terminated, worker_eq, transition_worker, moved,
}
use quinn_ai.Task.{Task, WorkerResult, WorkerConfig, exit}
use quinn_ai.Queue.{QueueOps, QueueLaws}
use quinn_ai.Escalation.Interface.{EscalationResponse}
use quinn_ai.Worker.Machine.{Tick, Worker, Step, next, raised, new_worker, transition_to, stop}
use quinn_ai.Worker.Turn.{handle_result, handle_task, stop_if, idle, tick_once}
use quinn_ai.Worker.Main.{returned, after_turn, loop, finish, shut_down, run}
use quinn_ai.Worker.Ends.{Ends}
use quinn_ai.Worker.Run.{starts_active, goes_on-active, goes_on-offboarding}

-- In the turn nobody calls `stop`, and the escalation handler hands out no new task.
abbrev pub IsCalm : Tick → Type 0
IsCalm tick = (tick.stop_during_task ≡ false) × (tick.response.new_tasks ≡ [])

working_active : {s : WorkerState} → s ≡ working → transition_worker s active ≡ moved active
unfolding transition_worker
working_active h = rw h refl

stuck_active : transition_worker stuck active ≡ moved active
unfolding transition_worker
stuck_active = refl

to_stuck :
    {Q : Type 0} (w : Worker Q)
    → w.state ≡ working
    → transition_to stuck w ≡ next (record w { state = stuck; entered = w.entered ++ stuck ∷ [] })
unfolding transition_to transition_worker
to_stuck w s = rw (s, transition_to) refl

finish_off :
    {Q : Type 0} (v : Worker Q)
    → v.state ≡ offboarding
    → ((finish true (next v)).0 ≡ returned) × ((finish true (next v)).1.state ≡ terminated)
unfolding shut_down transition_to transition_worker
finish_off v h = rw (h, shut_down) (refl, refl)

module _ {Q : Type 0} (ops : QueueOps Q) (laws : QueueLaws ops) where
  open laws use {IsValid, size}

  -- `v` is ready, with this configuration and no more waiting than in `q`.
  record Lighter (halt : Bool) (c : WorkerConfig) (q : Q) (v : Worker Q) : Type 0 where
    state : v.state ≡ active
    should_stop : v.should_stop ≡ halt
    config : v.config ≡ c
    valid : IsValid v.queue
    lighter : size v.queue ≤ size q

  to_active-Lighter :
      (w v : Worker Q) (q : Q)
      → transition_worker v.state active ≡ moved active
      → v.should_stop ≡ w.should_stop
      → v.config ≡ w.config
      → IsValid v.queue
      → size v.queue ≤ size q
      → Ends (Lighter w.should_stop w.config q) (λ u. ⊥) (transition_to active v)
  unfolding transition_to
  to_active-Lighter w v q e s c valid le =
      rw (e, transition_to)
        (record { state = refl; should_stop = s; config = c; valid = valid; lighter = le })

  handle_result-Lighter :
      (response : EscalationResponse) (task : Task) (result : WorkerResult) (w : Worker Q)
      → w.state ≡ working
      → response.new_tasks ≡ []
      → IsValid w.queue
      → Ends
          (Lighter w.should_stop w.config w.queue)
          (λ u. ⊥)
          (handle_result ops response task result w)
  unfolding handle_result
  handle_result-Lighter response task result w s none_new valid =
      elim (Bool-cases result.succeeded) [
        | inl good ↦
            rw (good, handle_result)
              (to_active-Lighter w _ w.queue (working_active s) refl refl
                (laws.mark_done-IsValid task.id w.queue valid)
                (laws.size-mark_done task.id w.queue valid))
        | inr bad ↦ elim (Bool-cases result.needs_escalation) [
          | inr plain ↦
              rw (bad, plain, handle_result)
                (to_active-Lighter w _ w.queue (working_active s) refl refl
                  (laws.mark_blocked-IsValid task.id _ w.queue valid)
                  (laws.size-mark_blocked task.id _ w.queue valid))
          | inl asks ↦ elim (Bool-cases response.resolved) [
            | inl solved ↦
                rw (bad, asks, to_stuck w s, solved, none_new, handle_result)
                  (to_active-Lighter w _ w.queue stuck_active refl refl
                    (laws.mark_done-IsValid task.id w.queue valid)
                    (laws.size-mark_done task.id w.queue valid))
            | inr unsolved ↦
                rw (bad, asks, to_stuck w s, unsolved, handle_result)
                  (to_active-Lighter w _ w.queue stuck_active refl refl
                    (laws.mark_blocked-IsValid task.id _ w.queue valid)
                    (laws.size-mark_blocked task.id _ w.queue valid))
          ]
        ]
      ]

  handle_task-Lighter :
      (tick : Tick) (task : Task) (w : Worker Q)
      → w.state ≡ active
      → IsCalm tick
      → IsValid w.queue
      → Ends (Lighter w.should_stop w.config w.queue) (λ u. ⊥) (handle_task ops tick task w)
  unfolding handle_task transition_to transition_worker stop_if
  handle_task-Lighter tick task w a calm valid =
      rw (a, calm.0, handle_task) (handle_result-Lighter tick.response task _ _ refl calm.1 valid)

  -- Stopped by its own idleness.
  abbrev AtRest : Worker Q → Type 0
  AtRest v = (v.state ≡ offboarding) × (v.should_stop ≡ true)

  idle-AtRest :
      (tick : Tick) (w : Worker Q)
      → w.state ≡ active
      → w.config.idle_behavior ≡ exit
      → Ends AtRest (λ u. ⊥) (idle tick w)
  unfolding idle stop transition_to transition_worker
  idle-AtRest tick w a e = ground arith

  loop_at_rest :
      (ticks : List Tick) (w : Worker Q) → w.should_stop ≡ true → loop ops ticks w ≡ (true, next w)
  unfolding loop
  loop_at_rest [] w s = rw (goes_on-offboarding w s) refl
  loop_at_rest (tick ∷ ticks) w s = rw (goes_on-offboarding w s) refl

  -- The loop ended by its test.
  abbrev Halted : Bool × Step Q → Type 0
  Halted e = (v : Worker Q) × (e ≡ (true, next v)) × (v.state ≡ offboarding)

  after_rest-Halted :
      (ticks : List Tick) (step : Step Q)
      → Ends AtRest (λ u. ⊥) step
      → Halted (after_turn (loop ops ticks) step)
  after_rest-Halted ticks (next v) h = (v, loop_at_rest ticks v h.1, h.0)
  after_rest-Halted ticks (raised v) h = absurd h

  after_task-Halted :
      (rest : Worker Q → Bool × Step Q) (w : Worker Q) (q : Q) (step : Step Q)
      → ((v : Worker Q) → Lighter w.should_stop w.config q v → Halted (rest v))
      → Ends (Lighter w.should_stop w.config q) (λ u. ⊥) step
      → Halted (after_turn rest step)
  after_task-Halted rest w q (next v) ih h = ih v h
  after_task-Halted rest w q (raised v) ih h = absurd h

  loop-Halted :
      (ticks : List Tick) (w : Worker Q)
      → w.state ≡ active
      → w.should_stop ≡ false
      → w.config.idle_behavior ≡ exit
      → IsValid w.queue
      → size w.queue < length ticks
      → All IsCalm ticks
      → Halted (loop ops ticks w)
  unfolding loop tick_once
  loop-Halted [] w a s e valid small calm = absurd (omega arith)
  loop-Halted (tick ∷ ticks) w a s e valid small calm =
      elim (Option-cases (ops.pop_highest_priority w.queue).0) [
        | inl nothing ↦
            rw (goes_on-active w a s, nothing, tick_once)
              (after_rest-Halted ticks _ (idle-AtRest tick _ a e))
        | inr (task, found) ↦
            let popped = (ops.pop_highest_priority w.queue).1 in
            rw (goes_on-active w a s, found, tick_once)
              (after_task-Halted (loop ops ticks) (record w { queue = popped }) popped _
                (λ v h.
                  loop-Halted ticks v h.state (h.should_stop ∙ s)
                    (ap (λ c. c.idle_behavior) h.config ∙ e) h.valid
                    (omega (arith, h.lighter, laws.size-pop w.queue task valid found)) calm.1)
                (handle_task-Lighter tick task _ a calm.0 (laws.pop-IsValid w.queue valid)))
      ]

  -- A worker that exits when idle comes to its end: with a queue that holds fewer tasks than there
  -- are turns, and turns in which nobody calls `stop` and no new task is handed out, `run` returns
  -- with the worker terminated.
  pub run_returns :
      (ticks : List Tick) (config : WorkerConfig) (q : Q)
      → config.idle_behavior ≡ exit
      → IsValid q
      → size q < length ticks
      → All IsCalm ticks
      → ((run ops ticks (new_worker config q)).0 ≡ returned)
        × ((run ops ticks (new_worker config q)).1.state ≡ terminated)
  unfolding run
  run_returns ticks config q e valid small calm =
      let (w, started, a, s, same_queue, same_config) = starts_active config q in
      let (v, halted, off) =
        loop-Halted ticks w a s (ap (λ c. c.idle_behavior) same_config ∙ e)
          (subst IsValid (sym same_queue) valid)
          (subst (λ x. size x < length ticks) (sym same_queue) small) calm in
      rw (started, run) (rw halted (finish_off v off))
