-- ===== src/Worker/StopAtTask.antt =====
-- A stop that reaches the worker of shared/wrkr/core/worker.py while it executes a task.
use quinn_ai.Prelude.{
  if◌then◌else◌, Bool, true, false, List, [], ◌∷◌, ◌++◌, some, ◌≡◌, refl, sym, ap, subst, ◌∙◌,
  arith, Bool-cases, inl, inr,
}
use quinn_ai.State.{active, offboarding, worker_eq}
use quinn_ai.Task.{Task, WorkerConfig}
use quinn_ai.Queue.{QueueOps}
use quinn_ai.Worker.Machine.{Tick, Worker, Step, next, raised, new_worker}
use quinn_ai.Worker.Turn.{tick_once}
use quinn_ai.Worker.Main.{
  Ending, returned, raised_again, still_running, goes_on, after_turn, loop, finish, shut_down,
  force_down, run,
}
use quinn_ai.Worker.Ends.{Ends, handle_task-Ends}
use quinn_ai.Worker.Run.{
  LoopEnd, any_stop, starts_active, goes_on-active, loop-LoopEnd, force_down-offboarding,
}

module _ {Q : Type 0} where
  raised_off :
      (stopped : Bool) (rest : Worker Q → Bool × Step Q) (step : Step Q)
      → stopped ≡ true
      → Ends
          (λ v. (v.state ≡ active) × (v.should_stop ≡ false) × (stopped ≡ false))
          (λ v. (v.state ≡ offboarding) × (stopped ≡ true))
          step
      → (v : Worker Q) × (after_turn rest step ≡ (true, raised v)) × (v.state ≡ offboarding)
  raised_off stopped rest (next v) yes_stopped h = cc
  raised_off stopped rest (raised v) yes_stopped h = (v, refl, h.0)

  after_turn-append :
      (rest longer : Worker Q → Bool × Step Q) (v : Worker Q) (end : Bool × Step Q)
      → ((w : Worker Q) → rest w ≡ (false, next v) → longer w ≡ end)
      → (step : Step Q) → after_turn rest step ≡ (false, next v)
      → after_turn longer step ≡ end
  after_turn-append rest longer v end ih (next w) e = ih w e
  after_turn-append rest longer v end ih (raised w) e = ground (arith, ap (λ r. r.0) e)

  -- A loop that used up its turns goes on with the turns that follow.
  loop-append :
      (ops : QueueOps Q) (ticks more : List Tick) (w v : Worker Q)
      → loop ops ticks w ≡ (false, next v)
      → loop ops (ticks ++ more) w ≡ loop ops more v
  unfolding loop
  loop-append ops [] more w v e =
      let same : w ≡ v = ground (arith, ap (λ r. r.1) e) in ap (loop ops more) same
  loop-append ops (tick ∷ ticks) more w v e = elim (Bool-cases (goes_on w)) [
    | inr ends ↦ ground (arith, ends, ap (λ r. r.0) e)
    | inl on ↦
        let turn : after_turn (loop ops ticks) (tick_once ops tick w) ≡ (false, next v) =
          subst
            (λ b.
              (if b then after_turn (loop ops ticks) (tick_once ops tick w) else (true, next w))
              ≡ (false, next v))
            on e in
        rw on (
          after_turn-append (loop ops ticks) (loop ops (ticks ++ more)) v (loop ops more v)
            (λ u h. loop-append ops ticks more u v h) (tick_once ops tick w) turn)
  ]

  shut-returned :
      (step : Step Q)
      → ¬ (
          (elim step as (λ x. Ending × Worker Q) [
            | next w' ↦ (returned, w')
            | raised w' ↦ (raised_again, force_down w')
          ]).0
          ≡ still_running)
  shut-returned (next w) e = cc
  shut-returned (raised w) e = cc

  finish-running :
      (e : Bool × Step Q)
      → (finish e.0 e.1).0 ≡ still_running
      → e ≡ (false, next (finish e.0 e.1).1)
  finish-running (false, next w) e = refl
  finish-running (false, raised w) e = ground (arith, e)
  finish-running (true, raised w) e = ground (arith, e)
  finish-running (true, next w) e = absurd (shut-returned (shut_down w) e)

-- the last turn of such a run, from a worker that is ready
stopped_turn :
    {Q : Type 0} (ops : QueueOps Q) (tick : Tick) (ticks : List Tick) (v : Worker Q) (task : Task)
    → v.state ≡ active
    → v.should_stop ≡ false
    → (ops.pop_highest_priority v.queue).0 ≡ some task
    → tick.stop_during_task ≡ true
    → (u : Worker Q) × (loop ops (tick ∷ ticks) v ≡ (true, raised u)) × (u.state ≡ offboarding)
unfolding loop tick_once
stopped_turn ops tick ticks v task a s found stopped =
    let (u, raises, off) = raised_off tick.stop_during_task (loop ops ticks) _ stopped (
      handle_task-Ends ops tick task (record v { queue = (ops.pop_highest_priority v.queue).1 }) a
        s) in
    (u, rw (goes_on-active v a s, found, tick_once) raises, off)

-- Whenever a stop is called while the worker executes a task, after whatever turns, it is not an
-- orderly one: a run that is still in its loop after the turns `before`, takes a task in the next
-- turn and is stopped during it ends in that turn, whatever the task comes to and whatever turns
-- would follow: `run` raises InvalidTransition, and the worker is left offboarding, not terminated.
pub run_stop_during_task :
    {Q : Type 0} (ops : QueueOps Q) (before : List Tick) (tick : Tick) (ticks : List Tick)
    (config : WorkerConfig) (q : Q) (task : Task)
    → (run ops before (new_worker config q)).0 ≡ still_running
    → (ops.pop_highest_priority (run ops before (new_worker config q)).1.queue).0 ≡ some task
    → tick.stop_during_task ≡ true
    → ((run ops (before ++ tick ∷ ticks) (new_worker config q)).0 ≡ raised_again)
      × ((run ops (before ++ tick ∷ ticks) (new_worker config q)).1.state ≡ offboarding)
unfolding run
run_stop_during_task {Q = Q} ops before tick ticks config q task running found stopped =
    let (w, started, a, s, _, _) = starts_active config q in
    let runs : (turns : List Tick)
        → run ops turns (new_worker config q) ≡ finish (loop ops turns w).0 (loop ops turns w).1 =
      λ turns. rw (started, run) refl in
    let v = (run ops before (new_worker config q)).1 in
    let still : loop ops before w ≡ (false, next v) =
      subst (λ r. loop ops before w ≡ (false, next r.1)) (sym (runs before))
        (finish-running (loop ops before w) (ap (λ r. r.0) (sym (runs before)) ∙ running)) in
    let (active_v, going) =
      subst (λ (r : Bool × Step Q). LoopEnd (any_stop before) r) still
        (loop-LoopEnd ops before w (inl (a, s))) in
    let (u, ends, off) = stopped_turn ops tick ticks v task active_v going found stopped in
    rw (runs (before ++ tick ∷ ticks), loop-append ops before (tick ∷ ticks) w v still, ends)
      (refl, force_down-offboarding u off)
