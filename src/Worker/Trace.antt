-- ===== src/Worker/Trace.antt =====
-- The states that a worker passes through.
use quinn_ai.Prelude.{
  ◌-◌, ◌*◌, ◌&&◌, leb, Bool, true, false, List, [], ◌∷◌, ◌++◌, ◌≡◌, refl, inl, inr, Option-cases,
  Bool-cases, if◌then◌else◌, ◌==◌, not, sym, subst,
}
use quinn_ai.State.{
  WorkerState, pending, onboarding, active, offboarding, terminated, worker_eq, transition_worker,
  can_transition_worker,
}
use quinn_ai.Task.{Task, WorkerResult, WorkerConfig, IdleBehavior, wait, poll, exit}
use quinn_ai.Queue.{QueueOps}
use quinn_ai.Escalation.Interface.{EscalationResponse}
use quinn_ai.Worker.Machine.{
  Tick, Worker, Step, next, raised, ◌>>=◌, new_worker, transition_to, stop,
}
use quinn_ai.Worker.Turn.{
  handle_result, handle_task, stop_if, idle, behave_idle, track_idle, idle_start, tick_once,
}
use quinn_ai.Worker.Main.{
  Ending, returned, raised_again, goes_on, after_turn, loop, finish, shut_down, force_down, settled,
  run,
}
use quinn_ai.Worker.Ends.{Ends}

-- From `a` the states were entered in this order, each by a valid move, up to `b`.
abbrev pub Trace : WorkerState → List WorkerState → WorkerState → Type 0
Trace a [] b = a ≡ b
Trace a (s ∷ ss) b = (can_transition_worker a s ≡ true) × Trace s ss b

Trace-snoc :
    (a b c : WorkerState) (ss : List WorkerState)
    → Trace a ss b
    → can_transition_worker b c ≡ true
    → Trace a (ss ++ c ∷ []) c
Trace-snoc a b c [] t h = (subst (λ s. can_transition_worker s c ≡ true) (sym t) h, refl)
Trace-snoc a b c (s ∷ ss) t h = (t.0, Trace-snoc s b c ss t.1 h)

module _ {Q : Type 0} where
  -- The states that `_on_state_change` was called with lead from `pending` to the worker's state.
  abbrev pub IsTraced : Worker Q → Type 0
  IsTraced w = Trace pending w.entered w.state

  -- The worker that a step ends with, normally or by an exception, is traced.
  record Traced (step : Step Q) : Type 0 where
    at : Ends IsTraced IsTraced step

  Traced-next : (w : Worker Q) → IsTraced w → Traced (next w)
  Traced-next w h = record { at = h }

  Traced-bind :
      (step : Step Q) (f : Worker Q → Step Q)
      → Traced step
      → ((w : Worker Q) → IsTraced w → Traced (f w))
      → Traced (step >>= f)
  Traced-bind (next w) f h k = k w h.at
  Traced-bind (raised w) f h k = record { at = h.at }

  Traced-if : (b : Bool) (s t : Step Q) → Traced s → Traced t → Traced (if b then s else t)
  Traced-if true s t h k = h
  Traced-if false s t h k = k

  transition_to-Traced :
      (new : WorkerState) (w : Worker Q) → IsTraced w → Traced (transition_to new w)
  unfolding transition_to transition_worker
  transition_to-Traced new w h = elim (Bool-cases (can_transition_worker w.state new)) [
    | inl can ↦ record {
      at = rw (can, transition_to) (Trace-snoc pending w.state new w.entered h can);
    }
    | inr cannot ↦ record { at = rw (cannot, transition_to) h }
  ]

  ruleset traced_rules = (Traced-next, Traced-bind, Traced-if, transition_to-Traced)

  stop-Traced : (w : Worker Q) → IsTraced w → Traced (stop w)
  unfolding stop
  stop-Traced w h = search traced_rules

  handle_result-Traced :
      (ops : QueueOps Q) (response : EscalationResponse) (task : Task) (result : WorkerResult)
      (w : Worker Q)
      → IsTraced w
      → Traced (handle_result ops response task result w)
  unfolding handle_result
  handle_result-Traced ops response task result w h = search traced_rules depth 9

  handle_task-Traced :
      (ops : QueueOps Q) (tick : Tick) (task : Task) (w : Worker Q)
      → IsTraced w
      → Traced (handle_task ops tick task w)
  unfolding handle_task stop_if
  handle_task-Traced ops tick task w h =
      search (traced_rules, stop-Traced, handle_result-Traced) depth 9

  track_idle-IsTraced : (tick : Tick) (w : Worker Q) → IsTraced w → IsTraced (track_idle tick w)
  unfolding track_idle
  track_idle-IsTraced tick w h =
      elim (Bool-cases (
        not w.no_work_escalated
        && leb (w.config.no_work_escalation_threshold_minutes * 60)
            (tick.second_reading - idle_start tick.first_reading w.no_work_since))) [
              | inl late ↦ rw (late, track_idle) h
              | inr early ↦ rw (early, track_idle) h
            ]

  behave_idle-Traced : (b : IdleBehavior) (w : Worker Q) → IsTraced w → Traced (behave_idle b w)
  unfolding behave_idle
  behave_idle-Traced exit w h = stop-Traced w h
  behave_idle-Traced wait w h = Traced-next w h
  behave_idle-Traced poll w h = Traced-next w h

  idle-Traced : (tick : Tick) (w : Worker Q) → IsTraced w → Traced (idle tick w)
  unfolding idle
  idle-Traced tick w h =
      behave_idle-Traced w.config.idle_behavior (track_idle tick w) (track_idle-IsTraced tick w h)

  tick_once-Traced :
      (ops : QueueOps Q) (tick : Tick) (w : Worker Q) → IsTraced w → Traced (tick_once ops tick w)
  unfolding tick_once
  tick_once-Traced ops tick w h = elim (Option-cases (ops.pop_highest_priority w.queue).0) [
    | inl nothing ↦ rw (nothing, tick_once) (idle-Traced tick _ h)
    | inr (task, found) ↦ rw (found, tick_once) (handle_task-Traced ops tick task _ h)
  ]

  after_turn-Traced :
      (rest : Worker Q → Bool × Step Q) (step : Step Q)
      → ((w : Worker Q) → IsTraced w → Traced (rest w).1)
      → Traced step
      → Traced (after_turn rest step).1
  after_turn-Traced rest (next w) k h = k w h.at
  after_turn-Traced rest (raised w) k h = h

  loop-Traced :
      (ops : QueueOps Q) (ticks : List Tick) (w : Worker Q)
      → IsTraced w
      → Traced (loop ops ticks w).1
  unfolding loop
  loop-Traced ops [] w h = Traced-next w h
  loop-Traced ops (tick ∷ ticks) w h = elim (Bool-cases (goes_on w)) [
    | inl go ↦ rw go (
        after_turn-Traced (loop ops ticks) (tick_once ops tick w) (λ v k. loop-Traced ops ticks v k)
          (tick_once-Traced ops tick w h))
    | inr halt ↦ rw halt (Traced-next w h)
  ]

  shut_down-Traced : (w : Worker Q) → IsTraced w → Traced (shut_down w)
  unfolding shut_down
  shut_down-Traced w h = search traced_rules depth 9

  settled-IsTraced : (step : Step Q) → Traced step → IsTraced (settled step)
  settled-IsTraced (next w) h = h.at
  settled-IsTraced (raised w) h = h.at

  force_down-IsTraced : (w : Worker Q) → IsTraced w → IsTraced (force_down w)
  unfolding force_down
  force_down-IsTraced w h = elim (Bool-cases (w.state == terminated)) [
    | inl over ↦ rw (over, force_down) h
    | inr alive ↦
        rw (alive, force_down)
          (settled-IsTraced (transition_to offboarding w >>= transition_to terminated)
            (search traced_rules))
  ]

  returned-IsTraced :
      (step : Step Q)
      → Traced step
      → IsTraced
          (elim step as (λ s. Ending × Worker Q) [
            | next w ↦ (returned, w)
            | raised w ↦ (raised_again, force_down w)
          ]).1
  returned-IsTraced (next w) h = h.at
  returned-IsTraced (raised w) h = force_down-IsTraced w h.at

  new-IsTraced : (config : WorkerConfig) (q : Q) → IsTraced (new_worker config q)
  unfolding new_worker
  new-IsTraced config q = refl

  finish-IsTraced : (ended : Bool) (step : Step Q) → Traced step → IsTraced (finish ended step).1
  finish-IsTraced false (next w) h = h.at
  finish-IsTraced true (next w) h = returned-IsTraced (shut_down w) (shut_down-Traced w h.at)
  finish-IsTraced false (raised w) h = force_down-IsTraced w h.at
  finish-IsTraced true (raised w) h = force_down-IsTraced w h.at

  -- However a run of a new worker ends, the states that `_on_state_change` was called with lead
  -- from `pending` to the worker's state, each by a valid move.
  pub run-IsTraced :
      (ops : QueueOps Q) (ticks : List Tick) (config : WorkerConfig) (q : Q)
      → IsTraced (run ops ticks (new_worker config q)).1
  unfolding run
  run-IsTraced ops ticks config q =
      let start = new_worker config q in
      go (transition_to onboarding start >>= transition_to active)
        (search (traced_rules, new-IsTraced))
    where
      go :
          (step : Step Q)
          → Traced step
          → IsTraced
              (elim step as (λ s. Ending × Worker Q) [
                | next w ↦ let (ended, s) = loop ops ticks w in finish ended s
                | raised w ↦ (raised_again, force_down w)
              ]).1
      go (next w) h = finish-IsTraced _ _ (loop-Traced ops ticks w h.at)
      go (raised w) h = force_down-IsTraced w h.at
