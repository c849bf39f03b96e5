-- ===== src/Worker/Run.antt =====
-- How a run of a worker ends.
use quinn_ai.Prelude.{Bool, true, false, List, [], ◌∷◌, ◌≡◌, refl, ◌⊎◌, inl, inr, arith, any}
use quinn_ai.State.{onboarding, active, offboarding, terminated, worker_eq, transition_worker}
use quinn_ai.Task.{WorkerConfig}
use quinn_ai.Queue.{QueueOps}
use quinn_ai.Worker.Machine.{Tick, Worker, Step, next, raised, ◌>>=◌, new_worker, transition_to}
use quinn_ai.Worker.Turn.{tick_once}
use quinn_ai.Worker.Main.{
  Ending, returned, raised_again, still_running, goes_on, after_turn, loop, finish, shut_down,
  force_down, run,
}
use quinn_ai.Worker.Ends.{AtHead, Off, Ends, StoppedAtTask, tick_once-Ends}

-- `stop` is called during some task.
abbrev pub any_stop : List Tick → Bool
any_stop = any (λ tick. tick.stop_during_task)

module _ {Q : Type 0} where
  -- How the main loop ends: by an exception after a stop during a task, by its test, or it is
  -- still running when no turn is left.
  abbrev pub LoopEnd : Bool → (Bool × Step Q) → Type 0
  LoopEnd stopped (ended, raised v) = Off v × (stopped ≡ true)
  LoopEnd stopped (true, next v) = Off v
  LoopEnd stopped (false, next v) = (v.state ≡ active) × (v.should_stop ≡ false)

  LoopEnd-later :
      (tick : Tick) (ticks : List Tick) (e : Bool × Step Q)
      → LoopEnd (any_stop ticks) e
      → LoopEnd (any_stop (tick ∷ ticks)) e
  LoopEnd-later tick ticks (ended, raised v) h = (h.0, ground arith)
  LoopEnd-later tick ticks (true, next v) h = h
  LoopEnd-later tick ticks (false, next v) h = h

  pub goes_on-active : (w : Worker Q) → w.state ≡ active → w.should_stop ≡ false → goes_on w ≡ true
  unfolding goes_on
  goes_on-active w a s = ground arith

  pub goes_on-offboarding : (w : Worker Q) → w.should_stop ≡ true → goes_on w ≡ false
  unfolding goes_on
  goes_on-offboarding w s = ground arith

  after_turn-LoopEnd :
      (ops : QueueOps Q) (tick : Tick) (ticks : List Tick) (q : Q) (rest : Worker Q → Bool × Step Q)
      → ((v : Worker Q) → AtHead v → LoopEnd (any_stop ticks) (rest v))
      → (step : Step Q) → Ends AtHead (λ v. (v.state ≡ offboarding) × StoppedAtTask ops tick q) step
      → LoopEnd (any_stop (tick ∷ ticks)) (after_turn rest step)
  after_turn-LoopEnd ops tick ticks q rest ih (next v) h =
      LoopEnd-later tick ticks (rest v) (ih v h)
  after_turn-LoopEnd ops tick ticks q rest ih (raised v) h = (h.0, rw h.1.0 refl)

  pub loop-LoopEnd :
      (ops : QueueOps Q) (ticks : List Tick) (w : Worker Q)
      → AtHead w
      → LoopEnd (any_stop ticks) (loop ops ticks w)
  unfolding loop
  loop-LoopEnd ops [] w (inr (a, s)) = rw (goes_on-offboarding w s) a
  loop-LoopEnd ops [] w (inl (a, s)) = rw (goes_on-active w a s) (a, s)
  loop-LoopEnd ops (tick ∷ ticks) w (inr (a, s)) = rw (goes_on-offboarding w s) a
  loop-LoopEnd ops (tick ∷ ticks) w (inl (a, s)) = rw (goes_on-active w a s) (
      after_turn-LoopEnd ops tick ticks w.queue (loop ops ticks) (λ v h. loop-LoopEnd ops ticks v h)
        (tick_once ops tick w) (tick_once-Ends ops tick w a s))

  -- How a whole run ends.
  abbrev pub RunEnd : Bool → (Ending × Worker Q) → Type 0
  RunEnd stopped (ending, w) =
      ((ending ≡ returned) × (w.state ≡ terminated))
      ⊎ ((ending ≡ raised_again) × (w.state ≡ offboarding) × (stopped ≡ true))
      ⊎ ((ending ≡ still_running) × (w.state ≡ active))

  pub force_down-offboarding :
      (w : Worker Q) → w.state ≡ offboarding → (force_down w).state ≡ offboarding
  unfolding force_down transition_worker
  force_down-offboarding w h = ground arith

  finish-RunEnd :
      (stopped ended : Bool) (step : Step Q)
      → LoopEnd stopped (ended, step)
      → RunEnd stopped (finish ended step)
  unfolding shut_down transition_worker
  finish-RunEnd stopped false (next w) h = inr (inr (refl, h.0))
  finish-RunEnd stopped true (next w) h = rw h (inl (refl, refl))
  finish-RunEnd stopped false (raised w) h = inr (inl (refl, force_down-offboarding w h.0, h.1))
  finish-RunEnd stopped true (raised w) h = inr (inl (refl, force_down-offboarding w h.0, h.1))

  pub starts_active :
      (config : WorkerConfig) (q : Q)
      → (w : Worker Q) × ((transition_to onboarding (new_worker config q) >>= transition_to active)
          ≡ next w)
        × (w.state ≡ active)
        × (w.should_stop ≡ false)
        × (w.queue ≡ q)
        × (w.config ≡ config)
  unfolding transition_to new_worker transition_worker
  starts_active config q = (_, refl, refl, refl, refl, refl)

  -- A run of a new worker returns with the worker terminated; or it raises InvalidTransition,
  -- which leaves the worker offboarding and happens only if `stop` was called during a task; or,
  -- with no turn left, the worker is ready for the next turn.
  pub run-RunEnd :
      (ops : QueueOps Q) (ticks : List Tick) (config : WorkerConfig) (q : Q)
      → RunEnd (any_stop ticks) (run ops ticks (new_worker config q))
  unfolding run
  run-RunEnd ops ticks config q =
      let (w, started, a, s, _, _) = starts_active config q in
      rw (started, run) (finish-RunEnd (any_stop ticks) _ _ (loop-LoopEnd ops ticks w (inl (a, s))))
