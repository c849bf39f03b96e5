-- ===== src/Worker/Main.antt =====
-- `run` of shared/wrkr/core/worker.py: the main loop, the shutdown and the handler of
-- InvalidTransition.
use quinn_ai.Prelude.{
  Bool, true, false, not, ◌&&◌, List, [], ◌∷◌, elem, ◌==◌, if◌then◌else◌, string_eq,
}
use quinn_ai.State.{onboarding, active, offboarding, terminated, worker_eq}
use quinn_ai.Queue.{QueueOps}
use quinn_ai.Worker.Machine.{Tick, Worker, Step, next, raised, ◌>>=◌, transition_to}
use quinn_ai.Worker.Turn.{tick_once}

module _ {Q : Type 0} where
  -- The test of the main loop.
  unfoldable pub goes_on : Worker Q → Bool
  goes_on w = not w.should_stop && not (elem w.state (offboarding ∷ terminated ∷ []))

  -- what follows a turn: the rest of the loop, or the exception that left the loop
  abbrev pub after_turn : (Worker Q → Bool × Step Q) → Step Q → Bool × Step Q
  after_turn rest (next w) = rest w
  after_turn rest (raised w) = (true, raised w)

  -- The main loop over the turns that are given: `true` if it ended by its test, `false` if there
  -- was no turn left.
  unfoldable pub loop : QueueOps Q → List Tick → Worker Q → Bool × Step Q
  loop ops [] w = (not (goes_on w), next w)
  loop ops (tick ∷ ticks) w =
      let turn = after_turn (loop ops ticks) (tick_once ops tick w) in
      if goes_on w then turn else (true, next w)

  -- the end of the `try` block
  unfoldable pub shut_down : Worker Q → Step Q
  unfolding transition_to
  shut_down w =
      if w.state == offboarding
      then transition_to terminated w
      else if not (elem w.state (terminated ∷ []))
      then (transition_to offboarding w >>= transition_to terminated)
      else next w

  -- the worker that a step leaves behind, when its exception is caught and passed over
  abbrev pub settled : Step Q → Worker Q
  settled (next w) = w
  settled (raised w) = w

  -- the handler of InvalidTransition; the inner handler passes
  unfoldable pub force_down : Worker Q → Worker Q
  unfolding transition_to
  force_down w =
      if w.state == terminated
      then w
      else settled (transition_to offboarding w >>= transition_to terminated)

-- How `run` ends: it returns, it raises InvalidTransition again, or it is still in its loop when
-- there are no turns left.
pub data Ending : Type 0 where
  returned raised_again still_running : Ending

module _ {Q : Type 0} where
  abbrev pub finish : Bool → Step Q → Ending × Worker Q
  finish false (next w) = (still_running, w)
  finish ended (raised w) = (raised_again, force_down w)
  finish true (next w) = elim (shut_down w) [
    | next w' ↦ (returned, w')
    | raised w' ↦ (raised_again, force_down w')
  ]

  unfoldable pub run : QueueOps Q → List Tick → Worker Q → Ending × Worker Q
  run ops ticks w = elim (transition_to onboarding w >>= transition_to active) [
    | next w' ↦ let (ended, step) = loop ops ticks w' in finish ended step
    | raised w' ↦ (raised_again, force_down w')
  ]
