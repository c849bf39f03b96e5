-- ===== src/Agent/Examples.antt =====
-- The theorems on shared/pyterm/agent_state.py at concrete inputs.
use quinn_ai.Prelude.{ℕ, List, [], ◌∷◌, refl}
use quinn_ai.Agent.{AgentStateMachine, thinking, paused, agent_eq, new_machine}
use quinn_ai.Agent.History.{Op, go, add_change, HasValidHistory, run, run-HasValidHistory}

abbrev script : List (Op ℕ)
script = go 1 thinking ∷ add_change 7 ∷ go 2 thinking ∷ go 3 paused ∷ []

run-HasValidHistory_example : HasValidHistory (run script (new_machine 0))
run-HasValidHistory_example = run-HasValidHistory 0 script (refl, (refl, (refl, (refl, tt))))

abbrev fresh : AgentStateMachine ℕ
unfolding new_machine
fresh = new_machine 0
