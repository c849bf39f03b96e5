-- ===== src/Agent.antt =====
-- shared/pyterm/agent_state.py: the activity of an agent during a session. The lock makes each
-- method one step. A callback is a value of the type `C`; a method returns the calls that it
-- makes, in their order. The time is an argument.
pub mod History
mod Examples
use quinn_ai.Prelude.{
  ℕ, Bool, true, false, not, List, [], ◌∷◌, ◌++◌, map, Eq, ◌==◌, elem, arith, ◌≡◌, ◌↔◌,
  if◌then◌else◌,
}

pub data AgentState : Type 0 where
  idle thinking executing_tool waiting_input error paused : AgentState

abbrev pub agent_beq : AgentState → AgentState → Bool
agent_beq idle idle = true
agent_beq thinking thinking = true
agent_beq executing_tool executing_tool = true
agent_beq waiting_input waiting_input = true
agent_beq error error = true
agent_beq paused paused = true
agent_beq _ _ = false

pub agent_beq_iff : (a b : AgentState) → (agent_beq a b ≡ true) ↔ (a ≡ b)
agent_beq_iff a b = ground arith

instance abbrev pub agent_eq : Eq AgentState
agent_eq = record { equals = agent_beq; equals_iff = agent_beq_iff }

unfoldable pub valid_agent_transitions : AgentState → List AgentState
valid_agent_transitions idle = thinking ∷ paused ∷ error ∷ []
valid_agent_transitions thinking = idle ∷ executing_tool ∷ waiting_input ∷ paused ∷ error ∷ []
valid_agent_transitions executing_tool = thinking ∷ idle ∷ waiting_input ∷ paused ∷ error ∷ []
valid_agent_transitions waiting_input = thinking ∷ executing_tool ∷ idle ∷ paused ∷ error ∷ []
valid_agent_transitions error = idle ∷ paused ∷ []
valid_agent_transitions paused = idle ∷ thinking ∷ executing_tool ∷ waiting_input ∷ error ∷ []

-- An entry of the history: the old state, the new state, the time.
pub record Transition : Type 0 where
  pub old_state : AgentState
  pub new_state : AgentState
  pub at : ℕ

pub data Call (C : Type 0) : Type 0 where
  exit_call : C → AgentState → Call C
  change_call : C → AgentState → AgentState → Call C
  enter_call : C → AgentState → Call C

-- `on_enter` and `on_exit` are the dictionaries from a state to its callbacks, `[]` on a missing key.
pub record AgentStateMachine (C : Type 0) : Type 0 where
  pub state : AgentState
  pub state_entered_at : ℕ
  pub change_callbacks : List C
  pub enter_callbacks : AgentState → List C
  pub exit_callbacks : AgentState → List C
  pub transition_history : List Transition

module _ {C : Type 0} where
  unfoldable pub new_machine : ℕ → AgentStateMachine C
  new_machine now = record {
    state = idle;
    state_entered_at = now;
    change_callbacks = [];
    enter_callbacks = λ s. [];
    exit_callbacks = λ s. [];
    transition_history = [];
  }

  unfoldable pub can_transition : AgentStateMachine C → AgentState → Bool
  unfolding valid_agent_transitions
  can_transition m new = elem new (valid_agent_transitions m.state)

  -- exit(old), then change(old, new), then enter(new)
  unfoldable pub fired : AgentStateMachine C → AgentState → List (Call C)
  fired m new =
      map (λ c. exit_call c m.state) (m.exit_callbacks m.state)
      ++ (map (λ c. change_call c m.state new) m.change_callbacks
          ++ map (λ c. enter_call c new) (m.enter_callbacks new))

  unfoldable pub force_transition :
      ℕ → AgentState → AgentStateMachine C → AgentStateMachine C × List (Call C)
  unfolding fired
  force_transition now new m = (
    record m {
      state = new;
      state_entered_at = now;
      transition_history =
          m.transition_history ++ (record { old_state = m.state; new_state = new; at = now }) ∷ [];
    },
    fired m new,
  )

  unfoldable pub transition :
      ℕ → AgentState → AgentStateMachine C → AgentStateMachine C × Bool × List (Call C)
  unfolding can_transition fired
  transition now new m = if not (can_transition m new) then (m, false, []) else (
    record m {
      state = new;
      state_entered_at = now;
      transition_history =
          m.transition_history ++ (record { old_state = m.state; new_state = new; at = now }) ∷ [];
    },
    true,
    fired m new,
  )

  unfoldable pub on_change : C → AgentStateMachine C → AgentStateMachine C
  on_change c m = record m { change_callbacks = m.change_callbacks ++ c ∷ [] }

  unfoldable pub add_callback : AgentState → C → (AgentState → List C) → AgentState → List C
  add_callback s c callbacks t = if s == t then callbacks t ++ c ∷ [] else callbacks t

  unfoldable pub on_enter : AgentState → C → AgentStateMachine C → AgentStateMachine C
  unfolding add_callback
  on_enter s c m = record m { enter_callbacks = add_callback s c m.enter_callbacks }

  unfoldable pub on_exit : AgentState → C → AgentStateMachine C → AgentStateMachine C
  unfolding add_callback
  on_exit s c m = record m { exit_callbacks = add_callback s c m.exit_callbacks }

  unfoldable pub reset : ℕ → AgentStateMachine C → AgentStateMachine C
  reset now m = record m { state = idle; state_entered_at = now; transition_history = [] }

  unfoldable pub is_active : AgentStateMachine C → Bool
  is_active m = elem m.state (thinking ∷ executing_tool ∷ waiting_input ∷ [])

  unfoldable pub is_idle : AgentStateMachine C → Bool
  is_idle m = m.state == idle

  unfoldable pub is_paused : AgentStateMachine C → Bool
  is_paused m = m.state == paused

  unfoldable pub is_error : AgentStateMachine C → Bool
  is_error m = m.state == error

  unfoldable pub get_valid_transitions : AgentStateMachine C → List AgentState
  unfolding valid_agent_transitions
  get_valid_transitions m = valid_agent_transitions m.state
