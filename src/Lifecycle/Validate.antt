-- ===== src/Lifecycle/Validate.antt =====
-- LifecycleConfig and the validations of cli/core/lifecycle.py. The bead's id, which only the
-- messages of the exceptions hold, is left out.
use quinn_ai.Prelude.{
  String, Bool, Option, List, [], lookup, string_eq, if◌then◌else◌, not, ◌||◌, elem,
}
use quinn_ai.Lifecycle.Config.{
  LifecycleDict, Lifecycle, LifecycleStore, Validated, invalid_state, invalid_transition,
  cannot_close, valid, raised, value_or, get_lifecycle_for_type,
}

abbrev pub is_valid_state : Lifecycle → String → Bool
is_valid_state c state = elem state c.states || elem state c.terminal

abbrev pub is_terminal : Lifecycle → String → Bool
is_terminal c state = elem state c.terminal

unfoldable pub get_allowed_transitions : Lifecycle → String → List String
unfolding lookup
get_allowed_transitions c current_state = value_or [] (lookup current_state c.transitions)

unfoldable pub can_transition : Lifecycle → String → String → Bool
unfolding get_allowed_transitions
can_transition c current_state target_state =
    elem target_state (get_allowed_transitions c current_state)

-- what follows the configuration, where it could be read
abbrev pub with_config :
    {A : Type 0}
    → (Lifecycle → Validated A)
    → Validated Lifecycle × LifecycleStore
    → Validated A × LifecycleStore
with_config f (valid c, s) = (f c, s)
with_config f (raised e, s) = (raised e, s)

-- the tests of `validate_state_transition`, in their order
unfoldable pub check_transition : String → String → Lifecycle → Validated (Unit {0})
unfolding get_allowed_transitions can_transition
check_transition current_state target_state c =
    if not (is_valid_state c current_state)
    then raised (invalid_state current_state)
    else if not (is_valid_state c target_state)
    then raised (invalid_state target_state)
    else if not (can_transition c current_state target_state)
    then raised (invalid_transition (get_allowed_transitions c current_state))
    else valid tt

-- the tests of `validate_can_close`
unfoldable pub check_close : String → Lifecycle → Validated (Unit {0})
check_close current_state c =
    if not (is_valid_state c current_state)
    then raised (invalid_state current_state)
    else if not (is_terminal c current_state)
    then raised (cannot_close c.terminal)
    else valid tt

module _ (loads : String → Option LifecycleDict) where
  unfoldable pub validate_state_transition :
      String → String → String → LifecycleStore → Validated (Unit {0}) × LifecycleStore
  unfolding get_lifecycle_for_type check_transition
  validate_state_transition bead_type current_state target_state s =
      with_config (check_transition current_state target_state)
        (get_lifecycle_for_type loads bead_type s)

  unfoldable pub validate_can_close :
      String → String → LifecycleStore → Validated (Unit {0}) × LifecycleStore
  unfolding get_lifecycle_for_type check_close
  validate_can_close bead_type current_state s =
      with_config (check_close current_state) (get_lifecycle_for_type loads bead_type s)

  -- `for_type` reads the configuration, and `get_initial_state` of the config reads it again.
  unfoldable pub get_initial_state : String → LifecycleStore → Validated String × LifecycleStore
  unfolding get_lifecycle_for_type
  get_initial_state bead_type s =
      let read = get_lifecycle_for_type loads bead_type s in
      elim read.0 [
        | raised e ↦ (raised e, read.1)
        | valid _ ↦
            with_config (λ c. valid c.initial) (get_lifecycle_for_type loads bead_type read.1)
      ]

  unfoldable pub get_next_states :
      String → String → LifecycleStore → Validated (List String) × LifecycleStore
  unfolding get_lifecycle_for_type get_allowed_transitions
  get_next_states bead_type current_state s =
      with_config (λ c. valid (get_allowed_transitions c current_state))
        (get_lifecycle_for_type loads bead_type s)

  unfoldable pub get_terminal_states :
      String → LifecycleStore → Validated (List String) × LifecycleStore
  unfolding get_lifecycle_for_type
  get_terminal_states bead_type s =
      with_config (λ c. valid c.terminal) (get_lifecycle_for_type loads bead_type s)
